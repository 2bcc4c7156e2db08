-- ===== src/Base/Text.antt =====
-- Text as Python tests and builds it: `s.strip()` as a test, slices, decimal numbers.
use Prim.Native.Nat.{ℕ, zero, suc, ◌/◌, ◌%◌, compare, Ordering}
use Prim.Native.Char.{Char, code}
use Prim.Native.String.{String, ◌++◌}
use mathlib.Core.Bool.{Bool, true, false, ◌||◌}
use mathlib.Core.Option.{Option, none, some}
use text.Mathlib.Text.{find?, ◌==◌}

between : ℕ → ℕ → ℕ → Bool
between lo hi c = elim (compare c lo) [
  | Ordering.lt ↦ false
  | _ ↦ elim (compare c hi) [ Ordering.gt ↦ false | _ ↦ true ]
]

-- The code points for which `str.isspace` holds; `strip` removes these.
unfoldable pub is_space : ℕ → Bool
unfolding between
is_space c =
    between 0x09 0x0d c
    || between 0x1c 0x20 c
    || between 0x85 0x85 c
    || between 0xa0 0xa0 c
    || between 0x1680 0x1680 c
    || between 0x2000 0x200a c
    || between 0x2028 0x2029 c
    || between 0x202f 0x202f c
    || between 0x205f 0x205f c
    || between 0x3000 0x3000 c

-- `bool(s.strip())`: some character is no white space.
unfoldable pub has_text : String → Bool
unfolding is_space
has_text String.[] = false
has_text (String.◌∷◌ c s) = elim (is_space (code c)) [ true ↦ has_text s | false ↦ true ]

-- `bool(s)`
abbrev pub nonempty : String → Bool
nonempty String.[] = false
nonempty (String.◌∷◌ c s) = true

-- `len(s)`, in characters
unfoldable pub chars : String → ℕ
chars String.[] = 0
chars (String.◌∷◌ c s) = suc (chars s)

-- `s[:n]`
unfoldable pub first_chars : ℕ → String → String
first_chars zero s = ""
first_chars (suc n) String.[] = ""
first_chars (suc n) (String.◌∷◌ c s) = String.◌∷◌ c (first_chars n s)

abbrev is_found : Option ℕ → Bool
is_found none = false
is_found (some i) = true

-- `t in s`
unfoldable pub contains : String → String → Bool
contains s t = is_found (find? s t)

digit : ℕ → String
digit zero = "0"
digit (suc zero) = "1"
digit (suc (suc zero)) = "2"
digit (suc (suc (suc zero))) = "3"
digit (suc (suc (suc (suc zero)))) = "4"
digit (suc (suc (suc (suc (suc zero))))) = "5"
digit (suc (suc (suc (suc (suc (suc zero)))))) = "6"
digit (suc (suc (suc (suc (suc (suc (suc zero))))))) = "7"
digit (suc (suc (suc (suc (suc (suc (suc (suc zero)))))))) = "8"
digit _ = "9"

-- The fuel is the number itself: a decimal has fewer digits than that, and one at least.
decimal : ℕ → ℕ → String
unfolding digit
decimal zero n = digit n
decimal (suc fuel) n = elim (n / 10) [
  | zero ↦ digit n
  | suc q ↦ decimal fuel (suc q) ++ digit (n % 10)
]

-- `str(n)`
unfoldable pub show : ℕ → String
unfolding decimal
show n = decimal n n

-- `s.endswith(t)`
unfoldable pub ends_with : String → String → Bool
ends_with String.[] t = String.[] == t
ends_with (String.◌∷◌ c s) t = (String.◌∷◌ c s) == t || ends_with s t

strip_end_cons : Char → String → String
unfolding is_space
strip_end_cons c String.[] = elim (is_space (code c)) [ true ↦ "" | false ↦ String.◌∷◌ c "" ]
strip_end_cons c (String.◌∷◌ d s) = String.◌∷◌ c (String.◌∷◌ d s)

unfoldable pub strip_end : String → String
unfolding strip_end_cons
strip_end String.[] = ""
strip_end (String.◌∷◌ c s) = strip_end_cons c (strip_end s)

unfoldable pub strip_start : String → String
unfolding is_space
strip_start String.[] = ""
strip_start (String.◌∷◌ c s) = elim (is_space (code c)) [
  | true ↦ strip_start s
  | false ↦ String.◌∷◌ c s
]

-- `s.strip()`
unfoldable pub strip : String → String
unfolding strip_start strip_end
strip s = strip_end (strip_start s)
