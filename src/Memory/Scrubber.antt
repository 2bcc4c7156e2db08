-- ===== src/Memory/Scrubber.antt =====
-- agent_context/memory.py (`StreamingContextScrubber`): streamed text without its fenced spans. A
-- text is the list of its code points.
pub mod Laws
pub mod Feed
pub mod Stream
use Prim.Native.Nat.{compare, Ordering}
use Prim.Native.Char.{code}
use park_smart_harness.Base.{
  ℕ, zero, suc, ◌+◌, ◌-◌, String, Bool, true, false, Option, none, some, List, [], ◌∷◌, ◌++◌, ◌&&◌,
  not, leb, length, take, drop, if◌then◌else◌,
}

abbrev pub Text : Type 0
Text = List ℕ

abbrev pub codes : String → Text
codes String.[] = []
codes (String.◌∷◌ c s) = code c ∷ codes s

abbrev pub same_code : ℕ → ℕ → Bool
same_code a b = elim (compare a b) [ Ordering.eq ↦ true | _ ↦ false ]

-- `s.startswith(t)`, the prefix first
unfoldable pub starts : Text → Text → Bool
starts [] s = true
starts (x ∷ t) [] = false
starts (x ∷ t) (y ∷ s) = same_code x y && starts t s

abbrev pub suc_option : Option ℕ → Option ℕ
suc_option none = none
suc_option (some i) = some (suc i)

-- `s.find(t)`; `none` is -1.
unfoldable pub find_text : Text → Text → Option ℕ
unfolding starts
find_text t [] = if starts t [] then some 0 else none
find_text t (c ∷ s) =
    let later = find_text t s in if starts t (c ∷ s) then some 0 else suc_option later

-- The tag that ends what the scrubber is in: the closing one in a span, else the opening one.
unfoldable pub tag_of : Bool → Text
tag_of false = codes "<memory-context>"
tag_of true = codes "</memory-context>"

pub record Scrubber : Type 0 where
  pub in_span : Bool
  pub buf : Text

abbrev pub fresh : Scrubber
fresh = record { in_span = false; buf = [] }

-- Of a length `i` down to 1, the first whose suffix of `b` starts the tag.
unfoldable pub partial_from : Text → Text → ℕ → ℕ
partial_from t b zero = 0
partial_from t b (suc i) =
    let less = partial_from t b i in if starts (drop (length b - suc i) b) t then suc i else less

abbrev pub smaller : ℕ → ℕ → ℕ
smaller a b = if leb a b then a else b

-- Text in a span is not seen.
abbrev pub outside : Bool → Text → Text
outside true s = []
outside false s = s

abbrev pub after : Text → Scrubber × Text → Scrubber × Text
after out r = (r.0, out ++ r.1)

module _ (lower : Text → Text) where
  -- `_max_partial_suffix`
  unfoldable pub max_partial_suffix : Text → Text → ℕ
  unfolding partial_from
  max_partial_suffix b t =
      partial_from (lower t) (lower b) (smaller (length (lower b)) (length (lower t) - 1))

  abbrev pub hold : Bool → Text → Scrubber × Text
  hold span b =
      let cut = length b - max_partial_suffix b (tag_of span) in
      (record { in_span = span; buf = drop cut b }, outside span (take cut b))

  -- `while buf`; a round takes a whole tag off, so the length of the text is fuel enough.
  unfoldable pub feed_loop : ℕ → Bool → Text → Scrubber × Text
  unfolding max_partial_suffix find_text tag_of
  feed_loop zero span b = (record { in_span = span; buf = [] }, [])
  feed_loop (suc fuel) span [] = (record { in_span = span; buf = [] }, [])
  feed_loop (suc fuel) span (c ∷ cs) = elim (find_text (tag_of span) (lower (c ∷ cs))) [
    | none ↦ hold span (c ∷ cs)
    | some i ↦
        after (outside span (take i (c ∷ cs)))
          (feed_loop fuel (not span) (drop (i + length (tag_of span)) (c ∷ cs)))
  ]

  -- `feed`
  unfoldable pub feed : Scrubber → Text → Scrubber × Text
  unfolding feed_loop
  feed st [] = (st, [])
  feed st (c ∷ cs) = feed_loop (length (st.buf ++ (c ∷ cs))) st.in_span (st.buf ++ (c ∷ cs))

  -- The texts of a stream, one after the other.
  unfoldable pub feed_all : Scrubber → List Text → Scrubber × Text
  unfolding feed
  feed_all st [] = (st, [])
  feed_all st (t ∷ ts) = let fed = feed st t in after fed.1 (feed_all fed.0 ts)

-- `flush`
unfoldable pub flush : Scrubber → Scrubber × Text
flush st = if st.in_span then (fresh, []) else (record st { buf = [] }, st.buf)
