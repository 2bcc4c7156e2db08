-- ===== src/Json.antt =====
-- JSON-safe values and the dictionaries that the program passes about: tool arguments, plan items,
-- encoded messages. A float is carried by its literal.
use park_smart_harness.Base.{
  ℕ, String, Bool, true, false, Option, none, some, List, [], ◌∷◌, ◌==◌, ◌&&◌, not, leb,
  if◌then◌else◌,
}

pub data ℤ : Type 0 where
  pos : ℕ → ℤ
  negsuc : ℕ → ℤ

mutual
  pub data Json : Type 0 where
    null : Json
    bool : Bool → Json
    int : ℤ → Json
    float : String → Json
    str : String → Json
    arr : Items → Json
    obj : Dict → Json

  pub data Items : Type 0 where
    nil : Items
    cons : Json → Items → Items

  pub data Dict : Type 0 where
    end : Dict
    entry : String → Json → Dict → Dict

-- `d.get(k)`; keys of a Python dict are distinct, so the first is the only one.
abbrev pub get : String → Dict → Option Json
get k end = none
get k (entry j v d) = if j == k then some v else get k d

abbrev pub list_of : Items → List Json
list_of nil = []
list_of (cons v vs) = v ∷ list_of vs

abbrev pub items_of : List Json → Items
items_of [] = nil
items_of (v ∷ vs) = cons v (items_of vs)

str_eq : String → String → Bool
str_eq a b = a == b

bool_eq : Bool → Bool → Bool
bool_eq true b = b
bool_eq false b = not b

nat_eq : ℕ → ℕ → Bool
nat_eq a b = leb a b && leb b a

int_eq : ℤ → ℤ → Bool
int_eq (pos a) (pos b) = nat_eq a b
int_eq (negsuc a) (negsuc b) = nat_eq a b
int_eq _ _ = false

-- Equal `repr`: the order of the keys of an inner dict counts.
unfoldable mutual
  unfolding str_eq bool_eq int_eq nat_eq

  pub json_eq : Json → Json → Bool
  json_eq null null = true
  json_eq (bool a) (bool b) = bool_eq a b
  json_eq (int a) (int b) = int_eq a b
  json_eq (float a) (float b) = str_eq a b
  json_eq (str a) (str b) = str_eq a b
  json_eq (arr a) (arr b) = items_eq a b
  json_eq (obj a) (obj b) = dict_eq a b
  json_eq _ _ = false

  pub items_eq : Items → Items → Bool
  items_eq nil nil = true
  items_eq (cons a as') (cons b bs) = json_eq a b && items_eq as' bs
  items_eq _ _ = false

  pub dict_eq : Dict → Dict → Bool
  dict_eq end end = true
  dict_eq (entry j a d) (entry k b e) = str_eq j k && (json_eq a b && dict_eq d e)
  dict_eq _ _ = false

abbrev pub entries : Dict → List (String × Json)
entries end = []
entries (entry k v d) = (k, v) ∷ entries d
