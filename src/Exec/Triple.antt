-- ===== src/Exec/Triple.antt =====
-- Total-correctness triples: from a state with `P` the action ends, with a result and a state that
-- satisfy `Q`, or with an error and a state that satisfy `E`.
use park_smart_harness.Base.{◌≡◌, refl, Bool, true, false, if◌then◌else◌}
use park_smart_harness.Exec.{Exc, ok, raised, Error, Exec, pure, ◌>>=◌, continue}

abbrev pub Post {ℓ} : {S A : Type ℓ} → (A → S → Type ℓ) → (Error → S → Type ℓ) → Exc A × S → Type ℓ
Post Q E (ok a, s) = Q a s
Post Q E (raised e, s) = E e s

pub record Triple {ℓ} {S A : Type ℓ} (P : S → Type ℓ) (m : Exec S A) (Q : A → S → Type ℓ)
    (E : Error → S → Type ℓ) : Type ℓ where
  pub at : (s : S) → P s → Post Q E (m s)

module _ {ℓ} {S A : Type ℓ} {P : S → Type ℓ} {Q : A → S → Type ℓ} {E : Error → S → Type ℓ} where
  pub Triple-pure : (a : A) → ((s : S) → P s → Q a s) → Triple P (pure a) Q E
  Triple-pure a h = record { at = h }

  pub Triple-weaken :
      {P' : S → Type ℓ} {Q' : A → S → Type ℓ} {E' : Error → S → Type ℓ} {m : Exec S A}
      → Triple P' m Q' E'
      → ((s : S) → P s → P' s)
      → ((a : A) (s : S) → Q' a s → Q a s)
      → ((e : Error) (s : S) → E' e s → E e s)
      → Triple P m Q E
  Triple-weaken {Q'} {E'} {m} t p q e = record { at = λ s h. go (m s) (t.at s (p s h)) }
    where
      go : (r : Exc A × S) → Post Q' E' r → Post Q E r
      go (ok a, s) = q a s
      go (raised x, s) = e x s

  pub Triple-if :
      (b : Bool) (m n : Exec S A)
      → (b ≡ true → Triple P m Q E)
      → (b ≡ false → Triple P n Q E)
      → Triple P (if b then m else n) Q E
  Triple-if true m n km kn = km refl
  Triple-if false m n km kn = kn refl

module _ {ℓ} {S A B : Type ℓ} {P : S → Type ℓ} {R : A → S → Type ℓ} {Q : B → S → Type ℓ}
    {E : Error → S → Type ℓ} where
  pub Triple-bind :
      {m : Exec S A} {f : A → Exec S B}
      → Triple P m R E
      → ((a : A) → Triple (R a) (f a) Q E)
      → Triple P (m >>= f) Q E
  unfolding ◌>>=◌
  Triple-bind {m} {f} t k = record { at = λ s h. go (m s) (t.at s h) }
    where
      go : (r : Exc A × S) → Post R E r → Post Q E (continue r.0 f r.1)
      go (ok a, s) h = (k a).at s h
      go (raised x, s) h = h
