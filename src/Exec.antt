-- ===== src/Exec.antt =====
-- Code that mutates shared objects and may raise. What was written before a raise stays written,
-- so the state comes back beside the error too.
pub mod Triple
use mathlib.Core.List.{List, [], ◌∷◌}
use park_smart_harness.Base.{String}

-- `persist_error` is `_PersistError` of agent_loop/loop.py; any other exception is its text.
pub data Error : Type 0 where
  persist_error : Error
  exception : String → Error

pub data Exc {ℓ} (A : Type ℓ) : Type ℓ where
  ok : A → Exc A
  raised : Error → Exc A

abbrev pub Exec {ℓ} : Type ℓ → Type ℓ → Type ℓ
Exec S A = S → Exc A × S

module _ {ℓ} {S A : Type ℓ} where
  abbrev pub gets : (S → A) → Exec S A
  gets read s = (ok (read s), s)

  abbrev pub pure : A → Exec S A
  pure a = gets λ s. a

  abbrev pub raise : Error → Exec S A
  raise e s = (raised e, s)

module _ {ℓ} {S A B : Type ℓ} where
  abbrev pub continue : Exc A → (A → Exec S B) → Exec S B
  continue (ok a) f s = f a s
  continue (raised e) f s = (raised e, s)

  infixl 10 ◌>>=◌ ◌>>◌
  unfoldable pub ◌>>=◌ : Exec S A → (A → Exec S B) → Exec S B
  ◌>>=◌ m f s = let (r, s') = m s in continue r f s'

  abbrev pub ◌>>◌ : Exec S A → Exec S B → Exec S B
  m >> n = m >>= λ _. n

-- `except Exception as e: raise error from e`
abbrev pub recast {ℓ} : {A : Type ℓ} → Error → Exc A → Exc A
recast e (ok a) = ok a
recast e (raised x) = raised e

module _ {ℓ} {S A : Type ℓ} where
  unfoldable pub catch_as : Error → Exec S A → Exec S A
  catch_as e m s = let (r, s') = m s in (recast e r, s')
