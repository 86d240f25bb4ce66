-- ===== src/Exec/Ends.antt =====
-- How a run of a method over any state ends.
use layer_backend.Base.{◌≡◌, refl}
use layer_backend.Shared.Errors.{Exception}
use layer_backend.Exec.{Result, ok, err, Exec, ◌>>=◌}

module _ {S A B : Type 0} (Q : Result B × S → Type 0) where
  pub bind-ends :
      (m : Exec S A) (f : A → Exec S B) (s : S)
      → ((a : A) → (m s).0 ≡ ok a → Q (f a (m s).1))
      → ((e : Exception) → (m s).0 ≡ err e → Q (err e, (m s).1))
      → Q ((m >>= f) s)
  bind-ends m f s resolved rejected = go (m s).0 resolved rejected
    where
      go :
          (r : Result A)
          → ((a : A) → r ≡ ok a → Q (f a (m s).1))
          → ((e : Exception) → r ≡ err e → Q (err e, (m s).1))
          → Q (elim r [ ok a ↦ f a (m s).1 | err e ↦ (err e, (m s).1) ])
      go (ok a) yes_ok no_ok = yes_ok a refl
      go (err e) yes_ok no_ok = no_ok e refl
