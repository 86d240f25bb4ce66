-- ===== src/World/Ends.antt =====
-- How a run of a method ends: rules that follow it from one state, keeping what each part returned.
use layer_backend.Base.{String, Option, none, some, ◌≡◌, refl, arith}
use layer_backend.Shared.Errors.{Exception, handle_exception_code}
use layer_backend.Exec.{Result, ok, err, or_throw, rethrow, settled, ◌>>=◌}
use layer_backend.Platform.{Platform}
use layer_backend.World.{World, Db, M, query}

module _ (p : Platform) {A B : Type 0} (Q : Result B × World p → Type 0) where
  pub bind-ends :
      (m : M p A) (f : A → M p B) (w : World p)
      → ((a : A) → (m w).0 ≡ ok a → Q (f a (m w).1))
      → ((e : Exception) → (m w).0 ≡ err e → Q (err e, (m w).1))
      → Q ((m >>= f) w)
  bind-ends m f w resolved rejected = go (m w).0 resolved rejected
    where
      go :
          (r : Result A)
          → ((a : A) → r ≡ ok a → Q (f a (m w).1))
          → ((e : Exception) → r ≡ err e → Q (err e, (m w).1))
          → Q (elim r [ ok a ↦ f a (m w).1 | err e ↦ (err e, (m w).1) ])
      go (ok a) yes_ok no_ok = yes_ok a refl
      go (err e) yes_ok no_ok = no_ok e refl

  pub settled-ends :
      (m : M p A) (next : Result A → M p B) (w : World p)
      → ((a : A) → (m w).0 ≡ ok a → Q (next (ok a) (m w).1))
      → ((e : Exception) → (m w).0 ≡ err e → Q (next (err e) (m w).1))
      → Q (settled m next w)
  unfolding settled
  settled-ends m next w resolved rejected = go (m w).0 resolved rejected
    where
      go :
          (r : Result A)
          → ((a : A) → r ≡ ok a → Q (next (ok a) (m w).1))
          → ((e : Exception) → r ≡ err e → Q (next (err e) (m w).1))
          → Q (next r (m w).1)
      go (ok a) yes_ok no_ok = yes_ok a refl
      go (err e) yes_ok no_ok = no_ok e refl

  pub or_throw-ends :
      (e : Exception) (o : Option A) (f : A → M p B) (w : World p)
      → ((a : A) → o ≡ some a → Q (f a w))
      → Q (err e, w)
      → Q ((or_throw e o >>= f) w)
  or_throw-ends e none f w found missing = missing
  or_throw-ends e (some a) f w found missing = found a refl

module _ (p : Platform) {A : Type 0} where
  pub rethrow-ends :
      (Q : Result A × World p → Type 0) (s : String) (m : M p A) (w : World p)
      → ((a : A) → (m w).0 ≡ ok a → Q (ok a, (m w).1))
      → ((e : Exception) → (m w).0 ≡ err e → Q (err (handle_exception_code e s), (m w).1))
      → Q (rethrow s m w)
  unfolding rethrow
  rethrow-ends Q s m w resolved rejected = go (m w).0 resolved rejected
    where
      go :
          (r : Result A)
          → ((a : A) → r ≡ ok a → Q (ok a, (m w).1))
          → ((e : Exception) → r ≡ err e → Q (err (handle_exception_code e s), (m w).1))
          → Q (elim r [
            | ok a ↦ (ok a, (m w).1)
            | err e ↦ (err (handle_exception_code e s), (m w).1)
          ])
      go (ok a) yes_ok no_ok = yes_ok a refl
      go (err e) yes_ok no_ok = no_ok e refl

  -- A query returns what it reads, and leaves the database alone.
  pub query-ok : (read : Db p → A) (w : World p) (a : A) → (query p read w).0 ≡ ok a → a ≡ read w.db
  unfolding query
  query-ok read w a h = ground arith

  pub query-db : (read : Db p → A) (w : World p) → (query p read w).1.db ≡ w.db
  unfolding query
  query-db read w = ground arith
