-- ===== src/Exec.antt =====
-- An asynchronous method of a service: it changes a state and resolves to a value or rejects with an
-- exception. What was written before a rejection stays written, so the state comes back as well.
pub mod Ends
use layer_backend.Base.{List, [], ◌∷◌, Option, none, some, Bool, true, false, String}
use layer_backend.Shared.Errors.{Exception, handle_exception_code}

pub data Result {ℓ} (A : Type ℓ) : Type ℓ where
  ok : A → Result A
  err : Exception → Result A

abbrev pub is_err {ℓ} : {A : Type ℓ} → Result A → Bool
is_err (ok a) = false
is_err (err e) = true

abbrev pub Exec {ℓ} : Type ℓ → Type ℓ → Type ℓ
Exec S A = S → Result A × S

module _ {ℓ} {S A : Type ℓ} where
  abbrev pub pure : A → Exec S A
  pure a s = (ok a, s)

  abbrev pub throw : Exception → Exec S A
  throw e s = (err e, s)

  -- A value, or an exception where there is none.
  abbrev pub or_throw : Exception → Option A → Exec S A
  or_throw e none = throw e
  or_throw e (some a) = pure a

  abbrev pub lift : Result A → Exec S A
  lift r s = (r, s)

  abbrev pub gets : (S → A) → Exec S A
  gets f s = (ok (f s), s)

  -- `try { … } catch (error) { … }`.
  abbrev pub catch : Exec S A → (Exception → Exec S A) → Exec S A
  catch m handler s = let (r, s') = m s in elim r [ ok a ↦ (ok a, s') | err e ↦ handler e s' ]

  -- `catch (error) { throw handleExceptionCode(error, errorMessage) }`, as in every service.
  unfoldable pub rethrow : String → Exec S A → Exec S A
  unfolding handle_exception_code
  rethrow error_message m = catch m λ e. throw (handle_exception_code e error_message)

  -- `try { … } finally { … }`, where the last part cannot throw.
  abbrev pub finally : Exec S A → (S → S) → Exec S A
  finally m last s = let (r, s') = m s in (r, last s')

module _ {ℓ} {S A B : Type ℓ} where
  infixl 10 ◌>>=◌
  abbrev pub ◌>>=◌ : Exec S A → (A → Exec S B) → Exec S B
  ◌>>=◌ m f s = let (r, s') = m s in elim r [ ok a ↦ f a s' | err e ↦ (err e, s') ]

  infixl 10 ◌>>◌
  abbrev pub ◌>>◌ : Exec S A → Exec S B → Exec S B
  m >> n = m >>= λ _. n

module _ {ℓ} {S A B : Type ℓ} where
  -- `try` and `catch` whose two branches go on differently: what follows is given the outcome.
  unfoldable pub settled : Exec S A → (Result A → Exec S B) → Exec S B
  settled m next s = let (r, s') = m s in next r s'

module _ {S : Type 0} where
  abbrev pub when : Bool → Exec S (Unit {0}) → Exec S (Unit {0})
  when true m = m
  when false m = pure tt

  -- A loop run for its effect.
  unfoldable pub for_all : {X : Type 0} → (X → Exec S (Unit {0})) → List X → Exec S (Unit {0})
  for_all f [] = pure tt
  for_all f (x ∷ xs) = f x >> for_all f xs

  abbrev pub modify : (S → S) → Exec S (Unit {0})
  modify f s = (ok tt, f s)

module _ {ℓ} {S A : Type ℓ} {X : Type ℓ} where
  -- A loop that stores what each round returns.
  unfoldable pub for_each : (X → Exec S A) → List X → Exec S (List A)
  for_each f [] = pure []
  for_each f (x ∷ xs) = do a ← f x; rest ← for_each f xs; pure (a ∷ rest)
