-- ===== src/World/Keeps.antt =====
-- Predicates on the database that a method keeps: `Keeps` whether it resolves or rejects, `Secures`
-- if it resolves. One rule for each way to build a method.
use layer_backend.Base.{
  String, Bool, true, false, Option, none, some, List, [], ◌∷◌, ◌≡◌, arith, if◌then◌else◌,
}
use layer_backend.Shared.Errors.{Exception}
use layer_backend.Exec.{
  Result, ok, err, pure, throw, or_throw, lift, gets, rethrow, settled, when, for_all, for_each,
  ◌>>=◌, ◌>>◌,
}
use layer_backend.Platform.{Platform}
use layer_backend.World.{World, Db, M, query, execute, returning, transaction}

module _ (p : Platform) (P : Db p → Type 0) where
  pub record Keeps {A : Type 0} (m : M p A) : Type 0 where
    pub at : (w : World p) → P w.db → P (m w).1.db

  -- What a method that has resolved leaves behind.
  abbrev pub Good : {A : Type 0} → Result A × World p → Type 0
  Good (ok a, w) = P w.db
  Good (err e, w) = Unit

  pub record Secures {A : Type 0} (m : M p A) : Type 0 where
    pub at : (w : World p) → P w.db → Good (m w)

module _ (p : Platform) (P : Db p → Type 0) where
  Good-of : {A : Type 0} (r : Result A) (w : World p) → P w.db → Good p P (r, w)
  Good-of (ok a) w h = h
  Good-of (err e) w h = tt

module _ (p : Platform) {P : Db p → Type 0} where
  -- A method that keeps a predicate secures it.
  pub Keeps-Secures : {A : Type 0} (m : M p A) → Keeps p P m → Secures p P m
  Keeps-Secures m k = record { at = λ w h. let x = m w in Good-of p P x.0 x.1 (k.at w h) }

  -- A database that is left alone.
  pub Keeps-same : {A : Type 0} (m : M p A) → ((w : World p) → (m w).1.db ≡ w.db) → Keeps p P m
  Keeps-same m same = record { at = λ w h. rw (same w) h }

  pub Keeps-query : {A : Type 0} (read : Db p → A) → Keeps p P (query p read)
  unfolding query
  Keeps-query read = record { at = λ w h. ground arith }

  pub Keeps-execute :
      (write : Db p → Db p) → ((db : Db p) → P db → P (write db)) → Keeps p P (execute p write)
  unfolding execute
  Keeps-execute write keep = record { at = λ w h. ground (arith, keep w.db h) }

  pub Keeps-returning :
      {A : Type 0} (write : Db p → Db p) (read : Db p → A)
      → ((db : Db p) → P db → P (write db))
      → Keeps p P (returning p write read)
  unfolding returning
  Keeps-returning write read keep = record { at = λ w h. ground (arith, keep w.db h) }

  pub Keeps-pure : {A : Type 0} (a : A) → Keeps p P (pure a)
  Keeps-pure a = record { at = λ w h. h }

  pub Keeps-throw : {A : Type 0} (e : Exception) → Keeps p P (throw {A = A} e)
  Keeps-throw e = record { at = λ w h. h }

  pub Keeps-or_throw : {A : Type 0} (e : Exception) (o : Option A) → Keeps p P (or_throw e o)
  Keeps-or_throw e none = record { at = λ w h. h }
  Keeps-or_throw e (some a) = record { at = λ w h. h }

  pub Keeps-lift : {A : Type 0} (r : Result A) → Keeps p P (lift r)
  Keeps-lift r = record { at = λ w h. h }

  pub Keeps-gets : {A : Type 0} (f : World p → A) → Keeps p P (gets f)
  Keeps-gets f = record { at = λ w h. h }

  pub Keeps-bind :
      {A B : Type 0} (m : M p A) (f : A → M p B)
      → Keeps p P m
      → ((a : A) → Keeps p P (f a))
      → Keeps p P (m >>= f)
  Keeps-bind {A} {B} m f km kf = record { at = λ w h. go (m w).0 (m w).1 (km.at w h) }
    where
      go :
          (r : Result A) (w' : World p)
          → P w'.db
          → P (
              let x : Result B × World p = elim r [ ok a ↦ f a w' | err e ↦ (err e, w') ] in x.1.db)
      go (ok a) w' h' = (kf a).at w' h'
      go (err e) w' h' = h'

  pub Keeps-settled :
      {A B : Type 0} (m : M p A) (next : Result A → M p B)
      → Keeps p P m
      → ((r : Result A) → Keeps p P (next r))
      → Keeps p P (settled m next)
  unfolding settled
  Keeps-settled m next km kn = record { at = λ w h. let x = m w in (kn x.0).at x.1 (km.at w h) }

  pub Keeps-when : (b : Bool) (m : M p (Unit {0})) → Keeps p P m → Keeps p P (when b m)
  Keeps-when true m k = k
  Keeps-when false m k = record { at = λ w h. h }

  pub Keeps-if :
      {A : Type 0} (b : Bool) (m n : M p A)
      → Keeps p P m
      → Keeps p P n
      → Keeps p P (if b then m else n)
  Keeps-if true m n km kn = km
  Keeps-if false m n km kn = kn

  pub Keeps-rethrow : {A : Type 0} (s : String) (m : M p A) → Keeps p P m → Keeps p P (rethrow s m)
  unfolding rethrow
  Keeps-rethrow {A} s m k = record { at = λ w h. let x = m w in go x.0 x.1 (k.at w h) }
    where
      go : (r : Result A) (w' : World p) → P w'.db → P (rethrow s (λ w. (r, w')) w').1.db
      go (ok a) w' h = h
      go (err e) w' h = h

  pub Keeps-for_all :
      {X : Type 0} (f : X → M p (Unit {0})) (xs : List X)
      → ((x : X) → Keeps p P (f x))
      → Keeps p P (for_all f xs)
  unfolding for_all
  Keeps-for_all f [] kf = record { at = λ w h. h }
  Keeps-for_all f (x ∷ xs) kf =
      Keeps-bind (f x) (λ _. for_all f xs) (kf x) (λ _. Keeps-for_all f xs kf)

  pub Keeps-for_each :
      {X A : Type 0} (f : X → M p A) (xs : List X)
      → ((x : X) → Keeps p P (f x))
      → Keeps p P (for_each f xs)
  unfolding for_each
  Keeps-for_each f [] kf = record { at = λ w h. h }
  Keeps-for_each f (x ∷ xs) kf =
      Keeps-bind (f x) _ (kf x)
        (λ a. Keeps-bind (for_each f xs) _ (Keeps-for_each f xs kf) (λ rest. Keeps-pure _))

  -- A transaction keeps what its method secures: a rejection takes the writes back.
  pub Keeps-transaction : {A : Type 0} (m : M p A) → Secures p P m → Keeps p P (transaction p m)
  unfolding transaction
  Keeps-transaction {A} m s = record { at = λ w h. ground (arith, s.at w h) }

  pub Secures-bind :
      {A B : Type 0} (m : M p A) (f : A → M p B)
      → Secures p P m
      → ((a : A) → Secures p P (f a))
      → Secures p P (m >>= f)
  Secures-bind {A} {B} m f sm sf = record { at = λ w h. go (m w).0 (m w).1 (sm.at w h) }
    where
      go :
          (r : Result A) (w' : World p)
          → Good p P (r, w')
          → Good p P {A = B} (elim r [ ok a ↦ f a w' | err e ↦ (err e, w') ])
      go (ok a) w' h = (sf a).at w' h
      go (err e) w' h = tt

  -- Two writes in a row: between them the predicate may fail.
  pub Secures-execute_pair :
      (f g : Db p → Db p)
      → ((db : Db p) → P db → P (g (f db)))
      → Secures p P (execute p f >> execute p g)
  unfolding execute
  Secures-execute_pair f g keep = record { at = λ w h. ground (arith, keep w.db h) }

  pub Secures-rethrow :
      {A : Type 0} (s : String) (m : M p A) → Secures p P m → Secures p P (rethrow s m)
  unfolding rethrow
  Secures-rethrow {A} s m k = record { at = λ w h. let x = m w in go x.0 x.1 (k.at w h) }
    where
      go : (r : Result A) (w' : World p) → Good p P (r, w') → Good p P (rethrow s (λ w. (r, w')) w')
      go (ok a) w' h = h
      go (err e) w' h = tt

-- Two predicates that a method keeps are kept together.
pub Keeps-both :
    (p : Platform) {P Q : Db p → Type 0} {A : Type 0} (m : M p A)
    → Keeps p P m
    → Keeps p Q m
    → Keeps p (λ db. P db × Q db) m
Keeps-both p m kp kq = record { at = λ w h. (kp.at w h.0, kq.at w h.1) }

-- The rules that `search` applies.
pub ruleset keeps_rules = (
  Keeps-query, Keeps-pure, Keeps-throw, Keeps-or_throw, Keeps-lift, Keeps-gets, Keeps-bind,
  Keeps-when, Keeps-if, Keeps-rethrow, Keeps-settled, Keeps-for_all, Keeps-for_each,
)

pub ruleset secures_rules = (Secures-bind, Secures-rethrow, Keeps-Secures)
