-- ===== src/World/Resolves.antt =====
-- Methods that resolve when no call of the database fails: one rule for each way to build a method.
use layer_backend.Base.{ℕ, String, Bool, true, false, none, ◌≡◌, arith}
use layer_backend.Exec.{Result, ok, err, is_err, pure, gets, rethrow, settled, when, ◌>>=◌}
use layer_backend.Platform.{Platform}
use layer_backend.World.{World, Db, M, call, query, execute, transaction}
use layer_backend.World.Keeps.{Keeps}

-- No call of the database fails.
abbrev pub IsFaultless : Platform → Type 0
IsFaultless p = (n : ℕ) → p.fault n ≡ none

module _ (p : Platform) (P : Db p → Type 0) where
  pub record Resolves {A : Type 0} (m : M p A) : Type 0 where
    pub at : (w : World p) → P w.db → is_err (m w).0 ≡ false

module _ (p : Platform) {P : Db p → Type 0} where
  pub Resolves-pure : {A : Type 0} (a : A) → Resolves p P (pure a)
  Resolves-pure a = record { at = λ w h. ground arith }

  pub Resolves-gets : {A : Type 0} (f : World p → A) → Resolves p P (gets f)
  Resolves-gets f = record { at = λ w h. ground arith }

  pub Resolves-query : {A : Type 0} (read : Db p → A) → IsFaultless p → Resolves p P (query p read)
  unfolding query
  Resolves-query read calm = record { at = λ w h. ground (arith, calm w.tick) }

  pub Resolves-execute : (write : Db p → Db p) → IsFaultless p → Resolves p P (execute p write)
  unfolding execute
  Resolves-execute write calm = record { at = λ w h. ground (arith, calm w.tick) }

  pub Resolves-bind :
      {A B : Type 0} (m : M p A) (f : A → M p B)
      → Resolves p P m
      → Keeps p P m
      → ((a : A) → Resolves p P (f a))
      → Resolves p P (m >>= f)
  Resolves-bind {A = A} {B = B} m f first keep next = record {
    at = λ w h. go (m w) (first.at w h) (keep.at w h);
  }
    where
      go :
          (x : Result A × World p)
          → is_err x.0 ≡ false
          → P x.1.db
          → is_err (((λ u. x) >>= f) x.1).0 ≡ false
      go (ok a, u) fine h = (next a).at u h
      go (err e, u) fine h = cc

  pub Resolves-settled :
      {A B : Type 0} (m : M p A) (next : Result A → M p B)
      → Keeps p P m
      → ((r : Result A) → Resolves p P (next r))
      → Resolves p P (settled m next)
  unfolding settled
  Resolves-settled m next keep all = record { at = λ w h. (all (m w).0).at (m w).1 (keep.at w h) }

  pub Resolves-rethrow :
      {A : Type 0} (s : String) (m : M p A) → Resolves p P m → Resolves p P (rethrow s m)
  unfolding rethrow
  Resolves-rethrow s m fine = record { at = λ w h. ground (arith, fine.at w h) }

  pub Resolves-when : (b : Bool) (m : M p (Unit {0})) → Resolves p P m → Resolves p P (when b m)
  Resolves-when true m fine = fine
  Resolves-when false m fine = record { at = λ w h. ground arith }

  pub Resolves-transaction :
      {A : Type 0} (m : M p A) → IsFaultless p → Resolves p P m → Resolves p P (transaction p m)
  unfolding transaction call
  Resolves-transaction m calm fine = record {
    at = λ w h. ground (arith, fine.at w h, calm (m w).1.tick);
  }
