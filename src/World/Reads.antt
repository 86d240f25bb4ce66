-- ===== src/World/Reads.antt =====
-- Methods that only read: what they return is about the database that they met.
use layer_backend.Base.{
  ℕ, suc, String, Option, some, none, ◌≡◌, refl, subst, arith, inl, inr, Option-cases,
}
use layer_backend.Shared.Errors.{Exception, handle_exception_code}
use layer_backend.Exec.{
  Result, ok, err, pure, throw, or_throw, lift, rethrow, catch, settled, ◌>>=◌,
}
use layer_backend.Platform.{Platform}
use layer_backend.World.{World, Db, M, call, query}

module _ (p : Platform) where
  -- The error of a call of the database.
  abbrev pub Fails : Exception → Type 0
  Fails e = (n : ℕ) × (p.fault n ≡ some e)

  -- How a method that reads a database has ended: with a value of which `R` holds, or with an error
  -- of which `E` does, and the database is as it was.
  abbrev pub ReadsTo :
      {A : Type 0} (R : A → Type 0) (E : Exception → Type 0) → Db p → Result A × World p → Type 0
  ReadsTo R E db (ok a, w') = R a × (w'.db ≡ db)
  ReadsTo R E db (err e, w') = E e × (w'.db ≡ db)

  pub record Reads {A : Type 0} (R : Db p → A → Type 0) (E : Db p → Exception → Type 0) (m : M p A)
      : Type 0 where
    pub at : (w : World p) → ReadsTo (R w.db) (E w.db) w.db (m w)

  pub Reads-from :
      {A : Type 0} (R : Db p → A → Type 0) (E : Db p → Exception → Type 0) (m : M p A)
      → Reads R E m
      → (db : Db p) (w : World p) → w.db ≡ db
      → ReadsTo (R db) (E db) db (m w)
  Reads-from R E m reads db w same = subst (λ d. ReadsTo (R d) (E d) d (m w)) same (reads.at w)

  call-calm :
      (w : World p) → p.fault w.tick ≡ none → call p w ≡ (ok tt, record w { tick = suc w.tick })
  unfolding call
  call-calm w h = ground (arith, h)

  call-fault :
      (w : World p) (e : Exception)
      → p.fault w.tick ≡ some e
      → call p w ≡ (err e, record w { tick = suc w.tick })
  unfolding call
  call-fault w e h = ground (arith, h)

  -- A call without a result, such as a probe.
  pub call-ReadsTo :
      (R : Unit {0} → Type 0) (E : Exception → Type 0) (w : World p)
      → ((e : Exception) → p.fault w.tick ≡ some e → E e)
      → (p.fault w.tick ≡ none → R tt)
      → ReadsTo R E w.db (call p w)
  call-ReadsTo R E w fails holds = elim (Option-cases (p.fault w.tick)) [
    | inl calm ↦ rw (call-calm w calm) (holds calm, refl)
    | inr (e, fault) ↦ rw (call-fault w e fault) (fails e fault, refl)
  ]

  query-calm :
      {A : Type 0} (read : Db p → A) (w : World p)
      → p.fault w.tick ≡ none
      → query p read w ≡ (ok (read w.db), record w { tick = suc w.tick })
  unfolding query call
  query-calm read w h = ground (arith, h)

  query-fault :
      {A : Type 0} (read : Db p → A) (w : World p) (e : Exception)
      → p.fault w.tick ≡ some e
      → query p read w ≡ (err e, record w { tick = suc w.tick })
  unfolding query call
  query-fault read w e h = ground (arith, h)

  pub Reads-query :
      {A : Type 0} (R : Db p → A → Type 0) (E : Db p → Exception → Type 0) (read : Db p → A)
      → ((db : Db p) (e : Exception) → Fails e → E db e)
      → ((db : Db p) → R db (read db))
      → Reads R E (query p read)
  Reads-query R E read fails holds = record {
    at = λ w. elim (Option-cases (p.fault w.tick)) [
      | inl calm ↦ rw (query-calm read w calm) (holds w.db, refl)
      | inr (e, fault) ↦ rw (query-fault read w e fault) (fails w.db e (w.tick, fault), refl)
    ];
  }

  pub Reads-pure :
      {A : Type 0} (R : Db p → A → Type 0) (E : Db p → Exception → Type 0) (a : A)
      → ((db : Db p) → R db a)
      → Reads R E (pure a)
  Reads-pure R E a holds = record { at = λ w. (holds w.db, refl) }

  pub Reads-throw :
      {A : Type 0} (R : Db p → A → Type 0) (E : Db p → Exception → Type 0) (e : Exception)
      → ((db : Db p) → E db e)
      → Reads R E (throw e)
  Reads-throw R E e holds = record { at = λ w. (holds w.db, refl) }

  pub Reads-or_throw :
      {A : Type 0} (R : Db p → A → Type 0) (E : Db p → Exception → Type 0) (e : Exception)
      (o : Option A)
      → (o ≡ none → (db : Db p) → E db e)
      → ((a : A) → o ≡ some a → (db : Db p) → R db a)
      → Reads R E (or_throw e o)
  Reads-or_throw R E e none throws holds = Reads-throw R E e (throws refl)
  Reads-or_throw R E e (some a) throws holds = Reads-pure R E a (holds a refl)

  pub Reads-lift :
      {A : Type 0} (R : Db p → A → Type 0) (E : Db p → Exception → Type 0) (r : Result A)
      → ((e : Exception) → r ≡ err e → (db : Db p) → E db e)
      → ((a : A) → r ≡ ok a → (db : Db p) → R db a)
      → Reads R E (lift r)
  Reads-lift R E (ok a) throws holds = record { at = λ w. (holds a refl w.db, refl) }
  Reads-lift R E (err e) throws holds = record { at = λ w. (throws e refl w.db, refl) }

  -- What follows a read may use what was read.
  pub Reads-bind :
      {A B : Type 0} (R : Db p → A → Type 0) (S : Db p → B → Type 0)
      (F E : Db p → Exception → Type 0) (m : M p A) (f : A → M p B)
      → Reads R F m
      → ((db : Db p) (e : Exception) → F db e → E db e)
      → ((a : A) → Reads (λ db b. R db a → S db b) (λ db e. R db a → E db e) (f a))
      → Reads S E (m >>= f)
  Reads-bind {A} {B} R S F E m f first wider rest = record { at = λ w. go w (m w) (first.at w) }
    where
      then :
          (db : Db p) (a : A) (x : Result B × World p)
          → R db a
          → ReadsTo (λ b. R db a → S db b) (λ e. R db a → E db e) db x
          → ReadsTo (S db) (E db) db x
      then db a (ok b, u) holds (done, kept) = (done holds, kept)
      then db a (err e, u) holds (fails, kept) = (fails holds, kept)

      go :
          (w : World p) (x : Result A × World p)
          → ReadsTo (R w.db) (F w.db) w.db x
          → ReadsTo (S w.db) (E w.db) w.db (elim x.0 [ ok a ↦ f a x.1 | err e ↦ (err e, x.1) ])
      go w (ok a, w') (holds, same) =
          then w.db a (f a w') holds (Reads-from _ _ (f a) (rest a) w.db w' same)
      go w (err e, w') (fails, same) = (wider w.db e fails, same)

  -- `try` and `catch`, where the handler only throws.
  pub Reads-catch :
      {A : Type 0} (R : Db p → A → Type 0) (E F : Db p → Exception → Type 0) (m : M p A)
      (handler : Exception → M p A)
      → Reads R E m
      → ((e : Exception) → Reads (λ db a. E db e → R db a) (λ db f. E db e → F db f) (handler e))
      → Reads R F (catch m handler)
  Reads-catch {A} R E F m handler reads handled = record { at = λ w. go w (m w) (reads.at w) }
    where
      then :
          (db : Db p) (e : Exception) (x : Result A × World p)
          → E db e
          → ReadsTo (λ a. E db e → R db a) (λ f. E db e → F db f) db x
          → ReadsTo (R db) (F db) db x
      then db e (ok a, u) holds (done, kept) = (done holds, kept)
      then db e (err f, u) holds (fails, kept) = (fails holds, kept)

      go :
          (w : World p) (x : Result A × World p)
          → ReadsTo (R w.db) (E w.db) w.db x
          → ReadsTo (R w.db) (F w.db) w.db (elim x.0 [ ok a ↦ (ok a, x.1) | err e ↦ handler e x.1 ])
      go w (ok a, w') holds = holds
      go w (err e, w') (fails, same) =
          then w.db e (handler e w') fails (Reads-from _ _ (handler e) (handled e) w.db w' same)

  pub Reads-rethrow :
      {A : Type 0} (R : Db p → A → Type 0) (E F : Db p → Exception → Type 0) (s : String)
      (m : M p A)
      → ((db : Db p) (e : Exception) → E db e → F db (handle_exception_code e s))
      → Reads R E m
      → Reads R F (rethrow s m)
  unfolding rethrow
  Reads-rethrow R E F s m wider reads =
      Reads-catch R E F m _ reads λ e. Reads-throw _ _ _ (λ db fails. wider db e fails)

  -- A `try` whose two branches go on differently, from one state.
  pub settled-ReadsTo :
      {A B : Type 0} (S : B → Type 0) (E : Exception → Type 0) (db : Db p) (R : A → Type 0)
      (F : Exception → Type 0) (m : M p A) (next : Result A → M p B) (w : World p)
      → ReadsTo R F db (m w)
      → ((a : A) (w' : World p) → R a → w'.db ≡ db → ReadsTo S E db (next (ok a) w'))
      → ((e : Exception) (w' : World p) → F e → w'.db ≡ db → ReadsTo S E db (next (err e) w'))
      → ReadsTo S E db (settled m next w)
  unfolding settled
  settled-ReadsTo {A} S E db R F m next w first good bad = go (m w) first
    where
      go : (x : Result A × World p) → ReadsTo R F db x → ReadsTo S E db (next x.0 x.1)
      go (ok a, w') (holds, same) = good a w' holds same
      go (err e, w') (fails, same) = bad e w' fails same
