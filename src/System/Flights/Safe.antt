-- ===== src/System/Flights/Safe.antt =====
-- What e-com is told when the runs interleave.
use layer_backend.Base.{ℕ, List, [], ◌∷◌, ◌++◌, ◌≡◌, sym, subst, ap, ◌∙◌, All}
use layer_backend.Base.Int.{ℤ}
use layer_backend.Exec.{ok}
use layer_backend.Platform.{Platform}
use layer_backend.World.{World}
use layer_backend.Stock.Types.{StockTarget}
use layer_backend.Stock.Repositories.Tasks.{identity}
use layer_backend.Stock.Recalculate.{should_publish}
use layer_backend.Stock.Results.Run.{ecom_row}
use layer_backend.System.Flights.{
  Flight, Sky, Turn, takes_off, aborts, lands, elsewhere, restarts, Turns, none_yet, one_more,
}
use layer_backend.System.Flights.Holds.{
  Holds, Confirms, Carries, Carries-of, carried, land-Holds, Quiet-Holds,
}
use layer_backend.System.Flights.Decisions.{Decides, take_off-Decides}

module _ (p : Platform) (k : ℕ × ℕ) (limit : ℤ) where
  -- What holds of a state with runs in flight.
  abbrev Aloft : Sky p → Type 0
  Aloft s = Holds p k limit s.world.db × All (Carries p k limit) s.flights

  dropped :
      (before after : List Flight) (f : Flight)
      → All (Carries p k limit) (before ++ f ∷ after)
      → Carries p k limit f × All (Carries p k limit) (before ++ after)
  dropped [] after f h = h
  dropped (g ∷ before) after f h =
      let (carries, rest) = dropped before after f h.1 in (carries, (h.0, rest))

  off-Aloft :
      (t : StockTarget) (f : Flight) (w v : World p) (flights : List Flight)
      → Decides p t w.db (ok f, v)
      → Confirms p k limit f
      → Holds p k limit w.db
      → All (Carries p k limit) flights
      → Holds p k limit v.db × All (Carries p k limit) (f ∷ flights)
  off-Aloft t f w v flights (same, own, decided) confirms h rest = (
    carried p k limit w.db v.db same h,
    (
      Carries-of p k limit f w.db
          (decided
            ∙ ap (λ t. should_publish f.value.quantity f.stale (ecom_row p w.db (identity t)))
                (sym own))
          confirms h.1,
      rest,
    ),
  )

  Turn-past :
      (s t : Sky p) → Turn p s t → All (Confirms p k limit) t.past → All (Confirms p k limit) s.past
  Turn-past s t (takes_off x f e flights past) h = (subst (All (Confirms p k limit)) past h).1
  Turn-past s t (aborts x e r flights past) h = subst (All (Confirms p k limit)) past h
  Turn-past s t (lands before after f e w flights past) h = subst (All (Confirms p k limit)) past h
  Turn-past s t (elsewhere q flights past) h = subst (All (Confirms p k limit)) past h
  Turn-past s t (restarts w flights past) h = subst (All (Confirms p k limit)) past h

  Turn-Aloft : (s t : Sky p) → Turn p s t → All (Confirms p k limit) t.past → Aloft s → Aloft t
  Turn-Aloft s t (takes_off x f e flights past) h a =
      let (holds, carries) =
        off-Aloft x f s.world t.world s.flights
          (subst (Decides p x s.world.db) e (take_off-Decides p x s.world))
          (subst (All (Confirms p k limit)) past h).0 a.0 a.1 in
      (holds, rw flights carries)
  Turn-Aloft s t (aborts x e r flights past) h a = (
    carried p k limit s.world.db t.world.db
        (subst (Decides p x s.world.db) r (take_off-Decides p x s.world)) a.0,
    rw flights a.1,
  )
  Turn-Aloft s t (lands before after f e w flights past) h a =
      let (carries, rest) = dropped before after f (subst (All (Carries p k limit)) e a.1) in
      (rw w (land-Holds p k limit f s.world carries a.0), rw flights rest)
  Turn-Aloft s t (elsewhere q flights past) h a =
      (Quiet-Holds p k limit s.world t.world q a.0, rw flights a.1)
  Turn-Aloft s t (restarts w flights past) h a = (rw w a.0, rw flights tt)

  Turns-Aloft : (s t : Sky p) → Turns p s t → All (Confirms p k limit) t.past → Aloft s → Aloft t
  Turns-Aloft s t none_yet h a = a
  Turns-Aloft s v (one_more {t} ts turn) h a =
      Turn-Aloft t v turn h (Turns-Aloft s t ts (Turn-past t v turn h) a)

module _ (p : Platform) where
  -- However the reads and the transactions of the runs interleave with one another and with the rest
  -- of the service, from a state in which no run is in flight, the baseline of a pair is the number
  -- that was queued last for it (or both are missing), and it is not above a limit that neither the
  -- baseline at the start nor any confirmed run for the pair that has taken off since was above: a
  -- number that rests on reservations carried over never raises what e-com is told beyond all that
  -- it was told before or has confirmed.
  pub Turns-Holds :
      (k : ℕ × ℕ) (limit : ℤ) (s t : Sky p)
      → Turns p s t
      → s.flights ≡ []
      → Holds p k limit s.world.db
      → All (Confirms p k limit) t.past
      → Holds p k limit t.world.db
  Turns-Holds k limit s t ts ground_level h confirmed =
      (Turns-Aloft p k limit s t ts confirmed (h, rw ground_level tt)).0
