-- ===== src/Visualizer/EcomSide.antt =====
-- The e-com side of the stand: visualizer/src/components/EcomStand.tsx, without its markup.
use layer_backend.Base.{
  ℕ, String, Bool, true, false, Option, none, some, List, [], ◌∷◌, ◌||◌, not, ltb, if◌then◌else◌,
}
use layer_backend.Base.Int.{ℤ, pos, leb_ℤ}
use layer_backend.Visualizer.Types.{EcomMode, EcomState, Health}
use layer_backend.Visualizer.Activity.{print_int}
use layer_backend.Visualizer.Conveyor.{Tone}

-- `Partial<EcomState>`, of which the stand sends one property.
pub data Patch : Type 0 where
  reserve : ℤ → Patch
  switch : EcomMode → Patch

-- `state?.mode === 'ok'`.
unfoldable pub is_reachable : Option EcomState → Bool
is_reachable none = false
is_reachable (some state) = elim state.mode [ EcomMode.working ↦ true | _ ↦ false ]

-- The effect that follows the server: the field becomes the number that e-com reports.
unfoldable pub follow : (ℕ → String) → Option EcomState → String → String
follow print none field = field
follow print (some state) field = print_int print state.reserved

-- The `onSubmit` of the form.
unfoldable pub submit_reserved : (String → Option ℤ) → String → Option Patch
submit_reserved number field = elim (number field) [
  | none ↦ none
  | some n ↦ if leb_ℤ (pos 0) n then some (reserve n) else none
]

-- The two buttons: whether each is enabled, and what it sends.
unfoldable pub buttons : Option EcomState → Bool → List (Bool × Patch)
buttons state busy =
    (not (busy || is_reachable state), switch EcomMode.working)
    ∷ (not (busy || not (is_reachable state)), switch EcomMode.down)
    ∷ []

-- A count of the backlog with its label and its tone.
pub record Metric : Type 0 where
  pub label : String
  pub value : ℕ
  pub tone : Tone

abbrev pub metric : String → ℕ → Tone → Metric
metric label value tone = record {
  label = label;
  value = value;
  tone = if ltb 0 value then tone else Tone.muted;
}

unfoldable pub metrics : Option Health → List Metric
metrics none = []
metrics (some health) =
    metric "Чекає" health.reservations.pending_recalculations Tone.warn
    ∷ metric "Здалися" health.reservations.abandoned_recalculations Tone.stop
    ∷ metric "Непідтверджені" health.reservations.stale_quantities Tone.warn
    ∷ []
