-- ===== src/Visualizer.antt =====
-- What the visualizer makes of numbers: visualizer/src/lib/format.ts.
pub mod Plural
pub mod Types
pub mod Activity
pub mod Conveyor
pub mod Tape
pub mod Stand
pub mod EcomSide
pub mod Client
pub mod App
use Prim.Native.Nat.{◌/◌, ◌%◌}
use layer_backend.Base.{ℕ, String, Bool, ◌&&◌, ◌+◌, ◌-◌, ◌<>◌, ◌==◌, leb, ltb, if◌then◌else◌}

-- `plural`.
unfoldable pub plural : ℕ → String → String → String → String
plural count one few many =
    let mod100 = count % 100 in
    let mod10 = count % 10 in
    if leb 11 mod100 && leb mod100 14
    then many
    else if mod10 == 1
    then one
    else if leb 2 mod10 && leb mod10 4
    then few
    else many

-- `Math.max(0, Math.round((now - then) / 1000))`, of times in milliseconds: a half is rounded up, and
-- a time that is still to come counts as now.
unfoldable pub seconds_since : ℕ → ℕ → ℕ
seconds_since at now = (now - at + 500) / 1000

-- `formatAgo`, given `${n}` and what `formatTime` makes of the time.
unfoldable pub format_ago : (ℕ → String) → String → ℕ → ℕ → String
format_ago print time at now =
    let seconds = seconds_since at now in
    if ltb seconds 3
    then "щойно"
    else if ltb seconds 60
    then print seconds <> " с тому"
    else if ltb seconds 3600
    then print (seconds / 60) <> " хв тому"
    else time
