-- ===== src/Visualizer/Plural.antt =====
-- Plural forms: visualizer/src/lib/format.ts.
use Prim.Native.Nat.{◌%◌}
use layer_backend.Base.{ℕ, String, not, ◌&&◌, ◌≡◌, ◌==◌, leb, arith, if◌then◌else◌}
use layer_backend.Visualizer.{plural}

-- The rules of Unicode's CLDR for Ukrainian.
unfoldable pub ukrainian : ℕ → String → String → String → String
ukrainian n one few many =
    if n % 10 == 1 && not (n % 100 == 11)
    then one
    else if (leb 2 (n % 10) && leb (n % 10) 4) && not (leb 12 (n % 100) && leb (n % 100) 14)
    then few
    else many

digits : (n : ℕ) → (n % 100) % 10 ≡ n % 10
digits n = omega arith

-- The form of every count is the one that the rules of Ukrainian give.
pub plural-ukrainian :
    (n : ℕ) (one few many : String) → plural n one few many ≡ ukrainian n one few many
unfolding plural ukrainian
plural-ukrainian n one few many = ground (arith, digits n)
