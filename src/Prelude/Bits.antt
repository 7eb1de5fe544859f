-- ===== src/Prelude/Bits.antt =====
-- Facts about the bit operations, checked over all values of a byte.
use Prim.Native.Nat.{ℕ, zero, suc, ◌<◌}
use mathlib.Core.Path.{◌≡◌}
use mathlib.Core.Bool.{Bool, true, ◌&&◌}
use native.Mathlib.Omega.{arith}

-- A table: the test passes at each number under the bound.
unfoldable pub all_below : ℕ → (ℕ → Bool) → Bool
all_below zero test = true
all_below (suc bound) test = all_below bound test && test bound

-- An entry of a table that was evaluated.
pub all_below-entry :
    (test : ℕ → Bool) (bound entry : ℕ)
    → entry < bound
    → all_below bound test ≡ true
    → test entry ≡ true
unfolding all_below
all_below-entry test zero entry within table = absurd (omega arith)
all_below-entry test (suc bound) entry within table =
    ground (arith, all_below-entry test bound entry)

-- An entry of a table with two indices.
pub all_below-entry2 :
    (test : ℕ → ℕ → Bool) (rows columns row column : ℕ)
    → row < rows
    → column < columns
    → all_below rows (λ a. all_below columns (test a)) ≡ true
    → test row column ≡ true
all_below-entry2 test rows columns row column hr hc table =
    all_below-entry (test row) columns column hc
      (all_below-entry (λ a. all_below columns (test a)) rows row hr table)
