-- ===== src/Artifacts/Register.antt =====
-- What the coordination code relies on of `ArtifactStore` at one key: `get`, and
-- `compare_and_swap` against the exact content that was read.
use fabric_shortcut_proxy.Prelude.{◌≡◌, ◌≢◌, Bool, true, false, Option, some}

pub record Register (B : Type 0) : Type 1 where
  pub Store : Type 0
  pub read : Store → Option B
  pub swap : Option B → B → Store → Store × Bool
  pub swap_won :
      (expected : Option B) (new : B) (s : Store)
      → (swap expected new s).1 ≡ true
      → (read s ≡ expected) × (read (swap expected new s).0 ≡ some new)
  pub swap_lost :
      (expected : Option B) (new : B) (s : Store)
      → (swap expected new s).1 ≡ false
      → (read s ≢ expected) × ((swap expected new s).0 ≡ s)
