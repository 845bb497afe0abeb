-- ===== src/Base/Frames.antt =====
-- What a call on a world leaves alone.
use mathlib.Core.Path.{◌≡◌}

-- The call changes the value nowhere.
abbrev pub Keeps : {W V A : Type 0} → (W → V) → (W → A × W) → Type 0
Keeps {W} value f = (w : W) → value (f w).1 ≡ value w
