-- ===== src/Config/Check/Cycles.antt =====
-- Chains of dependencies.
use mathlib.Core.WellFounded.{Acc}
use dir842v2_gpl.Common.{◌≡◌, ◌⊎◌, inl, inr}
use dir842v2_gpl.Config.Types.{SymbolId}
use dir842v2_gpl.Config.Calc.State.{Sym}
use dir842v2_gpl.Config.Check.Graph.{DependsOn, IsGrounded}

-- The first symbol depends on the last one, through others or not.
pub data Chain (at : SymbolId → Sym) : SymbolId → SymbolId → Type 0 where
  one : {x y : SymbolId} → DependsOn at y x → Chain at x y
  more : {x y z : SymbolId} → DependsOn at y x → Chain at y z → Chain at x z

module _ (at : SymbolId → Sym) where
  Chain-snoc : {x y z : SymbolId} → Chain at x y → DependsOn at z y → Chain at x z
  Chain-snoc (one d) e = more d (one e)
  Chain-snoc (more d c) e = more d (Chain-snoc c e)

  no_cycle : (x : SymbolId) → IsGrounded at x → ¬ Chain at x x
  no_cycle x (Acc.intro _ smaller) (one d) = no_cycle x (smaller x d) (one d)
  no_cycle x (Acc.intro _ smaller) (more {y} d c) = no_cycle y (smaller y d) (Chain-snoc c d)

  IsGrounded-along : {x y : SymbolId} → IsGrounded at x → Chain at x y → IsGrounded at y
  IsGrounded-along (Acc.intro _ smaller) (one {y} d) = smaller y d
  IsGrounded-along (Acc.intro _ smaller) (more {y} d c) = IsGrounded-along (smaller y d) c

  -- A symbol without endless chains leads to no cycle.
  pub IsGrounded-no_cycle :
      (x y : SymbolId) → IsGrounded at x → (y ≡ x) ⊎ Chain at x y → ¬ Chain at y y
  IsGrounded-no_cycle x y g (inl e) = rw e (no_cycle x g)
  IsGrounded-no_cycle x y g (inr c) = no_cycle y (IsGrounded-along g c)
