-- ===== src/Base/Member.antt =====
-- Membership in a constant list, as `includes` and `Set.has` decide it.
use mathlib.Core.Bool.{Bool, true, false}
use mathlib.Core.List.{List, [], ◌∷◌}

module _ {ℓ} {A : Type ℓ} (same : Discrete A) where
  abbrev pub includes : List A → A → Bool
  includes [] a = false
  includes (x ∷ xs) a = elim (same x a) [ yes _ ↦ true | no _ ↦ includes xs a ]
