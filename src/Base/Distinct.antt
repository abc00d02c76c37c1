-- ===== src/Base/Distinct.antt =====
-- Membership in a list of numbers, and lists without repetition.
use Prim.Native.Nat.{ℕ}
use mathlib.Core.Path.{◌≡◌, refl}
use mathlib.Core.Bool.{Bool, false, ◌||◌}
use mathlib.Core.List.{List, [], ◌∷◌, ◌++◌}
use native.Mathlib.Omega.{arith}
use harvest_mo_e.Base.Tests.{◌==◌}

-- `item in list`
abbrev pub contains : List ℕ → ℕ → Bool
contains [] port = false
contains (first ∷ rest) port = port == first || contains rest port

abbrev pub IsDistinct : List ℕ → Type 0
IsDistinct [] = Unit
IsDistinct (port ∷ ports) = (contains ports port ≡ false) × IsDistinct ports

pub contains-append :
    (xs : List ℕ) (x p : ℕ) → contains (xs ++ x ∷ []) p ≡ (contains xs p || p == x)
contains-append [] x p = ground arith
contains-append (y ∷ xs) x p = ground (arith, contains-append xs x p)

pub IsDistinct-append :
    (ports : List ℕ) (port : ℕ)
    → IsDistinct ports
    → contains ports port ≡ false
    → IsDistinct (ports ++ port ∷ [])
IsDistinct-append [] port d h = (refl, tt)
IsDistinct-append (p ∷ ports) port d h = (
  ground (arith, contains-append ports port p, d.0),
  IsDistinct-append ports port d.1 (ground arith),
)
