-- ===== src/Base/Tensor.antt =====
-- What the program asks of a tensor library, which is not part of the repository: cells that are
-- read and written by index, with an IndexError (`none`) out of range. `Ix` is the index type of
-- the view in use and `V` what one cell of that view holds.
use mathlib.Core.Path.{◌≡◌}
use mathlib.Core.Logic.{◌≢◌}
use mathlib.Core.Option.{Option, none, some}

pub record TensorLib (Ix V : Type 0) : Type 1 where
  pub Tensor : Type 0
  -- `t[i]`
  pub load : Tensor → Ix → Option V
  -- `t[i] = v`
  pub store : Tensor → Ix → V → Option Tensor
  -- An index that can be read can be written.
  pub store_some :
      (t : Tensor) (i : Ix) (v w : V) → load t i ≡ some w → (t' : Tensor) × (store t i v ≡ some t')
  -- A write out of range is refused.
  pub store_none : (t : Tensor) (i : Ix) (v : V) → load t i ≡ none → store t i v ≡ none
  -- A read gives what was written last to that index, and a write changes no other index.
  pub load-store_self :
      (t t' : Tensor) (i : Ix) (v : V) → store t i v ≡ some t' → load t' i ≡ some v
  pub load-store_ne :
      (t t' : Tensor) (i j : Ix) (v : V) → store t i v ≡ some t' → j ≢ i → load t' j ≡ load t j
