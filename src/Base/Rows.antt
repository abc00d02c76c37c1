-- ===== src/Base/Rows.antt =====
-- Rows of numbers as a function with a bound: an implementation of the tensor operations.
use Prim.Native.Nat.{ℕ}
use mathlib.Core.Path.{◌≡◌, sym}
use mathlib.Core.Logic.{◌≢◌, inl, inr}
use mathlib.Core.Bool.{true}
use mathlib.Core.Option.{Option, none, some}
use native.Mathlib.Omega.{arith}
use harvest_mo_e.Base.Tests.{ltb, ◌==◌, if◌then◌else◌, Bool-cases, some_inj}
use harvest_mo_e.Base.Tensor.{TensorLib}

pub record Rows : Type 0 where
  pub size : ℕ
  pub at : ℕ → ℕ

abbrev pub load_row : Rows → ℕ → Option ℕ
load_row t i = if ltb i t.size then some (t.at i) else none

abbrev pub store_row : Rows → ℕ → ℕ → Option Rows
store_row t i v =
    if ltb i t.size then some (record t { at = λ j. if j == i then v else t.at j }) else none

store_row_inv :
    (t t' : Rows) (i v : ℕ)
    → store_row t i v ≡ some t'
    → (ltb i t.size ≡ true) × (t' ≡ record t { at = λ j. if j == i then v else t.at j })
store_row_inv t t' i v e = elim (Bool-cases (ltb i t.size)) [
  | inl y ↦ (y, sym (some_inj _ _ (rw y at e)))
  | inr n ↦ cc (rw n at e)
]

pub load-store_row_ne :
    (t t' : Rows) (i j v : ℕ) → store_row t i v ≡ some t' → j ≢ i → load_row t' j ≡ load_row t j
load-store_row_ne t t' i j v e ne =
    let (y, p) = store_row_inv t t' i v e in rw p (ground (arith, ne))

pub load-store_row : (t t' : Rows) (i v : ℕ) → store_row t i v ≡ some t' → load_row t' i ≡ some v
load-store_row t t' i v e = let (y, p) = store_row_inv t t' i v e in rw p (ground (arith, y))

pub store_row-some :
    (t : Rows) (i v w : ℕ) → load_row t i ≡ some w → (t' : Rows) × (store_row t i v ≡ some t')
store_row-some t i v w e = (record t { at = λ j. if j == i then v else t.at j }, ground arith)

pub store_row-none : (t : Rows) (i v : ℕ) → load_row t i ≡ none → store_row t i v ≡ none
store_row-none t i v e = ground arith

abbrev pub row_tensors : TensorLib ℕ ℕ
row_tensors = record {
  Tensor = Rows;
  load = load_row;
  store = store_row;
  store_some = store_row-some;
  store_none = store_row-none;
  load-store_self = load-store_row;
  load-store_ne = load-store_row_ne;
}
