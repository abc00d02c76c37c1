-- ===== src/KvPool/Memory.antt =====
-- The slices of the rows as functions with a bound: an implementation of the tensor operations that
-- the pool is parameterised by.
use harvest_mo_e.Base.{
  ℕ, zero, suc, ◌+◌, ◌-◌, ◌≤◌, ◌<◌, ◌≡◌, refl, arith, if◌then◌else◌, ltb, leb, ◌&&◌, ◌==◌, Bool,
  Option, none, some, inl, inr, Bool-cases, some_inj,
}
use mathlib.Core.Path.{sym, ◌∙◌}
use harvest_mo_e.Base.Rows.{Rows, load_row, row_tensors}
use harvest_mo_e.KvPool.{RowTensors}

-- A slice that ends within the tensor.
abbrev pub slice_fits : Rows → ℕ → ℕ → Bool
slice_fits t i n = leb (i + n) t.size

abbrev pub copied : Rows → ℕ → Rows → ℕ → ℕ → Rows
copied dst d src s n = record dst {
  at = λ j. if leb d j && ltb j (d + n) then src.at (s + (j - d)) else dst.at j;
}

abbrev pub copy : Rows → ℕ → Rows → ℕ → ℕ → Option Rows
copy dst d src s n =
    if n == 0
    then some dst
    else if slice_fits dst d n && slice_fits src s n
    then some (copied dst d src s n)
    else none

row_below : (t : Rows) (i v : ℕ) → load_row t i ≡ some v → i < t.size
row_below t i v e = elim (Bool-cases (ltb i t.size)) [
  | inl y ↦ ground (arith, y)
  | inr n ↦ cc (rw n at e)
]

slice_below :
    (t : Rows) (i n : ℕ)
    → ((j : ℕ) → j < suc n → (v : ℕ) × (load_row t (i + j) ≡ some v))
    → i + suc n ≤ t.size
slice_below t i n h =
    let (v, e) = h n (omega arith) in let below = row_below t (i + n) v e in omega (arith, below)

pub copy-some :
    (dst : Rows) (d : ℕ) (src : Rows) (s n : ℕ)
    → ((i : ℕ) → i < n → (v : ℕ) × (load_row dst (d + i) ≡ some v))
    → ((i : ℕ) → i < n → (v : ℕ) × (load_row src (s + i) ≡ some v))
    → (dst' : Rows) × (copy dst d src s n ≡ some dst')
copy-some dst d src s zero hd hs = (dst, refl)
copy-some dst d src s (suc n) hd hs =
    let p = slice_below dst d n hd in
    let q = slice_below src s n hs in (copied dst d src s (suc n), ground (arith, p, q))

pub load-copy :
    (dst dst' : Rows) (d : ℕ) (src : Rows) (s n : ℕ)
    → ((i : ℕ) → i < n → (v : ℕ) × (load_row dst (d + i) ≡ some v))
    → ((i : ℕ) → i < n → (v : ℕ) × (load_row src (s + i) ≡ some v))
    → copy dst d src s n ≡ some dst'
    → (j : ℕ)
    → load_row dst' j
      ≡ (if leb d j && ltb j (d + n) then load_row src (s + (j - d)) else load_row dst j)
load-copy dst dst' d src s zero hd hs e j = rw⁻¹ (some_inj _ _ e) (ground arith)
load-copy dst dst' d src s (suc n) hd hs e j =
    let p = slice_below dst d n hd in
    let q = slice_below src s n hs in
    let run : copy dst d src s (suc n) ≡ some (copied dst d src s (suc n)) = ground (arith, p, q) in
    rw⁻¹ (some_inj _ _ (sym run ∙ e)) (ground (arith, p, q))

pub load-empty_rows :
    (n i : ℕ) → i < n → (v : ℕ) × (load_row (record { size = n; at = λ j. 0 }) i ≡ some v)
load-empty_rows n i h = (0, ground (arith, h))

abbrev pub rows : RowTensors ℕ
rows = record {
  rows = row_tensors;
  empty = λ n. record { size = n; at = λ i. 0 };
  load-empty = load-empty_rows;
  copy_rows = copy;
  copy_rows_some = copy-some;
  load-copy_rows = load-copy;
}
