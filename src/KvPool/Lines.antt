-- ===== src/KvPool/Lines.antt =====
-- Where `alloc_cpu` puts the micro-batches: consecutive lines of the CPU pool, on the two GPU
-- cache lines by turns.
use native.Mathlib.Nat.{mul-add-mod_self_right, mod-eq_of_lt, add-zero, zero-add}
use mathlib.Core.Path.{ap₂}
use harvest_mo_e.Base.{
  ◌↔◌, ℕ, zero, suc, ◌+◌, ◌*◌, ◌/◌, ◌%◌, ◌≤◌, ◌<◌, ◌≡◌, refl, ap, sym, ◌∙◌, arith,
}
use harvest_mo_e.Base.Action.{ok}
use harvest_mo_e.KvPool.{RowTensors, TokenToKvPool, init, alloc_cpu, clear}

-- The pool after `k` allocations since the start or the last `clear`.
pub record IsAt {V : Type 0} {lib : RowTensors V} (k : ℕ) (p : TokenToKvPool lib) : Type 0 where
  pub positive : 0 < p.cache_line
  pub start : p.cur_start_loc ≡ k * p.cache_line
  pub line : p.cur_cl ≡ k % 2

module _ {V : Type 0} (lib : RowTensors V) where
  -- The pool after `n` more allocations.
  pub alloc_times : ℕ → TokenToKvPool lib → TokenToKvPool lib
  unfolding alloc_cpu
  alloc_times zero p = p
  alloc_times (suc n) p = alloc_times n (alloc_cpu lib p).1

mod_of_multiple : (k line : ℕ) → 0 < line → k * line % (2 * line) ≡ k % 2 * line
mod_of_multiple k line p =
    let split : k * line ≡ k / 2 * (2 * line) + k % 2 * line =
      let halves : k ≡ k / 2 * 2 + k % 2 = omega arith in
      omega (arith, ap (λ (t : ℕ). t * line) halves) in
    let small : k % 2 * line < 2 * line = grind arith in
    rw split (mul-add-mod_self_right (k / 2) (2 * line) (k % 2 * line) ∙ mod-eq_of_lt small)

-- The k-th allocation gets the k-th line of the CPU pool and the GPU cache line k % 2, and the GPU
-- start is the CPU start modulo the GPU buffer: where `store` and `load` look for it.
pub alloc_cpu_slot :
    {V : Type 0} (lib : RowTensors V) (k : ℕ) (p : TokenToKvPool lib)
    → IsAt k p
    → let ((start, gpu_start, line_idx), p') = alloc_cpu lib p in
      (start ≡ k * p.cache_line)
      × (line_idx ≡ k % 2)
      × (gpu_start ≡ start % (2 * p.cache_line))
      × (gpu_start + p.cache_line ≤ 2 * p.cache_line)
      × (p'.cache_line ≡ p.cache_line)
      × (p'.cpu_size ≡ p.cpu_size)
      × IsAt (k + 1) p'
unfolding alloc_cpu
alloc_cpu_slot lib k p v =
    let line = p.cache_line in
    let m = mod_of_multiple k line v.positive in
    (
      v.start,
      v.line,
      rw (v.start, v.line) (sym m),
      rw v.line (grind arith),
      refl,
      refl,
      record {
        positive = v.positive;
        start = rw v.start (grind arith);
        line = omega (arith, v.line);
      },
    )

alloc_times-IsAt :
    {V : Type 0} (lib : RowTensors V) (n k : ℕ) (p : TokenToKvPool lib)
    → IsAt k p
    → IsAt (k + n) (alloc_times lib n p)
      × ((alloc_times lib n p).cache_line ≡ p.cache_line)
      × ((alloc_times lib n p).cpu_size ≡ p.cpu_size)
unfolding alloc_times
alloc_times-IsAt lib zero k p v = (rw add-zero v, refl, refl)
alloc_times-IsAt lib (suc n) k p v =
    let (s, l, g, b, line, size, v') = alloc_cpu_slot lib k p v in
    let (at, line', size') = alloc_times-IsAt lib n (k + 1) (alloc_cpu lib p).1 v' in
    let e : k + 1 + n ≡ k + suc n = omega arith in (rw e at at, line' ∙ line, size' ∙ size)

pub init-IsAt :
    {V : Type 0} (lib : RowTensors V) (gpu_size cpu_size layers : ℕ) (p : TokenToKvPool lib)
    → init lib gpu_size cpu_size layers ≡ ok p
    → IsAt 0 p
      × (p.cache_line ≡ gpu_size / 2)
      × (p.cpu_size ≡ cpu_size / (gpu_size / 2) * (gpu_size / 2))
unfolding init
init-IsAt lib gpu_size cpu_size layers p e = ground arith

line_fits : (k q line : ℕ) → 0 < line → (k * line + line ≤ q * line) ↔ (k < q)
line_fits k q line p = (λ h. grind arith, λ h. grind arith)

-- Of a new pool, exactly the first `cpu_size / cache_line` allocations lie within the CPU pool:
-- `alloc_cpu` itself makes no check.
pub alloc_cpu_fits :
    {V : Type 0} (lib : RowTensors V) (gpu_size cpu_size layers k : ℕ) (p : TokenToKvPool lib)
    → init lib gpu_size cpu_size layers ≡ ok p
    → let ((start, _, _), _) = alloc_cpu lib (alloc_times lib k p) in
      (start + p.cache_line ≤ p.cpu_size) ↔ (k < cpu_size / p.cache_line)
unfolding alloc_cpu
alloc_cpu_fits lib gpu_size cpu_size layers k p e =
    let (at, line, size) = init-IsAt lib gpu_size cpu_size layers p e in
    let (later, same, _) = alloc_times-IsAt lib k 0 p at in
    let start : (alloc_times lib k p).cur_start_loc ≡ k * p.cache_line =
      later.start ∙ ap₂ ◌*◌ (zero-add k) same in
    let lines : p.cpu_size ≡ cpu_size / p.cache_line * p.cache_line = rw (← line) at size in
    rw (start, lines) (line_fits k (cpu_size / p.cache_line) p.cache_line at.positive)

-- After `clear` the lines are handed out from the start again.
pub clear-IsAt :
    {V : Type 0} (lib : RowTensors V) (k : ℕ) (p : TokenToKvPool lib)
    → IsAt k p
    → IsAt 0 (clear lib p)
unfolding clear
clear-IsAt lib k p v = record { positive = v.positive; start = omega arith; line = refl }
