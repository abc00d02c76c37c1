-- ===== src/ExpertCache/Decode.antt =====
-- The slices of a decode step in fastmoe/backend/execution_engine.py: a page of the GPU cache in rows,
-- one slice for each micro-batch.
use native.Mathlib.Nat.{mul-div-le, mul-le-mul_right}
use harvest_mo_e.Base.{
  ℕ, ◌+◌, ◌-◌, ◌*◌, ◌/◌, ◌%◌, ◌≤◌, ◌<◌, ◌≡◌, refl, ap, false, Bool-cases, inl, inr, some, ◌==◌,
  if◌then◌else◌, arith,
}
use harvest_mo_e.Base.Action.{ok}
use harvest_mo_e.KvPool.{RowTensors}
use harvest_mo_e.ExpertCache.{
  Config, page_size, PrefetchState, init_weights_prefetch_meta, gpu_slice_decode, from_pin_slice,
}

base :
    (l p h q : ℕ) → (l + 2 * p) * 3 * h - 2 * (p * 3 * h) + q * (p * 3 * h) ≡ (l + q * p) * (3 * h)
base l p h q = omega arith

-- For at least one micro-batch, the slice of slot k of a decode step starts k slot sizes into the
-- rows of the page of the GPU cache that is next. It ends where that of slot k + 1 starts, and the
-- last one ends with the page, after which the other page is next. The slice of the pinned tensor
-- starts at the same distance from its start.
pub gpu_slice_decode_lem :
    {V : Type 0} (lib : RowTensors V) (c : Config) (s : PrefetchState lib) (n k : ℕ)
    → 1 ≤ n
    → k < n
    → let (result, s₁) = init_weights_prefetch_meta lib c n s in
      let (slice, s₂) = gpu_slice_decode lib c k s₁ in
      let page =
        (c.num_layers * c.num_gpu_experts + s.page_gpu % 2 * page_size c) * (3 * c.hidden_size) in
      let size = s₁.decode_slot_size in
      (result ≡ ok tt)
      × (slice.start ≡ page + k * size)
      × (slice.stop
          ≡ some (
              if k + 1 == n then page + page_size c * 3 * c.hidden_size else page + (k + 1) * size))
      × (s₂.page_gpu ≡ (if k + 1 == n then (s.page_gpu + 1) % 2 else s.page_gpu))
      × ((from_pin_slice lib c k s₁).start ≡ k * size)
      × (n * size ≤ page_size c * 3 * c.hidden_size)
unfolding init_weights_prefetch_meta gpu_slice_decode from_pin_slice
gpu_slice_decode_lem lib c s n k h u =
    let p = page_size c in
    let size = p * 3 * c.hidden_size / n in
    let start = base (c.num_layers * c.num_gpu_experts) p c.hidden_size (s.page_gpu % 2) in
    let some_batch : (n == 0) ≡ false = ground arith in
    let fits : n * size ≤ p * 3 * c.hidden_size = mul-div-le (p * 3 * c.hidden_size) n in
    let before : k * size ≤ n * size = mul-le-mul_right size (omega arith) in
    rw some_batch (elim (Bool-cases (k + 1 == n)) [
      | inl last ↦
          rw last
            (refl, ap (λ m. m + k * size) start, ap some (omega (arith, start)), refl, refl, fits)
      | inr more ↦
          rw more
            (refl, ap (λ m. m + k * size) start, ap some (omega (arith, start)), refl, refl, fits)
    ])
