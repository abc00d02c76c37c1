-- ===== src/Prefill/Engine.antt =====
-- `prepare_for_prefill` of fastmoe/backend/execution_engine.py: the micro-batches of one queue, each
-- prepared by the next line of the pool.
use native.Mathlib.Nat.{add-zero}
use harvest_mo_e.Base.{
  ℕ, zero, suc, ◌+◌, ◌*◌, ◌≤◌, ◌<◌, ◌≡◌, refl, ◌∙◌, List, [], ◌∷◌, some, length, get_elem?, All,
  arith, map,
}
use harvest_mo_e.Base.Action.{Error, ok, raise, Action, pure, ◌>>=◌}
use harvest_mo_e.KvPool.{RowTensors, TokenToKvPool, alloc_cpu}
use harvest_mo_e.KvPool.Lines.{IsAt, alloc_cpu_slot}
use harvest_mo_e.Requests.Req.{Req}
use harvest_mo_e.MicroBatches.{Policy, create_micro_batches}
use harvest_mo_e.MicroBatches.Conservation.{weight, weight_in, create_micro_batches-weight}
use harvest_mo_e.MicroBatches.Capacity.{create_micro_batches-FitsPolicy}
use harvest_mo_e.Prefill.{Batch, Caches, pool, prepared, prepare_for_prefill, init_new, lay_out}
use harvest_mo_e.Prefill.Lines.{prepared_run}

weight-length : (rs : List Req) → weight (λ r. 1) rs ≡ length rs
weight-length [] = refl
weight-length (r ∷ rs) = omega (arith, weight-length rs)

module _ {V : Type 0} (lib : RowTensors V) (out : ℕ) where
  -- The loop over `self.micro_batches`.
  unfoldable pub prepare_all : List Batch → Action (Caches lib) (List Batch)
  prepare_all [] = pure []
  prepare_all (b ∷ bs) = do
    b' ← prepare_for_prefill lib out b
    bs' ← prepare_all bs
    pure (b' ∷ bs')

  prepare_first :
      (k : ℕ) (p : TokenToKvPool lib) (r : Req) (rs : List Req)
      → IsAt k p
      → (b : Batch) × (p' : TokenToKvPool lib) × (prepare_for_prefill lib out
            (init_new (r ∷ rs))
            (pool p)
          ≡ (ok b, pool p'))
        × (b.cpu_kv_pool_start_loc ≡ k * p.cache_line)
        × (p'.cache_line ≡ p.cache_line)
        × (b.reqs ≡ r ∷ rs)
        × IsAt (k + 1) p'
  unfolding prepare_for_prefill
  prepare_first k p r rs at =
      let ((cpu, gpu, line), p') = alloc_cpu lib p in
      let (cpu_at, line_at, gpu_at, gpu_fits, same, size, next) = alloc_cpu_slot lib k p at in
      let (b, run, placed) = prepared_run gpu cpu line out r rs in
      (b, p', rw run refl, placed.cpu_start ∙ cpu_at, same, placed.same_reqs, next)

  prepare_empty :
      (p : TokenToKvPool lib)
      → (prepare_for_prefill lib out (init_new []) (pool p)).0 ≡ raise Error.type_error
  unfolding prepare_for_prefill prepared lay_out init_new
  prepare_empty p = refl

  -- The batches `bs` of the requests `reqss` stand at consecutive lines from line `n`.
  abbrev InLines : ℕ → ℕ → List (List Req) → List Batch → Type 0
  InLines line n reqss bs =
      (k : ℕ) (reqs : List Req)
      → get_elem? reqss k ≡ some reqs
      → (b : Batch) × (get_elem? bs k ≡ some b) × (b.cpu_kv_pool_start_loc ≡ (n + k) * line)

  InLines-cons :
      (line n : ℕ) (rs : List Req) (reqss : List (List Req)) (b : Batch) (bs : List Batch)
      → b.cpu_kv_pool_start_loc ≡ n * line
      → InLines line (n + 1) reqss bs
      → InLines line n (rs ∷ reqss) (b ∷ bs)
  InLines-cons line n rs reqss b bs start rest zero reqs e = (b, refl, rw add-zero start)
  InLines-cons line n rs reqss b bs start rest (suc k) reqs e =
      let (c, found, at) = rest k reqs e in
      let same : n + 1 + k ≡ n + suc k = omega arith in (c, found, rw same at at)

  pub prepare_all_run :
      (n : ℕ) (p : TokenToKvPool lib) (reqss : List (List Req))
      → IsAt n p
      → All (λ (rs : List Req). 1 ≤ length rs) reqss
      → (bs : List Batch) × (p' : TokenToKvPool lib) × (prepare_all (map init_new reqss) (pool p)
          ≡ (ok bs, pool p'))
        × IsAt (n + length reqss) p'
        × InLines p.cache_line n reqss bs
        × (map (λ (b : Batch). b.reqs) bs ≡ reqss)
  unfolding prepare_all
  prepare_all_run n p [] at full = ([], p, refl, rw add-zero at, λ k reqs e. cc, refl)
  prepare_all_run n p ([] ∷ reqss) at full = absurd (omega (arith, full.0))
  prepare_all_run n p ((r ∷ rs) ∷ reqss) at full =
      let (b, p₁, run, start, same, own, next) = prepare_first n p r rs at in
      let (bs, p', rest, last, lines, all) = prepare_all_run (n + 1) p₁ reqss next full.1 in
      let sum : n + 1 + length reqss ≡ n + suc (length reqss) = omega arith in
      (
        b ∷ bs,
        p',
        ground (arith, run, rest),
        rw sum at last,
        InLines-cons p.cache_line n (r ∷ rs) reqss b bs start (rw same at lines),
        rw own rw all refl,
      )

  -- Fewer requests than micro-batches make the loop raise.
  prepare_all_raises :
      (p : TokenToKvPool lib) (n : ℕ) (reqss : List (List Req))
      → IsAt n p
      → weight_in (λ r. 1) reqss < length reqss
      → (prepare_all (map init_new reqss) (pool p)).0 ≡ raise Error.type_error
  unfolding prepare_all
  prepare_all_raises p n [] at h = absurd (omega (arith, h))
  prepare_all_raises p n ([] ∷ reqss) at h = ground (arith, prepare_empty p)
  prepare_all_raises p n ((r ∷ rs) ∷ reqss) at h =
      let (b, p', run, start, same, own, next) = prepare_first n p r rs at in
      ground (arith, run, prepare_all_raises p' (n + 1) reqss next (omega (arith, h)))

-- Micro-batches of which none is empty are all prepared, each at a CPU line of its own: batch `k`
-- at the k-th line from the one where the pool stands.
pub prepare_all_lem :
    {V : Type 0} (lib : RowTensors V) (out n k : ℕ) (p : TokenToKvPool lib)
    (reqss : List (List Req)) (reqs : List Req)
    → IsAt n p
    → All (λ (rs : List Req). 1 ≤ length rs) reqss
    → get_elem? reqss k ≡ some reqs
    → let (result, caches) = prepare_all lib out (map init_new reqss) (pool p) in
      (bs : List Batch) × (p' : TokenToKvPool lib) × (b : Batch) × (result ≡ ok bs)
      × (caches ≡ pool p')
      × IsAt (n + length reqss) p'
      × (get_elem? bs k ≡ some b)
      × (b.cpu_kv_pool_start_loc ≡ (n + k) * p.cache_line)
prepare_all_lem lib out n k p reqss reqs at full e =
    let (bs, p', run, last, lines, _) = prepare_all_run lib out n p reqss at full in
    let (b, found, start) = lines k reqs e in rw run (bs, p', b, refl, refl, last, found, start)

-- With at least `ubs` requests in the queue but fewer than micro-batches, one of the micro-batches
-- is empty, and the prefill raises a TypeError.
pub create_micro_batches-prepare_raises :
    {V : Type 0} (lib : RowTensors V) (policy : Policy) (queue : List Req) (n : ℕ)
    (p : TokenToKvPool lib)
    → IsAt n p
    → 1 ≤ policy.ubs
    → policy.ubs ≤ length queue
    → length queue < policy.n_ub
    → let (micro_batches, aborted) = create_micro_batches policy queue in
      (prepare_all lib policy.gen_len (map init_new micro_batches) (pool p)).0
      ≡ raise Error.type_error
create_micro_batches-prepare_raises lib policy queue n p at h enough few =
    let (micro_batches, aborted) = create_micro_batches policy queue in
    let (number, fit, kept, marked) = create_micro_batches-FitsPolicy policy queue 0 h enough in
    let kept = create_micro_batches-weight policy queue (λ r. 1) (λ r. refl) in
    prepare_all_raises lib policy.gen_len p n micro_batches at
      (omega (arith, number, kept, few, weight-length queue))
