-- ===== src/Prefill/Lines.antt =====
-- The prefill of a micro-batch that fits its cache line.
use harvest_mo_e.Base.{
  ◌⊎◌, inl, inr, ltb, Bool-cases, ℕ, ◌+◌, ◌*◌, ◌%◌, ◌≤◌, ◌<◌, ◌≡◌, refl, ap, ◌∙◌, List, [], ◌∷◌,
  some, length, get_elem?, All, arith, map, All-mono, sum, range_from, length-range_from,
  length-append,
}
use harvest_mo_e.Base.Count.{count}
use harvest_mo_e.Base.Int.{pos, sub_ℕ}
use harvest_mo_e.Base.Action.{ok}
use harvest_mo_e.KvPool.{RowTensors, TokenToKvPool, alloc_cpu}
use harvest_mo_e.KvPool.Lines.{IsAt, alloc_cpu_slot}
use harvest_mo_e.Requests.Req.{Req}
use harvest_mo_e.MicroBatches.{Policy}
use harvest_mo_e.MicroBatches.Capacity.{FitsPolicy, input_total}
use harvest_mo_e.Prefill.{Batch, pool, lay_out, prepared, prepare_for_prefill, init_new}
use harvest_mo_e.Prefill.Regions.{
  footprint, lay_out_at, lay_out-disjoint, lay_out-slots, count-lay_out, kv_pt_of-lay_out,
}

-- `input_len` is set before the prompt is cut.
abbrev pub IsCut : Req → Type 0
IsCut r = length r.input_ids ≤ r.input_len

footprint-le :
    (out : ℕ) (rs : List Req) → All IsCut rs → footprint out rs ≤ input_total rs + length rs * out
footprint-le out [] a = omega arith
footprint-le out (r ∷ rs) a = let rest = footprint-le out rs a.1 in grind (arith, a.0, rest)

length-out_cache_loc :
    (gpu cpu out pt : ℕ) (reqs : List Req)
    → length (lay_out gpu cpu out pt reqs).out_cache_loc
      ≡ sum (map (λ (r : Req). length r.input_ids) reqs)
unfolding lay_out
length-out_cache_loc gpu cpu out pt [] = refl
length-out_cache_loc gpu cpu out pt (r ∷ reqs) =
    let n = length r.input_ids in
    let rest = lay_out gpu cpu out (pt + n + out) reqs in
    omega (
      arith,
      length-append (range_from (gpu + pt) n) rest.out_cache_loc,
      length-range_from (gpu + pt) n,
      length-out_cache_loc gpu cpu out (pt + n + out) reqs,
    )

-- The batch with these requests after the prefill, at the line that starts at `cpu`.
pub record IsPlaced (gpu cpu out : ℕ) (reqs : List Req) (b : Batch) : Type 0 where
  pub same_reqs : b.reqs ≡ reqs
  pub starts : b.start_loc ≡ (lay_out gpu cpu out 0 reqs).start_loc
  pub decodes : b.decode_out_cache_loc ≡ (lay_out gpu cpu out 0 reqs).decode_out_cache_loc
  pub slots : b.out_cache_loc ≡ (lay_out gpu cpu out 0 reqs).out_cache_loc
  pub cpu_start : b.cpu_kv_pool_start_loc ≡ cpu
  pub last : ℕ
  pub kv_end : b.kv_pt ≡ pos last
  pub above : cpu ≤ last
  pub below : last + out ≤ cpu + footprint out reqs

pub prepared_run :
    (gpu cpu line out : ℕ) (r : Req) (rs : List Req)
    → (b : Batch) × (prepared gpu cpu line out (init_new (r ∷ rs)) ≡ ok b)
      × IsPlaced gpu cpu out (r ∷ rs) b
unfolding prepared lay_out init_new
prepared_run gpu cpu line out r rs =
    let (last, kv, above, below) = kv_pt_of-lay_out gpu cpu out 0 r rs in
    (
      _,
      refl,
      record {
        same_reqs = refl;
        starts = refl;
        decodes = refl;
        slots = refl;
        cpu_start = refl;
        last = last;
        kv_end = kv;
        above = omega (arith, above);
        below = omega (arith, below);
      },
    )

-- The regions of two sequences share no row.
regions-apart :
    (gpu cpu out : ℕ) (reqs : List Req) (i j : ℕ) (r r' : Req) (s s' : ℕ)
    → get_elem? reqs i ≡ some r
    → get_elem? reqs j ≡ some r'
    → get_elem? (lay_out gpu cpu out 0 reqs).start_loc i ≡ some s
    → get_elem? (lay_out gpu cpu out 0 reqs).start_loc j ≡ some s'
    → (i ≡ j) ⊎ (s + length r.input_ids + out ≤ s') ⊎ (s' + length r'.input_ids + out ≤ s)
regions-apart gpu cpu out reqs i j r r' s s' ei ej e e' = elim (Bool-cases (ltb i j)) [
  | inl before ↦
      inr (
        inl (lay_out-disjoint gpu cpu out 0 reqs i j r r' s s' (ground (arith, before)) ei ej e e'))
  | inr later ↦ elim (Bool-cases (ltb j i)) [
    | inl after ↦
        inr (
          inr
            (lay_out-disjoint gpu cpu out 0 reqs j i r' r s' s (ground (arith, after)) ej ei e' e))
    | inr same ↦ inl (ground (arith, later, same))
  ]
]

-- A micro-batch with requests whose lengths fit the cache line is prepared in the next line of the
-- pool. There each sequence has a region of its own for prompt and answer: it lies within the CPU
-- line, it shares no row with the region of any other sequence, and the answer starts at the last
-- token of the prompt. The GPU slots of the prompts lie in the GPU cache line of the batch, and no
-- two tokens share one. The rows that are offloaded later end within the CPU line.
pub prepare_for_prefill_lem :
    {V : Type 0} (lib : RowTensors V) (policy : Policy) (k : ℕ) (p : TokenToKvPool lib)
    (reqs : List Req) (i j : ℕ) (r r' : Req) (slot : ℕ)
    → IsAt k p
    → policy.capacity ≡ p.cache_line
    → FitsPolicy policy reqs
    → All IsCut reqs
    → get_elem? reqs i ≡ some r
    → get_elem? reqs j ≡ some r'
    → let line = p.cache_line in
      let (result, caches) = prepare_for_prefill lib policy.gen_len (init_new reqs) (pool p) in
      (b : Batch) × (p' : TokenToKvPool lib) × (start : ℕ) × (start' : ℕ) × (last : ℕ) × (result
        ≡ ok b)
      × (caches ≡ pool p')
      × IsAt (k + 1) p'
      × (get_elem? b.start_loc i ≡ some start)
      × (k * line ≤ start)
      × (start + length r.input_ids + policy.gen_len ≤ (k + 1) * line)
      × (get_elem? b.start_loc j ≡ some start')
      × ((i ≡ j)
          ⊎ (start + length r.input_ids + policy.gen_len ≤ start')
          ⊎ (start' + length r'.input_ids + policy.gen_len ≤ start))
      × (get_elem? b.decode_out_cache_loc i ≡ some (sub_ℕ (start + length r.input_ids) 1))
      × All (λ loc. (k % 2 * line ≤ loc) × (loc < k % 2 * line + line)) b.out_cache_loc
      × (count slot b.out_cache_loc ≤ 1)
      × (b.kv_pt ≡ pos last)
      × (k * line ≤ last)
      × (last ≤ (k + 1) * line)
unfolding prepare_for_prefill
prepare_for_prefill_lem lib policy k p [] i j r r' slot at cap fits cut e e' = cc
prepare_for_prefill_lem lib policy k p (x ∷ xs) i j r r' slot at cap fits cut e e' =
    let out = policy.gen_len in
    let reqs = x ∷ xs in
    let ((cpu, gpu, line), p') = alloc_cpu lib p in
    let (cpu_at, line_at, gpu_at, gpu_fits, same, size, next) = alloc_cpu_slot lib k p at in
    let (b, run, placed) = prepared_run gpu cpu line out x xs in
    let room = footprint-le out reqs cut in
    let (start, starts, decodes, above, below) = lay_out_at gpu cpu out 0 reqs i r e in
    let (start', starts', decodes', above', below') = lay_out_at gpu cpu out 0 reqs j r' e' in
    let total : footprint out reqs ≤ p.cache_line = omega (arith, room, fits.room, cap) in
    let ends : (k + 1) * p.cache_line ≡ k * p.cache_line + p.cache_line = grind arith in
    let gpu_start : gpu ≡ k % 2 * p.cache_line = ap (λ l. l * p.cache_line) line_at in
    let Slot : ℕ → Type 0 =
      λ loc. (k % 2 * p.cache_line ≤ loc) × (loc < k % 2 * p.cache_line + p.cache_line) in
    let slots : All Slot b.out_cache_loc = rw placed.slots (
      All-mono (λ loc. (gpu + 0 ≤ loc) × (loc < gpu + 0 + footprint out reqs)) Slot
        (lay_out gpu cpu out 0 reqs).out_cache_loc
        (λ loc h. (omega (arith, h.0, gpu_start), omega (arith, h.1, gpu_start, total)))
        (lay_out-slots gpu cpu out 0 reqs)) in
    (
      b,
      p',
      start,
      start',
      placed.last,
      run,
      refl,
      next,
      ap (λ l. get_elem? l i) placed.starts ∙ starts,
      omega (arith, above, cpu_at),
      omega (arith, below, cpu_at, total, ends),
      ap (λ l. get_elem? l j) placed.starts ∙ starts',
      regions-apart gpu cpu out reqs i j r r' start start' e e' starts starts',
      ap (λ l. get_elem? l i) placed.decodes ∙ decodes,
      slots,
      rw placed.slots (ground (arith, count-lay_out gpu cpu out 0 slot reqs)),
      placed.kv_end,
      omega (arith, placed.above, cpu_at),
      omega (arith, placed.below, cpu_at, total, ends),
    )
