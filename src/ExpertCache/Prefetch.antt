-- ===== src/ExpertCache/Prefetch.antt =====
-- `prefetch_experts` of fastmoe/backend/execution_engine.py in the prefill, where all experts of a
-- layer make one page.
use native.Mathlib.Nat.{mul-le-mul_right}
use harvest_mo_e.Base.{
  ℕ, ◌+◌, ◌-◌, ◌*◌, ◌%◌, ◌≤◌, ◌<◌, ◌≡◌, ◌≢◌, ◌⊎◌, refl, ap, ◌∙◌, false, Bool-cases, inl, inr, some,
  ltb, leb, ◌==◌, ◌&&◌, if◌then◌else◌, arith,
}
use harvest_mo_e.Base.Action.{ok}
use harvest_mo_e.KvPool.{RowTensors}
use harvest_mo_e.ExpertCache.{
  Config, experts_pool_size, page_size, num_pages_cpu, experts_mapping, PrefetchState,
  prefetch_prefill, cpu_slice_prefill, gpu_slice_prefill,
}
use harvest_mo_e.ExpertCache.Mapping.{
  IsOnePage, num_pages_cpu-one, experts_mapping-slot, slot, slot_bound,
}

module _ {V : Type 0} (lib : RowTensors V) (c : Config) where
  abbrev HasRows : ℕ → lib.rows.Tensor → Type 0
  HasRows n t = (i : ℕ) → i < n → (v : V) × (lib.rows.load t i ≡ some v)

  -- After `n` prefetches since the last `reset`, with all rows of both caches there.
  pub record IsAfter (n : ℕ) (s : PrefetchState lib) : Type 0 where
    pub page_cpu : s.page_cpu ≡ 0
    pub page_gpu : s.page_gpu ≡ n % 2
    pub cache : HasRows (experts_pool_size c) s.experts_cache
    pub cold : HasRows (experts_pool_size c) s.experts_cache_cold

  page_start : ℕ → ℕ
  page_start n = c.num_layers * c.num_gpu_experts + n % 2 * page_size c

  page_in_pool : (n i : ℕ) → i < page_size c → page_start n + i < experts_pool_size c
  unfolding page_start
  page_in_pool n i u =
      let half : n % 2 + 1 ≤ 2 = omega arith in omega (arith, mul-le-mul_right (page_size c) half)

  cold_in_pool :
      (i : ℕ) → 1 ≤ c.num_layers → i < page_size c → c.num_gpu_experts + i < experts_pool_size c
  cold_in_pool i h u = omega (arith, mul-le-mul_right c.num_gpu_experts h)

  prefetch_run :
      (n layer_id : ℕ) (s : PrefetchState lib)
      → IsOnePage c
      → 1 ≤ c.num_layers
      → IsAfter n s
      → (cache : lib.rows.Tensor) × (prefetch_prefill lib c layer_id 0 0 s
          ≡ (ok tt, record s { page_cpu = 0; page_gpu = (n + 1) % 2; experts_cache = cache }))
        × (lib.copy_rows s.experts_cache
              (page_start n)
              s.experts_cache_cold
              c.num_gpu_experts
              (page_size c)
            ≡ some cache)
  unfolding prefetch_prefill cpu_slice_prefill gpu_slice_prefill page_start
  prefetch_run n layer_id s v h a =
      let (cache, copied) =
        lib.copy_rows_some s.experts_cache (page_start n) s.experts_cache_cold c.num_gpu_experts
          (page_size c) (λ i u. a.cache (page_start n + i) (page_in_pool n i u))
          (λ i u. a.cold (c.num_gpu_experts + i) (cold_in_pool i h u)) in
      let one = num_pages_cpu-one c v in
      let gpu : experts_pool_size c
            - 2 * page_size c
            + s.page_gpu % 2 * page_size c
            + 0 * page_size c
          ≡ page_start n =
        let half : s.page_gpu % 2 ≡ n % 2 = omega (arith, a.page_gpu) in
        omega (arith, ap (λ m. m * page_size c) half) in
      let cold : c.num_gpu_experts + 0 * page_size c + 0 * page_size c ≡ c.num_gpu_experts =
        omega arith in
      let next : (s.page_gpu + 1) % 2 ≡ (n + 1) % 2 = omega (arith, a.page_gpu) in
      let wrap : (s.page_cpu + 1) % num_pages_cpu c ≡ 0 =
        ap (λ m. (s.page_cpu + 1) % m) one ∙ omega arith in
      (cache, rw a.page_cpu rw one rw gpu rw cold rw copied rw next rw wrap refl, copied)

  copied_rows :
      (n : ℕ) (s : PrefetchState lib)
      → IsOnePage c
      → 1 ≤ c.num_layers
      → IsAfter n s
      → (cache : lib.rows.Tensor)
      → lib.copy_rows s.experts_cache
          (page_start n)
          s.experts_cache_cold
          c.num_gpu_experts
          (page_size c)
        ≡ some cache
      → (j : ℕ)
      → lib.load cache j ≡ (
          if leb (page_start n) j && ltb j (page_start n + page_size c)
          then lib.load s.experts_cache_cold (c.num_gpu_experts + (j - page_start n))
          else lib.load s.experts_cache j)
  copied_rows n s v h a cache copied =
      lib.load-copy_rows s.experts_cache cache (page_start n) s.experts_cache_cold c.num_gpu_experts
        (page_size c) (λ i u. a.cache (page_start n + i) (page_in_pool n i u))
        (λ i u. a.cold (c.num_gpu_experts + i) (cold_in_pool i h u)) copied

  cache_rows :
      (n : ℕ) (s : PrefetchState lib)
      → IsOnePage c
      → 1 ≤ c.num_layers
      → IsAfter n s
      → (cache : lib.rows.Tensor)
      → lib.copy_rows s.experts_cache
          (page_start n)
          s.experts_cache_cold
          c.num_gpu_experts
          (page_size c)
        ≡ some cache
      → HasRows (experts_pool_size c) cache
  cache_rows n s v h a cache copied j u =
      let row = copied_rows n s v h a cache copied j in
      elim (Bool-cases (leb (page_start n) j && ltb j (page_start n + page_size c))) [
        | inl inside ↦
            let off : j - page_start n < page_size c = ground (arith, inside) in
            let (x, found) =
              a.cold (c.num_gpu_experts + (j - page_start n))
                (cold_in_pool (j - page_start n) h off) in
            (x, ground (row, inside, found, arith))
        | inr outside ↦ let (x, found) = a.cache j u in (x, ground (row, outside, found, arith))
      ]

  moving_slot :
      (n i e : ℕ)
      → i % 2 ≡ n % 2
      → c.num_gpu_experts ≤ e
      → slot c i e ≡ page_start n + (e - c.num_gpu_experts)
  unfolding page_start
  moving_slot n i e par l = ground (arith, ap (λ m. m * page_size c) par)

  kept_slot :
      (n i e : ℕ)
      → IsOnePage c
      → i < c.num_layers
      → e < c.num_local_experts
      → (e < c.num_gpu_experts) ⊎ (i % 2 ≢ n % 2)
      → (leb (page_start n) (slot c i e) && ltb (slot c i e) (page_start n + page_size c)) ≡ false
  unfolding page_start
  kept_slot n i e v u w other = elim (Bool-cases (ltb e c.num_gpu_experts)) [
    | inl first ↦ ground (arith, first, slot_bound c i e u (ground (arith, first)))
    | inr last ↦
        let differ : i % 2 ≢ n % 2 = ground (arith, last, other) in
        elim (Bool-cases (i % 2 == 0)) [
          | inl even ↦
              let zero_i : i % 2 ≡ 0 = ground (arith, even) in
              let one_n : n % 2 ≡ 1 = omega arith in
              ground (
                arith,
                last,
                ap (λ m. m * page_size c) zero_i,
                ap (λ m. m * page_size c) one_n,
                v.one_page,
              )
          | inr odd ↦
              let one_i : i % 2 ≡ 1 = ground (arith, odd) in
              let zero_n : n % 2 ≡ 0 = omega arith in
              ground (
                arith,
                last,
                ap (λ m. m * page_size c) one_i,
                ap (λ m. m * page_size c) zero_n,
                v.one_page,
              )
        ]
  ]

-- The n-th prefetch of the prefill, counted from 0 after a `reset`, for a layer of the parity of n:
-- each expert of the layer that does not stay on the GPU is then in its slot of `experts_mapping`.
-- The slots of the experts that stay, and those of the layers of the other parity, keep their rows,
-- and the next prefetch starts from the other page. What is copied is the row of the cold cache with
-- the number of the expert, whichever the layer is.
pub prefetch_prefill-maps :
    {V : Type 0} (lib : RowTensors V) (c : Config) (n i e i' e' : ℕ) (row row' : ℕ → ℕ)
    (s : PrefetchState lib)
    → IsOnePage c
    → IsAfter lib c n s
    → i < c.num_layers
    → i' < c.num_layers
    → i % 2 ≡ n % 2
    → c.num_gpu_experts ≤ e
    → e < c.num_local_experts
    → e' < c.num_local_experts
    → (e' < c.num_gpu_experts) ⊎ (i' % 2 ≢ n % 2)
    → let (result, s') = prefetch_prefill lib c i 0 0 s in
      (result ≡ ok tt)
      × IsAfter lib c (n + 1) s'
      × (lib.load s'.experts_cache (experts_mapping c i row e) ≡ lib.load s.experts_cache_cold e)
      × (lib.load s'.experts_cache (experts_mapping c i' row' e')
          ≡ lib.load s.experts_cache (experts_mapping c i' row' e'))
prefetch_prefill-maps lib c n i e i' e' row row' s v a u u' par l w w' other =
    let (cache, run, copied) = prefetch_run lib c n i s v (omega arith) a in
    let rows = copied_rows lib c n s v (omega arith) a cache copied in
    let at = experts_mapping-slot c i e row v w ∙ moving_slot lib c n i e par l in
    let at' = experts_mapping-slot c i' e' row' v w' in
    let away = kept_slot lib c n i' e' v u' w' other in
    let off : page_start lib c n + (e - c.num_gpu_experts) - page_start lib c n
        ≡ e - c.num_gpu_experts =
      omega arith in
    let number : c.num_gpu_experts + (e - c.num_gpu_experts) ≡ e = omega arith in
    rw run (
      refl,
      record {
        page_cpu = refl;
        page_gpu = refl;
        cache = cache_rows lib c n s v (omega arith) a cache copied;
        cold = a.cold;
      },
      rw at (
          ground
            (arith, rows (page_start lib c n + (e - c.num_gpu_experts)), off, number, v.one_page)),
      rw at' (ground (arith, rows (slot c i' e'), away)),
    )
