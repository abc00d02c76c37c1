-- ===== src/KvPool/Offload.antt =====
-- `store` and `load`: rows that are offloaded to the CPU pool come back unchanged.
use harvest_mo_e.Base.{
  get_elem?-set_self, ℕ, ◌+◌, ◌-◌, ◌*◌, ◌%◌, ◌<◌, ◌≡◌, refl, ◌∙◌, arith, if◌then◌else◌, ltb, leb,
  ◌&&◌, some, get_elem?, set,
}
use harvest_mo_e.Base.Action.{ok}
use harvest_mo_e.KvPool.{RowTensors, TokenToKvPool, store, load}

module _ {V : Type 0} (lib : RowTensors V) where
  open lib.rows use {Tensor}

  -- `n` rows of the tensor from row `i` can be read.
  abbrev pub HasRows : Tensor → ℕ → ℕ → Type 0
  HasRows t i n = (j : ℕ) → j < n → (v : V) × (lib.rows.load t (i + j) ≡ some v)

  -- The GPU start of a CPU start.
  abbrev pub gpu_start : TokenToKvPool lib → ℕ → ℕ
  gpu_start p start = start % (2 * p.cache_line)

  -- A pool that holds the GPU buffer and the CPU rows of the layer.
  pub record Holds (p : TokenToKvPool lib) (layer : ℕ) (gpu cpu : Tensor) : Type 0 where
    pub positive : 0 < p.cache_line
    pub on_gpu : p.kv_data ≡ some gpu
    pub on_cpu : get_elem? p.kv_data_cpu layer ≡ some cpu

-- Within both tensors `store` copies the rows at the GPU start to the CPU start, and changes no
-- other CPU row, no other layer's and nothing on the GPU.
pub store_lem :
    {V : Type 0} (lib : RowTensors V) (p : TokenToKvPool lib) (start size layer : ℕ)
    (gpu cpu : lib.rows.Tensor)
    → Holds lib p layer gpu cpu
    → HasRows lib cpu start size
    → HasRows lib gpu (gpu_start lib p start) size
    → (cpu' : lib.rows.Tensor) × (store lib start size layer p
        ≡ (ok tt, record p { kv_data_cpu = set p.kv_data_cpu layer cpu' }))
      × ((j : ℕ)
          → lib.rows.load cpu' j ≡ (
              if leb start j && ltb j (start + size)
              then lib.rows.load gpu (gpu_start lib p start + (j - start))
              else lib.rows.load cpu j))
unfolding store
store_lem lib p start size layer gpu cpu h hc hg =
    let (cpu', e) = lib.copy_rows_some cpu start gpu (gpu_start lib p start) size hc hg in
    (
      cpu',
      ground (arith, e, h.on_gpu, h.on_cpu, h.positive),
      lib.load-copy_rows cpu cpu' start gpu (gpu_start lib p start) size hc hg e,
    )

-- ... and `load` copies them the other way.
pub load_lem :
    {V : Type 0} (lib : RowTensors V) (p : TokenToKvPool lib) (start size layer : ℕ)
    (gpu cpu : lib.rows.Tensor)
    → Holds lib p layer gpu cpu
    → HasRows lib cpu start size
    → HasRows lib gpu (gpu_start lib p start) size
    → (gpu' : lib.rows.Tensor) × (load lib start size layer p
        ≡ (ok tt, record p { kv_data = some gpu' }))
      × ((j : ℕ)
          → lib.rows.load gpu' j ≡ (
              if leb (gpu_start lib p start) j && ltb j (gpu_start lib p start + size)
              then lib.rows.load cpu (start + (j - gpu_start lib p start))
              else lib.rows.load gpu j))
unfolding load
load_lem lib p start size layer gpu cpu h hc hg =
    let (gpu', e) = lib.copy_rows_some gpu (gpu_start lib p start) cpu start size hg hc in
    (
      gpu',
      ground (arith, e, h.on_gpu, h.on_cpu, h.positive),
      lib.load-copy_rows gpu gpu' (gpu_start lib p start) cpu start size hg hc e,
    )

module _ {V : Type 0} (lib : RowTensors V) where
  copied_row :
      (gpu cpu cpu' : lib.rows.Tensor) (start size g i : ℕ)
      → i < size
      → lib.rows.load cpu' (start + i) ≡ (
          if leb start (start + i) && ltb (start + i) (start + size)
          then lib.rows.load gpu (g + (start + i - start))
          else lib.rows.load cpu (start + i))
      → lib.rows.load cpu' (start + i) ≡ lib.rows.load gpu (g + i)
  copied_row gpu cpu cpu' start size g i h e =
      let same : start + i - start ≡ i = omega arith in ground (arith, e, same)

-- Where the slices lie within the CPU rows of the layer and the GPU buffer, rows that were offloaded
-- by `store` are brought back by `load`, whatever was written to the GPU buffer in between.
pub load-store :
    {V : Type 0} (lib : RowTensors V) (p : TokenToKvPool lib) (start size layer j : ℕ)
    (gpu cpu overwritten : lib.rows.Tensor)
    → Holds lib p layer gpu cpu
    → HasRows lib cpu start size
    → HasRows lib gpu (gpu_start lib p start) size
    → HasRows lib overwritten (gpu_start lib p start) size
    → j < size
    → let (stored, p₁) = store lib start size layer p in
      let (loaded, p₂) = load lib start size layer (record p₁ { kv_data = some overwritten }) in
      (restored : lib.rows.Tensor) × (stored ≡ ok tt)
      × (loaded ≡ ok tt)
      × (p₂.kv_data ≡ some restored)
      × (lib.rows.load restored (gpu_start lib p start + j)
          ≡ lib.rows.load gpu (gpu_start lib p start + j))
load-store lib p start size layer j gpu cpu overwritten h hc hg ho hj =
    let g = gpu_start lib p start in
    let (cpu', run, rows) = store_lem lib p start size layer gpu cpu h hc hg in
    let p₁ : TokenToKvPool lib = record p {
      kv_data_cpu = set p.kv_data_cpu layer cpu';
      kv_data = some overwritten;
    } in
    let h' : Holds lib p₁ layer overwritten cpu' = record {
      positive = h.positive;
      on_gpu = refl;
      on_cpu = get_elem?-set_self p.kv_data_cpu layer cpu cpu' h.on_cpu;
    } in
    let hc' : HasRows lib cpu' start size = λ i hi.
      let (v, e) = hg i hi in
      (v, copied_row lib gpu cpu cpu' start size g i hi (rows (start + i)) ∙ e) in
    let (gpu', run', rows') = load_lem lib p₁ start size layer overwritten cpu' h' hc' ho in
    rw run (
      rw run' (
        gpu',
        refl,
        refl,
        refl,
        copied_row lib cpu' overwritten gpu' g size start j hj (rows' (g + j))
            ∙ copied_row lib gpu cpu cpu' start size g j hj (rows (start + j)),
      ))
