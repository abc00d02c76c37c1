-- ===== src/PagedKv/CapacityBounds.antt =====
-- The capacity that `_calculate_paged_cache_capacity` of fastmoe/backend/execution_engine.py returns.
use Prim.Native.Nat.{min}
use native.Mathlib.Decide.{ℕ_discrete}
use mathlib.Core.Path.{subst}
use native.Mathlib.Nat.{mul-le-mul_right}
use harvest_mo_e.Base.{
  ℕ, zero, suc, ◌+◌, ◌*◌, ◌/◌, ◌≤◌, ◌<◌, ◌≡◌, ◌∙◌, ◌⊎◌, inl, inr, refl, sym, some_inj, List, none,
  some, leb, length, Bool-cases, get_elem?, arith, All, range_from,
}
use harvest_mo_e.Base.Action.{ok}
use harvest_mo_e.PagedKv.BlockTable.{BlockTable}
use harvest_mo_e.PagedKv.Cache.{KvTensors, PagedKvCache}
use harvest_mo_e.PagedKv.Capacity.{
  Limits, roofline_limit, min_free_blocks, total_token_capacity, calculate_paged_cache_capacity,
}

-- A layer that has a table, and the free blocks of it.
abbrev pub HasTable : List BlockTable → ℕ → Type 0
HasTable tables l = (t : BlockTable) × (get_elem? tables l ≡ some t)

abbrev pub IsFreeIn : List BlockTable → (from until n : ℕ) → Type 0
IsFreeIn tables from until n =
    (l : ℕ) × (from ≤ l)
    × (l < until)
    × (t : BlockTable) × (get_elem? tables l ≡ some t)
    × (n ≡ length t.free_blocks)

-- The smallest number of free blocks of the layers from one on, and of a number before them.
abbrev IsLeast : List BlockTable → (from until before n : ℕ) → Type 0
IsLeast tables from until before n =
    (n ≤ before)
    × ((n ≡ before) ⊎ IsFreeIn tables from until n)
    × ((l : ℕ) (t : BlockTable)
        → from ≤ l
        → l < until
        → get_elem? tables l ≡ some t
        → n ≤ length t.free_blocks)

IsLeast-suc :
    (tables : List BlockTable) (from until before n : ℕ) (t : BlockTable)
    → from < until
    → get_elem? tables from ≡ some t
    → IsLeast tables (from + 1) until (min before (length t.free_blocks)) n
    → IsLeast tables from until before n
IsLeast-suc tables from until before n t h e (below, one_of, all) = (
  omega (arith, below),
  some_of one_of,
  λ l t' above under e'. elim (ℕ_discrete l from) [
    | yes same ↦
        let e₂ = subst (λ k. get_elem? tables k ≡ some t') same e' in
        subst (λ u. n ≤ length u.free_blocks) (some_inj t t' (sym e ∙ e₂)) (omega (arith, below))
    | no other ↦ all l t' (ground (arith, above, other)) under e'
  ],
)
  where
    some_of :
        (n ≡ min before (length t.free_blocks)) ⊎ IsFreeIn tables (from + 1) until n
        → (n ≡ before) ⊎ IsFreeIn tables from until n
    some_of (inl same) = elim (Bool-cases (leb before (length t.free_blocks))) [
      | inl smaller ↦ inl (ground (arith, same, smaller))
      | inr larger ↦ inr (from, omega arith, h, t, e, ground (arith, same, larger))
    ]
    some_of (inr (l, above, under, t', e', is_n)) = inr (l, omega arith, under, t', e', is_n)

-- With the first layer as the number before.
IsLeast-first :
    (tables : List BlockTable) (until n : ℕ) (t : BlockTable)
    → get_elem? tables 0 ≡ some t
    → 0 < until
    → IsLeast tables 1 until (length t.free_blocks) n
    → IsFreeIn tables 0 until n
      × ((l : ℕ) (t : BlockTable)
          → l < until
          → get_elem? tables l ≡ some t
          → n ≤ length t.free_blocks)
IsLeast-first tables until n t e h least =
    let same : length t.free_blocks ≡ min (length t.free_blocks) (length t.free_blocks) =
      omega arith in
    let all =
      IsLeast-suc tables 0 until (length t.free_blocks) n t h e
        (subst (λ b. IsLeast tables 1 until b n) same least) in
    (first least.1, λ l t' under e'. all.2 l t' (omega arith) under e')
  where
    first : (n ≡ length t.free_blocks) ⊎ IsFreeIn tables 1 until n → IsFreeIn tables 0 until n
    first (inl same) = (0, omega arith, h, t, e, same)
    first (inr (l, above, under, t', e', is_n)) = (l, omega arith, under, t', e', is_n)

module _ {V : Type 0} (lib : KvTensors V) (c : PagedKvCache lib) where
  abbrev HasTables : (from left : ℕ) → Type 0
  HasTables from left =
      All (λ l. HasTable c.gpu_block_tables l × HasTable c.cpu_block_tables l)
        (range_from from left)

  min_free_blocks_lem :
      (from left g f : ℕ)
      → HasTables from left
      → (g' : ℕ) × (f' : ℕ) × (min_free_blocks lib c from left (some (g, f)) ≡ ok (some (g', f')))
        × IsLeast c.gpu_block_tables from (from + left) g g'
        × IsLeast c.cpu_block_tables from (from + left) f f'
  unfolding min_free_blocks
  min_free_blocks_lem from zero g f h = (
    g,
    f,
    refl,
    (omega arith, inl refl, λ l t above under e. absurd (omega arith)),
    (omega arith, inl refl, λ l t above under e. absurd (omega arith)),
  )
  min_free_blocks_lem from (suc left) g f (((gpu, e₁), (cpu, e₂)), rest) =
      let (g', f', e, gs, fs) =
        min_free_blocks_lem (from + 1) left (min g (length gpu.free_blocks))
          (min f (length cpu.free_blocks)) rest in
      let until : from + 1 + left ≡ from + suc left = omega arith in
      (
        g',
        f',
        ground (arith, e₁, e₂, e),
        IsLeast-suc c.gpu_block_tables from (from + suc left) g g' gpu (omega arith) e₁ (
            subst (λ u. IsLeast c.gpu_block_tables (from + 1) u (min g (length gpu.free_blocks)) g')
              until gs),
        IsLeast-suc c.cpu_block_tables from (from + suc left) f f' cpu (omega arith) e₂ (
            subst (λ u. IsLeast c.cpu_block_tables (from + 1) u (min f (length cpu.free_blocks)) f')
              until fs),
      )

  -- The free blocks of the layers, which are one at least.
  min_free_blocks_all :
      (layers : ℕ)
      → 1 ≤ layers
      → HasTables 0 layers
      → (g : ℕ) × (f : ℕ) × (min_free_blocks lib c 0 layers none ≡ ok (some (g, f)))
        × IsFreeIn c.gpu_block_tables 0 layers g
        × IsFreeIn c.cpu_block_tables 0 layers f
        × ((l : ℕ) (t : BlockTable)
            → l < layers
            → get_elem? c.gpu_block_tables l ≡ some t
            → g ≤ length t.free_blocks)
        × ((l : ℕ) (t : BlockTable)
            → l < layers
            → get_elem? c.cpu_block_tables l ≡ some t
            → f ≤ length t.free_blocks)
  unfolding min_free_blocks
  min_free_blocks_all zero h tables = elim h [ ]
  min_free_blocks_all (suc left) h (((gpu, e₁), (cpu, e₂)), rest) =
      let (g, f, e, gs, fs) =
        min_free_blocks_lem 1 left (length gpu.free_blocks) (length cpu.free_blocks) rest in
      let all_gpu = IsLeast-first c.gpu_block_tables (1 + left) g gpu e₁ (omega arith) gs in
      let all_cpu = IsLeast-first c.cpu_block_tables (1 + left) f cpu e₂ (omega arith) fs in
      (
        g,
        f,
        ground (arith, e₁, e₂, e),
        subst (λ u. IsFreeIn c.gpu_block_tables 0 u g) (omega arith) all_gpu.0,
        subst (λ u. IsFreeIn c.cpu_block_tables 0 u f) (omega arith) all_cpu.0,
        λ l t under e'. all_gpu.1 l t (omega arith) e',
        λ l t under e'. all_cpu.1 l t (omega arith) e',
      )

-- With a table on each side for each layer of a model, and no capacity that overrides: the capacity
-- is at most the limit of the policy, `n_ub * ubs` requests with prompt and answer each, and at most
-- the tokens of the free blocks of any layer, those on the GPU counted half; and it is the limit, or
-- the tokens of what two layers have free, one on each side.
pub calculate_paged_cache_capacity_lem :
    {V : Type 0} (lib : KvTensors V) (c : PagedKvCache lib) (limits : Limits) (layers l : ℕ)
    (gpu cpu : BlockTable)
    → All (λ k. HasTable c.gpu_block_tables k × HasTable c.cpu_block_tables k) (range_from 0 layers)
    → l < layers
    → get_elem? c.gpu_block_tables l ≡ some gpu
    → get_elem? c.cpu_block_tables l ≡ some cpu
    → (capacity : ℕ) × (calculate_paged_cache_capacity lib limits layers none (some c)
        ≡ ok capacity)
      × (capacity ≤ limits.n_ub * limits.ubs * (limits.avg_prompt_tokens + limits.gen_len))
      × (capacity
          ≤ length gpu.free_blocks * c.block_size / 2 + length cpu.free_blocks * c.block_size)
      × ((capacity ≡ limits.n_ub * limits.ubs * (limits.avg_prompt_tokens + limits.gen_len))
          ⊎ ((g : ℕ) × (f : ℕ) × (capacity ≡ g * c.block_size / 2 + f * c.block_size)
              × IsFreeIn c.gpu_block_tables 0 layers g
              × IsFreeIn c.cpu_block_tables 0 layers f))
unfolding calculate_paged_cache_capacity
calculate_paged_cache_capacity_lem lib c limits layers l gpu cpu tables h e₁ e₂ =
    let (g, f, e, free_gpu, free_cpu, all_gpu, all_cpu) =
      min_free_blocks_all lib c layers (omega arith) tables in
    let total = total_token_capacity lib g f c.block_size in
    let roofline = roofline_limit limits in
    (
      min total roofline,
      ground (arith, e),
      omega arith,
      omega (
        arith,
        mul-le-mul_right c.block_size (all_gpu l gpu h e₁),
        mul-le-mul_right c.block_size (all_cpu l cpu h e₂),
      ),
      elim (Bool-cases (leb total roofline)) [
        | inl smaller ↦ inr (g, f, ground (arith, smaller), free_gpu, free_cpu)
        | inr larger ↦ inl (ground (arith, larger))
      ],
    )
