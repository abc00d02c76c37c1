-- ===== src/PagedKv/Tests.antt =====
-- Runs of the paged cache, and each theorem at concrete inputs.
use harvest_mo_e.Base.{
  none, some, length, ◌⊎◌, ◌≤◌, ℕ, ◌<◌, ◌*◌, ◌+◌, ◌/◌, ◌≡◌, refl, List, [], ◌∷◌, arith,
  All-get_elem?,
}
use harvest_mo_e.Base.Action.{Error, ok, raise}
use harvest_mo_e.PagedKv.BlockTable
use harvest_mo_e.PagedKv.BlockTable.{
  BlockTable, Device, allocate_blocks, free_sequence_blocks, get_blocks, take_free, pop_free,
  ceil_div,
}
use harvest_mo_e.PagedKv.Cache
use harvest_mo_e.PagedKv.Cache.{
  PagedKvCache, Half, key, value, write_kv, read_kv, write_tokens, write_token, read_tokens,
  read_token, store_cell, div_mod, allocate_gpu_blocks, swap_blocks, load_blocks,
}
use harvest_mo_e.PagedKv.Memory.{memory}
use harvest_mo_e.PagedKv.Partition.{
  IsPartition, init-IsPartition, allocate_blocks-IsPartition, free_sequence_blocks-IsPartition,
}
use harvest_mo_e.PagedKv.RoundTrip.{IsWritable, read_kv-write_kv}
use harvest_mo_e.PagedKv.Capacity.{Limits, calculate_paged_cache_capacity}
use harvest_mo_e.PagedKv.CapacityBounds.{IsFreeIn, calculate_paged_cache_capacity_lem}
use harvest_mo_e.PagedKv.Isolation.{read_kv-write_kv_apart}

abbrev table : BlockTable
table = BlockTable.init 4 2 Device.cuda

abbrev table₁ : BlockTable
table₁ = (allocate_blocks 7 3 table).1

abbrev table₂ : BlockTable
table₂ = (allocate_blocks 8 2 table₁).1

allocate_runs :
    (table₂.free_blocks ≡ 3 ∷ [])
    × (table₂.seq_to_blocks ≡ (7, 0 ∷ 1 ∷ []) ∷ (8, 2 ∷ []) ∷ [])
    × (allocate_blocks 9 3 table₂ ≡ (raise Error.runtime_error, table₂))
    × ((free_sequence_blocks 7 table₂).free_blocks ≡ 3 ∷ 0 ∷ 1 ∷ [])
unfolding allocate_blocks free_sequence_blocks take_free pop_free ceil_div BlockTable.init
allocate_runs = (refl, refl, refl, refl)

table₁-IsPartition : IsPartition table₁
unfolding BlockTable.init
table₁-IsPartition = allocate_blocks-IsPartition 7 3 table refl (init-IsPartition 4 2 Device.cuda)

allocate_blocks-IsPartition_example : IsPartition (allocate_blocks 8 2 table₁).1
unfolding allocate_blocks take_free pop_free ceil_div BlockTable.init
allocate_blocks-IsPartition_example = allocate_blocks-IsPartition 8 2 table₁ refl table₁-IsPartition

free_sequence_blocks-IsPartition_example : IsPartition (free_sequence_blocks 7 table₁)
free_sequence_blocks-IsPartition_example =
    free_sequence_blocks-IsPartition 7 table₁ table₁-IsPartition

-- A cache of four GPU blocks of two tokens and two layers, over numbers for rows.
abbrev cpu_table : BlockTable
cpu_table = BlockTable.init 4 2 Device.cpu

abbrev cache : PagedKvCache memory
cache = record {
  block_size = 2;
  num_heads = 1;
  head_dim = 1;
  num_layers = 2;
  gpu_cache = memory.zeros 4 2;
  cpu_cache = memory.zeros 4 2 ∷ memory.zeros 4 2 ∷ [];
  gpu_block_tables = table ∷ table ∷ [];
  cpu_block_tables = BlockTable.init 4 2 Device.cpu ∷ BlockTable.init 4 2 Device.cpu ∷ [];
}

init-cache : Cache.init memory 4 4 2 1 1 2 ≡ ok cache
unfolding Cache.init
init-cache = refl

-- 6 is no power of two.
init_refused : Cache.init memory 4 4 6 1 1 2 ≡ raise Error.value_error
unfolding Cache.init
init_refused = refl

-- Block size 0 passes the power-of-two test.
init_zero : (c : PagedKvCache memory) × (Cache.init memory 4 4 0 1 1 2 ≡ ok c)
unfolding Cache.init
init_zero = (
  record cache {
    block_size = 0;
    gpu_cache = memory.zeros 4 0;
    cpu_cache = memory.zeros 4 0 ∷ memory.zeros 4 0 ∷ [];
    gpu_block_tables = BlockTable.init 4 0 Device.cuda ∷ BlockTable.init 4 0 Device.cuda ∷ [];
    cpu_block_tables = BlockTable.init 4 0 Device.cpu ∷ BlockTable.init 4 0 Device.cpu ∷ [];
  },
  refl,
)

abbrev three : List ℕ
three = 11 ∷ 12 ∷ 13 ∷ []

abbrev other_three : List ℕ
other_three = 21 ∷ 22 ∷ 23 ∷ []

cache-IsWritable : IsWritable memory three other_three (3 ∷ 1 ∷ []) cache
cache-IsWritable = record {
  positive = omega arith;
  unique = λ b. ground arith;
  same_length = refl;
  room = omega arith;
  cells = λ i b offset h e p.
      (0, ground (arith, All-get_elem? (λ b. b < 4) (3 ∷ 1 ∷ []) i b (omega arith) e));
}

read_kv-write_kv_example :
    let (result, c') = write_kv memory three other_three (3 ∷ 1 ∷ []) 0 0 cache in
    (result ≡ ok tt) × (read_kv memory (3 ∷ 1 ∷ []) 3 c' ≡ (ok (three, other_three), c'))
read_kv-write_kv_example =
    read_kv-write_kv memory three other_three (3 ∷ 1 ∷ []) 0 cache cache-IsWritable

read_kv-write_kv_apart_example :
    (read_kv memory (0 ∷ 2 ∷ []) 4 (write_kv memory three other_three (3 ∷ 1 ∷ []) 0 0 cache).1).0
    ≡ (read_kv memory (0 ∷ 2 ∷ []) 4 cache).0
read_kv-write_kv_apart_example =
    read_kv-write_kv_apart memory three other_three (3 ∷ 1 ∷ []) (0 ∷ 2 ∷ []) 0 0 4 cache
      (λ b. ground arith)

abbrev limits : Limits
limits = record { n_ub = 2; ubs = 3; avg_prompt_tokens = 4; gen_len = 2 }

-- Four free blocks of two tokens on each side: 4 tokens of the GPU and 8 of the CPU.
capacity_of_cache : calculate_paged_cache_capacity memory limits 2 none (some cache) ≡ ok 12
unfolding calculate_paged_cache_capacity BlockTable.init
capacity_of_cache = refl

calculate_paged_cache_capacity_lem_example :
    (capacity : ℕ) × (calculate_paged_cache_capacity memory limits 2 none (some cache)
      ≡ ok capacity)
    × (capacity ≤ limits.n_ub * limits.ubs * (limits.avg_prompt_tokens + limits.gen_len))
    × (capacity ≤ length table.free_blocks * 2 / 2 + length cpu_table.free_blocks * 2)
    × ((capacity ≡ limits.n_ub * limits.ubs * (limits.avg_prompt_tokens + limits.gen_len))
        ⊎ ((g : ℕ) × (f : ℕ) × (capacity ≡ g * 2 / 2 + f * 2)
            × IsFreeIn cache.gpu_block_tables 0 2 g
            × IsFreeIn cache.cpu_block_tables 0 2 f))
calculate_paged_cache_capacity_lem_example =
    calculate_paged_cache_capacity_lem memory cache limits 2 1 table cpu_table
      (((table, refl), (cpu_table, refl)), (((table, refl), (cpu_table, refl)), tt)) (omega arith)
      refl refl
