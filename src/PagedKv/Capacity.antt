-- ===== src/PagedKv/Capacity.antt =====
-- `_calculate_paged_cache_capacity` of fastmoe/backend/execution_engine.py: how many tokens a
-- micro-batch may have where the keys and values are paged. A model has at least one layer.
use Prim.Native.Nat.{min}
use harvest_mo_e.Base.{ℕ, zero, suc, ◌+◌, ◌*◌, ◌/◌, Option, none, some, length, get_elem?}
use harvest_mo_e.Base.Action.{Error, Result, ok, raise, blocked}
use harvest_mo_e.PagedKv.Cache.{KvTensors, PagedKvCache}

-- The limits of the policy and of the context.
pub record Limits : Type 0 where
  pub n_ub : ℕ
  pub ubs : ℕ
  pub avg_prompt_tokens : ℕ
  pub gen_len : ℕ

abbrev pub roofline_limit : Limits → ℕ
roofline_limit l = l.n_ub * l.ubs * (l.avg_prompt_tokens + l.gen_len)

module _ {V : Type 0} (lib : KvTensors V) where
  -- The free blocks of the fullest layer on the GPU and on the CPU, from a layer on.
  unfoldable pub min_free_blocks :
      PagedKvCache lib → (layer_idx left : ℕ) → Option (ℕ × ℕ) → Result (Option (ℕ × ℕ))
  min_free_blocks c layer_idx zero least_free = ok least_free
  min_free_blocks c layer_idx (suc left) least_free =
      elim (get_elem? c.gpu_block_tables layer_idx) [
        | none ↦ raise Error.index_error
        | some gpu ↦ elim (get_elem? c.cpu_block_tables layer_idx) [
          | none ↦ raise Error.index_error
          | some cpu ↦
              let (g, f) : ℕ × ℕ = elim least_free [
                | none ↦ (length gpu.free_blocks, length cpu.free_blocks)
                | some (g, f) ↦ (min g (length gpu.free_blocks), min f (length cpu.free_blocks))
              ] in
              min_free_blocks c (layer_idx + 1) left (some (g, f))
        ]
      ]

  -- Half of the GPU's blocks, since the cells there are buffered twice.
  abbrev pub total_token_capacity : (gpu_free cpu_free block_size : ℕ) → ℕ
  total_token_capacity gpu_free cpu_free block_size =
      gpu_free * block_size / 2 + cpu_free * block_size

  unfoldable pub calculate_paged_cache_capacity :
      Limits
      → (num_hidden_layers : ℕ) → (kv_cache_override_capacity : Option ℕ)
      → (paged_kv_cache : Option (PagedKvCache lib)) → Result ℕ
  unfolding min_free_blocks
  calculate_paged_cache_capacity limits layers (some capacity) cache = ok capacity
  calculate_paged_cache_capacity limits layers none none = ok 2048
  calculate_paged_cache_capacity limits layers none (some c) =
      elim (min_free_blocks c 0 layers none) [
        | raise e ↦ raise e
        | blocked ↦ blocked
        | ok none ↦ ok (roofline_limit limits)
        | ok (some (gpu_free, cpu_free)) ↦
            ok (min (total_token_capacity gpu_free cpu_free c.block_size) (roofline_limit limits))
      ]
