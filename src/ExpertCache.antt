-- ===== src/ExpertCache.antt =====
-- The GPU cache of the experts in fastmoe/backend/execution_engine.py: its size and the slot of each
-- expert (`ExecutionContext.build_context`, `init_gpu_experts`), and the slices between which the
-- weights are prefetched. `experts_cache` and `experts_cache_cold` have one row for each slot; a
-- tensor of slots is a function from the index. `pinned_pages_per_layer`, which nothing sets, is 0.
pub mod Mapping
pub mod Prefetch
pub mod Decode
pub mod Init
pub mod Own
pub mod Pool
mod Tests
use harvest_mo_e.Base.{
  ℕ, zero, suc, ◌+◌, ◌-◌, ◌*◌, ◌/◌, ◌%◌, Bool, true, false, not, ◌&&◌, ◌||◌, Option, none, some,
  ltb, leb, ◌==◌, if◌then◌else◌,
}
use harvest_mo_e.Base.Int.{ℤ, pos, negsuc}
use harvest_mo_e.Base.Action.{
  Error, Result, ok, raise, blocked, Action, pure, raise_if, modify, ◌>>=◌, ◌>>◌,
}
use harvest_mo_e.KvPool.{RowTensors}
use harvest_mo_e.Tracker.{ExpertTracker, MemoryLocation, ExpertStatus, update_expert_location}

-- The numbers of the model and the policy. `num_gpu_experts` is `int(num_local_experts * wg)`, a
-- product with a float.
pub record Config : Type 0 where
  pub num_layers : ℕ
  pub num_local_experts : ℕ
  pub num_comp_experts : ℕ
  pub num_gpu_experts : ℕ
  pub hidden_size : ℕ
  pub ubs : ℕ
  pub n_ub : ℕ
  pub avg_prompt_tokens : ℕ
  pub gen_len : ℕ

-- The sizes of the tensors that `build_context` creates.
pub record ContextSizes : Type 0 where
  pub gpu_token_buffer_size : ℕ
  pub cpu_token_pool_size : ℕ
  pub experts_pool_size : ℕ
  pub experts_pin_size : ℕ

module _ (c : Config) where
  -- The experts of a page that are not kept on the GPU. `build_context` sees to it that this is no
  -- negative number, as long as `wg` is at most 1.
  abbrev pub page_size : ℕ
  page_size = c.num_comp_experts - c.num_gpu_experts

  abbrev pub experts_pool_size : ℕ
  experts_pool_size = c.num_layers * c.num_gpu_experts + 2 * page_size

  abbrev pub num_pages_cpu : ℕ
  num_pages_cpu = c.num_local_experts / c.num_comp_experts

  -- `build_context`, with the token pool.
  unfoldable pub build_context : Result ContextSizes
  build_context =
      let tokens = c.ubs * (c.avg_prompt_tokens + c.gen_len) in
      if not (c.num_comp_experts == c.num_local_experts) && not (c.num_gpu_experts == 0)
      then raise Error.assertion_error
      else ok (record {
        gpu_token_buffer_size = 2 * tokens;
        cpu_token_pool_size = c.n_ub * c.ubs * (c.avg_prompt_tokens + c.gen_len);
        experts_pool_size = experts_pool_size;
        experts_pin_size = page_size;
      })

  -- The slots of one page of a layer, written behind those that are there.
  abbrev pub map_page : (i page_id : ℕ) → (ℕ → ℕ) → ℕ → ℕ
  map_page i page_id row e =
      let start_pos = c.num_gpu_experts + page_id * page_size in
      let gpu_page_id = (i * num_pages_cpu + page_id) % 2 in
      let start_pos_cache = experts_pool_size - 2 * page_size + gpu_page_id * page_size in
      if leb start_pos e && ltb e (start_pos + page_size)
      then start_pos_cache + (e - start_pos)
      else row e

  abbrev pub map_pages : (i page_id n : ℕ) → (ℕ → ℕ) → ℕ → ℕ
  map_pages i page_id zero row = row
  map_pages i page_id (suc n) row = map_pages i (page_id + 1) n (map_page i page_id row)

  -- The slots of the experts that stay on the GPU.
  abbrev pub map_gpu : ℕ → (ℕ → ℕ) → ℕ → ℕ
  map_gpu i row e = if ltb e c.num_gpu_experts then i * c.num_gpu_experts + e else row e

  -- `experts_mapping[i]` after `init_gpu_experts`, on a row of any content.
  unfoldable pub experts_mapping : ℕ → (ℕ → ℕ) → ℕ → ℕ
  experts_mapping i row = map_pages i 0 num_pages_cpu (map_gpu i row)

  -- The entry of the tracker for an expert.
  abbrev pub track_expert : (layer_id expert_id now : ℕ) → Action ExpertTracker (Unit {0})
  track_expert layer_id expert_id now =
      if ltb expert_id c.num_gpu_experts
      then update_expert_location layer_id expert_id MemoryLocation.gpu_persistent
          ExpertStatus.cached (pos 0) (pos (layer_id * c.num_gpu_experts + expert_id)) now
      else update_expert_location layer_id expert_id MemoryLocation.cpu_memory ExpertStatus.idle
          (negsuc 0) (negsuc 0) now

  abbrev pub track_experts : (layer_id expert_id n now : ℕ) → Action ExpertTracker (Unit {0})
  track_experts layer_id expert_id zero now = pure tt
  track_experts layer_id expert_id (suc n) now =
      track_expert layer_id expert_id now >> track_experts layer_id (suc expert_id) n now

  abbrev pub track_layers : (layer_id n now : ℕ) → Action ExpertTracker (Unit {0})
  track_layers layer_id zero now = pure tt
  track_layers layer_id (suc n) now =
      track_experts layer_id 0 c.num_local_experts now >> track_layers (suc layer_id) n now

  -- What `init_gpu_experts` does to the tracker. The clock stands still meanwhile.
  unfoldable pub init_gpu_experts : ℕ → Action ExpertTracker (Unit {0})
  unfolding update_expert_location
  init_gpu_experts now = do
    modify (λ t. record t {
      gpu_capacity = c.num_gpu_experts * c.num_layers;
      cache_size = experts_pool_size;
    })
    track_layers 0 c.num_layers now
    raise_if (not (c.num_layers % 2 == 0)) Error.assertion_error

-- A slice; without a stop it goes to the end.
pub record Slice : Type 0 where
  pub start : ℕ
  pub stop : Option ℕ

-- The pointers of the prefetch, and the sizes that `init_weights_prefetch_meta` sets.
pub record PrefetchState {V : Type 0} (lib : RowTensors V) : Type 0 where
  pub page_cpu : ℕ
  pub page_gpu : ℕ
  pub num_slots_decode : ℕ
  pub fg_page_size : ℕ
  pub decode_slot_size : ℕ
  pub experts_cache : lib.rows.Tensor
  pub experts_cache_cold : lib.rows.Tensor

module _ {V : Type 0} (lib : RowTensors V) (c : Config) where
  -- `init_weights_prefetch_meta`, for the number of micro-batches.
  unfoldable pub init_weights_prefetch_meta : ℕ → Action (PrefetchState lib) (Unit {0})
  init_weights_prefetch_meta num_mb s =
      let fg = page_size c * 3 * c.hidden_size in
      let sized = record s { num_slots_decode = num_mb; fg_page_size = fg } in
      if num_mb == 0
      then (raise Error.zero_division, sized)
      else (ok tt, record sized { decode_slot_size = fg / num_mb })

  -- The pointers of `reset`; the pointer to the pinned page is never read.
  unfoldable pub reset_pages : PrefetchState lib → PrefetchState lib
  reset_pages s = record s { page_cpu = 0; page_gpu = 0; num_slots_decode = 0 }

  unfoldable pub cpu_slice_prefill : ℕ → PrefetchState lib → Slice × PrefetchState lib
  cpu_slice_prefill slot_id s =
      let page_id = s.page_cpu % num_pages_cpu c in
      let start = c.num_gpu_experts + page_id * page_size c + slot_id * page_size c in
      (
        record { start = start; stop = some (start + page_size c) },
        record s { page_cpu = (s.page_cpu + 1) % num_pages_cpu c },
      )

  -- The start adds a number of experts to a number of rows.
  unfoldable pub cpu_slice_decode : ℕ → PrefetchState lib → Slice × PrefetchState lib
  cpu_slice_decode slot_id s =
      let page_id = s.page_cpu % num_pages_cpu c in
      let start = c.num_gpu_experts + page_id * page_size c + slot_id * s.decode_slot_size in
      if slot_id + 1 == s.num_slots_decode
      then (
        record { start = start; stop = none },
        record s { page_cpu = (s.page_cpu + 1) % num_pages_cpu c },
      )
      else (record { start = start; stop = some (start + s.decode_slot_size) }, s)

  unfoldable pub gpu_slice_prefill : ℕ → PrefetchState lib → Slice × PrefetchState lib
  gpu_slice_prefill slot_id s =
      let page_id = s.page_gpu % 2 in
      let start =
        experts_pool_size c - 2 * page_size c + page_id * page_size c + slot_id * page_size c in
      (
        record { start = start; stop = some (start + page_size c) },
        record s { page_gpu = (s.page_gpu + 1) % 2 },
      )

  unfoldable pub gpu_slice_decode : ℕ → PrefetchState lib → Slice × PrefetchState lib
  gpu_slice_decode slot_id s =
      let page_id = s.page_gpu % 2 in
      let start =
        experts_pool_size c * 3 * c.hidden_size
        - 2 * s.fg_page_size
        + page_id * s.fg_page_size
        + slot_id * s.decode_slot_size in
      if slot_id + 1 == s.num_slots_decode
      then (
        record {
          start = start;
          stop = some (start + (s.fg_page_size - slot_id * s.decode_slot_size));
        },
        record s { page_gpu = (s.page_gpu + 1) % 2 },
      )
      else (record { start = start; stop = some (start + s.decode_slot_size) }, s)

  -- The rows of the pinned tensor that a decode prefetch reads.
  unfoldable pub from_pin_slice : ℕ → PrefetchState lib → Slice
  from_pin_slice slot_id s =
      if slot_id + 1 == s.num_slots_decode
      then record { start = slot_id * s.decode_slot_size; stop = none }
      else record {
        start = slot_id * s.decode_slot_size;
        stop = some ((slot_id + 1) * s.decode_slot_size);
      }

  -- `prefetch_experts` in the prefill: a page of rows from the cold cache to the GPU cache.
  unfoldable pub prefetch_prefill :
      (layer_id page_id slot_id : ℕ) → Action (PrefetchState lib) (Unit {0})
  unfolding cpu_slice_prefill gpu_slice_prefill
  prefetch_prefill layer_id page_id slot_id s =
      if not (slot_id == 0) || not (page_id == s.page_cpu)
      then (raise Error.assertion_error, s)
      else (let (gpu, s₁) = gpu_slice_prefill slot_id s in
          let (cold, s₂) = cpu_slice_prefill slot_id s₁ in
          elim (lib.copy_rows s₂.experts_cache gpu.start s₂.experts_cache_cold cold.start
            (page_size c)) [
              | none ↦ (raise Error.runtime_error, s₂)
              | some cache ↦ (ok tt, record s₂ { experts_cache = cache })
            ])
