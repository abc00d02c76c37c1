-- ===== src/ExpertCache/Tests.antt =====
-- The cache of a small model, and each theorem at concrete inputs.
use harvest_mo_e.Base.{
  ℕ, ◌+◌, ◌*◌, ◌%◌, ◌≤◌, ◌<◌, ◌≡◌, ◌≢◌, ◌⊎◌, inr, refl, false, none, some, List, [], ◌∷◌, arith,
  map, get_elem?,
}
use harvest_mo_e.Base.Int.{pos}
use harvest_mo_e.Base.Action.{ok}
use harvest_mo_e.KvPool.{TokenToKvPool}
use harvest_mo_e.KvPool.Memory.{rows}
use harvest_mo_e.Requests.Req.{Req}
use harvest_mo_e.MicroBatches.{create_micro_batches, place}
use harvest_mo_e.Prefill.{Batch, pool, init_new}
use harvest_mo_e.Prefill.Engine.{prepare_all}
use harvest_mo_e.Tracker.{ExpertTracker, ExpertLocation, MemoryLocation, init, find}
use harvest_mo_e.Tracker.Updates.{IsTracker, init-IsTracker}
use harvest_mo_e.ExpertCache.{
  Config, PrefetchState, experts_mapping, prefetch_prefill, init_weights_prefetch_meta,
  gpu_slice_decode, from_pin_slice, init_gpu_experts, cpu_slice_decode,
}
use harvest_mo_e.ExpertCache.Mapping.{IsOnePage, experts_mapping-distinct}
use harvest_mo_e.ExpertCache.Prefetch.{IsAfter, prefetch_prefill-maps}
use harvest_mo_e.ExpertCache.Decode.{gpu_slice_decode_lem}
use harvest_mo_e.Mover.Own.{HasOwnSlots}
use harvest_mo_e.ExpertCache.Init.{init_gpu_experts_lem}
use harvest_mo_e.ExpertCache.Own.{init_gpu_experts-HasOwnSlots}
use harvest_mo_e.ExpertCache.Pool.{token_pool, policy_of, token_pool-prepared}

-- Two layers of four experts, of which one stays on the GPU.
abbrev config : Config
config = record {
  num_layers = 2;
  num_local_experts = 4;
  num_comp_experts = 4;
  num_gpu_experts = 1;
  hidden_size = 2;
  ubs = 2;
  n_ub = 2;
  avg_prompt_tokens = 3;
  gen_len = 2;
}

config-IsOnePage : IsOnePage config
config-IsOnePage = record { some_experts = omega arith; one_page = refl; on_gpu = omega arith }

-- The row of layer 1: its first expert stays, the others are in the second page.
layer_slots : map (experts_mapping config 1 (λ e. 0)) (0 ∷ 1 ∷ 2 ∷ 3 ∷ []) ≡ 1 ∷ 5 ∷ 6 ∷ 7 ∷ []
unfolding experts_mapping
layer_slots = refl

experts_mapping-distinct_example :
    let (layer, expert) : ℕ × ℕ = (1, 2) in
    (experts_mapping config 1 (λ e. 0) 2 < 8)
    × (expert ≡ 2)
    × ((layer ≡ 1) ⊎ ((1 ≤ expert) × (layer % 2 ≡ 1)))
experts_mapping-distinct_example =
    experts_mapping-distinct config 1 1 2 2 (λ e. 0) (λ e. 0) config-IsOnePage (omega arith)
      (omega arith) (omega arith) (omega arith) refl

abbrev fresh : PrefetchState rows
fresh = record {
  page_cpu = 0;
  page_gpu = 0;
  num_slots_decode = 0;
  fg_page_size = 0;
  decode_slot_size = 0;
  experts_cache = rows.empty 8;
  experts_cache_cold = rows.empty 8;
}

fresh-IsAfter : IsAfter rows config 0 fresh
fresh-IsAfter = record {
  page_cpu = refl;
  page_gpu = refl;
  cache = rows.load-empty 8;
  cold = rows.load-empty 8;
}

prefetch_prefill-maps_example :
    let (result, s) = prefetch_prefill rows config 0 0 0 fresh in
    (result ≡ ok tt)
    × IsAfter rows config 1 s
    × (rows.load s.experts_cache (experts_mapping config 0 (λ e. 0) 2)
        ≡ rows.load fresh.experts_cache_cold 2)
    × (rows.load s.experts_cache (experts_mapping config 1 (λ e. 0) 3)
        ≡ rows.load fresh.experts_cache (experts_mapping config 1 (λ e. 0) 3))
prefetch_prefill-maps_example =
    prefetch_prefill-maps rows config 0 0 2 1 3 (λ e. 0) (λ e. 0) fresh config-IsOnePage
      fresh-IsAfter (omega arith) (omega arith) refl (omega arith) (omega arith) (omega arith)
      (inr (omega arith))

gpu_slice_decode_lem_example :
    let (result, s₁) = init_weights_prefetch_meta rows config 4 fresh in
    let (slice, s₂) = gpu_slice_decode rows config 3 s₁ in
    (result ≡ ok tt)
    × (slice.start ≡ 12 + 3 * s₁.decode_slot_size)
    × (slice.stop ≡ some 30)
    × (s₂.page_gpu ≡ 1)
    × ((from_pin_slice rows config 3 s₁).start ≡ 3 * s₁.decode_slot_size)
    × (4 * s₁.decode_slot_size ≤ 18)
gpu_slice_decode_lem_example =
    gpu_slice_decode_lem rows config fresh 4 3 (omega arith) (omega arith)

-- The rows of the pinned copy for slot 1 start at 1 + 4, where the row of expert 1 starts at 6: the
-- number of experts is added to a number of rows.
cold_rows :
    (cpu_slice_decode rows config 1 (init_weights_prefetch_meta rows config 4 fresh).1).0.start ≡ 5
unfolding cpu_slice_decode init_weights_prefetch_meta
cold_rows = refl

abbrev tracker : ExpertTracker
tracker = init 5 2 4 0 0

init_gpu_experts_lem_example :
    let (result, t) = init_gpu_experts config 6 tracker in
    (e : ExpertLocation) × (result ≡ ok tt)
    × IsTracker t
    × (find 1 0 t ≡ some e)
    × (e.location ≡ MemoryLocation.gpu_persistent)
    × (e.cache_slot ≡ pos (experts_mapping config 1 (λ e. 0) 0))
unfolding init
init_gpu_experts_lem_example =
    init_gpu_experts_lem config 6 1 0 (λ e. 0) tracker config-IsOnePage refl (omega arith)
      (omega arith) (init-IsTracker 5 2 4 0 0) refl

abbrev request : ℕ → Req
request rid = record {
  rid = rid;
  input_text = "";
  input_ids = 1 ∷ 2 ∷ 3 ∷ [];
  input_len = 3;
  output_ids = [];
  sampling_params = 0;
  return_logprob = false;
  finished = false;
  finish_reason = none;
}

abbrev queue : List Req
queue = request 1 ∷ request 2 ∷ request 3 ∷ request 4 ∷ []

-- The pool of the context: two lines of ten rows.
abbrev lines : TokenToKvPool rows
lines = record {
  cur_start_loc = 0;
  cur_cl = 0;
  cache_line = 10;
  cpu_size = 20;
  kv_data = some (rows.empty 20);
  kv_data_cpu = rows.empty 20 ∷ rows.empty 20 ∷ [];
}

context_pool : token_pool rows config ≡ ok lines
unfolding token_pool
context_pool = refl

packed :
    (create_micro_batches (policy_of config lines) queue).0
    ≡ (request 1 ∷ request 3 ∷ []) ∷ (request 2 ∷ request 4 ∷ []) ∷ []
unfolding create_micro_batches place
packed = refl

token_pool-prepared_example :
    let (micro_batches, aborted) = create_micro_batches (policy_of config lines) queue in
    let (result, caches) = prepare_all rows 2 (map init_new micro_batches) (pool lines) in
    (bs : List Batch) × (b : Batch) × (result ≡ ok bs)
    × (get_elem? bs 1 ≡ some b)
    × (b.cpu_kv_pool_start_loc ≡ 10)
    × (b.cpu_kv_pool_start_loc + 10 ≤ 20)
unfolding create_micro_batches place
token_pool-prepared_example =
    token_pool-prepared rows config lines queue 1 (request 2 ∷ request 4 ∷ []) config-IsOnePage
      context_pool (omega arith) (omega arith) (omega arith, (omega arith, tt)) refl

abbrev untracked : ExpertTracker
untracked = init 0 2 4 1 8

untracked_empty :
    (l i : ℕ) (x : ExpertLocation)
    → find l i untracked ≡ some x
    → x.location ≢ MemoryLocation.gpu_persistent
unfolding init
untracked_empty l i x e persistent = ground (arith, e, persistent)

init_gpu_experts-HasOwnSlots_example : HasOwnSlots (init_gpu_experts config 5 untracked).1
init_gpu_experts-HasOwnSlots_example =
    init_gpu_experts-HasOwnSlots config 5 untracked (init-IsTracker 0 2 4 1 8) untracked_empty
