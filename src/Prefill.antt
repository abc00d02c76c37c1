-- ===== src/Prefill.antt =====
-- `class Batch` of fastmoe/backend/task.py: where the tokens of a micro-batch go in the caches, in
-- the prefill and in the decode steps. A tensor of numbers is a list; a loop that fills a tensor of
-- zeros slice by slice, from its start to its end, appends to a list. The sampling parameters, which
-- are float tensors, and the hidden states are left out.
pub mod Regions
pub mod Lines
pub mod Engine
mod Tests
use harvest_mo_e.Base.{
  ℕ, zero, suc, ◌+◌, ◌-◌, ◌*◌, ◌≤◌, Bool, true, false, ◌||◌, List, [], ◌∷◌, ◌++◌, Option, none,
  some, ltb, leb, ◌==◌, if◌then◌else◌, length, range, range_from, map, sum,
}
use harvest_mo_e.Base.Int.{ℤ, pos, negsuc, pos_part, sub_ℕ, suc_ℤ}
use harvest_mo_e.Base.Action.{Error, Result, ok, raise, blocked, Action}
use harvest_mo_e.KvPool.{RowTensors, TokenToKvPool, alloc_cpu, store}
use harvest_mo_e.Requests.Req.{Req, last?}

pub record Batch : Type 0 where
  pub reqs : List Req
  pub return_logprob : Bool
  pub cache_line_idx : ℕ
  pub cpu_kv_pool_start_loc : ℕ
  pub start_loc : List ℕ
  pub decode_out_cache_loc : List ℤ
  pub input_ids : List ℕ
  pub seq_lens : List ℕ
  pub positions : List ℕ
  pub out_cache_loc : List ℕ
  pub start_loc_gpu : List ℕ
  pub new_num_tokens : ℕ
  pub max_seq_len : ℕ
  pub bs : ℕ
  pub kv_pt : ℤ

-- `any(req.return_logprob for req in reqs)`
abbrev pub any_logprob : List Req → Bool
any_logprob [] = false
any_logprob (r ∷ rs) = r.return_logprob || any_logprob rs

-- `init_new`: the fields that are `None` until the prefill are empty or 0 here.
unfoldable pub init_new : List Req → Batch
init_new reqs = record {
  reqs = reqs;
  return_logprob = any_logprob reqs;
  cache_line_idx = 0;
  cpu_kv_pool_start_loc = 0;
  start_loc = [];
  decode_out_cache_loc = [];
  input_ids = [];
  seq_lens = [];
  positions = [];
  out_cache_loc = [];
  start_loc_gpu = [];
  new_num_tokens = 0;
  max_seq_len = 0;
  bs = 0;
  kv_pt = pos 0;
}

-- `flatten_input_ids` and `seq_lens`.
abbrev pub flatten_input_ids : List Req → List ℕ
flatten_input_ids [] = []
flatten_input_ids (r ∷ rs) = r.input_ids ++ flatten_input_ids rs

abbrev pub seq_lens_of : List Req → List ℕ
seq_lens_of reqs = map (λ (r : Req). length r.input_ids) reqs

-- `torch.cat` of the positions 0, …, length - 1 of each sequence.
abbrev pub positions_of : List ℕ → List ℕ
positions_of [] = []
positions_of (n ∷ lens) = range n ++ positions_of lens

-- `torch.cumsum(seq_lens[:-1])` behind a 0.
abbrev pub cumulative : ℕ → List ℕ → List ℕ
cumulative start [] = []
cumulative start (n ∷ lens) = start ∷ cumulative (start + n) lens

abbrev pub max_of : List ℕ → ℕ
max_of [] = 0
max_of (n ∷ lens) = let m = max_of lens in if leb m n then n else m

-- The three tensors that the loop of `prepare_for_prefill` fills.
pub record Layout : Type 0 where
  pub out_cache_loc : List ℕ
  pub start_loc : List ℕ
  pub decode_out_cache_loc : List ℤ

-- The loop, from the sequence that starts at `pt`.
unfoldable pub lay_out : (gpu_start cpu_start max_output_len pt : ℕ) → List Req → Layout
lay_out gpu_start cpu_start max_output_len pt [] = record {
  out_cache_loc = [];
  start_loc = [];
  decode_out_cache_loc = [];
}
lay_out gpu_start cpu_start max_output_len pt (r ∷ rs) =
    let seq_len = length r.input_ids in
    let rest = lay_out gpu_start cpu_start max_output_len (pt + seq_len + max_output_len) rs in
    record {
      out_cache_loc = range_from (gpu_start + pt) seq_len ++ rest.out_cache_loc;
      start_loc = (cpu_start + pt) ∷ rest.start_loc;
      decode_out_cache_loc = sub_ℕ (cpu_start + pt + seq_len) 1 ∷ rest.decode_out_cache_loc;
    }

-- `self.decode_out_cache_loc[-1] + 1`
abbrev pub kv_pt_of : ℤ → List ℤ → ℤ
kv_pt_of loc [] = suc_ℤ loc
kv_pt_of loc (next ∷ locs) = kv_pt_of next locs

-- The caches of the engine: one of them, or none.
pub data Caches {V : Type 0} (lib : RowTensors V) : Type 0 where
  pool : TokenToKvPool lib → Caches lib
  paged : Caches lib
  no_cache : Caches lib

-- The batch with the fields that the prefill sets, at the given starts.
unfoldable pub prepared : (gpu_start cpu_start line max_output_len : ℕ) → Batch → Result Batch
unfolding lay_out
prepared gpu_start cpu_start line max_output_len batch =
    let lens = seq_lens_of batch.reqs in
    let layout = lay_out gpu_start cpu_start max_output_len 0 batch.reqs in
    elim layout.decode_out_cache_loc [
      | [] ↦ raise Error.type_error
      | loc ∷ locs ↦ ok (record batch {
        cache_line_idx = line;
        cpu_kv_pool_start_loc = cpu_start;
        start_loc = layout.start_loc;
        decode_out_cache_loc = layout.decode_out_cache_loc;
        input_ids = flatten_input_ids batch.reqs;
        seq_lens = lens;
        positions = positions_of lens;
        out_cache_loc = layout.out_cache_loc;
        start_loc_gpu = cumulative 0 lens;
        new_num_tokens = sum lens;
        max_seq_len = max_of lens;
        bs = length batch.reqs;
        kv_pt = kv_pt_of loc locs;
      })
    ]

module _ {V : Type 0} (lib : RowTensors V) where
  -- `prepare_for_prefill`. For an empty batch `np.array([]).sum()` is the float 0.0, which
  -- `torch.zeros` refuses as a size with a TypeError, after the line was taken from the pool.
  unfoldable pub prepare_for_prefill : ℕ → Batch → Action (Caches lib) Batch
  unfolding prepared alloc_cpu
  prepare_for_prefill max_output_len batch (pool p) =
      let ((cpu_start, gpu_start, line), p') = alloc_cpu lib p in
      (prepared gpu_start cpu_start line max_output_len batch, pool p')
  prepare_for_prefill max_output_len batch paged = (prepared 0 0 0 max_output_len batch, paged)
  prepare_for_prefill max_output_len batch no_cache = (raise Error.value_error, no_cache)

  -- `offload_kv_cache`: the rows from the start of the batch to `kv_pt`, which is not below it.
  unfoldable pub offload_kv_cache : ℕ → Batch → Action (Caches lib) (Unit {0})
  unfolding store
  offload_kv_cache layer batch (pool p) =
      let size = pos_part batch.kv_pt - batch.cpu_kv_pool_start_loc in
      let (result, p') = store lib batch.cpu_kv_pool_start_loc size layer p in (result, pool p')
  offload_kv_cache layer batch paged = (ok tt, paged)
  offload_kv_cache layer batch no_cache = (ok tt, no_cache)

-- The token that a decode step starts from.
abbrev pub last_token : Req → Option ℕ
last_token r = elim r.output_ids [
  | [] ↦ last? r.input_ids
  | token ∷ tokens ↦ last? (token ∷ tokens)
]

abbrev pub last_tokens : List Req → Option (List ℕ)
last_tokens [] = some []
last_tokens (r ∷ rs) = elim (last_token r) [
  | none ↦ none
  | some token ↦ elim (last_tokens rs) [ none ↦ none | some tokens ↦ some (token ∷ tokens) ]
]

-- `prepare_for_decode`
unfoldable pub prepare_for_decode : Batch → Result Batch
prepare_for_decode batch = elim (last_tokens batch.reqs) [
  | none ↦ raise Error.index_error
  | some tokens ↦ ok (record batch {
    input_ids = tokens;
    seq_lens = map suc batch.seq_lens;
    decode_out_cache_loc = map suc_ℤ batch.decode_out_cache_loc;
  })
]
