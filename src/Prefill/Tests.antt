-- ===== src/Prefill/Tests.antt =====
-- Runs of the prefill, and each theorem at concrete inputs.
use harvest_mo_e.Base.{
  ℕ, ◌+◌, ◌≤◌, ◌<◌, ◌≡◌, ◌⊎◌, refl, false, none, some, List, [], ◌∷◌, arith, All, replicate,
  get_elem?,
}
use harvest_mo_e.Base.Count.{count}
use harvest_mo_e.Base.Int.{pos, sub_ℕ}
use harvest_mo_e.Base.Action.{ok}
use harvest_mo_e.KvPool.{TokenToKvPool, alloc_cpu}
use harvest_mo_e.KvPool.Lines.{IsAt}
use harvest_mo_e.KvPool.Memory.{rows}
use harvest_mo_e.Requests.Req.{Req}
use harvest_mo_e.MicroBatches.{Policy}
use harvest_mo_e.MicroBatches.Capacity.{FitsPolicy}
use harvest_mo_e.Prefill.{Batch, pool, lay_out, prepared, prepare_for_prefill, init_new}
use harvest_mo_e.Prefill.Regions.{lay_out-disjoint}
use harvest_mo_e.Prefill.Lines.{prepare_for_prefill_lem}

abbrev request : ℕ → ℕ → Req
request rid len = record {
  rid = rid;
  input_text = "";
  input_ids = replicate len 7;
  input_len = len;
  output_ids = [];
  sampling_params = 0;
  return_logprob = false;
  finished = false;
  finish_reason = none;
}

abbrev reqs : List Req
reqs = request 1 3 ∷ request 2 2 ∷ []

-- Two lines of ten rows.
abbrev lines : TokenToKvPool rows
lines = record {
  cur_start_loc = 10;
  cur_cl = 1;
  cache_line = 10;
  cpu_size = 20;
  kv_data = some (rows.empty 20);
  kv_data_cpu = rows.empty 20 ∷ [];
}

lines-IsAt : IsAt 1 lines
lines-IsAt = record { positive = omega arith; start = refl; line = refl }

abbrev policy : Policy
policy = record { ubs = 2; n_ub = 2; gen_len = 2; capacity = 10 }

prefill_runs :
    (b : Batch) × ((prepare_for_prefill rows 2 (init_new reqs) (pool lines)).0 ≡ ok b)
    × (b.start_loc ≡ 10 ∷ 15 ∷ [])
    × (b.out_cache_loc ≡ 10 ∷ 11 ∷ 12 ∷ 15 ∷ 16 ∷ [])
    × (b.decode_out_cache_loc ≡ pos 12 ∷ pos 16 ∷ [])
    × (b.positions ≡ 0 ∷ 1 ∷ 2 ∷ 0 ∷ 1 ∷ [])
    × (b.start_loc_gpu ≡ 0 ∷ 3 ∷ [])
    × (b.kv_pt ≡ pos 17)
unfolding prepare_for_prefill prepared lay_out alloc_cpu init_new
prefill_runs = (_, refl, refl, refl, refl, refl, refl, refl)

lay_out-disjoint_example : 10 + 3 + 2 ≤ 15
unfolding lay_out
lay_out-disjoint_example =
    lay_out-disjoint 10 10 2 0 reqs 0 1 (request 1 3) (request 2 2) 10 15 (omega arith) refl refl
      refl refl

reqs-FitsPolicy : FitsPolicy policy reqs
reqs-FitsPolicy = record { size = omega arith; room = omega arith }

prepare_for_prefill_lem_example :
    let (result, caches) = prepare_for_prefill rows 2 (init_new reqs) (pool lines) in
    (b : Batch) × (p' : TokenToKvPool rows) × (start : ℕ) × (start' : ℕ) × (last : ℕ) × (result
      ≡ ok b)
    × (caches ≡ pool p')
    × IsAt 2 p'
    × (get_elem? b.start_loc 1 ≡ some start)
    × (10 ≤ start)
    × (start + 2 + 2 ≤ 20)
    × (get_elem? b.start_loc 0 ≡ some start')
    × (◌≡◌ {A = ℕ} 1 0 ⊎ (start + 2 + 2 ≤ start') ⊎ (start' + 3 + 2 ≤ start))
    × (get_elem? b.decode_out_cache_loc 1 ≡ some (sub_ℕ (start + 2) 1))
    × All (λ loc. (10 ≤ loc) × (loc < 20)) b.out_cache_loc
    × (count 15 b.out_cache_loc ≤ 1)
    × (b.kv_pt ≡ pos last)
    × (10 ≤ last)
    × (last ≤ 20)
prepare_for_prefill_lem_example =
    prepare_for_prefill_lem rows policy 1 lines reqs 1 0 (request 2 2) (request 1 3) 15 lines-IsAt
      refl reqs-FitsPolicy (omega arith, (omega arith, tt)) refl refl
