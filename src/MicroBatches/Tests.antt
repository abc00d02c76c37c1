-- ===== src/MicroBatches/Tests.antt =====
-- Runs of the partition of the queue, and each theorem at concrete inputs.
use harvest_mo_e.Base.{ℕ, ◌+◌, ◌≡◌, refl, false, none, List, [], ◌∷◌, arith, length, All, replicate}
use harvest_mo_e.Requests.Req.{Req, abort_req}
use harvest_mo_e.MicroBatches.{Policy, create_micro_batches, place_all, place}
use harvest_mo_e.MicroBatches.Conservation.{occurs, occurs_in, create_micro_batches_lem}
use harvest_mo_e.MicroBatches.Capacity.{FitsPolicy, IsAborted, create_micro_batches-FitsPolicy}

abbrev request : ℕ → ℕ → Req
request rid len = record {
  rid = rid;
  input_text = "";
  input_ids = replicate len 1;
  input_len = len;
  output_ids = [];
  sampling_params = 0;
  return_logprob = false;
  finished = false;
  finish_reason = none;
}

abbrev queue : List Req
queue = request 1 3 ∷ request 2 5 ∷ request 3 1 ∷ request 4 4 ∷ []

abbrev policy : Policy
policy = record { ubs = 2; n_ub = 2; gen_len = 2; capacity = 12 }

-- The longest prompts go first, each to the partition with the least sum.
batch_runs :
    create_micro_batches policy queue
    ≡ (((request 4 4 ∷ request 1 3 ∷ []) ∷ (request 2 5 ∷ request 3 1 ∷ []) ∷ []), [])
unfolding create_micro_batches place_all place
batch_runs = refl

-- The warmup batch is not checked against the capacity.
warmup_run : create_micro_batches policy (request 1 99 ∷ []) ≡ ((request 1 99 ∷ []) ∷ [], [])
unfolding create_micro_batches place_all place
warmup_run = refl

-- A request is aborted although the partition with the larger sum could hold it: of the prompts
-- 4, 2, 1 and 1 the last would fit next to the first, 4 + 1 + 2 * 2 against a capacity of 9.
abort_run :
    create_micro_batches
      (record policy { ubs = 3; capacity = 9 })
      (request 1 4 ∷ request 2 2 ∷ request 3 1 ∷ request 4 1 ∷ [])
    ≡ ((request 1 4 ∷ []) ∷ (request 2 2 ∷ request 3 1 ∷ []) ∷ [], abort_req (request 4 1) ∷ [])
unfolding create_micro_batches place_all place
abort_run = refl

create_micro_batches_lem_example :
    let (micro_batches, aborted) = create_micro_batches policy queue in
    occurs_in 3 micro_batches + occurs 3 aborted ≡ 1
create_micro_batches_lem_example = create_micro_batches_lem policy queue 3

create_micro_batches-FitsPolicy_example :
    let (micro_batches, aborted) = create_micro_batches policy queue in
    (length micro_batches ≡ 2)
    × All (FitsPolicy policy) micro_batches
    × (occurs_in 3 micro_batches + occurs 3 aborted ≡ occurs 3 queue)
    × All IsAborted aborted
create_micro_batches-FitsPolicy_example =
    create_micro_batches-FitsPolicy policy queue 3 (omega arith) (omega arith)
