-- ===== src/Serving/Tests.antt =====
-- A server with two requests, and each theorem at concrete inputs.
use harvest_mo_e.Base.{ℕ, ◌≡◌, refl, false, true, none, some, List, [], ◌∷◌, arith, length}
use harvest_mo_e.Base.Action.{Error, ok, raise}
use harvest_mo_e.KvPool.{TokenToKvPool}
use harvest_mo_e.KvPool.Lines.{IsAt}
use harvest_mo_e.KvPool.Memory.{rows}
use Prim.Native.String.{String}
use harvest_mo_e.Requests.Req
use harvest_mo_e.Requests.Req.{Req, SamplingParams}
use harvest_mo_e.Requests.Admission.{
  Server, BatchTokenizedGenerateReqInput, handle_batch_generate_request, handle_one,
}
use harvest_mo_e.Requests.Finishing.{BatchTokenIdOut}
use harvest_mo_e.MicroBatches.{create_micro_batches, place}
use harvest_mo_e.Prefill.{pool}
use harvest_mo_e.Serving.{Setting, Serving, exposed_step, batch_forward_step}
use harvest_mo_e.Serving.Answered.{answered}
use harvest_mo_e.Serving.Step.{exposed_step_lem, batch_forward_step-loses}

abbrev setting : Setting
setting = record {
  policy = record { ubs = 2; n_ub = 2; gen_len = 2; capacity = 10 };
  context_len = 8;
  eos_token_id = 0;
  first_sampled = λ rid. 5;
  later_sampled = λ rid. 6 ∷ [];
}

abbrev sampling : SamplingParams
sampling = record { max_new_tokens = 2; ignore_eos = false; skip_special_tokens = true }

abbrev recv : BatchTokenizedGenerateReqInput
recv = record {
  rid = 11 ∷ 12 ∷ [];
  input_text = "a" ∷ "b" ∷ [];
  input_ids = (1 ∷ 2 ∷ 3 ∷ []) ∷ (4 ∷ 5 ∷ []) ∷ [];
  sampling_params = 0;
  return_logprob = false;
}

abbrev server : Server
server = record { forward_queue = []; params = sampling ∷ [] }

abbrev request : ℕ → String → List ℕ → Req
request rid text ids = record {
  rid = rid;
  input_text = text;
  input_ids = ids;
  input_len = length ids;
  output_ids = [];
  sampling_params = 0;
  return_logprob = false;
  finished = false;
  finish_reason = none;
}

-- Two lines of ten rows.
abbrev lines : TokenToKvPool rows
lines = record {
  cur_start_loc = 0;
  cur_cl = 0;
  cache_line = 10;
  cpu_size = 20;
  kv_data = some (rows.empty 20);
  kv_data_cpu = rows.empty 20 ∷ [];
}

lines-IsAt : IsAt 0 lines
lines-IsAt = record { positive = omega arith; start = refl; line = refl }

abbrev admitted : Server
admitted = record {
  forward_queue = request 11 "a" (1 ∷ 2 ∷ 3 ∷ []) ∷ request 12 "b" (4 ∷ 5 ∷ []) ∷ [];
  params = sampling ∷ [];
}

admission : handle_batch_generate_request 8 recv server ≡ (ok tt, admitted)
unfolding handle_batch_generate_request handle_one Req.init
admission = refl

exposed_step_lem_example :
    let s : Serving rows = record { server = server; out_pyobjs = []; caches = pool lines } in
    let (result, s') = exposed_step rows setting (recv ∷ []) s in
    (answers : List BatchTokenIdOut) × (p : TokenToKvPool rows) × (result ≡ ok answers)
    × (answered 12 answers ≡ 1)
    × (s'.server.forward_queue ≡ [])
    × (s'.out_pyobjs ≡ [])
    × (s'.caches ≡ pool p)
    × IsAt 0 p
unfolding create_micro_batches place
exposed_step_lem_example =
    exposed_step_lem rows setting 0 12 recv server admitted [] lines admission lines-IsAt
      (omega arith) (omega arith, (omega arith, tt)) (omega arith, (omega arith, tt))

-- Two requests for three micro-batches: none is answered.
abbrev three : Setting
three = record setting { policy = record setting.policy { n_ub = 3 } }

batch_forward_step-loses_example :
    let s : Serving rows = record { server = admitted; out_pyobjs = []; caches = pool lines } in
    let (result, s') = batch_forward_step rows three s in
    (result ≡ raise Error.type_error)
    × (s'.server.forward_queue ≡ [])
    × (answered 12 s'.out_pyobjs ≡ 0)
unfolding create_micro_batches place
batch_forward_step-loses_example =
    batch_forward_step-loses rows three 0 12 admitted [] lines lines-IsAt (omega arith)
      (omega arith) (omega arith)
