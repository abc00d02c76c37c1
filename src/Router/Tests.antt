-- ===== src/Router/Tests.antt =====
-- A router that receives one request before a step, and one while it is awaited.
use harvest_mo_e.Base.{[], ◌∷◌, ◌++◌, none, map, ◌≡◌, refl, false}
use harvest_mo_e.KvPool.Memory.{rows}
use harvest_mo_e.Prefill.{no_cache}
use harvest_mo_e.Serving.{Setting}
use harvest_mo_e.Router.{
  Received, single, RouterManager, as_batch, receive, begin_step, end_step, Run, started, received,
  begun, ended,
}
use harvest_mo_e.Router.Order.{in_step, Run-in_order}

abbrev setting : Setting
setting = record {
  policy = record { ubs = 2; n_ub = 2; gen_len = 2; capacity = 10 };
  context_len = 8;
  eos_token_id = 0;
  first_sampled = λ rid. 5;
  later_sampled = λ rid. 6 ∷ [];
}

abbrev idle : RouterManager rows
idle = record {
  recv_reqs = [];
  next_step_input = none;
  sent = [];
  serving = record {
    server = record { forward_queue = []; params = [] };
    out_pyobjs = [];
    caches = no_cache;
  };
}

abbrev first : Received
first = single (record {
  rid = 1;
  input_text = "a";
  input_ids = 4 ∷ [];
  sampling_params = 0;
  return_logprob = false;
})

abbrev second : Received
second = single (record {
  rid = 2;
  input_text = "b";
  input_ids = 5 ∷ [];
  sampling_params = 0;
  return_logprob = false;
})

-- Receive, begin a step, receive, end the step.
abbrev awaited : RouterManager rows
awaited = receive rows setting second (begin_step rows setting (receive rows setting first idle))

abbrev stepped : RouterManager rows
stepped = end_step rows setting (as_batch first ∷ []) awaited

run : Run rows setting idle (first ∷ second ∷ []) (as_batch first ∷ []) stepped
unfolding receive begin_step
run = ended (as_batch first ∷ []) (received second (begun (received first started) refl)) refl

Run-in_order_example :
    as_batch first ∷ as_batch second ∷ []
    ≡ (as_batch first ∷ []) ++ (in_step stepped ++ map as_batch stepped.recv_reqs)
Run-in_order_example =
    Run-in_order rows setting idle (first ∷ second ∷ []) (as_batch first ∷ []) stepped refl refl run
