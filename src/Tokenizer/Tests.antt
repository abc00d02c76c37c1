-- ===== src/Tokenizer/Tests.antt =====
-- Two requests that wait, an answer that names them in the other order, and a stream of one output.
use harvest_mo_e.Base.{◌≡◌, refl, true, false, [], ◌∷◌, arith}
use harvest_mo_e.Base.Action.{ok, ◌>>◌}
use harvest_mo_e.Detokenizer.{BatchStrOut}
use harvest_mo_e.Tokenizer.{
  OutDict, ReqState, TokenizerManager, append_output, set_finished, add_requests, handle_recv,
  take_outputs,
}
use harvest_mo_e.Tokenizer.Views.{HasOwnStates}
use harvest_mo_e.Tokenizer.Outputs.{handle_recv-take_outputs}
use harvest_mo_e.Tokenizer.Stream.{
  done, new_state, resume, StreamRun, started, arrived, woken, resumed, Delivered,
  StreamRun-Delivered,
}

abbrev two_requests : TokenizerManager
two_requests = record { states = new_state ∷ new_state ∷ []; rid_to_state = (7, 0) ∷ (8, 1) ∷ [] }

added :
    add_requests (7 ∷ 8 ∷ []) (record { states = []; rid_to_state = [] }) ≡ (ok tt, two_requests)
unfolding add_requests
added = refl

two_requests-HasOwnStates : HasOwnStates two_requests
two_requests-HasOwnStates = record {
  own = λ j k ref e e'. ground (arith, e, e');
  within = λ j ref e. ground (arith, e);
}

abbrev answer : BatchStrOut
answer = record {
  rids = 8 ∷ 7 ∷ [];
  output_str = (5 ∷ []) ∷ (6 ∷ 6 ∷ []) ∷ [];
  prompt_tokens = 3 ∷ 4 ∷ [];
  completion_tokens = 1 ∷ 2 ∷ [];
  finished = true ∷ true ∷ [];
}

abbrev first_out : OutDict
first_out = record { text = 6 ∷ 6 ∷ []; id = 7; prompt_tokens = 4; completion_tokens = 2 }

abbrev second_out : OutDict
second_out = record { text = 5 ∷ []; id = 8; prompt_tokens = 3; completion_tokens = 1 }

handle_recv-take_outputs_example :
    (m' : TokenizerManager) × ((handle_recv answer >> take_outputs (7 ∷ 8 ∷ [])) two_requests
      ≡ (ok (first_out ∷ second_out ∷ []), m'))
handle_recv-take_outputs_example =
    handle_recv-take_outputs answer two_requests (7 ∷ 8 ∷ []) (first_out ∷ second_out ∷ [])
      two_requests-HasOwnStates (refl, (refl, tt))
      ((1, refl), (second_out, true, refl), ((0, refl), (first_out, true, refl), tt))
      (refl, (refl, tt)) ((new_state, refl, refl), ((new_state, refl, refl), refl))

abbrev final_state : ReqState
final_state = record { out_list = []; finished = true; event = true }

one_output : StreamRun false (first_out ∷ []) (first_out ∷ []) final_state done
unfolding append_output set_finished resume
one_output = resumed done refl (woken first_out refl refl (arrived first_out true started))

StreamRun-Delivered_example : Delivered (first_out ∷ []) (first_out ∷ []) final_state done
StreamRun-Delivered_example =
    StreamRun-Delivered (first_out ∷ []) (first_out ∷ []) final_state done one_output
