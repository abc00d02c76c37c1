-- ===== src/Router.antt =====
-- `RouterManager` of fastmoe/serve/router/manager.py: two coroutines that share `recv_reqs`, one that
-- receives requests and one that hands all of them to a step of the server. Each of them runs on
-- between two awaits, so that a run is a sequence of such pieces in any order.
pub mod Order
mod Tests
use Prim.Native.String.{String}
use harvest_mo_e.Base.{ℕ, Bool, List, [], ◌∷◌, ◌++◌, Option, none, some, map, ◌≡◌}
use harvest_mo_e.Base.Action.{Result, ok, raise, blocked}
use harvest_mo_e.KvPool.{RowTensors}
use harvest_mo_e.Requests.Admission.{BatchTokenizedGenerateReqInput}
use harvest_mo_e.Requests.Finishing.{BatchTokenIdOut}
use harvest_mo_e.Serving.{Setting, Serving, exposed_step}

pub record TokenizedGenerateReqInput : Type 0 where
  pub rid : ℕ
  pub input_text : String
  pub input_ids : List ℕ
  pub sampling_params : ℕ
  pub return_logprob : Bool

-- What the tokenizer sends.
pub data Received : Type 0 where
  single : TokenizedGenerateReqInput → Received
  batch : BatchTokenizedGenerateReqInput → Received

-- A single request becomes a batch of one.
abbrev pub as_batch : Received → BatchTokenizedGenerateReqInput
as_batch (single req) = record {
  rid = req.rid ∷ [];
  input_text = req.input_text ∷ [];
  input_ids = req.input_ids ∷ [];
  sampling_params = req.sampling_params;
  return_logprob = req.return_logprob;
}
as_batch (batch req) = req

-- The shared list, the input of the step that is awaited, the objects sent to the detokenizer, and
-- the model server.
pub record RouterManager {V : Type 0} (lib : RowTensors V) : Type 0 where
  pub recv_reqs : List Received
  pub next_step_input : Option (List BatchTokenizedGenerateReqInput)
  pub sent : List BatchTokenIdOut
  pub serving : Serving lib

abbrev pub returned : Result (List BatchTokenIdOut) → List BatchTokenIdOut
returned (ok out_pyobjs) = out_pyobjs
returned (raise e) = []
returned blocked = []

module _ {V : Type 0} (lib : RowTensors V) (setting : Setting) where
  -- `loop_for_recv_requests`, after a receive.
  unfoldable pub receive : Received → RouterManager lib → RouterManager lib
  receive recv_req r = record r { recv_reqs = r.recv_reqs ++ recv_req ∷ [] }

  -- `loop_for_forward`, up to the await of the step.
  unfoldable pub begin_step : RouterManager lib → RouterManager lib
  begin_step r = record r { recv_reqs = []; next_step_input = some (map as_batch r.recv_reqs) }

  -- The step, and the rest of the loop. `exposed_step` raises nothing.
  unfoldable pub end_step :
      List BatchTokenizedGenerateReqInput → RouterManager lib → RouterManager lib
  unfolding exposed_step
  end_step inputs r =
      let (result, serving) = exposed_step lib setting inputs r.serving in
      record r { next_step_input = none; sent = r.sent ++ returned result; serving = serving }

  -- The runs from `start`: what was received, and what the steps were given, in order.
  pub data Run (start : RouterManager lib)
      : List Received → List BatchTokenizedGenerateReqInput → RouterManager lib → Type 0 where
    started : Run start [] [] start
    received :
        (req : Received) {reqs : List Received} {handed : List BatchTokenizedGenerateReqInput}
        {r : RouterManager lib}
        → Run start reqs handed r
        → Run start (reqs ++ req ∷ []) handed (receive req r)
    begun :
        {reqs : List Received} {handed : List BatchTokenizedGenerateReqInput}
        {r : RouterManager lib}
        → Run start reqs handed r
        → r.next_step_input ≡ none
        → Run start reqs handed (begin_step r)
    ended :
        (inputs : List BatchTokenizedGenerateReqInput) {reqs : List Received}
        {handed : List BatchTokenizedGenerateReqInput} {r : RouterManager lib}
        → Run start reqs handed r
        → r.next_step_input ≡ some inputs
        → Run start reqs (handed ++ inputs) (end_step inputs r)
