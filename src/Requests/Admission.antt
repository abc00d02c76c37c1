-- ===== src/Requests/Admission.antt =====
-- `handle_batch_generate_request` of fastmoe/serve/router/model_rpc.py: long prompts are cut, and
-- the sampling parameters, which all requests of the batch share, are lowered in place.
use Prim.Native.String.{String}
use harvest_mo_e.Base.{
  ℕ, zero, suc, ◌+◌, ◌-◌, min, Bool, List, [], ◌∷◌, ◌++◌, length, get_elem?, set, take,
}
use harvest_mo_e.Base.Action.{Error, Action, pure, gets, or_raise, modify, ◌>>=◌, ◌>>◌}
use harvest_mo_e.Requests.Req.{Req, SamplingParams}
use harvest_mo_e.Requests.Req

-- `BatchTokenizedGenerateReqInput`; `sampling_params` refers into the server's store.
pub record BatchTokenizedGenerateReqInput : Type 0 where
  pub rid : List ℕ
  pub input_text : List String
  pub input_ids : List (List ℕ)
  pub sampling_params : ℕ
  pub return_logprob : Bool

-- The server's queue, and the store of the sampling parameters that its requests refer to.
pub record Server : Type 0 where
  pub forward_queue : List Req
  pub params : List SamplingParams

-- The truncated request and the lowered parameters. `context_len` is positive.
abbrev pub truncated : ℕ → Req → Req
truncated context_len r = record r { input_ids = take (context_len - 1) r.input_ids }

abbrev pub lowered : ℕ → Req → SamplingParams → SamplingParams
lowered context_len r s = record s {
  max_new_tokens = min s.max_new_tokens (context_len - 1 - length r.input_ids);
}

module _ (context_len : ℕ) (recv_req : BatchTokenizedGenerateReqInput) where
  -- Round `i` of the loop.
  unfoldable pub handle_one : ℕ → Action Server (Unit {0})
  unfolding Req.init
  handle_one i = do
    rid ← or_raise (get_elem? recv_req.rid i) Error.index_error
    text ← or_raise (get_elem? recv_req.input_text i) Error.index_error
    ids ← or_raise (get_elem? recv_req.input_ids i) Error.index_error
    s ← gets (λ s. s)
    shared ← or_raise (get_elem? s.params recv_req.sampling_params) Error.key_error
    let req =
        truncated context_len
          (Req.init rid text ids recv_req.sampling_params recv_req.return_logprob)
    modify (λ s. record s {
      forward_queue = s.forward_queue ++ req ∷ [];
      params = set s.params recv_req.sampling_params (lowered context_len req shared);
    })

  -- The loop from round `i`, with `n` rounds left.
  unfoldable pub handle_from : ℕ → ℕ → Action Server (Unit {0})
  handle_from zero i = pure tt
  handle_from (suc n) i = do handle_one i; handle_from n (i + 1)

  unfoldable pub handle_batch_generate_request : Action Server (Unit {0})
  unfolding handle_from
  handle_batch_generate_request = handle_from (length recv_req.rid) 0
