-- ===== src/Serving.antt =====
-- `exposed_step`, `batch_forward_step` and `flush_cache` of fastmoe/serve/router/model_rpc.py: a step
-- of the server, from the requests that it receives to the answers that it returns. The tokens that
-- the models sample for a request are given. A request collects its own tokens only, so that they are
-- collected one request after another here; `running_batch`, which stays `None`, is left out.
pub mod Answered
pub mod Step
mod Tests
use harvest_mo_e.Base.{
  ℕ, Bool, true, false, List, [], ◌∷◌, ◌++◌, Option, none, some, map, ◌==◌, if◌then◌else◌, length,
  get_elem?,
}
use harvest_mo_e.Base.Action.{Error, Result, ok, raise, blocked, Action}
use harvest_mo_e.KvPool.{RowTensors, clear}
use harvest_mo_e.Requests.Req.{Req, SamplingParams}
use harvest_mo_e.Requests.Admission.{
  Server, BatchTokenizedGenerateReqInput, handle_batch_generate_request,
}
use harvest_mo_e.Requests.Decoding.{generate}
use harvest_mo_e.Requests.Finishing.{
  BatchTokenIdOut, Answers, handle_finished_requests, handle_aborted_requests,
}
use harvest_mo_e.MicroBatches.{Policy, create_micro_batches}
use harvest_mo_e.Prefill.{Batch, Caches, pool, paged, no_cache, init_new}
use harvest_mo_e.Prefill.Engine.{prepare_all}

-- What a step depends on: the policy, the context length, the last token of a text, and the tokens
-- that the models sample for the request with an identifier, in the prefill and in the decode steps.
pub record Setting : Type 0 where
  pub policy : Policy
  pub context_len : ℕ
  pub eos_token_id : ℕ
  pub first_sampled : ℕ → ℕ
  pub later_sampled : ℕ → List ℕ

-- The server's queue and parameters, the answers that wait, and the caches of the engine.
pub record Serving {V : Type 0} (lib : RowTensors V) : Type 0 where
  pub server : Server
  pub out_pyobjs : List BatchTokenIdOut
  pub caches : Caches lib

-- The parameters that a request refers to; the reference of a request is never dangling.
abbrev pub param_at : List SamplingParams → ℕ → SamplingParams
param_at params ref = elim (get_elem? params ref) [
  | none ↦ record { max_new_tokens = 0; ignore_eos = false; skip_special_tokens = false }
  | some p ↦ p
]

module _ (setting : Setting) (params : ℕ → SamplingParams) where
  -- The tokens of all requests of a micro-batch.
  unfoldable pub generate_all : List Req → Result (List Req)
  generate_all [] = ok []
  generate_all (r ∷ rs) =
      elim (generate (params r.sampling_params) setting.eos_token_id (setting.first_sampled r.rid)
        (setting.later_sampled r.rid) r) [
          | raise e ↦ raise e
          | blocked ↦ blocked
          | ok r' ↦ elim (generate_all rs) [
            | raise e ↦ raise e
            | blocked ↦ blocked
            | ok rs' ↦ ok (r' ∷ rs')
          ]
        ]

  -- Every micro-batch: its tokens, and then its answers.
  unfoldable pub finish_all : List Batch → List BatchTokenIdOut → Result (List BatchTokenIdOut)
  unfolding generate_all
  finish_all [] sent = ok sent
  finish_all (b ∷ bs) sent = elim (generate_all b.reqs) [
    | raise e ↦ raise e
    | blocked ↦ blocked
    | ok reqs ↦
        finish_all bs
          (handle_finished_requests params (record { out_pyobjs = sent; reqs = reqs })).out_pyobjs
  ]

module _ {V : Type 0} (lib : RowTensors V) where
  -- `flush_cache`, with what `reset` does to the token pool.
  unfoldable pub flush_cache : Serving lib → Serving lib
  flush_cache s = elim s.server.forward_queue [
    | r ∷ rs ↦ s
    | [] ↦ elim s.caches [
      | pool p ↦ record s { caches = pool (clear lib p) }
      | paged ↦ s
      | no_cache ↦ s
    ]
  ]

module _ {V : Type 0} (lib : RowTensors V) (setting : Setting) where
  -- A policy makes at least one micro-batch: with none, `init_weights_prefetch_meta`, whose numbers
  -- for the prefetch are left out here, divides by zero.
  unfoldable pub batch_forward_step : Action (Serving lib) (Unit {0})
  unfolding create_micro_batches prepare_all finish_all
  batch_forward_step s =
      let params = param_at s.server.params in
      let (micro_batches, aborted) = create_micro_batches setting.policy s.server.forward_queue in
      let told =
        handle_aborted_requests params aborted (record { out_pyobjs = s.out_pyobjs; reqs = [] }) in
      let (prepared, caches) =
        prepare_all lib setting.policy.gen_len (map init_new micro_batches) s.caches in
      let s' = record s {
        server = record s.server { forward_queue = [] };
        out_pyobjs = told.out_pyobjs;
        caches = caches;
      } in
      elim prepared [
        | raise e ↦ (raise e, s')
        | blocked ↦ (blocked, s')
        | ok batches ↦ elim (finish_all setting params batches told.out_pyobjs) [
          | raise e ↦ (raise e, s')
          | blocked ↦ (blocked, s')
          | ok sent ↦ (ok tt, record s' { out_pyobjs = sent })
        ]
      ]

  -- One received batch. What is no batch, and raises a ValueError, is never sent.
  unfoldable pub step_one : BatchTokenizedGenerateReqInput → Action (Serving lib) (Unit {0})
  unfolding handle_batch_generate_request batch_forward_step flush_cache
  step_one recv_req s =
      let (admitted, server) =
        handle_batch_generate_request setting.context_len recv_req s.server in
      let s₁ = record s { server = server } in
      elim admitted [
        | raise e ↦ (raise e, s₁)
        | blocked ↦ (blocked, s₁)
        | ok _ ↦
            let (done, s₂) = batch_forward_step s₁ in
            elim done [
              | raise e ↦ (raise e, s₂)
              | blocked ↦ (blocked, s₂)
              | ok _ ↦ (ok tt, flush_cache lib s₂)
            ]
      ]

  unfoldable pub step_all : List BatchTokenizedGenerateReqInput → Action (Serving lib) (Unit {0})
  unfolding step_one
  step_all [] s = (ok tt, s)
  step_all (recv_req ∷ recv_reqs) s =
      let (done, s') = step_one recv_req s in
      elim done [ raise e ↦ (raise e, s') | blocked ↦ (blocked, s') | ok _ ↦ step_all recv_reqs s' ]

  -- `exposed_step`: an exception is logged, and whatever answers there are then are returned.
  unfoldable pub exposed_step :
      List BatchTokenizedGenerateReqInput → Action (Serving lib) (List BatchTokenIdOut)
  unfolding step_all
  exposed_step recv_reqs s =
      let (_, s') = step_all recv_reqs s in (ok s'.out_pyobjs, record s' { out_pyobjs = [] })
