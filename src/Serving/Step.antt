-- ===== src/Serving/Step.antt =====
-- `batch_forward_step` of fastmoe/serve/router/model_rpc.py: the answers of one step.
use harvest_mo_e.Base.{
  ℕ, ◌+◌, ◌≤◌, ◌<◌, ◌≡◌, refl, ap, true, List, [], ◌∷◌, map, ltb, leb, if◌then◌else◌, length, All,
  All-mono, arith, Bool-cases, inl, inr,
}
use harvest_mo_e.Base.Action.{ok, raise, Error}
use harvest_mo_e.KvPool.{RowTensors, TokenToKvPool, clear}
use harvest_mo_e.KvPool.Lines.{IsAt, clear-IsAt}
use harvest_mo_e.Requests.Req.{Req, SamplingParams, abort_req}
use harvest_mo_e.Requests.Admission.{
  Server, BatchTokenizedGenerateReqInput, handle_batch_generate_request,
}
use harvest_mo_e.Requests.Finishing.{BatchTokenIdOut, handle_aborted_requests}
use harvest_mo_e.MicroBatches.{Policy, create_micro_batches}
use harvest_mo_e.MicroBatches.Conservation.{
  occurs, occurs_in, weight, weight_in, create_micro_batches-weight, create_micro_batches_lem,
}
use harvest_mo_e.MicroBatches.Capacity.{IsAborted, create_micro_batches-FitsPolicy}
use harvest_mo_e.Prefill.{Batch, pool}
use harvest_mo_e.Prefill.Engine.{prepare_all_run, create_micro_batches-prepare_raises}
use harvest_mo_e.Serving.{
  Setting, Serving, param_at, batch_forward_step, flush_cache, step_one, step_all, exposed_step,
}
use harvest_mo_e.Serving.Answered.{answered, answered-aborted, Reaches, finish_all-answered}

module _ (setting : Setting) (params : ℕ → SamplingParams) where
  -- 1 for a request whose tokens do not reach its limit.
  short : Req → ℕ
  short r =
      if leb (params r.sampling_params).max_new_tokens (1 + length (setting.later_sampled r.rid))
      then 0
      else 1

  short-abort : (r : Req) → short (abort_req r) ≡ short r
  unfolding short abort_req
  short-abort r = refl

  short-none : (rs : List Req) → All (Reaches setting params) rs → weight short rs ≡ 0
  unfolding short
  short-none [] all = refl
  short-none (r ∷ rs) all = ground (arith, all.0, short-none rs all.1)

  none-short : (rs : List Req) → weight short rs ≡ 0 → All (Reaches setting params) rs
  unfolding short
  none-short [] e = tt
  none-short (r ∷ rs) e = (ground (arith, e), none-short rs (omega (arith, e)))

  none-short_in :
      (rss : List (List Req))
      → weight_in short rss ≡ 0
      → All (λ rs. All (Reaches setting params) rs) rss
  none-short_in [] e = tt
  none-short_in (rs ∷ rss) e =
      (none-short rs (omega (arith, e)), none-short_in rss (omega (arith, e)))

  batches-Reaches :
      (bs : List Batch)
      → All (λ rs. All (Reaches setting params) rs) (map (λ (b : Batch). b.reqs) bs)
      → All (λ (b : Batch). All (Reaches setting params) b.reqs) bs
  batches-Reaches [] all = tt
  batches-Reaches (b ∷ bs) all = (all.0, batches-Reaches bs all.1)

  micro_batches-Reaches :
      (queue : List Req)
      → All (Reaches setting params) queue
      → All (λ rs. All (Reaches setting params) rs) (create_micro_batches setting.policy queue).0
  micro_batches-Reaches queue all =
      let (micro_batches, aborted) = create_micro_batches setting.policy queue in
      none-short_in micro_batches (
        omega (
          arith,
          create_micro_batches-weight setting.policy queue short short-abort,
          short-none queue all,
        ))

aborted-finished :
    (policy : Policy) (queue : List Req)
    → 1 ≤ policy.ubs
    → All (λ (r : Req). r.finished ≡ true) (create_micro_batches policy queue).1
unfolding create_micro_batches
aborted-finished policy queue h = elim (Bool-cases (ltb (length queue) policy.ubs)) [
  | inl few ↦ rw few tt
  | inr enough ↦
      let (number, fit, kept, marked) =
        create_micro_batches-FitsPolicy policy queue 0 h (ground (arith, enough)) in
      All-mono IsAborted (λ (r : Req). r.finished ≡ true) (create_micro_batches policy queue).1
        (λ r m. m.0) marked
]

-- A step whose micro-batches all hold a request, and whose requests are sampled tokens up to their
-- limits, returns and leaves no request in the queue: whatever the queue held is answered, an
-- aborted request like any other, and each identifier exactly as often as it was in the queue. The
-- pool stands as many lines further as there are micro-batches.
pub batch_forward_step_lem :
    {V : Type 0} (lib : RowTensors V) (setting : Setting) (n a : ℕ) (server : Server)
    (sent : List BatchTokenIdOut) (p : TokenToKvPool lib)
    → IsAt n p
    → 1 ≤ setting.policy.ubs
    → All
        (λ (rs : List Req). 1 ≤ length rs)
        (create_micro_batches setting.policy server.forward_queue).0
    → All (Reaches setting (param_at server.params)) server.forward_queue
    → let s : Serving lib = record { server = server; out_pyobjs = sent; caches = pool p } in
      let (result, s') = batch_forward_step lib setting s in
      (p' : TokenToKvPool lib) × (result ≡ ok tt)
      × (s'.server.forward_queue ≡ [])
      × (answered a s'.out_pyobjs ≡ answered a sent + occurs a server.forward_queue)
      × (s'.caches ≡ pool p')
      × IsAt (n + length (create_micro_batches setting.policy server.forward_queue).0) p'
unfolding batch_forward_step
batch_forward_step_lem lib setting n a server sent p at h full reach =
    let params = param_at server.params in
    let (micro_batches, aborted) = create_micro_batches setting.policy server.forward_queue in
    let (bs, p', run, next, lines, own) =
      prepare_all_run lib setting.policy.gen_len n p micro_batches at full in
    let told =
      answered-aborted a params aborted sent
        (aborted-finished setting.policy server.forward_queue h) in
    let reaches : All (λ (b : Batch). All (Reaches setting params) b.reqs) bs =
      batches-Reaches setting params bs
        (rw own (micro_batches-Reaches setting params server.forward_queue reach)) in
    let (sent', done, more) =
      finish_all-answered setting params a bs
        (handle_aborted_requests params aborted
          (record { out_pyobjs = sent; reqs = [] })).out_pyobjs
        reaches in
    let same = ap (occurs_in a) own in
    let kept = create_micro_batches_lem setting.policy server.forward_queue a in
    rw (run, batch_forward_step) rw done
      (p', refl, refl, omega (arith, more, told, same, kept), ap (λ r. r.1) run, next)

flush_run :
    {V : Type 0} (lib : RowTensors V) (s : Serving lib) (p : TokenToKvPool lib)
    → s.server.forward_queue ≡ []
    → s.caches ≡ pool p
    → flush_cache lib s ≡ record s { caches = pool (clear lib p) }
unfolding flush_cache
flush_run lib s p empty caches = ground (arith, empty, caches)

-- A call of `exposed_step` with one batch of requests that is admitted, whose micro-batches all hold
-- a request, and whose requests are sampled tokens up to their limits: every identifier in the queue
-- is named in the returned answers once more for each time that it stands there. Afterwards the queue
-- and the answers are empty, and the pool starts again from its first line.
pub exposed_step_lem :
    {V : Type 0} (lib : RowTensors V) (setting : Setting) (n a : ℕ)
    (recv_req : BatchTokenizedGenerateReqInput) (server admitted : Server)
    (sent : List BatchTokenIdOut) (p : TokenToKvPool lib)
    → handle_batch_generate_request setting.context_len recv_req server ≡ (ok tt, admitted)
    → IsAt n p
    → 1 ≤ setting.policy.ubs
    → All
        (λ (rs : List Req). 1 ≤ length rs)
        (create_micro_batches setting.policy admitted.forward_queue).0
    → All (Reaches setting (param_at admitted.params)) admitted.forward_queue
    → let s : Serving lib = record { server = server; out_pyobjs = sent; caches = pool p } in
      let (result, s') = exposed_step lib setting (recv_req ∷ []) s in
      (answers : List BatchTokenIdOut) × (p' : TokenToKvPool lib) × (result ≡ ok answers)
      × (answered a answers ≡ answered a sent + occurs a admitted.forward_queue)
      × (s'.server.forward_queue ≡ [])
      × (s'.out_pyobjs ≡ [])
      × (s'.caches ≡ pool p')
      × IsAt 0 p'
unfolding exposed_step step_all step_one
exposed_step_lem lib setting n a recv_req server admitted sent p run at h full reach =
    let s : Serving lib = record { server = admitted; out_pyobjs = sent; caches = pool p } in
    let (p', done, empty, told, caches, next) =
      batch_forward_step_lem lib setting n a admitted sent p at h full reach in
    let s' = (batch_forward_step lib setting s).1 in
    let flushed = flush_run lib s' p' empty caches in
    let one : step_one lib setting recv_req (record s { server = server })
        ≡ (ok tt, record s' { caches = pool (clear lib p') }) =
      ground (arith, run, done, flushed) in
    let all : step_all lib setting (recv_req ∷ []) (record s { server = server })
        ≡ (ok tt, record s' { caches = pool (clear lib p') }) =
      ground (arith, one) in
    rw (all, exposed_step)
      (
        s'.out_pyobjs,
        clear lib p',
        refl,
        told,
        empty,
        refl,
        refl,
        clear-IsAt lib (n + length (create_micro_batches setting.policy admitted.forward_queue).0)
            p' next,
      )

-- With at least `ubs` requests in the queue but fewer than micro-batches, a step raises after it has
-- emptied the queue: only the aborted requests are answered, and the others are lost.
pub batch_forward_step-loses :
    {V : Type 0} (lib : RowTensors V) (setting : Setting) (n a : ℕ) (server : Server)
    (sent : List BatchTokenIdOut) (p : TokenToKvPool lib)
    → IsAt n p
    → 1 ≤ setting.policy.ubs
    → setting.policy.ubs ≤ length server.forward_queue
    → length server.forward_queue < setting.policy.n_ub
    → let s : Serving lib = record { server = server; out_pyobjs = sent; caches = pool p } in
      let (result, s') = batch_forward_step lib setting s in
      let (micro_batches, aborted) = create_micro_batches setting.policy server.forward_queue in
      (result ≡ raise Error.type_error)
      × (s'.server.forward_queue ≡ [])
      × (answered a s'.out_pyobjs ≡ answered a sent + occurs a aborted)
unfolding batch_forward_step
batch_forward_step-loses lib setting n a server sent p at h enough few =
    let (micro_batches, aborted) = create_micro_batches setting.policy server.forward_queue in
    let stuck =
      create_micro_batches-prepare_raises lib setting.policy server.forward_queue n p at h enough
        few in
    let told =
      answered-aborted a (param_at server.params) aborted sent
        (aborted-finished setting.policy server.forward_queue h) in
    rw (stuck, batch_forward_step) (refl, refl, told)
