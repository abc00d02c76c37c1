-- ===== src/Serving/Answered.antt =====
-- How often a request is answered: what generation and the two answer handlers of
-- fastmoe/serve/router/model_rpc.py make of the requests of a step.
use harvest_mo_e.Base.{
  ℕ, ◌+◌, ◌≤◌, ◌≡◌, refl, ap, ◌∙◌, true, not, ◌&&◌, List, [], ◌∷◌, ◌++◌, some, map, ltb, leb, ◌==◌,
  length, All, arith, ◌⊎◌, Bool-cases, inl, inr, length-append,
}
use harvest_mo_e.Base.Count.{count}
use harvest_mo_e.Base.Action.{ok}
use harvest_mo_e.Requests.Req.{Req, SamplingParams, FinishReason, finish, check_finished, last?}
use harvest_mo_e.Requests.Decoding.{generate, first_token, next_token, decode_tokens}
use harvest_mo_e.Requests.Finishing.{
  BatchTokenIdOut, handle_finished_requests, handle_aborted_requests, finished_of, sent_after,
  answer_to, handle_finished_requests_lem, handle_aborted_requests_lem,
}
use harvest_mo_e.MicroBatches.Conservation.{occurs, occurs_in}
use harvest_mo_e.Prefill.{Batch}
use harvest_mo_e.Serving.{Setting, generate_all, finish_all}

-- How often the answers name an identifier.
abbrev pub answered : ℕ → List BatchTokenIdOut → ℕ
answered a [] = 0
answered a (out ∷ sent) = count a out.rids + answered a sent

answered-append :
    (a : ℕ) (sent : List BatchTokenIdOut) (out : BatchTokenIdOut)
    → answered a (sent ++ out ∷ []) ≡ answered a sent + count a out.rids
answered-append a [] out = omega arith
answered-append a (o ∷ sent) out = omega (arith, answered-append a sent out)

count-rids : (a : ℕ) (rs : List Req) → count a (map (λ (r : Req). r.rid) rs) ≡ occurs a rs
count-rids a [] = refl
count-rids a (r ∷ rs) = omega (arith, count-rids a rs)

answered-sent_after :
    (a : ℕ) (params : ℕ → SamplingParams) (tokens : Req → List ℕ) (rs : List Req)
    (sent : List BatchTokenIdOut)
    → answered a (sent_after sent rs (answer_to params tokens rs)) ≡ answered a sent + occurs a rs
answered-sent_after a params tokens [] sent = omega arith
answered-sent_after a params tokens (r ∷ rs) sent =
    omega (arith, answered-append a sent (answer_to params tokens (r ∷ rs)), count-rids a (r ∷ rs))

finished_of-All : (rs : List Req) → All (λ (r : Req). r.finished ≡ true) rs → finished_of rs ≡ rs
finished_of-All [] all = refl
finished_of-All (r ∷ rs) all = ground (arith, all.0, finished_of-All rs all.1)

-- Aborted requests are answered once each.
pub answered-aborted :
    (a : ℕ) (params : ℕ → SamplingParams) (aborted : List Req) (sent : List BatchTokenIdOut)
    → All (λ (r : Req). r.finished ≡ true) aborted
    → answered a
        (handle_aborted_requests params aborted
          (record { out_pyobjs = sent; reqs = [] })).out_pyobjs
      ≡ answered a sent + occurs a aborted
answered-aborted a params aborted sent all =
    let (told, _) =
      handle_aborted_requests_lem params aborted (record { out_pyobjs = sent; reqs = [] }) in
    let every = finished_of-All aborted all in
    ap (answered a) told
    ∙ ap (λ rs. answered a (sent_after sent rs (answer_to params (λ r. []) rs))) every
    ∙ answered-sent_after a params (λ r. []) aborted sent

answered-finished :
    (a : ℕ) (params : ℕ → SamplingParams) (reqs : List Req) (sent : List BatchTokenIdOut)
    → All (λ (r : Req). r.finished ≡ true) reqs
    → answered a
        (handle_finished_requests params (record { out_pyobjs = sent; reqs = reqs })).out_pyobjs
      ≡ answered a sent + occurs a reqs
answered-finished a params reqs sent all =
    let (told, _) =
      handle_finished_requests_lem params (record { out_pyobjs = sent; reqs = reqs }) in
    let every = finished_of-All reqs all in
    ap (answered a) told
    ∙ ap (λ rs. answered a (sent_after sent rs (answer_to params (λ r. r.output_ids) rs))) every
    ∙ answered-sent_after a params (λ r. r.output_ids) reqs sent

last?-some : (xs : List ℕ) → 1 ≤ length xs → (x : ℕ) × (last? xs ≡ some x)
last?-some [] h = absurd (omega arith)
last?-some (x ∷ []) h = (x, refl)
last?-some (x ∷ y ∷ xs) h = last?-some (y ∷ xs) (omega arith)

module _ (params : SamplingParams) (eos_token_id : ℕ) where
  -- A check with at least one token never raises, and finishes a request that is at its limit.
  check_run :
      (r : Req)
      → 1 ≤ length r.output_ids
      → (r' : Req) × (check_finished params eos_token_id r ≡ ok r')
        × (r'.rid ≡ r.rid)
        × (r'.output_ids ≡ r.output_ids)
        × ((r.finished ≡ true) ⊎ (params.max_new_tokens ≤ length r.output_ids) → r'.finished ≡ true)
  unfolding check_finished
  check_run r h = elim (Bool-cases r.finished) [
    | inl already ↦ (r, rw already refl, refl, refl, λ stop. already)
    | inr running ↦ elim (Bool-cases (leb params.max_new_tokens (length r.output_ids))) [
      | inl limit ↦
          (finish FinishReason.length_reached r, rw running rw limit refl, refl, refl, λ stop. refl)
      | inr below ↦
          let (token, last) = last?-some r.output_ids h in
          elim (Bool-cases (token == eos_token_id && not params.ignore_eos)) [
            | inl eos ↦ (
              finish FinishReason.eos_token r,
              rw running rw below rw last rw eos refl,
              refl,
              refl,
              λ stop. refl,
            )
            | inr other ↦ (
              r,
              ground (arith, running, below, last, other),
              refl,
              refl,
              λ stop. absurd (ground (arith, stop, running, below)),
            )
          ]
    ]
  ]

  decode_run :
      (tokens : List ℕ) (r : Req)
      → (r.finished ≡ true)
        ⊎ ((1 ≤ length tokens) × (params.max_new_tokens ≤ length r.output_ids + length tokens))
      → (r' : Req) × (decode_tokens params eos_token_id tokens r ≡ ok r')
        × (r'.rid ≡ r.rid)
        × (r'.finished ≡ true)
  unfolding decode_tokens next_token
  decode_run [] r (inl done) = (r, refl, refl, done)
  decode_run [] r (inr more) = absurd (omega (arith, more.0))
  decode_run (token ∷ tokens) r stop =
      let r₀ : Req = record r { output_ids = r.output_ids ++ token ∷ [] } in
      let size = length-append r.output_ids (token ∷ []) in
      let (r₁, run, rid, ids, finished) = check_run r₀ (omega (arith, size)) in
      let len : length r₁.output_ids ≡ length r.output_ids + 1 = ap length ids ∙ size in
      let next : (r₁.finished ≡ true)
          ⊎ ((1 ≤ length tokens) × (params.max_new_tokens ≤ length r₁.output_ids + length tokens)) =
        elim stop [
          | inl done ↦ inl (finished (inl done))
          | inr limit ↦ elim (Bool-cases (ltb 0 (length tokens))) [
            | inl more ↦ inr (ground (arith, more), omega (arith, limit, len))
            | inr last ↦
                let none_left : length tokens ≡ 0 = ground (arith, last) in
                inl (finished (inr (omega (arith, limit, none_left, size))))
          ]
        ] in
      let (r', rest, rid', done) = decode_run tokens r₁ next in
      (r', rw (run, decode_tokens, next_token) rest, rid' ∙ rid, done)

  -- A generation at least as long as the limit finishes, whether the request was finished before or
  -- not.
  generate_finishes :
      (token : ℕ) (tokens : List ℕ) (r : Req)
      → params.max_new_tokens ≤ 1 + length tokens
      → (r' : Req) × (generate params eos_token_id token tokens r ≡ ok r')
        × (r'.rid ≡ r.rid)
        × (r'.finished ≡ true)
  unfolding generate first_token
  generate_finishes token tokens r limit =
      let (r₁, run, rid, ids, finished) =
        check_run (record r { output_ids = token ∷ [] }) (omega arith) in
      let len : length r₁.output_ids ≡ 1 = ap length ids in
      let next : (r₁.finished ≡ true)
          ⊎ ((1 ≤ length tokens) × (params.max_new_tokens ≤ length r₁.output_ids + length tokens)) =
        elim (Bool-cases (ltb 0 (length tokens))) [
          | inl more ↦ inr (ground (arith, more), omega (arith, limit, len))
          | inr last ↦
              let none_left : length tokens ≡ 0 = ground (arith, last) in
              inl (finished (inr (omega (arith, limit, none_left))))
        ] in
      let (r', rest, rid', done) = decode_run tokens r₁ next in
      (r', rw (run, generate, first_token) rest, rid' ∙ rid, done)

-- The tokens that are sampled for a request reach its limit.
abbrev pub Reaches : Setting → (ℕ → SamplingParams) → Req → Type 0
Reaches setting params r =
    (params r.sampling_params).max_new_tokens ≤ 1 + length (setting.later_sampled r.rid)

module _ (setting : Setting) (params : ℕ → SamplingParams) (a : ℕ) where
  generate_all-finishes :
      (rs : List Req)
      → All (Reaches setting params) rs
      → (rs' : List Req) × (generate_all setting params rs ≡ ok rs')
        × (occurs a rs' ≡ occurs a rs)
        × All (λ (r : Req). r.finished ≡ true) rs'
  unfolding generate_all
  generate_all-finishes [] all = ([], refl, refl, tt)
  generate_all-finishes (r ∷ rs) all =
      let (r', run, rid, done) =
        generate_finishes (params r.sampling_params) setting.eos_token_id
          (setting.first_sampled r.rid) (setting.later_sampled r.rid) r all.0 in
      let (rs', rest, same, dones) = generate_all-finishes rs all.1 in
      (r' ∷ rs', rw (run, generate_all) rw rest refl, ground (arith, same, rid), (done, dones))

  -- Every request of the micro-batches is answered once more than before.
  pub finish_all-answered :
      (bs : List Batch) (sent : List BatchTokenIdOut)
      → All (λ (b : Batch). All (Reaches setting params) b.reqs) bs
      → (sent' : List BatchTokenIdOut) × (finish_all setting params bs sent ≡ ok sent')
        × (answered a sent' ≡ answered a sent + occurs_in a (map (λ (b : Batch). b.reqs) bs))
  unfolding finish_all
  finish_all-answered [] sent all = (sent, refl, omega arith)
  finish_all-answered (b ∷ bs) sent all =
      let (reqs, run, same, dones) = generate_all-finishes b.reqs all.0 in
      let told = answered-finished a params reqs sent dones in
      let (sent', rest, more) =
        finish_all-answered bs
          (handle_finished_requests params (record { out_pyobjs = sent; reqs = reqs })).out_pyobjs
          all.1 in
      (sent', rw (run, finish_all) rest, omega (arith, more, told, same))
