-- ===== src/Requests/Finishing.antt =====
-- `handle_finished_requests` and `handle_aborted_requests` of fastmoe/serve/router/model_rpc.py.
-- The stop string and the log probabilities of an answer are left out: the first is never set,
-- the others are floats that are passed on. `params` is the store of the sampling parameters; a
-- request's reference into it is never dangling.
use harvest_mo_e.Base.{
  get_elem?, ℕ, zero, suc, ◌≤◌, ◌<◌, ◌≡◌, refl, ap, ◌∙◌, sym, Bool, true, false, ◌||◌, some, List,
  [], ◌∷◌, ◌++◌, map, arith, if◌then◌else◌, length, inl, inr, Bool-cases,
}
use mathlib.Core.List.{append_assoc, append-nil}
use harvest_mo_e.Requests.Req.{Req, SamplingParams}

-- `BatchTokenIDOut`, with its meta information as two lists.
pub record BatchTokenIdOut : Type 0 where
  pub rids : List ℕ
  pub output_tokens : List (List ℕ)
  pub skip_special_tokens : List Bool
  pub prompt_tokens : List ℕ
  pub completion_tokens : List ℕ
  pub finished : List Bool

abbrev pub nothing : BatchTokenIdOut
nothing = record {
  rids = [];
  output_tokens = [];
  skip_special_tokens = [];
  prompt_tokens = [];
  completion_tokens = [];
  finished = [];
}

-- The server's answers, and the requests of the batch at hand.
pub record Answers : Type 0 where
  pub out_pyobjs : List BatchTokenIdOut
  pub reqs : List Req

module _ (params : ℕ → SamplingParams) where
  -- The appends of one round, with the tokens that are sent.
  abbrev pub append_answer : List ℕ → Req → BatchTokenIdOut → BatchTokenIdOut
  append_answer tokens r out = record {
    rids = out.rids ++ r.rid ∷ [];
    output_tokens = out.output_tokens ++ tokens ∷ [];
    skip_special_tokens =
        out.skip_special_tokens ++ (params r.sampling_params).skip_special_tokens ∷ [];
    prompt_tokens = out.prompt_tokens ++ length r.input_ids ∷ [];
    completion_tokens = out.completion_tokens ++ length tokens ∷ [];
    finished = out.finished ++ r.finished ∷ [];
  }

  -- The loop of `handle_finished_requests`.
  unfoldable pub collect_finished : List Req → BatchTokenIdOut → BatchTokenIdOut
  collect_finished [] out = out
  collect_finished (r ∷ rs) out =
      collect_finished rs (if r.finished then append_answer r.output_ids r out else out)

  -- The loop of `handle_aborted_requests`: no token is sent.
  unfoldable pub collect_aborted : List Req → BatchTokenIdOut → BatchTokenIdOut
  collect_aborted [] out = out
  collect_aborted (r ∷ rs) out =
      collect_aborted rs (if r.finished then append_answer [] r out else out)

  abbrev any_finished : List Req → Bool
  any_finished [] = false
  any_finished (r ∷ rs) = r.finished || any_finished rs

  abbrev pub send : BatchTokenIdOut → List BatchTokenIdOut → List BatchTokenIdOut
  send out sent = elim out.rids [ [] ↦ sent | rid ∷ rids ↦ sent ++ out ∷ [] ]

  unfoldable pub handle_finished_requests : Answers → Answers
  unfolding collect_finished
  handle_finished_requests a = record {
    out_pyobjs = send (collect_finished a.reqs nothing) a.out_pyobjs;
    reqs = if any_finished a.reqs then [] else a.reqs;
  }

  unfoldable pub handle_aborted_requests : List Req → Answers → Answers
  unfolding collect_aborted
  handle_aborted_requests requests a = record a {
    out_pyobjs = send (collect_aborted requests nothing) a.out_pyobjs;
  }

module _ (params : ℕ → SamplingParams) where
  -- One answer for the requests `rs`: the tokens of each, in their order.
  abbrev pub answer_to : (Req → List ℕ) → List Req → BatchTokenIdOut
  answer_to tokens rs = record {
    rids = map (λ (r : Req). r.rid) rs;
    output_tokens = map tokens rs;
    skip_special_tokens = map (λ (r : Req). (params r.sampling_params).skip_special_tokens) rs;
    prompt_tokens = map (λ (r : Req). length r.input_ids) rs;
    completion_tokens = map (λ (r : Req). length (tokens r)) rs;
    finished = map (λ (r : Req). r.finished) rs;
  }

abbrev pub finished_of : List Req → List Req
finished_of [] = []
finished_of (r ∷ rs) = let rest = finished_of rs in if r.finished then r ∷ rest else rest

-- Nothing is sent where there is nobody to answer.
abbrev pub sent_after : List BatchTokenIdOut → List Req → BatchTokenIdOut → List BatchTokenIdOut
sent_after sent [] out = sent
sent_after sent (r ∷ rs) out = sent ++ out ∷ []

abbrev joined : BatchTokenIdOut → BatchTokenIdOut → BatchTokenIdOut
joined a b = record {
  rids = a.rids ++ b.rids;
  output_tokens = a.output_tokens ++ b.output_tokens;
  skip_special_tokens = a.skip_special_tokens ++ b.skip_special_tokens;
  prompt_tokens = a.prompt_tokens ++ b.prompt_tokens;
  completion_tokens = a.completion_tokens ++ b.completion_tokens;
  finished = a.finished ++ b.finished;
}

joined-nothing : (a : BatchTokenIdOut) → joined a nothing ≡ a
joined-nothing a = simp (append-nil)

joined-append :
    (params : ℕ → SamplingParams) (tokens : Req → List ℕ) (r : Req) (rs : List Req)
    (out : BatchTokenIdOut)
    → joined (append_answer params (tokens r) r out) (answer_to params tokens rs)
      ≡ joined out (answer_to params tokens (r ∷ rs))
joined-append params tokens r rs out = simp (append_assoc)

if_true {ℓ} : {A : Type ℓ} (b : Bool) (x y : A) → b ≡ true → (if b then x else y) ≡ x
if_true b x y e = rw e refl

if_false {ℓ} : {A : Type ℓ} (b : Bool) (x y : A) → b ≡ false → (if b then x else y) ≡ y
if_false b x y e = rw e refl

-- Both loops, with the tokens that they send.
abbrev collect :
    (ℕ → SamplingParams) → (Req → List ℕ) → List Req → BatchTokenIdOut → BatchTokenIdOut
collect params tokens [] out = out
collect params tokens (r ∷ rs) out =
    collect params tokens rs (if r.finished then append_answer params (tokens r) r out else out)

collect_lem :
    (params : ℕ → SamplingParams) (tokens : Req → List ℕ) (rs : List Req) (out : BatchTokenIdOut)
    → collect params tokens rs out ≡ joined out (answer_to params tokens (finished_of rs))
collect_lem params tokens [] out = sym (joined-nothing out)
collect_lem params tokens (r ∷ rs) out =
    let out' = append_answer params (tokens r) r out in
    let rest = finished_of rs in
    elim (Bool-cases r.finished) [
      | inl y ↦
          ap (collect params tokens rs) (if_true r.finished out' out y)
          ∙ collect_lem params tokens rs out'
          ∙ joined-append params tokens r rest out
          ∙ ap (λ l. joined out (answer_to params tokens l))
              (sym (if_true r.finished (r ∷ rest) rest y))
      | inr n ↦
          ap (collect params tokens rs) (if_false r.finished out' out n)
          ∙ collect_lem params tokens rs out
          ∙ ap (λ l. joined out (answer_to params tokens l))
              (sym (if_false r.finished (r ∷ rest) rest n))
    ]

collect_finished-collect :
    (params : ℕ → SamplingParams) (rs : List Req) (out : BatchTokenIdOut)
    → collect_finished params rs out ≡ collect params (λ r. r.output_ids) rs out
unfolding collect_finished
collect_finished-collect params [] out = refl
collect_finished-collect params (r ∷ rs) out =
    collect_finished-collect params rs
      (if r.finished then append_answer params r.output_ids r out else out)

collect_aborted-collect :
    (params : ℕ → SamplingParams) (rs : List Req) (out : BatchTokenIdOut)
    → collect_aborted params rs out ≡ collect params (λ r. []) rs out
unfolding collect_aborted
collect_aborted-collect params [] out = refl
collect_aborted-collect params (r ∷ rs) out =
    collect_aborted-collect params rs (if r.finished then append_answer params [] r out else out)

send-answer_to :
    (params : ℕ → SamplingParams) (tokens : Req → List ℕ) (rs : List Req)
    (sent : List BatchTokenIdOut)
    → send params (joined nothing (answer_to params tokens rs)) sent
      ≡ sent_after sent rs (answer_to params tokens rs)
send-answer_to params tokens [] sent = refl
send-answer_to params tokens (r ∷ rs) sent = refl

-- The requests that are left: all of them, unless one is done.
abbrev pub kept : List Req → List Req → List Req
kept [] reqs = reqs
kept (r ∷ done) reqs = []

any_finished_lem :
    (params : ℕ → SamplingParams) (rs reqs : List Req)
    → (if any_finished params rs then [] else reqs) ≡ kept (finished_of rs) reqs
any_finished_lem params [] reqs = refl
any_finished_lem params (r ∷ rs) reqs = ground (arith, any_finished_lem params rs reqs)

-- One answer is sent for exactly the finished requests, in their order, each with its own tokens,
-- and none where no request is finished; the batch is cleared as soon as one request is finished.
pub handle_finished_requests_lem :
    (params : ℕ → SamplingParams) (a : Answers)
    → let a' = handle_finished_requests params a in
      let done = finished_of a.reqs in
      (a'.out_pyobjs ≡ sent_after a.out_pyobjs done (answer_to params (λ r. r.output_ids) done))
      × (a'.reqs ≡ kept done a.reqs)
unfolding handle_finished_requests
handle_finished_requests_lem params a = (
  ap (λ o. send params o a.out_pyobjs)
        (collect_finished-collect params a.reqs nothing
          ∙ collect_lem params (λ r. r.output_ids) a.reqs nothing)
      ∙ send-answer_to params (λ r. r.output_ids) (finished_of a.reqs) a.out_pyobjs,
  any_finished_lem params a.reqs a.reqs,
)

-- Of the requests given to `handle_aborted_requests` exactly the finished ones are answered, in
-- their order and without a token; the batch stays as it is.
pub handle_aborted_requests_lem :
    (params : ℕ → SamplingParams) (requests : List Req) (a : Answers)
    → let a' = handle_aborted_requests params requests a in
      let done = finished_of requests in
      (a'.out_pyobjs ≡ sent_after a.out_pyobjs done (answer_to params (λ r. []) done))
      × (a'.reqs ≡ a.reqs)
unfolding handle_aborted_requests
handle_aborted_requests_lem params requests a = (
  ap (λ o. send params o a.out_pyobjs)
        (collect_aborted-collect params requests nothing
          ∙ collect_lem params (λ r. []) requests nothing)
      ∙ send-answer_to params (λ r. []) (finished_of requests) a.out_pyobjs,
  refl,
)

finished_of-kept :
    (rs reqs : List Req) (i : ℕ) (r : Req)
    → get_elem? rs i ≡ some r
    → r.finished ≡ true
    → (kept (finished_of rs) reqs ≡ []) × (0 < length (finished_of rs))
finished_of-kept [] reqs i r e f = cc
finished_of-kept (x ∷ rs) reqs zero r e f = ground (arith, e, f)
finished_of-kept (x ∷ rs) reqs (suc i) r e f = ground (arith, finished_of-kept rs reqs i r e f)

length-finished_of : (rs : List Req) → length (finished_of rs) ≤ length rs
length-finished_of [] = omega arith
length-finished_of (r ∷ rs) = ground (arith, length-finished_of rs)

length-finished_of_lt :
    (rs : List Req) (j : ℕ) (u : Req)
    → get_elem? rs j ≡ some u
    → u.finished ≡ false
    → length (finished_of rs) < length rs
length-finished_of_lt [] j u e f = cc
length-finished_of_lt (x ∷ rs) zero u e f = ground (arith, e, f, length-finished_of rs)
length-finished_of_lt (x ∷ rs) (suc j) u e f = ground (arith, length-finished_of_lt rs j u e f)

-- Where a batch holds a finished and an unfinished request, no request of it is kept, while fewer
-- requests than it holds are answered.
pub handle_finished_requests_drops :
    (params : ℕ → SamplingParams) (a : Answers) (i j : ℕ) (r u : Req)
    → get_elem? a.reqs i ≡ some r
    → r.finished ≡ true
    → get_elem? a.reqs j ≡ some u
    → u.finished ≡ false
    → let a' = handle_finished_requests params a in
      (a'.reqs ≡ []) × (length (finished_of a.reqs) < length a.reqs)
handle_finished_requests_drops params a i j r u er fr eu fu = (
  (handle_finished_requests_lem params a).1 ∙ (finished_of-kept a.reqs a.reqs i r er fr).0,
  length-finished_of_lt a.reqs j u eu fu,
)
