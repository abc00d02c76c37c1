-- ===== src/Requests/Accepted.antt =====
-- What `handle_batch_generate_request` puts in the queue, and what it leaves of the shared limit.
use Prim.Native.String.{String}
use harvest_mo_e.Base.{
  get_elem?-set_self, ℕ, zero, suc, ◌+◌, ◌-◌, ◌≤◌, ◌≡◌, refl, ap, ◌∙◌, sym, min, Bool, false, none,
  some, List, [], ◌∷◌, ◌++◌, arith, length, get_elem?, set, take, All, length-append,
}
use mathlib.Core.Path.{ap₂}
use mathlib.Core.List.{append_assoc, append-nil}
use harvest_mo_e.Base.Action.{ok, >>=-ok}
use harvest_mo_e.Requests.Req.{Req, SamplingParams}
use harvest_mo_e.Requests.Req
use harvest_mo_e.Requests.Admission.{
  Server, BatchTokenizedGenerateReqInput, lowered, handle_one, handle_from,
  handle_batch_generate_request,
}

module _ (context_len ref : ℕ) (flag : Bool) where
  -- A new request whose prompt is cut to one token less than the context; its length is that of the
  -- whole prompt.
  abbrev pub request_of : ℕ → String → List ℕ → Req
  request_of rid text ids = record {
    rid = rid;
    input_text = text;
    input_ids = take (context_len - 1) ids;
    input_len = length ids;
    output_ids = [];
    sampling_params = ref;
    return_logprob = flag;
    finished = false;
    finish_reason = none;
  }

  -- One request for each identifier, text and prompt.
  abbrev pub admitted : List ℕ → List String → List (List ℕ) → List Req
  admitted (rid ∷ rids) (text ∷ texts) (ids ∷ idss) =
      request_of rid text ids ∷ admitted rids texts idss
  admitted _ _ _ = []

-- The shared limit after the loop: the least of the given one and what each prompt leaves.
abbrev pub limit_of : ℕ → ℕ → List Req → ℕ
limit_of context_len limit [] = limit
limit_of context_len limit (r ∷ rs) =
    limit_of context_len (min limit (context_len - 1 - length r.input_ids)) rs

get_elem?-append_length {ℓ} :
    {A : Type ℓ} (xs ys : List A) (i : ℕ) (y : A)
    → length xs ≡ i
    → get_elem? (xs ++ y ∷ ys) i ≡ some y
get_elem?-append_length [] ys zero y e = refl
get_elem?-append_length [] ys (suc i) y e = absurd (omega arith)
get_elem?-append_length (x ∷ xs) ys zero y e = absurd (omega arith)
get_elem?-append_length (x ∷ xs) ys (suc i) y e = get_elem?-append_length xs ys i y (omega arith)

set-set {ℓ} : {A : Type ℓ} (xs : List A) (i : ℕ) (a b : A) → set (set xs i a) i b ≡ set xs i b
set-set [] i a b = refl
set-set (x ∷ xs) zero a b = refl
set-set (x ∷ xs) (suc i) a b = ap (◌∷◌ x) (set-set xs i a b)

set-get_elem? {ℓ} :
    {A : Type ℓ} (xs : List A) (i : ℕ) (a : A) → get_elem? xs i ≡ some a → set xs i a ≡ xs
set-get_elem? [] i a e = refl
set-get_elem? (x ∷ xs) zero a e = ground (arith, e)
set-get_elem? (x ∷ xs) (suc i) a e = ap (◌∷◌ x) (set-get_elem? xs i a e)

-- The server after it admitted `rs` with the limit lowered accordingly.
abbrev pub after : ℕ → ℕ → List Req → SamplingParams → Server → Server
after context_len ref rs s server = record server {
  forward_queue = server.forward_queue ++ rs;
  params =
      set server.params ref
        (record s { max_new_tokens = limit_of context_len s.max_new_tokens rs });
}

after-after :
    (context_len ref : ℕ) (r : Req) (rs : List Req) (s : SamplingParams) (server : Server)
    → after context_len ref rs (lowered context_len r s) (after context_len ref (r ∷ []) s server)
      ≡ after context_len ref (r ∷ rs) s server
after-after context_len ref r rs s server = simp (append_assoc, set-set)

module _ (context_len : ℕ) (recv_req : BatchTokenizedGenerateReqInput) where
  handle_one_lem :
      (i rid : ℕ) (text : String) (ids : List ℕ) (s : SamplingParams) (server : Server)
      → get_elem? recv_req.rid i ≡ some rid
      → get_elem? recv_req.input_text i ≡ some text
      → get_elem? recv_req.input_ids i ≡ some ids
      → get_elem? server.params recv_req.sampling_params ≡ some s
      → handle_one context_len recv_req i server ≡ (
        ok tt,
        after context_len recv_req.sampling_params
            (request_of context_len recv_req.sampling_params recv_req.return_logprob rid text ids
              ∷ [])
            s
            server,
      )
  unfolding handle_one Req.init
  handle_one_lem i rid text ids s server er et ei es = ground (arith, er, et, ei, es)

  -- The loop over the rest of the lists, after `i` rounds.
  handle_from_lem :
      (rids₀ rids : List ℕ) (texts₀ texts : List String) (idss₀ idss : List (List ℕ)) (i : ℕ)
      (s : SamplingParams) (server : Server)
      → recv_req.rid ≡ rids₀ ++ rids
      → recv_req.input_text ≡ texts₀ ++ texts
      → recv_req.input_ids ≡ idss₀ ++ idss
      → length rids₀ ≡ i
      → length texts₀ ≡ i
      → length idss₀ ≡ i
      → length texts ≡ length rids
      → length idss ≡ length rids
      → get_elem? server.params recv_req.sampling_params ≡ some s
      → handle_from context_len recv_req (length rids) i server ≡ (
        ok tt,
        after context_len recv_req.sampling_params
            (admitted context_len recv_req.sampling_params recv_req.return_logprob rids texts idss)
            s
            server,
      )
  unfolding handle_from
  handle_from_lem rids₀ [] texts₀ texts idss₀ idss i s server er et ei lr lt li mt mi es =
      ap₂ (λ q ps. (ok tt, record { forward_queue = q; params = ps }))
        (sym (append-nil server.forward_queue))
        (sym (set-get_elem? server.params recv_req.sampling_params s es))
  handle_from_lem rids₀ (rid ∷ rids) texts₀ [] idss₀ idss i s server er et ei lr lt li mt mi es =
      absurd (omega arith)
  handle_from_lem rids₀ (rid ∷ rids) texts₀ (text ∷ texts) idss₀ [] i s server er et ei lr lt li mt
        mi es =
      absurd (omega arith)
  handle_from_lem rids₀ (rid ∷ rids) texts₀ (text ∷ texts) idss₀ (ids ∷ idss) i s server er et ei lr
        lt li mt mi es =
      let ref = recv_req.sampling_params in
      let req = request_of context_len ref recv_req.return_logprob rid text ids in
      let s' = lowered context_len req s in
      let server' = after context_len ref (req ∷ []) s server in
      let one =
        handle_one_lem i rid text ids s server
          (ap (λ l. get_elem? l i) er ∙ get_elem?-append_length rids₀ rids i rid lr)
          (ap (λ l. get_elem? l i) et ∙ get_elem?-append_length texts₀ texts i text lt)
          (ap (λ l. get_elem? l i) ei ∙ get_elem?-append_length idss₀ idss i ids li) es in
      let rest =
        handle_from_lem (rids₀ ++ rid ∷ []) rids (texts₀ ++ text ∷ []) texts (idss₀ ++ ids ∷ [])
          idss (i + 1) s' server' (er ∙ sym (append_assoc rids₀ (rid ∷ []) rids))
          (et ∙ sym (append_assoc texts₀ (text ∷ []) texts))
          (ei ∙ sym (append_assoc idss₀ (ids ∷ []) idss))
          (omega (arith, length-append rids₀ (rid ∷ [])))
          (omega (arith, length-append texts₀ (text ∷ [])))
          (omega (arith, length-append idss₀ (ids ∷ []))) (omega arith) (omega arith)
          (get_elem?-set_self server.params ref s s' es) in
      >>=-ok (handle_one context_len recv_req i)
        (λ _. handle_from context_len recv_req (length rids) (i + 1)) server one
      ∙ rest
      ∙ ap (λ (st : Server). (ok tt, st))
          (after-after context_len ref req
            (admitted context_len ref recv_req.return_logprob rids texts idss) s server)

-- A well-formed batch is admitted whole and in order: one request for each identifier, text and
-- prompt, behind the queue. Its prompt is cut to one token less than the context, and it has no
-- output yet. The shared parameters are lowered to the least limit that any of the prompts leaves.
pub handle_batch_generate_request_lem :
    (context_len : ℕ) (recv_req : BatchTokenizedGenerateReqInput) (s : SamplingParams)
    (server : Server)
    → length recv_req.input_text ≡ length recv_req.rid
    → length recv_req.input_ids ≡ length recv_req.rid
    → get_elem? server.params recv_req.sampling_params ≡ some s
    → handle_batch_generate_request context_len recv_req server ≡ (
      ok tt,
      after context_len recv_req.sampling_params
          (admitted context_len recv_req.sampling_params recv_req.return_logprob recv_req.rid
            recv_req.input_text recv_req.input_ids)
          s
          server,
    )
unfolding handle_batch_generate_request
handle_batch_generate_request_lem context_len recv_req s server mt mi es =
    handle_from_lem context_len recv_req [] recv_req.rid [] recv_req.input_text []
      recv_req.input_ids 0 s server refl refl refl refl refl refl mt mi es

-- A limit that fits every request: prompt and answer stay within the context.
abbrev pub Fits : ℕ → ℕ → Req → Type 0
Fits context_len limit r = length r.input_ids + limit ≤ context_len - 1

limit_of-le : (context_len limit : ℕ) (rs : List Req) → limit_of context_len limit rs ≤ limit
limit_of-le context_len limit [] = omega arith
limit_of-le context_len limit (r ∷ rs) =
    omega (arith, limit_of-le context_len (min limit (context_len - 1 - length r.input_ids)) rs)

Fits-le :
    (context_len m n : ℕ) (rs : List Req)
    → m ≤ n
    → All (Fits context_len n) rs
    → All (Fits context_len m) rs
Fits-le context_len m n [] h a = tt
Fits-le context_len m n (r ∷ rs) h a = (omega (arith, a.0), Fits-le context_len m n rs h a.1)

length-take_bound {ℓ} : {A : Type ℓ} (n : ℕ) (xs : List A) → length (take n xs) ≤ n
length-take_bound zero xs = omega arith
length-take_bound (suc n) [] = omega arith
length-take_bound (suc n) (x ∷ xs) = omega (arith, length-take_bound n xs)

-- Whatever the prompts, with the limit left in the shared parameters every admitted request has
-- room for its prompt and its answer in the context, and the limit is not above the given one.
pub admitted-Fits :
    (context_len ref limit : ℕ) (flag : Bool) (rids : List ℕ) (texts : List String)
    (idss : List (List ℕ))
    → let rs = admitted context_len ref flag rids texts idss in
      All (Fits context_len (limit_of context_len limit rs)) rs
      × (limit_of context_len limit rs ≤ limit)
admitted-Fits context_len ref limit flag [] texts idss = (tt, omega arith)
admitted-Fits context_len ref limit flag (rid ∷ rids) [] idss = (tt, omega arith)
admitted-Fits context_len ref limit flag (rid ∷ rids) (text ∷ texts) [] = (tt, omega arith)
admitted-Fits context_len ref limit flag (rid ∷ rids) (text ∷ texts) (ids ∷ idss) =
    let r = request_of context_len ref flag rid text ids in
    let rs = admitted context_len ref flag rids texts idss in
    let limit' = min limit (context_len - 1 - length r.input_ids) in
    let (rest, below) = admitted-Fits context_len ref limit' flag rids texts idss in
    ((omega (arith, below, length-take_bound (context_len - 1) ids), rest), omega (arith, below))

length-admitted :
    (context_len ref : ℕ) (flag : Bool) (rids : List ℕ) (texts : List String) (idss : List (List ℕ))
    → length texts ≡ length rids
    → length idss ≡ length rids
    → length (admitted context_len ref flag rids texts idss) ≡ length rids
length-admitted context_len ref flag [] texts idss e f = refl
length-admitted context_len ref flag (rid ∷ rids) [] idss e f = absurd (omega arith)
length-admitted context_len ref flag (rid ∷ rids) (text ∷ texts) [] e f = absurd (omega arith)
length-admitted context_len ref flag (rid ∷ rids) (text ∷ texts) (ids ∷ idss) e f =
    ap suc (length-admitted context_len ref flag rids texts idss (omega arith) (omega arith))

-- After a well-formed batch the queue has one more request for each identifier, and with the limit
-- that is left in the shared parameters, which is not above the given one, each of them has room
-- for its prompt and its answer in the context.
pub handle_batch_generate_request-Fits :
    (context_len : ℕ) (recv_req : BatchTokenizedGenerateReqInput) (s : SamplingParams)
    (server : Server)
    → length recv_req.input_text ≡ length recv_req.rid
    → length recv_req.input_ids ≡ length recv_req.rid
    → get_elem? server.params recv_req.sampling_params ≡ some s
    → let (result, server') = handle_batch_generate_request context_len recv_req server in
      (rs : List Req) × (s' : SamplingParams) × (result ≡ ok tt)
      × (server'.forward_queue ≡ server.forward_queue ++ rs)
      × (length rs ≡ length recv_req.rid)
      × (get_elem? server'.params recv_req.sampling_params ≡ some s')
      × All (Fits context_len s'.max_new_tokens) rs
      × (s'.max_new_tokens ≤ s.max_new_tokens)
handle_batch_generate_request-Fits context_len recv_req s server mt mi es =
    let ref = recv_req.sampling_params in
    let rs =
      admitted context_len ref recv_req.return_logprob recv_req.rid recv_req.input_text
        recv_req.input_ids in
    let s' : SamplingParams = record s {
      max_new_tokens = limit_of context_len s.max_new_tokens rs;
    } in
    let (fits, below) =
      admitted-Fits context_len ref s.max_new_tokens recv_req.return_logprob recv_req.rid
        recv_req.input_text recv_req.input_ids in
    rw (handle_batch_generate_request_lem context_len recv_req s server mt mi es) (
      rs,
      s',
      refl,
      refl,
      length-admitted context_len ref recv_req.return_logprob recv_req.rid recv_req.input_text
          recv_req.input_ids mt mi,
      get_elem?-set_self server.params ref s s' es,
      fits,
      below,
    )
