-- ===== src/Requests/Decoding.antt =====
-- How a request collects its tokens: the loops over `batch.reqs` at the end of `layer` and
-- `post_attention` in fastmoe/backend/execution_engine.py.
use harvest_mo_e.Base.{
  ℕ, ◌+◌, ◌≤◌, ◌<◌, ◌≡◌, refl, ◌∙◌, Bool, true, false, not, ◌&&◌, Option, none, some, List, [], ◌∷◌,
  ◌++◌, arith, leb, ◌==◌, if◌then◌else◌, length, length-append,
}
use mathlib.Core.List.{append_assoc, append-nil}
use harvest_mo_e.Base.Action.{Result, ok, raise, blocked}
use harvest_mo_e.Requests.Req.{Req, SamplingParams, FinishReason, check_finished, last?}

module _ (params : SamplingParams) (eos_token_id : ℕ) where
  -- The first token, after the prefill.
  unfoldable pub first_token : ℕ → Req → Result Req
  unfolding check_finished
  first_token token r = check_finished params eos_token_id (record r { output_ids = token ∷ [] })

  -- One more token, after a decode step; a finished request is not left out.
  unfoldable pub next_token : ℕ → Req → Result Req
  unfolding check_finished
  next_token token r =
      check_finished params eos_token_id (record r { output_ids = r.output_ids ++ token ∷ [] })

  -- The decode steps of one request, with the tokens that they sample.
  unfoldable pub decode_tokens : List ℕ → Req → Result Req
  decode_tokens [] r = ok r
  decode_tokens (token ∷ tokens) r = elim (next_token token r) [
    | ok r' ↦ decode_tokens tokens r'
    | raise e ↦ raise e
    | blocked ↦ blocked
  ]

  -- A whole generation.
  unfoldable pub generate : ℕ → List ℕ → Req → Result Req
  unfolding first_token decode_tokens
  generate token tokens r = elim (first_token token r) [
    | ok r' ↦ decode_tokens tokens r'
    | raise e ↦ raise e
    | blocked ↦ blocked
  ]

  -- Why a generation stops: the first reason that holds, with `n` tokens before the list.
  abbrev pub reason_of : ℕ → List ℕ → Option FinishReason
  reason_of n [] = none
  reason_of n (token ∷ tokens) =
      if leb params.max_new_tokens (n + 1)
      then some FinishReason.length_reached
      else if token == eos_token_id && not params.ignore_eos
      then some FinishReason.eos_token
      else reason_of (n + 1) tokens

  abbrev pub is_some : Option FinishReason → Bool
  is_some none = false
  is_some (some _) = true

  -- The request with these tokens, stopped for this reason if there is one.
  abbrev pub outcome : Req → List ℕ → Option FinishReason → Req
  outcome r tokens reason = record r {
    output_ids = tokens;
    finished = is_some reason;
    finish_reason = reason;
  }

  last?-append : (xs : List ℕ) (x : ℕ) → last? (xs ++ x ∷ []) ≡ some x
  last?-append [] x = refl
  last?-append (y ∷ []) x = refl
  last?-append (y ∷ z ∷ ys) x = last?-append (z ∷ ys) x

  decode_finished :
      (r : Req) (done tokens : List ℕ) (reason : FinishReason)
      → decode_tokens tokens (outcome r done (some reason))
        ≡ ok (outcome r (done ++ tokens) (some reason))
  unfolding decode_tokens next_token
  decode_finished r done [] reason = simp append-nil
  decode_finished r done (token ∷ tokens) reason =
      decode_finished r (done ++ token ∷ []) tokens reason ∙ simp append_assoc

  decode_running :
      (r : Req) (done tokens : List ℕ)
      → decode_tokens tokens (outcome r done none)
        ≡ ok (outcome r (done ++ tokens) (reason_of (length done) tokens))
  unfolding decode_tokens next_token
  decode_running r done [] = simp append-nil
  decode_running r done (token ∷ tokens) = ground (
    arith,
    last?-append done token,
    length-append done (token ∷ []),
    append_assoc done (token ∷ []) tokens,
    decode_finished r (done ++ token ∷ []) tokens FinishReason.length_reached,
    decode_finished r (done ++ token ∷ []) tokens FinishReason.eos_token,
    decode_running r (done ++ token ∷ []) tokens,
  )

  -- A generation of an unfinished request never raises. It keeps every token, and stops for the
  -- first reason that holds on the way, which no later token changes.
  pub generate_lem :
      (token : ℕ) (tokens : List ℕ) (r : Req)
      → r.finished ≡ false
      → r.finish_reason ≡ none
      → generate token tokens r ≡ ok (outcome r (token ∷ tokens) (reason_of 0 (token ∷ tokens)))
  unfolding generate first_token
  generate_lem token tokens r f n = ground (
    arith,
    f,
    n,
    decode_finished r (token ∷ []) tokens FinishReason.length_reached,
    decode_finished r (token ∷ []) tokens FinishReason.eos_token,
    decode_running r (token ∷ []) tokens,
  )

reason_of_limit :
    (params : SamplingParams) (eos_token_id n : ℕ) (tokens : List ℕ)
    → params.max_new_tokens ≤ n + length tokens
    → 1 ≤ length tokens
    → is_some params eos_token_id (reason_of params eos_token_id n tokens) ≡ true
reason_of_limit params eos_token_id n [] h k = absurd (omega arith)
reason_of_limit params eos_token_id n (token ∷ []) h k = ground arith
reason_of_limit params eos_token_id n (token ∷ token' ∷ tokens) h k =
    ground (arith, reason_of_limit params eos_token_id (n + 1) (token' ∷ tokens))

-- Decoding does not stop at the limit: where a request is given more tokens than its limit, it
-- ends up finished, and returns more tokens than the limit allows.
pub generate_exceeds_limit :
    (params : SamplingParams) (eos_token_id token : ℕ) (tokens : List ℕ) (r : Req)
    → r.finished ≡ false
    → r.finish_reason ≡ none
    → params.max_new_tokens < 1 + length tokens
    → (r' : Req) × (generate params eos_token_id token tokens r ≡ ok r')
      × (r'.finished ≡ true)
      × (params.max_new_tokens < length r'.output_ids)
generate_exceeds_limit params eos_token_id token tokens r f n h = (
  outcome params eos_token_id r (token ∷ tokens) (reason_of params eos_token_id 0 (token ∷ tokens)),
  generate_lem params eos_token_id token tokens r f n,
  reason_of_limit params eos_token_id 0 (token ∷ tokens) (omega arith) (omega arith),
  omega arith,
)
