-- ===== src/Requests/Tests.antt =====
-- Runs of the request handlers, and each theorem at concrete inputs.
use harvest_mo_e.Base.{
  ℕ, ◌+◌, arith, not, if◌then◌else◌, ◌⊎◌, ◌≡◌, refl, true, false, none, some, [], ◌∷◌, length,
}
use harvest_mo_e.Base.Action.{Error, ok, raise}
use harvest_mo_e.Requests.Req
use harvest_mo_e.Requests.Req.{Req, SamplingParams, FinishReason, check_finished, last?, finish}
use harvest_mo_e.Requests.Admission.{
  Server, BatchTokenizedGenerateReqInput, handle_batch_generate_request, handle_from, handle_one,
}
use harvest_mo_e.Requests.Accepted.{after, admitted, handle_batch_generate_request_lem}
use harvest_mo_e.Requests.Decoding.{
  generate, first_token, next_token, decode_tokens, outcome, reason_of, generate_lem,
}
use harvest_mo_e.Requests.Input.{
  GenerateReqInput, one, many, post_init, IsFull, IsNamed, post_init_lem,
}
use harvest_mo_e.Base.Int.{ℤ, pos, negsuc, ltb_ℤ}
use harvest_mo_e.Requests.Sampling.{Floats, Sampling, init, verify, is_usable, verify-init}
use harvest_mo_e.Requests.Finishing.{Answers}

abbrev sampling : SamplingParams
sampling = record { max_new_tokens = 3; ignore_eos = false; skip_special_tokens = true }

abbrev recv : BatchTokenizedGenerateReqInput
recv = record {
  rid = 1 ∷ 2 ∷ [];
  input_text = "a" ∷ "b" ∷ [];
  input_ids = (5 ∷ 6 ∷ 7 ∷ []) ∷ (8 ∷ []) ∷ [];
  sampling_params = 0;
  return_logprob = false;
}

abbrev server : Server
server = record { forward_queue = []; params = sampling ∷ [] }

-- A context of five tokens: the prompt of three leaves one token for every request of the batch.
limit_runs :
    let (result, server') = handle_batch_generate_request 5 recv server in
    (result ≡ ok tt)
    × (length server'.forward_queue ≡ 2)
    × (server'.params ≡ record sampling { max_new_tokens = 1 } ∷ [])
unfolding handle_batch_generate_request handle_from handle_one Req.init
limit_runs = (refl, refl, refl)

handle_batch_generate_request_lem_example : handle_batch_generate_request 5 recv server ≡ (
  ok tt,
  after 5 0 (admitted 5 0 false recv.rid recv.input_text recv.input_ids) sampling server,
)
handle_batch_generate_request_lem_example =
    handle_batch_generate_request_lem 5 recv sampling server refl refl refl

abbrev request : Req
request = record {
  rid = 1;
  input_text = "a";
  input_ids = 5 ∷ 6 ∷ [];
  input_len = 2;
  output_ids = [];
  sampling_params = 0;
  return_logprob = false;
  finished = false;
  finish_reason = none;
}

-- Token 99 ends the text, and decoding goes on all the same.
eos_runs :
    generate sampling 99 4 (99 ∷ 5 ∷ []) request
    ≡ ok (record request {
      output_ids = 4 ∷ 99 ∷ 5 ∷ [];
      finished = true;
      finish_reason = some FinishReason.eos_token;
    })
unfolding generate first_token next_token decode_tokens check_finished
eos_runs = refl

generate_lem_example :
    generate sampling 99 4 (99 ∷ 5 ∷ []) request
    ≡ ok (outcome sampling 99 request (4 ∷ 99 ∷ 5 ∷ []) (reason_of sampling 99 0 (4 ∷ 99 ∷ 5 ∷ [])))
generate_lem_example = generate_lem sampling 99 4 (99 ∷ 5 ∷ []) request refl refl

abbrev done : Req
done = record request {
  rid = 2;
  output_ids = 9 ∷ [];
  finished = true;
  finish_reason = some FinishReason.abort;
}

abbrev store : ℕ → SamplingParams
store ref = sampling

abbrev answers : Answers
answers = record { out_pyobjs = []; reqs = request ∷ done ∷ [] }

-- Two texts with one set of parameters.
abbrev input : GenerateReqInput ℕ
input = record {
  text = many ("a" ∷ "b" ∷ []);
  sampling_params = some (one 7);
  rid = none;
  return_logprob = none;
  logprob_start_len = some (many (0 ∷ 1 ∷ []));
}

post_init_lem_example :
    (((x : ℕ) × (input.rid ≡ some (one x)))
      × (post_init 0 (λ i. i + 10) input ≡ raise Error.assertion_error))
    ⊎ ((obj : GenerateReqInput ℕ) × (post_init 0 (λ i. i + 10) input ≡ ok obj)
        × (obj.text ≡ many ("a" ∷ "b" ∷ []))
        × IsFull 2 0 input.sampling_params obj.sampling_params
        × IsNamed (λ i. i + 10) 2 input.rid obj.rid
        × IsFull 2 false input.return_logprob obj.return_logprob
        × IsFull 2 0 input.logprob_start_len obj.logprob_start_len)
post_init_lem_example = post_init_lem 0 (λ i. i + 10) ("a" ∷ "b" ∷ []) input refl tt tt tt refl

below_eps : (x : ℤ) → ltb_ℤ x (pos 0) ≡ true → ltb_ℤ x (pos 1) ≡ true
below_eps x h = ground (arith, h)

-- Floats as multiples of a millionth.
abbrev millionths : Floats ℤ
millionths = record {
  lt = ltb_ℤ;
  le = λ x y. not (ltb_ℤ y x);
  zero_point = pos 0;
  sampling_eps = pos 1;
  one_point = pos 1000000;
  two = pos 2000000;
  minus_two = negsuc 1999999;
  lt_eps = below_eps;
  one_not_lt = refl;
}

-- A negative temperature, and a top_k of 0 beside it.
abbrev negative : Sampling ℤ
negative = record {
  max_new_tokens = pos 16;
  stop_strs = none;
  temperature = negsuc 0;
  top_p = pos 1000000;
  top_k = pos 0;
  frequency_penalty = pos 0;
  presence_penalty = pos 0;
  is_int = false;
}

negative_is_verified : verify millionths (init millionths negative) ≡ ok tt
unfolding verify init
negative_is_verified = refl

verify-init_example :
    verify millionths (init millionths negative)
    ≡ (if is_usable millionths negative then ok tt else raise Error.value_error)
verify-init_example = verify-init millionths negative
