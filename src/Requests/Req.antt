-- ===== src/Requests/Req.antt =====
-- `class Req` of fastmoe/backend/task.py. Request identifiers are only compared, so they are
-- numbers; the tokenizer enters by its end-of-sequence token.
use Prim.Native.String.{String}
use harvest_mo_e.Base.{
  ℕ, Bool, true, false, not, ◌&&◌, Option, none, some, List, [], ◌∷◌, leb, ◌==◌, if◌then◌else◌,
  length,
}
use harvest_mo_e.Base.Action.{Error, Result, ok, raise}

pub data FinishReason : Type 0 where
  abort length_reached eos_token stop_str : FinishReason

-- What the server reads of `SamplingParams`.
pub record SamplingParams : Type 0 where
  pub max_new_tokens : ℕ
  pub ignore_eos : Bool
  pub skip_special_tokens : Bool

-- `sampling_params` is a reference: requests of one batch share the object.
pub record Req : Type 0 where
  pub rid : ℕ
  pub input_text : String
  pub input_ids : List ℕ
  pub input_len : ℕ
  pub output_ids : List ℕ
  pub sampling_params : ℕ
  pub return_logprob : Bool
  pub finished : Bool
  pub finish_reason : Option FinishReason

-- `Req.__init__`, with the parameters and flags that the server sets right after it.
unfoldable pub init : ℕ → String → List ℕ → ℕ → Bool → Req
init rid input_text input_ids sampling_params return_logprob = record {
  rid = rid;
  input_text = input_text;
  input_ids = input_ids;
  input_len = length input_ids;
  output_ids = [];
  sampling_params = sampling_params;
  return_logprob = return_logprob;
  finished = false;
  finish_reason = none;
}

abbrev pub finish : FinishReason → Req → Req
finish reason r = record r { finished = true; finish_reason = some reason }

-- `self.output_ids[-1]`
abbrev pub last? : List ℕ → Option ℕ
last? [] = none
last? (x ∷ []) = some x
last? (x ∷ y ∷ xs) = last? (y ∷ xs)

unfoldable pub check_finished : SamplingParams → ℕ → Req → Result Req
check_finished params eos_token_id r =
    if r.finished
    then ok r
    else if leb params.max_new_tokens (length r.output_ids)
    then ok (finish FinishReason.length_reached r)
    else elim (last? r.output_ids) [
      | none ↦ raise Error.index_error
      | some token ↦ ok (
          if token == eos_token_id && not params.ignore_eos
          then finish FinishReason.eos_token r
          else r)
    ]

-- `Req.abort`
unfoldable pub abort_req : Req → Req
abort_req r = finish FinishReason.abort r
