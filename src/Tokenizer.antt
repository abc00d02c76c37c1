-- ===== src/Tokenizer.antt =====
-- `TokenizerManager` of fastmoe/serve/tokenizer_manager.py: the objects of the requests that wait for
-- their outputs, which `handle_loop` writes and the coroutines of `generate_request` read. A
-- coroutine keeps a reference to its object, so that the objects stand in a store.
pub mod Views
pub mod Answers
pub mod Outputs
pub mod Stream
mod Tests
use harvest_mo_e.Base.{
  ℕ, zero, suc, ◌+◌, Bool, true, false, not, List, [], ◌∷◌, ◌++◌, Option, none, some, if◌then◌else◌,
  length, get_elem?, ◌==◌,
}
use harvest_mo_e.Base.Dict.{Dict, lookup, insert, erase}
use harvest_mo_e.Base.Action.{
  Error, Result, ok, raise, blocked, Action, pure, gets, or_raise, raise_if, modify, ◌>>=◌, ◌>>◌,
}
use harvest_mo_e.Detokenizer.{Text, BatchStrOut}

-- The dictionary of an output: `meta_info` has the request's identifier and two counts.
pub record OutDict : Type 0 where
  pub text : Text
  pub id : ℕ
  pub prompt_tokens : ℕ
  pub completion_tokens : ℕ

-- An object of a request; its lock is never taken.
pub record ReqState : Type 0 where
  pub out_list : List OutDict
  pub finished : Bool
  pub event : Bool

pub record TokenizerManager : Type 0 where
  pub states : List ReqState
  pub rid_to_state : Dict ℕ

abbrev pub last : {A : Type 0} → List A → Option A
last [] = none
last (x ∷ []) = some x
last (x ∷ y ∷ xs) = last (y ∷ xs)

-- The write of an object in the store.
abbrev pub modify_at : (ReqState → ReqState) → ℕ → List ReqState → List ReqState
modify_at f ref [] = []
modify_at f zero (state ∷ states) = f state ∷ states
modify_at f (suc ref) (state ∷ states) = state ∷ modify_at f ref states

abbrev pub update : (ReqState → ReqState) → ℕ → Action TokenizerManager (Unit {0})
update f ref = modify (λ m. record m { states = modify_at f ref m.states })

-- `state.out_list.append(out_dict)`
unfoldable pub append_output : OutDict → ReqState → ReqState
append_output out state = record state { out_list = state.out_list ++ out ∷ [] }

-- `state.finished = finished`, and the event is set.
unfoldable pub set_finished : Bool → ReqState → ReqState
set_finished finished state = record state { finished = finished; event = true }

-- A new request: a new object under its identifier. Its reference is returned.
unfoldable pub add_request : ℕ → Action TokenizerManager ℕ
add_request rid m = (
  ok (length m.states),
  record {
    states = m.states ++ record { out_list = []; finished = false; event = false } ∷ [];
    rid_to_state = insert rid (length m.states) m.rid_to_state;
  },
)

unfoldable pub add_requests : List ℕ → Action TokenizerManager (Unit {0})
unfolding add_request
add_requests [] = pure tt
add_requests (rid ∷ rids) = add_request rid >> add_requests rids

-- One round of `handle_loop`, for the request at a place of the answer.
unfoldable pub handle_output : BatchStrOut → (i rid : ℕ) → Action TokenizerManager (Unit {0})
unfolding append_output set_finished
handle_output out i rid = do
  prompt_tokens ← or_raise (get_elem? out.prompt_tokens i) Error.index_error
  completion_tokens ← or_raise (get_elem? out.completion_tokens i) Error.index_error
  text ← or_raise (get_elem? out.output_str i) Error.index_error
  refs ← gets (λ m. lookup rid m.rid_to_state)
  ref ← or_raise refs Error.key_error
  update
      (append_output (record {
        text = text;
        id = rid;
        prompt_tokens = prompt_tokens;
        completion_tokens = completion_tokens;
      }))
      ref
  finished ← or_raise (get_elem? out.finished i) Error.index_error
  update (set_finished finished) ref

-- `for i, rid in enumerate(rids)`, from an index on.
unfoldable pub handle_outputs : BatchStrOut → ℕ → List ℕ → Action TokenizerManager (Unit {0})
unfolding handle_output
handle_outputs out i [] = pure tt
handle_outputs out i (rid ∷ rids) = handle_output out i rid >> handle_outputs out (suc i) rids

unfoldable pub handle_recv : BatchStrOut → Action TokenizerManager (Unit {0})
unfolding handle_outputs
handle_recv out = handle_outputs out 0 out.rids

-- The object of an identifier, for the coroutine of a list of requests.
unfoldable pub find_state : ℕ → Action TokenizerManager ReqState
find_state rid = do
  refs ← gets (λ m. lookup rid m.rid_to_state)
  ref ← or_raise refs Error.key_error
  states ← gets (λ m. get_elem? m.states ref)
  or_raise states Error.index_error

-- The last loop of `generate_request` for a list of requests, once the event of a request is set:
-- its last output.
unfoldable pub take_output : ℕ → Action TokenizerManager OutDict
unfolding find_state
take_output rid = do
  state ← find_state rid
  out ← or_raise (last state.out_list) Error.index_error
  raise_if (not state.finished) Error.assertion_error
  modify (λ m. record m { rid_to_state = erase rid m.rid_to_state })
  pure out

unfoldable pub take_outputs : List ℕ → Action TokenizerManager (List OutDict)
unfolding take_output
take_outputs [] = pure []
take_outputs (rid ∷ rids) = do out ← take_output rid; outs ← take_outputs rids; pure (out ∷ outs)
