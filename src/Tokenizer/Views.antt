-- ===== src/Tokenizer/Views.antt =====
-- The objects of fastmoe/serve/tokenizer_manager.py as a request's identifier finds them.
use harvest_mo_e.Base.{
  ℕ, zero, suc, ◌<◌, ◌≡◌, refl, ap, false, List, [], ◌∷◌, Option, none, some, if◌then◌else◌, length,
  length-append, get_elem?, ◌==◌, arith,
}
use harvest_mo_e.Base.Dict.{lookup, lookup-insert}
use harvest_mo_e.Tokenizer.{ReqState, TokenizerManager, modify_at, add_request, add_requests}

-- The object of an identifier.
abbrev pub view : TokenizerManager → ℕ → Option ReqState
view m rid = elim (lookup rid m.rid_to_state) [ none ↦ none | some ref ↦ get_elem? m.states ref ]

-- Each identifier leads to an object, and two identifiers never lead to the same one.
pub record HasOwnStates (m : TokenizerManager) : Type 0 where
  pub own :
      (j k ref : ℕ)
      → lookup j m.rid_to_state ≡ some ref
      → lookup k m.rid_to_state ≡ some ref
      → j ≡ k
  pub within : (j ref : ℕ) → lookup j m.rid_to_state ≡ some ref → ref < length m.states

pub get_elem?-modify_at :
    (f : ReqState → ReqState) (ref other : ℕ) (states : List ReqState)
    → get_elem? (modify_at f ref states) other ≡ (
        if other == ref
        then elim (get_elem? states other) [ none ↦ none | some state ↦ some (f state) ]
        else get_elem? states other)
get_elem?-modify_at f ref other [] = ground arith
get_elem?-modify_at f zero zero (state ∷ states) = ground arith
get_elem?-modify_at f zero (suc other) (state ∷ states) = ground arith
get_elem?-modify_at f (suc ref) zero (state ∷ states) = ground arith
get_elem?-modify_at f (suc ref) (suc other) (state ∷ states) =
    ground (arith, get_elem?-modify_at f ref other states)

pub length-modify_at :
    (f : ReqState → ReqState) (ref : ℕ) (states : List ReqState)
    → length (modify_at f ref states) ≡ length states
length-modify_at f ref [] = refl
length-modify_at f zero (state ∷ states) = refl
length-modify_at f (suc ref) (state ∷ states) = ap suc (length-modify_at f ref states)

-- One new request.
pub add_request-HasOwnStates :
    (rid : ℕ) (m : TokenizerManager) → HasOwnStates m → HasOwnStates (add_request rid m).1
unfolding add_request
add_request-HasOwnStates rid m h =
    let fresh = length m.states in
    let size =
      length-append m.states (record { out_list = []; finished = false; event = false } ∷ []) in
    record {
      own = λ j k ref e e'. ground (
        arith,
        e,
        e',
        lookup-insert j rid fresh m.rid_to_state,
        lookup-insert k rid fresh m.rid_to_state,
        h.own j k ref,
        h.within j ref,
        h.within k ref,
      );
      within = λ j ref e.
          ground (arith, e, size, lookup-insert j rid fresh m.rid_to_state, h.within j ref);
    }

-- New requests get objects of their own: where each identifier leads to an object and two never lead
-- to the same one, this holds afterwards, also where an identifier is given twice or is known.
pub add_requests-HasOwnStates :
    (rids : List ℕ) (m : TokenizerManager) → HasOwnStates m → HasOwnStates (add_requests rids m).1
unfolding add_requests add_request
add_requests-HasOwnStates [] m h = h
add_requests-HasOwnStates (rid ∷ rids) m h =
    add_requests-HasOwnStates rids (add_request rid m).1 (add_request-HasOwnStates rid m h)
