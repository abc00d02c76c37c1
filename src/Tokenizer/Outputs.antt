-- ===== src/Tokenizer/Outputs.antt =====
-- The outputs that fastmoe/serve/tokenizer_manager.py hands back for a list of requests.
use harvest_mo_e.Base.{
  ℕ, ◌≡◌, ◌∙◌, inl, inr, refl, ap, true, false, List, [], ◌∷◌, ◌++◌, some, arith, Option-cases,
}
use harvest_mo_e.Base.Distinct.{contains, IsDistinct}
use harvest_mo_e.Base.Dict.{lookup, erase, lookup-erase_ne}
use harvest_mo_e.Base.Action.{ok, ◌>>◌, >>=-ok}
use harvest_mo_e.Detokenizer.{BatchStrOut}
use harvest_mo_e.Tokenizer.{
  OutDict, ReqState, TokenizerManager, last, append_output, set_finished, handle_outputs,
  handle_recv, take_output, take_outputs,
}
use harvest_mo_e.Tokenizer.Views.{view, HasOwnStates}
use harvest_mo_e.Tokenizer.Answers.{output_for, received, AllAnswered, answered, handle_outputs_lem}

pub last-append : {A : Type 0} (xs : List A) (x : A) → last (xs ++ x ∷ []) ≡ some x
last-append [] x = refl
last-append (y ∷ []) x = refl
last-append (y ∷ z ∷ xs) x = last-append (z ∷ xs) x

-- The objects of a list of identifiers have these last outputs, and are finished.
abbrev AllReady : TokenizerManager → List ℕ → List OutDict → Type 0
AllReady m [] outs = outs ≡ []
AllReady m (rid ∷ rids) [] = ⊥
AllReady m (rid ∷ rids) (out ∷ outs) =
    ((state : ReqState) × (view m rid ≡ some state)
      × (last state.out_list ≡ some out)
      × (state.finished ≡ true))
    × AllReady m rids outs

forget : ℕ → TokenizerManager → TokenizerManager
forget rid m = record m { rid_to_state = erase rid m.rid_to_state }

take_output_lem :
    (rid : ℕ) (m : TokenizerManager) (state : ReqState) (out : OutDict)
    → view m rid ≡ some state
    → last state.out_list ≡ some out
    → state.finished ≡ true
    → take_output rid m ≡ (ok out, forget rid m)
unfolding take_output forget
take_output_lem rid m state out e is_last finished =
    elim (Option-cases (lookup rid m.rid_to_state)) [
      | inl missing ↦ ground (arith, missing, e)
      | inr (ref, found) ↦ ground (arith, found, e, is_last, finished)
    ]

AllReady-forget :
    (m : TokenizerManager) (rid : ℕ) (rids : List ℕ) (outs : List OutDict)
    → contains rids rid ≡ false
    → AllReady m rids outs
    → AllReady (forget rid m) rids outs
unfolding forget
AllReady-forget m rid [] outs apart ready = ready
AllReady-forget m rid (other ∷ rids) [] apart ready = ready
AllReady-forget m rid (other ∷ rids) (out ∷ outs) apart ((state, e, is_last, finished), rest) =
    let kept : lookup other (erase rid m.rid_to_state) ≡ lookup other m.rid_to_state =
      lookup-erase_ne other rid m.rid_to_state (λ same. ground (arith, apart, same)) in
    (
      (state, ground (arith, kept, e), is_last, finished),
      AllReady-forget m rid rids outs (ground (arith, apart)) rest,
    )

take_outputs_lem :
    (rids : List ℕ) (m : TokenizerManager) (outs : List OutDict)
    → IsDistinct rids
    → AllReady m rids outs
    → (m' : TokenizerManager) × (take_outputs rids m ≡ (ok outs, m'))
unfolding take_outputs
take_outputs_lem [] m outs distinct ready = (m, rw ready refl)
take_outputs_lem (rid ∷ rids) m [] distinct ready = elim ready [ ]
take_outputs_lem (rid ∷ rids) m (out ∷ outs) distinct ((state, e, is_last, finished), rest) =
    let (m', done) =
      take_outputs_lem rids (forget rid m) outs distinct.1
        (AllReady-forget m rid rids outs distinct.0 rest) in
    (m', ground (arith, take_output_lem rid m state out e is_last finished, done))

-- For each of these identifiers there is an object, and the answer has this output, the last one.
abbrev pub AllFinished : BatchStrOut → TokenizerManager → List ℕ → List OutDict → Type 0
AllFinished out m [] outs = outs ≡ []
AllFinished out m (rid ∷ rids) [] = ⊥
AllFinished out m (rid ∷ rids) (d ∷ outs) =
    ((state : ReqState) × (view m rid ≡ some state)
      × (output_for out 0 out.rids rid ≡ some (d, true)))
    × AllFinished out m rids outs

AllFinished-ready :
    (out : BatchStrOut) (m m' : TokenizerManager) (rids : List ℕ) (outs : List OutDict)
    → ((j : ℕ) → view m' j ≡ answered (output_for out 0 out.rids j) (view m j))
    → AllFinished out m rids outs
    → AllReady m' rids outs
unfolding append_output set_finished
AllFinished-ready out m m' [] outs views all = all
AllFinished-ready out m m' (rid ∷ rids) [] views all = elim all [ ]
AllFinished-ready out m m' (rid ∷ rids) (d ∷ outs) views ((state, known, found), rest) = (
  (
    received d true state,
    views rid ∙ ap (λ o. answered o (view m rid)) found ∙ ap (answered (some (d, true))) known,
    last-append state.out_list d,
    refl,
  ),
  AllFinished-ready out m m' rids outs views rest,
)

-- No two identifiers share an object, the answer names no request twice, and all of its requests are
-- known and have an output in it. Then `handle_loop` takes the answer, and a coroutine that waits
-- for different requests of the answer, whose outputs are the last ones, gets the output of each of
-- them, in its own order.
pub handle_recv-take_outputs :
    (out : BatchStrOut) (m : TokenizerManager) (rids : List ℕ) (outs : List OutDict)
    → HasOwnStates m
    → IsDistinct out.rids
    → AllAnswered out m 0 out.rids
    → IsDistinct rids
    → AllFinished out m rids outs
    → (m' : TokenizerManager) × ((handle_recv out >> take_outputs rids) m ≡ (ok outs, m'))
unfolding handle_recv
handle_recv-take_outputs out m rids outs own distinct all distinct' finished =
    let (m₁, done, same, views) = handle_outputs_lem out 0 out.rids m own distinct all in
    let (m', taken) =
      take_outputs_lem rids m₁ outs distinct'
        (AllFinished-ready out m m₁ rids outs views finished) in
    (m', >>=-ok (handle_outputs out 0 out.rids) (λ _. take_outputs rids) m done ∙ taken)
