-- ===== src/Tokenizer/Answers.antt =====
-- What an answer makes of the objects of fastmoe/serve/tokenizer_manager.py.
use harvest_mo_e.Base.{
  ℕ, suc, ◌≡◌, ◌∙◌, inl, inr, refl, ap, sym, Bool, true, false, List, [], ◌∷◌, Option, none, some,
  if◌then◌else◌, get_elem?, ◌==◌, arith, Option-cases,
}
use harvest_mo_e.Base.Distinct.{contains, IsDistinct}
use harvest_mo_e.Base.Dict.{lookup}
use harvest_mo_e.Base.Action.{ok, >>=-ok}
use harvest_mo_e.Detokenizer.{BatchStrOut}
use harvest_mo_e.Tokenizer.{
  OutDict, ReqState, TokenizerManager, modify_at, append_output, set_finished, handle_output,
  handle_outputs,
}
use harvest_mo_e.Tokenizer.Views.{view, HasOwnStates, get_elem?-modify_at, length-modify_at}

-- The output at a place of an answer.
abbrev pub output_at : BatchStrOut → (i rid : ℕ) → Option (OutDict × Bool)
output_at out i rid = elim (get_elem? out.prompt_tokens i) [
  | none ↦ none
  | some prompt ↦ elim (get_elem? out.completion_tokens i) [
    | none ↦ none
    | some completion ↦ elim (get_elem? out.output_str i) [
      | none ↦ none
      | some text ↦ elim (get_elem? out.finished i) [
        | none ↦ none
        | some finished ↦ some (
          record { text = text; id = rid; prompt_tokens = prompt; completion_tokens = completion },
          finished,
        )
      ]
    ]
  ]
]

-- The output of a request, where the identifiers stand from place `i` on.
abbrev pub output_for : BatchStrOut → ℕ → List ℕ → ℕ → Option (OutDict × Bool)
output_for out i [] j = none
output_for out i (rid ∷ rids) j =
    if j == rid then output_at out i rid else output_for out (suc i) rids j

abbrev pub received : OutDict → Bool → ReqState → ReqState
received out finished state = set_finished finished (append_output out state)

abbrev pub write : OutDict → Bool → ℕ → TokenizerManager → TokenizerManager
write out finished ref m = record m {
  states = modify_at (set_finished finished) ref (modify_at (append_output out) ref m.states);
}

handle_output_lem :
    (out : BatchStrOut) (i rid ref : ℕ) (m : TokenizerManager) (d : OutDict) (finished : Bool)
    → lookup rid m.rid_to_state ≡ some ref
    → output_at out i rid ≡ some (d, finished)
    → handle_output out i rid m ≡ (ok tt, write d finished ref m)
unfolding handle_output
handle_output_lem out i rid ref m d finished known e =
    elim (Option-cases (get_elem? out.prompt_tokens i)) [
      | inl none₁ ↦ ground (arith, none₁, e)
      | inr (p, some₁) ↦ elim (Option-cases (get_elem? out.completion_tokens i)) [
        | inl none₂ ↦ ground (arith, some₁, none₂, e)
        | inr (c, some₂) ↦ elim (Option-cases (get_elem? out.output_str i)) [
          | inl none₃ ↦ ground (arith, some₁, some₂, none₃, e)
          | inr (t, some₃) ↦ elim (Option-cases (get_elem? out.finished i)) [
            | inl none₄ ↦ ground (arith, some₁, some₂, some₃, none₄, e)
            | inr (f, some₄) ↦ ground (arith, some₁, some₂, some₃, some₄, known, e)
          ]
        ]
      ]
    ]

view-write :
    (d : OutDict) (finished : Bool) (rid ref j : ℕ) (m : TokenizerManager)
    → HasOwnStates m
    → lookup rid m.rid_to_state ≡ some ref
    → view (write d finished ref m) j ≡ (
        if j == rid
        then elim (view m j) [ none ↦ none | some state ↦ some (received d finished state) ]
        else view m j)
view-write d finished rid ref j m own known = elim (Option-cases (lookup j m.rid_to_state)) [
  | inl missing ↦ ground (arith, missing, known)
  | inr (ref', found) ↦ ground (
    arith,
    found,
    known,
    own.own j rid ref,
    get_elem?-modify_at (set_finished finished) ref ref' (modify_at (append_output d) ref m.states),
    get_elem?-modify_at (append_output d) ref ref' m.states,
  )
]

write-HasOwnStates :
    (d : OutDict) (finished : Bool) (ref : ℕ) (m : TokenizerManager)
    → HasOwnStates m
    → HasOwnStates (write d finished ref m)
write-HasOwnStates d finished ref m h = record {
  own = h.own;
  within = λ j other e. omega (
    arith,
    h.within j other e,
    length-modify_at (set_finished finished) ref (modify_at (append_output d) ref m.states),
    length-modify_at (append_output d) ref m.states,
  );
}

-- The identifiers of an answer: each is known, and has an output.
abbrev pub AllAnswered : BatchStrOut → TokenizerManager → ℕ → List ℕ → Type 0
AllAnswered out m i [] = Unit
AllAnswered out m i (rid ∷ rids) =
    ((ref : ℕ) × (lookup rid m.rid_to_state ≡ some ref))
    × ((d : OutDict) × (finished : Bool) × (output_at out i rid ≡ some (d, finished)))
    × AllAnswered out m (suc i) rids

-- What an answer makes of the object of an identifier.
abbrev pub answered : Option (OutDict × Bool) → Option ReqState → Option ReqState
answered none state = state
answered (some (d, finished)) none = none
answered (some (d, finished)) (some state) = some (received d finished state)

AllAnswered-same :
    (out : BatchStrOut) (m m' : TokenizerManager) (i : ℕ) (rids : List ℕ)
    → m'.rid_to_state ≡ m.rid_to_state
    → AllAnswered out m i rids
    → AllAnswered out m' i rids
AllAnswered-same out m m' i [] e a = tt
AllAnswered-same out m m' i (rid ∷ rids) e ((ref, known), found, rest) =
    ((ref, rw e known), found, AllAnswered-same out m m' (suc i) rids e rest)

output_for-absent :
    (out : BatchStrOut) (i : ℕ) (rids : List ℕ) (j : ℕ)
    → contains rids j ≡ false
    → output_for out i rids j ≡ none
output_for-absent out i [] j h = refl
output_for-absent out i (rid ∷ rids) j h = ground (arith, output_for-absent out (suc i) rids j)

answered_step :
    (same : Bool) (rest : Option (OutDict × Bool)) (state state₁ : Option ReqState) (d : OutDict)
    (finished : Bool)
    → (same ≡ true → rest ≡ none)
    → state₁
      ≡ (if same then elim state [ none ↦ none | some r ↦ some (received d finished r) ] else state)
    → answered rest state₁ ≡ answered (if same then some (d, finished) else rest) state
answered_step false rest state state₁ d finished gone e = ap (answered rest) e
answered_step true rest none state₁ d finished gone e = rw (gone refl) e
answered_step true rest (some r) state₁ d finished gone e = rw (gone refl) e

pub handle_outputs_lem :
    (out : BatchStrOut) (i : ℕ) (rids : List ℕ) (m : TokenizerManager)
    → HasOwnStates m
    → IsDistinct rids
    → AllAnswered out m i rids
    → (m' : TokenizerManager) × (handle_outputs out i rids m ≡ (ok tt, m'))
      × (m'.rid_to_state ≡ m.rid_to_state)
      × ((j : ℕ) → view m' j ≡ answered (output_for out i rids j) (view m j))
unfolding handle_outputs
handle_outputs_lem out i [] m own distinct all = (m, refl, refl, λ j. refl)
handle_outputs_lem out i (rid ∷ rids) m own distinct ((ref, known), (d, finished, e), all) =
    let m₁ = write d finished ref m in
    let own₁ = write-HasOwnStates d finished ref m own in
    let (m', done, same, views) =
      handle_outputs_lem out (suc i) rids m₁ own₁ distinct.1
        (AllAnswered-same out m m₁ (suc i) rids refl all) in
    (
      m',
      >>=-ok (handle_output out i rid) (λ _. handle_outputs out (suc i) rids) m
            (handle_output_lem out i rid ref m d finished known e)
          ∙ done,
      same,
      λ j.
          views j
          ∙ answered_step (j == rid) (output_for out (suc i) rids j) (view m j) (view m₁ j) d
              finished (λ h. output_for-absent out (suc i) rids j (ground (arith, distinct.0, h)))
              (view-write d finished rid ref j m own known)
          ∙ ap
              (λ found.
                answered (if j == rid then found else output_for out (suc i) rids j) (view m j))
              (sym e),
    )
