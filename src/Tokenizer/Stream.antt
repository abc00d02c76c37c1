-- ===== src/Tokenizer/Stream.antt =====
-- The coroutine of `generate_request` of fastmoe/serve/tokenizer_manager.py for one request, and the
-- outputs that `handle_loop` writes meanwhile. The coroutine stops at two places: where it awaits
-- the event, and where it yields an output, until its consumer asks for the next one.
use harvest_mo_e.Base.{
  ◌≡◌, ◌∙◌, ◌⊎◌, inl, inr, refl, sym, Bool, true, false, List, [], ◌∷◌, ◌++◌, some, if◌then◌else◌,
  Bool-cases, arith,
}
use harvest_mo_e.Tokenizer.{OutDict, ReqState, last, append_output, set_finished}
use harvest_mo_e.Tokenizer.Outputs.{last-append}

pub data Phase : Type 0 where
  waiting yielded done : Phase

abbrev pub new_state : ReqState
new_state = record { out_list = []; finished = false; event = false }

-- What follows the yield: the outputs are forgotten, and the event is cleared unless it was the end.
unfoldable pub resume : ReqState → ReqState
resume state =
    if state.finished
    then record state { out_list = [] }
    else record state { out_list = []; event = false }

abbrev pub phase_after : ReqState → Phase
phase_after state = if state.finished then done else waiting

-- The runs of a request: the outputs that arrived, those that were yielded, the object and the place
-- of the coroutine. `overlap` tells whether an output may arrive while the consumer holds another.
pub data StreamRun (overlap : Bool) : List OutDict → List OutDict → ReqState → Phase → Type 0 where
  started : StreamRun overlap [] [] new_state waiting
  arrived :
      (out : OutDict) (finished : Bool) {arrivals yields : List OutDict} {state : ReqState}
      → StreamRun overlap arrivals yields state waiting
      → StreamRun overlap
          (arrivals ++ out ∷ [])
          yields
          (set_finished finished (append_output out state))
          waiting
  arrived_late :
      (out : OutDict) (finished : Bool) {arrivals yields : List OutDict} {state : ReqState}
      → overlap ≡ true
      → StreamRun overlap arrivals yields state yielded
      → StreamRun overlap
          (arrivals ++ out ∷ [])
          yields
          (set_finished finished (append_output out state))
          yielded
  woken :
      (out : OutDict) {arrivals yields : List OutDict} {state : ReqState}
      → state.event ≡ true
      → last state.out_list ≡ some out
      → StreamRun overlap arrivals yields state waiting
      → StreamRun overlap arrivals (yields ++ out ∷ []) state yielded
  resumed :
      {arrivals yields : List OutDict} {state : ReqState} (phase : Phase)
      → phase ≡ phase_after state
      → StreamRun overlap arrivals yields state yielded
      → StreamRun overlap arrivals yields (resume state) phase

-- Where the coroutine waits, the last output that arrived is the last one that it has, and its event
-- is set, or it was yielded; everywhere else it was yielded.
abbrev pub Delivered : List OutDict → List OutDict → ReqState → Phase → Type 0
Delivered arrivals yields state waiting =
    ((state.event ≡ true)
      × (last state.out_list ≡ last arrivals)
      × ((out : OutDict) × (last arrivals ≡ some out)))
    ⊎ ((state.event ≡ false) × (state.finished ≡ false) × (last yields ≡ last arrivals))
Delivered arrivals yields state yielded = last yields ≡ last arrivals
Delivered arrivals yields state done = (state.finished ≡ true) × (last yields ≡ last arrivals)

resume-Delivered :
    (arrivals yields : List OutDict) (state : ReqState) (phase : Phase)
    → phase ≡ phase_after state
    → last yields ≡ last arrivals
    → Delivered arrivals yields (resume state) phase
unfolding resume
resume-Delivered arrivals yields state waiting e h = elim (Bool-cases state.finished) [
  | inl finished ↦ absurd (ground (arith, finished, e))
  | inr more ↦ inr (ground (arith, more), ground (arith, more), h)
]
resume-Delivered arrivals yields state yielded e h = ground arith
resume-Delivered arrivals yields state done e h = elim (Bool-cases state.finished) [
  | inl finished ↦ (ground (arith, finished), h)
  | inr more ↦ absurd (ground (arith, more, e))
]

-- In a run in which no output arrives while the consumer holds another one: a request that is done
-- is finished, and the last output that arrived was yielded last; where the coroutine waits, either
-- that is so and the request is not finished, or the event is set and the last output is there.
pub StreamRun-Delivered :
    (arrivals yields : List OutDict) (state : ReqState) (phase : Phase)
    → StreamRun false arrivals yields state phase
    → Delivered arrivals yields state phase
unfolding append_output set_finished
StreamRun-Delivered _ _ _ _ started = inr (refl, refl, refl)
StreamRun-Delivered _ _ _ _ (arrived out finished {arrivals} {yields} {state} run) = inl (
  refl,
  last-append state.out_list out ∙ sym (last-append arrivals out),
  (out, last-append arrivals out),
)
StreamRun-Delivered _ _ _ _ (arrived_late out finished late run) = absurd (cc)
StreamRun-Delivered _ _ _ _ (woken out {arrivals} {yields} {state} is_set is_last run) =
    elim (StreamRun-Delivered arrivals yields state waiting run) [
      | inl (event, same, some_out) ↦ last-append yields out ∙ sym is_last ∙ same
      | inr (event, more, same) ↦ absurd (ground (arith, event, is_set))
    ]
StreamRun-Delivered _ _ _ _ (resumed {arrivals} {yields} {state} phase e run) =
    resume-Delivered arrivals yields state phase e
      (StreamRun-Delivered arrivals yields state yielded run)

-- A last output that arrives while the consumer holds another one is never yielded: the coroutine
-- ends without it, and the event that it sets is not seen.
pub StreamRun-loses :
    (arrivals yields : List OutDict) (state : ReqState) (out : OutDict)
    → StreamRun true arrivals yields state yielded
    → StreamRun true
        (arrivals ++ out ∷ [])
        yields
        (resume (set_finished true (append_output out state)))
        done
unfolding set_finished
StreamRun-loses arrivals yields state out run = resumed done refl (arrived_late out true refl run)
