-- ===== src/Reallocation.antt =====
-- `class ReallocationManager` of fastmoe/backend/expert_reallocation.py. The request objects are
-- shared between the caller, the queue and the dicts, so that they live in a store, and the
-- manager keeps references. Each method holds the lock from its start to its end and calls no
-- other, so that it is one step. The worker thread, which is never started, the stop event,
-- timestamps and metadata are left out.
pub mod Manager
mod Tests
use Prim.Native.String.{String}
use harvest_mo_e.Base.{
  ℕ, zero, suc, ◌+◌, Bool, true, false, ◌&&◌, ◌||◌, List, [], ◌∷◌, ◌++◌, Option, none, some, ◌==◌,
  if◌then◌else◌, length,
}
use harvest_mo_e.Base.Dict.{Dict, lookup, insert, erase}
use harvest_mo_e.Base.Action.{
  Error, Result, ok, raise, blocked, Action, pure, gets, modify, or_raise, ◌>>=◌, ◌>>◌,
}

pub data ReallocationAction : Type 0 where
  move_to_gpu move_to_cpu preload_to_cache evict_from_cache : ReallocationAction

pub data ReallocationStatus : Type 0 where
  pending in_progress completed failed cancelled : ReallocationStatus

pub record ExpertReallocationRequest : Type 0 where
  pub request_id : ℕ
  pub layer_id : ℕ
  pub expert_id : ℕ
  pub action : ReallocationAction
  pub priority : ℕ
  pub status : ReallocationStatus
  pub error_message : Option String

-- `requests` are references into the store of the manager.
pub record BatchReallocationRequest : Type 0 where
  pub request_id : ℕ
  pub requests : List ℕ
  pub atomic : Bool
  pub status : ReallocationStatus

pub record ReallocationManager : Type 0 where
  pub max_concurrent_moves : ℕ
  pub store : Dict ExpertReallocationRequest
  pub request_queue : List ℕ
  pub active_requests : Dict ℕ
  pub completed_requests : Dict ℕ
  pub experts_in_motion : List (ℕ × ℕ)

-- `__init__`, with the request objects that callers made.
unfoldable pub init : ℕ → Dict ExpertReallocationRequest → ReallocationManager
init max_concurrent_moves store = record {
  max_concurrent_moves = max_concurrent_moves;
  store = store;
  request_queue = [];
  active_requests = [];
  completed_requests = [];
  experts_in_motion = [];
}

-- `expert_key in self.experts_in_motion`
abbrev pub in_motion : ExpertReallocationRequest → List (ℕ × ℕ) → Bool
in_motion r [] = false
in_motion r ((layer, expert) ∷ moving) =
    (r.layer_id == layer && r.expert_id == expert) || in_motion r moving

abbrev pub is_pending : ReallocationStatus → Bool
is_pending ReallocationStatus.pending = true
is_pending _ = false

abbrev pub is_in_progress : ReallocationStatus → Bool
is_in_progress ReallocationStatus.in_progress = true
is_in_progress _ = false

-- The object of a reference.
abbrev pub deref : ℕ → Action ReallocationManager ExpertReallocationRequest
deref ref m = (elim (lookup ref m.store) [ none ↦ raise Error.key_error | some r ↦ ok r ], m)

abbrev pub enqueue : ℕ → ExpertReallocationRequest → ReallocationManager → ReallocationManager
enqueue ref r m = record m {
  request_queue = m.request_queue ++ ref ∷ [];
  active_requests = insert r.request_id ref m.active_requests;
}

abbrev pub refuse : ℕ → ExpertReallocationRequest → ReallocationManager → ReallocationManager
refuse ref r m = record m {
  store =
      insert ref
        (record r {
          status = ReallocationStatus.failed;
          error_message = some "Expert is already being reallocated";
        })
        m.store;
}

unfoldable pub submit_request : ℕ → Action ReallocationManager ℕ
submit_request ref = do
  r ← deref ref
  modify (λ m. if in_motion r m.experts_in_motion then refuse ref r m else enqueue ref r m)
  pure r.request_id

-- The first loop of `submit_batch`: whether a request of the batch is in motion.
unfoldable pub any_in_motion : List ℕ → Action ReallocationManager Bool
any_in_motion [] = pure false
any_in_motion (ref ∷ refs) = do
  r ← deref ref
  moving ← gets (λ m. in_motion r m.experts_in_motion)
  rest ← any_in_motion refs
  pure (moving || rest)

-- The second loop.
unfoldable pub enqueue_all : List ℕ → Action ReallocationManager (Unit {0})
enqueue_all [] = pure tt
enqueue_all (ref ∷ refs) = do r ← deref ref; modify (enqueue ref r); enqueue_all refs

-- `submit_batch`, which returns the batch as it leaves it; the source returns its identifier.
unfoldable pub submit_batch :
    BatchReallocationRequest → Action ReallocationManager BatchReallocationRequest
unfolding any_in_motion enqueue_all
submit_batch batch = do
  moving ← any_in_motion batch.requests
  (if moving && batch.atomic
      then pure (record batch { status = ReallocationStatus.failed })
      else (enqueue_all batch.requests >> pure batch))

unfoldable pub get_request_status : ℕ → ReallocationManager → Option ExpertReallocationRequest
get_request_status id m = elim (lookup id m.active_requests) [
  | some ref ↦ lookup ref m.store
  | none ↦ elim (lookup id m.completed_requests) [ some ref ↦ lookup ref m.store | none ↦ none ]
]

-- The cancelled object, where a request is pending.
abbrev pub cancel : ℕ → ExpertReallocationRequest → ReallocationManager → Bool × ReallocationManager
cancel ref r m =
    if is_pending r.status
    then (
      true,
      record m { store = insert ref (record r { status = ReallocationStatus.cancelled }) m.store },
    )
    else (false, m)

unfoldable pub cancel_request : ℕ → Action ReallocationManager Bool
cancel_request id m = elim (lookup id m.active_requests) [
  | none ↦ (ok false, m)
  | some ref ↦ elim (lookup ref m.store) [
    | none ↦ (raise Error.key_error, m)
    | some r ↦ let (done, m') = cancel ref r m in (ok done, m')
  ]
]

-- The request as its processing leaves it.
abbrev pub processed : Bool → Option String → ExpertReallocationRequest → ExpertReallocationRequest
processed success error r = record r {
  status = if success then ReallocationStatus.completed else ReallocationStatus.failed;
  error_message = error;
}

-- How the server in fastmoe/serve/router/model_rpc.py ends a request after its processing: it
-- writes the outcome, and moves the request from the active to the completed ones.
unfoldable pub complete_request : ℕ → Bool → Option String → Action ReallocationManager (Unit {0})
complete_request ref success error = do
  r ← deref ref
  modify (λ m.
      let store = insert ref (processed success error r) m.store in
      elim (lookup r.request_id m.active_requests) [
        | none ↦ record m { store = store }
        | some other ↦ record m {
          store = store;
          completed_requests = insert r.request_id ref m.completed_requests;
          active_requests = erase r.request_id m.active_requests;
        }
      ])

-- `exposed_request_expert_reallocation` for the new object `r`, with the outcome of its processing.
unfoldable pub request_expert_reallocation :
    ℕ → ExpertReallocationRequest → Bool → Option String → Action ReallocationManager ℕ
unfolding submit_request complete_request
request_expert_reallocation ref r success error = do
  modify (λ m. record m { store = insert ref r m.store })
  id ← submit_request ref
  complete_request ref success error
  pure id

-- The active requests whose status passes the test.
abbrev pub count_status : (ReallocationStatus → Bool) → Dict ℕ → Dict ExpertReallocationRequest → ℕ
count_status test [] store = 0
count_status test ((id, ref) ∷ active) store =
    elim (lookup ref store) [ none ↦ 0 | some r ↦ if test r.status then 1 else 0 ]
    + count_status test active store

pub record ReallocationStats : Type 0 where
  pub pending_requests : ℕ
  pub in_progress_requests : ℕ
  pub completed_count : ℕ
  pub moving_count : ℕ
  pub queue_size : ℕ

unfoldable pub get_reallocation_stats : ReallocationManager → ReallocationStats
get_reallocation_stats m = record {
  pending_requests = count_status is_pending m.active_requests m.store;
  in_progress_requests = count_status is_in_progress m.active_requests m.store;
  completed_count = length m.completed_requests;
  moving_count = length m.experts_in_motion;
  queue_size = length m.request_queue;
}
