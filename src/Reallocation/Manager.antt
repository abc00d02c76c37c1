-- ===== src/Reallocation/Manager.antt =====
-- What the manager does with its requests. No method ever records an expert as in motion.
use Prim.Native.String.{String}
use harvest_mo_e.Base.{
  ℕ, ◌≡◌, refl, Bool, false, List, [], ◌∷◌, ◌++◌, Option, none, some, if◌then◌else◌, inl, inr,
  arith, All, Bool-cases, Option-cases,
}
use mathlib.Core.List.{append_assoc, append-nil}
use harvest_mo_e.Base.Dict.{
  Dict, lookup, insert, HasUniqueKeys, lookup-insert, lookup-erase_self, insert-HasUniqueKeys,
}
use harvest_mo_e.Base.Action.{ok}
use harvest_mo_e.Reallocation.{
  ReallocationStatus, ExpertReallocationRequest, BatchReallocationRequest, ReallocationManager,
  init, is_pending, enqueue, submit_request, any_in_motion, enqueue_all, submit_batch,
  get_request_status, cancel_request, processed, complete_request, request_expert_reallocation,
}

-- The managers that the calls of the server can lead to.
pub data Reachable : ReallocationManager → Type 0 where
  started : (n : ℕ) (store : Dict ExpertReallocationRequest) → Reachable (init n store)
  submitted : (ref : ℕ) (m : ReallocationManager) → Reachable m → Reachable (submit_request ref m).1
  batched :
      (batch : BatchReallocationRequest) (m : ReallocationManager)
      → Reachable m
      → Reachable (submit_batch batch m).1
  withdrawn : (id : ℕ) (m : ReallocationManager) → Reachable m → Reachable (cancel_request id m).1
  ended :
      (ref : ℕ) (success : Bool) (error : Option String) (m : ReallocationManager)
      → Reachable m
      → Reachable (complete_request ref success error m).1

-- No expert is recorded as in motion.
abbrev IsStill : ReallocationManager → Type 0
IsStill m = m.experts_in_motion ≡ []

any_in_motion-IsStill :
    (refs : List ℕ) (m : ReallocationManager) → IsStill m → IsStill (any_in_motion refs m).1
unfolding any_in_motion
any_in_motion-IsStill [] m h = h
any_in_motion-IsStill (ref ∷ refs) m h = ground (arith, h, any_in_motion-IsStill refs m h)

enqueue_all-IsStill :
    (refs : List ℕ) (m : ReallocationManager) → IsStill m → IsStill (enqueue_all refs m).1
unfolding enqueue_all
enqueue_all-IsStill [] m h = h
enqueue_all-IsStill (ref ∷ refs) m h = elim (Option-cases (lookup ref m.store)) [
  | inl n ↦ ground (arith, h, n)
  | inr (r, e) ↦ ground (arith, e, enqueue_all-IsStill refs (enqueue ref r m) h)
]

submit_batch-IsStill :
    (batch : BatchReallocationRequest) (m : ReallocationManager)
    → IsStill m
    → IsStill (submit_batch batch m).1
unfolding submit_batch
submit_batch-IsStill batch m h =
    let checked = any_in_motion-IsStill batch.requests m h in
    ground (
      arith,
      checked,
      enqueue_all-IsStill batch.requests (any_in_motion batch.requests m).1 checked,
    )

Reachable-IsStill : (m : ReallocationManager) → Reachable m → IsStill m
unfolding submit_request cancel_request complete_request init
Reachable-IsStill m (started n store) = refl
Reachable-IsStill m (submitted ref m' h) = ground (arith, Reachable-IsStill m' h)
Reachable-IsStill m (batched batch m' h) = submit_batch-IsStill batch m' (Reachable-IsStill m' h)
Reachable-IsStill m (withdrawn id m' h) = ground (arith, Reachable-IsStill m' h)
Reachable-IsStill m (ended ref success error m' h) = ground (arith, Reachable-IsStill m' h)

-- A manager that the calls of the server led to accepts every request: it stands in the queue and
-- is active, whether or not another request for the same expert is there.
pub submit_request_lem :
    (ref : ℕ) (r : ExpertReallocationRequest) (m : ReallocationManager)
    → Reachable m
    → lookup ref m.store ≡ some r
    → let (result, m') = submit_request ref m in
      (result ≡ ok r.request_id)
      × (m'.request_queue ≡ m.request_queue ++ ref ∷ [])
      × (lookup r.request_id m'.active_requests ≡ some ref)
      × (m'.store ≡ m.store)
unfolding submit_request
submit_request_lem ref r m h e =
    ground (
      arith,
      Reachable-IsStill m h,
      e,
      lookup-insert r.request_id r.request_id ref m.active_requests,
    )

-- Every reference of the list is known to the store.
abbrev pub Known : Dict ExpertReallocationRequest → List ℕ → Type 0
Known store = All (λ ref. (r : ExpertReallocationRequest) × (lookup ref store ≡ some r))

any_in_motion_lem :
    (refs : List ℕ) (m : ReallocationManager)
    → IsStill m
    → Known m.store refs
    → any_in_motion refs m ≡ (ok false, m)
unfolding any_in_motion
any_in_motion_lem [] m h k = refl
any_in_motion_lem (ref ∷ refs) m h k =
    let (r, e) = k.0 in ground (arith, h, e, any_in_motion_lem refs m h k.1)

enqueue_all_lem :
    (refs : List ℕ) (m : ReallocationManager)
    → Known m.store refs
    → let (result, m') = enqueue_all refs m in
      (result ≡ ok tt) × (m'.request_queue ≡ m.request_queue ++ refs) × (m'.store ≡ m.store)
unfolding enqueue_all
enqueue_all_lem [] m k = (refl, simp append-nil, refl)
enqueue_all_lem (ref ∷ refs) m k =
    let (r, e) = k.0 in
    let m₁ = enqueue ref r m in
    let (run, queue, store) = enqueue_all_lem refs m₁ k.1 in
    ground (arith, e, run, queue, store, append_assoc m.request_queue (ref ∷ []) refs)

-- Such a manager accepts every batch of known requests, atomic or not: all of them stand in the
-- queue, in order, and the batch keeps its status.
pub submit_batch_lem :
    (batch : BatchReallocationRequest) (m : ReallocationManager)
    → Reachable m
    → Known m.store batch.requests
    → let (result, m') = submit_batch batch m in
      (result ≡ ok batch)
      × (m'.request_queue ≡ m.request_queue ++ batch.requests)
      × (m'.store ≡ m.store)
unfolding submit_batch
submit_batch_lem batch m h k =
    let none_moving = any_in_motion_lem batch.requests m (Reachable-IsStill m h) k in
    let (run, queue, store) = enqueue_all_lem batch.requests m k in
    ground (arith, none_moving, run, queue, store)

-- `cancel_request` of an active request returns whether it was pending, and then marks it as
-- cancelled, which `get_request_status` shows. It takes nothing out of the queue.
pub cancel_request_lem :
    (id ref : ℕ) (r : ExpertReallocationRequest) (m : ReallocationManager)
    → lookup id m.active_requests ≡ some ref
    → lookup ref m.store ≡ some r
    → let (result, m') = cancel_request id m in
      (result ≡ ok (is_pending r.status))
      × (get_request_status id m'
          ≡ some (
              if is_pending r.status
              then record r { status = ReallocationStatus.cancelled }
              else r))
      × (m'.request_queue ≡ m.request_queue)
unfolding cancel_request get_request_status
cancel_request_lem id ref r m ea es = elim (Bool-cases (is_pending r.status)) [
  | inl y ↦ ground (
    arith,
    y,
    ea,
    es,
    lookup-insert ref ref (record r { status = ReallocationStatus.cancelled }) m.store,
  )
  | inr n ↦ ground (arith, n, ea, es)
]

-- With a manager that the calls of the server led to, and that lists no active request twice, a
-- request that the server handles is reported afterwards: as completed if its processing
-- succeeded and as failed if not, with the error that was given and otherwise as it was. It is no
-- longer active, and its reference stays in the queue.
pub request_expert_reallocation_lem :
    (ref : ℕ) (r : ExpertReallocationRequest) (success : Bool) (error : Option String)
    (m : ReallocationManager)
    → Reachable m
    → HasUniqueKeys m.active_requests
    → let (result, m') = request_expert_reallocation ref r success error m in
      (result ≡ ok r.request_id)
      × (get_request_status r.request_id m'
          ≡ some (record {
            request_id = r.request_id;
            layer_id = r.layer_id;
            expert_id = r.expert_id;
            action = r.action;
            priority = r.priority;
            status = if success then ReallocationStatus.completed else ReallocationStatus.failed;
            error_message = error;
          }))
      × (lookup r.request_id m'.active_requests ≡ none)
      × (m'.request_queue ≡ m.request_queue ++ ref ∷ [])
unfolding request_expert_reallocation submit_request complete_request get_request_status
request_expert_reallocation_lem ref r success error m h unique =
    let active = insert r.request_id ref m.active_requests in
    let store = insert ref r m.store in
    ground (
      arith,
      Reachable-IsStill m h,
      lookup-insert ref ref r m.store,
      lookup-insert r.request_id r.request_id ref m.active_requests,
      lookup-insert ref ref (processed success error r) store,
      lookup-insert r.request_id r.request_id ref m.completed_requests,
      lookup-erase_self r.request_id active
          (insert-HasUniqueKeys r.request_id ref m.active_requests unique),
    )
