-- ===== src/Reallocation/Tests.antt =====
-- Runs of the manager, and each theorem at concrete inputs.
use harvest_mo_e.Base.{ℕ, ◌≡◌, refl, true, none, some, [], ◌∷◌, ◌++◌}
use harvest_mo_e.Base.Dict.{lookup}
use harvest_mo_e.Base.Action.{ok}
use harvest_mo_e.Reallocation.{
  ReallocationAction, ReallocationStatus, ExpertReallocationRequest, BatchReallocationRequest,
  ReallocationManager, init, submit_request, get_request_status, complete_request,
  request_expert_reallocation, get_reallocation_stats,
}
use harvest_mo_e.Reallocation.Manager.{
  Reachable, started, submitted, request_expert_reallocation_lem,
}

abbrev request : ℕ → ExpertReallocationRequest
request id = record {
  request_id = id;
  layer_id = 0;
  expert_id = 5;
  action = ReallocationAction.move_to_gpu;
  priority = 0;
  status = ReallocationStatus.pending;
  error_message = none;
}

abbrev manager : ReallocationManager
manager = init 2 ((0, request 10) ∷ (1, request 11) ∷ [])

-- The first request is queued; the second one is for the same expert.
abbrev busy : ReallocationManager
busy = (submit_request 0 manager).1

busy-Reachable : Reachable busy
busy-Reachable = submitted 0 manager (started 2 ((0, request 10) ∷ (1, request 11) ∷ []))

abbrev batch : BatchReallocationRequest
batch = record {
  request_id = 20;
  requests = 0 ∷ 1 ∷ [];
  atomic = true;
  status = ReallocationStatus.pending;
}

request_expert_reallocation_lem_example :
    let (result, m') = request_expert_reallocation 2 (request 12) true none busy in
    (result ≡ ok 12)
    × (get_request_status 12 m'
        ≡ some (record {
          request_id = 12;
          layer_id = (request 12).layer_id;
          expert_id = (request 12).expert_id;
          action = (request 12).action;
          priority = (request 12).priority;
          status = ReallocationStatus.completed;
          error_message = none;
        }))
    × (lookup 12 m'.active_requests ≡ none)
    × (m'.request_queue ≡ busy.request_queue ++ 2 ∷ [])
unfolding init submit_request
request_expert_reallocation_lem_example =
    request_expert_reallocation_lem 2 (request 12) true none busy busy-Reachable (refl, tt)

-- A handled request is no longer pending or active, and stays in the queue.
stats_run :
    get_reallocation_stats (request_expert_reallocation 2 (request 12) true none manager).1
    ≡ record {
      pending_requests = 0;
      in_progress_requests = 0;
      completed_count = 1;
      moving_count = 0;
      queue_size = 1;
    }
unfolding get_reallocation_stats request_expert_reallocation submit_request complete_request init
stats_run = refl
