-- ===== src/Mover/Batch.antt =====
-- The moves that the server in fastmoe/serve/router/model_rpc.py makes for the requests of a batch
-- (`_process_reallocation_request`, `exposed_request_batch_expert_reallocation`). What it writes to
-- the requests is in Reallocation.
use harvest_mo_e.Base.{ℕ, List, [], ◌∷◌, Option, some}
use harvest_mo_e.Base.Int.{ℤ}
use harvest_mo_e.Base.Action.{Action, pure, ◌>>=◌}
use harvest_mo_e.Reallocation.{ReallocationAction}
use harvest_mo_e.Mover.{Weights, Engine, Refusal, caught, move_expert_to_gpu, move_expert_to_cpu}

-- What a request asks for, and the time at which its move is made.
pub record Move : Type 0 where
  pub action : ReallocationAction
  pub layer_id : ℕ
  pub expert_id : ℕ
  pub now : ℕ

module _ {W : Type 0} (lib : Weights W) (num_gpu_experts : ℕ) (device : ℤ) where
  -- Nothing, or why the move was refused. An action that is no move is not supported.
  unfoldable pub process_reallocation_request : Move → Action (Engine lib) (Option Refusal)
  process_reallocation_request m = elim m.action [
    | ReallocationAction.move_to_gpu ↦
        caught (move_expert_to_gpu lib num_gpu_experts m.now device m.layer_id m.expert_id)
    | ReallocationAction.move_to_cpu ↦
        caught (move_expert_to_cpu lib num_gpu_experts m.now device m.layer_id m.expert_id)
    | _ ↦ pure (some Refusal.exception)
  ]

  -- The results of a batch. A refused move does not end it, also where the batch is atomic.
  unfoldable pub process_batch : List Move → Action (Engine lib) (List (Option Refusal))
  unfolding process_reallocation_request
  process_batch [] = pure []
  process_batch (m ∷ ms) = do
    result ← process_reallocation_request m
    results ← process_batch ms
    pure (result ∷ results)
