-- ===== src/Mover/Tests.antt =====
-- Runs of the moves, and each theorem at concrete inputs. Weights are numbers, all of one size.
use harvest_mo_e.Base.{ℕ, ◌+◌, ◌*◌, ◌≤◌, ◌<◌, ◌≡◌, refl, none, some, List, [], ◌∷◌, arith}
use harvest_mo_e.Base.Int.{pos, negsuc}
use harvest_mo_e.Base.Action.{ok}
use harvest_mo_e.Base.Rows.{row_tensors}
use harvest_mo_e.Tracker.{
  ExpertTracker, ExpertLocation, MemoryLocation, ExpertStatus, init, initial_expert, moved, find,
  update_expert_location, get_expert_location,
}
use harvest_mo_e.Tracker.Updates.{IsTracker, init-IsTracker, update_expert_location_lem}
use harvest_mo_e.Mover.{
  Weights, Engine, weights_from_cpu, can_move_to_gpu, experts_of, move_expert_to_gpu,
  move_expert_to_cpu, copy_to_gpu, copy_to_cpu, install, uninstall, find_free_gpu_slot,
  is_slot_free, first_free, Refusal,
}
use harvest_mo_e.Reallocation.{ReallocationAction}
use harvest_mo_e.Mover.Slots.{Unused}
use harvest_mo_e.Mover.Batch.{Move, process_batch}
use harvest_mo_e.Mover.Own.{HasOwnSlots}
use harvest_mo_e.Mover.OwnBatch.{process_batch-HasOwnSlots}
use harvest_mo_e.Mover.Moves.{MapsTo, move_expert_to_gpu_lem, move_expert_to_cpu_lem}

abbrev weights : Weights ℕ
weights = record {
  rows = row_tensors;
  size = λ w. 3;
  get_expert_weights = λ layer expert. some (10 * layer + expert);
  allocate = some 0;
}

-- Two layers of three experts, four on the GPU at most, two of each layer.
abbrev tracker : ExpertTracker
tracker = init 5 2 3 4 0

abbrev engine : Engine weights
engine = record {
  tracker = tracker;
  experts_cache = record { size = 4; at = λ slot. 0 };
  cpu_expert_storage = λ layer expert. none;
  experts_mapping =
      (negsuc 0 ∷ negsuc 1 ∷ negsuc 2 ∷ []) ∷ (negsuc 0 ∷ negsuc 1 ∷ negsuc 2 ∷ []) ∷ [];
}

tracker-IsTracker : IsTracker tracker
tracker-IsTracker = init-IsTracker 5 2 3 4 0

rows_ready :
    (slot : ℕ)
    → 2 ≤ slot
    → slot < 4
    → (target : ℕ) × (row_tensors.load engine.experts_cache slot ≡ some target) × (◌≡◌ {A = ℕ} 3 3)
rows_ready slot above below = (0, ground (arith, below), refl)

move_expert_to_gpu_lem_example :
    let (result, e') = move_expert_to_gpu weights 2 7 (pos 0) 1 2 engine in
    (slot : ℕ) × (result ≡ ok none)
    × (2 ≤ slot)
    × (slot < 4)
    × Unused slot (experts_of 1 tracker)
    × (row_tensors.load e'.experts_cache slot ≡ some 12)
    × IsTracker e'.tracker
    × (find 1 2 e'.tracker
        ≡ some (
            moved MemoryLocation.gpu_persistent ExpertStatus.cached
              (pos 0)
              (pos slot)
              7
              (initial_expert 5 1 2)))
    × MapsTo 1 2 e'.experts_mapping (pos slot)
unfolding can_move_to_gpu init
move_expert_to_gpu_lem_example =
    move_expert_to_gpu_lem weights 2 7 (pos 0) 1 2 engine (initial_expert 5 1 2) 12
      tracker-IsTracker refl refl refl rows_ready
      (record {
        row = negsuc 0 ∷ negsuc 1 ∷ negsuc 2 ∷ [];
        old = negsuc 2;
        found = refl;
        entry = refl;
      })

-- The expert on the GPU, in slot 3, which holds the weights 42.
abbrev on_gpu : ExpertTracker
on_gpu =
    (update_expert_location 1 2 MemoryLocation.gpu_persistent ExpertStatus.cached (pos 0) (pos 3) 6
      tracker).1

abbrev loaded : Engine weights
loaded = record engine { tracker = on_gpu; experts_cache = record { size = 4; at = λ slot. 42 } }

on_gpu-IsTracker : IsTracker on_gpu
on_gpu-IsTracker =
    let (ran, v, place) =
      update_expert_location_lem 1 2 1 2 MemoryLocation.gpu_persistent ExpertStatus.cached (pos 0)
        (pos 3) 6 tracker tracker-IsTracker in
    v

abbrev there : ExpertLocation
there =
    moved MemoryLocation.gpu_persistent ExpertStatus.cached (pos 0) (pos 3) 6 (initial_expert 5 1 2)

move_expert_to_cpu_lem_example :
    let (result, e') = move_expert_to_cpu weights 2 8 (pos 0) 1 2 loaded in
    (result ≡ ok none)
    × (weights_from_cpu weights 2 8 (pos 0) 1 2 e' ≡ some 42)
    × IsTracker e'.tracker
    × (find 1 2 e'.tracker
        ≡ some (moved MemoryLocation.cpu_memory ExpertStatus.idle (negsuc 0) (negsuc 0) 8 there))
    × MapsTo 1 2 e'.experts_mapping (negsuc 2)
unfolding init update_expert_location
move_expert_to_cpu_lem_example =
    move_expert_to_cpu_lem weights 2 8 (pos 0) 1 2 3 loaded there 42 0 on_gpu-IsTracker refl refl
      refl refl (omega arith) refl refl
      (record {
        row = negsuc 0 ∷ negsuc 1 ∷ negsuc 2 ∷ [];
        old = negsuc 2;
        found = refl;
        entry = refl;
      })

-- No expert is on the GPU.
nothing_persistent :
    (layer i : ℕ) (loc : ExpertLocation)
    → find layer i tracker ≡ some loc
    → loc.location ≡ MemoryLocation.gpu_persistent
    → ⊥
unfolding init
nothing_persistent layer i loc e persistent = ground (arith, e, persistent)

tracker-HasOwnSlots : HasOwnSlots tracker
tracker-HasOwnSlots = record {
  well_formed = tracker-IsTracker;
  own = λ layer i j slot (loc, e, persistent, at) second.
      absurd (nothing_persistent layer i loc e persistent);
}

-- Two moves to the GPU, of which the second one is refused, and one back.
abbrev requests : List Move
requests =
    record { action = ReallocationAction.move_to_gpu; layer_id = 1; expert_id = 2; now = 6 }
    ∷ record { action = ReallocationAction.move_to_gpu; layer_id = 1; expert_id = 2; now = 7 }
    ∷ record { action = ReallocationAction.move_to_cpu; layer_id = 1; expert_id = 2; now = 8 }
    ∷ []

results :
    (process_batch weights 2 (pos 0) requests engine).0
    ≡ ok (none ∷ some Refusal.already_on_gpu ∷ none ∷ [])
unfolding process_batch move_expert_to_gpu move_expert_to_cpu copy_to_gpu copy_to_cpu install
    uninstall init find_free_gpu_slot can_move_to_gpu update_expert_location get_expert_location
    is_slot_free first_free
results = refl

process_batch-HasOwnSlots_example :
    HasOwnSlots (process_batch weights 2 (pos 0) requests engine).1.tracker
process_batch-HasOwnSlots_example =
    process_batch-HasOwnSlots weights 2 (pos 0) requests engine tracker-HasOwnSlots
