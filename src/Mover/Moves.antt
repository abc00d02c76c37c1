-- ===== src/Mover/Moves.antt =====
-- What a move does where nothing is in its way.
use harvest_mo_e.Base.{
  ℕ, ◌+◌, ◌*◌, ◌≤◌, ◌<◌, ◌≡◌, refl, List, none, some, get_elem?, set, arith, get_elem?-set_self,
}
use harvest_mo_e.Base.Int.{ℤ, pos, negsuc}
use harvest_mo_e.Base.Action.{ok}
use harvest_mo_e.Tracker.{
  ExpertTracker, ExpertLocation, MemoryLocation, ExpertStatus, find, moved, update_expert_location,
  get_expert_location,
}
use harvest_mo_e.Tracker.Updates.{IsTracker, update_expert_location_lem}
use harvest_mo_e.Mover.{
  Weights, Engine, stored, weights_from_cpu, set_mapping, install, copy_to_gpu, move_expert_to_gpu,
  cpu_storage, uninstall, copy_to_cpu, move_expert_to_cpu, can_move_to_gpu, experts_of,
}
use harvest_mo_e.Mover.Slots.{Unused, can_move_to_gpu-slot}

-- The mapping has an entry for the expert.
pub record IsMapped (layer expert : ℕ) (mapping : List (List ℤ)) : Type 0 where
  pub row : List ℤ
  pub old : ℤ
  pub found : get_elem? mapping layer ≡ some row
  pub entry : get_elem? row expert ≡ some old

-- The mapping entry of the expert is `value`.
abbrev pub MapsTo : ℕ → ℕ → List (List ℤ) → ℤ → Type 0
MapsTo layer expert mapping value =
    (row : List ℤ) × (get_elem? mapping layer ≡ some row) × (get_elem? row expert ≡ some value)

pub get_expert_location_run :
    (layer expert : ℕ) (t : ExpertTracker)
    → IsTracker t
    → get_expert_location layer expert t ≡ (ok (find layer expert t), t)
unfolding get_expert_location
get_expert_location_run layer expert t v = rw v.free refl

module _ {W : Type 0} (lib : Weights W) (num_gpu_experts now : ℕ) (device : ℤ)
    (layer expert : ℕ) where
  set_mapping_run :
      (value : ℤ) (e : Engine lib)
      → IsMapped layer expert e.experts_mapping
      → (mapping : List (List ℤ)) × (set_mapping lib num_gpu_experts now device layer expert value e
          ≡ (ok tt, record e { experts_mapping = mapping }))
        × MapsTo layer expert mapping value
  set_mapping_run value e m =
      let row' = set m.row expert value in
      (
        set e.experts_mapping layer row',
        ground (arith, m.found, m.entry),
        (
          row',
          get_elem?-set_self e.experts_mapping layer m.row row' m.found,
          get_elem?-set_self m.row expert m.old value m.entry,
        ),
      )

  install_run :
      (slot : ℕ) (target w : W) (cache : lib.rows.Tensor) (loc : ExpertLocation) (e : Engine lib)
      → IsTracker e.tracker
      → find layer expert e.tracker ≡ some loc
      → lib.size target ≡ lib.size w
      → lib.rows.store e.experts_cache slot w ≡ some cache
      → IsMapped layer expert e.experts_mapping
      → let (result, e') = install lib num_gpu_experts now device layer expert slot target w e in
        (result ≡ ok none)
        × (e'.experts_cache ≡ cache)
        × IsTracker e'.tracker
        × (find layer expert e'.tracker
            ≡ some
                (moved MemoryLocation.gpu_persistent ExpertStatus.cached device (pos slot) now loc))
        × MapsTo layer expert e'.experts_mapping (pos slot)
  unfolding install
  install_run slot target w cache loc e v f same run m =
      let (ran, ok_tracker, place) =
        update_expert_location_lem layer expert layer expert MemoryLocation.gpu_persistent
          ExpertStatus.cached device (pos slot) now e.tracker v in
      let t' =
        (update_expert_location layer expert MemoryLocation.gpu_persistent ExpertStatus.cached
          device (pos slot) now e.tracker).1 in
      let (mapping, mapped, maps) =
        set_mapping_run (pos slot) (record e { experts_cache = cache; tracker = t' }) m in
      ground (arith, ran, ok_tracker, place, f, same, run, mapped, maps)

-- A move to the GPU of an expert that `can_move_to_gpu` admits succeeds, where the tracker is well
-- formed, the mapping has an entry for the expert, its weights are there and the rows of the
-- layer's range have their size: a slot of that range, which no persistent expert of the layer
-- had, holds the weights, and tracker and mapping say so.
pub move_expert_to_gpu_lem :
    {W : Type 0} (lib : Weights W) (num_gpu_experts now : ℕ) (device : ℤ) (layer expert : ℕ)
    (e : Engine lib) (loc : ExpertLocation) (w : W)
    → IsTracker e.tracker
    → find layer expert e.tracker ≡ some loc
    → can_move_to_gpu num_gpu_experts layer (some loc) e.tracker ≡ none
    → weights_from_cpu lib num_gpu_experts now device layer expert e ≡ some w
    → ((slot : ℕ)
        → layer * num_gpu_experts ≤ slot
        → slot < (layer + 1) * num_gpu_experts
        → (target : W) × (lib.rows.load e.experts_cache slot ≡ some target)
          × (lib.size target ≡ lib.size w))
    → IsMapped layer expert e.experts_mapping
    → let (result, e') = move_expert_to_gpu lib num_gpu_experts now device layer expert e in
      (slot : ℕ) × (result ≡ ok none)
      × (layer * num_gpu_experts ≤ slot)
      × (slot < (layer + 1) * num_gpu_experts)
      × Unused slot (experts_of layer e.tracker)
      × (lib.rows.load e'.experts_cache slot ≡ some w)
      × IsTracker e'.tracker
      × (find layer expert e'.tracker
          ≡ some
              (moved MemoryLocation.gpu_persistent ExpertStatus.cached device (pos slot) now loc))
      × MapsTo layer expert e'.experts_mapping (pos slot)
unfolding move_expert_to_gpu copy_to_gpu
move_expert_to_gpu_lem lib num now device layer expert e loc w v f can weights rows m =
    let (slot, found, above, below, unused) =
      can_move_to_gpu-slot num layer (some loc) e.tracker can in
    let (target, at, same) = rows slot above below in
    let (cache, run) = lib.rows.store_some e.experts_cache slot w target at in
    let (ran, new_cache, ok_tracker, place, maps) =
      install_run lib num now device layer expert slot target w cache loc e v f same run m in
    let held = lib.rows.load-store_self e.experts_cache cache slot w run in
    let read = get_expert_location_run layer expert e.tracker v in
    (
      slot,
      ground (arith, read, f, can, found, weights, at, ran),
      above,
      below,
      unused,
      ground (arith, read, f, can, found, weights, at, ran, new_cache, held),
      ground (arith, read, f, can, found, weights, at, ran, ok_tracker),
      ground (arith, read, f, can, found, weights, at, ran, place),
      ground (arith, read, f, can, found, weights, at, ran, maps),
    )

-- A move to the CPU of a persistent expert succeeds, where the tracker is well formed, the mapping
-- has an entry for the expert, its slot holds weights that are not empty, and the storage has their
-- size: the storage then holds the weights of the slot, where the next move to the GPU
-- reads them, and tracker and mapping say that the expert is on the CPU.
pub move_expert_to_cpu_lem :
    {W : Type 0} (lib : Weights W) (num_gpu_experts now : ℕ) (device : ℤ) (layer expert slot : ℕ)
    (e : Engine lib) (loc : ExpertLocation) (w old : W)
    → IsTracker e.tracker
    → find layer expert e.tracker ≡ some loc
    → loc.location ≡ MemoryLocation.gpu_persistent
    → loc.cache_slot ≡ pos slot
    → lib.rows.load e.experts_cache slot ≡ some w
    → 1 ≤ lib.size w
    → cpu_storage lib num_gpu_experts now device layer expert e ≡ some old
    → lib.size w ≡ lib.size old
    → IsMapped layer expert e.experts_mapping
    → let (result, e') = move_expert_to_cpu lib num_gpu_experts now device layer expert e in
      (result ≡ ok none)
      × (weights_from_cpu lib num_gpu_experts now device layer expert e' ≡ some w)
      × IsTracker e'.tracker
      × (find layer expert e'.tracker
          ≡ some (moved MemoryLocation.cpu_memory ExpertStatus.idle (negsuc 0) (negsuc 0) now loc))
      × MapsTo layer expert e'.experts_mapping (negsuc expert)
unfolding move_expert_to_cpu copy_to_cpu uninstall
move_expert_to_cpu_lem lib num now device layer expert slot e loc w old v f persistent at held full
      storage same m =
    let read = get_expert_location_run layer expert e.tracker v in
    let (ran, ok_tracker, place) =
      update_expert_location_lem layer expert layer expert MemoryLocation.cpu_memory
        ExpertStatus.idle (negsuc 0) (negsuc 0) now e.tracker v in
    let t' =
      (update_expert_location layer expert MemoryLocation.cpu_memory ExpertStatus.idle (negsuc 0)
        (negsuc 0) now e.tracker).1 in
    let e₁ : Engine lib = record e {
      cpu_expert_storage = stored layer expert w e.cpu_expert_storage;
      tracker = t';
    } in
    let (mapping, mapped, maps) =
      set_mapping_run lib num now device layer expert (negsuc expert) e₁ m in
    (
      ground (arith, read, f, persistent, at, held, full, storage, same, ran, mapped),
      ground (arith, read, f, persistent, at, held, full, storage, same, ran, mapped),
      ground (arith, read, f, persistent, at, held, full, storage, same, ran, mapped, ok_tracker),
      ground (arith, read, f, persistent, at, held, full, storage, same, ran, mapped, place),
      ground (arith, read, f, persistent, at, held, full, storage, same, ran, mapped, maps),
    )
