-- ===== src/Mover/OwnBatch.antt =====
-- The slots of the GPU cache under the requests of a batch, whatever becomes of each.
use harvest_mo_e.Base.{
  ℕ, ◌≡◌, inl, inr, refl, sym, List, [], ◌∷◌, Option, ◌==◌, arith, Bool-cases, Option-cases,
}
use mathlib.Core.Path.{subst}
use harvest_mo_e.Base.Int.{ℤ, pos, negsuc}
use harvest_mo_e.Base.Action.{Result, ok, raise, blocked, ◌>>=◌, pure}
use harvest_mo_e.Tracker.{MemoryLocation, ExpertStatus, find, location_eq}
use harvest_mo_e.Tracker.Updates.{update_expert_location_lem}
use harvest_mo_e.Reallocation.{ReallocationAction}
use harvest_mo_e.Mover.{
  Weights, Engine, stored, cpu_storage, uninstall, copy_to_cpu, move_expert_to_gpu,
  move_expert_to_cpu, Refusal,
}
use harvest_mo_e.Mover.Moves.{get_expert_location_run}
use harvest_mo_e.Mover.Batch.{Move, process_reallocation_request, process_batch}
use harvest_mo_e.Mover.Own.{HasOwnSlots, updated, update_cpu-HasOwnSlots}
use harvest_mo_e.Mover.OwnGpu.{set_mapping-tracker, caught-tracker, move_expert_to_gpu-HasOwnSlots}

module _ {W : Type 0} (lib : Weights W) (num now : ℕ) (device : ℤ) (layer expert : ℕ) where
  uninstall-HasOwnSlots :
      (old w : W) (e : Engine lib)
      → HasOwnSlots e.tracker
      → HasOwnSlots (uninstall lib num now device layer expert old w e).1.tracker
  unfolding uninstall
  uninstall-HasOwnSlots old w e h = elim (Bool-cases (lib.size w == 0)) [
    | inl empty ↦ subst HasOwnSlots (ground (arith, empty)) h
    | inr full ↦ elim (Bool-cases (lib.size w == lib.size old)) [
      | inr apart ↦ subst HasOwnSlots (ground (arith, full, apart)) h
      | inl same ↦
          let (ran, kept, place) =
            update_expert_location_lem layer expert 0 0 MemoryLocation.cpu_memory ExpertStatus.idle
              (negsuc 0) (negsuc 0) now e.tracker h.well_formed in
          let t =
            updated layer expert MemoryLocation.cpu_memory ExpertStatus.idle (negsuc 0) (negsuc 0)
              now e.tracker in
          let e₁ : Engine lib = record e {
            cpu_expert_storage = stored layer expert w e.cpu_expert_storage;
            tracker = t;
          } in
          subst HasOwnSlots
            (sym (
              ground (
                arith,
                full,
                same,
                ran,
                set_mapping-tracker lib num now device layer expert (negsuc expert) e₁,
              )))
            (update_cpu-HasOwnSlots layer expert ExpertStatus.idle (negsuc 0) (negsuc 0) now
              e.tracker h)
    ]
  ]

  copy_to_cpu-HasOwnSlots :
      (slot : ℤ) (e : Engine lib)
      → HasOwnSlots e.tracker
      → HasOwnSlots (copy_to_cpu lib num now device layer expert slot e).1.tracker
  unfolding copy_to_cpu
  copy_to_cpu-HasOwnSlots (negsuc n) e h = h
  copy_to_cpu-HasOwnSlots (pos slot) e h =
      elim (Option-cases (cpu_storage lib num now device layer expert e)) [
        | inl missing ↦ subst HasOwnSlots (ground (arith, missing)) h
        | inr (old, storage) ↦ elim (Option-cases (lib.rows.load e.experts_cache slot)) [
          | inl missing ↦ subst HasOwnSlots (ground (arith, storage, missing)) h
          | inr (w, at) ↦
              subst HasOwnSlots (ground (arith, storage, at)) (uninstall-HasOwnSlots old w e h)
        ]
      ]

  move_expert_to_cpu-HasOwnSlots :
      (e : Engine lib)
      → HasOwnSlots e.tracker
      → HasOwnSlots (move_expert_to_cpu lib num now device layer expert e).1.tracker
  unfolding move_expert_to_cpu
  move_expert_to_cpu-HasOwnSlots e h =
      let read = get_expert_location_run layer expert e.tracker h.well_formed in
      elim (Option-cases (find layer expert e.tracker)) [
        | inl missing ↦ subst HasOwnSlots (ground (arith, read, missing)) h
        | inr (loc, found) ↦
            let body = copy_to_cpu lib num now device layer expert loc.cache_slot in
            elim (Bool-cases (location_eq loc.location MemoryLocation.gpu_persistent)) [
              | inr elsewhere ↦ subst HasOwnSlots (ground (arith, read, found, elsewhere)) h
              | inl persistent ↦
                  subst HasOwnSlots
                    (sym (
                      ground (
                        arith,
                        read,
                        found,
                        persistent,
                        caught-tracker lib num now device layer expert body e,
                      )))
                    (copy_to_cpu-HasOwnSlots loc.cache_slot e h)
            ]
      ]

module _ {W : Type 0} (lib : Weights W) (num : ℕ) (device : ℤ) where
  process-HasOwnSlots :
      (m : Move) (e : Engine lib)
      → HasOwnSlots e.tracker
      → HasOwnSlots (process_reallocation_request lib num device m e).1.tracker
  unfolding process_reallocation_request
  process-HasOwnSlots m e h = by_action m.action refl
    where
      by_action :
          (action : ReallocationAction)
          → m.action ≡ action
          → HasOwnSlots (process_reallocation_request lib num device m e).1.tracker
      by_action ReallocationAction.move_to_gpu is =
          let body = move_expert_to_gpu lib num m.now device m.layer_id m.expert_id in
          subst HasOwnSlots
            (sym (
              ground
                (arith, is, caught-tracker lib num m.now device m.layer_id m.expert_id body e)))
            (move_expert_to_gpu-HasOwnSlots lib num m.now device m.layer_id m.expert_id e h)
      by_action ReallocationAction.move_to_cpu is =
          let body = move_expert_to_cpu lib num m.now device m.layer_id m.expert_id in
          subst HasOwnSlots
            (sym (
              ground
                (arith, is, caught-tracker lib num m.now device m.layer_id m.expert_id body e)))
            (move_expert_to_cpu-HasOwnSlots lib num m.now device m.layer_id m.expert_id e h)
      by_action ReallocationAction.preload_to_cache is = subst HasOwnSlots (ground (arith, is)) h
      by_action ReallocationAction.evict_from_cache is = subst HasOwnSlots (ground (arith, is)) h

-- After each batch of requests, whatever they ask for and whether or not each succeeds: if the
-- tracker was well formed and no two persistent experts of a layer shared a slot of the cache
-- before, this holds afterwards.
pub process_batch-HasOwnSlots :
    {W : Type 0} (lib : Weights W) (num : ℕ) (device : ℤ) (ms : List Move) (e : Engine lib)
    → HasOwnSlots e.tracker
    → HasOwnSlots (process_batch lib num device ms e).1.tracker
unfolding process_batch
process_batch-HasOwnSlots lib num device [] e h = h
process_batch-HasOwnSlots lib num device (m ∷ ms) e h =
    after (process_reallocation_request lib num device m e)
      (process-HasOwnSlots lib num device m e h)
      (λ e' h'. process_batch-HasOwnSlots lib num device ms e' h')
  where
    after :
        (p : Result (Option Refusal) × Engine lib)
        → HasOwnSlots p.1.tracker
        → ((e' : Engine lib)
            → HasOwnSlots e'.tracker
            → HasOwnSlots (process_batch lib num device ms e').1.tracker)
        → HasOwnSlots
            (((λ (_ : Engine lib). p) >>= λ result.
                process_batch lib num device ms >>= λ results. pure (result ∷ results))
              e).1.tracker
    after (raise err, e') h' rest = h'
    after (blocked, e') h' rest = h'
    after (ok r, e') h' rest = inner (process_batch lib num device ms e') (rest e' h')
      where
        inner :
            (q : Result (List (Option Refusal)) × Engine lib)
            → HasOwnSlots q.1.tracker
            → HasOwnSlots (((λ (_ : Engine lib). q) >>= λ results. pure (r ∷ results)) e').1.tracker
        inner (ok rs, e₂) k = k
        inner (raise err, e₂) k = k
        inner (blocked, e₂) k = k
