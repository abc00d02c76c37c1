-- ===== src/Mover/OwnGpu.antt =====
-- The slots of the GPU cache under `move_expert_to_gpu` in fastmoe/backend/expert_reallocation.py.
use harvest_mo_e.Base.{
  ℕ, ◌≡◌, ◌⊎◌, inl, inr, refl, sym, Option, none, ◌==◌, get_elem?, arith, Bool-cases, Option-cases,
}
use mathlib.Core.Path.{subst}
use harvest_mo_e.Base.Int.{ℤ, pos}
use harvest_mo_e.Base.Action.{Result, ok, raise, blocked, Action}
use harvest_mo_e.Tracker.{ExpertTracker, ExpertLocation, MemoryLocation, ExpertStatus, find}
use harvest_mo_e.Tracker.Updates.{IsTracker, update_expert_location_lem}
use harvest_mo_e.Mover.{
  Weights, Engine, weights_from_cpu, set_mapping, install, copy_to_gpu, move_expert_to_gpu,
  can_move_to_gpu, experts_of, Refusal, caught,
}
use harvest_mo_e.Mover.Slots.{Unused, can_move_to_gpu-slot}
use harvest_mo_e.Mover.Moves.{get_expert_location_run}
use harvest_mo_e.Mover.Own.{HasOwnSlots, updated, update_gpu-HasOwnSlots}

module _ {W : Type 0} (lib : Weights W) (num now : ℕ) (device : ℤ) (layer expert : ℕ) where
  -- The tracker after a write to the mapping.
  pub set_mapping-tracker :
      (value : ℤ) (e : Engine lib)
      → (set_mapping lib num now device layer expert value e).1.tracker ≡ e.tracker
  set_mapping-tracker value e = elim (Option-cases (get_elem? e.experts_mapping layer)) [
    | inl missing ↦ ground (arith, missing)
    | inr (row, found) ↦ elim (Option-cases (get_elem? row expert)) [
      | inl missing ↦ ground (arith, found, missing)
      | inr (old, entry) ↦ ground (arith, found, entry)
    ]
  ]

  abbrev on_gpu : ℕ → ExpertTracker → ExpertTracker
  on_gpu slot t =
      updated layer expert MemoryLocation.gpu_persistent ExpertStatus.cached device (pos slot) now t

  install-tracker :
      (slot : ℕ) (target w : W) (e : Engine lib)
      → IsTracker e.tracker
      → let e' = (install lib num now device layer expert slot target w e).1 in
        (e'.tracker ≡ e.tracker) ⊎ (e'.tracker ≡ on_gpu slot e.tracker)
  unfolding install
  install-tracker slot target w e v = elim (Bool-cases (lib.size target == lib.size w)) [
    | inr apart ↦ inl (ground (arith, apart))
    | inl same ↦ elim (Option-cases (lib.rows.store e.experts_cache slot w)) [
      | inl missing ↦ inl (ground (arith, same, missing))
      | inr (cache, run) ↦
          let (ran, kept, place) =
            update_expert_location_lem layer expert 0 0 MemoryLocation.gpu_persistent
              ExpertStatus.cached device (pos slot) now e.tracker v in
          let e₁ : Engine lib = record e {
            experts_cache = cache;
            tracker = on_gpu slot e.tracker;
          } in
          inr (ground (arith, same, run, ran, set_mapping-tracker (pos slot) e₁))
    ]
  ]

  install-HasOwnSlots :
      (slot : ℕ) (target w : W) (e : Engine lib)
      → Unused slot (experts_of layer e.tracker)
      → HasOwnSlots e.tracker
      → HasOwnSlots (install lib num now device layer expert slot target w e).1.tracker
  install-HasOwnSlots slot target w e unused h =
      elim (install-tracker slot target w e h.well_formed) [
        | inl same ↦ subst HasOwnSlots (sym same) h
        | inr new ↦ subst HasOwnSlots (sym new) (
            update_gpu-HasOwnSlots layer expert slot ExpertStatus.cached device now e.tracker unused
              h)
      ]

  copy_to_gpu-HasOwnSlots :
      (loc : Option ExpertLocation) (e : Engine lib)
      → can_move_to_gpu num layer loc e.tracker ≡ none
      → HasOwnSlots e.tracker
      → HasOwnSlots (copy_to_gpu lib num now device layer expert e).1.tracker
  unfolding copy_to_gpu
  copy_to_gpu-HasOwnSlots loc e can h =
      let (slot, found, above, below, unused) = can_move_to_gpu-slot num layer loc e.tracker can in
      elim (Option-cases (weights_from_cpu lib num now device layer expert e)) [
        | inl missing ↦ subst HasOwnSlots (ground (arith, found, missing)) h
        | inr (w, weights) ↦ elim (Option-cases (lib.rows.load e.experts_cache slot)) [
          | inl missing ↦ subst HasOwnSlots (ground (arith, found, weights, missing)) h
          | inr (target, at) ↦
              subst HasOwnSlots (ground (arith, found, weights, at))
                (install-HasOwnSlots slot target w e unused h)
        ]
      ]

  pub caught-tracker :
      (body : Action (Engine lib) (Option Refusal)) (e : Engine lib)
      → (caught body e).1.tracker ≡ (body e).1.tracker
  caught-tracker body e = of_result (body e)
    where
      of_result :
          (p : Result (Option Refusal) × Engine lib) → (caught (λ _. p) e).1.tracker ≡ p.1.tracker
      of_result (ok r, s) = refl
      of_result (raise err, s) = refl
      of_result (blocked, s) = refl

  pub move_expert_to_gpu-HasOwnSlots :
      (e : Engine lib)
      → HasOwnSlots e.tracker
      → HasOwnSlots (move_expert_to_gpu lib num now device layer expert e).1.tracker
  unfolding move_expert_to_gpu
  move_expert_to_gpu-HasOwnSlots e h =
      let read = get_expert_location_run layer expert e.tracker h.well_formed in
      let loc = find layer expert e.tracker in
      let body = copy_to_gpu lib num now device layer expert in
      elim (Option-cases (can_move_to_gpu num layer loc e.tracker)) [
        | inr (why, refused) ↦ subst HasOwnSlots (ground (arith, read, refused)) h
        | inl can ↦
            subst HasOwnSlots (sym (ground (arith, read, can, caught-tracker body e)))
              (copy_to_gpu-HasOwnSlots loc e can h)
      ]
