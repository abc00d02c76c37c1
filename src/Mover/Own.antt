-- ===== src/Mover/Own.antt =====
-- The slots of the GPU cache under the moves of fastmoe/backend/expert_reallocation.py: no two
-- persistent experts of a layer share one.
use harvest_mo_e.Base.{
  ℕ, ◌≡◌, ◌≢◌, ◌∙◌, ◌⊎◌, inl, inr, sym, ◌&&◌, [], ◌∷◌, some, ◌==◌, arith, Bool-cases, Option-cases,
}
use mathlib.Core.Path.{subst}
use harvest_mo_e.Base.Int.{ℤ, pos}
use harvest_mo_e.Base.Dict.{Dict, lookup}
use harvest_mo_e.Tracker.{
  ExpertTracker, ExpertLocation, MemoryLocation, ExpertStatus, find, update_expert_location,
}
use harvest_mo_e.Tracker.Updates.{IsTracker, update_expert_location_lem}
use harvest_mo_e.Mover.{experts_of}
use harvest_mo_e.Mover.Slots.{Unused}

-- A persistent expert with a slot.
abbrev pub Occupies : ExpertTracker → (layer expert slot : ℕ) → Type 0
Occupies t layer expert slot =
    (loc : ExpertLocation) × (find layer expert t ≡ some loc)
    × (loc.location ≡ MemoryLocation.gpu_persistent)
    × (loc.cache_slot ≡ pos slot)

-- A well-formed tracker in which no two persistent experts of a layer share a slot.
pub record HasOwnSlots (t : ExpertTracker) : Type 0 where
  pub well_formed : IsTracker t
  pub own : (layer i j slot : ℕ) → Occupies t layer i slot → Occupies t layer j slot → i ≡ j

Unused-lookup :
    (slot j : ℕ) (experts : Dict ExpertLocation) (loc : ExpertLocation)
    → Unused slot experts
    → lookup j experts ≡ some loc
    → loc.location ≡ MemoryLocation.gpu_persistent
    → loc.cache_slot ≢ pos slot
Unused-lookup slot j [] loc unused e = cc
Unused-lookup slot j ((expert, entry) ∷ experts) loc unused e =
    ground (arith, e, unused.0, Unused-lookup slot j experts loc unused.1)

-- No persistent expert of the layer has an unused slot.
Unused-Occupies :
    (t : ExpertTracker) (layer j slot : ℕ)
    → Unused slot (experts_of layer t)
    → Occupies t layer j slot
    → ⊥
Unused-Occupies t layer j slot unused (loc, e, persistent, at) =
    elim (Option-cases (lookup layer t.layers)) [
      | inl missing ↦ ground (arith, missing, e)
      | inr (m, known) ↦
          ground (arith, known, e, unused, Unused-lookup slot j m.experts loc, persistent, at)
    ]

module _ (layer expert : ℕ) (location : MemoryLocation) (status : ExpertStatus) (device slot : ℤ)
    (now : ℕ) (t : ExpertTracker) where
  abbrev pub updated : ExpertTracker
  updated = (update_expert_location layer expert location status device slot now t).1

  -- An expert of the updated tracker has its slot from before, or from the update.
  Occupies-updated :
      (l i s : ℕ)
      → IsTracker t
      → Occupies updated l i s
      → Occupies t l i s
        ⊎ ((l ≡ layer) × (i ≡ expert) × (location ≡ MemoryLocation.gpu_persistent) × (slot ≡ pos s))
  Occupies-updated l i s v (loc, e, persistent, at) =
      let (ran, kept, place) =
        update_expert_location_lem layer expert l i location status device slot now t v in
      elim (Bool-cases (l == layer && i == expert)) [
        | inr other ↦ inl (loc, ground (arith, place, other, e), persistent, at)
        | inl same ↦ elim (Option-cases (find l i t)) [
          | inl missing ↦ absurd (ground (arith, place, same, missing, e))
          | inr (old, found) ↦ inr (
            ground (arith, same),
            ground (arith, same),
            ground (arith, place, same, found, e, persistent),
            ground (arith, place, same, found, e, at),
          )
        ]
      ]

-- To a slot that no persistent expert of the layer has.
pub update_gpu-HasOwnSlots :
    (layer expert slot : ℕ) (status : ExpertStatus) (device : ℤ) (now : ℕ) (t : ExpertTracker)
    → Unused slot (experts_of layer t)
    → HasOwnSlots t
    → HasOwnSlots
        (updated layer expert MemoryLocation.gpu_persistent status device (pos slot) now t)
update_gpu-HasOwnSlots layer expert slot status device now t unused h = record {
  well_formed =
      (update_expert_location_lem layer expert 0 0 MemoryLocation.gpu_persistent status device
        (pos slot) now t h.well_formed).1;
  own = λ l i j s first second.
      cases l i j s
        (Occupies-updated layer expert MemoryLocation.gpu_persistent status device (pos slot) now t
          l i s h.well_formed first)
        (Occupies-updated layer expert MemoryLocation.gpu_persistent status device (pos slot) now t
          l j s h.well_formed second);
}
  where
    cases :
        (l i j s : ℕ)
        → Occupies t l i s
          ⊎ ((l ≡ layer)
              × (i ≡ expert)
              × (MemoryLocation.gpu_persistent ≡ MemoryLocation.gpu_persistent)
              × (pos slot ≡ pos s))
        → Occupies t l j s
          ⊎ ((l ≡ layer)
              × (j ≡ expert)
              × (MemoryLocation.gpu_persistent ≡ MemoryLocation.gpu_persistent)
              × (pos slot ≡ pos s))
        → i ≡ j
    cases l i j s (inl old) (inl old') = h.own l i j s old old'
    cases l i j s (inl old) (inr (same, is_expert, _, at)) = absurd (
        Unused-Occupies t layer i slot unused (
          subst (λ k. Occupies t layer i k) (ground (arith, at))
            (subst (λ k. Occupies t k i s) same old)))
    cases l i j s (inr (same, is_expert, _, at)) (inl old) = absurd (
        Unused-Occupies t layer j slot unused (
          subst (λ k. Occupies t layer j k) (ground (arith, at))
            (subst (λ k. Occupies t k j s) same old)))
    cases l i j s (inr (same, is_expert, _, at)) (inr (same', is_expert', _, at')) =
        is_expert ∙ sym is_expert'

-- To a place that is no slot of the GPU.
pub update_cpu-HasOwnSlots :
    (layer expert : ℕ) (status : ExpertStatus) (device slot : ℤ) (now : ℕ) (t : ExpertTracker)
    → HasOwnSlots t
    → HasOwnSlots (updated layer expert MemoryLocation.cpu_memory status device slot now t)
update_cpu-HasOwnSlots layer expert status device slot now t h = record {
  well_formed =
      (update_expert_location_lem layer expert 0 0 MemoryLocation.cpu_memory status device slot now
        t h.well_formed).1;
  own = λ l i j s first second.
      cases l i j s
        (Occupies-updated layer expert MemoryLocation.cpu_memory status device slot now t l i s
          h.well_formed first)
        (Occupies-updated layer expert MemoryLocation.cpu_memory status device slot now t l j s
          h.well_formed second);
}
  where
    cases :
        (l i j s : ℕ)
        → Occupies t l i s
          ⊎ ((l ≡ layer)
              × (i ≡ expert)
              × (MemoryLocation.cpu_memory ≡ MemoryLocation.gpu_persistent)
              × (slot ≡ pos s))
        → Occupies t l j s
          ⊎ ((l ≡ layer)
              × (j ≡ expert)
              × (MemoryLocation.cpu_memory ≡ MemoryLocation.gpu_persistent)
              × (slot ≡ pos s))
        → i ≡ j
    cases l i j s (inl old) (inl old') = h.own l i j s old old'
    cases l i j s (inl old) (inr (same, is_expert, no_gpu, at)) = absurd (cc)
    cases l i j s (inr (same, is_expert, no_gpu, at)) other = absurd (cc)
