-- ===== src/ExpertCache/Own.antt =====
-- The slots of the GPU cache after `init_gpu_experts` of fastmoe/backend/execution_engine.py.
use mathlib.Core.Option
use harvest_mo_e.Base.{
  ℕ, ◌+◌, ◌*◌, ◌≡◌, ◌≢◌, inl, inr, sym, Bool, Bool-cases, Option-cases, some, ltb, if◌then◌else◌,
  arith,
}
use mathlib.Core.Path.{subst}
use harvest_mo_e.Base.Int.{pos}
use harvest_mo_e.Base.Action.{ok}
use harvest_mo_e.Tracker.{ExpertTracker, ExpertLocation, MemoryLocation, find}
use harvest_mo_e.Tracker.Updates.{IsTracker}
use harvest_mo_e.Mover.Own.{Occupies, HasOwnSlots}
use harvest_mo_e.ExpertCache.{Config, experts_pool_size, track_layers, init_gpu_experts}
use harvest_mo_e.ExpertCache.Init.{placed, track_layers_lem}

-- An expert that is placed on the GPU has the slot of its number in the range of its layer.
placed-slot :
    (c : Config) (now layer expert s : ℕ) (x : ExpertLocation)
    → (placed c now layer expert x).location ≡ MemoryLocation.gpu_persistent
    → (placed c now layer expert x).cache_slot ≡ pos s
    → s ≡ layer * c.num_gpu_experts + expert
placed-slot c now layer expert s x persistent at =
    elim (Bool-cases (ltb expert c.num_gpu_experts)) [
      | inl first ↦ ground (arith, first, at)
      | inr last ↦ absurd (ground (arith, last, persistent))
    ]

module _ (c : Config) (now : ℕ) (t : ExpertTracker) where
  abbrev resized : ExpertTracker
  resized = record t {
    gpu_capacity = c.num_gpu_experts * c.num_layers;
    cache_size = experts_pool_size c;
  }

  init_gpu_experts-tracker :
      (t' : ExpertTracker)
      → track_layers c 0 c.num_layers now resized ≡ (ok tt, t')
      → (init_gpu_experts c now t).1 ≡ t'
  unfolding init_gpu_experts
  init_gpu_experts-tracker t' run = ground (arith, run)

  Occupies-slot :
      (t' : ExpertTracker) (layer expert s : ℕ) (inside : Bool)
      → ((l i : ℕ) (x : ExpertLocation)
          → find l i t ≡ some x
          → x.location ≢ MemoryLocation.gpu_persistent)
      → find layer expert t' ≡ (
          if inside
          then Option.map (placed c now layer expert) (find layer expert resized)
          else find layer expert resized)
      → Occupies t' layer expert s
      → s ≡ layer * c.num_gpu_experts + expert
  Occupies-slot t' layer expert s inside empty found (loc, e, persistent, at) =
      elim (Option-cases (find layer expert t)) [
        | inl missing ↦ absurd (ground (arith, missing, found, e, Bool-cases inside))
        | inr (x, there) ↦ elim (Bool-cases inside) [
          | inr outside ↦
              absurd (ground (arith, outside, found, e, there, empty layer expert x, persistent))
          | inl within ↦
              let same : loc ≡ placed c now layer expert x =
                ground (arith, within, found, e, there) in
              placed-slot c now layer expert s x
                (subst (λ p. p.location ≡ MemoryLocation.gpu_persistent) same persistent)
                (subst (λ p. p.cache_slot ≡ pos s) same at)
        ]
      ]

-- From a well-formed tracker with no expert on the GPU, `init_gpu_experts` leads to a well-formed
-- tracker in which no two persistent experts of a layer share a slot, also where it ends in its
-- assertion.
pub init_gpu_experts-HasOwnSlots :
    (c : Config) (now : ℕ) (t : ExpertTracker)
    → IsTracker t
    → ((l i : ℕ) (x : ExpertLocation)
        → find l i t ≡ some x
        → x.location ≢ MemoryLocation.gpu_persistent)
    → HasOwnSlots (init_gpu_experts c now t).1
init_gpu_experts-HasOwnSlots c now t v empty =
    let ready : IsTracker (resized c now t) = record {
      free = v.free;
      all_layers = v.all_layers;
      layers_ok = v.layers_ok;
    } in
    let (t', run, kept, found) = track_layers_lem c now 0 c.num_layers (resized c now t) ready in
    subst HasOwnSlots (sym (init_gpu_experts-tracker c now t t' run)) (record {
      well_formed = kept;
      own = λ layer i j s first second.
          let at_i = Occupies-slot c now t t' layer i s _ empty (found layer i) first in
          let at_j = Occupies-slot c now t t' layer j s _ empty (found layer j) second in
          omega (arith, at_i, at_j);
    })
