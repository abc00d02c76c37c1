-- ===== src/ExpertCache/Init.antt =====
-- `init_gpu_experts` of fastmoe/backend/execution_engine.py: what the tracker says afterwards.
use mathlib.Core.Option
use harvest_mo_e.Base.{
  ℕ, zero, suc, ◌+◌, ◌*◌, ◌%◌, ◌<◌, ◌≡◌, inl, inr, refl, ap, ◌∙◌, Bool, true, false, not, ◌&&◌,
  ◌||◌, Bool-cases, Option-cases, some, ltb, leb, ◌==◌, if◌then◌else◌, arith,
}
use harvest_mo_e.Base.Int.{ℤ, pos, negsuc}
use harvest_mo_e.Base.Action.{Error, ok, >>=-ok, Action, ◌>>◌, pure, raise_if}
use harvest_mo_e.Tracker.{
  ExpertTracker, ExpertLocation, MemoryLocation, ExpertStatus, find, moved, update_expert_location,
}
use harvest_mo_e.Tracker.Updates.{IsTracker, update_expert_location_lem}
use harvest_mo_e.ExpertCache.{
  Config, experts_pool_size, track_expert, track_experts, track_layers, init_gpu_experts,
  experts_mapping,
}
use harvest_mo_e.ExpertCache.Mapping.{IsOnePage, experts_mapping-slot, slot}

module _ (c : Config) (now : ℕ) where
  -- The entry of an expert once it is tracked.
  abbrev pub placed : (layer expert : ℕ) → ExpertLocation → ExpertLocation
  placed layer expert e =
      if ltb expert c.num_gpu_experts
      then moved MemoryLocation.gpu_persistent ExpertStatus.cached (pos 0)
          (pos (layer * c.num_gpu_experts + expert)) now e
      else moved MemoryLocation.cpu_memory ExpertStatus.idle (negsuc 0) (negsuc 0) now e

  -- A run of a part of the loops: it returns, and has placed the experts that `done` says.
  abbrev pub Placed : Action ExpertTracker (Unit {0}) → (ℕ → ℕ → Bool) → Type 0
  Placed m done =
      (t : ExpertTracker)
      → IsTracker t
      → (t' : ExpertTracker) × (m t ≡ (ok tt, t'))
        × IsTracker t'
        × ((layer expert : ℕ)
            → find layer expert t' ≡ (
                if done layer expert
                then Option.map (placed layer expert) (find layer expert t)
                else find layer expert t))

  update_run :
      (layer expert : ℕ) (location : MemoryLocation) (status : ExpertStatus) (device slot : ℤ)
      → ((e : ExpertLocation) → placed layer expert e ≡ moved location status device slot now e)
      → Placed
          (update_expert_location layer expert location status device slot now)
          (λ l e. l == layer && e == expert)
  update_run layer expert location status device slot same t v =
      let t' = (update_expert_location layer expert location status device slot now t).1 in
      let (done, kept, _) =
        update_expert_location_lem layer expert layer expert location status device slot now t v in
      (
        t',
        ap (λ r. (r, t')) done,
        kept,
        λ l e.
            let (_, _, found) =
              update_expert_location_lem layer expert l e location status device slot now t v in
            elim (Bool-cases (l == layer && e == expert)) [
              | inl own ↦
                  let at_layer : l ≡ layer = ground (arith, own) in
                  let at_expert : e ≡ expert = ground (arith, own) in
                  elim (Option-cases (find l e t)) [
                    | inl missing ↦ ground (arith, found, own, missing)
                    | inr (x, there) ↦
                        let p : placed l e x ≡ moved location status device slot now x =
                          rw at_layer rw at_expert (same x) in
                        ground (arith, found, own, there, p)
                  ]
              | inr other ↦ ground (arith, found, other)
            ],
      )

  track_expert_lem :
      (layer expert : ℕ)
      → Placed (track_expert c layer expert now) (λ l e. l == layer && e == expert)
  track_expert_lem layer expert = elim (Bool-cases (ltb expert c.num_gpu_experts)) [
    | inl first ↦ rw first (
        update_run layer expert MemoryLocation.gpu_persistent ExpertStatus.cached (pos 0)
          (pos (layer * c.num_gpu_experts + expert)) (λ e. rw first refl))
    | inr last ↦ rw last (
        update_run layer expert MemoryLocation.cpu_memory ExpertStatus.idle (negsuc 0) (negsuc 0)
          (λ e. rw last refl))
  ]

  -- One part after another places what either places.
  then_lem :
      (m k : Action ExpertTracker (Unit {0})) (done done' both : ℕ → ℕ → Bool)
      → ((layer expert : ℕ) → both layer expert ≡ (done layer expert || done' layer expert))
      → Placed m done
      → Placed k done'
      → Placed (m >> k) both
  then_lem m k done done' both either first second t v =
      let (t₁, run, v₁, found) = first t v in
      let (t₂, run', v₂, found') = second t₁ v₁ in
      (
        t₂,
        >>=-ok m (λ _. k) t run ∙ run',
        v₂,
        λ l e. elim (Option-cases (find l e t)) [
          | inl missing ↦ ground (arith, either l e, found l e, found' l e, missing)
          | inr (x, there) ↦
              let twice : placed l e (placed l e x) ≡ placed l e x =
                elim (Bool-cases (ltb e c.num_gpu_experts)) [
                  | inl few ↦ rw few refl
                  | inr many ↦ rw many refl
                ] in
              ground (arith, either l e, found l e, found' l e, there, twice)
        ],
      )

  nothing :
      (done : ℕ → ℕ → Bool)
      → ((layer expert : ℕ) → done layer expert ≡ false)
      → Placed (pure tt) done
  nothing done never t v = (t, refl, v, λ l e. ground (arith, never l e))

  track_experts_lem :
      (layer expert n : ℕ)
      → Placed
          (track_experts c layer expert n now)
          (λ l e. l == layer && (leb expert e && ltb e (expert + n)))
  track_experts_lem layer expert zero =
      nothing (λ l e. l == layer && (leb expert e && ltb e (expert + 0))) (λ l e. ground arith)
  track_experts_lem layer expert (suc n) =
      then_lem (track_expert c layer expert now) (track_experts c layer (suc expert) n now)
        (λ l e. l == layer && e == expert)
        (λ l e. l == layer && (leb (suc expert) e && ltb e (suc expert + n)))
        (λ l e. l == layer && (leb expert e && ltb e (expert + suc n))) (λ l e. ground arith)
        (track_expert_lem layer expert) (track_experts_lem layer (suc expert) n)

  pub track_layers_lem :
      (layer n : ℕ)
      → Placed
          (track_layers c layer n now)
          (λ l e. (leb layer l && ltb l (layer + n)) && ltb e c.num_local_experts)
  track_layers_lem layer zero =
      nothing (λ l e. (leb layer l && ltb l (layer + 0)) && ltb e c.num_local_experts)
        (λ l e. ground arith)
  track_layers_lem layer (suc n) =
      then_lem (track_experts c layer 0 c.num_local_experts now) (track_layers c (suc layer) n now)
        (λ l e. l == layer && (leb 0 e && ltb e (0 + c.num_local_experts)))
        (λ l e. (leb (suc layer) l && ltb l (suc layer + n)) && ltb e c.num_local_experts)
        (λ l e. (leb layer l && ltb l (layer + suc n)) && ltb e c.num_local_experts)
        (λ l e. ground arith) (track_experts_lem layer 0 c.num_local_experts)
        (track_layers_lem (suc layer) n)

-- For an even number of layers, and all experts of a layer in one page, `init_gpu_experts` returns
-- and keeps a well-formed tracker well formed. For any known expert the tracker then agrees with
-- `experts_mapping`: an expert that stays on the GPU is there, in the slot of the mapping, and any
-- other one is in CPU memory without a slot.
pub init_gpu_experts_lem :
    (c : Config) (now layer expert : ℕ) (row : ℕ → ℕ) (t : ExpertTracker) {x : ExpertLocation}
    → IsOnePage c
    → c.num_layers % 2 ≡ 0
    → layer < c.num_layers
    → expert < c.num_local_experts
    → IsTracker t
    → find layer expert t ≡ some x
    → let (result, t') = init_gpu_experts c now t in
      (e : ExpertLocation) × (result ≡ ok tt)
      × IsTracker t'
      × (find layer expert t' ≡ some e)
      × (e.location ≡ (
          if ltb expert c.num_gpu_experts
          then MemoryLocation.gpu_persistent
          else MemoryLocation.cpu_memory))
      × (e.cache_slot ≡ (
          if ltb expert c.num_gpu_experts
          then pos (experts_mapping c layer row expert)
          else negsuc 0))
unfolding init_gpu_experts
init_gpu_experts_lem c now layer expert row t {x} v even u w tracker there =
    let t₀ = record t {
      gpu_capacity = c.num_gpu_experts * c.num_layers;
      cache_size = experts_pool_size c;
    } in
    let ready : IsTracker t₀ = record {
      free = tracker.free;
      all_layers = tracker.all_layers;
      layers_ok = tracker.layers_ok;
    } in
    let (t', run, kept, found) = track_layers_lem c now 0 c.num_layers t₀ ready in
    let at = experts_mapping-slot c layer expert row v w in
    let inside : ((leb 0 layer && ltb layer (0 + c.num_layers)) && ltb expert c.num_local_experts)
        ≡ true =
      ground arith in
    let passes : raise_if (not (c.num_layers % 2 == 0)) Error.assertion_error t' ≡ (ok tt, t') =
      ground (arith, even) in
    let whole : init_gpu_experts c now t ≡ (ok tt, t') =
      >>=-ok (track_layers c 0 c.num_layers now)
        (λ _. raise_if (not (c.num_layers % 2 == 0)) Error.assertion_error) t₀ run
      ∙ passes in
    rw whole (
      placed c now layer expert x,
      refl,
      kept,
      ground (arith, found layer expert, inside, there),
      elim (Bool-cases (ltb expert c.num_gpu_experts)) [
        | inl first ↦ rw first refl
        | inr last ↦ rw last refl
      ],
      elim (Bool-cases (ltb expert c.num_gpu_experts)) [
        | inl first ↦ ground (arith, at, first)
        | inr last ↦ rw last refl
      ],
    )
