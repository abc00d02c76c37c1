-- ===== src/Mover.antt =====
-- `class ExpertMover` of fastmoe/backend/expert_reallocation.py: the moves of the weights of an
-- expert between the GPU cache and the CPU. `W` is the weights of one expert, a row of the cache.
-- A copy is done when it is issued: all copies run on one stream, in order. The lock of the mover,
-- which no method takes twice, is left out, as are the events, the device and the log.
pub mod Slots
pub mod Moves
pub mod Own
pub mod OwnGpu
pub mod Batch
pub mod OwnBatch
mod Tests
use harvest_mo_e.Base.{
  ℕ, zero, suc, ◌+◌, ◌*◌, ◌<◌, Bool, true, false, not, ◌&&◌, List, [], ◌∷◌, Option, none, some, ltb,
  leb, ◌==◌, if◌then◌else◌, length, get_elem?, set, range_from,
}
use harvest_mo_e.Base.Int.{ℤ, pos, negsuc}
use harvest_mo_e.Base.Dict.{Dict, lookup}
use harvest_mo_e.Base.Action.{
  Error, Result, ok, raise, blocked, Action, pure, gets, modify, or_raise, ◌>>=◌, ◌>>◌,
}
use harvest_mo_e.Base.Tensor.{TensorLib}
use harvest_mo_e.Tracker.{
  ExpertTracker, ExpertLocation, LayerExpertMap, MemoryLocation, ExpertStatus, location_eq, find,
  update_expert_location, get_expert_location,
}

-- Why a move is refused.
pub data Refusal : Type 0 where
  expert_not_found already_on_gpu gpu_full layer_full no_free_slot no_weights : Refusal
  shape_mismatch not_on_gpu invalid_slot no_cpu_memory slot_empty exception : Refusal

-- The cache rows, the size of weights, what the model offers, and new pinned memory.
pub record Weights (W : Type 0) : Type 1 where
  pub rows : TensorLib ℕ W
  pub open rows use *
  pub size : W → ℕ
  -- `model.get_expert_weights`, or the dummy weights of the fallback.
  pub get_expert_weights : ℕ → ℕ → Option W
  -- `torch.empty(expert_size_elements, pin_memory=True)`
  pub allocate : Option W

pub record Engine {W : Type 0} (lib : Weights W) : Type 0 where
  pub tracker : ExpertTracker
  pub experts_cache : lib.rows.Tensor
  pub cpu_expert_storage : ℕ → ℕ → Option W
  pub experts_mapping : List (List ℤ)

-- The persistent experts among the entries of a layer, and of all layers.
abbrev pub persistent_in : Dict ExpertLocation → ℕ
persistent_in [] = 0
persistent_in ((expert, e) ∷ experts) =
    (if location_eq e.location MemoryLocation.gpu_persistent then 1 else 0) + persistent_in experts

abbrev pub persistent_total : Dict LayerExpertMap → ℕ
persistent_total [] = 0
persistent_total ((layer, m) ∷ layers) = persistent_in m.experts + persistent_total layers

abbrev pub is_slot : ℕ → ℤ → Bool
is_slot slot (pos n) = n == slot
is_slot slot (negsuc n) = false

-- `_is_slot_free` for the entries of the layer.
unfoldable pub is_slot_free : ℕ → Dict ExpertLocation → Bool
is_slot_free slot [] = true
is_slot_free slot ((expert, e) ∷ experts) =
    not (is_slot slot e.cache_slot && location_eq e.location MemoryLocation.gpu_persistent)
    && is_slot_free slot experts

-- The loop of `_find_free_gpu_slot`: the first free slot of a list.
unfoldable pub first_free : List ℕ → Dict ExpertLocation → Option ℕ
unfolding is_slot_free
first_free [] experts = none
first_free (slot ∷ slots) experts =
    let rest = first_free slots experts in if is_slot_free slot experts then some slot else rest

-- `layers.get(layer_id)`: no entry uses a slot of an unknown layer.
abbrev pub experts_of : ℕ → ExpertTracker → Dict ExpertLocation
experts_of layer t = elim (lookup layer t.layers) [ none ↦ [] | some m ↦ m.experts ]

-- `num_gpu_experts` is `int(num_local_experts * wg)`, the share of each layer.
module _ (num_gpu_experts : ℕ) where
  -- `_find_free_gpu_slot`
  unfoldable pub find_free_gpu_slot : ℕ → ExpertTracker → Option ℕ
  unfolding first_free
  find_free_gpu_slot layer t =
      first_free (range_from (layer * num_gpu_experts) num_gpu_experts) (experts_of layer t)

  -- `can_move_to_gpu`, after the read of the location.
  unfoldable pub can_move_to_gpu : ℕ → Option ExpertLocation → ExpertTracker → Option Refusal
  can_move_to_gpu layer loc t = elim loc [
    | none ↦ some Refusal.expert_not_found
    | some e ↦
        if location_eq e.location MemoryLocation.gpu_persistent
        then some Refusal.already_on_gpu
        else if leb t.gpu_capacity (persistent_total t.layers)
        then some Refusal.gpu_full
        else if leb num_gpu_experts (persistent_in (experts_of layer t))
        then some Refusal.layer_full
        else none
  ]

-- A call on the tracker of the engine.
abbrev pub on_tracker :
    {W A : Type 0} (lib : Weights W) → Action ExpertTracker A → Action (Engine lib) A
on_tracker lib call e = let (result, t) = call e.tracker in (result, record e { tracker = t })

-- `except Exception`: what was written until then stays written.
abbrev pub caught : {S : Type 0} → Action S (Option Refusal) → Action S (Option Refusal)
caught body s =
    let (result, s') = body s in
    elim result [
      | ok r ↦ (ok r, s')
      | raise e ↦ (ok (some Refusal.exception), s')
      | blocked ↦ (blocked, s')
    ]

-- `self.cpu_expert_storage[key] = weights`
abbrev pub stored : {W : Type 0} → ℕ → ℕ → W → (ℕ → ℕ → Option W) → ℕ → ℕ → Option W
stored layer expert w storage l x = if l == layer && x == expert then some w else storage l x

module _ {W : Type 0} (lib : Weights W) (num_gpu_experts now : ℕ) (device : ℤ)
    (layer expert : ℕ) where
  -- `_get_expert_weights_from_cpu`
  abbrev pub weights_from_cpu : Engine lib → Option W
  weights_from_cpu e = elim (e.cpu_expert_storage layer expert) [
    | some w ↦ some w
    | none ↦ lib.get_expert_weights layer expert
  ]

  -- `experts_mapping[layer_id][expert_id] = value`
  abbrev pub set_mapping : ℤ → Action (Engine lib) (Unit {0})
  set_mapping value e = elim (get_elem? e.experts_mapping layer) [
    | none ↦ (raise Error.index_error, e)
    | some row ↦ elim (get_elem? row expert) [
      | none ↦ (raise Error.index_error, e)
      | some old ↦
          (ok tt, record e { experts_mapping = set e.experts_mapping layer (set row expert value) })
    ]
  ]

  -- `experts_cache[slot].copy_(weights)`
  abbrev pub write_slot : ℕ → W → Action (Engine lib) (Unit {0})
  write_slot slot w e = elim (lib.rows.store e.experts_cache slot w) [
    | none ↦ (raise Error.index_error, e)
    | some cache ↦ (ok tt, record e { experts_cache = cache })
  ]

  -- The copy to the slot, and what is recorded of it.
  unfoldable pub install : ℕ → W → W → Action (Engine lib) (Option Refusal)
  install slot target w =
      if not (lib.size target == lib.size w)
      then pure (some Refusal.shape_mismatch)
      else (write_slot slot w
          >> on_tracker lib (
              update_expert_location layer expert MemoryLocation.gpu_persistent ExpertStatus.cached
                device (pos slot) now)
          >> set_mapping (pos slot)
          >> pure none)

  -- The body of `move_expert_to_gpu` after the check.
  unfoldable pub copy_to_gpu : Action (Engine lib) (Option Refusal)
  unfolding install
  copy_to_gpu e = elim (find_free_gpu_slot num_gpu_experts layer e.tracker) [
    | none ↦ (ok (some Refusal.no_free_slot), e)
    | some slot ↦ elim (weights_from_cpu e) [
      | none ↦ (ok (some Refusal.no_weights), e)
      | some w ↦ elim (lib.rows.load e.experts_cache slot) [
        | none ↦ (raise Error.index_error, e)
        | some target ↦ install slot target w e
      ]
    ]
  ]

  -- `move_expert_to_gpu`: nothing, or why it was refused. The second read of the location, which
  -- nothing can have changed, is left out.
  unfoldable pub move_expert_to_gpu : Action (Engine lib) (Option Refusal)
  unfolding get_expert_location copy_to_gpu
  move_expert_to_gpu = do
    loc ← on_tracker lib (get_expert_location layer expert)
    t ← gets (λ e. e.tracker)
    elim (can_move_to_gpu num_gpu_experts layer loc t) [
      | some why ↦ pure (some why)
      | none ↦ caught copy_to_gpu
    ]

  -- The storage of the expert, if need be a new one; `none` where none can be had.
  abbrev pub cpu_storage : Engine lib → Option W
  cpu_storage e = elim (e.cpu_expert_storage layer expert) [ some w ↦ some w | none ↦ lib.allocate ]

  -- A refusal after the storage was made.
  abbrev pub refuse_storage : W → Refusal → Action (Engine lib) (Option Refusal)
  refuse_storage old why =
      modify (λ e. record e { cpu_expert_storage = stored layer expert old e.cpu_expert_storage })
      >> pure (some why)

  -- The copy from the slot to the storage `old`, and what is recorded of it.
  unfoldable pub uninstall : W → W → Action (Engine lib) (Option Refusal)
  uninstall old w =
      if lib.size w == 0
      then refuse_storage old Refusal.slot_empty
      else if not (lib.size w == lib.size old)
      then refuse_storage old Refusal.shape_mismatch
      else (modify
            (λ e. record e { cpu_expert_storage = stored layer expert w e.cpu_expert_storage })
          >> on_tracker lib (
              update_expert_location layer expert MemoryLocation.cpu_memory ExpertStatus.idle
                (negsuc 0) (negsuc 0) now)
          >> set_mapping (negsuc expert)
          >> pure none)

  unfoldable pub copy_to_cpu : ℤ → Action (Engine lib) (Option Refusal)
  unfolding uninstall
  copy_to_cpu (negsuc n) e = (ok (some Refusal.invalid_slot), e)
  copy_to_cpu (pos slot) e = elim (cpu_storage e) [
    | none ↦ (ok (some Refusal.no_cpu_memory), e)
    | some old ↦ elim (lib.rows.load e.experts_cache slot) [
      | none ↦ (
        raise Error.index_error,
        record e { cpu_expert_storage = stored layer expert old e.cpu_expert_storage },
      )
      | some w ↦ uninstall old w e
    ]
  ]

  unfoldable pub move_expert_to_cpu : Action (Engine lib) (Option Refusal)
  unfolding get_expert_location copy_to_cpu
  move_expert_to_cpu = do
    loc ← on_tracker lib (get_expert_location layer expert)
    elim loc [
      | none ↦ pure (some Refusal.expert_not_found)
      | some e ↦
          if not (location_eq e.location MemoryLocation.gpu_persistent)
          then pure (some Refusal.not_on_gpu)
          else caught (copy_to_cpu e.cache_slot)
    ]
