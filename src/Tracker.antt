-- ===== src/Tracker.antt =====
-- `class ExpertTracker` of fastmoe/backend/expert_tracker.py: where each expert of each layer is.
-- The clock is a parameter of the operations that read it; `size_bytes` and `metadata`, which the
-- class never reads, are left out. `_lock` is a `threading.Lock`, which the thread that holds it
-- cannot take again: taking it then is `blocked`.
pub mod Summary
pub mod Updates
pub mod Sync
pub mod Totals
mod Tests
use harvest_mo_e.Base.{
  ℕ, zero, suc, ◌+◌, ◌-◌, ◌*◌, ◌<◌, ◌≡◌, Bool, true, false, Option, none, some, List, [], ◌∷◌, ltb,
  ◌==◌, if◌then◌else◌, length, range, map,
}
use harvest_mo_e.Base.Int.{ℤ, pos, negsuc}
use harvest_mo_e.Base.Dict.{Dict, lookup, insert}
use harvest_mo_e.Base.Action.{
  Error, Result, ok, raise, blocked, Action, pure, gets, modify, ◌>>=◌, ◌>>◌,
}

pub data MemoryLocation : Type 0 where
  gpu_persistent gpu_cache cpu_memory cpu_pinned not_loaded : MemoryLocation

pub data ExpertStatus : Type 0 where
  active cached loading idle not_available : ExpertStatus

-- The members of the enumeration, in order.
abbrev pub locations : List MemoryLocation
locations =
    MemoryLocation.gpu_persistent ∷ MemoryLocation.gpu_cache ∷ MemoryLocation.cpu_memory
    ∷ MemoryLocation.cpu_pinned ∷ MemoryLocation.not_loaded ∷ []

abbrev pub location_eq : MemoryLocation → MemoryLocation → Bool
location_eq MemoryLocation.gpu_persistent MemoryLocation.gpu_persistent = true
location_eq MemoryLocation.gpu_cache MemoryLocation.gpu_cache = true
location_eq MemoryLocation.cpu_memory MemoryLocation.cpu_memory = true
location_eq MemoryLocation.cpu_pinned MemoryLocation.cpu_pinned = true
location_eq MemoryLocation.not_loaded MemoryLocation.not_loaded = true
location_eq _ _ = false

pub record ExpertLocation : Type 0 where
  pub expert_id : ℕ
  pub layer_id : ℕ
  pub location : MemoryLocation
  pub status : ExpertStatus
  pub device_id : ℤ
  pub cache_slot : ℤ
  pub last_accessed : ℕ
  pub access_count : ℕ

pub record LayerExpertMap : Type 0 where
  pub layer_id : ℕ
  pub num_experts : ℕ
  pub experts : Dict ExpertLocation

pub record ExpertTracker : Type 0 where
  pub num_layers : ℕ
  pub num_experts_per_layer : ℕ
  pub gpu_capacity : ℕ
  pub cache_size : ℕ
  pub layers : Dict LayerExpertMap
  pub locked : Bool

-- `dict((k, f(k)) for k in keys)`
abbrev pub dict_of : {V : Type 0} → (ℕ → V) → List ℕ → Dict V
dict_of f [] = []
dict_of f (k ∷ ks) = (k, f k) ∷ dict_of f ks

abbrev pub initial_expert : ℕ → ℕ → ℕ → ExpertLocation
initial_expert now layer expert = record {
  expert_id = expert;
  layer_id = layer;
  location = MemoryLocation.not_loaded;
  status = ExpertStatus.not_available;
  device_id = negsuc 0;
  cache_slot = negsuc 0;
  last_accessed = now;
  access_count = 0;
}

abbrev pub initial_layer : ℕ → ℕ → ℕ → LayerExpertMap
initial_layer now num_experts layer = record {
  layer_id = layer;
  num_experts = num_experts;
  experts = dict_of (initial_expert now layer) (range num_experts);
}

unfoldable pub init : ℕ → (num_layers num_experts gpu_experts cache_size : ℕ) → ExpertTracker
init now num_layers num_experts gpu_experts cache_size = record {
  num_layers = num_layers;
  num_experts_per_layer = num_experts;
  gpu_capacity = gpu_experts;
  cache_size = cache_size;
  layers = dict_of (initial_layer now num_experts) (range num_layers);
  locked = false;
}

-- `with self._lock:`, which gives the lock back also where the body raises.
abbrev pub with_lock : {A : Type 0} → Action ExpertTracker A → Action ExpertTracker A
with_lock body t =
    if t.locked
    then (blocked, t)
    else let (result, t') = body (record t { locked = true }) in
      elim result [
        | ok a ↦ (ok a, record t' { locked = false })
        | raise e ↦ (raise e, record t' { locked = false })
        | blocked ↦ (blocked, t')
      ]

-- The entry of an expert, where both keys are known.
abbrev pub find : ℕ → ℕ → ExpertTracker → Option ExpertLocation
find layer expert t = elim (lookup layer t.layers) [
  | none ↦ none
  | some m ↦ lookup expert m.experts
]

-- A write to the entry of an expert; nothing happens where a key is unknown.
abbrev pub put : ℕ → ℕ → (ExpertLocation → ExpertLocation) → ExpertTracker → ExpertTracker
put layer expert f t = elim (lookup layer t.layers) [
  | none ↦ t
  | some m ↦ elim (lookup expert m.experts) [
    | none ↦ t
    | some e ↦ record t {
      layers = insert layer (record m { experts = insert expert (f e) m.experts }) t.layers;
    }
  ]
]

abbrev pub moved : MemoryLocation → ExpertStatus → ℤ → ℤ → ℕ → ExpertLocation → ExpertLocation
moved location status device_id cache_slot now e = record e {
  location = location;
  status = status;
  device_id = device_id;
  cache_slot = cache_slot;
  last_accessed = now;
}

abbrev pub accessed : ℕ → ExpertLocation → ExpertLocation
accessed now e = record e { last_accessed = now; access_count = e.access_count + 1 }

unfoldable pub update_expert_location :
    ℕ → ℕ → MemoryLocation → ExpertStatus → ℤ → ℤ → ℕ → Action ExpertTracker (Unit {0})
update_expert_location layer expert location status device_id cache_slot now =
    with_lock (modify (put layer expert (moved location status device_id cache_slot now)))

unfoldable pub mark_expert_accessed : ℕ → ℕ → ℕ → Action ExpertTracker (Unit {0})
mark_expert_accessed layer expert now = with_lock (modify (put layer expert (accessed now)))

unfoldable pub get_expert_location : ℕ → ℕ → Action ExpertTracker (Option ExpertLocation)
get_expert_location layer expert = with_lock (gets (find layer expert))

-- Where `sync_with_experts_mapping` takes an expert to be, with its device.
abbrev pub location_of : ℕ → ℕ → ℤ → MemoryLocation × ℤ
location_of num_gpu_experts expert cache_idx =
    if ltb expert num_gpu_experts then (MemoryLocation.gpu_persistent, pos 0) else elim cache_idx [
      | pos n ↦ (MemoryLocation.gpu_cache, pos 0)
      | negsuc n ↦ (MemoryLocation.cpu_memory, negsuc 0)
    ]

abbrev pub slot_of : ℤ → ℤ
slot_of (pos n) = pos n
slot_of (negsuc n) = negsuc 0

-- The loop of `sync_with_experts_mapping` from expert `i`, each round by `update`.
abbrev pub sync_from :
    (ℕ → MemoryLocation → ℤ → ℤ → Action ExpertTracker (Unit {0}))
    → ℕ
    → ℕ
    → List ℤ
    → Action ExpertTracker (Unit {0})
sync_from update num_gpu_experts i [] = pure tt
sync_from update num_gpu_experts i (cache_idx ∷ mapping) =
    update i (location_of num_gpu_experts i cache_idx).0 (location_of num_gpu_experts i cache_idx).1
      (slot_of cache_idx)
    >> sync_from update num_gpu_experts (i + 1) mapping

unfoldable pub sync_with_experts_mapping : ℕ → List ℤ → ℕ → ℕ → Action ExpertTracker (Unit {0})
unfolding update_expert_location
sync_with_experts_mapping layer mapping num_gpu_experts now = with_lock (λ t.
    elim (lookup layer t.layers) [
      | none ↦ (ok tt, t)
      | some m ↦
          sync_from
            (λ expert location device_id slot.
              update_expert_location layer expert location ExpertStatus.cached device_id slot now)
            num_gpu_experts 0 mapping t
    ])
