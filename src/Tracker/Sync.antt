-- ===== src/Tracker/Sync.antt =====
-- `sync_with_experts_mapping`, whose body takes the lock that it holds already.
use harvest_mo_e.Base.{ℕ, ◌≡◌, true, some, List, ◌∷◌, arith}
use harvest_mo_e.Base.Int.{ℤ}
use harvest_mo_e.Base.Dict.{lookup}
use harvest_mo_e.Base.Action.{blocked}
use harvest_mo_e.Tracker.Summary.{get_layer_summary, get_global_summary, get_all_expert_locations}
use harvest_mo_e.Tracker.{
  ExpertTracker, LayerExpertMap, MemoryLocation, ExpertStatus, update_expert_location,
  mark_expert_accessed, get_expert_location, sync_with_experts_mapping,
}
use harvest_mo_e.Tracker.Updates.{IsTracker}

-- The thread that syncs a known layer with a mapping of at least one expert blocks itself: nothing
-- is written, and the lock stays taken. Every operation on the tracker then blocks too, whatever its
-- arguments: the updates, the accesses, the lookups, the three summaries and another sync.
pub sync_with_experts_mapping_blocks :
    (layer num_gpu_experts now : ℕ) (cache_idx : ℤ) (mapping : List ℤ) (m : LayerExpertMap)
    (t : ExpertTracker) (layer' expert' now' : ℕ) (location : MemoryLocation)
    (status : ExpertStatus) (device slot : ℤ) (mapping' : List ℤ)
    → IsTracker t
    → lookup layer t.layers ≡ some m
    → let (result, t') =
        sync_with_experts_mapping layer (cache_idx ∷ mapping) num_gpu_experts now t in
      (result ≡ blocked)
      × (t' ≡ record t { locked = true })
      × ((update_expert_location layer' expert' location status device slot now' t').0 ≡ blocked)
      × ((mark_expert_accessed layer' expert' now' t').0 ≡ blocked)
      × ((get_expert_location layer' expert' t').0 ≡ blocked)
      × ((get_layer_summary layer' t').0 ≡ blocked)
      × ((get_global_summary t').0 ≡ blocked)
      × ((get_all_expert_locations t').0 ≡ blocked)
      × ((sync_with_experts_mapping layer' mapping' num_gpu_experts now' t').0 ≡ blocked)
unfolding sync_with_experts_mapping update_expert_location mark_expert_accessed get_expert_location
    get_layer_summary get_global_summary get_all_expert_locations
sync_with_experts_mapping_blocks layer num_gpu_experts now cache_idx mapping m t layer' expert' now'
      location status device slot mapping' v e =
    ground (arith, v.free, e)
