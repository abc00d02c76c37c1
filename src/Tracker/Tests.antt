-- ===== src/Tracker/Tests.antt =====
-- Runs of the tracker, and each theorem at concrete inputs.
use mathlib.Core.Option
use harvest_mo_e.Base.{ℕ, ◌+◌, ◌≤◌, ◌≡◌, refl, true, some, [], ◌∷◌, length, sum, get_elem?}
use harvest_mo_e.Base.Int.{pos, negsuc}
use harvest_mo_e.Base.Action.{ok, blocked}
use harvest_mo_e.Tracker.{
  ExpertTracker, ExpertLocation, MemoryLocation, ExpertStatus, init, initial_layer, find,
  mark_expert_accessed, update_expert_location, get_expert_location, sync_with_experts_mapping,
}
use harvest_mo_e.Tracker.Summary.{
  GlobalSummary, get_global_summary, add_layers, get_summary, get_experts_by_location,
  get_layer_summary, get_all_expert_locations,
}
use harvest_mo_e.Tracker.Updates.{IsTracker, init-IsTracker, update_expert_location_lem}
use harvest_mo_e.Tracker.Totals.{get_global_summary_lem}
use harvest_mo_e.Tracker.Sync.{sync_with_experts_mapping_blocks}

abbrev tracker : ExpertTracker
tracker = init 5 2 3 1 4

tracker-IsTracker : IsTracker tracker
tracker-IsTracker = init-IsTracker 5 2 3 1 4

abbrev on_gpu : ExpertTracker
on_gpu =
    (update_expert_location 1 2 MemoryLocation.gpu_cache ExpertStatus.cached (pos 0) (pos 3) 7
      tracker).1

summary_runs :
    (s : GlobalSummary) × (get_global_summary on_gpu ≡ (ok s, on_gpu))
    × (s.global_location_distribution ≡ 0 ∷ 1 ∷ 0 ∷ 0 ∷ 5 ∷ [])
    × (s.total_loaded ≡ 1)
unfolding get_global_summary add_layers get_summary get_experts_by_location update_expert_location
    init
summary_runs = (_, refl, refl, refl)

update_expert_location_lem_example :
    let (result, t') =
      update_expert_location 1 2 MemoryLocation.gpu_cache ExpertStatus.cached
        (pos 0)
        (pos 3)
        7
        tracker in
    (result ≡ ok tt)
    × IsTracker t'
    × (find 1 2 t'
        ≡ Option.map
            (λ (e : ExpertLocation). record {
              expert_id = e.expert_id;
              layer_id = e.layer_id;
              location = MemoryLocation.gpu_cache;
              status = ExpertStatus.cached;
              device_id = pos 0;
              cache_slot = pos 3;
              last_accessed = 7;
              access_count = e.access_count;
            })
            (find 1 2 tracker))
update_expert_location_lem_example =
    update_expert_location_lem 1 2 1 2 MemoryLocation.gpu_cache ExpertStatus.cached (pos 0) (pos 3)
      7 tracker tracker-IsTracker

get_global_summary_lem_example :
    let (result, t') = get_global_summary tracker in
    (s : GlobalSummary) × (not_loaded : ℕ) × (result ≡ ok s)
    × (t' ≡ tracker)
    × (sum s.global_location_distribution ≡ s.total_experts)
    × (get_elem? s.global_location_distribution 4 ≡ some not_loaded)
    × (s.total_loaded + not_loaded ≡ s.total_experts)
    × (length s.layer_summaries ≡ tracker.num_layers)
    × (s.total_accessed ≤ s.total_experts)
get_global_summary_lem_example = get_global_summary_lem tracker tracker-IsTracker

sync_with_experts_mapping_blocks_example :
    let (result, t') = sync_with_experts_mapping 1 (pos 0 ∷ negsuc 0 ∷ []) 1 9 tracker in
    (result ≡ blocked)
    × (t' ≡ record tracker { locked = true })
    × ((update_expert_location 0 2 MemoryLocation.gpu_cache ExpertStatus.cached
          (pos 0)
          (pos 3)
          10
          t').0
        ≡ blocked)
    × ((mark_expert_accessed 0 2 10 t').0 ≡ blocked)
    × ((get_expert_location 0 2 t').0 ≡ blocked)
    × ((get_layer_summary 0 t').0 ≡ blocked)
    × ((get_global_summary t').0 ≡ blocked)
    × ((get_all_expert_locations t').0 ≡ blocked)
    × ((sync_with_experts_mapping 0 [] 1 10 t').0 ≡ blocked)
unfolding init
sync_with_experts_mapping_blocks_example =
    sync_with_experts_mapping_blocks 1 1 9 (pos 0) (negsuc 0 ∷ []) (initial_layer 5 3 1) tracker 0 2
      10 MemoryLocation.gpu_cache ExpertStatus.cached (pos 0) (pos 3) [] tracker-IsTracker refl
