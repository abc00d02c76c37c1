-- ===== src/Tracker/Summary.antt =====
-- The summaries of the tracker (`get_experts_by_location`, `get_summary`, `get_layer_summary`,
-- `get_global_summary` and `get_all_expert_locations`), and what their numbers add up to. A
-- distribution lists the counts in the order of the enumeration. A layer never counts more
-- experts than `num_experts`, so its subtraction is exact.
use harvest_mo_e.Base.{
  ℕ, ◌+◌, ◌-◌, ◌*◌, Option, none, some, List, [], ◌∷◌, ◌++◌, ltb, if◌then◌else◌, length, map,
}
use harvest_mo_e.Base.Dict.{Dict, lookup}
use harvest_mo_e.Base.Action.{Action, gets}
use harvest_mo_e.Tracker.{
  MemoryLocation, ExpertLocation, LayerExpertMap, ExpertTracker, locations, location_eq, with_lock,
}

-- The identifiers of the experts at a location.
abbrev pub experts_at : MemoryLocation → Dict ExpertLocation → List ℕ
experts_at location [] = []
experts_at location ((expert, e) ∷ experts) =
    let rest = experts_at location experts in
    if location_eq e.location location then expert ∷ rest else rest

unfoldable pub get_experts_by_location : LayerExpertMap → MemoryLocation → List ℕ
get_experts_by_location m location = experts_at location m.experts

pub record LayerSummary : Type 0 where
  pub layer_id : ℕ
  pub total_experts : ℕ
  pub location_distribution : List ℕ
  pub loaded_experts : ℕ

unfoldable pub get_summary : LayerExpertMap → LayerSummary
unfolding get_experts_by_location
get_summary m = record {
  layer_id = m.layer_id;
  total_experts = m.num_experts;
  location_distribution = map (λ location. length (get_experts_by_location m location)) locations;
  loaded_experts = m.num_experts - length (get_experts_by_location m MemoryLocation.not_loaded);
}

unfoldable pub get_layer_summary : ℕ → Action ExpertTracker (Option LayerSummary)
unfolding get_summary
get_layer_summary layer =
    with_lock
      (gets (λ t. elim (lookup layer t.layers) [ none ↦ none | some m ↦ some (get_summary m) ]))

-- The experts of a layer that were used.
abbrev pub accessed_in : Dict ExpertLocation → ℕ
accessed_in [] = 0
accessed_in ((expert, e) ∷ experts) = (if ltb 0 e.access_count then 1 else 0) + accessed_in experts

-- `total[location] += count` for each location.
abbrev pub add_counts : List ℕ → List ℕ → List ℕ
add_counts (a ∷ totals) (b ∷ counts) = (a + b) ∷ add_counts totals counts
add_counts totals _ = totals

pub record GlobalSummary : Type 0 where
  pub num_layers : ℕ
  pub experts_per_layer : ℕ
  pub total_experts : ℕ
  pub total_loaded : ℕ
  pub total_accessed : ℕ
  pub gpu_capacity : ℕ
  pub cache_capacity : ℕ
  pub global_location_distribution : List ℕ
  pub layer_summaries : List LayerSummary

-- What the loop over the layers collects.
pub record Totals : Type 0 where
  pub distribution : List ℕ
  pub loaded : ℕ
  pub accessed : ℕ
  pub summaries : List LayerSummary

unfoldable pub add_layers : Dict LayerExpertMap → Totals → Totals
unfolding get_summary
add_layers [] totals = totals
add_layers ((layer, m) ∷ layers) totals =
    let summary = get_summary m in
    add_layers layers (record {
      distribution = add_counts totals.distribution summary.location_distribution;
      loaded = totals.loaded + summary.loaded_experts;
      accessed = totals.accessed + accessed_in m.experts;
      summaries = totals.summaries ++ summary ∷ [];
    })

abbrev pub no_totals : Totals
no_totals = record {
  distribution = map (λ (location : MemoryLocation). 0) locations;
  loaded = 0;
  accessed = 0;
  summaries = [];
}

unfoldable pub get_global_summary : Action ExpertTracker GlobalSummary
unfolding add_layers
get_global_summary = with_lock (
    gets (λ t.
      let totals = add_layers t.layers no_totals in
      record {
        num_layers = t.num_layers;
        experts_per_layer = t.num_experts_per_layer;
        total_experts = t.num_layers * t.num_experts_per_layer;
        total_loaded = totals.loaded;
        total_accessed = totals.accessed;
        gpu_capacity = t.gpu_capacity;
        cache_capacity = t.cache_size;
        global_location_distribution = totals.distribution;
        layer_summaries = totals.summaries;
      }))

-- The entries of the layers, in order.
abbrev pub entries : Dict ExpertLocation → List ExpertLocation
entries [] = []
entries ((expert, e) ∷ experts) = e ∷ entries experts

abbrev pub all_entries : Dict LayerExpertMap → List ExpertLocation
all_entries [] = []
all_entries ((layer, m) ∷ layers) = entries m.experts ++ all_entries layers

unfoldable pub get_all_expert_locations : Action ExpertTracker (List ExpertLocation)
get_all_expert_locations = with_lock (gets (λ t. all_entries t.layers))
