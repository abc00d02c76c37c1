-- ===== src/Tracker/Totals.antt =====
-- What the numbers of the summaries add up to.
use harvest_mo_e.Base.{
  ℕ, suc, ◌+◌, ◌*◌, ◌≤◌, ◌≡◌, refl, ap, sym, ◌∙◌, some, List, [], ◌∷◌, ◌++◌, arith, if◌then◌else◌,
  length, map, sum, length-range_from, length-append, get_elem?,
}
use harvest_mo_e.Base.Dict.{Dict}
use harvest_mo_e.Base.Action.{ok}
use harvest_mo_e.Tracker.{
  MemoryLocation, ExpertLocation, LayerExpertMap, ExpertTracker, locations, location_eq,
}
use harvest_mo_e.Tracker.Summary.{
  GlobalSummary, Totals, experts_at, get_summary, accessed_in, add_counts, add_layers, no_totals,
  get_global_summary,
}
use harvest_mo_e.Tracker.Updates.{IsTracker, IsLayer, AllEntries, keys}

length-keys : {V : Type 0} (d : Dict V) → length (keys d) ≡ length d
length-keys [] = refl
length-keys ((k, v) ∷ d) = ap suc (length-keys d)

abbrev one_if : MemoryLocation → MemoryLocation → ℕ
one_if a b = if location_eq a b then 1 else 0

-- An expert is at exactly one location.
one_location : (l : MemoryLocation) → sum (map (λ location. one_if l location) locations) ≡ 1
one_location = elim [
  | MemoryLocation.gpu_persistent ↦ refl
  | MemoryLocation.gpu_cache ↦ refl
  | MemoryLocation.cpu_memory ↦ refl
  | MemoryLocation.cpu_pinned ↦ refl
  | MemoryLocation.not_loaded ↦ refl
]

length-experts_at :
    (location : MemoryLocation) (expert : ℕ) (e : ExpertLocation) (experts : Dict ExpertLocation)
    → length (experts_at location ((expert, e) ∷ experts))
      ≡ one_if e.location location + length (experts_at location experts)
length-experts_at location expert e experts = ground arith

abbrev pub distribution_of : Dict ExpertLocation → List ℕ
distribution_of experts = map (λ location. length (experts_at location experts)) locations

sum-distribution_of :
    (experts : Dict ExpertLocation) → sum (distribution_of experts) ≡ length experts
sum-distribution_of [] = refl
sum-distribution_of ((expert, e) ∷ experts) =
    let L = λ (l : MemoryLocation). length-experts_at l expert e experts in
    omega (
      arith,
      L MemoryLocation.gpu_persistent,
      L MemoryLocation.gpu_cache,
      L MemoryLocation.cpu_memory,
      L MemoryLocation.cpu_pinned,
      L MemoryLocation.not_loaded,
      one_location e.location,
      sum-distribution_of experts,
    )

accessed_in-le : (experts : Dict ExpertLocation) → accessed_in experts ≤ length experts
accessed_in-le [] = omega arith
accessed_in-le ((expert, e) ∷ experts) = ground (arith, accessed_in-le experts)

length-experts : (n layer : ℕ) (m : LayerExpertMap) → IsLayer n layer m → length m.experts ≡ n
length-experts n layer m v =
    sym (length-keys m.experts) ∙ ap length v.all_experts ∙ length-range_from 0 n

abbrev five : (a b c d e : ℕ) → List ℕ
five a b c d e = a ∷ b ∷ c ∷ d ∷ e ∷ []

-- What the loop over the layers keeps of its sums.
record Sums (n : ℕ) (layers : Dict LayerExpertMap) (before after : Totals) (total not_loaded : ℕ)
    : Type 0 where
  counts :
      (a : ℕ) × (b : ℕ) × (c : ℕ) × (d : ℕ) × (e : ℕ) × (after.distribution ≡ five a b c d e)
      × (a + b + c + d + e ≡ total + length layers * n)
      × (after.loaded + e ≡ before.loaded + not_loaded + length layers * n)
  some_accessed : after.accessed ≤ before.accessed + length layers * n
  all_summaries : length after.summaries ≡ length before.summaries + length layers

add_layers_lem :
    (n : ℕ) (layers : Dict LayerExpertMap) (before : Totals) (a b c d e : ℕ)
    → before.distribution ≡ five a b c d e
    → AllEntries (IsLayer n) layers
    → Sums n layers before (add_layers layers before) (a + b + c + d + e) e
unfolding add_layers
add_layers_lem n [] before a b c d e p v = record {
  counts = (a, b, c, d, e, p, omega arith, omega arith);
  some_accessed = omega arith;
  all_summaries = omega arith;
}
add_layers_lem n ((layer, m) ∷ layers) before a b c d e p v =
    let at : MemoryLocation → ℕ = λ l. length (experts_at l m.experts) in
    let g = at MemoryLocation.gpu_persistent in
    let h = at MemoryLocation.gpu_cache in
    let i = at MemoryLocation.cpu_memory in
    let j = at MemoryLocation.cpu_pinned in
    let k = at MemoryLocation.not_loaded in
    let size = length-experts n layer m v.0 in
    let whole : g + h + i + j + k ≡ n = omega (arith, sum-distribution_of m.experts, size) in
    let named = v.0.same_number in
    let used = accessed_in-le m.experts in
    let summary = get_summary m in
    let next : Totals = record {
      distribution = add_counts before.distribution summary.location_distribution;
      loaded = before.loaded + summary.loaded_experts;
      accessed = before.accessed + accessed_in m.experts;
      summaries = before.summaries ++ summary ∷ [];
    } in
    let p' : next.distribution ≡ five (a + g) (b + h) (c + i) (d + j) (e + k) =
      ap (λ l. add_counts l (distribution_of m.experts)) p in
    let rest = add_layers_lem n layers next (a + g) (b + h) (c + i) (d + j) (e + k) p' v.1 in
    let (a', b', c', d', e', q, total, loaded) = rest.counts in
    let longer = length-append before.summaries (summary ∷ []) in
    record {
      counts =
          (a', b', c', d', e', q, omega (arith, total, whole), omega (arith, loaded, whole, named));
      some_accessed = omega (arith, rest.some_accessed, used, size);
      all_summaries = omega (arith, rest.all_summaries, longer);
    }

-- The global summary of a well-formed tracker counts every expert at exactly one location: its
-- distribution adds up to `total_experts`, and so do `total_loaded` and the count of the experts
-- that are not loaded. It has one summary for each layer, and no more accessed experts than
-- experts. The call returns, and leaves the tracker as it is.
pub get_global_summary_lem :
    (t : ExpertTracker)
    → IsTracker t
    → let (result, t') = get_global_summary t in
      (s : GlobalSummary) × (not_loaded : ℕ) × (result ≡ ok s)
      × (t' ≡ t)
      × (sum s.global_location_distribution ≡ s.total_experts)
      × (get_elem? s.global_location_distribution 4 ≡ some not_loaded)
      × (s.total_loaded + not_loaded ≡ s.total_experts)
      × (length s.layer_summaries ≡ t.num_layers)
      × (s.total_accessed ≤ s.total_experts)
unfolding get_global_summary
get_global_summary_lem t v =
    let sums =
      add_layers_lem t.num_experts_per_layer t.layers no_totals 0 0 0 0 0 refl v.layers_ok in
    let (a, b, c, d, e, q, total, loaded) = sums.counts in
    let layers : length t.layers ≡ t.num_layers =
      sym (length-keys t.layers) ∙ ap length v.all_layers ∙ length-range_from 0 t.num_layers in
    let exact = ap (λ n. n * t.num_experts_per_layer) layers in
    rw v.free (
      _,
      e,
      refl,
      refl,
      rw q (omega (arith, total, exact)),
      rw q refl,
      omega (arith, loaded, exact),
      omega (arith, sums.all_summaries, layers),
      omega (arith, sums.some_accessed, exact),
    )
