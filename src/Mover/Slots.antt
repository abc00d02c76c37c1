-- ===== src/Mover/Slots.antt =====
-- Where free slots are: a layer that `can_move_to_gpu` admits has one.
use harvest_mo_e.Base.{
  ◌⊎◌, ℕ, zero, suc, ◌+◌, ◌*◌, ◌≤◌, ◌<◌, ◌≡◌, ◌≢◌, refl, true, List, [], ◌∷◌, Option, none, some,
  if◌then◌else◌, length, inl, inr, arith, Bool-cases, Option-cases, range_from, length-range_from,
  All,
}
use harvest_mo_e.Base.Int.{ℤ, pos, negsuc}
use harvest_mo_e.Base.Dict.{Dict}
use harvest_mo_e.Base.Count.{count, count-range_from}
use harvest_mo_e.Tracker.{ExpertTracker, ExpertLocation, MemoryLocation, location_eq}
use harvest_mo_e.Mover.{
  persistent_in, is_slot_free, first_free, experts_of, find_free_gpu_slot, can_move_to_gpu,
}

-- How many slots of the list are taken.
abbrev taken : List ℕ → Dict ExpertLocation → ℕ
taken [] experts = 0
taken (slot ∷ slots) experts = (if is_slot_free slot experts then 0 else 1) + taken slots experts

-- How often a signed number stands in the list.
abbrev holds : List ℕ → ℤ → ℕ
holds slots (pos n) = count n slots
holds slots (negsuc n) = 0

holds-le : (slots : List ℕ) (z : ℤ) → ((n : ℕ) → count n slots ≤ 1) → holds slots z ≤ 1
holds-le slots (pos n) u = u n
holds-le slots (negsuc n) u = omega arith

slot_cases : (z : ℤ) → ((n : ℕ) × (z ≡ pos n)) ⊎ ((n : ℕ) × (z ≡ negsuc n))
slot_cases (pos n) = inl (n, refl)
slot_cases (negsuc n) = inr (n, refl)

first_free-none :
    (slots : List ℕ) (experts : Dict ExpertLocation)
    → first_free slots experts ≡ none
    → taken slots experts ≡ length slots
unfolding first_free
first_free-none [] experts e = refl
first_free-none (slot ∷ slots) experts e = elim (Bool-cases (is_slot_free slot experts)) [
  | inl y ↦ cc (rw y at e)
  | inr n ↦ rw n (omega (arith, first_free-none slots experts (rw n at e)))
]

-- One more expert takes at most as many slots as the list holds of its slot.
taken-cons :
    (slots : List ℕ) (expert : ℕ) (e : ExpertLocation) (experts : Dict ExpertLocation)
    → taken slots ((expert, e) ∷ experts)
      ≤ (if location_eq e.location MemoryLocation.gpu_persistent
          then holds slots e.cache_slot
          else 0)
        + taken slots experts
unfolding is_slot_free
taken-cons [] expert e experts = omega arith
taken-cons (slot ∷ slots) expert e experts = ground (
  arith,
  taken-cons slots expert e experts,
  Bool-cases (location_eq e.location MemoryLocation.gpu_persistent),
  slot_cases e.cache_slot,
)

taken-empty : (slots : List ℕ) → taken slots [] ≡ 0
unfolding is_slot_free
taken-empty [] = refl
taken-empty (slot ∷ slots) = omega (arith, taken-empty slots)

taken-le :
    (slots : List ℕ) (experts : Dict ExpertLocation)
    → ((n : ℕ) → count n slots ≤ 1)
    → taken slots experts ≤ persistent_in experts
taken-le slots [] u = omega (arith, taken-empty slots)
taken-le slots ((expert, e) ∷ experts) u = ground (
  arith,
  taken-cons slots expert e experts,
  taken-le slots experts u,
  holds-le slots e.cache_slot u,
)

-- Where fewer experts of the layer are persistent than its share, one of its slots is free.
find_free_gpu_slot-some :
    (num_gpu_experts layer : ℕ) (t : ExpertTracker)
    → persistent_in (experts_of layer t) < num_gpu_experts
    → (slot : ℕ) × (find_free_gpu_slot num_gpu_experts layer t ≡ some slot)
unfolding find_free_gpu_slot
find_free_gpu_slot-some num layer t h =
    let slots = range_from (layer * num) num in
    elim (Option-cases (first_free slots (experts_of layer t))) [
      | inl n ↦ absurd (
          omega (
            arith,
            h,
            first_free-none slots (experts_of layer t) n,
            taken-le slots (experts_of layer t)
                (λ b. ground (arith, count-range_from b (layer * num) num)),
            length-range_from (layer * num) num,
          ))
      | inr (slot, e) ↦ (slot, e)
    ]

-- No persistent expert among the entries has the slot.
abbrev pub Unused : ℕ → Dict ExpertLocation → Type 0
Unused slot = All λ (entry : ℕ × ExpertLocation).
    entry.1.location ≡ MemoryLocation.gpu_persistent → entry.1.cache_slot ≢ pos slot

is_slot_free-Unused :
    (slot : ℕ) (experts : Dict ExpertLocation)
    → is_slot_free slot experts ≡ true
    → Unused slot experts
unfolding is_slot_free
is_slot_free-Unused slot [] e = tt
is_slot_free-Unused slot ((expert, entry) ∷ experts) e = (
  λ persistent at. ground (arith, e, persistent, at),
  is_slot_free-Unused slot experts (ground (arith, e)),
)

first_free-some :
    (start n slot : ℕ) (experts : Dict ExpertLocation)
    → first_free (range_from start n) experts ≡ some slot
    → (start ≤ slot) × (slot < start + n) × (is_slot_free slot experts ≡ true)
unfolding first_free
first_free-some start zero slot experts e = cc
first_free-some start (suc n) slot experts e =
    ground (arith, e, first_free-some (start + 1) n slot experts)

-- Where `can_move_to_gpu` admits an expert, the search finds a slot: it lies in the range of the
-- layer, and no persistent expert of the layer has it.
pub can_move_to_gpu-slot :
    (num_gpu_experts layer : ℕ) (loc : Option ExpertLocation) (t : ExpertTracker)
    → can_move_to_gpu num_gpu_experts layer loc t ≡ none
    → (slot : ℕ) × (find_free_gpu_slot num_gpu_experts layer t ≡ some slot)
      × (layer * num_gpu_experts ≤ slot)
      × (slot < (layer + 1) * num_gpu_experts)
      × Unused slot (experts_of layer t)
unfolding can_move_to_gpu find_free_gpu_slot
can_move_to_gpu-slot num layer loc t e =
    let room : persistent_in (experts_of layer t) < num = ground (arith, e) in
    let (slot, found) = find_free_gpu_slot-some num layer t room in
    let (above, below, free) = first_free-some (layer * num) num slot (experts_of layer t) found in
    (slot, found, above, grind (arith, below), is_slot_free-Unused slot (experts_of layer t) free)
