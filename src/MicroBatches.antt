-- ===== src/MicroBatches.antt =====
-- `create_micro_batches` of fastmoe/backend/execution_engine.py: a greedy partition of the queue.
-- The policy gives the size `ubs` and the number `n_ub` of the micro-batches. `capacity` is the
-- cache line of the pool, or what `_calculate_paged_cache_capacity` computes in floats for the
-- paged cache: neither changes during the call. The lists `partitions` and `partitions_sums`,
-- which change together, are one list of pairs. Of a `Batch` only the requests are kept.
pub mod Packing
pub mod Conservation
pub mod Capacity
mod Tests
use harvest_mo_e.Base.{
  ℕ, zero, suc, ◌+◌, ◌-◌, ◌*◌, Bool, true, false, List, [], ◌∷◌, ◌++◌, Option, none, some, ltb, leb,
  ◌==◌, if◌then◌else◌, length, replicate, map, get_elem?, set,
}
use harvest_mo_e.Requests.Req.{Req, abort_req}

pub record Policy : Type 0 where
  pub ubs : ℕ
  pub n_ub : ℕ
  pub gen_len : ℕ
  pub capacity : ℕ

-- An open partition: its requests, and the sum of their lengths.
pub record Part : Type 0 where
  pub reqs : List Req
  pub total : ℕ

pub record Packed : Type 0 where
  pub partitions : List Part
  pub micro_batches : List (List Req)
  pub abort_requests : List Req

-- `sorted(req_queue, key=input_len, reverse=True)`: descending, and stable.
abbrev pub insert_sorted : Req → List Req → List Req
insert_sorted r [] = r ∷ []
insert_sorted r (x ∷ xs) =
    if leb x.input_len r.input_len then r ∷ x ∷ xs else x ∷ insert_sorted r xs

abbrev pub sorted : List Req → List Req
sorted [] = []
sorted (r ∷ rs) = insert_sorted r (sorted rs)

-- `min(partitions_sums)` and its first index.
abbrev pub least : ℕ → List Part → ℕ
least m [] = m
least m (p ∷ ps) = least (if ltb p.total m then p.total else m) ps

abbrev pub index_of : ℕ → List Part → ℕ
index_of m [] = 0
index_of m (p ∷ ps) = if p.total == m then 0 else suc (index_of m ps)

-- `partitions.pop(idx)`
abbrev pub pop_at : List Part → ℕ → List Part
pop_at [] i = []
pop_at (p ∷ ps) zero = ps
pop_at (p ∷ ps) (suc i) = p ∷ pop_at ps i

-- The partition with the request appended.
abbrev pub joined : Req → Part → Part
joined r p = record { reqs = p.reqs ++ r ∷ []; total = p.total + r.input_len }

module _ (policy : Policy) where
  abbrev pub too_large : Req → Part → Bool
  too_large r p = ltb policy.capacity (p.total + r.input_len + (1 + length p.reqs) * policy.gen_len)

  -- The partition `p` at `idx` takes the request, and is closed once it is full.
  abbrev pub fill : Req → ℕ → Part → Packed → Packed
  fill r idx p s =
      if length (joined r p).reqs == policy.ubs
      then record s {
        micro_batches = s.micro_batches ++ (joined r p).reqs ∷ [];
        partitions = pop_at s.partitions idx;
      }
      else record s { partitions = set s.partitions idx (joined r p) }

  abbrev pub abort : Req → Packed → Packed
  abort r s = record s { abort_requests = s.abort_requests ++ r ∷ [] }

  -- One round of the greedy loop; `none` would be an index out of range.
  unfoldable pub place : Req → Packed → Packed
  place r s = elim s.partitions [
    | [] ↦ abort r s
    | first ∷ rest ↦
        let idx = index_of (least first.total rest) (first ∷ rest) in
        elim (get_elem? (first ∷ rest) idx) [
          | none ↦ abort r s
          | some p ↦ if too_large r p then abort r s else fill r idx p s
        ]
  ]

  unfoldable pub place_all : List Req → Packed → Packed
  place_all [] s = s
  place_all (r ∷ rs) s = place_all rs (place r s)

  abbrev pub start : Packed
  start = record {
    partitions = replicate policy.n_ub (record { reqs = []; total = 0 });
    micro_batches = [];
    abort_requests = [];
  }

  -- `create_micro_batches`: the micro-batches, and the aborted requests.
  unfoldable pub create_micro_batches : List Req → List (List Req) × List Req
  unfolding place_all
  create_micro_batches req_queue =
      if ltb (length req_queue) policy.ubs
      then (req_queue ∷ [], [])
      else let s = place_all (sorted req_queue) start in
        (s.micro_batches ++ map (λ (p : Part). p.reqs) s.partitions, map abort_req s.abort_requests)
