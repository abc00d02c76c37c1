-- ===== src/MicroBatches/Capacity.antt =====
-- The sizes of the micro-batches: their number, and that each fits its bounds.
use harvest_mo_e.Base.{
  All-append, All-set, All-replicate, length-set, length-replicate, ℕ, zero, suc, ◌+◌, ◌*◌, ◌≤◌,
  ◌<◌, ◌≡◌, refl, ap, true, false, List, [], ◌∷◌, ◌++◌, some, ltb, ◌==◌, length, get_elem?, inl,
  inr, arith, Bool-cases, map, length-append, All, All-get_elem?,
}
use harvest_mo_e.Requests.Req.{Req, FinishReason, abort_req}
use harvest_mo_e.MicroBatches.{
  Policy, Part, Packed, sorted, pop_at, joined, fill, place, place_all, start, create_micro_batches,
}
use harvest_mo_e.MicroBatches.Packing.{place-cases}
use harvest_mo_e.MicroBatches.Conservation.{occurs, occurs_in, create_micro_batches_lem}

abbrev pub input_total : List Req → ℕ
input_total [] = 0
input_total (r ∷ rs) = r.input_len + input_total rs

-- Prompts and answers of the requests fit the capacity, and there are at most `ubs` of them.
pub record FitsPolicy (policy : Policy) (rs : List Req) : Type 0 where
  pub size : length rs ≤ policy.ubs
  pub room : input_total rs + length rs * policy.gen_len ≤ policy.capacity

record IsOpen (policy : Policy) (p : Part) : Type 0 where
  total : p.total ≡ input_total p.reqs
  size : length p.reqs < policy.ubs
  room : input_total p.reqs + length p.reqs * policy.gen_len ≤ policy.capacity

record IsPacked (policy : Policy) (s : Packed) : Type 0 where
  all_open : All (IsOpen policy) s.partitions
  all_closed : All (FitsPolicy policy) s.micro_batches
  number : length s.partitions + length s.micro_batches ≡ policy.n_ub

All-pop_at : (P : Part → Type 0) (ps : List Part) (i : ℕ) → All P ps → All P (pop_at ps i)
All-pop_at P [] i a = tt
All-pop_at P (p ∷ ps) zero a = a.1
All-pop_at P (p ∷ ps) (suc i) a = (a.0, All-pop_at P ps i a.1)

length-pop_at :
    (ps : List Part) (i : ℕ) (p : Part)
    → get_elem? ps i ≡ some p
    → length (pop_at ps i) + 1 ≡ length ps
length-pop_at [] i p e = cc
length-pop_at (q ∷ ps) zero p e = omega arith
length-pop_at (q ∷ ps) (suc i) p e = omega (arith, length-pop_at ps i p e)

input_total-append : (rs ss : List Req) → input_total (rs ++ ss) ≡ input_total rs + input_total ss
input_total-append [] ss = omega arith
input_total-append (r ∷ rs) ss = omega (arith, input_total-append rs ss)

input_total-joined :
    (r : Req) (p : Part)
    → p.total ≡ input_total p.reqs
    → (joined r p).total ≡ input_total (joined r p).reqs
input_total-joined r p e = omega (arith, e, input_total-append p.reqs (r ∷ []))

fill-IsPacked :
    (policy : Policy) (i : ℕ) (r : Req) (p : Part) (s : Packed)
    → get_elem? s.partitions i ≡ some p
    → p.total + r.input_len + (1 + length p.reqs) * policy.gen_len ≤ policy.capacity
    → IsPacked policy s
    → IsPacked policy (fill policy r i p s)
fill-IsPacked policy i r p s found room v =
    let was = All-get_elem? (IsOpen policy) s.partitions i p v.all_open found in
    let n = length-append p.reqs (r ∷ []) in
    let total = input_total-joined r p was.total in
    let more : length (joined r p).reqs ≡ 1 + length p.reqs = omega (arith, n) in
    let fits : input_total (joined r p).reqs + length (joined r p).reqs * policy.gen_len
        ≤ policy.capacity =
      rw (← total) (rw more room) in
    elim (Bool-cases (length (joined r p).reqs == policy.ubs)) [
      | inl y ↦ rw y (record {
        all_open = All-pop_at (IsOpen policy) s.partitions i v.all_open;
        all_closed =
            All-append (FitsPolicy policy) s.micro_batches ((joined r p).reqs ∷ []) v.all_closed
              (record { size = omega (arith, was.size, n); room = fits }, tt);
        number = omega (
          arith,
          v.number,
          length-append s.micro_batches ((joined r p).reqs ∷ []),
          length-pop_at s.partitions i p found,
        );
      })
      | inr n_full ↦ rw n_full (record {
        all_open =
            All-set (IsOpen policy) s.partitions i (joined r p) v.all_open
              (record { total = total; size = ground (arith, n_full, was.size, n); room = fits });
        all_closed = v.all_closed;
        number = omega (arith, v.number, length-set s.partitions i (joined r p));
      })
    ]

place_all-IsPacked :
    (policy : Policy) (rs : List Req) (s : Packed)
    → IsPacked policy s
    → IsPacked policy (place_all policy rs s)
unfolding place_all
place_all-IsPacked policy [] s v = v
place_all-IsPacked policy (r ∷ rs) s v =
    place_all-IsPacked policy rs (place policy r s) (elim (place-cases policy r s) [
      | inl aborted ↦
          rw aborted
            (record { all_open = v.all_open; all_closed = v.all_closed; number = v.number })
      | inr taken ↦
          rw taken.filled (fill-IsPacked policy taken.idx r taken.part s taken.found taken.room v)
    ])

start-IsPacked : (policy : Policy) → 1 ≤ policy.ubs → IsPacked policy (start policy)
start-IsPacked policy h = record {
  all_open =
      All-replicate (IsOpen policy) policy.n_ub (record { reqs = []; total = 0 })
        (record { total = refl; size = omega (arith, h); room = omega arith });
  all_closed = tt;
  number = omega (arith, length-replicate {A = Part} policy.n_ub (record { reqs = []; total = 0 }));
}

open-FitsPolicy :
    (policy : Policy) (ps : List Part)
    → All (IsOpen policy) ps
    → All (FitsPolicy policy) (map (λ (p : Part). p.reqs) ps)
open-FitsPolicy policy [] a = tt
open-FitsPolicy policy (p ∷ ps) a =
    (record { size = omega (arith, a.0.size); room = a.0.room }, open-FitsPolicy policy ps a.1)

length-reqs : (ps : List Part) → length (map (λ (p : Part). p.reqs) ps) ≡ length ps
length-reqs [] = refl
length-reqs (p ∷ ps) = ap suc (length-reqs ps)

-- A request that was aborted.
abbrev pub IsAborted : Req → Type 0
IsAborted r = (r.finished ≡ true) × (r.finish_reason ≡ some FinishReason.abort)

map-IsAborted : (rs : List Req) → All IsAborted (map abort_req rs)
unfolding abort_req
map-IsAborted [] = tt
map-IsAborted (r ∷ rs) = ((refl, refl), map-IsAborted rs)

create_micro_batches-sizes :
    (policy : Policy) (queue : List Req)
    → 1 ≤ policy.ubs
    → policy.ubs ≤ length queue
    → let (micro_batches, aborted) = create_micro_batches policy queue in
      (length micro_batches ≡ policy.n_ub)
      × All (FitsPolicy policy) micro_batches
      × All IsAborted aborted
unfolding create_micro_batches
create_micro_batches-sizes policy queue h enough =
    let s = place_all policy (sorted queue) (start policy) in
    let v = place_all-IsPacked policy (sorted queue) (start policy) (start-IsPacked policy h) in
    let regular : ltb (length queue) policy.ubs ≡ false = ground (arith, enough) in
    rw regular (
      omega (
        arith,
        v.number,
        length-reqs s.partitions,
        length-append s.micro_batches (map (λ (p : Part). p.reqs) s.partitions),
      ),
      All-append (FitsPolicy policy) s.micro_batches (map (λ (p : Part). p.reqs) s.partitions)
          v.all_closed (open-FitsPolicy policy s.partitions v.all_open),
      map-IsAborted s.abort_requests,
    )

-- With at least `ubs` requests in the queue there are exactly `n_ub` micro-batches. Each holds at
-- most `ubs` requests, and their prompts together with `gen_len` tokens for each fit the capacity.
-- Every other request of the queue is returned as an aborted one: the requests that are returned
-- apart are all marked, and each identifier occurs among them and in the micro-batches together
-- exactly as often as in the queue.
pub create_micro_batches-FitsPolicy :
    (policy : Policy) (queue : List Req) (a : ℕ)
    → 1 ≤ policy.ubs
    → policy.ubs ≤ length queue
    → let (micro_batches, aborted) = create_micro_batches policy queue in
      (length micro_batches ≡ policy.n_ub)
      × All (FitsPolicy policy) micro_batches
      × (occurs_in a micro_batches + occurs a aborted ≡ occurs a queue)
      × All IsAborted aborted
create_micro_batches-FitsPolicy policy queue a h enough =
    let (number, fit, marked) = create_micro_batches-sizes policy queue h enough in
    (number, fit, create_micro_batches_lem policy queue a, marked)
