-- ===== src/MicroBatches/Conservation.antt =====
-- Every request of the queue ends up in one micro-batch or among the aborted ones.
use harvest_mo_e.Base.{
  ℕ, zero, suc, ◌+◌, ◌≡◌, refl, List, [], ◌∷◌, ◌++◌, some, ltb, leb, ◌==◌, if◌then◌else◌, length,
  get_elem?, set, inl, inr, arith, Bool-cases, map, replicate, some_inj,
}
use harvest_mo_e.Base.Count.{count}
use harvest_mo_e.Requests.Req.{Req, abort_req}
use harvest_mo_e.MicroBatches.{
  Policy, Part, Packed, insert_sorted, sorted, pop_at, joined, fill, place, place_all, start,
  create_micro_batches,
}
use harvest_mo_e.MicroBatches.Packing.{place-cases}

abbrev pub rids : List Req → List ℕ
rids [] = []
rids (r ∷ rs) = r.rid ∷ rids rs

-- How often an identifier stands in a list of requests, and in lists of them.
abbrev pub occurs : ℕ → List Req → ℕ
occurs a rs = count a (rids rs)

abbrev pub occurs_in : ℕ → List (List Req) → ℕ
occurs_in a [] = 0
occurs_in a (rs ∷ rss) = occurs a rs + occurs_in a rss

-- The sum of the weights of requests, in lists of them and in partitions. What every weight keeps,
-- the requests keep.
abbrev pub weight : (Req → ℕ) → List Req → ℕ
weight w [] = 0
weight w (r ∷ rs) = w r + weight w rs

abbrev pub weight_in : (Req → ℕ) → List (List Req) → ℕ
weight_in w [] = 0
weight_in w (rs ∷ rss) = weight w rs + weight_in w rss

abbrev weight_open : (Req → ℕ) → List Part → ℕ
weight_open w [] = 0
weight_open w (p ∷ ps) = weight w p.reqs + weight_open w ps

abbrev placed : (Req → ℕ) → Packed → ℕ
placed w s = weight_open w s.partitions + weight_in w s.micro_batches + weight w s.abort_requests

weight-append : (w : Req → ℕ) (rs ss : List Req) → weight w (rs ++ ss) ≡ weight w rs + weight w ss
weight-append w [] ss = omega arith
weight-append w (r ∷ rs) ss = omega (arith, weight-append w rs ss)

weight_in-append :
    (w : Req → ℕ) (rss sss : List (List Req))
    → weight_in w (rss ++ sss) ≡ weight_in w rss + weight_in w sss
weight_in-append w [] sss = omega arith
weight_in-append w (rs ∷ rss) sss = omega (arith, weight_in-append w rss sss)

weight_open-set :
    (w : Req → ℕ) (i : ℕ) (ps : List Part) (p q : Part)
    → get_elem? ps i ≡ some p
    → weight_open w (set ps i q) + weight w p.reqs ≡ weight_open w ps + weight w q.reqs
weight_open-set w i [] p q e = cc
weight_open-set w zero (x ∷ ps) p q e = rw (← some_inj _ _ e) (omega arith)
weight_open-set w (suc i) (x ∷ ps) p q e = omega (arith, weight_open-set w i ps p q e)

weight_open-pop_at :
    (w : Req → ℕ) (i : ℕ) (ps : List Part) (p : Part)
    → get_elem? ps i ≡ some p
    → weight_open w (pop_at ps i) + weight w p.reqs ≡ weight_open w ps
weight_open-pop_at w i [] p e = cc
weight_open-pop_at w zero (x ∷ ps) p e = rw (← some_inj _ _ e) (omega arith)
weight_open-pop_at w (suc i) (x ∷ ps) p e = omega (arith, weight_open-pop_at w i ps p e)

weight-insert_sorted :
    (w : Req → ℕ) (r : Req) (rs : List Req) → weight w (insert_sorted r rs) ≡ weight w (r ∷ rs)
weight-insert_sorted w r [] = refl
weight-insert_sorted w r (x ∷ xs) = elim (Bool-cases (leb x.input_len r.input_len)) [
  | inl y ↦ rw y refl
  | inr n ↦ rw n (omega (arith, weight-insert_sorted w r xs))
]

weight-sorted : (w : Req → ℕ) (rs : List Req) → weight w (sorted rs) ≡ weight w rs
weight-sorted w [] = refl
weight-sorted w (r ∷ rs) = omega (arith, weight-insert_sorted w r (sorted rs), weight-sorted w rs)

placed-fill :
    (policy : Policy) (w : Req → ℕ) (i : ℕ) (r : Req) (p : Part) (s : Packed)
    → get_elem? s.partitions i ≡ some p
    → placed w (fill policy r i p s) ≡ weight w (r ∷ []) + placed w s
placed-fill policy w i r p s found =
    let all = weight-append w p.reqs (r ∷ []) in
    elim (Bool-cases (length (joined r p).reqs == policy.ubs)) [
      | inl y ↦ rw y (
          omega (
            arith,
            all,
            weight_in-append w s.micro_batches ((joined r p).reqs ∷ []),
            weight_open-pop_at w i s.partitions p found,
          ))
      | inr n ↦ rw n (omega (arith, all, weight_open-set w i s.partitions p (joined r p) found))
    ]

placed-place :
    (policy : Policy) (w : Req → ℕ) (r : Req) (s : Packed)
    → placed w (place policy r s) ≡ weight w (r ∷ []) + placed w s
placed-place policy w r s = elim (place-cases policy r s) [
  | inl aborted ↦ rw aborted (omega (arith, weight-append w s.abort_requests (r ∷ [])))
  | inr taken ↦ rw taken.filled (placed-fill policy w taken.idx r taken.part s taken.found)
]

placed-place_all :
    (policy : Policy) (w : Req → ℕ) (rs : List Req) (s : Packed)
    → placed w (place_all policy rs s) ≡ weight w rs + placed w s
unfolding place_all
placed-place_all policy w [] s = omega arith
placed-place_all policy w (r ∷ rs) s =
    omega (arith, placed-place_all policy w rs (place policy r s), placed-place policy w r s)

weight_open-empty :
    (w : Req → ℕ) (n : ℕ) → weight_open w (replicate n (record { reqs = []; total = 0 })) ≡ 0
weight_open-empty w zero = refl
weight_open-empty w (suc n) = omega (arith, weight_open-empty w n)

weight_in-map :
    (w : Req → ℕ) (ps : List Part) → weight_in w (map (λ (p : Part). p.reqs) ps) ≡ weight_open w ps
weight_in-map w [] = refl
weight_in-map w (p ∷ ps) = omega (arith, weight_in-map w ps)

weight-abort :
    (w : Req → ℕ) (rs : List Req)
    → ((r : Req) → w (abort_req r) ≡ w r)
    → weight w (map abort_req rs) ≡ weight w rs
weight-abort w [] h = refl
weight-abort w (r ∷ rs) h = omega (arith, h r, weight-abort w rs h)

-- Whatever weight is given to the requests, and not changed by an abort, is kept.
pub create_micro_batches-weight :
    (policy : Policy) (queue : List Req) (w : Req → ℕ)
    → ((r : Req) → w (abort_req r) ≡ w r)
    → let (micro_batches, aborted) = create_micro_batches policy queue in
      weight_in w micro_batches + weight w aborted ≡ weight w queue
unfolding create_micro_batches
create_micro_batches-weight policy queue w h = elim (Bool-cases (ltb (length queue) policy.ubs)) [
  | inl y ↦ rw y (omega arith)
  | inr n ↦
      let s = place_all policy (sorted queue) (start policy) in
      rw n (
        omega (
          arith,
          placed-place_all policy w (sorted queue) (start policy),
          weight_open-empty w policy.n_ub,
          weight_in-append w s.micro_batches (map (λ (p : Part). p.reqs) s.partitions),
          weight_in-map w s.partitions,
          weight-abort w s.abort_requests h,
          weight-sorted w queue,
        ))
]

-- One for the requests with the identifier.
abbrev has_rid : ℕ → Req → ℕ
has_rid a r = if a == r.rid then 1 else 0

weight-has_rid : (a : ℕ) (rs : List Req) → weight (has_rid a) rs ≡ occurs a rs
weight-has_rid a [] = refl
weight-has_rid a (r ∷ rs) = omega (arith, weight-has_rid a rs)

weight_in-has_rid : (a : ℕ) (rss : List (List Req)) → weight_in (has_rid a) rss ≡ occurs_in a rss
weight_in-has_rid a [] = refl
weight_in-has_rid a (rs ∷ rss) = omega (arith, weight-has_rid a rs, weight_in-has_rid a rss)

rid-abort : (a : ℕ) (r : Req) → has_rid a (abort_req r) ≡ has_rid a r
unfolding abort_req
rid-abort a r = refl

-- No request is lost or doubled: each identifier occurs in the micro-batches and the aborted
-- requests together exactly as often as in the queue.
pub create_micro_batches_lem :
    (policy : Policy) (queue : List Req) (a : ℕ)
    → let (micro_batches, aborted) = create_micro_batches policy queue in
      occurs_in a micro_batches + occurs a aborted ≡ occurs a queue
create_micro_batches_lem policy queue a =
    let (micro_batches, aborted) = create_micro_batches policy queue in
    omega (
      arith,
      create_micro_batches-weight policy queue (has_rid a) (rid-abort a),
      weight_in-has_rid a micro_batches,
      weight-has_rid a aborted,
      weight-has_rid a queue,
    )
