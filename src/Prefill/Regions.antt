-- ===== src/Prefill/Regions.antt =====
-- The regions that `lay_out` gives to the sequences of a batch: room for the prompt and the answer
-- of each, one behind the other.
use harvest_mo_e.Base.{
  ℕ, zero, suc, ◌+◌, ◌≤◌, ◌<◌, ◌≡◌, refl, ap, sym, ◌∙◌, List, [], ◌∷◌, some, leb, if◌then◌else◌,
  length, get_elem?, All, arith, range_from, some_inj, All-append, All-mono, All-range_from,
}
use harvest_mo_e.Base.Count.{count, count-append, count-range_from}
use harvest_mo_e.Base.Int.{pos, sub_ℕ}
use harvest_mo_e.Requests.Req.{Req}
use harvest_mo_e.Prefill.{lay_out, kv_pt_of}

-- What the sequences take together.
abbrev pub footprint : ℕ → List Req → ℕ
footprint max_output_len [] = 0
footprint max_output_len (r ∷ rs) =
    length r.input_ids + max_output_len + footprint max_output_len rs

module _ (gpu cpu out : ℕ) where
  -- Sequence `i` starts within the range, its region ends within it, and its last prompt token is
  -- where its answer is appended.
  pub lay_out_at :
      (pt : ℕ) (reqs : List Req) (i : ℕ) (r : Req)
      → get_elem? reqs i ≡ some r
      → let layout = lay_out gpu cpu out pt reqs in
        (s : ℕ) × (get_elem? layout.start_loc i ≡ some s)
        × (get_elem? layout.decode_out_cache_loc i ≡ some (sub_ℕ (s + length r.input_ids) 1))
        × (cpu + pt ≤ s)
        × (s + length r.input_ids + out ≤ cpu + pt + footprint out reqs)
  unfolding lay_out
  lay_out_at pt [] i r e = cc
  lay_out_at pt (x ∷ reqs) zero r e =
      (cpu + pt, refl, rw (some_inj _ _ e) refl, omega arith, rw (some_inj _ _ e) (omega arith))
  lay_out_at pt (x ∷ reqs) (suc i) r e =
      let (s, start, decode, above, below) =
        lay_out_at (pt + length x.input_ids + out) reqs i r e in
      (s, start, decode, omega (arith, above), omega (arith, below))

  -- The region of an earlier sequence ends before a later one starts.
  pub lay_out-disjoint :
      (pt : ℕ) (reqs : List Req) (i j : ℕ) (r r' : Req) (s s' : ℕ)
      → i < j
      → get_elem? reqs i ≡ some r
      → get_elem? reqs j ≡ some r'
      → get_elem? (lay_out gpu cpu out pt reqs).start_loc i ≡ some s
      → get_elem? (lay_out gpu cpu out pt reqs).start_loc j ≡ some s'
      → s + length r.input_ids + out ≤ s'
  unfolding lay_out
  lay_out-disjoint pt [] i j r r' s s' lt ei ej e e' = cc
  lay_out-disjoint pt (x ∷ reqs) i zero r r' s s' lt ei ej e e' = absurd (omega (arith, lt))
  lay_out-disjoint pt (x ∷ reqs) zero (suc j) r r' s s' lt ei ej e e' =
      let (t, start, decode, above, below) =
        lay_out_at (pt + length x.input_ids + out) reqs j r' ej in
      let same : t ≡ s' = some_inj _ _ (sym start ∙ e') in
      let first : cpu + pt ≡ s = some_inj _ _ e in
      let prompt : length x.input_ids ≡ length r.input_ids =
        ap (λ (q : Req). length q.input_ids) (some_inj _ _ ei) in
      omega (arith, above, same, first, prompt)
  lay_out-disjoint pt (x ∷ reqs) (suc i) (suc j) r r' s s' lt ei ej e e' =
      lay_out-disjoint (pt + length x.input_ids + out) reqs i j r r' s s' (omega (arith, lt)) ei ej
        e e'

  -- The GPU slots lie in the range.
  pub lay_out-slots :
      (pt : ℕ) (reqs : List Req)
      → All
          (λ slot. (gpu + pt ≤ slot) × (slot < gpu + pt + footprint out reqs))
          (lay_out gpu cpu out pt reqs).out_cache_loc
  unfolding lay_out
  lay_out-slots pt [] = tt
  lay_out-slots pt (r ∷ reqs) =
      let n = length r.input_ids in
      let In : ℕ → Type 0 =
        λ slot. (gpu + pt ≤ slot) × (slot < gpu + pt + footprint out (r ∷ reqs)) in
      let rest = lay_out gpu cpu out (pt + n + out) reqs in
      All-append In (range_from (gpu + pt) n) rest.out_cache_loc
        (All-mono (λ slot. (gpu + pt ≤ slot) × (slot < gpu + pt + n)) In (range_from (gpu + pt) n)
          (λ x h. (h.0, omega (arith, h.1))) (All-range_from (gpu + pt) n))
        (All-mono
          (λ slot.
            (gpu + (pt + n + out) ≤ slot) × (slot < gpu + (pt + n + out) + footprint out reqs))
          In rest.out_cache_loc (λ x h. (omega (arith, h.0), omega (arith, h.1)))
          (lay_out-slots (pt + n + out) reqs))

  -- No GPU slot is given to two tokens.
  pub count-lay_out :
      (pt slot : ℕ) (reqs : List Req)
      → count slot (lay_out gpu cpu out pt reqs).out_cache_loc
        ≤ (if leb (gpu + pt) slot then 1 else 0)
  unfolding lay_out
  count-lay_out pt slot [] = ground arith
  count-lay_out pt slot (r ∷ reqs) =
      let n = length r.input_ids in
      let rest = lay_out gpu cpu out (pt + n + out) reqs in
      ground (
        arith,
        count-append slot (range_from (gpu + pt) n) rest.out_cache_loc,
        count-range_from slot (gpu + pt) n,
        count-lay_out (pt + n + out) slot reqs,
      )

-- The end of the last prompt, where the batch's rows end so far.
pub kv_pt_of-lay_out :
    (gpu cpu out pt : ℕ) (r : Req) (reqs : List Req)
    → let layout = lay_out gpu cpu out pt (r ∷ reqs) in
      (last : ℕ) × (kv_pt_of
          (sub_ℕ (cpu + pt + length r.input_ids) 1)
          (lay_out gpu cpu out (pt + length r.input_ids + out) reqs).decode_out_cache_loc
        ≡ pos last)
      × (cpu + pt ≤ last)
      × (last + out ≤ cpu + pt + footprint out (r ∷ reqs))
unfolding lay_out
kv_pt_of-lay_out gpu cpu out pt r [] =
    (cpu + pt + length r.input_ids, ground arith, omega arith, omega arith)
kv_pt_of-lay_out gpu cpu out pt r (x ∷ reqs) =
    let (last, e, above, below) =
      kv_pt_of-lay_out gpu cpu out (pt + length r.input_ids + out) x reqs in
    (last, e, omega (arith, above), omega (arith, below))
