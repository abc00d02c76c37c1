-- ===== src/MicroBatches/Packing.antt =====
-- One round of the greedy loop: where the least sum stands, and what the round changes.
use harvest_mo_e.Base.{
  ◌⊎◌, ℕ, ◌+◌, ◌*◌, ◌≤◌, ◌≡◌, refl, sym, List, [], ◌∷◌, some, ◌==◌, length, get_elem?, inl, inr,
  arith, Bool-cases,
}
use harvest_mo_e.Requests.Req.{Req}
use harvest_mo_e.MicroBatches.{Policy, Part, Packed, least, index_of, too_large, fill, abort, place}

-- What a round does: it aborts the request, or the partition at `idx`, which can hold it, takes it.
pub record Taken (policy : Policy) (r : Req) (s : Packed) : Type 0 where
  pub idx : ℕ
  pub part : Part
  pub found : get_elem? s.partitions idx ≡ some part
  pub room : part.total + r.input_len + (1 + length part.reqs) * policy.gen_len ≤ policy.capacity
  pub filled : place policy r s ≡ fill policy r idx part s

-- A partition of the list has the sum `m`.
abbrev HasTotal : ℕ → List Part → Type 0
HasTotal m [] = 1 ≤ 0
HasTotal m (p ∷ ps) = (p.total ≡ m) ⊎ HasTotal m ps

least-HasTotal : (m : ℕ) (ps : List Part) → (least m ps ≡ m) ⊎ HasTotal (least m ps) ps
least-HasTotal m [] = inl refl
least-HasTotal m (p ∷ ps) = ground (arith, least-HasTotal m ps, least-HasTotal p.total ps)

index_of-found :
    (m : ℕ) (ps : List Part)
    → HasTotal m ps
    → (p : Part) × (get_elem? ps (index_of m ps) ≡ some p) × (p.total ≡ m)
index_of-found m [] h = absurd (omega (arith, h))
index_of-found m (p ∷ ps) h = elim (Bool-cases (p.total == m)) [
  | inl y ↦ (p, rw y refl, ground (arith, y))
  | inr n ↦ elim h [
    | inl e ↦ absurd (ground (arith, n, e))
    | inr rest ↦ let (q, found, e) = index_of-found m ps rest in (q, rw n found, e)
  ]
]

-- The least sum stands at its index.
least-found :
    (first : Part) (rest : List Part)
    → (p : Part) × (get_elem? (first ∷ rest) (index_of (least first.total rest) (first ∷ rest))
        ≡ some p)
least-found first rest =
    let m = least first.total rest in
    let h : HasTotal m (first ∷ rest) = elim (least-HasTotal first.total rest) [
      | inl e ↦ inl (sym e)
      | inr h ↦ inr h
    ] in
    let (p, found, e) = index_of-found m (first ∷ rest) h in (p, found)

split_place :
    (policy : Policy) (r : Req) (s : Packed) (ps : List Part)
    → let s' : Packed = record s { partitions = ps } in
      (place policy r s' ≡ abort policy r s') ⊎ Taken policy r s'
unfolding place
split_place policy r s [] = inl refl
split_place policy r s (first ∷ rest) =
    let s' : Packed = record s { partitions = first ∷ rest } in
    let idx = index_of (least first.total rest) (first ∷ rest) in
    let (p, found) = least-found first rest in
    elim (Bool-cases (too_large policy r p)) [
      | inl y ↦ inl (ground (arith, found, y))
      | inr n ↦ inr (record {
        idx = idx;
        part = p;
        found = found;
        room = ground (arith, n);
        filled = ground (arith, found, n);
      })
    ]

-- ... as it does in every state.
pub place-cases :
    (policy : Policy) (r : Req) (s : Packed)
    → (place policy r s ≡ abort policy r s) ⊎ Taken policy r s
unfolding place
place-cases policy r s = split_place policy r s s.partitions
