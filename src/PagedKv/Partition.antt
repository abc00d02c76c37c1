-- ===== src/PagedKv/Partition.antt =====
-- The partition of the blocks into free ones and those of one sequence each.
use harvest_mo_e.Base.{
  ℕ, ◌+◌, ◌≤◌, ◌≡◌, ◌≢◌, inl, inr, List, [], ◌∷◌, none, some, arith, ltb, if◌then◌else◌, take,
  Option-cases,
}
use harvest_mo_e.Base.Count.{count, count-append, count-take-drop, count-range_from}
use harvest_mo_e.Base.Action.{ok}
use harvest_mo_e.Base.Dict.{
  Dict, lookup, insert, erase, HasUniqueKeys, insert-HasUniqueKeys, erase-HasUniqueKeys,
}
use harvest_mo_e.PagedKv.BlockTable.{
  BlockTable, Device, init, allocate_blocks, free_sequence_blocks, get_blocks,
}
use harvest_mo_e.PagedKv.Allocation.{blocks_needed, granted, allocate_blocks_lem}

-- How often a block is listed for some sequence.
abbrev pub owned : ℕ → Dict (List ℕ) → ℕ
owned b [] = 0
owned b ((k, blocks) ∷ d) = count b blocks + owned b d

-- Every block below `num_blocks` is free or belongs to one sequence, exactly once, and no other
-- number is listed; no sequence is listed twice.
pub record IsPartition (t : BlockTable) : Type 0 where
  pub once :
      (b : ℕ)
      → count b t.free_blocks + owned b t.seq_to_blocks ≡ (if ltb b t.num_blocks then 1 else 0)
  pub keys : HasUniqueKeys t.seq_to_blocks

-- A new table owns nothing, and all its blocks are free.
pub init-IsPartition :
    (num_blocks block_size : ℕ) (device : Device) → IsPartition (init num_blocks block_size device)
unfolding init
init-IsPartition n size device = record {
  once = λ b. ground (arith, count-range_from b 0 n);
  keys = tt;
}

owned-insert_new :
    (b seq_id : ℕ) (blocks : List ℕ) (d : Dict (List ℕ))
    → lookup seq_id d ≡ none
    → owned b (insert seq_id blocks d) ≡ owned b d + count b blocks
owned-insert_new b seq_id blocks [] h = omega arith
owned-insert_new b seq_id blocks ((k, bs) ∷ d) h =
    ground (arith, owned-insert_new b seq_id blocks d)

owned-insert_old :
    (b seq_id : ℕ) (blocks old : List ℕ) (d : Dict (List ℕ))
    → lookup seq_id d ≡ some old
    → owned b (insert seq_id blocks d) + count b old ≡ owned b d + count b blocks
owned-insert_old b seq_id blocks old [] h = cc
owned-insert_old b seq_id blocks old ((k, bs) ∷ d) h =
    ground (arith, owned-insert_old b seq_id blocks old d)

owned-erase :
    (b seq_id : ℕ) (old : List ℕ) (d : Dict (List ℕ))
    → lookup seq_id d ≡ some old
    → owned b (erase seq_id d) + count b old ≡ owned b d
owned-erase b seq_id old [] h = cc
owned-erase b seq_id old ((k, bs) ∷ d) h = ground (arith, owned-erase b seq_id old d)

granted-IsPartition :
    (seq_id n : ℕ) (t : BlockTable)
    → lookup seq_id t.seq_to_blocks ≡ none
    → IsPartition t
    → IsPartition (granted seq_id n t)
granted-IsPartition seq_id n t fresh v = record {
  once = λ b. omega (
    arith,
    v.once b,
    count-take-drop b n t.free_blocks,
    owned-insert_new b seq_id (take n t.free_blocks) t.seq_to_blocks fresh,
  );
  keys = insert-HasUniqueKeys seq_id _ t.seq_to_blocks v.keys;
}

-- For a sequence that has no blocks yet, an allocation keeps the partition, whether it succeeds
-- or raises.
pub allocate_blocks-IsPartition :
    (seq_id num_tokens : ℕ) (t : BlockTable)
    → lookup seq_id t.seq_to_blocks ≡ none
    → IsPartition t
    → IsPartition (allocate_blocks seq_id num_tokens t).1
allocate_blocks-IsPartition seq_id num_tokens t fresh v =
    rw (allocate_blocks_lem seq_id num_tokens t)
      (ground (arith, granted-IsPartition seq_id (blocks_needed t num_tokens) t fresh v))

-- Freeing the blocks of any sequence, known or not, keeps the partition.
pub free_sequence_blocks-IsPartition :
    (seq_id : ℕ) (t : BlockTable) → IsPartition t → IsPartition (free_sequence_blocks seq_id t)
unfolding free_sequence_blocks
free_sequence_blocks-IsPartition seq_id t v = elim (Option-cases (lookup seq_id t.seq_to_blocks)) [
  | inl absent ↦ rw (absent, free_sequence_blocks) v
  | inr (blocks, e) ↦
      rw (e, free_sequence_blocks)
        (record {
          once = λ b. omega (
            arith,
            v.once b,
            count-append b t.free_blocks blocks,
            owned-erase b seq_id blocks t.seq_to_blocks e,
          );
          keys = erase-HasUniqueKeys seq_id t.seq_to_blocks v.keys;
        })
]

owned-lookup :
    (b seq_id : ℕ) (blocks : List ℕ) (d : Dict (List ℕ))
    → lookup seq_id d ≡ some blocks
    → count b blocks ≤ owned b d
owned-lookup b seq_id blocks [] h = cc
owned-lookup b seq_id blocks ((k, bs) ∷ d) h = ground (arith, owned-lookup b seq_id blocks d)

owned-lookup_two :
    (b s s' : ℕ) (blocks blocks' : List ℕ) (d : Dict (List ℕ))
    → s ≢ s'
    → lookup s d ≡ some blocks
    → lookup s' d ≡ some blocks'
    → count b blocks + count b blocks' ≤ owned b d
owned-lookup_two b s s' blocks blocks' [] ne h h' = cc
owned-lookup_two b s s' blocks blocks' ((k, bs) ∷ d) ne h h' = ground (
  arith,
  owned-lookup_two b s s' blocks blocks' d ne,
  owned-lookup b s blocks d,
  owned-lookup b s' blocks' d,
)

-- Where the partition holds, a block below `num_blocks` belongs to at most one of two sequences
-- and the free list, and at most once; no other number belongs to any of them.
pub IsPartition-exclusive :
    (t : BlockTable) (s s' b : ℕ)
    → IsPartition t
    → s ≢ s'
    → count b (get_blocks s t) + count b (get_blocks s' t) + count b t.free_blocks
      ≤ (if ltb b t.num_blocks then 1 else 0)
unfolding get_blocks
IsPartition-exclusive t s s' b v ne = ground (
  arith,
  v.once b,
  owned-lookup_two b s s' (get_blocks s t) (get_blocks s' t) t.seq_to_blocks ne,
  owned-lookup b s (get_blocks s t) t.seq_to_blocks,
  owned-lookup b s' (get_blocks s' t) t.seq_to_blocks,
)
    -- A second allocation for a sequence that has blocks drops the old ones: if it succeeds, each of

-- them is neither free nor listed for any sequence.
pub reallocate_leaks :
    (seq_id num_tokens b : ℕ) (t : BlockTable) {old blocks : List ℕ}
    → IsPartition t
    → lookup seq_id t.seq_to_blocks ≡ some old
    → (allocate_blocks seq_id num_tokens t).0 ≡ ok blocks
    → 1 ≤ count b old
    → let t' = (allocate_blocks seq_id num_tokens t).1 in
      (count b t'.free_blocks ≡ 0) × (owned b t'.seq_to_blocks ≡ 0)
reallocate_leaks seq_id num_tokens b t {old} v e a listed =
    let n = blocks_needed t num_tokens in
    ground (
      arith,
      allocate_blocks_lem seq_id num_tokens t,
      count-take-drop b n t.free_blocks,
      owned-insert_old b seq_id (take n t.free_blocks) old t.seq_to_blocks e,
      v.once b,
    )
