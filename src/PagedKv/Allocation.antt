-- ===== src/PagedKv/Allocation.antt =====
-- What `allocate_blocks` and `free_sequence_blocks` do on every branch, and how many blocks they move.
use harvest_mo_e.Base.{
  ℕ, zero, suc, ◌+◌, ◌-◌, ◌*◌, ◌/◌, ◌≤◌, ◌<◌, ◌≡◌, List, [], ◌∷◌, ◌++◌, arith, ltb, ◌==◌,
  if◌then◌else◌, length, take, drop, length-take_le,
}
use mathlib.Core.List.{append_assoc, append-nil}
use harvest_mo_e.Base.Action.{Error, ok, raise}
use harvest_mo_e.Base.Dict.{
  insert, HasUniqueKeys, lookup-insert, lookup-erase_self, insert-HasUniqueKeys,
}
use harvest_mo_e.PagedKv.BlockTable.{
  BlockTable, ceil_div, take_free, pop_free, allocate_blocks, free_sequence_blocks, get_blocks,
}

-- The blocks that `num_tokens` tokens take.
abbrev pub blocks_needed : BlockTable → ℕ → ℕ
blocks_needed t num_tokens = (num_tokens + t.block_size - 1) / t.block_size

-- The table after `n` blocks went from the front of the free list to the sequence.
abbrev pub granted : ℕ → ℕ → BlockTable → BlockTable
granted seq_id n t = record t {
  free_blocks = drop n t.free_blocks;
  seq_to_blocks = insert seq_id (take n t.free_blocks) t.seq_to_blocks;
}

take_free_lem :
    (n : ℕ) (acc free : List ℕ) (t : BlockTable)
    → n ≤ length free
    → take_free n acc (record t { free_blocks = free })
      ≡ (ok (acc ++ take n free), record t { free_blocks = drop n free })
unfolding take_free pop_free
take_free_lem zero acc free t h = simp append-nil
take_free_lem (suc n) acc [] t h = absurd (omega arith)
take_free_lem (suc n) acc (b ∷ free) t h =
    rw (take_free_lem n (acc ++ b ∷ []) free t (omega arith)) (simp append_assoc)

-- An allocation raises ZeroDivisionError at block size 0, RuntimeError with too few free blocks,
-- and changes nothing in both cases. Otherwise it moves exactly ceil(num_tokens / block_size)
-- blocks from the front of the free list to the sequence, in order, and returns them.
pub allocate_blocks_lem :
    (seq_id num_tokens : ℕ) (t : BlockTable)
    → allocate_blocks seq_id num_tokens t ≡ (
        if t.block_size == 0
        then (raise Error.zero_division, t)
        else if ltb (length t.free_blocks) (blocks_needed t num_tokens)
        then (raise Error.runtime_error, t)
        else (
          ok (take (blocks_needed t num_tokens) t.free_blocks),
          granted seq_id (blocks_needed t num_tokens) t,
        ))
unfolding allocate_blocks ceil_div
allocate_blocks_lem seq_id num_tokens t =
    ground (arith, take_free_lem (blocks_needed t num_tokens) [] t.free_blocks t)

module _ (seq_id n : ℕ) (t : BlockTable) (unique : HasUniqueKeys t.seq_to_blocks) where
  free_sequence_blocks-granted :
      ((free_sequence_blocks seq_id (granted seq_id n t)).free_blocks
        ≡ drop n t.free_blocks ++ take n t.free_blocks)
      × (get_blocks seq_id (free_sequence_blocks seq_id (granted seq_id n t)) ≡ [])
  unfolding free_sequence_blocks get_blocks
  free_sequence_blocks-granted =
      let blocks = take n t.free_blocks in
      ground (
        arith,
        lookup-insert seq_id seq_id blocks t.seq_to_blocks,
        lookup-erase_self seq_id (insert seq_id blocks t.seq_to_blocks)
            (insert-HasUniqueKeys seq_id blocks t.seq_to_blocks unique),
      )

-- Freeing right after a successful allocation gives the new blocks back: they go from the front
-- of the free list to its end, in order, and the sequence is left with none.
pub free-allocate :
    (seq_id num_tokens : ℕ) (t : BlockTable)
    → HasUniqueKeys t.seq_to_blocks
    → 0 < t.block_size
    → blocks_needed t num_tokens ≤ length t.free_blocks
    → let (result, t') = allocate_blocks seq_id num_tokens t in
      let n = blocks_needed t num_tokens in
      (result ≡ ok (take n t.free_blocks))
      × ((free_sequence_blocks seq_id t').free_blocks
          ≡ drop n t.free_blocks ++ take n t.free_blocks)
      × (get_blocks seq_id (free_sequence_blocks seq_id t') ≡ [])
free-allocate seq_id num_tokens t unique p enough =
    rw (allocate_blocks_lem seq_id num_tokens t)
      (ground (arith, free_sequence_blocks-granted seq_id (blocks_needed t num_tokens) t unique))

ceil_bounds : (a b : ℕ) → 0 < b → (a ≤ (a + b - 1) / b * b) × ((a + b - 1) / b * b < a + b)
ceil_bounds a b h = grind arith

pub allocate_blocks_inv :
    (seq_id num_tokens : ℕ) (t : BlockTable) (blocks : List ℕ)
    → (allocate_blocks seq_id num_tokens t).0 ≡ ok blocks
    → (0 < t.block_size)
      × (length blocks ≡ blocks_needed t num_tokens)
      × (get_blocks seq_id (allocate_blocks seq_id num_tokens t).1 ≡ blocks)
unfolding get_blocks
allocate_blocks_inv seq_id num_tokens t blocks e =
    let n = blocks_needed t num_tokens in
    ground (
      arith,
      allocate_blocks_lem seq_id num_tokens t,
      length-take_le n t.free_blocks,
      lookup-insert seq_id seq_id (take n t.free_blocks) t.seq_to_blocks,
    )

-- A successful allocation hands out just enough blocks: their room holds the tokens, and one
-- block less would not.
pub allocate_blocks_fits :
    (seq_id num_tokens : ℕ) (t : BlockTable) {blocks : List ℕ}
    → (allocate_blocks seq_id num_tokens t).0 ≡ ok blocks
    → (num_tokens ≤ length blocks * t.block_size)
      × (length blocks * t.block_size < num_tokens + t.block_size)
      × (get_blocks seq_id (allocate_blocks seq_id num_tokens t).1 ≡ blocks)
unfolding get_blocks
allocate_blocks_fits seq_id num_tokens t {blocks} e =
    let (positive, size, found) = allocate_blocks_inv seq_id num_tokens t blocks e in
    let (enough, tight) = ceil_bounds num_tokens t.block_size positive in
    (rw size enough, rw size tight, found)
