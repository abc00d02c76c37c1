-- ===== src/PagedKv/Layers.antt =====
-- The tables are kept per layer, the GPU cells are not: the cache tensor has no layer index, and
-- `write_kv` does not use its layer.
use mathlib.Core.Path.{subst}
use harvest_mo_e.Base.{
  ℕ, zero, suc, ◌+◌, ◌≤◌, ◌<◌, ◌≡◌, ◌≢◌, refl, ap, inl, inr, ◌∙◌, sym, ◌&&◌, some, List, [], ◌∷◌,
  arith, ltb, leb, if◌then◌else◌, length, get_elem?, set, Option-cases, replicate, take, range,
}
use harvest_mo_e.Base.Count.{count, count-get_elem?, count-take-drop, count-range_from}
use harvest_mo_e.Base.Action.{ok}
use harvest_mo_e.PagedKv.BlockTable
use harvest_mo_e.PagedKv.BlockTable.{BlockTable, Device}
use harvest_mo_e.PagedKv.Allocation.{allocate_blocks_lem, allocate_blocks_fits, blocks_needed}
use harvest_mo_e.PagedKv.Cache.{
  KvTensors, PagedKvCache, init, allocate_gpu_blocks, write_kv, read_kv,
}
use harvest_mo_e.PagedKv.RoundTrip.{IsWritable, write_kv-IsWritable, read_kv-write_kv}

get_elem?-replicate {ℓ} :
    {A : Type ℓ} (n i : ℕ) (a : A) → i < n → get_elem? (replicate n a) i ≡ some a
get_elem?-replicate zero i a h = elim h [ ]
get_elem?-replicate (suc n) zero a h = refl
get_elem?-replicate (suc n) (suc i) a h = get_elem?-replicate n i a (omega arith)

get_elem?-set_ne {ℓ} :
    {A : Type ℓ} (xs : List A) (i j : ℕ) (v : A) → i ≢ j → get_elem? (set xs i v) j ≡ get_elem? xs j
get_elem?-set_ne [] i j v h = refl
get_elem?-set_ne (x ∷ xs) zero zero v h = absurd (h refl)
get_elem?-set_ne (x ∷ xs) zero (suc j) v h = refl
get_elem?-set_ne (x ∷ xs) (suc i) zero v h = refl
get_elem?-set_ne (x ∷ xs) (suc i) (suc j) v h = get_elem?-set_ne xs i j v (λ e. h (ap suc e))

-- What an allocation returns depends on the free list and the block size of the table only.
allocate_gpu_blocks_result :
    {V : Type 0} (lib : KvTensors V) (s n l : ℕ) (c : PagedKvCache lib) (table : BlockTable)
    → get_elem? c.gpu_block_tables l ≡ some table
    → (allocate_gpu_blocks lib s n l c).0 ≡ (BlockTable.allocate_blocks s n table).0
unfolding allocate_gpu_blocks
allocate_gpu_blocks_result lib s n l c table e = ground (arith, e)

-- The allocation touches the tables and nothing else.
allocate_gpu_blocks_cells :
    {V : Type 0} (lib : KvTensors V) (s n l : ℕ) (c : PagedKvCache lib)
    → ((allocate_gpu_blocks lib s n l c).1.gpu_cache ≡ c.gpu_cache)
      × ((allocate_gpu_blocks lib s n l c).1.block_size ≡ c.block_size)
unfolding allocate_gpu_blocks
allocate_gpu_blocks_cells lib s n l c = elim (Option-cases (get_elem? c.gpu_block_tables l)) [
  | inl absent ↦ rw (absent, allocate_gpu_blocks) (refl, refl)
  | inr (table, e) ↦ rw (e, allocate_gpu_blocks) (refl, refl)
]

-- ... and of the tables, that of its own layer.
allocate_gpu_blocks_other :
    {V : Type 0} (lib : KvTensors V) (s n l m : ℕ) (c : PagedKvCache lib)
    → l ≢ m
    → get_elem? (allocate_gpu_blocks lib s n l c).1.gpu_block_tables m
      ≡ get_elem? c.gpu_block_tables m
unfolding allocate_gpu_blocks
allocate_gpu_blocks_other lib s n l m c ne = elim (Option-cases (get_elem? c.gpu_block_tables l)) [
  | inl absent ↦ rw (absent, allocate_gpu_blocks)
  | inr (table, e) ↦ rw (e, allocate_gpu_blocks) (get_elem?-set_ne c.gpu_block_tables l m _ ne)
]

-- The blocks that a new table hands out first.
init_blocks :
    (num size s n : ℕ) (blocks : List ℕ)
    → (BlockTable.allocate_blocks s n (BlockTable.init num size Device.cuda)).0 ≡ ok blocks
    → (k : ℕ) × (blocks ≡ take k (range num))
unfolding BlockTable.init
init_blocks num size s n blocks e =
    let table = BlockTable.init num size Device.cuda in
    let k = blocks_needed table n in (k, ground (arith, allocate_blocks_lem s n table))

module _ {V : Type 0} (lib : KvTensors V) (keys values : List V) (c c' : PagedKvCache lib) where
  IsWritable-same :
      (blocks : List ℕ)
      → c'.block_size ≡ c.block_size
      → c'.gpu_cache ≡ c.gpu_cache
      → IsWritable lib keys values blocks c
      → IsWritable lib keys values blocks c'
  IsWritable-same blocks e f w = record {
    positive = rw e w.positive;
    unique = w.unique;
    same_length = w.same_length;
    room = rw e w.room;
    cells = rw (e, f) w.cells;
  }

-- In a cache whose cells are zero tensors, the first blocks of a new table can be written.
fresh-IsWritable :
    {V : Type 0} (lib : KvTensors V) (keys values : List V) (num s : ℕ) (c : PagedKvCache lib)
    (blocks : List ℕ)
    → c.gpu_cache ≡ lib.zeros num c.block_size
    → length keys ≡ length values
    → (BlockTable.allocate_blocks s (length keys) (BlockTable.init num c.block_size Device.cuda)).0
      ≡ ok blocks
    → IsWritable lib keys values blocks c
unfolding BlockTable.init
fresh-IsWritable lib keys values num s c blocks zeros e a =
    let table = BlockTable.init num c.block_size Device.cuda in
    let (room, tight, found) = allocate_blocks_fits s (length keys) table a in
    let (k, first) = init_blocks num c.block_size s (length keys) blocks a in
    let once : (b : ℕ) → count b blocks ≤ (if leb 0 b && ltb b (0 + num) then 1 else 0) =
      λ b. rw first (omega (arith, count-take-drop b k (range num), count-range_from b 0 num)) in
    record {
      positive = omega arith;
      unique = λ b. ground (arith, once b);
      same_length = e;
      room = room;
      cells = λ i b offset h listed p. (
        lib.zero_row,
        rw (zeros, lib.load-zeros) (ground (arith, once b, count-get_elem? blocks i b listed)),
      );
    }

-- What `__init__` builds, where it does not raise.
init_inv :
    {V : Type 0} (lib : KvTensors V) (num num_cpu size heads dim layers : ℕ) (c : PagedKvCache lib)
    → init lib num num_cpu size heads dim layers ≡ ok c
    → (c.block_size ≡ size)
      × (c.gpu_cache ≡ lib.zeros num size)
      × (c.gpu_block_tables ≡ replicate layers (BlockTable.init num size Device.cuda))
unfolding init
init_inv lib num num_cpu size heads dim layers c e = ground arith

-- The blocks that are returned do not depend on the sequence.
allocate_blocks_seq :
    (s s' n : ℕ) (t : BlockTable)
    → (BlockTable.allocate_blocks s n t).0 ≡ (BlockTable.allocate_blocks s' n t).0
allocate_blocks_seq s s' n t = ground (arith, allocate_blocks_lem s n t, allocate_blocks_lem s' n t)

-- In a new cache, the blocks that a first allocation on one layer returns are returned once more
-- by a first allocation of as many tokens on any other layer. So where rows are written through
-- both layers, the first layer's blocks read as the second layer's rows.
pub layers_collide :
    {V : Type 0} (lib : KvTensors V) (num num_cpu size heads dim layers n : ℕ)
    (c : PagedKvCache lib) (s s' l m : ℕ) (blocks : List ℕ) (keys values keys' values' : List V)
    → init lib num num_cpu size heads dim layers ≡ ok c
    → l < layers
    → m < layers
    → l ≢ m
    → length keys ≡ n
    → length values ≡ n
    → length keys' ≡ n
    → length values' ≡ n
    → (allocate_gpu_blocks lib s n l c).0 ≡ ok blocks
    → let c₁ = (allocate_gpu_blocks lib s n l c).1 in
      let (again, c₂) = allocate_gpu_blocks lib s' n m c₁ in
      let c₃ = (write_kv lib keys values blocks l 0 c₂).1 in
      let c₄ = (write_kv lib keys' values' blocks m 0 c₃).1 in
      (again ≡ ok blocks)
      × ((read_kv lib blocks n c₃).0 ≡ ok (keys, values))
      × ((read_kv lib blocks n c₄).0 ≡ ok (keys', values'))
layers_collide lib num num_cpu size heads dim layers n c s s' l m blocks keys values keys' values'
      built hl hm ne ek ev ek' ev' a =
    let (block_size, zeros, tables) = init_inv lib num num_cpu size heads dim layers c built in
    let table = BlockTable.init num size Device.cuda in
    let c₁ = (allocate_gpu_blocks lib s n l c).1 in
    let c₂ = (allocate_gpu_blocks lib s' n m c₁).1 in
    let at : (i : ℕ) → i < layers → get_elem? c.gpu_block_tables i ≡ some table =
      λ i h. rw tables (get_elem?-replicate layers i table h) in
    let first : (BlockTable.allocate_blocks s n table).0 ≡ ok blocks =
      sym (allocate_gpu_blocks_result lib s n l c table (at l hl)) ∙ a in
    let again : (allocate_gpu_blocks lib s' n m c₁).0 ≡ ok blocks =
      allocate_gpu_blocks_result lib s' n m c₁ table
        (allocate_gpu_blocks_other lib s n l m c ne ∙ at m hm)
      ∙ allocate_blocks_seq s' s n table
      ∙ first in
    let (cells₁, size₁) = allocate_gpu_blocks_cells lib s n l c in
    let (cells₂, size₂) = allocate_gpu_blocks_cells lib s' n m c₁ in
    let w : IsWritable lib keys values blocks c₂ =
      IsWritable-same lib keys values c c₂ blocks (size₂ ∙ size₁) (cells₂ ∙ cells₁) (
        fresh-IsWritable lib keys values num s c blocks (rw block_size zeros) (ek ∙ sym ev)
          (rw (ek, block_size) first)) in
    let (run, back) = read_kv-write_kv lib keys values blocks l c₂ w in
    let c₃ = (write_kv lib keys values blocks l 0 c₂).1 in
    let w' =
      write_kv-IsWritable lib keys values blocks l c₂ w keys' values' (ek' ∙ sym ek)
        (ev' ∙ sym ek) in
    let (run', back') = read_kv-write_kv lib keys' values' blocks m c₃ w' in
    let c₄ = (write_kv lib keys' values' blocks m 0 c₃).1 in
    (
      again,
      subst (λ k. (read_kv lib blocks k c₃).0 ≡ ok (keys, values)) ek (ap (λ p. p.0) back),
      subst (λ k. (read_kv lib blocks k c₄).0 ≡ ok (keys', values')) ek' (ap (λ p. p.0) back'),
    )
