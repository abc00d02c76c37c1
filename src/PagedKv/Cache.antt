-- ===== src/PagedKv/Cache.antt =====
-- `class PagedKVCache` of fastmoe/backend/paged_kv_cache.py: the cells, their writes and reads.
-- The tensor library is a parameter. `V` is one row of a cache cell, [num_heads, head_dim].
use Prim.Native.Nat.{bit_and}
use harvest_mo_e.Base.{
  ℕ, zero, suc, ◌+◌, ◌-◌, ◌/◌, ◌%◌, ◌≡◌, not, ◌&&◌, Option, none, some, List, [], ◌∷◌, ltb, ◌==◌,
  if◌then◌else◌, length, get_elem?, set, replicate,
}
use harvest_mo_e.Base.Action.{Error, Result, ok, raise, Action, pure, gets, or_raise, ◌>>=◌, ◌>>◌}
use harvest_mo_e.Base.Tensor.{TensorLib}
use harvest_mo_e.PagedKv.BlockTable
use harvest_mo_e.PagedKv.BlockTable.{BlockTable, Device}

-- The third index of the cache tensor: 0 for keys, 1 for values.
pub data Half : Type 0 where
  key value : Half

-- The index `[block, offset, half]`.
pub record Cell : Type 0 where
  pub block : ℕ
  pub offset : ℕ
  pub half : Half

-- The tensor operations of the cache: cells, zero tensors, and the copy of one block.
pub record KvTensors (V : Type 0) : Type 1 where
  pub cells : TensorLib Cell V
  pub open cells use *
  pub zero_row : V
  -- `torch.zeros((num_blocks, block_size, 2, …))`
  pub zeros : ℕ → ℕ → Tensor
  pub load-zeros :
      (n size : ℕ) (c : Cell)
      → load (zeros n size) c ≡ (if ltb c.block n && ltb c.offset size then some zero_row else none)
  -- `dst[i].copy_(src[j])`, with `none` for an index out of range.
  pub copy_block : Tensor → ℕ → Tensor → ℕ → Option Tensor
  pub load-copy_block :
      (dst dst' src : Tensor) (i j : ℕ) (c : Cell)
      → copy_block dst i src j ≡ some dst'
      → load dst' c ≡ (if c.block == i then load src (record c { block = j }) else load dst c)

pub record PagedKvCache {V : Type 0} (lib : KvTensors V) : Type 0 where
  pub block_size : ℕ
  pub num_heads : ℕ
  pub head_dim : ℕ
  pub num_layers : ℕ
  pub gpu_cache : lib.cells.Tensor
  pub cpu_cache : List lib.cells.Tensor
  pub gpu_block_tables : List BlockTable
  pub cpu_block_tables : List BlockTable

module _ {V : Type 0} (lib : KvTensors V) where
  -- `__init__`. Pinned and plain CPU memory differ in speed only. At block size 0 the test
  -- `0 & -1` gives 0, as `bit_and 0 0` does here.
  unfoldable pub init :
      (num_gpu_blocks num_cpu_blocks block_size num_heads head_dim num_layers : ℕ)
      → Result (PagedKvCache lib)
  unfolding BlockTable.init
  init num_gpu_blocks num_cpu_blocks block_size num_heads head_dim num_layers =
      if not (bit_and block_size (block_size - 1) == 0)
      then raise Error.value_error
      else ok (record {
        block_size = block_size;
        num_heads = num_heads;
        head_dim = head_dim;
        num_layers = num_layers;
        gpu_cache = lib.zeros num_gpu_blocks block_size;
        cpu_cache = replicate num_layers (lib.zeros num_cpu_blocks block_size);
        gpu_block_tables =
            replicate num_layers (BlockTable.init num_gpu_blocks block_size Device.cuda);
        cpu_block_tables =
            replicate num_layers (BlockTable.init num_cpu_blocks block_size Device.cpu);
      })

  -- `allocate_gpu_blocks`, through the table of the layer.
  unfoldable pub allocate_gpu_blocks : ℕ → ℕ → ℕ → Action (PagedKvCache lib) (List ℕ)
  allocate_gpu_blocks seq_id num_tokens layer_id c = elim (get_elem? c.gpu_block_tables layer_id) [
    | none ↦ (raise Error.index_error, c)
    | some table ↦
        let (result, table') = BlockTable.allocate_blocks seq_id num_tokens table in
        (result, record c { gpu_block_tables = set c.gpu_block_tables layer_id table' })
  ]

  -- `allocate_cpu_blocks`
  unfoldable pub allocate_cpu_blocks : ℕ → ℕ → ℕ → Action (PagedKvCache lib) (List ℕ)
  allocate_cpu_blocks seq_id num_tokens layer_id c = elim (get_elem? c.cpu_block_tables layer_id) [
    | none ↦ (raise Error.index_error, c)
    | some table ↦
        let (result, table') = BlockTable.allocate_blocks seq_id num_tokens table in
        (result, record c { cpu_block_tables = set c.cpu_block_tables layer_id table' })
  ]

  -- `self.gpu_cache[block, offset, half] = row`
  unfoldable pub store_cell : Cell → V → Action (PagedKvCache lib) (Unit {0})
  store_cell cell row c = elim (lib.cells.store c.gpu_cache cell row) [
    | none ↦ (raise Error.index_error, c)
    | some t ↦ (ok tt, record c { gpu_cache = t })
  ]

  -- `a // b` and `a % b` raise ZeroDivisionError at b = 0.
  unfoldable pub div_mod : ℕ → ℕ → Action (PagedKvCache lib) (ℕ × ℕ)
  div_mod a b c = (if b == 0 then raise Error.zero_division else ok (a / b, a % b), c)

  module _ (keys values : List V) (block_indices : List ℕ) where
    -- The body of the `if` in `write_kv`: both rows of token `i`, in the block that it falls into.
    unfoldable pub write_rows : Option ℕ → ℕ → ℕ → Action (PagedKvCache lib) (Unit {0})
    write_rows none block_offset i = pure tt
    write_rows (some physical) block_offset i = do
      k ← or_raise (get_elem? keys i) Error.index_error
      store_cell (record { block = physical; offset = block_offset; half = key }) k
      v ← or_raise (get_elem? values i) Error.index_error
      store_cell (record { block = physical; offset = block_offset; half = value }) v

    -- Round `i` of the loop of `write_kv`. A token beyond the blocks is skipped.
    unfoldable pub write_token : ℕ → ℕ → Action (PagedKvCache lib) (Unit {0})
    unfolding write_rows
    write_token start_token_idx i = do
      size ← gets (λ c. c.block_size)
      (block_idx, block_offset) ← div_mod (start_token_idx + i) size
      write_rows (get_elem? block_indices block_idx) block_offset i

    -- The loop from round `i`, with `n` rounds left.
    unfoldable pub write_tokens : ℕ → ℕ → ℕ → Action (PagedKvCache lib) (Unit {0})
    write_tokens start_token_idx zero i = pure tt
    write_tokens start_token_idx (suc n) i = do
      write_token start_token_idx i
      write_tokens start_token_idx n (i + 1)

    -- `write_kv`. The layer is not used by the source.
    unfoldable pub write_kv : ℕ → ℕ → Action (PagedKvCache lib) (Unit {0})
    write_kv layer_id start_token_idx = write_tokens start_token_idx (length keys) 0

  -- One round of `read_kv`: the rows of a token, zeros beyond the blocks.
  unfoldable pub read_token : List ℕ → ℕ → Action (PagedKvCache lib) (V × V)
  read_token block_indices token_idx = do
    c ← gets (λ c. c)
    (block_idx, block_offset) ← div_mod token_idx c.block_size
    elim (get_elem? block_indices block_idx) [
      | none ↦ pure (lib.zero_row, lib.zero_row)
      | some physical ↦ do
        let at = λ (h : Half).
            lib.cells.load c.gpu_cache
              (record { block = physical; offset = block_offset; half = h })
        k ← or_raise (at key) Error.index_error
        v ← or_raise (at value) Error.index_error
        pure (k, v)
    ]

  -- The loop of `read_kv` from `token_idx`, with `n` rounds left: the rows written to the results.
  unfoldable pub read_tokens : List ℕ → ℕ → ℕ → Action (PagedKvCache lib) (List V × List V)
  read_tokens block_indices zero token_idx = pure ([], [])
  read_tokens block_indices (suc n) token_idx = do
    (k, v) ← read_token block_indices token_idx
    (ks, vs) ← read_tokens block_indices n (token_idx + 1)
    pure (k ∷ ks, v ∷ vs)

  unfoldable pub read_kv : List ℕ → ℕ → Action (PagedKvCache lib) (List V × List V)
  read_kv block_indices num_tokens = read_tokens block_indices num_tokens 0

  -- `swap_blocks`: the source copies the GPU block to the CPU, and nothing the other way.
  unfoldable pub swap_blocks : ℕ → ℕ → ℕ → Action (PagedKvCache lib) (Unit {0})
  swap_blocks gpu_block_idx cpu_block_idx layer_id c = elim (get_elem? c.cpu_cache layer_id) [
    | none ↦ (raise Error.index_error, c)
    | some cpu ↦ elim (lib.copy_block cpu cpu_block_idx c.gpu_cache gpu_block_idx) [
      | none ↦ (raise Error.index_error, c)
      | some cpu' ↦ (ok tt, record c { cpu_cache = set c.cpu_cache layer_id cpu' })
    ]
  ]

  unfoldable pub load_blocks : ℕ → ℕ → ℕ → Action (PagedKvCache lib) (Unit {0})
  load_blocks cpu_block_idx gpu_block_idx layer_id c = elim (get_elem? c.cpu_cache layer_id) [
    | none ↦ (raise Error.index_error, c)
    | some cpu ↦ elim (lib.copy_block c.gpu_cache gpu_block_idx cpu cpu_block_idx) [
      | none ↦ (raise Error.index_error, c)
      | some gpu' ↦ (ok tt, record c { gpu_cache = gpu' })
    ]
  ]
