-- ===== src/KvPool.antt =====
-- `class TokenToKVPool` of fastmoe/backend/memory.py: a CPU pool of token rows per layer, and a GPU
-- buffer of two cache lines that serves as a direct mapped cache for it. The tensor library is a
-- parameter; `V` is the row of one token, keys and values.
pub mod Lines
pub mod Offload
pub mod Memory
mod Tests
use harvest_mo_e.Base.{
  ℕ, ◌+◌, ◌-◌, ◌*◌, ◌/◌, ◌%◌, ◌≤◌, ◌<◌, ◌≡◌, Option, none, some, List, ltb, leb, ◌&&◌, ◌==◌,
  if◌then◌else◌, get_elem?, set, replicate,
}
use harvest_mo_e.Base.Action.{Error, Result, ok, raise, Action}
use harvest_mo_e.Base.Tensor.{TensorLib}

-- The tensor operations of the pool.
pub record RowTensors (V : Type 0) : Type 1 where
  pub rows : TensorLib ℕ V
  pub open rows use *
  -- `torch.empty((n, …))`: n rows of any content.
  pub empty : ℕ → Tensor
  pub load-empty : (n i : ℕ) → i < n → (v : V) × (load (empty n) i ≡ some v)
  -- `dst[d : d + n].copy_(src[s : s + n])`, with `none` where the library raises.
  pub copy_rows : Tensor → ℕ → Tensor → ℕ → ℕ → Option Tensor
  -- Within both tensors the copy succeeds, ...
  pub copy_rows_some :
      (dst : Tensor) (d : ℕ) (src : Tensor) (s n : ℕ)
      → ((i : ℕ) → i < n → (v : V) × (load dst (d + i) ≡ some v))
      → ((i : ℕ) → i < n → (v : V) × (load src (s + i) ≡ some v))
      → (dst' : Tensor) × (copy_rows dst d src s n ≡ some dst')
  -- ... and changes the rows of its slice only.
  pub load-copy_rows :
      (dst dst' : Tensor) (d : ℕ) (src : Tensor) (s n : ℕ)
      → ((i : ℕ) → i < n → (v : V) × (load dst (d + i) ≡ some v))
      → ((i : ℕ) → i < n → (v : V) × (load src (s + i) ≡ some v))
      → copy_rows dst d src s n ≡ some dst'
      → (j : ℕ)
      → load dst' j ≡ (if leb d j && ltb j (d + n) then load src (s + (j - d)) else load dst j)

pub record TokenToKvPool {V : Type 0} (lib : RowTensors V) : Type 0 where
  pub cur_start_loc : ℕ
  pub cur_cl : ℕ
  pub cache_line : ℕ
  pub cpu_size : ℕ
  -- `None` after `delete_gpu_cache`
  pub kv_data : Option lib.rows.Tensor
  pub kv_data_cpu : List lib.rows.Tensor

module _ {V : Type 0} (lib : RowTensors V) where
  -- `__init__`: the CPU size is rounded down to a multiple of the cache line.
  unfoldable pub init : (gpu_size cpu_size layer_num : ℕ) → Result (TokenToKvPool lib)
  init gpu_size cpu_size layer_num =
      let line = gpu_size / 2 in
      if line == 0
      then raise Error.zero_division
      else ok (record {
        cur_start_loc = 0;
        cur_cl = 0;
        cache_line = line;
        cpu_size = cpu_size / line * line;
        kv_data = some (lib.empty (2 * line));
        kv_data_cpu = replicate layer_num (lib.empty (cpu_size / line * line));
      })

  -- `alloc_cpu`: the CPU start, the GPU start and the cache line index of the next micro-batch.
  unfoldable pub alloc_cpu : TokenToKvPool lib → (ℕ × ℕ × ℕ) × TokenToKvPool lib
  alloc_cpu p = (
    (p.cur_start_loc, p.cur_cl * p.cache_line, p.cur_cl),
    record p { cur_start_loc = p.cur_start_loc + p.cache_line; cur_cl = (p.cur_cl + 1) % 2 },
  )

  -- `store`: rows from the GPU buffer to the CPU pool of the layer.
  unfoldable pub store : ℕ → ℕ → ℕ → Action (TokenToKvPool lib) (Unit {0})
  store dst_start size layer p =
      if p.cache_line == 0
      then (raise Error.zero_division, p)
      else elim (get_elem? p.kv_data_cpu layer) [
        | none ↦ (raise Error.index_error, p)
        | some cpu ↦ elim p.kv_data [
          | none ↦ (raise Error.type_error, p)
          | some gpu ↦
              elim (lib.copy_rows cpu dst_start gpu (dst_start % (2 * p.cache_line)) size) [
                | none ↦ (raise Error.runtime_error, p)
                | some cpu' ↦ (ok tt, record p { kv_data_cpu = set p.kv_data_cpu layer cpu' })
              ]
        ]
      ]

  -- `load`: rows from the CPU pool of the layer to the GPU buffer.
  unfoldable pub load : ℕ → ℕ → ℕ → Action (TokenToKvPool lib) (Unit {0})
  load src_start size layer p =
      if p.cache_line == 0 then (raise Error.zero_division, p) else elim p.kv_data [
        | none ↦ (raise Error.type_error, p)
        | some gpu ↦ elim (get_elem? p.kv_data_cpu layer) [
          | none ↦ (raise Error.index_error, p)
          | some cpu ↦
              elim (lib.copy_rows gpu (src_start % (2 * p.cache_line)) cpu src_start size) [
                | none ↦ (raise Error.runtime_error, p)
                | some gpu' ↦ (ok tt, record p { kv_data = some gpu' })
              ]
        ]
      ]

  unfoldable pub delete_gpu_cache : TokenToKvPool lib → TokenToKvPool lib
  delete_gpu_cache p = record p { kv_data = none }

  unfoldable pub clear : TokenToKvPool lib → TokenToKvPool lib
  clear p = record p { cur_start_loc = 0; cur_cl = 0 }
