-- ===== src/PagedKv/BlockTable.antt =====
-- `class BlockTable` of fastmoe/backend/paged_kv_cache.py. Block indices and sequence identifiers
-- are natural numbers; identifiers are only compared.
use harvest_mo_e.Base.{
  ℕ, zero, suc, ◌+◌, ◌-◌, ◌/◌, List, [], ◌∷◌, ◌++◌, none, some, ltb, ◌==◌, if◌then◌else◌, length,
  range,
}
use harvest_mo_e.Base.Action.{Error, ok, raise, Action, pure, gets, raise_if, modify, ◌>>=◌, ◌>>◌}
use harvest_mo_e.Base.Dict.{Dict, lookup, insert, erase}

pub data Device : Type 0 where
  cuda cpu : Device

pub record BlockTable : Type 0 where
  pub num_blocks : ℕ
  pub block_size : ℕ
  pub device : Device
  pub free_blocks : List ℕ
  pub seq_to_blocks : Dict (List ℕ)

-- `__init__`
unfoldable pub init : ℕ → ℕ → Device → BlockTable
init num_blocks block_size device = record {
  num_blocks = num_blocks;
  block_size = block_size;
  device = device;
  free_blocks = range num_blocks;
  seq_to_blocks = [];
}

-- `math.ceil(a / b)`, which raises ZeroDivisionError at b = 0. The float quotient of two integers
-- below 2 ^ 53, the divisor a power of two, is exact, and so is its ceiling.
unfoldable pub ceil_div : {S : Type 0} → ℕ → ℕ → Action S ℕ
ceil_div a b s = (if b == 0 then raise Error.zero_division else ok ((a + b - 1) / b), s)

-- `self.free_blocks.pop(0)`
unfoldable pub pop_free : Action BlockTable ℕ
pop_free t = elim t.free_blocks [
  | [] ↦ (raise Error.index_error, t)
  | b ∷ rest ↦ (ok b, record t { free_blocks = rest })
]

-- The loop of `allocate_blocks`: `n` rounds are left.
unfoldable pub take_free : ℕ → List ℕ → Action BlockTable (List ℕ)
take_free zero allocated = pure allocated
take_free (suc n) allocated = do b ← pop_free; take_free n (allocated ++ b ∷ [])

unfoldable pub allocate_blocks : ℕ → ℕ → Action BlockTable (List ℕ)
allocate_blocks seq_id num_tokens = do
  size ← gets (λ t. t.block_size)
  needed ← ceil_div num_tokens size
  free ← gets (λ t. length t.free_blocks)
  raise_if (ltb free needed) Error.runtime_error
  allocated ← take_free needed []
  modify (λ t. record t { seq_to_blocks = insert seq_id allocated t.seq_to_blocks })
  pure allocated

unfoldable pub free_sequence_blocks : ℕ → BlockTable → BlockTable
free_sequence_blocks seq_id t = elim (lookup seq_id t.seq_to_blocks) [
  | none ↦ t
  | some blocks ↦ record t {
    free_blocks = t.free_blocks ++ blocks;
    seq_to_blocks = erase seq_id t.seq_to_blocks;
  }
]

unfoldable pub get_blocks : ℕ → BlockTable → List ℕ
get_blocks seq_id t = elim (lookup seq_id t.seq_to_blocks) [ none ↦ [] | some blocks ↦ blocks ]
