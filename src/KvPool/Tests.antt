-- ===== src/KvPool/Tests.antt =====
-- Runs of the pool, and each theorem at concrete inputs.
use harvest_mo_e.Base.{ℕ, ◌+◌, ◌<◌, ◌≡◌, refl, arith, some, [], ◌∷◌}
use harvest_mo_e.KvPool.Memory.{rows}
use harvest_mo_e.Base.Rows.{Rows}
use harvest_mo_e.Base.Action.{Error, ok, raise}
use harvest_mo_e.KvPool.{TokenToKvPool, init, store, load}
use harvest_mo_e.KvPool.Offload.{Holds, load-store}

-- Two GPU lines of three rows, and seven CPU rows of which two lines of three are used.
abbrev pool : TokenToKvPool rows
pool = record {
  cur_start_loc = 0;
  cur_cl = 0;
  cache_line = 3;
  cpu_size = 6;
  kv_data = some (rows.empty 6);
  kv_data_cpu = rows.empty 6 ∷ rows.empty 6 ∷ [];
}

init-pool : init rows 6 7 2 ≡ ok pool
unfolding init
init-pool = refl

-- A GPU buffer of one row has no cache line.
init_refused : init rows 1 7 2 ≡ raise Error.zero_division
unfolding init
init_refused = refl

-- A GPU buffer with content, and one that another micro-batch has overwritten.
abbrev content : Rows
content = record { size = 6; at = λ i. i + 10 }

abbrev filled : TokenToKvPool rows
filled = record pool { kv_data = some content }

filled-Holds : Holds rows filled 1 content (rows.empty 6)
filled-Holds = record { positive = omega arith; on_gpu = refl; on_cpu = refl }

rows_of : (i : ℕ) (t : Rows) → i < 3 → t.size ≡ 6 → (v : ℕ) × (rows.rows.load t (3 + i) ≡ some v)
rows_of i t h e = (t.at (3 + i), ground (arith, h, e))

load-store_example :
    let (stored, p₁) = store rows 3 3 1 filled in
    let (loaded, p₂) = load rows 3 3 1 (record p₁ { kv_data = some (rows.empty 6) }) in
    (restored : Rows) × (stored ≡ ok tt)
    × (loaded ≡ ok tt)
    × (p₂.kv_data ≡ some restored)
    × (rows.rows.load restored 5 ≡ some 15)
load-store_example =
    load-store rows filled 3 3 1 2 content (rows.empty 6) (rows.empty 6) filled-Holds
      (λ i h. rows_of i (rows.empty 6) h refl) (λ i h. rows_of i content h refl)
      (λ i h. rows_of i (rows.empty 6) h refl) (omega arith)
