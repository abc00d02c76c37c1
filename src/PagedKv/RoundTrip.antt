-- ===== src/PagedKv/RoundTrip.antt =====
-- Writing the rows of a sequence into its blocks (`write_kv`), and reading them back (`read_kv`).
use harvest_mo_e.Base.{
  ℕ, zero, suc, ◌+◌, ◌-◌, ◌*◌, ◌/◌, ◌%◌, ◌≤◌, ◌<◌, ◌≡◌, refl, inl, inr, ◌∙◌, ◌&&◌, some, List, [],
  ◌∷◌, arith, ltb, leb, ◌==◌, if◌then◌else◌, length, get_elem?, get_elem?-some, Option-cases,
}
use harvest_mo_e.Base.Count.{count}
use harvest_mo_e.Base.Action.{ok, >>=-ok}
use harvest_mo_e.PagedKv.Cache.{
  Half, key, value, Cell, KvTensors, PagedKvCache, store_cell, div_mod, write_token, write_tokens,
  write_kv, read_token, read_tokens, read_kv,
}
use harvest_mo_e.PagedKv.Rows.{row, HasCells, row-store, store-HasCells}

abbrev pick {ℓ} : {A : Type ℓ} → Half → A → A → A
pick key k v = k
pick value k v = v

div-lt : (t n size : ℕ) → 0 < size → t < n * size → t / size < n
div-lt t n size p h = grind arith

mod_lt : (t size : ℕ) → 0 < size → t % size < size
mod_lt t size p = grind arith

module _ {V : Type 0} (lib : KvTensors V) (keys values : List V) (blocks : List ℕ) where
  open lib.cells use {Tensor, load, store, store_some}

  module _ (c : PagedKvCache lib) (unique : (b : ℕ) → count b blocks ≤ 1)
      (positive : 0 < c.block_size) where
    write_token_lem :
        (start i b : ℕ) (k v : V) (gpu : Tensor)
        → get_elem? blocks ((start + i) / c.block_size) ≡ some b
        → get_elem? keys i ≡ some k
        → get_elem? values i ≡ some v
        → HasCells lib c.block_size blocks gpu
        → (gpu' : Tensor) × (write_token lib keys values blocks start i
              (record c { gpu_cache = gpu })
            ≡ (ok tt, record c { gpu_cache = gpu' }))
          × HasCells lib c.block_size blocks gpu'
          × ((t : ℕ) (h : Half)
              → row lib c.block_size blocks gpu' h t ≡ (
                  if t == (start + i)
                  then some (pick h k v)
                  else row lib c.block_size blocks gpu h t))
    unfolding write_token store_cell div_mod
    write_token_lem start i b k v gpu eb ek ev has =
        let size = c.block_size in
        let token = start + i in
        let at : Half → Cell = λ h. record { block = b; offset = token % size; half = h } in
        let off : token % size < size = mod_lt token size positive in
        let (w, l) = has (token / size) b (token % size) key eb off in
        let (gpu₁, s₁) = store_some gpu (at key) k w l in
        let has₁ = store-HasCells lib size blocks unique positive gpu gpu₁ (at key) k s₁ has in
        let (w', l') = has₁ (token / size) b (token % size) value eb off in
        let (gpu₂, s₂) = store_some gpu₁ (at value) v w' l' in
        let has₂ = store-HasCells lib size blocks unique positive gpu₁ gpu₂ (at value) v s₂ has₁ in
        let row₁ = row-store lib size blocks unique positive gpu gpu₁ token b key k eb s₁ in
        let row₂ = row-store lib size blocks unique positive gpu₁ gpu₂ token b value v eb s₂ in
        (
          gpu₂,
          ground (arith, s₁, s₂),
          has₂,
          λ t. elim [
            | key ↦ ground (arith, row₁ t key, row₂ t key)
            | value ↦ ground (arith, row₁ t value, row₂ t value)
          ],
        )

    -- The rows after the loop: those of the tokens written are new, all others are as before.
    write_tokens_lem :
        (start n i : ℕ) (gpu : Tensor)
        → i + n ≤ length keys
        → i + n ≤ length values
        → start + i + n ≤ length blocks * c.block_size
        → HasCells lib c.block_size blocks gpu
        → (gpu' : Tensor) × (write_tokens lib keys values blocks start n i
              (record c { gpu_cache = gpu })
            ≡ (ok tt, record c { gpu_cache = gpu' }))
          × HasCells lib c.block_size blocks gpu'
          × ((t : ℕ) (h : Half)
              → row lib c.block_size blocks gpu' h t ≡ (
                  if leb (start + i) t && ltb t (start + i + n)
                  then get_elem? (pick h keys values) (t - start)
                  else row lib c.block_size blocks gpu h t))
    unfolding write_tokens
    write_tokens_lem start zero i gpu lk lv lb has = (gpu, refl, has, λ t h. ground arith)
    write_tokens_lem start (suc n) i gpu lk lv lb has =
        let (b, eb) =
          get_elem?-some blocks ((start + i) / c.block_size)
            (div-lt (start + i) (length blocks) c.block_size positive (omega arith)) in
        let (k, ek) = get_elem?-some keys i (omega arith) in
        let (v, ev) = get_elem?-some values i (omega arith) in
        let (gpu₁, run₁, has₁, rows₁) = write_token_lem start i b k v gpu eb ek ev has in
        let (gpu₂, run₂, has₂, rows₂) =
          write_tokens_lem start n (i + 1) gpu₁ (omega arith) (omega arith) (omega arith) has₁ in
        (
          gpu₂,
          >>=-ok (write_token lib keys values blocks start i)
                (λ _. write_tokens lib keys values blocks start n (i + 1)) _ run₁
              ∙ run₂,
          has₂,
          λ t. elim [
            | key ↦ ground (arith, ek, rows₁ t key, rows₂ t key)
            | value ↦ ground (arith, ev, rows₁ t value, rows₂ t value)
          ],
        )

module _ {V : Type 0} (lib : KvTensors V) (blocks : List ℕ) where
  read_token_lem :
      (c : PagedKvCache lib) (t : ℕ) (k v : V)
      → 0 < c.block_size
      → row lib c.block_size blocks c.gpu_cache key t ≡ some k
      → row lib c.block_size blocks c.gpu_cache value t ≡ some v
      → read_token lib blocks t c ≡ (ok (k, v), c)
  unfolding read_token div_mod
  read_token_lem c t k v p ek ev = elim (Option-cases (get_elem? blocks (t / c.block_size))) [
    | inl beyond ↦ absurd (ground (arith, beyond, ek))
    | inr (b, e) ↦ ground (arith, e, ek, ev)
  ]

  -- Where the rows of consecutive tokens are `ks` and `vs`, the loop of `read_kv` returns them.
  read_tokens_lem :
      (c : PagedKvCache lib) (ks vs : List V) (t : ℕ)
      → 0 < c.block_size
      → length ks ≡ length vs
      → ((j : ℕ)
          → j < length ks
          → row lib c.block_size blocks c.gpu_cache key (t + j) ≡ get_elem? ks j)
      → ((j : ℕ)
          → j < length vs
          → row lib c.block_size blocks c.gpu_cache value (t + j) ≡ get_elem? vs j)
      → read_tokens lib blocks (length ks) t c ≡ (ok (ks, vs), c)
  unfolding read_tokens
  read_tokens_lem c [] [] t p e rk rv = refl
  read_tokens_lem c [] (v ∷ vs) t p e rk rv = absurd (omega arith)
  read_tokens_lem c (k ∷ ks) [] t p e rk rv = absurd (omega arith)
  read_tokens_lem c (k ∷ ks) (v ∷ vs) t p e rk rv =
      let here : t + 0 ≡ t = omega arith in
      let head =
        read_token_lem c t k v p (rw here at (rk 0 (omega arith)))
          (rw here at (rv 0 (omega arith))) in
      let next : (j : ℕ) → t + 1 + j ≡ t + suc j = λ j. omega arith in
      let rest =
        read_tokens_lem c ks vs (t + 1) p (omega arith)
          (λ j h. rw (next j) (rk (suc j) (omega arith)))
          (λ j h. rw (next j) (rv (suc j) (omega arith))) in
      ground (arith, head, rest)

-- What the source needs for a write of the rows of a sequence into `blocks`: as many values as
-- keys, room for them, blocks that are listed once, and cells that exist.
pub record IsWritable {V : Type 0} (lib : KvTensors V) (keys values : List V) (blocks : List ℕ)
    (c : PagedKvCache lib) : Type 0 where
  pub positive : 0 < c.block_size
  pub unique : (b : ℕ) → count b blocks ≤ 1
  pub same_length : length keys ≡ length values
  pub room : length keys ≤ length blocks * c.block_size
  pub cells : HasCells lib c.block_size blocks c.gpu_cache

-- The two conclusions of a write, from the rows that it leaves.
module _ {V : Type 0} (lib : KvTensors V) (keys values : List V) (blocks : List ℕ)
    (c : PagedKvCache lib) (gpu' : lib.cells.Tensor) (w : IsWritable lib keys values blocks c)
    (has : HasCells lib c.block_size blocks gpu')
    (rows : (t : ℕ) (h : Half)
      → row lib c.block_size blocks gpu' h t ≡ (
          if leb (0 + 0) t && ltb t (0 + 0 + length keys)
          then get_elem? (pick h keys values) (t - 0)
          else row lib c.block_size blocks c.gpu_cache h t)) where
  written-read :
      read_tokens lib blocks (length keys) 0 (record c { gpu_cache = gpu' })
      ≡ (ok (keys, values), record c { gpu_cache = gpu' })
  written-read =
      read_tokens_lem lib blocks (record c { gpu_cache = gpu' }) keys values 0 w.positive
        w.same_length (λ j h. ground (arith, rows (0 + j) key))
        (λ j h. ground (arith, rows (0 + j) value))

  written-IsWritable :
      (ks vs : List V)
      → length ks ≡ length keys
      → length vs ≡ length keys
      → IsWritable lib ks vs blocks (record c { gpu_cache = gpu' })
  written-IsWritable ks vs e f = record {
    positive = w.positive;
    unique = w.unique;
    same_length = omega arith;
    room = omega (arith, w.room);
    cells = has;
  }

module _ {V : Type 0} (lib : KvTensors V) (keys values : List V) (blocks : List ℕ) (layer_id : ℕ)
    (c : PagedKvCache lib) (w : IsWritable lib keys values blocks c) where
  write_kv-rows :
      (gpu' : lib.cells.Tensor) × (write_kv lib keys values blocks layer_id 0 c
        ≡ (ok tt, record c { gpu_cache = gpu' }))
      × HasCells lib c.block_size blocks gpu'
      × ((t : ℕ) (h : Half)
          → row lib c.block_size blocks gpu' h t ≡ (
              if leb (0 + 0) t && ltb t (0 + 0 + length keys)
              then get_elem? (pick h keys values) (t - 0)
              else row lib c.block_size blocks c.gpu_cache h t))
  unfolding write_kv
  write_kv-rows =
      write_tokens_lem lib keys values blocks c w.unique w.positive 0 (length keys) 0 c.gpu_cache
        (omega arith) (omega (arith, w.same_length)) (omega (arith, w.room)) w.cells

  -- After a write the blocks can be written again, with any rows that are as many.
  pub write_kv-IsWritable :
      (ks vs : List V)
      → length ks ≡ length keys
      → length vs ≡ length keys
      → IsWritable lib ks vs blocks (write_kv lib keys values blocks layer_id 0 c).1
  write_kv-IsWritable ks vs e f =
      let (gpu', run, has, rows) = write_kv-rows in
      rw run (written-IsWritable lib keys values blocks c gpu' w has rows ks vs e f)

-- Into blocks that are writable (distinct, in range, and with room for the tokens) `write_kv` from
-- the first token succeeds, and `read_kv` of as many tokens then returns exactly the keys and
-- values written; reading changes nothing.
pub read_kv-write_kv :
    {V : Type 0} (lib : KvTensors V) (keys values : List V) (blocks : List ℕ) (layer_id : ℕ)
    (c : PagedKvCache lib)
    → IsWritable lib keys values blocks c
    → let (result, c') = write_kv lib keys values blocks layer_id 0 c in
      (result ≡ ok tt) × (read_kv lib blocks (length keys) c' ≡ (ok (keys, values), c'))
unfolding read_kv
read_kv-write_kv lib keys values blocks layer_id c w =
    let (gpu', run, has, rows) = write_kv-rows lib keys values blocks layer_id c w in
    rw run (refl, written-read lib keys values blocks c gpu' w has rows)
