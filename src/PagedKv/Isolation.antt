-- ===== src/PagedKv/Isolation.antt =====
-- What `write_kv` leaves alone: the cells of blocks that it is not given.
use harvest_mo_e.Base.{
  ℕ, zero, suc, ◌+◌, ◌/◌, ◌%◌, ◌≤◌, ◌<◌, ◌≡◌, ◌≢◌, refl, ap, inl, inr, ◌∙◌, Option, none, some,
  List, [], ◌∷◌, arith, length, sum, get_elem?, Option-cases,
}
use harvest_mo_e.Base.Count.{count, count-get_elem?}
use harvest_mo_e.Base.Action.{Error, Result, ok, raise, blocked, Action, or_raise, ◌>>=◌, ◌>>◌}
use harvest_mo_e.PagedKv.Cache.{
  Half, key, value, Cell, KvTensors, PagedKvCache, store_cell, div_mod, write_rows, write_token,
  write_tokens, write_kv, read_token, read_tokens, read_kv,
}

module _ {V : Type 0} (lib : KvTensors V) where
  open lib.cells use {Tensor, load, store, load-store_ne}

  -- The second cache agrees with the first on a cell, and has the same block size.
  abbrev Keeps : Cell → PagedKvCache lib → PagedKvCache lib → Type 0
  Keeps cell c c' =
      (load c'.gpu_cache cell ≡ load c.gpu_cache cell) × (c'.block_size ≡ c.block_size)

  store_cell-Keeps :
      (cell at : Cell) (v : V) (c : PagedKvCache lib)
      → cell ≢ at
      → Keeps cell c (store_cell lib at v c).1
  unfolding store_cell
  store_cell-Keeps cell at v c ne = elim (Option-cases (store c.gpu_cache at v)) [
    | inl refused ↦ rw (refused, store_cell) (refl, refl)
    | inr (t, e) ↦ rw (e, store_cell) (load-store_ne c.gpu_cache t at cell v e ne, refl)
  ]

  -- Whatever a call does, it keeps the cell.
  abbrev Frames : {A : Type 0} → Cell → Action (PagedKvCache lib) A → Type 0
  Frames cell m = (c : PagedKvCache lib) → Keeps cell c (m c).1

  bind-Frames :
      {A B : Type 0} (cell : Cell) (m : Action (PagedKvCache lib) A)
      (f : A → Action (PagedKvCache lib) B)
      → Frames cell m
      → ((a : A) → Frames cell (f a))
      → Frames cell (m >>= f)
  bind-Frames {A} {B} cell m f hm hf c = go (m c) (hm c)
    where
      go :
          (p : Result A × PagedKvCache lib)
          → Keeps cell c p.1
          → Keeps cell c (◌>>=◌ {A = A} (λ (s : PagedKvCache lib). p) f c).1
      go (ok a, c') (k, size) = let (k', size') = hf a c' in (k' ∙ k, size' ∙ size)
      go (raise e, c') k = k
      go (blocked, c') k = k

  module _ (keys values : List V) (blocks : List ℕ) (cell : Cell)
      (apart : count cell.block blocks ≡ 0) where
    other_block :
        (i b offset : ℕ) (h : Half)
        → get_elem? blocks i ≡ some b
        → cell ≢ record { block = b; offset = offset; half = h }
    other_block i b offset h e = λ p.
        let same : cell.block ≡ b = ap (λ (c : Cell). c.block) p in
        absurd (omega (arith, count-get_elem? blocks i b e, ap (λ n. count n blocks) same, apart))

    div_mod-Frames : (a b : ℕ) → Frames cell (div_mod lib a b)
    unfolding div_mod
    div_mod-Frames a b c = (refl, refl)

    or_raise-Frames : (o : Option V) (e : Error) → Frames cell (or_raise o e)
    or_raise-Frames none e c = (refl, refl)
    or_raise-Frames (some a) e c = (refl, refl)

    write_rows-Frames :
        (j offset i : ℕ)
        → Frames cell (write_rows lib keys values blocks (get_elem? blocks j) offset i)
    unfolding write_rows
    write_rows-Frames j offset i c = elim (Option-cases (get_elem? blocks j)) [
      | inl beyond ↦ rw (beyond, write_rows) (refl, refl)
      | inr (b, e) ↦
          rw (e, write_rows)
            (let put : Half → V → Action (PagedKvCache lib) (Unit {0}) =
                λ h x. store_cell lib (record { block = b; offset = offset; half = h }) x in
              let key_at : Action (PagedKvCache lib) V =
                or_raise (get_elem? keys i) Error.index_error in
              let value_at : Action (PagedKvCache lib) V =
                or_raise (get_elem? values i) Error.index_error in
              bind-Frames cell key_at (λ k. put key k >> (value_at >>= put value))
                (or_raise-Frames (get_elem? keys i) Error.index_error)
                (λ k.
                  bind-Frames cell (put key k) (λ _. value_at >>= put value)
                    (λ c. store_cell-Keeps cell _ k c (other_block j b offset key e))
                    (λ _.
                      bind-Frames cell value_at (put value)
                        (or_raise-Frames (get_elem? values i) Error.index_error)
                        (λ v c. store_cell-Keeps cell _ v c (other_block j b offset value e))))
                c)
    ]

    write_token-Frames : (start i : ℕ) → Frames cell (write_token lib keys values blocks start i)
    unfolding write_token
    write_token-Frames start i c =
        bind-Frames cell (div_mod lib (start + i) c.block_size)
          (λ at. write_rows lib keys values blocks (get_elem? blocks at.0) at.1 i)
          (div_mod-Frames (start + i) c.block_size) (λ at. write_rows-Frames at.0 at.1 i) c

    write_tokens-Frames :
        (start n i : ℕ) → Frames cell (write_tokens lib keys values blocks start n i)
    unfolding write_tokens
    write_tokens-Frames start zero i c = (refl, refl)
    write_tokens-Frames start (suc n) i c =
        bind-Frames cell (write_token lib keys values blocks start i)
          (λ _. write_tokens lib keys values blocks start n (i + 1)) (write_token-Frames start i)
          (λ _. write_tokens-Frames start n (i + 1)) c

  -- Reading depends on the cells of its own blocks only.
  read_token_congr :
      (others : List ℕ) (t : ℕ) (c c' : PagedKvCache lib)
      → c'.block_size ≡ c.block_size
      → ((cell : Cell)
          → 1 ≤ count cell.block others
          → load c'.gpu_cache cell ≡ load c.gpu_cache cell)
      → (read_token lib others t c').0 ≡ (read_token lib others t c).0
  unfolding read_token div_mod
  read_token_congr others t c c' size same =
      rw size (elim (Option-cases (get_elem? others (t / c.block_size))) [
        | inl beyond ↦ ground (arith, beyond)
        | inr (b, e) ↦
            let at : Half → Cell = λ h. record { block = b; offset = t % c.block_size; half = h } in
            let listed = count-get_elem? others (t / c.block_size) b e in
            ground (arith, e, same (at key) listed, same (at value) listed)
      ])

  read_token_state :
      (others : List ℕ) (t : ℕ) (c : PagedKvCache lib) → (read_token lib others t c).1 ≡ c
  unfolding read_token div_mod
  read_token_state others t c = ground arith

  read_tokens_congr :
      (others : List ℕ) (n t : ℕ) (c c' : PagedKvCache lib)
      → c'.block_size ≡ c.block_size
      → ((cell : Cell)
          → 1 ≤ count cell.block others
          → load c'.gpu_cache cell ≡ load c.gpu_cache cell)
      → (read_tokens lib others n t c').0 ≡ (read_tokens lib others n t c).0
  unfolding read_tokens
  read_tokens_congr others zero t c c' size same = refl
  read_tokens_congr others (suc n) t c c' size same = ground (
    arith,
    read_token_congr others t c c' size same,
    read_token_state others t c,
    read_token_state others t c',
    read_tokens_congr others n (t + 1) c c' size same,
  )

-- A number above the sum is not in the list.
count_of_sum_lt : (n : ℕ) (xs : List ℕ) → sum xs < n → count n xs ≡ 0
count_of_sum_lt n [] h = refl
count_of_sum_lt n (x ∷ xs) h = ground (arith, count_of_sum_lt n xs)

-- Whatever `write_kv` does with the blocks of one sequence, on its error paths too, `read_kv`
-- returns the same for any blocks that are apart from them.
pub read_kv-write_kv_apart :
    {V : Type 0} (lib : KvTensors V) (keys values : List V) (blocks others : List ℕ)
    (layer_id start num_tokens : ℕ) (c : PagedKvCache lib)
    → ((b : ℕ) → 1 ≤ count b others → count b blocks ≡ 0)
    → (read_kv lib others num_tokens (write_kv lib keys values blocks layer_id start c).1).0
      ≡ (read_kv lib others num_tokens c).0
unfolding read_kv write_kv
read_kv-write_kv_apart lib keys values blocks others layer_id start num_tokens c apart =
    let c' = (write_tokens lib keys values blocks start (length keys) 0 c).1 in
    read_tokens_congr lib others num_tokens 0 c c'
      (write_tokens-Frames lib keys values blocks
        (record { block = sum blocks + 1; offset = 0; half = key })
        (count_of_sum_lt (sum blocks + 1) blocks (omega arith)) start (length keys) 0 c).1
      (λ cell listed.
        (write_tokens-Frames lib keys values blocks cell (apart cell.block listed) start
          (length keys) 0 c).0)
