-- ===== src/PagedKv/Rows.antt =====
-- The row of a token: the cell that its sequence's blocks give it, and what one write changes.
use native.Mathlib.Decide.{ℕ_discrete}
use harvest_mo_e.Base.{
  ℕ, ◌/◌, ◌%◌, ◌≤◌, ◌<◌, ◌≡◌, ◌≢◌, ap, inl, inr, ◌∙◌, Bool, true, false, ◌&&◌, Option, none, some,
  List, arith, ◌==◌, if◌then◌else◌, get_elem?, Option-cases, Bool-cases,
}
use harvest_mo_e.Base.Count.{count, get_elem?_injective}
use harvest_mo_e.PagedKv.Cache.{Half, key, value, Cell, KvTensors}

abbrev pub half_eq : Half → Half → Bool
half_eq key key = true
half_eq value value = true
half_eq _ _ = false

Cell-discrete : Discrete Cell
Cell-discrete = hlevel ℕ_discrete

-- A token is its block and its offset.
pub div_mod_injective :
    (a b size : ℕ) → 0 < size → a / size ≡ b / size → a % size ≡ b % size → a ≡ b
div_mod_injective a b size p q r = grind arith

module _ {V : Type 0} (lib : KvTensors V) where
  open lib.cells use {Tensor, load, store, store_some, load-store_self, load-store_ne}

  -- The cell of one half of a token, by way of the blocks; `none` beyond the blocks.
  abbrev pub row : ℕ → List ℕ → Tensor → Half → ℕ → Option V
  row size blocks gpu h token = elim (get_elem? blocks (token / size)) [
    | none ↦ none
    | some b ↦ load gpu (record { block = b; offset = token % size; half = h })
  ]

  -- Every cell of the listed blocks can be read.
  abbrev pub HasCells : ℕ → List ℕ → Tensor → Type 0
  HasCells size blocks gpu =
      (i b offset : ℕ) (h : Half)
      → get_elem? blocks i ≡ some b
      → offset < size
      → (w : V) × (load gpu (record { block = b; offset = offset; half = h }) ≡ some w)

  module _ (size : ℕ) (blocks : List ℕ) (unique : (b : ℕ) → count b blocks ≤ 1)
      (positive : 0 < size) where
    -- Different tokens, or different halves, have different cells.
    cell_ne :
        (t token b b' : ℕ) (g h : Half)
        → get_elem? blocks (t / size) ≡ some b'
        → get_elem? blocks (token / size) ≡ some b
        → (t == token && half_eq g h) ≡ false
        → ◌≢◌ {A = Cell}
            (record { block = b'; offset = t % size; half = g })
            (record { block = b; offset = token % size; half = h })
    cell_ne t token b b' g h e' e differ = λ p.
        let same_block : b' ≡ b = ap (λ (c : Cell). c.block) p in
        let same_half : g ≡ h = ap (λ (c : Cell). c.half) p in
        let same_index : t / size ≡ token / size =
          get_elem?_injective blocks (t / size) (token / size) b unique (rw same_block at e') e in
        let same_token : t ≡ token =
          div_mod_injective t token size positive same_index (ap (λ (c : Cell). c.offset) p) in
        distinct t token g h same_token same_half differ
      where
        distinct :
            (t token : ℕ) (g h : Half) → t ≡ token → g ≡ h → (t == token && half_eq g h) ≡ false → ⊥
        distinct t token key key p q r = ground arith
        distinct t token value value p q r = ground arith
        distinct t token key value p q r = cc
        distinct t token value key p q r = cc

    row-store_self :
        (gpu gpu' : Tensor) (token b : ℕ) (h : Half) (v : V)
        → get_elem? blocks (token / size) ≡ some b
        → store gpu (record { block = b; offset = token % size; half = h }) v ≡ some gpu'
        → row size blocks gpu' h token ≡ some v
    row-store_self gpu gpu' token b h v e s = rw (e, row) (load-store_self gpu gpu' _ v s)

    -- One write changes the row of its own token and half only.
    pub row-store :
        (gpu gpu' : Tensor) (token b : ℕ) (h : Half) (v : V)
        → get_elem? blocks (token / size) ≡ some b
        → store gpu (record { block = b; offset = token % size; half = h }) v ≡ some gpu'
        → (t : ℕ) (g : Half)
        → row size blocks gpu' g t
          ≡ (if t == token && half_eq g h then some v else row size blocks gpu g t)
    row-store gpu gpu' token b h v e s t g = elim (Bool-cases (t == token && half_eq g h)) [
      | inl same ↦ rw same (hit g h same s)
      | inr differ ↦ rw differ (elim (Option-cases (get_elem? blocks (t / size))) [
        | inl beyond ↦ rw (beyond, row)
        | inr (b', e') ↦
            rw (e', row) (load-store_ne gpu gpu' _ _ v s (cell_ne t token b b' g h e' e differ))
      ])
    ]
      where
        equal : (k : Half) → (t == token && half_eq k k) ≡ true → t ≡ token
        equal key same = ground arith
        equal value same = ground arith

        hit :
            (g h : Half)
            → (t == token && half_eq g h) ≡ true
            → store gpu (record { block = b; offset = token % size; half = h }) v ≡ some gpu'
            → row size blocks gpu' g t ≡ some v
        hit key key same s = rw (equal key same) (row-store_self gpu gpu' token b key v e s)
        hit value value same s = rw (equal value same) (row-store_self gpu gpu' token b value v e s)
        hit key value same s = ground arith
        hit value key same s = ground arith

    pub store-HasCells :
        (gpu gpu' : Tensor) (c : Cell) (v : V)
        → store gpu c v ≡ some gpu'
        → HasCells size blocks gpu
        → HasCells size blocks gpu'
    store-HasCells gpu gpu' c v s has i b offset h e p =
        elim (Cell-discrete (record { block = b; offset = offset; half = h }) c) [
          | yes q ↦ (v, rw q (load-store_self gpu gpu' c v s))
          | no q ↦
              let (w, old) = has i b offset h e p in (w, load-store_ne gpu gpu' c _ v s q ∙ old)
        ]
