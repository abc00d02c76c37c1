-- ===== src/PagedKv/Memory.antt =====
-- The cache cells as a function, with the bounds of the tensor: an implementation of the tensor
-- operations that the cache is parameterised by.
use harvest_mo_e.Base.{
  ℕ, ◌≡◌, ◌≢◌, refl, inl, inr, Bool, true, ◌&&◌, Option, none, some, arith, ltb, ◌==◌,
  if◌then◌else◌, Bool-cases, some_inj,
}
use mathlib.Core.Path.{sym}
use harvest_mo_e.PagedKv.Cache.{Half, key, value, Cell, KvTensors}
use harvest_mo_e.PagedKv.Rows.{half_eq}

pub record Memory : Type 0 where
  pub blocks : ℕ
  pub size : ℕ
  pub at : Cell → ℕ

abbrev pub cell_eq : Cell → Cell → Bool
cell_eq a b = a.block == b.block && (a.offset == b.offset && half_eq a.half b.half)

cell_eq_halves :
    (p q p' q' : ℕ) (h h' : Half)
    → (p == p' && (q == q' && half_eq h h')) ≡ true
    → ◌≡◌ {A = Cell}
        (record { block = p; offset = q; half = h })
        (record { block = p'; offset = q'; half = h' })
cell_eq_halves p q p' q' key key e = ground arith
cell_eq_halves p q p' q' value value e = ground arith
cell_eq_halves p q p' q' key value e = ground arith
cell_eq_halves p q p' q' value key e = ground arith

cell_eq_refl : (p q : ℕ) (h : Half) → (p == p && (q == q && half_eq h h)) ≡ true
cell_eq_refl p q key = ground arith
cell_eq_refl p q value = ground arith

abbrev pub in_range : Memory → Cell → Bool
in_range m c = ltb c.block m.blocks && ltb c.offset m.size

abbrev pub load_memory : Memory → Cell → Option ℕ
load_memory m c = if in_range m c then some (m.at c) else none

abbrev pub store_memory : Memory → Cell → ℕ → Option Memory
store_memory m c v =
    if in_range m c then some (record m { at = λ d. if cell_eq d c then v else m.at d }) else none

abbrev pub copy_memory : Memory → ℕ → Memory → ℕ → Option Memory
copy_memory dst i src j =
    if ltb i dst.blocks && (ltb j src.blocks && dst.size == src.size)
    then some (record dst {
      at = λ c. if c.block == i then src.at (record c { block = j }) else dst.at c;
    })
    else none

abbrev written : Memory → Cell → ℕ → Memory
written m c v = record m { at = λ d. if cell_eq d c then v else m.at d }

store_inv :
    (m m' : Memory) (c : Cell) (v : ℕ)
    → store_memory m c v ≡ some m'
    → (in_range m c ≡ true) × (m' ≡ written m c v)
store_inv m m' c v e = elim (Bool-cases (in_range m c)) [
  | inl y ↦ (y, sym (some_inj _ _ (rw y at e)))
  | inr n ↦ cc (rw n at e)
]

pub load-store_self :
    (m m' : Memory) (c : Cell) (v : ℕ) → store_memory m c v ≡ some m' → load_memory m' c ≡ some v
load-store_self m m' c v e =
    let (y, p) = store_inv m m' c v e in rw p (rw (y, cell_eq_refl c.block c.offset c.half))

pub load-store_ne :
    (m m' : Memory) (c d : Cell) (v : ℕ)
    → store_memory m c v ≡ some m'
    → d ≢ c
    → load_memory m' d ≡ load_memory m d
load-store_ne m m' c d v e ne =
    let (y, p) = store_inv m m' c v e in
    rw p (elim (Bool-cases (cell_eq d c)) [
      | inl same ↦ absurd (ne (cell_eq_halves d.block d.offset c.block c.offset d.half c.half same))
      | inr other ↦ rw other
    ])

pub store_some :
    (m : Memory) (c : Cell) (v w : ℕ)
    → load_memory m c ≡ some w
    → (m' : Memory) × (store_memory m c v ≡ some m')
store_some m c v w e = (record m { at = λ d. if cell_eq d c then v else m.at d }, ground arith)

pub store_none :
    (m : Memory) (c : Cell) (v : ℕ) → load_memory m c ≡ none → store_memory m c v ≡ none
store_none m c v e = ground arith

pub load-copy_memory :
    (dst dst' src : Memory) (i j : ℕ) (c : Cell)
    → copy_memory dst i src j ≡ some dst'
    → load_memory dst' c
      ≡ (if c.block == i then load_memory src (record c { block = j }) else load_memory dst c)
load-copy_memory dst dst' src i j c e =
    elim (Bool-cases (ltb i dst.blocks && (ltb j src.blocks && dst.size == src.size))) [
      | inl y ↦ rw (sym (some_inj _ _ (rw y at e))) (ground arith)
      | inr n ↦ cc (rw n at e)
    ]

abbrev pub memory : KvTensors ℕ
memory = record {
  cells = record {
    Tensor = Memory;
    load = load_memory;
    store = store_memory;
    store_some = store_some;
    store_none = store_none;
    load-store_self = load-store_self;
    load-store_ne = load-store_ne;
  };
  zero_row = 0;
  zeros = λ n size. record { blocks = n; size = size; at = λ c. 0 };
  load-zeros = λ n size c. refl;
  copy_block = copy_memory;
  load-copy_block = load-copy_memory;
}
