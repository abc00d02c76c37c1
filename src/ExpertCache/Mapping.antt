-- ===== src/ExpertCache/Mapping.antt =====
-- The slots of `experts_mapping` in fastmoe/backend/execution_engine.py, where all experts of a layer
-- make one page.
use native.Mathlib.Nat.{div_self, mul-le-mul_right}
use harvest_mo_e.Base.{
  ℕ, ◌+◌, ◌-◌, ◌*◌, ◌/◌, ◌%◌, ◌≤◌, ◌<◌, ◌≡◌, ◌⊎◌, inl, inr, ap, sym, ◌∙◌, Bool-cases, ltb,
  if◌then◌else◌, arith,
}
use harvest_mo_e.ExpertCache.{Config, experts_pool_size, page_size, num_pages_cpu, experts_mapping}

-- All experts of a layer are computed together, and at most all of them stay on the GPU.
pub record IsOnePage (c : Config) : Type 0 where
  pub some_experts : 1 ≤ c.num_local_experts
  pub one_page : c.num_comp_experts ≡ c.num_local_experts
  pub on_gpu : c.num_gpu_experts ≤ c.num_local_experts

pub num_pages_cpu-one : (c : Config) → IsOnePage c → num_pages_cpu c ≡ 1
num_pages_cpu-one c v = ap (λ n. c.num_local_experts / n) v.one_page ∙ div_self v.some_experts

-- The slot of expert `e` of layer `i`.
abbrev pub slot : Config → ℕ → ℕ → ℕ
slot c i e =
    if ltb e c.num_gpu_experts
    then i * c.num_gpu_experts + e
    else c.num_layers * c.num_gpu_experts + i % 2 * page_size c + (e - c.num_gpu_experts)

pub experts_mapping-slot :
    (c : Config) (i e : ℕ) (row : ℕ → ℕ)
    → IsOnePage c
    → e < c.num_local_experts
    → experts_mapping c i row e ≡ slot c i e
unfolding experts_mapping
experts_mapping-slot c i e row v u =
    let one = num_pages_cpu-one c v in
    let same : (i * 1 + 0) % 2 ≡ i % 2 = ap (λ n. n % 2) (omega arith) in
    rw one (ground (arith, same, v.one_page, v.on_gpu))

-- Different numbers in base `g`.
digits : (g i i' e e' : ℕ) → e < g → e' < g → i * g + e ≡ i' * g + e' → (i ≡ i') × (e ≡ e')
digits g i i' e e' u u' same = elim (Bool-cases (ltb i i')) [
  | inl below ↦
      let next : i + 1 ≤ i' = ground (arith, below) in
      absurd (omega (arith, mul-le-mul_right g next))
  | inr upper ↦ elim (Bool-cases (ltb i' i)) [
    | inl above ↦
        let next : i' + 1 ≤ i = ground (arith, above) in
        absurd (omega (arith, mul-le-mul_right g next))
    | inr lower ↦
        let eq : i ≡ i' = ground (arith, upper, lower) in (eq, omega (arith, ap (λ n. n * g) eq))
  ]
]

pub slot_bound :
    (c : Config) (i e : ℕ)
    → i < c.num_layers
    → e < c.num_gpu_experts
    → i * c.num_gpu_experts + e < c.num_layers * c.num_gpu_experts
slot_bound c i e u v =
    let next : i + 1 ≤ c.num_layers = omega arith in
    omega (arith, mul-le-mul_right c.num_gpu_experts next)

-- Where all experts of a layer make one page, the slots of the mapping are within the GPU cache, and
-- two experts have one slot only if they are the same expert, in one layer or, for an expert that
-- does not stay on the GPU, in two layers that are both even or both odd.
pub experts_mapping-distinct :
    (c : Config) (i i' e e' : ℕ) (row row' : ℕ → ℕ)
    → IsOnePage c
    → i < c.num_layers
    → i' < c.num_layers
    → e < c.num_local_experts
    → e' < c.num_local_experts
    → experts_mapping c i row e ≡ experts_mapping c i' row' e'
    → (experts_mapping c i row e < experts_pool_size c)
      × (e ≡ e')
      × ((i ≡ i') ⊎ ((c.num_gpu_experts ≤ e) × (i % 2 ≡ i' % 2)))
experts_mapping-distinct c i i' e e' row row' v u u' w w' same =
    let at = experts_mapping-slot c i e row v w in
    let at' = experts_mapping-slot c i' e' row' v w' in
    let eq : slot c i e ≡ slot c i' e' = sym at ∙ same ∙ at' in
    let parity : i % 2 < 2 = omega arith in
    elim (Bool-cases (ltb e c.num_gpu_experts)) [
      | inl first ↦
          let bound = slot_bound c i e u (ground (arith, first)) in
          elim (Bool-cases (ltb e' c.num_gpu_experts)) [
            | inl first' ↦
                let eq' : i * c.num_gpu_experts + e ≡ i' * c.num_gpu_experts + e' =
                  ground (arith, eq, first, first') in
                let (il, el) =
                  digits c.num_gpu_experts i i' e e' (ground (arith, first))
                    (ground (arith, first')) eq' in
                (ground (arith, at, first, bound), el, inl il)
            | inr last' ↦ absurd (ground (arith, eq, first, last', bound))
          ]
      | inr last ↦ elim (Bool-cases (ltb e' c.num_gpu_experts)) [
        | inl first' ↦
            let bound = slot_bound c i' e' u' (ground (arith, first')) in
            absurd (ground (arith, eq, first', last, bound))
        | inr last' ↦
            let p = page_size c in
            let eq' : i % 2 * p + (e - c.num_gpu_experts) ≡ i' % 2 * p + (e' - c.num_gpu_experts) =
              ground (arith, eq, last, last') in
            let (halves, off) =
              digits p (i % 2) (i' % 2) (e - c.num_gpu_experts) (e' - c.num_gpu_experts)
                (ground (arith, last, v.one_page)) (ground (arith, last', v.one_page)) eq' in
            let below : i % 2 + 1 ≤ 2 = omega arith in
            let bound = mul-le-mul_right p below in
            (
              ground (arith, at, last, bound, v.one_page),
              ground (arith, off, last, last'),
              inr (ground (arith, last), halves),
            )
      ]
    ]
