-- ===== src/Ports/Additional.antt =====
-- The main port and the given ports of `handle_port_init` in fastmoe/utils/utils.py.
use harvest_mo_e.Base.{
  ℕ, zero, suc, ◌+◌, ◌≤◌, ◌≡◌, ◌≢◌, ◌∙◌, ◌⊎◌, refl, Bool, true, false, List, [], ◌∷◌, ltb, ◌==◌,
  if◌then◌else◌, length, take, All, All-mono, Bool-cases, inl, inr, arith,
}
use harvest_mo_e.Base.Distinct.{contains}
use harvest_mo_e.Base.Action.{Error, ok, raise, Action, ◌>>=◌, pure, >>=-ok}
use harvest_mo_e.Ports.{Host, Clock, max_port, draw, is_port_free}
use harvest_mo_e.Ports.Search.{WasFree, is_port_free_lem}
use harvest_mo_e.Ports.Later.{IsLater, is_port_free-IsLater}
use harvest_mo_e.Ports.Init.{filter, near_port, near_or_random, main_port, valid_among}

All-filter {κ} :
    (P : ℕ → Type κ) (test : ℕ → Bool) (ports : List ℕ) → All P ports → All P (filter test ports)
All-filter P test [] a = tt
All-filter P test (p ∷ ports) a = ground (arith, All-filter P test ports a.1)

All-filter_test : (test : ℕ → Bool) (ports : List ℕ) → All (λ p. test p ≡ true) (filter test ports)
All-filter_test test [] = tt
All-filter_test test (p ∷ ports) = ground (arith, All-filter_test test ports)

pub All-take {κ} : (P : ℕ → Type κ) (n : ℕ) (ports : List ℕ) → All P ports → All P (take n ports)
All-take P zero ports a = tt
All-take P (suc n) [] a = tt
All-take P (suc n) (p ∷ ports) a = (a.0, All-take P n ports a.1)

pub length-take-le : (n : ℕ) (ports : List ℕ) → length (take n ports) ≤ n
length-take-le zero ports = omega arith
length-take-le (suc n) [] = omega arith
length-take-le (suc n) (p ∷ ports) = omega (arith, length-take-le n ports)

-- A port outside a list differs from a port of the list.
pub apart :
    (excluded : List ℕ) (port p : ℕ)
    → contains excluded port ≡ true
    → contains excluded p ≡ false
    → p ≢ port
apart excluded port p h k e = ground (arith, h, k, e)

module _ (host : Host) where
  near_port-IsLater : (port left : ℕ) → IsLater (near_port host port left)
  unfolding near_port
  near_port-IsLater port zero = record { from = λ s. omega arith }
  near_port-IsLater port (suc left) = record {
    from = λ s. ground (
      arith,
      (is_port_free-IsLater host port).from s,
      (near_port-IsLater (port + 1) left).from (is_port_free host port s).1,
    );
  }

  is_port_free_above :
      (port : ℕ) (s : Clock)
      → ltb max_port port ≡ true
      → is_port_free host port s ≡ (raise Error.overflow_error, s)
  unfolding is_port_free
  is_port_free_above port s h = rw h refl

  near_port-ends :
      (port left : ℕ) (s : Clock)
      → ((p : ℕ) × (s' : Clock) × (near_port host port left s ≡ (ok p, s')))
        ⊎ ((e : Error) × (s' : Clock) × (near_port host port left s ≡ (raise e, s')))
  unfolding near_port
  near_port-ends port zero s = inr (Error.runtime_error, s, refl)
  near_port-ends port (suc left) s = elim (Bool-cases (ltb max_port port)) [
    | inl above ↦ inr (Error.overflow_error, s, ground (arith, is_port_free_above port s above))
    | inr below ↦ elim (Bool-cases (host.binds s.checks port)) [
      | inl free ↦ inl (
        port,
        record s { checks = s.checks + 1 },
        ground (arith, is_port_free_lem host port s (ground (arith, below)), free),
      )
      | inr used ↦ elim (near_port-ends (port + 1) left (record s { checks = s.checks + 1 })) [
        | inl (p, s', e) ↦
            inl
              (p, s', ground (arith, is_port_free_lem host port s (ground (arith, below)), used, e))
        | inr (err, s', e) ↦
            inr (
              err,
              s',
              ground (arith, is_port_free_lem host port s (ground (arith, below)), used, e),
            )
      ]
    ]
  ]

  abbrev pub Returns : {A : Type 0} → Action Clock A → Clock → (A → Clock → Type 0) → Type 0
  Returns {A} m s P = (a : A) × (s' : Clock) × (m s ≡ (ok a, s')) × (s.checks ≤ s'.checks) × P a s'

  near_or_random_lem :
      (port : ℕ) (s : Clock) → Returns (near_or_random host port) s (λ p s'. Unit {0})
  unfolding near_or_random draw
  near_or_random_lem port s =
      let later = (near_port-IsLater port 100).from s in
      elim (near_port-ends port 100 s) [
        | inl (p, s', e) ↦ (p, s', ground (arith, e), ground (arith, later, e), tt)
        | inr (err, s', e) ↦ (
          host.randint s'.draws 30000 40000,
          record s' { draws = s'.draws + 1 },
          ground (arith, e),
          ground (arith, later, e),
          tt,
        )
      ]

  pub main_port_lem :
      (port : ℕ) (s : Clock) → port ≤ max_port → Returns (main_port host port) s (λ p s'. Unit {0})
  unfolding main_port
  main_port_lem port s h = elim (Bool-cases (host.binds s.checks port)) [
    | inl free ↦ (
      port,
      record s { checks = s.checks + 1 },
      ground (arith, is_port_free_lem host port s h, free),
      omega arith,
      tt,
    )
    | inr used ↦
        let (p, s', e, later, _) = near_or_random_lem port (record s { checks = s.checks + 1 }) in
        (p, s', ground (arith, is_port_free_lem host port s h, used, e), omega arith, tt)
  ]

  -- A port that is not the main one, and was free at a check.
  abbrev pub IsAdditional : (port from until p : ℕ) → Type 0
  IsAdditional port from until p = (p ≢ port) × WasFree host from until p

  IsAdditional-mono :
      (port from until from' until' p : ℕ)
      → from' ≤ from
      → until ≤ until'
      → IsAdditional port from until p
      → IsAdditional port from' until' p
  IsAdditional-mono port from until from' until' p h k (differ, (t, above, below, free)) =
      (differ, (t, omega arith, omega arith, free))

  pub AllAdditional-mono :
      (port from until from' until' : ℕ) (ports : List ℕ)
      → from' ≤ from
      → until ≤ until'
      → All (IsAdditional port from until) ports
      → All (IsAdditional port from' until') ports
  AllAdditional-mono port from until from' until' ports h k all =
      All-mono (IsAdditional port from until) (IsAdditional port from' until') ports
        (λ p. IsAdditional-mono port from until from' until' p h k) all

  -- One port of a list: passed over, or checked.
  pub looks_at :
      (passed : Bool) (p : ℕ) (s : Clock)
      → p ≤ max_port
      → Returns
          (if passed then pure false else is_port_free host p)
          s
          (λ found s'. found ≡ true → (passed ≡ false) × WasFree host s.checks s'.checks p)
  looks_at true p s h = (false, s, refl, omega arith, λ e. cc)
  looks_at false p s h = (
    host.binds s.checks p,
    record s { checks = s.checks + 1 },
    is_port_free_lem host p s h,
    omega arith,
    λ e. (refl, (s.checks, omega arith, omega arith, e)),
  )

  valid_among-cons :
      (port p : ℕ) (ports valid : List ℕ) (s s₁ s' : Clock) (found : Bool)
      → (if p == port then pure false else is_port_free host p) s ≡ (ok found, s₁)
      → valid_among host port ports s₁ ≡ (ok valid, s')
      → valid_among host port (p ∷ ports) s ≡ (ok (if found then p ∷ valid else valid), s')
  unfolding valid_among
  valid_among-cons port p ports valid s s₁ s' found e e' =
      >>=-ok (if p == port then pure false else is_port_free host p)
        (λ is_valid.
          valid_among host port ports >>= λ rest. pure (if is_valid then p ∷ rest else rest))
        s e
      ∙ >>=-ok (valid_among host port ports) (λ rest. pure (if found then p ∷ rest else rest)) s₁ e'

  pub valid_among_lem :
      (port : ℕ) (ports : List ℕ) (s : Clock)
      → All (λ p. p ≤ max_port) ports
      → Returns
          (valid_among host port ports)
          s
          (λ valid s'. All (IsAdditional port s.checks s'.checks) valid)
  unfolding valid_among
  valid_among_lem port [] s h = ([], s, refl, omega arith, tt)
  valid_among_lem port (p ∷ ports) s h =
      let (found, s₁, e, later, was) = looks_at (p == port) p s h.0 in
      let (valid, s', e', later', all) = valid_among_lem port ports s₁ h.1 in
      (
        if found then p ∷ valid else valid,
        s',
        valid_among-cons port p ports valid s s₁ s' found e e',
        omega arith,
        keeps found s₁ s' later later' valid
            (AllAdditional-mono port s₁.checks s'.checks s.checks s'.checks valid later
              (omega arith) all)
            was,
      )
    where
      keeps :
          (found : Bool) (s₁ s' : Clock)
          → s.checks ≤ s₁.checks
          → s₁.checks ≤ s'.checks
          → (valid : List ℕ) → All (IsAdditional port s.checks s'.checks) valid
          → (found ≡ true → ((p == port) ≡ false) × WasFree host s.checks s₁.checks p)
          → All (IsAdditional port s.checks s'.checks) (if found then p ∷ valid else valid)
      keeps false s₁ s' later later' valid all was = all
      keeps true s₁ s' later later' valid all was =
          let (differ, (t, above, below, free)) = was refl in
          ((ground (arith, differ), (t, above, omega arith, free)), all)
