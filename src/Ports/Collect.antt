-- ===== src/Ports/Collect.antt =====
-- The ports that one attempt of `allocate_ports_with_retry` in fastmoe/utils/port_utils.py collects.
use harvest_mo_e.Base.{
  ℕ, zero, suc, ◌+◌, ◌-◌, ◌≤◌, ◌<◌, ◌≡◌, ◌∙◌, refl, inl, inr, List, [], ◌∷◌, ◌++◌, length,
  length-append, All, All-append, All-mono, range_from, arith,
}
use harvest_mo_e.Base.Distinct.{IsDistinct, IsDistinct-append}
use harvest_mo_e.Base.Action.{Result, ok, raise, blocked, >>=-ok}
use harvest_mo_e.Ports.{Host, Clock, max_port, find_free_port, collect_ports}
use harvest_mo_e.Ports.Search.{WasFree, IsTaken, IsFound}
use harvest_mo_e.Ports.Find.{FindsPort, find_free_port_lem}

-- `num` ports within the bounds, none of them twice.
pub record IsPortList (lo hi num : ℕ) (ports : List ℕ) : Type 0 where
  pub size : length ports ≡ num
  pub distinct : IsDistinct ports
  pub within : All (λ p. (lo ≤ p) × (p ≤ hi)) ports

module _ (host : Host) where
  -- Every port outside a list of fewer than `num` was tried, and was in use.
  abbrev pub RunsOut : (lo hi num : ℕ) (s s' : Clock) → Type 0
  RunsOut lo hi num s s' =
      (ports : List ℕ) × (length ports < num)
      × All (IsTaken host ports s.checks s'.checks) (range_from lo (hi + 1 - lo))

  abbrev pub Collects : (lo hi num : ℕ) (s s' : Clock) → Result (List ℕ) → Type 0
  Collects lo hi num s s' (ok ports) =
      IsPortList lo hi num ports
      × All (WasFree host s.checks s'.checks) ports
      × (s.checks ≤ s'.checks)
  Collects lo hi num s s' (raise e) = RunsOut lo hi num s s'
  Collects lo hi num s s' blocked = ⊥

  pub WasFree-mono :
      (from until from' until' p : ℕ)
      → from' ≤ from
      → until ≤ until'
      → WasFree host from until p
      → WasFree host from' until' p
  WasFree-mono from until from' until' p h k (t, a, b, free) = (t, omega arith, omega arith, free)

  IsTaken-mono :
      (ports : List ℕ) (from until from' until' p : ℕ)
      → from' ≤ from
      → until ≤ until'
      → IsTaken host ports from until p
      → IsTaken host ports from' until' p
  IsTaken-mono ports from until from' until' p h k (inl out) = inl out
  IsTaken-mono ports from until from' until' p h k (inr (t, a, b, used)) =
      inr (t, omega arith, omega arith, used)

  -- The ports that are collected from a list that has `num` of them.
  abbrev CollectsFrom : (lo hi num total : ℕ) → List ℕ → (s from : Clock) → Type 0
  CollectsFrom lo hi num total ports s from =
      (result : Result (List ℕ)) × (s' : Clock) × (collect_ports host lo hi num ports s
        ≡ (result, s'))
      × Collects lo hi total from s' result

  IsPortList-append :
      (lo hi num port : ℕ) (ports : List ℕ) (from until : ℕ)
      → IsPortList lo hi num ports
      → IsFound host lo hi ports from until port
      → IsPortList lo hi (num + 1) (ports ++ port ∷ [])
  IsPortList-append lo hi num port ports from until list found = record {
    size = omega (arith, length-append ports (port ∷ []), list.size);
    distinct = IsDistinct-append ports port list.distinct found.allowed;
    within =
        All-append (λ p. (lo ≤ p) × (p ≤ hi)) ports (port ∷ []) list.within
          ((found.above, found.below), tt);
  }

  collect_more :
      (lo hi total num : ℕ) (ports : List ℕ) (from s s₁ : Clock) (found : Result ℕ)
      → length ports < total
      → from.checks ≤ s.checks
      → All (WasFree host from.checks s.checks) ports
      → IsPortList lo hi (length ports) ports
      → find_free_port host lo hi ports s ≡ (found, s₁)
      → FindsPort host lo hi ports s s₁ found
      → ((port : ℕ)
          → from.checks ≤ s₁.checks
          → All (WasFree host from.checks s₁.checks) (ports ++ port ∷ [])
          → IsPortList lo hi (length ports + 1) (ports ++ port ∷ [])
          → CollectsFrom lo hi num total (ports ++ port ∷ []) s₁ from)
      → CollectsFrom lo hi (suc num) total ports s from
  unfolding collect_ports
  collect_more lo hi total num ports from s s₁ (ok port) few later free list e found rest =
      let (t, above, below, was_free) = found.was_free in
      let (result, s', e', end) =
        rest port (omega arith)
          (All-append (WasFree host from.checks s₁.checks) ports (port ∷ [])
            (All-mono (WasFree host from.checks s.checks) (WasFree host from.checks s₁.checks) ports
              (λ p.
                WasFree-mono from.checks s.checks from.checks s₁.checks p (omega arith)
                  (omega arith))
              free)
            ((t, omega arith, below, was_free), tt))
          (IsPortList-append lo hi (length ports) port ports s.checks s₁.checks list found) in
      (
        result,
        s',
        >>=-ok (find_free_port host lo hi ports)
              (λ p. collect_ports host lo hi num (ports ++ p ∷ [])) s e
            ∙ e',
        end,
      )
  collect_more lo hi total num ports from s s₁ (raise error) few later free list e found rest = (
    raise error,
    s₁,
    ground (arith, e),
    (
      ports,
      few,
      All-mono (IsTaken host ports s.checks s₁.checks) (IsTaken host ports from.checks s₁.checks)
          (range_from lo (hi + 1 - lo))
          (λ p. IsTaken-mono ports s.checks s₁.checks from.checks s₁.checks p later (omega arith))
          found.1,
    ),
  )
  collect_more lo hi total num ports from s s₁ blocked few later free list e found rest =
      elim found [ ]

  pub collect_ports_lem :
      (lo hi total num : ℕ) (ports : List ℕ) (from s : Clock)
      → lo ≤ hi
      → hi ≤ max_port
      → length ports + num ≡ total
      → from.checks ≤ s.checks
      → All (WasFree host from.checks s.checks) ports
      → IsPortList lo hi (length ports) ports
      → CollectsFrom lo hi num total ports s from
  unfolding collect_ports
  collect_ports_lem lo hi total zero ports from s h top sum later free list = (
    ok ports,
    s,
    refl,
    (record { size = omega arith; distinct = list.distinct; within = list.within }, free, later),
  )
  collect_ports_lem lo hi total (suc num) ports from s h top sum later free list =
      let (found, s₁, e, end) = find_free_port_lem host lo hi ports s h top in
      collect_more lo hi total num ports from s s₁ found (omega arith) later free list e end
        (λ port later' free' list'.
          collect_ports_lem lo hi total num (ports ++ port ∷ []) from s₁ h top
            (omega (arith, length-append ports (port ∷ []))) later' free'
            (record { size = refl; distinct = list'.distinct; within = list'.within }))
