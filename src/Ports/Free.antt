-- ===== src/Ports/Free.antt =====
-- What `allocate_ports_with_retry` of fastmoe/utils/port_utils.py returns where no other program
-- takes or gives back a port meanwhile.
use harvest_mo_e.Base.{
  ℕ, zero, suc, ◌+◌, ◌-◌, ◌≤◌, ◌<◌, ◌≡◌, refl, inl, inr, Bool, true, false, List, [], ◌∷◌, none,
  some, All, All-mono, range_from, arith,
}
use harvest_mo_e.Base.Distinct.{contains}
use harvest_mo_e.Base.Count.{count_p}
use harvest_mo_e.Base.Action.{Error, Result, ok, raise, blocked}
use harvest_mo_e.Ports.{Host, Clock, max_port, allocate_ports_with_retry}
use harvest_mo_e.Ports.Lists.{is_left, count_p-le-left, left-le-count_p, count_p_zero}
use harvest_mo_e.Ports.Search.{WasFree, IsTaken}
use harvest_mo_e.Ports.Allocate.{Attempts, AttemptsFrom, attempt_ports_lem}
use harvest_mo_e.Ports.Collect.{IsPortList, RunsOut}

All-contains :
    (free : ℕ → Bool) (ports : List ℕ) (port : ℕ)
    → All (λ p. free p ≡ true) ports
    → contains ports port ≡ true
    → free port ≡ true
All-contains free [] port a h = cc
All-contains free (p ∷ ports) port a h = ground (arith, a.0, All-contains free ports port a.1)

All-both :
    (P Q : ℕ → Type 0) (ports : List ℕ) → All P ports → All Q ports → All (λ p. P p × Q p) ports
All-both P Q [] a b = tt
All-both P Q (p ∷ ports) a b = ((a.0, b.0), All-both P Q ports a.1 b.1)

-- The ports of a range that are free.
abbrev pub num_free : (ℕ → Bool) → (lo hi : ℕ) → ℕ
num_free free lo hi = count_p free (range_from lo (hi + 1 - lo))

-- As many free ports as were asked for, if there are that many; a RuntimeError if there are not.
abbrev pub AllocatesFree : (free : ℕ → Bool) (lo hi num : ℕ) → Result (List ℕ) → Type 0
AllocatesFree free lo hi num (ok ports) =
    IsPortList lo hi num ports × All (λ p. free p ≡ true) ports × (num ≤ num_free free lo hi)
AllocatesFree free lo hi num (raise e) = (e ≡ Error.runtime_error) × (num_free free lo hi < num)
AllocatesFree free lo hi num blocked = ⊥

module _ (host : Host) (free : ℕ → Bool) (stable : (t p : ℕ) → host.binds t p ≡ free p) where
  WasFree-free : (from until p : ℕ) → WasFree host from until p → free p ≡ true
  WasFree-free from until p (t, above, below, bound) = ground (arith, stable t p, bound)

  IsTaken-left :
      (ports : List ℕ) (from until p : ℕ)
      → IsTaken host ports from until p
      → is_left free ports p ≡ false
  IsTaken-left ports from until p (inl out) = ground (arith, out)
  IsTaken-left ports from until p (inr (t, above, below, used)) = ground (arith, stable t p, used)

  RunsOut-num_free :
      (lo hi num : ℕ) (s s' : Clock) → RunsOut host lo hi num s s' → num_free free lo hi < num
  RunsOut-num_free lo hi num s s' (ports, few, all) = omega (
    arith,
    count_p-le-left free ports lo (hi + 1 - lo),
    count_p_zero free ports (range_from lo (hi + 1 - lo)) (
        All-mono (IsTaken host ports s.checks s'.checks) (λ p. is_left free ports p ≡ false)
          (range_from lo (hi + 1 - lo)) (IsTaken-left ports s.checks s'.checks) all),
  )

  ports-le-num_free :
      (lo hi num : ℕ) (ports : List ℕ)
      → IsPortList lo hi num ports
      → All (λ p. free p ≡ true) ports
      → num ≤ num_free free lo hi
  ports-le-num_free lo hi num ports list all = omega (
    arith,
    list.size,
    left-le-count_p free ports lo (hi + 1 - lo) list.distinct (
        All-mono (λ p. ((lo ≤ p) × (p ≤ hi)) × (free p ≡ true))
          (λ p. (lo ≤ p) × (p < lo + (hi + 1 - lo)) × (free p ≡ true)) ports
          (λ p h. (h.0.0, omega (arith, h.0.1), h.1))
          (All-both (λ p. (lo ≤ p) × (p ≤ hi)) (λ p. free p ≡ true) ports list.within all)),
  )

  -- A port that changed between two looks.
  not_changed : (lo hi num : ℕ) (s s' : Clock) → Attempts host lo hi num s s' (ok none) → ⊥
  not_changed lo hi num s s' (ports, all, port, held, (t, above, below, used)) =
      let free_port =
        All-contains free ports port
          (All-mono (WasFree host s.checks s'.checks) (λ p. free p ≡ true) ports
            (WasFree-free s.checks s'.checks) all)
          held in
      ground (arith, stable t port, used, free_port)

  frees :
      (from until : ℕ) (ports : List ℕ)
      → All (WasFree host from until) ports
      → All (λ p. free p ≡ true) ports
  frees from until ports all =
      All-mono (WasFree host from until) (λ p. free p ≡ true) ports (WasFree-free from until) all

  -- With too few free ports every attempt raises.
  keeps_raising :
      (lo hi num retries : ℕ) (s : Clock)
      → lo ≤ hi
      → hi ≤ max_port
      → num_free free lo hi < num
      → (s' : Clock) × (allocate_ports_with_retry host num lo hi retries s
          ≡ (raise Error.runtime_error, s'))
  unfolding allocate_ports_with_retry
  keeps_raising lo hi num zero s h top few = (s, refl)
  keeps_raising lo hi num (suc retries) s h top few =
      after (attempt_ports_lem host lo hi num s h top)
        (λ s₁. keeps_raising lo hi num retries s₁ h top few)
    where
      after :
          AttemptsFrom host lo hi num s
          → ((s₁ : Clock)
              → (s' : Clock) × (allocate_ports_with_retry host num lo hi retries s₁
                  ≡ (raise Error.runtime_error, s')))
          → (s' : Clock) × (allocate_ports_with_retry host num lo hi (suc retries) s
              ≡ (raise Error.runtime_error, s'))
      after (ok (some ports), s₁, e, (list, all, count)) rest = absurd (
          omega (
            arith,
            ports-le-num_free lo hi num ports list (frees (s₁.checks - num) s₁.checks ports all),
          ))
      after (ok none, s₁, e, end) rest = absurd (not_changed lo hi num s s₁ end)
      after (raise error, s₁, e, end) rest = let (s', e') = rest s₁ in (s', ground (arith, e, e'))
      after (blocked, s₁, e, end) rest = elim end [ ]

  first_attempt :
      (lo hi num retries : ℕ) (s : Clock)
      → lo ≤ hi
      → hi ≤ max_port
      → AttemptsFrom host lo hi num s
      → (result : Result (List ℕ)) × (s' : Clock) × (allocate_ports_with_retry host num lo hi
            (suc retries)
            s
          ≡ (result, s'))
        × AllocatesFree free lo hi num result
  unfolding allocate_ports_with_retry
  first_attempt lo hi num retries s h top (ok (some ports), s₁, e, (list, all, count)) =
      let all_free = frees (s₁.checks - num) s₁.checks ports all in
      (
        ok ports,
        s₁,
        ground (arith, e),
        (list, all_free, ports-le-num_free lo hi num ports list all_free),
      )
  first_attempt lo hi num retries s h top (ok none, s₁, e, end) =
      absurd (not_changed lo hi num s s₁ end)
  first_attempt lo hi num retries s h top (raise error, s₁, e, end) =
      let few = RunsOut-num_free lo hi num s s₁ end in
      let (s', e') = keeps_raising lo hi num retries s₁ h top few in
      (raise Error.runtime_error, s', ground (arith, e, e'), (refl, few))
  first_attempt lo hi num retries s h top (blocked, s₁, e, end) = elim end [ ]

-- Where a port stays free or in use, a call with one attempt or more over a range of ports
-- that is not empty ends: it returns as many different free ports of the range as were asked for, and the range has
-- that many, or it raises a RuntimeError, and the range has fewer.
pub allocate_ports_with_retry-free :
    (host : Host) (free : ℕ → Bool) (lo hi num retries : ℕ) (s : Clock)
    → ((t p : ℕ) → host.binds t p ≡ free p)
    → lo ≤ hi
    → hi ≤ max_port
    → 1 ≤ retries
    → (result : Result (List ℕ)) × (s' : Clock) × (allocate_ports_with_retry host num lo hi retries
          s
        ≡ (result, s'))
      × AllocatesFree free lo hi num result
allocate_ports_with_retry-free host free lo hi num zero s stable h top k = absurd (omega arith)
allocate_ports_with_retry-free host free lo hi num (suc retries) s stable h top k =
    first_attempt host free stable lo hi num retries s h top
      (attempt_ports_lem host lo hi num s h top)
