-- ===== src/Ports/Allocate.antt =====
-- What `allocate_ports_with_retry` of fastmoe/utils/port_utils.py returns, while other programs take
-- and give back ports.
use harvest_mo_e.Base.{
  ℕ, zero, suc, ◌+◌, ◌-◌, ◌≤◌, ◌≡◌, refl, Bool, true, false, List, [], ◌∷◌, Option, none, some,
  length, All, All-mono, arith,
}
use harvest_mo_e.Base.Distinct.{contains}
use harvest_mo_e.Base.Action.{Error, Result, ok, raise, blocked}
use harvest_mo_e.Ports.{
  Host, Clock, max_port, collect_ports, all_free, attempt_ports, allocate_ports_with_retry,
}
use harvest_mo_e.Ports.Later.{attempt_ports-IsLater}
use harvest_mo_e.Ports.Search.{WasFree, WasUsed, is_port_free_lem}
use harvest_mo_e.Ports.Collect.{IsPortList, RunsOut, Collects, WasFree-mono, collect_ports_lem}

module _ (host : Host) where
  -- The second look at the ports: each of them is free still, or one is in use.
  abbrev pub Checks : List ℕ → (s s' : Clock) → Bool → Type 0
  Checks ports s s' true =
      All (WasFree host s.checks s'.checks) ports × (s'.checks ≡ s.checks + length ports)
  Checks ports s s' false =
      (port : ℕ) × (contains ports port ≡ true) × WasUsed host s.checks s'.checks port

  abbrev pub ChecksFrom : List ℕ → Clock → Type 0
  ChecksFrom ports s =
      (free : Bool) × (s' : Clock) × (all_free host ports s ≡ (ok free, s'))
      × (s.checks ≤ s'.checks)
      × Checks ports s s' free

  check_port :
      (port : ℕ) (ports : List ℕ) (s : Clock) (free : Bool)
      → port ≤ max_port
      → host.binds s.checks port ≡ free
      → ChecksFrom ports (record s { checks = s.checks + 1 })
      → ChecksFrom (port ∷ ports) s
  unfolding all_free
  check_port port ports s false k e rest = (
    false,
    record s { checks = s.checks + 1 },
    ground (arith, e, is_port_free_lem host port s k),
    omega arith,
    (port, ground arith, (s.checks, omega arith, omega arith, e)),
  )
  check_port port ports s true k e (true, s', e', later, (all, count)) = (
    true,
    s',
    ground (arith, e, e', is_port_free_lem host port s k),
    omega arith,
    (
      (
        (s.checks, omega arith, omega arith, e),
        All-mono (WasFree host (s.checks + 1) s'.checks) (WasFree host s.checks s'.checks) ports
            (λ p.
              WasFree-mono host (s.checks + 1) s'.checks s.checks s'.checks p (omega arith)
                (omega arith))
            all,
      ),
      omega arith,
    ),
  )
  check_port port ports s true k e (false, s', e', later, (p, held, (t, above, below, used))) = (
    false,
    s',
    ground (arith, e, e', is_port_free_lem host port s k),
    omega arith,
    (p, ground (arith, held), (t, omega arith, below, used)),
  )

  all_free_lem : (ports : List ℕ) (s : Clock) → All (λ p. p ≤ max_port) ports → ChecksFrom ports s
  unfolding all_free
  all_free_lem [] s k = (true, s, refl, omega arith, (tt, omega arith))
  all_free_lem (port ∷ ports) s k =
      check_port port ports s (host.binds s.checks port) k.0 refl
        (all_free_lem ports (record s { checks = s.checks + 1 }) k.1)

  -- One attempt: a list of ports, each of them free at the last look; a port that was free before
  -- and is in use at the last look; or no more ports.
  abbrev pub Attempts : (lo hi num : ℕ) (s s' : Clock) → Result (Option (List ℕ)) → Type 0
  Attempts lo hi num s s' (ok (some ports)) =
      IsPortList lo hi num ports
      × All (WasFree host (s'.checks - num) s'.checks) ports
      × (s.checks + num ≤ s'.checks)
  Attempts lo hi num s s' (ok none) =
      (ports : List ℕ) × All (WasFree host s.checks s'.checks) ports
      × (port : ℕ) × (contains ports port ≡ true)
      × WasUsed host s.checks s'.checks port
  Attempts lo hi num s s' (raise e) = RunsOut host lo hi num s s'
  Attempts lo hi num s s' blocked = ⊥

  abbrev pub AttemptsFrom : (lo hi num : ℕ) → Clock → Type 0
  AttemptsFrom lo hi num s =
      (result : Result (Option (List ℕ))) × (s' : Clock) × (attempt_ports host num lo hi s
        ≡ (result, s'))
      × Attempts lo hi num s s' result

  attempt_after :
      (lo hi num : ℕ) (s s₁ : Clock) (result : Result (List ℕ))
      → hi ≤ max_port
      → collect_ports host lo hi num [] s ≡ (result, s₁)
      → Collects host lo hi num s s₁ result
      → AttemptsFrom lo hi num s
  unfolding attempt_ports
  attempt_after lo hi num s s₁ (ok ports) k e (list, free, later) = look (
      all_free_lem ports s₁ (
        All-mono (λ p. (lo ≤ p) × (p ≤ hi)) (λ p. p ≤ max_port) ports (λ p h. omega (arith, h.1))
          list.within))
    where
      look : ChecksFrom ports s₁ → AttemptsFrom lo hi num s
      look (true, s', e', later', (all, count)) = (
        ok (some ports),
        s',
        ground (arith, e, e'),
        (
          list,
          All-mono (WasFree host s₁.checks s'.checks) (WasFree host (s'.checks - num) s'.checks)
              ports
              (λ p.
                WasFree-mono host s₁.checks s'.checks (s'.checks - num) s'.checks p
                  (omega (arith, list.size)) (omega arith))
              all,
          omega (arith, list.size),
        ),
      )
      look (false, s', e', later', (p, held, (t, above, below, used))) = (
        ok none,
        s',
        ground (arith, e, e'),
        (
          ports,
          All-mono (WasFree host s.checks s₁.checks) (WasFree host s.checks s'.checks) ports
              (λ q.
                WasFree-mono host s.checks s₁.checks s.checks s'.checks q (omega arith)
                  (omega arith))
              free,
          p,
          held,
          (t, omega arith, below, used),
        ),
      )
  attempt_after lo hi num s s₁ (raise error) k e end = (raise error, s₁, ground (arith, e), end)
  attempt_after lo hi num s s₁ blocked k e end = elim end [ ]

  pub attempt_ports_lem :
      (lo hi num : ℕ) (s : Clock) → lo ≤ hi → hi ≤ max_port → AttemptsFrom lo hi num s
  attempt_ports_lem lo hi num s h top =
      let (result, s₁, e, end) =
        collect_ports_lem host lo hi num num [] s s h top (omega arith) (omega arith) tt
          (record { size = refl; distinct = tt; within = tt }) in
      attempt_after lo hi num s s₁ result top e end

-- What `allocate_ports_with_retry` ends with.
abbrev pub Allocates : (host : Host) (lo hi num : ℕ) (s s' : Clock) → Result (List ℕ) → Type 0
Allocates host lo hi num s s' (ok ports) =
    IsPortList lo hi num ports
    × All (WasFree host (s'.checks - num) s'.checks) ports
    × (s.checks + num ≤ s'.checks)
Allocates host lo hi num s s' (raise e) = e ≡ Error.runtime_error
Allocates host lo hi num s s' blocked = ⊥

module _ (host : Host) (lo hi num retries : ℕ) (s : Clock) where
  attempt_later :
      (s₁ : Clock) (result : Result (Option (List ℕ)))
      → attempt_ports host num lo hi s ≡ (result, s₁)
      → s.checks ≤ s₁.checks
  attempt_later s₁ result e = ground (arith, (attempt_ports-IsLater host num lo hi).from s, e)

  Allocates-later :
      (s₁ s' : Clock) (end : Result (List ℕ))
      → s.checks ≤ s₁.checks
      → Allocates host lo hi num s₁ s' end
      → Allocates host lo hi num s s' end
  Allocates-later s₁ s' (ok ports) h (list, all, count) = (list, all, omega arith)
  Allocates-later s₁ s' (raise e) h a = a
  Allocates-later s₁ s' blocked h a = a

  allocate_after :
      (result : Result (Option (List ℕ))) (s₁ : Clock)
      → attempt_ports host num lo hi s ≡ (result, s₁)
      → Attempts host lo hi num s s₁ result
      → (end : Result (List ℕ)) × (s' : Clock) × (allocate_ports_with_retry host num lo hi retries
            s₁
          ≡ (end, s'))
        × Allocates host lo hi num s₁ s' end
      → (end : Result (List ℕ)) × (s' : Clock) × (allocate_ports_with_retry host num lo hi
            (suc retries)
            s
          ≡ (end, s'))
        × Allocates host lo hi num s s' end
  unfolding allocate_ports_with_retry
  allocate_after (ok (some ports)) s₁ e found rest = (ok ports, s₁, ground (arith, e), found)
  allocate_after (ok none) s₁ e found (end, s', e', h) =
      (end, s', ground (arith, e, e'), Allocates-later s₁ s' end (attempt_later s₁ (ok none) e) h)
  allocate_after (raise error) s₁ e found (end, s', e', h) = (
    end,
    s',
    ground (arith, e, e'),
    Allocates-later s₁ s' end (attempt_later s₁ (raise error) e) h,
  )
  allocate_after blocked s₁ e found rest = elim found [ ]

-- Over a range of ports that is not empty the retries end: with as many different ports of the range as were
-- asked for, each of which was free at one of the last checks of the call, of which there is one for
-- each port; or with a RuntimeError.
pub allocate_ports_with_retry_lem :
    (host : Host) (lo hi num retries : ℕ) (s : Clock)
    → lo ≤ hi
    → hi ≤ max_port
    → (result : Result (List ℕ)) × (s' : Clock) × (allocate_ports_with_retry host num lo hi retries
          s
        ≡ (result, s'))
      × Allocates host lo hi num s s' result
unfolding allocate_ports_with_retry
allocate_ports_with_retry_lem host lo hi num zero s h top =
    (raise Error.runtime_error, s, refl, refl)
allocate_ports_with_retry_lem host lo hi num (suc retries) s h top =
    let (result, s₁, e, end) = attempt_ports_lem host lo hi num s h top in
    allocate_after host lo hi num retries s result s₁ e end
      (allocate_ports_with_retry_lem host lo hi num retries s₁ h top)
