-- ===== src/Ports/Later.antt =====
-- The checks of fastmoe/utils/port_utils.py are counted upwards.
use harvest_mo_e.Base.{
  ℕ, zero, suc, ◌+◌, ◌-◌, ◌≤◌, Bool, true, false, List, [], ◌∷◌, ◌++◌, Option, none, some, arith,
  if◌then◌else◌,
}
use harvest_mo_e.Base.Distinct.{contains}
use harvest_mo_e.Base.Action.{Error, Result, ok, raise, blocked, Action, ◌>>=◌, pure, or_raise}
use harvest_mo_e.Ports.{
  Host, Clock, draw, is_port_free, try_port, search_random, search_range, find_free_port,
  collect_ports, all_free, attempt_ports, allocate_ports_with_retry,
}

-- A call that takes no check back.
pub record IsLater {A : Type 0} (m : Action Clock A) : Type 0 where
  pub from : (s : Clock) → s.checks ≤ (m s).1.checks

pub >>=-IsLater :
    {A B : Type 0} (m : Action Clock A) (f : A → Action Clock B)
    → IsLater m
    → ((a : A) → IsLater (f a))
    → IsLater (m >>= f)
>>=-IsLater {A} {B} m f h k = record { from = λ s. after s (m s) (h.from s) }
  where
    after :
        (s : Clock) (p : Result A × Clock)
        → s.checks ≤ p.1.checks
        → s.checks ≤ (((λ _. p) >>= f) s).1.checks
    after s (ok a, s₁) later = omega (arith, later, (k a).from s₁)
    after s (raise e, s₁) later = later
    after s (blocked, s₁) later = later

pub if-IsLater :
    {A : Type 0} (test : Bool) (m n : Action Clock A)
    → IsLater m
    → IsLater n
    → IsLater (if test then m else n)
if-IsLater true m n h k = h
if-IsLater false m n h k = k

pub pure-IsLater : {A : Type 0} (a : A) → IsLater (pure a)
pure-IsLater a = record { from = λ s. omega arith }

or_raise-IsLater : {A : Type 0} (o : Option A) (e : Error) → IsLater (or_raise o e)
or_raise-IsLater none e = record { from = λ s. omega arith }
or_raise-IsLater (some a) e = record { from = λ s. omega arith }

module _ (host : Host) where
  pub is_port_free-IsLater : (port : ℕ) → IsLater (is_port_free host port)
  unfolding is_port_free
  is_port_free-IsLater port = record { from = λ s. ground arith }

  pub draw-IsLater : (lo hi : ℕ) → IsLater (draw host lo hi)
  unfolding draw
  draw-IsLater lo hi = record { from = λ s. ground arith }

  try_port-IsLater : (excluded : List ℕ) (port : ℕ) → IsLater (try_port host excluded port)
  unfolding try_port
  try_port-IsLater excluded port =
      if-IsLater (contains excluded port) (pure false) (is_port_free host port) (pure-IsLater false)
        (is_port_free-IsLater port)

  search_random-IsLater :
      (lo hi : ℕ) (excluded : List ℕ) (rounds : ℕ)
      → IsLater (search_random host lo hi excluded rounds)
  unfolding search_random
  search_random-IsLater lo hi excluded zero = pure-IsLater none
  search_random-IsLater lo hi excluded (suc rounds) =
      >>=-IsLater (draw host lo hi) _ (draw-IsLater lo hi) λ port.
        >>=-IsLater (try_port host excluded port) _ (try_port-IsLater excluded port) λ found.
          if-IsLater found (pure (some port)) (search_random host lo hi excluded rounds)
            (pure-IsLater (some port)) (search_random-IsLater lo hi excluded rounds)

  search_range-IsLater :
      (excluded : List ℕ) (port left : ℕ) → IsLater (search_range host excluded port left)
  unfolding search_range
  search_range-IsLater excluded port zero = pure-IsLater none
  search_range-IsLater excluded port (suc left) =
      >>=-IsLater (try_port host excluded port) _ (try_port-IsLater excluded port) λ found.
        if-IsLater found (pure (some port)) (search_range host excluded (port + 1) left)
          (pure-IsLater (some port)) (search_range-IsLater excluded (port + 1) left)

  or_search-IsLater :
      (excluded : List ℕ) (start left : ℕ) (drawn : Option ℕ)
      → IsLater (elim drawn [
        | some port ↦ pure (some port)
        | none ↦ search_range host excluded start left
      ])
  or_search-IsLater excluded start left none = search_range-IsLater excluded start left
  or_search-IsLater excluded start left (some port) = pure-IsLater (some port)

  find_free_port-IsLater :
      (lo hi : ℕ) (excluded : List ℕ) → IsLater (find_free_port host lo hi excluded)
  unfolding find_free_port
  find_free_port-IsLater lo hi excluded =
      >>=-IsLater (search_random host lo hi excluded 100) _
        (search_random-IsLater lo hi excluded 100)
        λ drawn.
          >>=-IsLater _ _ (or_search-IsLater excluded lo (hi + 1 - lo) drawn)
            λ found. or_raise-IsLater found Error.runtime_error

  collect_ports-IsLater :
      (lo hi num : ℕ) (ports : List ℕ) → IsLater (collect_ports host lo hi num ports)
  unfolding collect_ports
  collect_ports-IsLater lo hi zero ports = pure-IsLater ports
  collect_ports-IsLater lo hi (suc num) ports =
      >>=-IsLater (find_free_port host lo hi ports) _ (find_free_port-IsLater lo hi ports)
        λ port. collect_ports-IsLater lo hi num (ports ++ port ∷ [])

  all_free-IsLater : (ports : List ℕ) → IsLater (all_free host ports)
  unfolding all_free
  all_free-IsLater [] = pure-IsLater true
  all_free-IsLater (port ∷ ports) =
      >>=-IsLater (is_port_free host port) _ (is_port_free-IsLater port) λ is_free.
        if-IsLater is_free (all_free host ports) (pure false) (all_free-IsLater ports)
          (pure-IsLater false)

  pub attempt_ports-IsLater : (num lo hi : ℕ) → IsLater (attempt_ports host num lo hi)
  unfolding attempt_ports
  attempt_ports-IsLater num lo hi =
      >>=-IsLater (collect_ports host lo hi num []) _ (collect_ports-IsLater lo hi num []) λ ports.
        >>=-IsLater (all_free host ports) _ (all_free-IsLater ports)
          λ still_free. pure-IsLater (if still_free then some ports else none)

  pub allocate_ports_with_retry-IsLater :
      (num lo hi retries : ℕ) → IsLater (allocate_ports_with_retry host num lo hi retries)
  unfolding allocate_ports_with_retry
  allocate_ports_with_retry-IsLater num lo hi zero = record { from = λ s. omega arith }
  allocate_ports_with_retry-IsLater num lo hi (suc retries) = record {
    from = λ s. ground (
      arith,
      (attempt_ports-IsLater num lo hi).from s,
      (allocate_ports_with_retry-IsLater num lo hi retries).from (attempt_ports host num lo hi s).1,
    );
  }
