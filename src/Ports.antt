-- ===== src/Ports.antt =====
-- The search for free network ports: fastmoe/utils/port_utils.py, with `alloc_usable_network_port`
-- and `handle_port_init` of fastmoe/utils/utils.py (Ports.Init). Whether a socket can be bound may
-- change between two checks, so that it is a function of the number of checks before; a random port
-- is a function of the number of those that were drawn before.
pub mod Search
pub mod Find
pub mod Collect
pub mod Free
pub mod Allocate
pub mod Init
pub mod First
pub mod Lists
pub mod Later
pub mod Additional
pub mod Fallback
pub mod Main
mod Tests
use harvest_mo_e.Base.{
  ℕ, zero, suc, ◌+◌, ◌-◌, ◌≤◌, Bool, true, false, ◌||◌, List, [], ◌∷◌, ◌++◌, Option, none, some,
  ltb, ◌==◌, if◌then◌else◌,
}
use harvest_mo_e.Base.Distinct.{contains}
use harvest_mo_e.Base.Action.{Error, Result, ok, raise, blocked, Action, pure, or_raise, ◌>>=◌}

-- The operating system: `binds t port` tells whether the bind of the check number `t` succeeds with
-- `SO_REUSEADDR`, and `binds_plain` whether it does without; `randint d lo hi` is the random number
-- that is drawn after `d` others, within its bounds.
pub record Host : Type 0 where
  pub binds : ℕ → ℕ → Bool
  pub binds_plain : ℕ → ℕ → Bool
  pub randint : ℕ → ℕ → ℕ → ℕ
  pub randint_bounds : (d lo hi : ℕ) → lo ≤ hi → (lo ≤ randint d lo hi) × (randint d lo hi ≤ hi)

-- How many checks were made, and how many random numbers were drawn.
pub record Clock : Type 0 where
  pub checks : ℕ
  pub draws : ℕ

abbrev pub max_port : ℕ
max_port = 65535

module _ (host : Host) where
  -- The socket library raises an OverflowError on a port above the largest, which is not caught.
  unfoldable pub is_port_free : ℕ → Action Clock Bool
  is_port_free port s =
      if ltb max_port port
      then (raise Error.overflow_error, s)
      else (ok (host.binds s.checks port), record s { checks = s.checks + 1 })

  -- An empty range raises a ValueError.
  unfoldable pub draw : ℕ → ℕ → Action Clock ℕ
  draw lo hi s =
      if ltb hi lo
      then (raise Error.value_error, s)
      else (ok (host.randint s.draws lo hi), record s { draws = s.draws + 1 })

  -- One round of a search: an excluded port is passed over without a check.
  unfoldable pub try_port : List ℕ → ℕ → Action Clock Bool
  try_port exclude_set port = if contains exclude_set port then pure false else is_port_free port

  unfoldable pub search_random :
      (start_port end_port : ℕ) → List ℕ → (rounds : ℕ) → Action Clock (Option ℕ)
  unfolding try_port
  search_random start_port end_port exclude_set zero = pure none
  search_random start_port end_port exclude_set (suc rounds) = do
    port ← draw start_port end_port
    found ← try_port exclude_set port
    let rest = search_random start_port end_port exclude_set rounds
    if found then pure (some port) else rest

  -- The ports port, port + 1, …, as many as are left.
  unfoldable pub search_range : List ℕ → (port left : ℕ) → Action Clock (Option ℕ)
  unfolding try_port
  search_range exclude_set port zero = pure none
  search_range exclude_set port (suc left) = do
    found ← try_port exclude_set port
    let rest = search_range exclude_set (port + 1) left
    if found then pure (some port) else rest

  unfoldable pub find_free_port : (start_port end_port : ℕ) → List ℕ → Action Clock ℕ
  unfolding search_random search_range
  find_free_port start_port end_port exclude_ports = do
    drawn ← search_random start_port end_port exclude_ports 100
    found ← elim drawn [
      | some port ↦ pure (some port)
      | none ↦ search_range exclude_ports start_port (end_port + 1 - start_port)
    ]
    or_raise found Error.runtime_error

  unfoldable pub find_free_nccl_port : Action Clock ℕ
  unfolding find_free_port
  find_free_nccl_port = find_free_port 20000 30000 []

  -- The ports of one attempt, one after another.
  unfoldable pub collect_ports :
      (start_port end_port num_ports : ℕ) → List ℕ → Action Clock (List ℕ)
  unfolding find_free_port
  collect_ports start_port end_port zero allocated_ports = pure allocated_ports
  collect_ports start_port end_port (suc num_ports) allocated_ports = do
    port ← find_free_port start_port end_port allocated_ports
    collect_ports start_port end_port num_ports (allocated_ports ++ port ∷ [])

  -- `all(is_port_free(port) for port in ports)`, which stops at the first port in use.
  unfoldable pub all_free : List ℕ → Action Clock Bool
  all_free [] = pure true
  all_free (port ∷ ports) = do
    is_free ← is_port_free port
    let rest = all_free ports
    if is_free then rest else pure false

  -- One attempt: the ports, if all of them are still free.
  unfoldable pub attempt_ports :
      (num_ports start_port end_port : ℕ) → Action Clock (Option (List ℕ))
  unfolding collect_ports all_free
  attempt_ports num_ports start_port end_port = do
    allocated_ports ← collect_ports start_port end_port num_ports []
    still_free ← all_free allocated_ports
    pure (if still_free then some allocated_ports else none)

  -- An attempt that raises is made again like one that finds a port in use; the last one ends in a
  -- RuntimeError either way.
  unfoldable pub allocate_ports_with_retry :
      (num_ports start_port end_port max_retries : ℕ) → Action Clock (List ℕ)
  unfolding attempt_ports
  allocate_ports_with_retry num_ports start_port end_port zero s = (raise Error.runtime_error, s)
  allocate_ports_with_retry num_ports start_port end_port (suc retries) s =
      let (result, s') = attempt_ports num_ports start_port end_port s in
      let again = allocate_ports_with_retry num_ports start_port end_port retries s' in
      elim result [
        | ok allocated ↦ elim allocated [ some ports ↦ (ok ports, s') | none ↦ again ]
        | raise e ↦ again
        | blocked ↦ (blocked, s')
      ]
