-- ===== src/Ports/Init.antt =====
-- `alloc_usable_network_port` and `handle_port_init` of fastmoe/utils/utils.py.
use harvest_mo_e.Base.{
  ℕ, zero, suc, ◌+◌, ◌-◌, Bool, false, not, List, [], ◌∷◌, ◌++◌, Option, none, some, ltb, ◌==◌,
  if◌then◌else◌, length, take,
}
use harvest_mo_e.Base.Distinct.{contains}
use harvest_mo_e.Base.Action.{Error, ok, raise, blocked, Action, pure, throw, ◌>>=◌}
use harvest_mo_e.Requests.Input.{OneOrMany, one, many}
use harvest_mo_e.Ports.{Host, Clock, max_port, draw, is_port_free, allocate_ports_with_retry}

-- `[p for p in ports if test(p)]`
abbrev pub filter : (ℕ → Bool) → List ℕ → List ℕ
filter test [] = []
filter test (port ∷ ports) = let rest = filter test ports in if test port then port ∷ rest else rest

abbrev pub as_list : Option (OneOrMany ℕ) → List ℕ
as_list none = []
as_list (some (one port)) = port ∷ []
as_list (some (many ports)) = ports

abbrev pub requested : Option ℕ → ℕ
requested none = 30000
requested (some port) = port

module _ (host : Host) where
  -- A bind without `SO_REUSEADDR`.
  unfoldable pub check_port : ℕ → Action Clock Bool
  check_port port s =
      if ltb max_port port
      then (raise Error.overflow_error, s)
      else (ok (host.binds_plain s.checks port), record s { checks = s.checks + 1 })

  -- The ports port, port + 1, …, as many as are left. The number of ports is compared after every
  -- check.
  unfoldable pub usable_ports :
      (num : ℕ) (used_list : List ℕ) (port left : ℕ) → List ℕ → Action Clock (Option (List ℕ))
  usable_ports num used_list port zero port_list = pure none
  usable_ports num used_list port (suc left) port_list =
      let rest = usable_ports num used_list (port + 1) left in
      if contains used_list port then rest port_list else (do
        is_free ← check_port port
        let ports = if is_free then port_list ++ port ∷ [] else port_list
        if length ports == num then pure (some ports) else rest ports)

  unfoldable pub alloc_usable_network_port : ℕ → List ℕ → Action Clock (Option (List ℕ))
  alloc_usable_network_port num used_list = usable_ports num used_list 10000 (65536 - 10000) []

  -- `for offset in range(100)`, from an offset on.
  unfoldable pub near_port : (test_port left : ℕ) → Action Clock ℕ
  near_port test_port zero = throw Error.runtime_error
  near_port test_port (suc left) = do
    is_free ← is_port_free host test_port
    let rest = near_port (test_port + 1) left
    if is_free then pure test_port else rest

  -- Whatever the search near the port raises, a random port is taken.
  unfoldable pub near_or_random : ℕ → Action Clock ℕ
  unfolding near_port
  near_or_random port s =
      let (result, s') = near_port port 100 s in
      elim result [
        | ok test_port ↦ (ok test_port, s')
        | raise e ↦ draw host 30000 40000 s'
        | blocked ↦ (blocked, s')
      ]

  unfoldable pub main_port : ℕ → Action Clock ℕ
  unfolding near_or_random
  main_port port = do
    is_free ← is_port_free host port
    if is_free then pure port else near_or_random port

  -- `[p for p in additional_ports if p != port and is_port_free(p)]`
  unfoldable pub valid_among : ℕ → List ℕ → Action Clock (List ℕ)
  valid_among port [] = pure []
  valid_among port (p ∷ ports) = do
    is_valid ← if p == port then pure false else is_port_free host p
    rest ← valid_among port ports
    pure (if is_valid then p ∷ rest else rest)

  -- The fallback. Its four ranges of 10000 ports follow one another, and both loops end with the
  -- port that is the last one required.
  unfoldable pub fall_back :
      (num_required_ports p left : ℕ) (excluded_ports valid_ports : List ℕ) → Action Clock (List ℕ)
  fall_back required p zero excluded_ports valid_ports = pure valid_ports
  fall_back required p (suc left) excluded_ports valid_ports = do
    is_free ← if contains excluded_ports p then pure false else is_port_free host p
    let more = valid_ports ++ p ∷ []
    let taken = fall_back required (p + 1) left (excluded_ports ++ p ∷ []) more
    let passed = fall_back required (p + 1) left excluded_ports valid_ports
    if is_free then (if ltb (length more) required then taken else pure more) else passed

  -- The ports that are added to the valid ones.
  unfoldable pub more_ports :
      (num_required_ports : ℕ) (excluded_ports valid_ports : List ℕ) → Action Clock (List ℕ)
  more_ports required excluded_ports valid_ports s =
      let num_needed = required - length valid_ports in
      let (result, s') = allocate_ports_with_retry host num_needed 10000 50000 3 s in
      elim result [
        | ok ports ↦
            let new_ports = filter (λ p. not (contains excluded_ports p)) ports in
            (ok (valid_ports ++ take num_needed new_ports), s')
        | raise e ↦ fall_back required 10000 40000 excluded_ports valid_ports s'
        | blocked ↦ (blocked, s')
      ]

  unfoldable pub handle_port_init :
      Option ℕ → Option (OneOrMany ℕ) → (tp_size : ℕ) → Action Clock (ℕ × List ℕ)
  unfolding main_port valid_among more_ports
  handle_port_init port additional_ports tp_size = do
    port' ← main_port (requested port)
    valid_ports ← valid_among port' (as_list additional_ports)
    let required = 4 + tp_size
    all_ports ←
        if ltb (length valid_ports) required
        then more_ports required (port' ∷ valid_ports) valid_ports
        else pure valid_ports
    pure (port', take required all_ports)
