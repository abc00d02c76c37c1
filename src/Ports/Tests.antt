-- ===== src/Ports/Tests.antt =====
-- A host on which port 10000 is in use, and whose random numbers go up from 30000.
use Prim.Native.Nat.{min, max}
use harvest_mo_e.Base.Distinct.{contains}
use harvest_mo_e.Base.{
  ℕ, ◌+◌, ◌-◌, ◌≤◌, ◌<◌, ◌≡◌, refl, Bool, not, ◌&&◌, List, [], ◌∷◌, none, some, ◌==◌, leb,
  if◌then◌else◌, length, take, range_from, All, arith,
}
use harvest_mo_e.Base.Action.{Error, Result, ok, raise}
use harvest_mo_e.Requests.Input.{many}
use harvest_mo_e.Ports.{Host, Clock, draw, is_port_free, find_free_port, allocate_ports_with_retry}
use harvest_mo_e.Ports.Find.{FindsPort, find_free_port_lem}
use harvest_mo_e.Ports.Free.{AllocatesFree, allocate_ports_with_retry-free}
use harvest_mo_e.Ports.Init.{filter, alloc_usable_network_port, handle_port_init}
use harvest_mo_e.Ports.First.{alloc_usable_network_port_lem}
use harvest_mo_e.Ports.Additional.{IsAdditional}
use harvest_mo_e.Ports.Main.{handle_port_init_lem, handle_port_init-too_few}

abbrev is_free : ℕ → Bool
is_free p = not (p == 10000)

abbrev drawn : ℕ → ℕ → ℕ → ℕ
drawn d lo hi = max lo (min hi (30000 + d))

drawn_bounds : (d lo hi : ℕ) → lo ≤ hi → (lo ≤ drawn d lo hi) × (drawn d lo hi ≤ hi)
drawn_bounds d lo hi h = omega arith

abbrev host : Host
host = record {
  binds = λ t p. is_free p;
  binds_plain = λ t p. is_free p;
  randint = drawn;
  randint_bounds = drawn_bounds;
}

abbrev start : Clock
start = record { checks = 0; draws = 0 }

-- Each port of the range is excluded or in use, and a hundred random ports were drawn.
no_port :
    find_free_port host 10000 10001 (10001 ∷ []) start
    ≡ (raise Error.runtime_error, record { checks = 1; draws = 100 })
unfolding find_free_port draw is_port_free
no_port = refl

-- The first port is random, the second is found by the search through the range.
two_ports :
    allocate_ports_with_retry host 2 10000 10003 3 start
    ≡ (ok (10003 ∷ 10001 ∷ []), record { checks = 5; draws = 101 })
unfolding allocate_ports_with_retry draw is_port_free
two_ports = refl

find_free_port_lem_example :
    (result : Result ℕ) × (s' : Clock) × (find_free_port host 10000 10001 (10001 ∷ []) start
      ≡ (result, s'))
    × FindsPort host 10000 10001 (10001 ∷ []) start s' result
find_free_port_lem_example =
    find_free_port_lem host 10000 10001 (10001 ∷ []) start (omega arith) (omega arith)

allocate_ports_with_retry-free_example :
    (result : Result (List ℕ)) × (s' : Clock) × (allocate_ports_with_retry host 4 10000 10003 3
        start
      ≡ (result, s'))
    × AllocatesFree is_free 10000 10003 4 result
allocate_ports_with_retry-free_example =
    allocate_ports_with_retry-free host is_free 10000 10003 4 3 start (λ t p. refl) (omega arith)
      (omega arith) (omega arith)

alloc_usable_network_port_lem_example :
    let found =
      filter (λ p. is_free p && not (contains (10002 ∷ []) p)) (range_from 10000 (65536 - 10000)) in
    (s' : Clock) × (alloc_usable_network_port host 2 (10002 ∷ []) start
      ≡ (ok (if leb 2 (length found) then some (take 2 found) else none), s'))
alloc_usable_network_port_lem_example =
    alloc_usable_network_port_lem host is_free 2 (10002 ∷ []) start (λ t p. refl) (omega arith)

handle_port_init_lem_example :
    (port' : ℕ) × (ports : List ℕ) × (s' : Clock) × (handle_port_init host
        (some 10000)
        (some (many (10000 ∷ 10001 ∷ 10002 ∷ [])))
        1
        start
      ≡ (ok (port', ports), s'))
    × (length ports ≤ 4 + 1)
    × All (IsAdditional host port' start.checks s'.checks) ports
handle_port_init_lem_example =
    handle_port_init_lem host (some 10000) (some (many (10000 ∷ 10001 ∷ 10002 ∷ []))) 1 start
      (omega arith) (omega arith)

abbrev after_first : Clock
after_first = record { checks = 1; draws = 0 }

five_ports :
    allocate_ports_with_retry host (4 + 1) 10000 50000 3 after_first
    ≡ (ok (30000 ∷ 30001 ∷ 30002 ∷ 30003 ∷ 30004 ∷ []), record { checks = 11; draws = 5 })
unfolding allocate_ports_with_retry draw is_port_free
five_ports = refl

handle_port_init-too_few_example :
    (ports : List ℕ) × (handle_port_init host (some 30000) none 1 start
      ≡ (ok (30000, ports), record { checks = 11; draws = 5 }))
    × (length ports < 4 + 1)
unfolding is_port_free
handle_port_init-too_few_example =
    handle_port_init-too_few host 30000 1 start after_first (record { checks = 11; draws = 5 })
      (30000 ∷ 30001 ∷ 30002 ∷ 30003 ∷ 30004 ∷ []) refl five_ports refl
