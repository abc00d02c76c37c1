-- ===== src/Ports/Find.antt =====
-- What `find_free_port` of fastmoe/utils/port_utils.py ends with.
use harvest_mo_e.Base.{
  ℕ, ◌+◌, ◌-◌, ◌≤◌, ◌≡◌, refl, List, none, some, All, All-mono, range_from, arith,
}
use harvest_mo_e.Base.Action.{Error, Result, ok, raise, blocked}
use harvest_mo_e.Ports.{Host, Clock, max_port, search_random, find_free_port}
use harvest_mo_e.Ports.Search.{
  IsFound, IsTaken, IsEnd-later, Ends, search_random_lem, EndsRange, IsTaken-later,
  search_range_lem,
}

-- What `find_free_port` ends with: a port, or an exception once every port was tried.
abbrev pub FindsPort :
    (host : Host) (lo hi : ℕ) (excluded : List ℕ) (s s' : Clock) → Result ℕ → Type 0
FindsPort host lo hi excluded s s' (ok port) = IsFound host lo hi excluded s.checks s'.checks port
FindsPort host lo hi excluded s s' (raise e) =
    (e ≡ Error.runtime_error)
    × All (IsTaken host excluded s.checks s'.checks) (range_from lo (hi + 1 - lo))
FindsPort host lo hi excluded s s' blocked = ⊥

module _ (host : Host) (lo hi : ℕ) (excluded : List ℕ) where
  abbrev FindsFrom : Clock → Clock → Type 0
  FindsFrom s s₁ =
      (result : Result ℕ) × (s' : Clock) × (find_free_port host lo hi excluded s ≡ (result, s'))
      × FindsPort host lo hi excluded s₁ s' result

  find_in_range :
      (s s₁ : Clock)
      → search_random host lo hi excluded 100 s ≡ (ok none, s₁)
      → s.checks ≤ s₁.checks
      → EndsRange host lo hi excluded lo (hi + 1 - lo) s₁
      → FindsFrom s s
  unfolding find_free_port
  find_in_range s s₁ e later (some port, s', e', end, all) = (
    ok port,
    s',
    ground (arith, e, e'),
    (IsEnd-later host lo hi excluded s s₁ s' (some port) later end).found_in,
  )
  find_in_range s s₁ e later (none, s', e', end, all) = (
    raise Error.runtime_error,
    s',
    ground (arith, e, e'),
    (
      refl,
      All-mono (IsTaken host excluded s₁.checks s'.checks)
          (IsTaken host excluded s.checks s'.checks) (range_from lo (hi + 1 - lo))
          (λ p. IsTaken-later host lo hi excluded s s₁ s' s' p later (omega arith)) all,
    ),
  )

  find_after_random :
      (s : Clock)
      → lo ≤ hi
      → hi ≤ max_port
      → Ends host lo hi excluded (search_random host lo hi excluded 100) s
      → FindsFrom s s
  unfolding find_free_port
  find_after_random s h top (some port, s₁, e, end) = (ok port, s₁, ground (arith, e), end.found_in)
  find_after_random s h top (none, s₁, e, end) =
      find_in_range s s₁ e end.later
        (search_range_lem host lo hi excluded lo (hi + 1 - lo) s₁ top (omega arith) (omega arith))

-- A search over a range of ports that is not empty ends: it returns a port within the bounds that is not
-- excluded and was free when it was checked, or it raises a RuntimeError, and then every port of
-- the range is excluded or was in use when it was checked.
pub find_free_port_lem :
    (host : Host) (lo hi : ℕ) (excluded : List ℕ) (s : Clock)
    → lo ≤ hi
    → hi ≤ max_port
    → (result : Result ℕ) × (s' : Clock) × (find_free_port host lo hi excluded s ≡ (result, s'))
      × FindsPort host lo hi excluded s s' result
find_free_port_lem host lo hi excluded s h k =
    find_after_random host lo hi excluded s h k (search_random_lem host lo hi excluded 100 s h k)
