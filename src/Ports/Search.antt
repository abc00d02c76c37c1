-- ===== src/Ports/Search.antt =====
-- The searches of fastmoe/utils/port_utils.py, while other programs take and give back ports
-- between two checks.
use harvest_mo_e.Base.{
  ℕ, zero, suc, ◌+◌, ◌≤◌, ◌<◌, ◌≡◌, ◌∙◌, ◌⊎◌, inl, inr, refl, Bool, true, false, List, Option, none,
  some, if◌then◌else◌, All, All-mono, range_from, Bool-cases, ge→ltb, arith,
}
use harvest_mo_e.Base.Distinct.{contains}
use harvest_mo_e.Base.Action.{ok, Action}
use harvest_mo_e.Ports.{
  Host, Clock, max_port, draw, is_port_free, try_port, search_random, search_range,
}

module _ (host : Host) where
  -- A check between two moments said that the port is free, or that it is in use.
  abbrev pub WasFree : (from until port : ℕ) → Type 0
  WasFree from until port = (t : ℕ) × (from ≤ t) × (t < until) × (host.binds t port ≡ true)

  abbrev pub WasUsed : (from until port : ℕ) → Type 0
  WasUsed from until port = (t : ℕ) × (from ≤ t) × (t < until) × (host.binds t port ≡ false)

  -- A port within the bounds that is not excluded and was free.
  pub record IsFound (lo hi : ℕ) (excluded : List ℕ) (from until port : ℕ) : Type 0 where
    pub above : lo ≤ port
    pub below : port ≤ hi
    pub allowed : contains excluded port ≡ false
    pub was_free : WasFree from until port

  -- A port that is excluded or was in use.
  abbrev pub IsTaken : List ℕ → (from until port : ℕ) → Type 0
  IsTaken excluded from until port = (contains excluded port ≡ true) ⊎ WasUsed from until port

  abbrev pub FoundIn : (lo hi : ℕ) → List ℕ → (from until : ℕ) → Option ℕ → Type 0
  FoundIn lo hi excluded from until none = Unit
  FoundIn lo hi excluded from until (some port) = IsFound lo hi excluded from until port

  abbrev pub Tried : List ℕ → (s s' : Clock) → ℕ → Bool → Type 0
  Tried excluded s s' port true = (contains excluded port ≡ false) × WasFree s.checks s'.checks port
  Tried excluded s s' port false = IsTaken excluded s.checks s'.checks port

  -- A check of a port that there is.
  pub is_port_free_lem :
      (port : ℕ) (s : Clock)
      → port ≤ max_port
      → is_port_free host port s
        ≡ (ok (host.binds s.checks port), record s { checks = s.checks + 1 })
  unfolding is_port_free
  is_port_free_lem port s h = rw (ge→ltb max_port port h) refl

  pub try_port_lem :
      (excluded : List ℕ) (port : ℕ) (s : Clock)
      → port ≤ max_port
      → (found : Bool) × (s' : Clock) × (try_port host excluded port s ≡ (ok found, s'))
        × (s.checks ≤ s'.checks)
        × Tried excluded s s' port found
  unfolding try_port
  try_port_lem excluded port s h = elim (Bool-cases (contains excluded port)) [
    | inl out ↦ (false, s, rw out refl, omega arith, inl out)
    | inr allowed ↦ elim (Bool-cases (host.binds s.checks port)) [
      | inl free ↦ (
        true,
        record s { checks = s.checks + 1 },
        ground (arith, allowed, free, is_port_free_lem port s h),
        omega arith,
        (allowed, (s.checks, omega arith, omega arith, free)),
      )
      | inr used ↦ (
        false,
        record s { checks = s.checks + 1 },
        ground (arith, allowed, used, is_port_free_lem port s h),
        omega arith,
        inr (s.checks, omega arith, omega arith, used),
      )
    ]
  ]

module _ (host : Host) (lo hi : ℕ) (excluded : List ℕ) where
  draw_lem :
      (s : Clock)
      → lo ≤ hi
      → draw host lo hi s ≡ (ok (host.randint s.draws lo hi), record s { draws = s.draws + 1 })
  unfolding draw
  draw_lem s h = rw (ge→ltb hi lo h) refl

  -- A round that is done, from its draw on.
  search_random-suc :
      (rounds : ℕ) (s s' : Clock) (found : Bool)
      → lo ≤ hi
      → try_port host excluded (host.randint s.draws lo hi) (record s { draws = s.draws + 1 })
        ≡ (ok found, s')
      → search_random host lo hi excluded (suc rounds) s ≡ (
          if found
          then (ok (some (host.randint s.draws lo hi)), s')
          else search_random host lo hi excluded rounds s')
  unfolding search_random
  search_random-suc rounds s s' found h e = ground (arith, draw_lem s h, e)

  search_range-suc :
      (port left : ℕ) (s s' : Clock) (found : Bool)
      → try_port host excluded port s ≡ (ok found, s')
      → search_range host excluded port (suc left) s
        ≡ (if found then (ok (some port), s') else search_range host excluded (port + 1) left s')
  unfolding search_range
  search_range-suc port left s s' found e = ground (arith, e)

  -- What a search ends with, and the ports that it tried in vain.
  pub record IsEnd (s s' : Clock) (found : Option ℕ) : Type 0 where
    pub later : s.checks ≤ s'.checks
    pub found_in : FoundIn host lo hi excluded s.checks s'.checks found

  pub IsEnd-later :
      (s₁ s₂ s₃ : Clock) (found : Option ℕ)
      → s₁.checks ≤ s₂.checks
      → IsEnd s₂ s₃ found
      → IsEnd s₁ s₃ found
  IsEnd-later s₁ s₂ s₃ none h e = record { later = omega (arith, e.later); found_in = tt }
  IsEnd-later s₁ s₂ s₃ (some port) h e =
      let (t, from, until, free) = e.found_in.was_free in
      record {
        later = omega (arith, e.later);
        found_in = record {
          above = e.found_in.above;
          below = e.found_in.below;
          allowed = e.found_in.allowed;
          was_free = (t, omega arith, until, free);
        };
      }

  IsEnd-try :
      (port : ℕ) (s s' : Clock)
      → lo ≤ port
      → port ≤ hi
      → s.checks ≤ s'.checks
      → Tried host excluded s s' port true
      → IsEnd s s' (some port)
  IsEnd-try port s s' above below later tried = record {
    later = later;
    found_in = record { above = above; below = below; allowed = tried.0; was_free = tried.1 };
  }

  -- A search that ends, and how.
  abbrev pub Ends : Action Clock (Option ℕ) → Clock → Type 0
  Ends search s = (found : Option ℕ) × (s' : Clock) × (search s ≡ (ok found, s')) × IsEnd s s' found

  after_round :
      (rounds port : ℕ) (s s₂ : Clock) (found : Bool)
      → lo ≤ port
      → port ≤ hi
      → search_random host lo hi excluded (suc rounds) s
        ≡ (if found then (ok (some port), s₂) else search_random host lo hi excluded rounds s₂)
      → s.checks ≤ s₂.checks
      → Tried host excluded s s₂ port found
      → Ends (search_random host lo hi excluded rounds) s₂
      → Ends (search_random host lo hi excluded (suc rounds)) s
  after_round rounds port s s₂ true above below e later tried rest =
      (some port, s₂, e, IsEnd-try port s s₂ above below later tried)
  after_round rounds port s s₂ false above below e later tried (found, s', e', end) =
      (found, s', e ∙ e', IsEnd-later s s₂ s' found later end)

  pub search_random_lem :
      (rounds : ℕ) (s : Clock)
      → lo ≤ hi
      → hi ≤ max_port
      → Ends (search_random host lo hi excluded rounds) s
  unfolding search_random
  search_random_lem zero s h k = (none, s, refl, record { later = omega arith; found_in = tt })
  search_random_lem (suc rounds) s h k =
      let port = host.randint s.draws lo hi in
      let (above, below) = host.randint_bounds s.draws lo hi h in
      let (found, s₂, e, later, tried) =
        try_port_lem host excluded port (record s { draws = s.draws + 1 }) (omega arith) in
      after_round rounds port s s₂ found above below (search_random-suc rounds s s₂ found h e) later
        tried (search_random_lem rounds s₂ h k)

  -- A search that ends, and the ports that were taken if it found none.
  abbrev pub TriedAll : (port left : ℕ) → (s s' : Clock) → Option ℕ → Type 0
  TriedAll port left s s' none =
      All (IsTaken host excluded s.checks s'.checks) (range_from port left)
  TriedAll port left s s' (some p) = Unit

  abbrev pub EndsRange : (port left : ℕ) → Clock → Type 0
  EndsRange port left s =
      (found : Option ℕ) × (s' : Clock) × (search_range host excluded port left s ≡ (ok found, s'))
      × IsEnd s s' found
      × TriedAll port left s s' found

  pub IsTaken-later :
      (s₁ s₂ s₃ s₄ : Clock) (port : ℕ)
      → s₁.checks ≤ s₂.checks
      → s₃.checks ≤ s₄.checks
      → IsTaken host excluded s₂.checks s₃.checks port
      → IsTaken host excluded s₁.checks s₄.checks port
  IsTaken-later s₁ s₂ s₃ s₄ port h k (inl out) = inl out
  IsTaken-later s₁ s₂ s₃ s₄ port h k (inr (t, from, until, used)) =
      inr (t, omega arith, omega arith, used)

  after_port :
      (port left : ℕ) (s s₂ : Clock) (found : Bool)
      → lo ≤ port
      → port ≤ hi
      → search_range host excluded port (suc left) s
        ≡ (if found then (ok (some port), s₂) else search_range host excluded (port + 1) left s₂)
      → s.checks ≤ s₂.checks
      → Tried host excluded s s₂ port found
      → EndsRange (port + 1) left s₂
      → EndsRange port (suc left) s
  after_port port left s s₂ true above below e later tried rest =
      (some port, s₂, e, IsEnd-try port s s₂ above below later tried, tt)
  after_port port left s s₂ false above below e later tried (some p, s', e', end, all) =
      (some p, s', e ∙ e', IsEnd-later s s₂ s' (some p) later end, tt)
  after_port port left s s₂ false above below e later tried (none, s', e', end, all) = (
    none,
    s',
    e ∙ e',
    IsEnd-later s s₂ s' none later end,
    (
      IsTaken-later s s s₂ s' port (omega arith) end.later tried,
      All-mono (IsTaken host excluded s₂.checks s'.checks)
          (IsTaken host excluded s.checks s'.checks) (range_from (port + 1) left)
          (λ p. IsTaken-later s s₂ s' s' p later (omega arith)) all,
    ),
  )

  pub search_range_lem :
      (port left : ℕ) (s : Clock)
      → hi ≤ max_port
      → lo ≤ port
      → port + left ≤ hi + 1
      → EndsRange port left s
  unfolding search_range
  search_range_lem port zero s k above below =
      (none, s, refl, record { later = omega arith; found_in = tt }, tt)
  search_range_lem port (suc left) s k above below =
      let (found, s₂, e, later, tried) = try_port_lem host excluded port s (omega arith) in
      after_port port left s s₂ found above (omega arith) (search_range-suc port left s s₂ found e)
        later tried (search_range_lem (port + 1) left s₂ k (omega arith) (omega arith))
