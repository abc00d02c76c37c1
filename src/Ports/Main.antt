-- ===== src/Ports/Main.antt =====
-- What `handle_port_init` of fastmoe/utils/utils.py returns.
use harvest_mo_e.Base.{
  ℕ, zero, suc, ◌+◌, ◌≤◌, ◌<◌, ◌≡◌, ◌∙◌, refl, Bool, true, false, not, List, [], ◌∷◌, Option, none,
  some, ltb, if◌then◌else◌, length, take, All, Bool-cases, inl, inr, arith,
}
use harvest_mo_e.Base.Distinct.{contains}
use harvest_mo_e.Base.Action.{Result, ok, raise, blocked, ◌>>=◌, pure, >>=-ok}
use harvest_mo_e.Requests.Input.{OneOrMany}
use harvest_mo_e.Ports.{Host, Clock, max_port, is_port_free, allocate_ports_with_retry}
use harvest_mo_e.Ports.Allocate.{Allocates, allocate_ports_with_retry_lem}
use harvest_mo_e.Ports.Init.{
  filter, main_port, valid_among, more_ports, as_list, requested, handle_port_init,
}
use harvest_mo_e.Ports.Additional.{
  All-take, length-take-le, Returns, main_port_lem, IsAdditional, AllAdditional-mono,
  valid_among_lem,
}
use harvest_mo_e.Ports.Fallback.{more_ports_lem}

module _ (host : Host) where
  enough_lem :
      (port required : ℕ) (valid : List ℕ) (s₀ s : Clock)
      → s₀.checks ≤ s.checks
      → All (IsAdditional host port s₀.checks s.checks) valid
      → Returns host
          (if ltb (length valid) required
            then more_ports host required (port ∷ valid) valid
            else pure valid)
          s
          (λ ports s'. All (IsAdditional host port s₀.checks s'.checks) ports)
  enough_lem port required valid s₀ s start all = elim (Bool-cases (ltb (length valid) required)) [
    | inl few ↦ rw few (more_ports_lem host port required valid s₀ s start all)
    | inr enough ↦ rw enough (valid, s, refl, omega arith, all)
  ]

  handle_port_init-steps :
      (port : Option ℕ) (additional : Option (OneOrMany ℕ)) (tp_size : ℕ) (s s₁ s₂ s₃ : Clock)
      (port' : ℕ) (valid ports : List ℕ)
      → main_port host (requested port) s ≡ (ok port', s₁)
      → valid_among host port' (as_list additional) s₁ ≡ (ok valid, s₂)
      → (if ltb (length valid) (4 + tp_size)
            then more_ports host (4 + tp_size) (port' ∷ valid) valid
            else pure valid)
          s₂
        ≡ (ok ports, s₃)
      → handle_port_init host port additional tp_size s ≡ (ok (port', take (4 + tp_size) ports), s₃)
  unfolding handle_port_init
  handle_port_init-steps port additional tp_size s s₁ s₂ s₃ port' valid ports e₁ e₂ e₃ =
      let finish =
        λ (port' : ℕ) (ports : List ℕ). pure {S = Clock} (port', take (4 + tp_size) ports) in
      let extend = λ (port' : ℕ) (valid : List ℕ).
        if ltb (length valid) (4 + tp_size)
        then more_ports host (4 + tp_size) (port' ∷ valid) valid
        else pure valid in
      >>=-ok (main_port host (requested port))
        (λ port'. valid_among host port' (as_list additional) >>= λ valid.
          extend port' valid >>= finish port')
        s e₁
      ∙ >>=-ok (valid_among host port' (as_list additional))
          (λ valid. extend port' valid >>= finish port') s₁ e₂
      ∙ >>=-ok (extend port' valid) (finish port') s₂ e₃

-- For ports that there are: the call returns a main port and at most `4 + tp_size` additional ones,
-- each of which differs from the main port and was free at a check during the call.
pub handle_port_init_lem :
    (host : Host) (port : Option ℕ) (additional : Option (OneOrMany ℕ)) (tp_size : ℕ) (s : Clock)
    → requested port ≤ max_port
    → All (λ p. p ≤ max_port) (as_list additional)
    → (port' : ℕ) × (ports : List ℕ) × (s' : Clock) × (handle_port_init host port additional tp_size
          s
        ≡ (ok (port', ports), s'))
      × (length ports ≤ 4 + tp_size)
      × All (IsAdditional host port' s.checks s'.checks) ports
handle_port_init_lem host port additional tp_size s h k =
    let (port', s₁, e₁, later₁, _) = main_port_lem host (requested port) s h in
    let (valid, s₂, e₂, later₂, all₂) = valid_among_lem host port' (as_list additional) s₁ k in
    let (ports, s₃, e₃, later₃, all₃) =
      enough_lem host port' (4 + tp_size) valid s s₂ (omega arith) (
        AllAdditional-mono host port' s₁.checks s₂.checks s.checks s₂.checks valid later₁
          (omega arith) all₂) in
    (
      port',
      take (4 + tp_size) ports,
      s₃,
      handle_port_init-steps host port additional tp_size s s₁ s₂ s₃ port' valid ports e₁ e₂ e₃,
      length-take-le (4 + tp_size) ports,
      All-take (IsAdditional host port' s.checks s₃.checks) (4 + tp_size) ports all₃,
    )

length-filter-le : (test : ℕ → Bool) (ports : List ℕ) → length (filter test ports) ≤ length ports
length-filter-le test [] = omega arith
length-filter-le test (p ∷ ports) = ground (arith, length-filter-le test ports)

length-filter-lt :
    (test : ℕ → Bool) (ports : List ℕ) (port : ℕ)
    → contains ports port ≡ true
    → test port ≡ false
    → length (filter test ports) < length ports
length-filter-lt test [] port h e = cc
length-filter-lt test (p ∷ ports) port h e =
    ground (arith, length-filter-le test ports, length-filter-lt test ports port)

length-take-le_length : (n : ℕ) (ports : List ℕ) → length (take n ports) ≤ length ports
length-take-le_length zero ports = omega arith
length-take-le_length (suc n) [] = omega arith
length-take-le_length (suc n) (p ∷ ports) = omega (arith, length-take-le_length n ports)

length_of_allocated :
    (host : Host) (num : ℕ) (s s₂ : Clock) (ports : List ℕ)
    → allocate_ports_with_retry host num 10000 50000 3 s ≡ (ok ports, s₂)
    → length ports ≡ num
length_of_allocated host num s s₂ ports found =
    let (result, s', e, end) =
      allocate_ports_with_retry_lem host 10000 50000 num 3 s (omega arith) (omega arith) in
    size result s' e end
  where
    size :
        (result : Result (List ℕ)) (s' : Clock)
        → allocate_ports_with_retry host num 10000 50000 3 s ≡ (result, s')
        → Allocates host 10000 50000 num s s' result
        → length ports ≡ num
    size (ok found_ports) s' e (list, all, count) = ground (arith, e, found, list.size)
    size (raise error) s' e end = ground (arith, e, found)
    size blocked s' e end = elim end [ ]

-- Without ports given, where the free main port is one of those that the search for the additional
-- ports returns: too few additional ports are returned.
pub handle_port_init-too_few :
    (host : Host) (port tp_size : ℕ) (s s₁ s₂ : Clock) (new_ports : List ℕ)
    → is_port_free host port s ≡ (ok true, s₁)
    → allocate_ports_with_retry host (4 + tp_size) 10000 50000 3 s₁ ≡ (ok new_ports, s₂)
    → contains new_ports port ≡ true
    → (ports : List ℕ) × (handle_port_init host (some port) none tp_size s ≡ (ok (port, ports), s₂))
      × (length ports < 4 + tp_size)
unfolding main_port valid_among more_ports
handle_port_init-too_few host port tp_size s s₁ s₂ new_ports free found held =
    let required = 4 + tp_size in
    let test = λ (p : ℕ). not (contains (port ∷ []) p) in
    let ports = take required (filter test new_ports) in
    (
      take required ports,
      handle_port_init-steps host (some port) none tp_size s s₁ s₁ s₂ port [] ports
          (ground (arith, free)) refl (ground (arith, found)),
      omega (
        arith,
        length-take-le_length required ports,
        length-take-le_length required (filter test new_ports),
        length-filter-lt test new_ports port held (ground arith),
        length_of_allocated host required s₁ s₂ new_ports found,
      ),
    )
