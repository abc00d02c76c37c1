-- ===== src/Ports/Fallback.antt =====
-- The ports that `handle_port_init` in fastmoe/utils/utils.py adds to the given ones.
use harvest_mo_e.Base.{
  ℕ, zero, suc, ◌+◌, ◌-◌, ◌≤◌, ◌≡◌, ◌∙◌, refl, Bool, true, false, not, List, [], ◌∷◌, ◌++◌, ltb,
  if◌then◌else◌, length, take, All, All-append, Bool-cases, inl, inr, arith,
}
use harvest_mo_e.Base.Distinct.{contains, contains-append}
use harvest_mo_e.Base.Action.{Result, ok, raise, blocked, pure, >>=-ok}
use harvest_mo_e.Ports.{Host, Clock, max_port, is_port_free, allocate_ports_with_retry}
use harvest_mo_e.Ports.Search.{WasFree}
use harvest_mo_e.Ports.Later.{allocate_ports_with_retry-IsLater}
use harvest_mo_e.Ports.Allocate.{Allocates, allocate_ports_with_retry_lem}
use harvest_mo_e.Ports.Init.{filter, fall_back, more_ports}
use harvest_mo_e.Ports.Additional.{
  All-take, apart, Returns, IsAdditional, AllAdditional-mono, looks_at,
}

module _ (host : Host) where
  fall_back-suc :
      (required p left : ℕ) (excluded valid : List ℕ) (s s₁ : Clock) (found : Bool)
      → (if contains excluded p then pure false else is_port_free host p) s ≡ (ok found, s₁)
      → fall_back host required p (suc left) excluded valid s ≡ (
          if found
          then (if ltb (length (valid ++ p ∷ [])) required
              then fall_back host required (p + 1) left (excluded ++ p ∷ []) (valid ++ p ∷ []) s₁
              else (ok (valid ++ p ∷ []), s₁))
          else fall_back host required (p + 1) left excluded valid s₁)
  unfolding fall_back
  fall_back-suc required p left excluded valid s s₁ found e =
      >>=-ok (if contains excluded p then pure false else is_port_free host p)
        (λ is_free.
          if is_free
          then (if ltb (length (valid ++ p ∷ [])) required
              then fall_back host required (p + 1) left (excluded ++ p ∷ []) (valid ++ p ∷ [])
              else pure (valid ++ p ∷ []))
          else fall_back host required (p + 1) left excluded valid)
        s e
      ∙ ground arith

  -- The fallback leaves an excluded port out.
  fall_back_lem :
      (port required p left from : ℕ) (excluded valid : List ℕ) (s : Clock)
      → p + left ≤ suc max_port
      → contains excluded port ≡ true
      → from ≤ s.checks
      → All (IsAdditional host port from s.checks) valid
      → Returns host
          (fall_back host required p left excluded valid)
          s
          (λ ports s'. All (IsAdditional host port from s'.checks) ports)
  unfolding fall_back
  fall_back_lem port required p zero from excluded valid s h k start all =
      (valid, s, refl, omega arith, all)
  fall_back_lem port required p (suc left) from excluded valid s h k start all =
      let (found, s₁, e, later, was) = looks_at host (contains excluded p) p s (omega arith) in
      let kept =
        AllAdditional-mono host port from s.checks from s₁.checks valid (omega arith) later all in
      let step = fall_back-suc required p left excluded valid s s₁ found e in
      elim (Bool-cases found) [
        | inr passed ↦
            let (ports, s', e', later', all') =
              fall_back_lem port required (p + 1) left from excluded valid s₁ (omega arith) k
                (omega arith) kept in
            (ports, s', step ∙ rw passed e', omega arith, all')
        | inl taken ↦
            let (differ, (t, above, below, free)) = was taken in
            let more =
              All-append (IsAdditional host port from s₁.checks) valid (p ∷ []) kept
                ((apart excluded port p k differ, (t, omega arith, below, free)), tt) in
            elim (Bool-cases (ltb (length (valid ++ p ∷ [])) required)) [
              | inr enough ↦ (valid ++ p ∷ [], s₁, step ∙ rw taken rw enough refl, later, more)
              | inl few ↦
                  let (ports, s', e', later', all') =
                    fall_back_lem port required (p + 1) left from (excluded ++ p ∷ [])
                      (valid ++ p ∷ []) s₁ (omega arith)
                      (ground (arith, contains-append excluded p port, k)) (omega arith) more in
                  (ports, s', step ∙ rw taken rw few e', omega arith, all')
            ]
      ]

  new_ports_lem :
      (port from until from' until' : ℕ) (ports excluded : List ℕ)
      → from' ≤ from
      → until ≤ until'
      → contains excluded port ≡ true
      → All (WasFree host from until) ports
      → All (IsAdditional host port from' until') (filter (λ p. not (contains excluded p)) ports)
  new_ports_lem port from until from' until' [] excluded h k held all = tt
  new_ports_lem port from until from' until' (p ∷ ports) excluded h k held (was, all) =
      let rest = new_ports_lem port from until from' until' ports excluded h k held all in
      let (t, above, below, free) = was in
      elim (Bool-cases (contains excluded p)) [
        | inl out ↦ rw out rest
        | inr allowed ↦
            rw allowed
              ((apart excluded port p held allowed, (t, omega arith, omega arith, free)), rest)
      ]

  pub more_ports_lem :
      (port required : ℕ) (valid : List ℕ) (s₀ s : Clock)
      → s₀.checks ≤ s.checks
      → All (IsAdditional host port s₀.checks s.checks) valid
      → Returns host
          (more_ports host required (port ∷ valid) valid)
          s
          (λ ports s'. All (IsAdditional host port s₀.checks s'.checks) ports)
  unfolding more_ports
  more_ports_lem port required valid s₀ s start all =
      let num = required - length valid in
      let (result, s₁, e, end) =
        allocate_ports_with_retry_lem host 10000 50000 num 3 s (omega arith) (omega arith) in
      let later = (allocate_ports_with_retry-IsLater host num 10000 50000 3).from s in
      after result s₁ e end (ground (arith, later, e))
    where
      after :
          (result : Result (List ℕ)) (s₁ : Clock)
          → allocate_ports_with_retry host (required - length valid) 10000 50000 3 s ≡ (result, s₁)
          → Allocates host 10000 50000 (required - length valid) s s₁ result
          → s.checks ≤ s₁.checks
          → Returns host
              (more_ports host required (port ∷ valid) valid)
              s
              (λ ports s'. All (IsAdditional host port s₀.checks s'.checks) ports)
      after (ok ports) s₁ e (list, free, count) later =
          let num = required - length valid in
          let new_ports = filter (λ p. not (contains (port ∷ valid) p)) ports in
          (
            valid ++ take num new_ports,
            s₁,
            ground (arith, e),
            later,
            All-append (IsAdditional host port s₀.checks s₁.checks) valid (take num new_ports)
                (AllAdditional-mono host port s₀.checks s.checks s₀.checks s₁.checks valid
                  (omega arith) later all)
                (All-take (IsAdditional host port s₀.checks s₁.checks) num new_ports (
                  new_ports_lem port (s₁.checks - num) s₁.checks s₀.checks s₁.checks ports
                    (port ∷ valid) (omega arith) (omega arith) (ground arith) free)),
          )
      after (raise error) s₁ e end later =
          let (ports, s', e', later', all') =
            fall_back_lem port required 10000 40000 s₀.checks (port ∷ valid) valid s₁ (omega arith)
              (ground arith) (omega arith)
              (AllAdditional-mono host port s₀.checks s.checks s₀.checks s₁.checks valid
                (omega arith) later all) in
          (ports, s', ground (arith, e, e'), omega arith, all')
      after blocked s₁ e end later = elim end [ ]
