-- ===== src/Ports/First.antt =====
-- The ports that `alloc_usable_network_port` of fastmoe/utils/utils.py returns.
use harvest_mo_e.Base.{
  ℕ, zero, suc, ◌+◌, ◌-◌, ◌≤◌, ◌<◌, ◌≡◌, ◌∙◌, inl, inr, refl, ap, sym, Bool, true, false, not, ◌&&◌,
  List, [], ◌∷◌, ◌++◌, Option, none, some, leb, ◌==◌, if◌then◌else◌, length, length-append, take,
  range_from, Bool-cases, ge→ltb, arith,
}
use harvest_mo_e.Base.Distinct.{contains}
use mathlib.Core.List.{append_assoc}
use harvest_mo_e.Base.Action.{ok}
use harvest_mo_e.Ports.{Host, Clock, max_port}
use harvest_mo_e.Ports.Init.{filter, check_port, usable_ports, alloc_usable_network_port}

-- The first ports among those found, after a list of ports, where there are enough.
abbrev pub first_ports : (num : ℕ) (port_list found : List ℕ) → Option (List ℕ)
first_ports num port_list found =
    if leb num (length port_list + length found)
    then some (port_list ++ take (num - length port_list) found)
    else none

module _ (host : Host) where
  check_port_lem :
      (port : ℕ) (s : Clock)
      → port ≤ max_port
      → check_port host port s
        ≡ (ok (host.binds_plain s.checks port), record s { checks = s.checks + 1 })
  unfolding check_port
  check_port_lem port s h = rw (ge→ltb max_port port h) refl

  module _ (num : ℕ) (used_list : List ℕ) where
    passes :
        (port left : ℕ) (port_list : List ℕ) (s : Clock)
        → contains used_list port ≡ true
        → usable_ports host num used_list port (suc left) port_list s
          ≡ usable_ports host num used_list (port + 1) left port_list s
    unfolding usable_ports
    passes port left port_list s e = rw e refl

    checks_in_use :
        (port left : ℕ) (port_list : List ℕ) (s : Clock)
        → port ≤ max_port
        → contains used_list port ≡ false
        → host.binds_plain s.checks port ≡ false
        → length port_list < num
        → usable_ports host num used_list port (suc left) port_list s
          ≡ usable_ports host num used_list
              (port + 1)
              left
              port_list
              (record s { checks = s.checks + 1 })
    unfolding usable_ports
    checks_in_use port left port_list s h e used few =
        ground (arith, e, used, few, check_port_lem port s h)

    takes :
        (port left : ℕ) (port_list : List ℕ) (s : Clock)
        → port ≤ max_port
        → contains used_list port ≡ false
        → host.binds_plain s.checks port ≡ true
        → usable_ports host num used_list port (suc left) port_list s ≡ (
            if length (port_list ++ port ∷ []) == num
            then (ok (some (port_list ++ port ∷ [])), record s { checks = s.checks + 1 })
            else usable_ports host num used_list
                (port + 1)
                left
                (port_list ++ port ∷ [])
                (record s { checks = s.checks + 1 }))
    unfolding usable_ports
    takes port left port_list s h e free = ground (arith, e, free, check_port_lem port s h)

take-suc_cons : (n m p : ℕ) (found : List ℕ) → n ≡ suc m → take n (p ∷ found) ≡ p ∷ take m found
take-suc_cons n m p found e = rw e refl

first_ports-cons :
    (num p : ℕ) (port_list found : List ℕ)
    → length port_list < num
    → first_ports num (port_list ++ p ∷ []) found ≡ first_ports num port_list (p ∷ found)
first_ports-cons num p port_list found h =
    let m = num - length (port_list ++ p ∷ []) in
    let size : length (port_list ++ p ∷ []) ≡ length port_list + 1 =
      omega (arith, length-append port_list (p ∷ [])) in
    ground (
      arith,
      size,
      take-suc_cons (num - length port_list) m p found (omega (arith, size)),
      append_assoc port_list (p ∷ []) (take m found),
    )

first_ports-done :
    (num p : ℕ) (port_list found : List ℕ)
    → length (port_list ++ p ∷ []) ≡ num
    → first_ports num port_list (p ∷ found) ≡ some (port_list ++ p ∷ [])
first_ports-done num p port_list found h =
    let size : length (port_list ++ p ∷ []) ≡ length port_list + 1 =
      omega (arith, length-append port_list (p ∷ [])) in
    ground
      (arith, h, size, take-suc_cons (num - length port_list) 0 p found (omega (arith, size, h)))

first_ports-none :
    (num : ℕ) (port_list : List ℕ) → length port_list < num → first_ports num port_list [] ≡ none
first_ports-none num port_list h = ground arith

module _ (host : Host) (free : ℕ → Bool) (stable : (t p : ℕ) → host.binds_plain t p ≡ free p)
    (num : ℕ) (used_list : List ℕ) where
  abbrev pub usable : ℕ → Bool
  usable p = free p && not (contains used_list p)

  abbrev FindsFirst : (port left : ℕ) → List ℕ → Clock → Type 0
  FindsFirst port left port_list s =
      (s' : Clock) × (usable_ports host num used_list port left port_list s
        ≡ (ok (first_ports num port_list (filter usable (range_from port left))), s'))

  filter-skip :
      (port left : ℕ)
      → usable port ≡ false
      → filter usable (range_from (port + 1) left) ≡ filter usable (range_from port (suc left))
  filter-skip port left e = rw e refl

  filter-keep :
      (port left : ℕ)
      → usable port ≡ true
      → port ∷ filter usable (range_from (port + 1) left)
        ≡ filter usable (range_from port (suc left))
  filter-keep port left e = rw e refl

  skipped :
      (port left : ℕ) (port_list : List ℕ) (s s₁ : Clock)
      → usable port ≡ false
      → usable_ports host num used_list port (suc left) port_list s
        ≡ usable_ports host num used_list (port + 1) left port_list s₁
      → FindsFirst (port + 1) left port_list s₁
      → FindsFirst port (suc left) port_list s
  skipped port left port_list s s₁ out e (s', e') = (
    s',
    e ∙ e' ∙ ap (λ found. (ok (first_ports num port_list found), s')) (filter-skip port left out),
  )

  kept :
      (port left : ℕ) (port_list : List ℕ) (s : Clock)
      → port ≤ max_port
      → length port_list < num
      → contains used_list port ≡ false
      → free port ≡ true
      → (length (port_list ++ port ∷ []) < num
          → FindsFirst
              (port + 1)
              left
              (port_list ++ port ∷ [])
              (record s { checks = s.checks + 1 }))
      → FindsFirst port (suc left) port_list s
  kept port left port_list s h few allowed is_free rest =
      let found = filter usable (range_from (port + 1) left) in
      let e =
        takes host num used_list port left port_list s h allowed (stable s.checks port ∙ is_free) in
      let keep = filter-keep port left (ground (arith, allowed, is_free)) in
      elim (Bool-cases (length (port_list ++ port ∷ []) == num)) [
        | inl last ↦ (
          record s { checks = s.checks + 1 },
          e
              ∙ ground (
                arith,
                last,
                first_ports-done num port port_list found (ground (arith, last)),
                keep,
              ),
        )
        | inr more ↦
            let (s', e') = rest (ground (arith, more, length-append port_list (port ∷ []))) in
            (s', e ∙ ground (arith, more, e', first_ports-cons num port port_list found few, keep))
      ]

  usable_ports_lem :
      (port left : ℕ) (port_list : List ℕ) (s : Clock)
      → port + left ≤ suc max_port
      → length port_list < num
      → FindsFirst port left port_list s
  unfolding usable_ports
  usable_ports_lem port zero port_list s h few =
      (s, ap (λ r. (ok r, s)) (sym (first_ports-none num port_list few)))
  usable_ports_lem port (suc left) port_list s h few =
      let s₁ = record s { checks = s.checks + 1 } in
      elim (Bool-cases (contains used_list port)) [
        | inl out ↦
            skipped port left port_list s s (ground (arith, out))
              (passes host num used_list port left port_list s out)
              (usable_ports_lem (port + 1) left port_list s (omega arith) few)
        | inr allowed ↦ elim (Bool-cases (free port)) [
          | inl is_free ↦ kept port left port_list s (omega arith) few allowed is_free (λ fewer.
              usable_ports_lem (port + 1) left (port_list ++ port ∷ []) s₁ (omega arith) fewer)
          | inr used ↦
              skipped port left port_list s s₁ (ground (arith, used))
                (checks_in_use host num used_list port left port_list s (omega arith) allowed
                  (stable s.checks port ∙ used) few)
                (usable_ports_lem (port + 1) left port_list s₁ (omega arith) few)
        ]
      ]

  first_ports-nil :
      (found : List ℕ)
      → first_ports num [] found ≡ (if leb num (length found) then some (take num found) else none)
  first_ports-nil found = ground arith

  pub usable_ports-first :
      (port left : ℕ) (s : Clock)
      → port + left ≤ suc max_port
      → 1 ≤ num
      → let found = filter usable (range_from port left) in
        (s' : Clock) × (usable_ports host num used_list port left [] s
          ≡ (ok (if leb num (length found) then some (take num found) else none), s'))
  usable_ports-first port left s h k =
      let (s', e) = usable_ports_lem port left [] s h (omega arith) in
      (s', e ∙ ap (λ r. (ok r, s')) (first_ports-nil (filter usable (range_from port left))))

-- Where a port stays free or in use, a call for one port or more returns the first ports from 10000
-- on that are free and not in the list, as many as were asked for, or nothing if there are fewer.
pub alloc_usable_network_port_lem :
    (host : Host) (free : ℕ → Bool) (num : ℕ) (used_list : List ℕ) (s : Clock)
    → ((t p : ℕ) → host.binds_plain t p ≡ free p)
    → 1 ≤ num
    → let found =
        filter (λ p. free p && not (contains used_list p)) (range_from 10000 (65536 - 10000)) in
      (s' : Clock) × (alloc_usable_network_port host num used_list s
        ≡ (ok (if leb num (length found) then some (take num found) else none), s'))
unfolding alloc_usable_network_port
alloc_usable_network_port_lem host free num used_list s stable h =
    usable_ports-first host free stable num used_list 10000 55536 s (omega arith) h
