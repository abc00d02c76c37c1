-- ===== src/Ports/Lists.antt =====
-- Lists of ports without repetition, and how many ports of a range are left beside a list.
use harvest_mo_e.Base.{
  ℕ, ◌+◌, ◌≤◌, ◌<◌, ◌≡◌, refl, Bool, true, false, not, ◌&&◌, List, [], ◌∷◌, if◌then◌else◌, All,
  length, range_from, arith,
}
use harvest_mo_e.Base.Distinct.{contains, IsDistinct}
use harvest_mo_e.Base.Count.{count, count_p, count-range_from}

module _ (free : ℕ → Bool) where
  -- A free port outside a list.
  abbrev pub is_left : List ℕ → ℕ → Bool
  is_left ports port = free port && not (contains ports port)

  -- One more port in the list takes one place of the range, if it had one.
  count_p-is_left :
      (port : ℕ) (ports range : List ℕ)
      → count_p (is_left (port ∷ ports)) range
          + (if is_left ports port then count port range else 0)
        ≡ count_p (is_left ports) range
  count_p-is_left port ports [] = ground arith
  count_p-is_left port ports (p ∷ range) = ground (arith, count_p-is_left port ports range)

  pub count_p-is_left_nil : (range : List ℕ) → count_p (is_left []) range ≡ count_p free range
  count_p-is_left_nil [] = refl
  count_p-is_left_nil (p ∷ range) = ground (arith, count_p-is_left_nil range)

  -- A list takes at most as many places as it has ports.
  pub count_p-le-left :
      (ports : List ℕ) (start n : ℕ)
      → count_p free (range_from start n)
        ≤ count_p (is_left ports) (range_from start n) + length ports
  count_p-le-left [] start n = omega (arith, count_p-is_left_nil (range_from start n))
  count_p-le-left (p ∷ ports) start n = ground (
    arith,
    count_p-is_left p ports (range_from start n),
    count-range_from p start n,
    count_p-le-left ports start n,
  )

  -- Distinct free ports of the range take one place each.
  pub left-le-count_p :
      (ports : List ℕ) (start n : ℕ)
      → IsDistinct ports
      → All (λ p. (start ≤ p) × (p < start + n) × (free p ≡ true)) ports
      → count_p (is_left ports) (range_from start n) + length ports
        ≤ count_p free (range_from start n)
  left-le-count_p [] start n d a = omega (arith, count_p-is_left_nil (range_from start n))
  left-le-count_p (p ∷ ports) start n d a = ground (
    arith,
    count_p-is_left p ports (range_from start n),
    count-range_from p start n,
    left-le-count_p ports start n d.1 a.1,
  )

  -- A range without a port that is left.
  pub count_p_zero :
      (ports range : List ℕ)
      → All (λ p. is_left ports p ≡ false) range
      → count_p (is_left ports) range ≡ 0
  count_p_zero ports [] a = refl
  count_p_zero ports (p ∷ range) a = ground (arith, count_p_zero ports range a.1)
