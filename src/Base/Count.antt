-- ===== src/Base/Count.antt =====
-- How often a test holds in a list, and how often a number occurs: what is kept when items move.
use Prim.Native.Nat.{ℕ, zero, suc, ◌+◌, ◌≤◌}
use mathlib.Core.Path.{◌≡◌, refl}
use mathlib.Core.Bool.{Bool, ◌&&◌}
use mathlib.Core.Option.{some}
use mathlib.Core.List.{List, [], ◌∷◌, ◌++◌}
use native.Mathlib.Omega.{arith}
use harvest_mo_e.Base.Tests.{◌==◌, leb, ltb, if◌then◌else◌}
use harvest_mo_e.Base.Lists.{length, take, drop, get_elem?, range_from}

module _ {ℓ} {A : Type ℓ} where
  -- The number of elements that pass the test.
  abbrev pub count_p : (A → Bool) → List A → ℕ
  count_p p [] = 0
  count_p p (x ∷ xs) = (if p x then 1 else 0) + count_p p xs

  pub count_p-append :
      (p : A → Bool) (xs ys : List A) → count_p p (xs ++ ys) ≡ count_p p xs + count_p p ys
  count_p-append p [] ys = omega arith
  count_p-append p (x ∷ xs) ys = omega (arith, count_p-append p xs ys)

  pub count_p-le-length : (p : A → Bool) (xs : List A) → count_p p xs ≤ length xs
  count_p-le-length p [] = omega arith
  count_p-le-length p (x ∷ xs) = ground (arith, count_p-le-length p xs)

-- The number of times that `a` occurs.
abbrev pub count : ℕ → List ℕ → ℕ
count item [] = 0
count item (first ∷ rest) = (if item == first then 1 else 0) + count item rest

pub count-append :
    (item : ℕ) (front back : List ℕ)
    → count item (front ++ back) ≡ count item front + count item back
count-append item [] back = omega arith
count-append item (first ∷ front) back = omega (arith, count-append item front back)

pub count-take-drop :
    (a n : ℕ) (xs : List ℕ) → count a (take n xs) + count a (drop n xs) ≡ count a xs
count-take-drop a zero xs = omega arith
count-take-drop a (suc n) [] = omega arith
count-take-drop a (suc n) (x ∷ xs) = omega (arith, count-take-drop a n xs)

pub count-range_from :
    (a start n : ℕ)
    → count a (range_from start n) ≡ (if leb start a && ltb a (start + n) then 1 else 0)
count-range_from a start zero = ground arith
count-range_from a start (suc n) = ground (arith, count-range_from a (start + 1) n)

pub count-get_elem? : (xs : List ℕ) (i a : ℕ) → get_elem? xs i ≡ some a → 1 ≤ count a xs
count-get_elem? [] i a e = ground arith
count-get_elem? (x ∷ xs) zero a e = ground arith
count-get_elem? (x ∷ xs) (suc i) a e = omega (arith, count-get_elem? xs i a e)

-- In a list that holds every number at most once, equal entries stand at equal places.
pub get_elem?_injective :
    (xs : List ℕ) (i j a : ℕ)
    → ((b : ℕ) → count b xs ≤ 1)
    → get_elem? xs i ≡ some a
    → get_elem? xs j ≡ some a
    → i ≡ j
get_elem?_injective [] i j a u p q = ground arith
get_elem?_injective (x ∷ xs) zero zero a u p q = refl
get_elem?_injective (x ∷ xs) zero (suc j) a u p q = ground (arith, u a, count-get_elem? xs j a q)
get_elem?_injective (x ∷ xs) (suc i) zero a u p q = ground (arith, u a, count-get_elem? xs i a p)
get_elem?_injective (x ∷ xs) (suc i) (suc j) a u p q =
    ground (arith, get_elem?_injective xs i j a (λ b. omega (arith, u b)) p q)
