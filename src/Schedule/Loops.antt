-- ===== src/Schedule/Loops.antt =====
-- Loops that build lists of calls: what such a loop does when only some of its rounds contribute.
use mathlib.Core.List.{append-nil}
use native.Mathlib.Decide.{ℕ_discrete}
use harvest_mo_e.Base.{
  ℕ, zero, suc, ◌+◌, ◌≤◌, ◌<◌, ◌≡◌, ◌≢◌, refl, ap, sym, ◌∙◌, Bool, List, [], ◌∷◌, ◌++◌,
  if◌then◌else◌, arith,
}
use harvest_mo_e.Schedule.{for_range}

module _ {A : Type 0} where
  -- The elements that pass a test, in their order.
  unfoldable pub only : (A → Bool) → List A → List A
  only p [] = []
  only p (x ∷ xs) = let rest = only p xs in if p x then x ∷ rest else rest

  pub only-append : (p : A → Bool) (xs ys : List A) → only p (xs ++ ys) ≡ only p xs ++ only p ys
  unfolding only
  only-append p [] ys = refl
  only-append p (x ∷ xs) ys = ground (arith, only-append p xs ys)

  pub only-for_range :
      (p : A → Bool) (start n : ℕ) (body : ℕ → List A)
      → only p (for_range start n body) ≡ for_range start n (λ i. only p (body i))
  unfolding for_range only
  only-for_range p start zero body = refl
  only-for_range p start (suc n) body =
      only-append p (body start) (for_range (suc start) n body)
      ∙ ap (λ rest. only p (body start) ++ rest) (only-for_range p (suc start) n body)

  pub for_range-same :
      (start n : ℕ) (f g : ℕ → List A)
      → ((i : ℕ) → start ≤ i → i < start + n → f i ≡ g i)
      → for_range start n f ≡ for_range start n g
  unfolding for_range
  for_range-same start zero f g same = refl
  for_range-same start (suc n) f g same =
      let first = same start (omega arith) (omega arith) in
      let rest = for_range-same (suc start) n f g (λ i l u. same i (omega arith) (omega arith)) in
      rw first rw rest refl

  pub for_range-none :
      (start n : ℕ) (f : ℕ → List A)
      → ((i : ℕ) → start ≤ i → i < start + n → f i ≡ [])
      → for_range start n f ≡ []
  unfolding for_range
  for_range-none start zero f none = refl
  for_range-none start (suc n) f none =
      let first = none start (omega arith) (omega arith) in
      let rest = for_range-none (suc start) n f (λ i l u. none i (omega arith) (omega arith)) in
      rw first rest

  -- Only the round `k` contributes.
  pub for_range-one :
      (start n k : ℕ) (f : ℕ → List A)
      → start ≤ k
      → k < start + n
      → ((i : ℕ) → start ≤ i → i < start + n → i ≢ k → f i ≡ [])
      → for_range start n f ≡ f k
  unfolding for_range
  for_range-one start zero k f l u none = absurd (omega (arith, l, u))
  for_range-one start (suc n) k f l u none = elim (ℕ_discrete k start) [
    | yes e ↦
        let rest =
          for_range-none (suc start) n f
            (λ i l' u'. none i (omega arith) (omega arith) (λ e'. absurd (omega arith))) in
        rw rest (append-nil (f start) ∙ ap f (sym e))
    | no ne ↦
        let first = none start (omega arith) (omega arith) (λ e. ne (sym e)) in
        let rest =
          for_range-one (suc start) n k f (omega arith) (omega arith)
            (λ i l' u' d. none i (omega arith) (omega arith) d) in
        rw first rest
  ]

  -- Only the rounds `k` and `l`, in this order, contribute.
  pub for_range-two :
      (start n k l : ℕ) (f : ℕ → List A)
      → start ≤ k
      → k < l
      → l < start + n
      → ((i : ℕ) → start ≤ i → i < start + n → i ≢ k → i ≢ l → f i ≡ [])
      → for_range start n f ≡ f k ++ f l
  unfolding for_range
  for_range-two start zero k l f a b c none = absurd (omega (arith, a, b, c))
  for_range-two start (suc n) k l f a b c none = elim (ℕ_discrete k start) [
    | yes e ↦
        let rest =
          for_range-one (suc start) n l f (omega arith) (omega arith)
            (λ i l' u' d. none i (omega arith) (omega arith) (λ e'. absurd (omega arith)) d) in
        rw rest (ap (λ m. f m ++ f l) (sym e))
    | no ne ↦
        let first =
          none start (omega arith) (omega arith) (λ e. ne (sym e)) (λ e. absurd (omega arith)) in
        let rest =
          for_range-two (suc start) n k l f (omega arith) b (omega arith)
            (λ i l' u' d d'. none i (omega arith) (omega arith) d d') in
        rw first rest
  ]
