-- ===== src/Base/Action.antt =====
-- A Python call on an object: a function of the object's state that returns the new state, also
-- where it raises, since what was written before the exception stays written. `blocked` is the
-- outcome of a thread that waits for a lock which it holds itself: no handler ever sees it.
use mathlib.Core.Path.{◌≡◌, ap}
use mathlib.Core.Bool.{Bool}
use mathlib.Core.Option.{Option, none, some}
use harvest_mo_e.Base.Tests.{if◌then◌else◌}

pub data Error : Type 0 where
  runtime_error value_error index_error key_error zero_division type_error assertion_error
        overflow_error :
      Error

pub data Result {ℓ} (A : Type ℓ) : Type ℓ where
  ok : A → Result A
  raise : Error → Result A
  blocked : Result A

abbrev pub Action : Type 0 → Type 0 → Type 0
Action S A = S → Result A × S

module _ {S A : Type 0} where
  abbrev pub pure : A → Action S A
  pure a s = (ok a, s)

  abbrev pub throw : Error → Action S A
  throw e s = (raise e, s)

  abbrev pub gets : (S → A) → Action S A
  gets f s = (ok (f s), s)

  -- The value of an optional read, or the exception where it is missing.
  abbrev pub or_raise : Option A → Error → Action S A
  or_raise none e s = (raise e, s)
  or_raise (some a) e s = (ok a, s)

infixl 5 ◌>>=◌ ◌>>◌
abbrev pub ◌>>=◌ : {S A B : Type 0} → Action S A → (A → Action S B) → Action S B
◌>>=◌ m f s =
    let (r, s') = m s in
    elim r [ ok a ↦ f a s' | raise e ↦ (raise e, s') | blocked ↦ (blocked, s') ]

abbrev pub ◌>>◌ : {S A B : Type 0} → Action S A → Action S B → Action S B
m >> k = m >>= λ _. k

-- A call that returns hands its value and its state to what follows; one that raises ends it.
pub >>=-ok :
    {S A B : Type 0} (m : Action S A) (f : A → Action S B) (s : S) {a : A} {s' : S}
    → m s ≡ (ok a, s')
    → (m >>= f) s ≡ f a s'
>>=-ok m f s {a} e = rw (e, ◌>>=◌) (ap (λ p. f a p.1) e)

module _ {S : Type 0} where
  abbrev pub raise_if : Bool → Error → Action S (Unit {0})
  raise_if c e s = (if c then raise e else ok tt, s)

  abbrev pub modify : (S → S) → Action S (Unit {0})
  modify f s = (ok tt, f s)
