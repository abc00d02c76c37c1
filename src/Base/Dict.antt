-- ===== src/Base/Dict.antt =====
-- A Python dict keyed by numbers, in insertion order.
use Prim.Native.Nat.{ℕ}
use mathlib.Core.Path.{◌≡◌, refl}
use mathlib.Core.Logic.{◌≢◌}
use mathlib.Core.Option.{Option, none, some}
use mathlib.Core.List.{List, [], ◌∷◌}
use native.Mathlib.Omega.{arith}
use harvest_mo_e.Base.Tests.{◌==◌, if◌then◌else◌}

abbrev pub Dict : Type 0 → Type 0
Dict V = List (ℕ × V)

module _ {V : Type 0} where
  -- `d.get(k)`
  abbrev pub lookup : ℕ → Dict V → Option V
  lookup key [] = none
  lookup key ((other, value) ∷ rest) = if key == other then some value else lookup key rest

  -- No key is listed twice.
  abbrev pub HasUniqueKeys : Dict V → Type 0
  HasUniqueKeys [] = Unit
  HasUniqueKeys ((key, value) ∷ rest) = (lookup key rest ≡ none) × HasUniqueKeys rest

  -- `del d[k]`
  abbrev pub erase : ℕ → Dict V → Dict V
  erase key [] = []
  erase key ((other, value) ∷ rest) = if key == other then rest else (other, value) ∷ erase key rest

  -- `d[k] = v`: a known key keeps its place, a new one goes to the end.
  abbrev pub insert : ℕ → V → Dict V → Dict V
  insert key value [] = (key, value) ∷ []
  insert key value ((other, old) ∷ rest) =
      if key == other then (other, value) ∷ rest else (other, old) ∷ insert key value rest

  pub lookup-insert :
      (j k : ℕ) (v : V) (d : Dict V)
      → lookup j (insert k v d) ≡ (if j == k then some v else lookup j d)
  lookup-insert j k v [] = refl
  lookup-insert j k v ((i, w) ∷ d) = ground (arith, lookup-insert j k v d)

  pub lookup-erase_ne : (j k : ℕ) (d : Dict V) → j ≢ k → lookup j (erase k d) ≡ lookup j d
  lookup-erase_ne j k [] differ = refl
  lookup-erase_ne j k ((other, value) ∷ rest) differ =
      ground (arith, lookup-erase_ne j k rest differ)

  pub lookup-erase_self : (k : ℕ) (d : Dict V) → HasUniqueKeys d → lookup k (erase k d) ≡ none
  lookup-erase_self k [] h = refl
  lookup-erase_self k ((i, w) ∷ d) h = ground (arith, lookup-erase_self k d h.1)

  pub insert-HasUniqueKeys :
      (k : ℕ) (v : V) (d : Dict V) → HasUniqueKeys d → HasUniqueKeys (insert k v d)
  insert-HasUniqueKeys k v [] h = (refl, tt)
  insert-HasUniqueKeys k v ((i, w) ∷ d) h =
      ground (arith, insert-HasUniqueKeys k v d h.1, lookup-insert i k v d)

  pub erase-HasUniqueKeys : (k : ℕ) (d : Dict V) → HasUniqueKeys d → HasUniqueKeys (erase k d)
  erase-HasUniqueKeys k [] h = tt
  erase-HasUniqueKeys k ((i, w) ∷ d) h =
      ground (arith, erase-HasUniqueKeys k d h.1, lookup-erase_ne i k d)
