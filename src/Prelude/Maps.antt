-- ===== src/Prelude/Maps.antt =====
-- Go's maps. A map is the list of its entries, each key once; the order of the list stands for the
-- order in which a `range` visits the entries, which Go leaves open.
pub mod Counts
use mathlib.Core.Path.{◌≡◌, refl}
use mathlib.Core.Logic.{ite}
use mathlib.Core.Bool.{Bool, true, false}
use mathlib.Core.Option.{Option, none, some}
use mathlib.Core.List.{List, [], ◌∷◌}
use native.Mathlib.Omega.{arith}
use bas_relay_hub.Prelude.Tests.{if◌then◌else◌}

abbrev pub GoMap {ℓ} : Type ℓ → Type ℓ → Type ℓ
GoMap K V = List (K × V)

module _ {ℓ} {K V : Type ℓ} (dec : Discrete K) where
  -- `v, ok := m[k]`
  unfoldable pub lookup : K → GoMap K V → Option V
  lookup k [] = none
  lookup k ((j, v) ∷ m) = ite (dec j k) (some v) (lookup k m)

  -- `m[k] = v`
  unfoldable pub insert : K → V → GoMap K V → GoMap K V
  insert k v [] = (k, v) ∷ []
  insert k v ((j, w) ∷ m) = ite (dec j k) ((j, v) ∷ m) ((j, w) ∷ insert k v m)

  pub lookup-insert :
      (k j : K) (v : V) (m : GoMap K V)
      → lookup j (insert k v m) ≡ ite (dec k j) (some v) (lookup j m)
  unfolding lookup insert
  lookup-insert k j v [] = refl
  lookup-insert k j v ((i, w) ∷ m) = ground (arith, lookup-insert k j v m)

module _ {K : Type 0} (dec : Discrete K) where
  -- whether a list holds a key
  unfoldable pub contains : K → List K → Bool
  contains a [] = false
  contains a (k ∷ ks) = ite (dec k a) true (contains a ks)

  -- a map into `bool` with every key of a list set, `m[k] = true` in the order of the list
  unfoldable pub mark_all : List K → GoMap K Bool → GoMap K Bool
  mark_all [] m = m
  mark_all (k ∷ ks) m = mark_all ks (insert dec k true m)

  pub lookup-mark_all :
      (a : K) (ks : List K) (m : GoMap K Bool)
      → lookup dec a (mark_all ks m) ≡ (if contains a ks then some true else lookup dec a m)
  unfolding contains mark_all
  lookup-mark_all a [] m = refl
  lookup-mark_all a (k ∷ ks) m =
      ground (arith, lookup-mark_all a ks (insert dec k true m), lookup-insert dec k a true m)
