-- ===== src/Prelude/Maps/Counts.antt =====
-- How many keys a map has: the size of a map of marks is the number of different keys marked.
use Prim.Native.Nat.{ℕ, suc, ◌+◌}
use mathlib.Core.Bool.{Bool, true, false}
use mathlib.Core.List.{List, [], ◌∷◌, map}
use mathlib.Core.Logic.{ite, inl, inr}
use mathlib.Core.Option.{none, some}
use mathlib.Core.Path.{◌≡◌, refl, ap}
use native.Mathlib.Omega.{arith}
use bas_relay_hub.Prelude.Tests.{Bool-cases, if◌then◌else◌}
use bas_relay_hub.Prelude.Lists.{length}
use bas_relay_hub.Prelude.Maps.{GoMap, insert, lookup, contains, mark_all}

abbrev pub keys {ℓ} : {K V : Type ℓ} → GoMap K V → List K
keys = map (λ e. e.0)

module _ {K : Type 0} (dec : Discrete K) where
  -- the number of different elements that are not among those seen
  unfoldable pub distinct_from : List K → List K → ℕ
  distinct_from seen [] = 0
  distinct_from seen (k ∷ ks) =
      if contains dec k seen then distinct_from seen ks else suc (distinct_from (k ∷ seen) ks)

  -- the number of different elements of a list
  abbrev pub distinct : List K → ℕ
  distinct = distinct_from []

  pub length-insert :
      {V : Type 0} (k : K) (v : V) (m : GoMap K V)
      → length (insert dec k v m) ≡ (if contains dec k (keys m) then length m else suc (length m))
  unfolding insert contains
  length-insert k v [] = refl
  length-insert k v ((j, w) ∷ m) = ground (arith, length-insert k v m)

  pub contains-keys-insert :
      {V : Type 0} (k j : K) (v : V) (m : GoMap K V)
      → contains dec j (keys (insert dec k v m)) ≡ ite (dec k j) true (contains dec j (keys m))
  unfolding insert contains
  contains-keys-insert k j v [] = refl
  contains-keys-insert k j v ((i, w) ∷ m) = ground (arith, contains-keys-insert k j v m)

  -- which elements are seen matters, not how they are listed
  distinct_from-same :
      (ks seen seen' : List K)
      → ((k : K) → contains dec k seen ≡ contains dec k seen')
      → distinct_from seen ks ≡ distinct_from seen' ks
  unfolding distinct_from contains
  distinct_from-same [] seen seen' h = refl
  distinct_from-same (k ∷ ks) seen seen' h = ground (
    arith,
    h k,
    distinct_from-same ks seen seen' h,
    distinct_from-same ks (k ∷ seen) (k ∷ seen') (λ j. ap (ite (dec k j) true) (h j)),
  )

  contains-insert_seen :
      (k : K) (m : GoMap K Bool)
      → contains dec k (keys m) ≡ true
      → (j : K) → contains dec j (keys (insert dec k true m)) ≡ contains dec j (keys m)
  contains-insert_seen k m seen j = ground (arith, contains-keys-insert k j true m)

  contains-insert_new :
      (k : K) (m : GoMap K Bool) (j : K)
      → contains dec j (keys (insert dec k true m)) ≡ contains dec j (k ∷ keys m)
  unfolding contains
  contains-insert_new k m j = contains-keys-insert k j true m

  pub length-mark_all :
      (ks : List K) (m : GoMap K Bool)
      → length (mark_all dec ks m) ≡ length m + distinct_from (keys m) ks
  unfolding mark_all distinct_from
  length-mark_all [] m = omega arith
  length-mark_all (k ∷ ks) m = elim (Bool-cases (contains dec k (keys m))) [
    | inl old ↦ ground (
      arith,
      length-mark_all ks (insert dec k true m),
      length-insert k true m,
      distinct_from-same ks (keys (insert dec k true m)) (keys m) (contains-insert_seen k m old),
    )
    | inr new ↦ ground (
      arith,
      length-mark_all ks (insert dec k true m),
      length-insert k true m,
      distinct_from-same ks (keys (insert dec k true m)) (k ∷ keys m) (contains-insert_new k m),
    )
  ]

  pub contains-keys :
      {V : Type 0} (k : K) (m : GoMap K V)
      → contains dec k (keys m) ≡ elim (lookup dec k m) [ none ↦ false | some v ↦ true ]
  unfolding contains lookup
  contains-keys k [] = refl
  contains-keys k ((j, w) ∷ m) = ground (arith, contains-keys k m)
