-- ===== src/Contract/Update/Places.antt =====
-- The places that the loop of `_updateActiveValidatorSet` gives to validators.
use bas_relay_hub.Prelude.{
  ℕ, ◌-◌, ◌/◌, ◌<◌, ◌≡◌, ◌⊎◌, inl, inr, refl, sym, ap, ◌∙◌, subst, Bool, true, false, Bool-cases,
  List, [], ◌∷◌, arith, ltb, ltb→lt, if◌then◌else◌, ℕ_discrete, Bytes-discrete,
}
use bas_relay_hub.Prelude.Maps.{contains}
use bas_relay_hub.Errors.{Fault, ok, panic, slice_bounds, >>=-eq-ok}
use bas_relay_hub.Eth.{Address}
use bas_relay_hub.Contract.{AddressSetOps, AddressSetLaws}
use bas_relay_hub.Contract.Quorum.{IsAmong}
use bas_relay_hub.Contract.Update.{add_validator, add_loop}

pub if_ok :
    {A : Type 0} (p : Fault) {a r : A} (b : Bool)
    → (if b then ok a else panic p) ≡ ok r
    → (b ≡ true) × (r ≡ a)
if_ok p true h = (refl, cc)
if_ok p false h = cc

module _ {S : Type 0} (set : AddressSetOps S) (laws : AddressSetLaws set) where
  -- the set with all of a list, and the bits that the loop has set by then
  abbrev pub adds : List Address → S → S
  adds [] s = s
  adds (v ∷ vs) s = adds vs (set.add v s)

  abbrev pub place_in : S → Address → ℕ
  place_in s a = set.index s a - 1

  abbrev pub places : List Address → S → List ℕ → List ℕ
  places [] s bits = bits
  places (v ∷ vs) s bits = places vs (set.add v s) (place_in (set.add v s) v ∷ bits)

  -- each place lies within the buckets
  abbrev pub Fit : ℕ → List Address → S → Type 0
  Fit words [] s = Unit
  Fit words (v ∷ vs) s = (place_in (set.add v s) v / 256 < words) × Fit words vs (set.add v s)

  pub add_loop-Fit :
      (words : ℕ) (vs : List Address) (s : S) (bits : List ℕ) {r : S × List ℕ}
      → add_loop set words vs (s, bits) ≡ ok r
      → (r ≡ (adds vs s, places vs s bits)) × Fit words vs s
  unfolding add_loop add_validator
  add_loop-Fit words [] s bits h = (cc, tt)
  add_loop-Fit words (v ∷ vs) s bits {r} h =
      let (added', one, rest) = >>=-eq-ok (add_validator set words (s, bits) v) _ h in
      let (fits, is) = if_ok slice_bounds (ltb (place_in (set.add v s) v / 256) words) one in
      let (all, later) =
        add_loop-Fit words vs (set.add v s) (place_in (set.add v s) v ∷ bits)
          (ap (add_loop set words vs) (sym is) ∙ rest) in
      (all, (ltb→lt _ _ fits, later))

  pub added : (v : Address) (s : S) → 0 < set.index (set.add v s) v
  added v s = ground (arith, laws.index-add v v s)

  pub kept :
      (vs : List Address) (s : S) (a : Address)
      → 0 < set.index s a
      → set.index (adds vs s) a ≡ set.index s a
  kept [] s a here = refl
  kept (v ∷ vs) s a here =
      let same : set.index (set.add v s) a ≡ set.index s a = ground (arith, laws.index-add v a s) in
      kept vs (set.add v s) a (omega (arith, same, here)) ∙ same

  pub unseen :
      (vs : List Address) (s : S) (a : Address)
      → contains Bytes-discrete a vs ≡ false
      → set.index (adds vs s) a ≡ set.index s a
  unfolding contains
  unseen [] s a outside = refl
  unseen (v ∷ vs) s a outside =
      unseen vs (set.add v s) a (ground arith) ∙ ground (arith, laws.index-add v a s)

  bits_kept :
      (vs : List Address) (s : S) (bits : List ℕ) (p : ℕ)
      → contains ℕ_discrete p bits ≡ true
      → contains ℕ_discrete p (places vs s bits) ≡ true
  unfolding contains
  bits_kept [] s bits p here = here
  bits_kept (v ∷ vs) s bits p here =
      bits_kept vs (set.add v s) (place_in (set.add v s) v ∷ bits) p (ground arith)

  -- what holds of a validator that the loop has added
  pub record IsPlaced (words : ℕ) (s : S) (bits : List ℕ) (a : Address) : Type 0 where
    pub placed : 0 < set.index s a
    pub marked : contains ℕ_discrete (place_in s a) bits ≡ true
    pub within : place_in s a / 256 < words

  first_IsPlaced :
      (words : ℕ) (vs : List Address) (s : S) (bits : List ℕ) (v : Address)
      → place_in s v / 256 < words
      → 0 < set.index s v
      → IsPlaced words (adds vs s) (places vs s (place_in s v ∷ bits)) v
  unfolding contains
  first_IsPlaced words vs s bits v fits here =
      let same : place_in (adds vs s) v ≡ place_in s v = ap (λ (n : ℕ). n - 1) (kept vs s v here) in
      let marked : contains ℕ_discrete (place_in s v) (place_in s v ∷ bits) ≡ true = ground arith in
      record {
        placed = omega (arith, kept vs s v here, here);
        marked =
            ap (λ (n : ℕ). contains ℕ_discrete n (places vs s (place_in s v ∷ bits))) same
            ∙ bits_kept vs s (place_in s v ∷ bits) (place_in s v) marked;
        within = omega (arith, same, fits);
      }

  pub seen-IsPlaced :
      (words : ℕ) (vs : List Address) (s : S) (bits : List ℕ) (a : Address)
      → Fit words vs s
      → IsAmong vs a
      → IsPlaced words (adds vs s) (places vs s bits) a
  unfolding contains
  seen-IsPlaced words [] s bits a _ among = cc
  seen-IsPlaced words (v ∷ vs) s bits a (fits, later) among =
      let s' = set.add v s in
      elim (Bool-cases (contains Bytes-discrete a vs)) [
        | inl again ↦ seen-IsPlaced words vs s' (place_in s' v ∷ bits) a later again
        | inr once ↦
            let here : v ≡ a = ground arith in
            subst (IsPlaced words (adds vs s') (places vs s' (place_in s' v ∷ bits))) here
              (first_IsPlaced words vs s' bits v fits (added v s))
      ]

  -- a bit that is set was set before, or is the place of a validator
  pub origin :
      (vs : List Address) (s : S) (bits : List ℕ) (p : ℕ)
      → contains ℕ_discrete p (places vs s bits) ≡ true
      → (contains ℕ_discrete p bits ≡ true)
        ⊎ ((v : Address) × IsAmong vs v
            × (0 < set.index (adds vs s) v)
            × (p ≡ place_in (adds vs s) v))
  unfolding contains
  origin [] s bits p here = inl here
  origin (v ∷ vs) s bits p here =
      let s' = set.add v s in
      elim (origin vs s' (place_in s' v ∷ bits) p here) [
        | inr (w, among, placed, is) ↦ inr (w, ground arith, placed, is)
        | inl set_before ↦ elim (Bool-cases (contains ℕ_discrete p bits)) [
          | inl before ↦ inl before
          | inr new ↦
              let same = kept vs s' v (added v s) in
              let first : place_in s' v ≡ p = ground arith in
              inr (v, ground arith, omega (arith, same, added v s), omega (arith, same, first))
        ]
      ]
