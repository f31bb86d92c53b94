-- ===== src/Contract/Views/Active.antt =====
-- The active validators, as the hub contract lists them.
use bas_relay_hub.Prelude.{
  ℕ, zero, suc, ◌+◌, ◌-◌, ◌*◌, ◌/◌, ◌<◌, ◌≤◌, ◌≡◌, ◌≢◌, refl, sym, ap, ◌∙◌, Bool, true, false, ◌&&◌,
  ◌||◌, inl, inr, Bool-cases, List, [], ◌∷◌, ◌++◌, length, length-append, arith, leb, ltb, lt→ltb,
  ==_iff, ◌==◌, Bytes-discrete,
}
use mathlib.Core.List.{append-nil, append_assoc}
use bas_relay_hub.Prelude.Maps.{contains}
use bas_relay_hub.Errors.{Result, ok}
use bas_relay_hub.Eth.{Address}
use bas_relay_hub.Contract.{AddressSetOps, AddressSetLaws, ValidatorHistory}
use bas_relay_hub.Contract.Views.{bucket_loop, buckets_loop, extract_active_validators}

contains-append :
    (a : Address) (bs cs : List Address)
    → contains Bytes-discrete a (bs ++ cs)
      ≡ (contains Bytes-discrete a bs || contains Bytes-discrete a cs)
unfolding contains
contains-append a [] cs = refl
contains-append a (b ∷ bs) cs = ground (arith, contains-append a bs cs)

-- the places of a bucket and of those behind it
two_spans :
    (n i raw_index : ℕ) (is_set : Bool)
    → ((ltb (i * 256) raw_index && leb raw_index (i * 256 + 256) && is_set)
        || (ltb ((i + 1) * 256) raw_index && leb raw_index ((i + 1) * 256 + n * 256) && is_set))
      ≡ (ltb (i * 256) raw_index && leb raw_index (i * 256 + suc n * 256) && is_set)
two_spans n i raw_index is_set = ground arith

all_places :
    (size raw_index : ℕ) (is_set : Bool)
    → raw_index ≤ size
    → (ltb 0 raw_index && leb raw_index (0 + (size / 256 + 1) * 256) && is_set)
      ≡ (ltb 0 raw_index && is_set)
all_places size raw_index is_set within = ground arith

-- `_values` holds each address of a set at its place
abbrev pub HoldsValues : {S : Type 0} → AddressSetOps S → (S → ℕ → Result Address) → S → Type 0
HoldsValues set value_at s =
    (place : ℕ)
    → place < set.length s
    → (a : Address) × (value_at s place ≡ ok a) × (set.index s a ≡ place + 1)

and_none : (b c : Bool) → (b && c && false) ≡ false
and_none b c = ground arith

contains_here :
    {a b : Address} (more : List Address) → b ≡ a → contains Bytes-discrete a (b ∷ more) ≡ true
unfolding contains
contains_here more same = ground arith

contains_later :
    {a b : Address} (more : List Address)
    → b ≢ a
    → contains Bytes-discrete a (b ∷ more) ≡ contains Bytes-discrete a more
unfolding contains
contains_later more other = ground arith

-- the first of the places is not taken, or is not that of the address
not_first :
    (active : ℕ → Bool) (place n raw_index : ℕ)
    → (raw_index ≡ place + 1 → active place ≡ false)
    → (ltb (place + 1) raw_index && leb raw_index (place + 1 + n) && active (raw_index - 1))
      ≡ (ltb place raw_index && leb raw_index (place + suc n) && active (raw_index - 1))
not_first active place n raw_index other = elim (Bool-cases (raw_index == place + 1)) [
  | inl first ↦
      let is : raw_index ≡ place + 1 = (==_iff raw_index (place + 1)).0 first in
      let unset : active (raw_index - 1) ≡ false = ap active (omega (arith, is)) ∙ other is in
      rw unset (
        and_none (ltb (place + 1) raw_index) (leb raw_index (place + 1 + n))
        ∙ sym (and_none (ltb place raw_index) (leb raw_index (place + suc n))))
  | inr later ↦ ground arith
]

is_first :
    (active : ℕ → Bool) (place n raw_index : ℕ)
    → raw_index ≡ place + 1
    → active place ≡ true
    → (ltb place raw_index && leb raw_index (place + suc n) && active (raw_index - 1)) ≡ true
is_first active place n raw_index is is_set =
    let here : active (raw_index - 1) ≡ true = ap active (omega (arith, is)) ∙ is_set in
    ground arith

module _ {S : Type 0} (set : AddressSetOps S) (laws : AddressSetLaws set)
    (value_at : S → ℕ → Result Address) (history : ValidatorHistory S)
    (holds : HoldsValues set value_at history.all_validators) (at_epoch : ℕ) where
  -- an address at one of `n` places from a place on, which is active
  abbrev is_listed : ℕ → ℕ → Address → Bool
  is_listed place n a =
      let raw_index = set.index history.all_validators a in
      ltb place raw_index
      && leb raw_index (place + n)
      && history.active_validators at_epoch (raw_index - 1)

  -- the loop over a bucket, from a place on, adds these addresses
  record Lists (n place : ℕ) (found : List Address) : Type 0 where
    more : List Address
    ended : bucket_loop set value_at history at_epoch n place found ≡ ok (found ++ more)
    few : length more ≤ n
    listed : (a : Address) → contains Bytes-discrete a more ≡ is_listed place n a

  -- the active places lie within the set
  abbrev pub Within : Type 0
  Within =
      (place : ℕ)
      → history.active_validators at_epoch place ≡ true
      → place < set.length history.all_validators

  bucket-Lists :
      (n place : ℕ) (found : List Address) → Within → length found ≤ place → Lists n place found
  unfolding bucket_loop contains
  bucket-Lists zero place found within sized = record {
    more = [];
    ended = rw append-nil refl;
    few = omega arith;
    listed = λ a. ground arith;
  }
  bucket-Lists (suc n) place found within sized =
      elim (Bool-cases (history.active_validators at_epoch place)) [
        | inr unset ↦
            let rest = bucket-Lists n (place + 1) found within (omega (arith, sized)) in
            record {
              more = rest.more;
              ended = rw unset rest.ended;
              few = omega (arith, rest.few);
              listed = λ a.
                  rest.listed a
                  ∙ not_first (history.active_validators at_epoch) place n
                      (set.index history.all_validators a) (λ first. unset);
            }
        | inl is_set ↦
            let here = within place is_set in
            let (b, value, index) = holds place here in
            let rest =
              bucket-Lists n (place + 1) (found ++ b ∷ []) within
                (omega (arith, sized, length-append found (b ∷ []))) in
            record {
              more = b ∷ rest.more;
              ended =
                  rw
                    (
                      is_set,
                      value,
                      lt→ltb (length found) (set.length history.all_validators)
                          (omega (arith, sized, here)),
                    )
                    (rest.ended ∙ rw append_assoc refl);
              few = omega (arith, rest.few);
              listed = λ a. elim (Bytes-discrete b a) [
                | yes same ↦
                    contains_here rest.more same
                    ∙ sym (
                        is_first (history.active_validators at_epoch) place n
                          (set.index history.all_validators a)
                          (ap (set.index history.all_validators) (sym same) ∙ index) is_set)
                | no other ↦
                    contains_later rest.more other
                    ∙ rest.listed a
                    ∙ not_first (history.active_validators at_epoch) place n
                        (set.index history.all_validators a)
                        (λ first. absurd (
                          other (
                            laws.index_apart b a history.all_validators (omega (arith, index))
                              (index ∙ sym first))))
              ];
            }
      ]

  -- the loop over the buckets adds those of all places from its first bucket on
  record ListsAll (n i : ℕ) (found : List Address) : Type 0 where
    more : List Address
    ended : buckets_loop set value_at history at_epoch n i found ≡ ok (found ++ more)
    listed : (a : Address) → contains Bytes-discrete a more ≡ is_listed (i * 256) (n * 256) a

  buckets-ListsAll :
      (n i : ℕ) (found : List Address) → Within → length found ≤ i * 256 → ListsAll n i found
  unfolding buckets_loop contains
  buckets-ListsAll zero i found within sized = record {
    more = [];
    ended = rw append-nil refl;
    listed = λ a. ground arith;
  }
  buckets-ListsAll (suc n) i found within sized =
      let one = bucket-Lists 256 (i * 256) found within sized in
      let rest =
        buckets-ListsAll n (i + 1) (found ++ one.more) within
          (omega (arith, sized, one.few, length-append found one.more)) in
      record {
        more = one.more ++ rest.more;
        ended = rw one.ended (rest.ended ∙ rw append_assoc refl);
        listed = λ a.
            contains-append a one.more rest.more
            ∙ ap (◌|| contains Bytes-discrete a rest.more) (one.listed a)
            ∙ ap (is_listed (i * 256) 256 a ||◌) (rest.listed a)
            ∙ two_spans n i (set.index history.all_validators a)
                (history.active_validators at_epoch (set.index history.all_validators a - 1));
      }

  -- all active validators, and no others, are listed
  pub extract_lists :
      Within
      → (listed : List Address) × (extract_active_validators set value_at history at_epoch
          ≡ ok listed)
        × ((a : Address)
            → contains Bytes-discrete a listed ≡ (
                ltb 0 (set.index history.all_validators a)
                && history.active_validators at_epoch (set.index history.all_validators a - 1)))
  unfolding extract_active_validators
  extract_lists within =
      let all =
        buckets-ListsAll (set.length history.all_validators / 256 + 1) 0 [] within (omega arith) in
      (
        all.more,
        all.ended,
        λ a.
            all.listed a
            ∙ all_places (set.length history.all_validators) (set.index history.all_validators a)
                (history.active_validators at_epoch (set.index history.all_validators a - 1))
                (laws.index_le a history.all_validators),
      )
