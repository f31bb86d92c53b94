-- ===== src/Contract/Chains/Latest.antt =====
-- What the hub contract knows of each registered chain, whatever calls were made.
use bas_relay_hub.Prelude.{
  ℕ, ◌*◌, ◌/◌, ◌%◌, ◌≡◌, ◌≢◌, ◌∙◌, refl, sym, ap, subst, inl, inr, Bool-cases, ◌==◌, ==_iff, true,
  List, length, leb, Bytes-discrete,
}
use bas_relay_hub.Prelude.Words.{word}
use bas_relay_hub.Prelude.Maps.Counts.{distinct}
use bas_relay_hub.Errors.{ok}
use bas_relay_hub.Eth.{Address}
use bas_relay_hub.Contract.{
  AddressSetOps, AddressSetLaws, ValidatorHistory, check_validators_and_quorum_reached,
}
use bas_relay_hub.Contract.Quorum.{validators_among, knows_counts}
use bas_relay_hub.Contract.Update.Counted.{HasRoom, Recorded}
use bas_relay_hub.Contract.Chains.{
  ProofVerificationFunction, Staking, Crypto, RelayHubState, Bas, is_registered,
}
use bas_relay_hub.Contract.Chains.Calls.{Calls, none_yet, after, deployed, LastGives, chain_of}
use bas_relay_hub.Contract.Chains.Recorded.{Call-Effect}

module _ {S : Type 0} (set : AddressSetOps S) (laws : AddressSetLaws set)
    (default : ProofVerificationFunction) (staking : Staking) (crypto : Crypto) where
  -- what is known of a chain: validators and an epoch that the last call for it was given, and their record
  Known :
      {s : RelayHubState S} (empty : S)
      → Calls set default staking crypto (deployed empty) s
      → ℕ
      → Type 0
  Known {s} empty calls chain_id =
      (validators : List Address) × (epoch_number : ℕ) × LastGives set default staking crypto calls
        chain_id validators epoch_number
      × ((s.validator_histories chain_id).latest_known_epoch ≡ epoch_number)
      × Recorded set (s.validator_histories chain_id) validators

  Calls-Known :
      (empty : S) {s : RelayHubState S} (chain_id : ℕ)
      (calls : Calls set default staking crypto (deployed empty) s)
      → is_registered (s.registered_chains chain_id).chain_status ≡ true
      → Known empty calls chain_id
  unfolding Known
  Calls-Known empty chain_id none_yet registered = cc
  Calls-Known empty {s = u} chain_id (after {t} earlier call) registered =
      let effect = Call-Effect set laws default staking crypto call in
      let c : ℕ = chain_of set default staking crypto call in
      elim (Bool-cases (chain_id == c)) [
        | inl same ↦
            let is : chain_id ≡ c = (==_iff chain_id c).0 same in
            let at : u.validator_histories chain_id ≡ effect.history =
              ap (λ (x : RelayHubState S). x.validator_histories chain_id) effect.writes
              ∙ rw same refl in
            (
              effect.validators,
              effect.epoch_number,
              inl (sym is, effect.given),
              ap (λ (h : ValidatorHistory S). h.latest_known_epoch) at ∙ effect.latest,
              subst (λ (h : ValidatorHistory S). Recorded set h effect.validators) (sym at)
                  effect.recorded,
            )
        | inr other ↦
            let at : u.validator_histories chain_id ≡ t.validator_histories chain_id =
              ap (λ (x : RelayHubState S). x.validator_histories chain_id) effect.writes
              ∙ rw other refl in
            let chains : u.registered_chains chain_id ≡ t.registered_chains chain_id =
              ap (λ (x : RelayHubState S). x.registered_chains chain_id) effect.writes
              ∙ rw other refl in
            let before =
              Calls-Known empty chain_id earlier
                (ap (λ (b : Bas). is_registered b.chain_status) (sym chains) ∙ registered) in
            let apart : c ≢ chain_id = λ e. cc (sym ((==_iff chain_id c).1 (sym e)) ∙ other) in
            (
              before.0,
              before.1,
              inr (apart, before.2),
              ap (λ (h : ValidatorHistory S). h.latest_known_epoch) at ∙ before.3,
              subst (λ (h : ValidatorHistory S). Recorded set h before.0) (sym at) before.4,
            )
      ]

  -- Over a set with the laws of OpenZeppelin's, whatever calls were made since the contract was deployed:
  -- of each chain that is registered there are the validators that the last call for it was given, as the chain's
  -- verification function has verified them, and the epoch that they are for is the latest one; the contract has
  -- recorded their number (up to 2 ^ 64), and accepts signers under that epoch exactly where the number of different
  -- ones of these validators among them is at least two thirds, rounded down, of the number recorded; where the
  -- array of marks has room for all validators that ever were.
  pub latest_counts :
      (empty : S) {s : RelayHubState S} (chain_id : ℕ)
      (calls : Calls set default staking crypto (deployed empty) s)
      → is_registered (s.registered_chains chain_id).chain_status ≡ true
      → HasRoom set (s.validator_histories chain_id)
      → let history = s.validator_histories chain_id in
        let count = history.validator_count history.latest_known_epoch in
        (validators : List Address) × LastGives set default staking crypto calls chain_id validators
          history.latest_known_epoch
        × (count ≡ length validators % word)
        × ((signers : List Address)
            → check_validators_and_quorum_reached set history history.latest_known_epoch signers
              ≡ ok (
                  leb
                    (count * 2 / 3)
                    (distinct Bytes-discrete (validators_among validators signers))))
  unfolding Known
  latest_counts empty {s} chain_id calls registered room =
      let history = s.validator_histories chain_id in
      let (validators, epoch_number, given, latest, recorded) =
        Calls-Known empty chain_id calls registered in
      (
        validators,
        subst (λ (e : ℕ). LastGives set default staking crypto calls chain_id validators e)
            (sym latest) given,
        recorded.counted,
        knows_counts set history history.latest_known_epoch validators (recorded.knows room),
      )
