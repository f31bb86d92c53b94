-- ===== src/Contract/Verifier/Relays.antt =====
-- Epoch after epoch, relayed to the hub contract.
use bas_relay_hub.Prelude.{
  ℕ, suc, ◌+◌, ◌<◌, ◌≤◌, ◌≡◌, refl, sym, ap, ◌∙◌, subst, Bool, List, [], ◌∷◌, Bytes, length, All,
  arith, ◌==◌, if◌then◌else◌,
}
use bas_relay_hub.Prelude.Words.{word}
use bas_relay_hub.Prelude.Maps.{contains}
use bas_relay_hub.Errors.{Result, ok, ◌>>=◌}
use bas_relay_hub.Eth.{Address, Hash, Eth, Client}
use bas_relay_hub.Proof.Run.{coinbases, ProvesEpoch}
use bas_relay_hub.Contract.{AddressSetOps, AddressSetLaws, ValidatorHistory}
use bas_relay_hub.Contract.Quorum.{IsAmong, Records}
use bas_relay_hub.Contract.Update.Places.{adds}
use bas_relay_hub.Contract.Update.Counted.{HasRoom, updated, updated-count, updated-Knows}
use bas_relay_hub.Contract.Update.Succeeds.{BucketsFit, room-Fit}
use bas_relay_hub.Contract.Chains.{Bas, ProofVerificationFunction, RelayHubState}
use bas_relay_hub.Contract.Chains.Epochs.{update_validator_set}
use bas_relay_hub.Contract.Verifier.{ParseBlock}
use bas_relay_hub.Contract.Verifier.Updates.{
  VerifiesParlia, after_update, after_update-chain, after_update-VerifiesParlia,
}
use bas_relay_hub.Contract.Verifier.Relayed.{ParsesSealed, BeginsEpoch, relayed-update}

module _ {S : Type 0} (set : AddressSetOps S) (laws : AddressSetLaws set) where
  -- how many of some addresses are not in the set
  abbrev pub missing : List Address → S → ℕ
  missing [] s = 0
  missing (a ∷ everyone) s =
      let rest = missing everyone s in if set.index s a == 0 then suc rest else rest

  missing_falls :
      (everyone : List Address) (v : Address) (s : S)
      → missing everyone (set.add v s) ≤ missing everyone s
  missing_falls [] v s = omega arith
  missing_falls (a ∷ everyone) v s =
      ground (arith, laws.index-add v a s, missing_falls everyone v s)

  missing_found :
      (everyone : List Address) (v : Address) (s : S)
      → IsAmong everyone v
      → set.index s v ≡ 0
      → missing everyone (set.add v s) < missing everyone s
  unfolding contains
  missing_found [] v s among new = cc
  missing_found (a ∷ everyone) v s among new = ground (
    arith,
    laws.index-add v a s,
    missing_falls everyone v s,
    missing_found everyone v s,
    laws.index-add v v s,
  )

  -- addresses that are added are no longer missing
  pub adds-missing :
      (everyone vs : List Address) (s : S)
      → All (IsAmong everyone) vs
      → set.length (adds set laws vs s) + missing everyone (adds set laws vs s)
        ≤ set.length s + missing everyone s
  adds-missing everyone [] s _ = omega arith
  adds-missing everyone (v ∷ vs) s (among, more) = ground (
    arith,
    adds-missing everyone vs (set.add v s) more,
    missing_falls everyone v s,
    missing_found everyone v s among,
    laws.length-add v s,
  )

-- Lists of blocks for one epoch after the other, up to an epoch and its validators: each proves its epoch, as
-- `createBlockProofs` returns it, from the blocks that some node had, which are a chain whose first block begins
-- the epoch; all of them are sealed by validators of the epoch before; and the new validators are some, are
-- fewer than 2 ^ 64, and are among `everyone`.
pub data Relays (parse : ParseBlock) (eth : Eth) (chain_id epoch_length : ℕ)
    (everyone : List Address) (last_epoch : ℕ) (last_validators : List Address)
    : ℕ → List Address → List (List Bytes) → Type 0 where
  done :
      Relays parse eth chain_id epoch_length everyone last_epoch last_validators last_epoch
        last_validators []
  relay :
      {epoch_number : ℕ} {proofs : List Bytes} {later : List (List Bytes)} (client : Client)
      (epoch_block : ℕ) (p : ProvesEpoch eth client epoch_block epoch_length proofs)
      (validators : List Address)
      → ParsesSealed parse eth client chain_id epoch_length
      → p.chain_id ≡ chain_id
      → BeginsEpoch eth epoch_length (suc epoch_number) p.headers validators
      → All (IsAmong p.validators) (coinbases p.headers)
      → (0 < length validators) × (length validators < word)
      → All (IsAmong everyone) validators
      → Relays parse eth chain_id epoch_length everyone last_epoch last_validators
          (suc epoch_number)
          validators
          later
      → Relays parse eth chain_id epoch_length everyone last_epoch last_validators epoch_number
          p.validators
          (proofs ∷ later)

-- the calls of `updateValidatorSet` with these lists
abbrev pub update_all :
    {S : Type 0}
    → AddressSetOps S
    → ProofVerificationFunction
    → ℕ
    → List (List Bytes)
    → RelayHubState S
    → Result (RelayHubState S)
update_all set default chain_id [] s = ok s
update_all set default chain_id (proofs ∷ later) s = do
  t ← update_validator_set set default chain_id proofs s
  update_all set default chain_id later t

module _ {S : Type 0} (set : AddressSetOps S) (laws : AddressSetLaws set) (parse : ParseBlock)
    (verify_proof : Bytes → Hash → Bytes → Bytes → Result Bool)
    (default : ProofVerificationFunction) (chain_id epoch_length : ℕ)
    (everyone : List Address) where
  -- the contract is at an epoch and has recorded its validators; and one bucket, of 256 bits, has room for all
  -- that ever were and for the missing ones of `everyone`
  pub record Holds (s : RelayHubState S) (epoch_number : ℕ) (validators : List Address)
      : Type 0 where
    pub chain : VerifiesParlia set laws parse verify_proof default chain_id s
    pub same_length : (s.registered_chains chain_id).epoch_length ≡ epoch_length
    pub latest : (s.validator_histories chain_id).latest_known_epoch ≡ epoch_number
    pub records : Records set (s.validator_histories chain_id) epoch_number validators
    pub room :
        set.length (s.validator_histories chain_id).all_validators
          + missing set laws everyone (s.validator_histories chain_id).all_validators
        ≤ 256

  pub updated-Holds :
      (s : RelayHubState S) {epoch_number : ℕ} {before : List Address} (next_epoch : ℕ)
      (validators : List Address)
      → Holds s epoch_number before
      → (0 < length validators) × (length validators < word)
      → All (IsAmong everyone) validators
      → BucketsFit set laws (s.validator_histories chain_id) validators
        × Holds
            (after_update set laws parse verify_proof default chain_id s validators next_epoch)
            next_epoch
            validators
  updated-Holds s next_epoch validators holds (some_validators, sized) known =
      let h : ValidatorHistory S = s.validator_histories chain_id in
      let at =
        after_update-chain set laws parse verify_proof default chain_id s validators next_epoch in
      let fewer = adds-missing set laws everyone validators h.all_validators known in
      let fit : BucketsFit set laws h validators = omega (arith, fewer, holds.room) in
      let counted : (updated set laws h validators next_epoch).validator_count next_epoch
          ≡ length validators =
        omega (arith, updated-count set laws h validators next_epoch, sized) in
      let reach : HasRoom set (updated set laws h validators next_epoch) =
        omega (arith, fewer, holds.room, counted, some_validators) in
      (
        fit,
        record {
          chain =
              after_update-VerifiesParlia set laws parse verify_proof default chain_id s validators
                next_epoch holds.chain;
          same_length = ap (λ (c : Bas). c.epoch_length) at.1 ∙ holds.same_length;
          latest = ap (λ (g : ValidatorHistory S). g.latest_known_epoch) at.0;
          records =
              subst (λ (g : ValidatorHistory S). Records set g next_epoch validators) (sym at.0)
                (record {
                  knows =
                      updated-Knows set laws h validators next_epoch
                        (room-Fit set laws h validators fit) reach;
                  counted = counted;
                });
          room =
              subst
                (λ (g : ValidatorHistory S).
                  set.length g.all_validators + missing set laws everyone g.all_validators ≤ 256)
                (sym at.0) (omega (arith, fewer, holds.room));
        },
      )

  -- Over a set with the laws of OpenZeppelin's, and where the contract parses the blocks of the nodes that their
  -- coinbases have sealed: a contract that holds an epoch with its validators accepts one list after the other
  -- of those that prove the next epochs, as `createBlockProofs` returns them, by `updateValidatorSet` over
  -- `ParliaBlockVerifier`, and then holds the last of these epochs with its validators; if all blocks were
  -- sealed by validators of the epoch before, and at most 256 validators ever were or come.
  pub relays_on :
      (eth : Eth) {last_epoch : ℕ} {last_validators : List Address} {epoch_number : ℕ}
      {validators : List Address} {lists : List (List Bytes)} (s : RelayHubState S)
      → Relays parse eth chain_id epoch_length everyone last_epoch last_validators epoch_number
          validators lists
      → Holds s epoch_number validators
      → (t : RelayHubState S) × (update_all set default chain_id lists s ≡ ok t)
        × Holds t last_epoch last_validators
  relays_on eth s done holds = (s, refl, holds)
  relays_on eth {epoch_number = epoch_number} s
        (relay client epoch_block p validators parses same_chain begins among sized known later)
        holds =
      let (fit, next) = updated-Holds s (suc epoch_number) validators holds sized known in
      let (t, accepted, at_last) =
        relays_on eth
          (after_update set laws parse verify_proof default chain_id s validators
            (suc epoch_number))
          later next in
      let updates =
        relayed-update set laws parse verify_proof default eth client epoch_block s chain_id
          epoch_length p validators epoch_number parses holds.chain holds.same_length same_chain
          begins holds.latest holds.records among fit in
      (t, rw updates accepted, at_last)
