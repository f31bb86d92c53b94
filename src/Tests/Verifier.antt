-- ===== src/Tests/Verifier.antt =====
-- A chain whose blocks the Parlia contract verifies, in the small world.
use bas_relay_hub.Prelude.{◌≡◌, refl, true, none, List, [], ◌∷◌, replicate, arith, Bytes-discrete}
use bas_relay_hub.Errors.{ok, err, external, ◌>>=◌}
use bas_relay_hub.Eth.{Address}
use bas_relay_hub.Contract.Update.Counted.{updated}
use bas_relay_hub.Contract.Chains.{
  active, bas, BlockHeader, ProofVerificationFunction, RelayHubState, write_chain,
}
use bas_relay_hub.Contract.Chains.Epochs.{update_validator_set}
use bas_relay_hub.Contract.Verifier.{ParseBlock, zero_header, parlia_block_verifier}
use bas_relay_hub.Contract.Verifier.Updates.{VerifiesParlia, IsAt}
use bas_relay_hub.Contract.Verifier.Reset.{outsider_takes_over}
use bas_relay_hub.Contract.Verifier.Relayed.{header_of}
use bas_relay_hub.Tests.World.{alice, validators, world, block}
use bas_relay_hub.Tests.Quorums.{listed, listed_laws, no_history}
use bas_relay_hub.Tests.Chains.{zeros}

abbrev mallory : Address
mallory = replicate 20 9

-- block 10, which an outsider has sealed
abbrev forged : BlockHeader
forged = record zero_header { block_number = 10; coinbase = mallory }

-- the first byte tells the block
abbrev pub honest : ParseBlock
honest chain_id [] epoch_length = err (external 8)
honest chain_id (n ∷ rest) epoch_length = ok (header_of world (block n), validators)

abbrev forging : ParseBlock
forging chain_id raw_block epoch_length = ok (forged, mallory ∷ [])

abbrev pub verifying_with : ParseBlock → ProofVerificationFunction
verifying_with parse = parlia_block_verifier parse (λ receipt root siblings path. ok true)

-- the contract at epoch 0, with the validators of block 0
abbrev pub genesis : RelayHubState (List Address)
genesis = write_chain zeros 56 (updated listed listed_laws no_history validators 0) (record {
  chain_status = active;
  chain_type = bas;
  verification_function = none;
  bridge_address = alice;
  epoch_length = 2;
})

pub verifies :
    (parse : ParseBlock)
    → VerifiesParlia listed listed_laws parse
        (λ receipt root siblings path. ok true)
        (verifying_with parse)
        56
        genesis
verifies parse = record { registered = refl; verified_so = refl; some_blocks = omega arith }

outsider_takes_over_example :
    (t : RelayHubState (List Address)) × ((update_validator_set listed
          (verifying_with forging)
          56
          []
          genesis
        >>= update_validator_set listed (verifying_with forging) 56 ((7 ∷ []) ∷ []))
      ≡ ok t)
    × IsAt listed listed_laws forging
        (λ receipt root siblings path. ok true)
        (verifying_with forging)
        56
        t
        (mallory ∷ [])
        5
unfolding Bytes-discrete
outsider_takes_over_example =
    outsider_takes_over listed listed_laws forging (λ receipt root siblings path. ok true)
      (verifying_with forging) 56 genesis (7 ∷ []) forged (mallory ∷ []) 4 (verifies forging) refl
      refl refl refl (λ later. refl) (omega arith)
