-- ===== src/Tests/Blocks.antt =====
-- Block proofs, validators and seals in the small world.
use bas_relay_hub.Prelude.{
  ◌+◌, ◌-◌, ◌*◌, ◌%◌, ◌≤◌, ◌<◌, ◌≡◌, ◌≢◌, ◌⊎◌, refl, Bytes, Bool, true, none, some, List, [], ◌∷◌,
  ◌++◌, length, replicate, if◌then◌else◌, Bytes-discrete,
}
use bas_relay_hub.Prelude.Maps.{GoMap, lookup, insert, contains}
use bas_relay_hub.Errors.{ok, err, panic, bad_parlia_block, slice_bounds, quorum_not_reached, ◌>>=◌}
use bas_relay_hub.Slices.{slice_upto, slice_from}
use bas_relay_hub.Eth.{Address, address_length}
use bas_relay_hub.Parlia.{
  signing_items, signing_header_items, or_panic, parlia_rlp, recover_parlia_block_signer,
  copy_address, extract_loop, extract_parlia_validators,
}
use bas_relay_hub.Parlia.Signer.{signer_of, recover_seal}
use bas_relay_hub.Parlia.Validators.{shortest_extra, extract_branches, extract-concat}
use bas_relay_hub.Proof.{quorum_of, prove_block, check_signer, block_loop, create_block_proofs}
use bas_relay_hub.Proof.Run.{signers, ProvesEpoch}
use bas_relay_hub.Proof.Sound.{blocks_sound}
use bas_relay_hub.Proof.Complete.{blocks_complete}
use bas_relay_hub.Proof.Decide.{blocks_decide}
use bas_relay_hub.Tests.Runs.{two_proofs, two_prove}
use bas_relay_hub.Tests.World.{alice, validators, seal_of, world, header, block, client}

two_proofs_made : create_block_proofs world client 2 2 ≡ ok two_proofs
unfolding create_block_proofs block_loop prove_block check_signer recover_parlia_block_signer
    signing_header_items signing_items or_panic slice_from slice_upto extract_parlia_validators
    extract_loop copy_address insert Bytes-discrete
two_proofs_made = refl

blocks_sound_example : ProvesEpoch world client 2 2 two_proofs
blocks_sound_example = blocks_sound world client 2 2 two_proofs_made

blocks_complete_example : create_block_proofs world client 2 2 ≡ ok two_proofs
blocks_complete_example = blocks_complete world client 2 2 two_prove

-- blocks 2 and 3, by two of three sealers, are a quorum
blocks_decide_example :
    ((quorum_of validators ≤ signers (block 2 ∷ block 3 ∷ []))
      × (proofs : List Bytes) × (back : List Bytes) × (two_proofs ≡ proofs ++ back)
      × (create_block_proofs world client 2 2 ≡ ok proofs))
    ⊎ ((signers (block 2 ∷ block 3 ∷ []) < quorum_of validators)
        × (create_block_proofs world client 2 2
            ≡ err (quorum_not_reached 2 (signers (block 2 ∷ block 3 ∷ [])) (quorum_of validators))))
blocks_decide_example =
    blocks_decide world client 2 2 56 (block 0) validators two_prove.mapping refl refl
      two_prove.extracted two_prove.run refl

extract-concat_example :
    (mapping : GoMap Address Bool) × (extract_parlia_validators world (block 2)
      ≡ ok (validators, mapping))
    × ((a : Address)
        → lookup Bytes-discrete a mapping
          ≡ (if contains Bytes-discrete a validators then some true else none))
extract-concat_example =
    extract-concat world (λ b h. refl) (block 2) (replicate 32 0) (seal_of alice) validators refl
      refl (refl, (refl, (refl, tt))) refl

extract_branches_example :
    (length (block 2).extra < shortest_extra
      → extract_parlia_validators world (block 2) ≡ panic slice_bounds)
    × (shortest_extra ≤ length (block 2).extra
        → (length (block 2).extra - shortest_extra) % address_length ≢ 0
        → extract_parlia_validators world (block 2) ≡ err bad_parlia_block)
    × (shortest_extra ≤ length (block 2).extra
        → (length (block 2).extra - shortest_extra) % address_length ≡ 0
        → (found : List Address) × (mapping : GoMap Address Bool) × (extract_parlia_validators world
              (block 2)
            ≡ ok (found, mapping))
          × (length found * address_length + shortest_extra ≡ length (block 2).extra))
extract_branches_example = extract_branches world (block 2)

recover_seal_example :
    recover_parlia_block_signer world (header 2 alice ((1 ∷ 2 ∷ []) ++ seal_of alice)) 56 ≡ (
      parlia_rlp world (header 2 alice ((1 ∷ 2 ∷ []) ++ replicate 65 0)) 56 >>= λ signing_data.
      signer_of world signing_data (seal_of alice))
recover_seal_example =
    recover_seal world (header 2 alice []) 56 (1 ∷ 2 ∷ []) (seal_of alice) (replicate 65 0) refl
      refl
