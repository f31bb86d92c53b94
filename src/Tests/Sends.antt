-- ===== src/Tests/Sends.antt =====
-- A checkpoint transition that succeeds in the small world, with the two validators whose quorum is one.
use bas_relay_hub.Prelude.{◌≡◌, refl, true, [], ◌∷◌, ◌++◌, Bytes-discrete, concat, replicate}
use bas_relay_hub.Prelude.Words.{pos, negsuc, ℤ}
use bas_relay_hub.Prelude.Maps.{lookup, insert}
use bas_relay_hub.Errors.{Result, ok, err, external}
use bas_relay_hub.Eth.{Header}
use bas_relay_hub.Common.{mapping_values, wait_loop, wait_tx_to_be_mined}
use bas_relay_hub.Node.{NodeConfig}
use bas_relay_hub.Parlia.{copy_address, extract_loop, extract_parlia_validators}
use bas_relay_hub.Slices.{slice_upto}
use bas_relay_hub.Checkpoint.{
  note_epoch_block, checkpoint_loop, create_checkpoint_proof, sign_checkpoint_proof,
  get_signature_or_nil, has_signature, store_signature,
}
use bas_relay_hub.Hub.{inject_signer}
use bas_relay_hub.Proof.{calc_required_quorum_for_next_epoch}
use bas_relay_hub.Service.State.{
  new_relay_service, alloc, collect_checkpoint_proofs_worker, find_checkpoint_proof, merge_into,
  write_at, merge_checkpoint_proof,
}
use bas_relay_hub.Service.Exec.{lift, step, gets, ◌>>=◌}
use bas_relay_hub.Service.Checkpointing.{
  await_and_send, meanwhile, sign_at, emit_signed, wait_for_quorum, create_checkpoint_transition,
}
use bas_relay_hub.Service.System.{idle}
use bas_relay_hub.Service.System.Sequential.{at}
use bas_relay_hub.Service.System.Sends.{Sends, transition-Sends}
use bas_relay_hub.Tests.World.{alice, bob, sealer, seal_of, header, world, node, trie, cache}
use bas_relay_hub.Tests.Shared.{fresh}
use bas_relay_hub.Tests.System.{all_idle}

abbrev pair_block : ℤ → Result Header
pair_block (pos n) =
    ok (header n (sealer n) (replicate 32 0 ++ (concat (alice ∷ bob ∷ []) ++ seal_of (sealer n))))
pair_block (negsuc n) = err (external 2)

abbrev pair_node : NodeConfig
pair_node = record (node true 0) {
  client = record { chain_id = ok 56; block_by_number = pair_block };
}

quorum_of_pair : calc_required_quorum_for_next_epoch world pair_node 2 ≡ ok 1
unfolding calc_required_quorum_for_next_epoch extract_parlia_validators slice_upto extract_loop
    copy_address insert Bytes-discrete
quorum_of_pair = refl

pair_transition :
    (create_checkpoint_transition cache world trie
      (λ k. [])
      []
      (λ k. true)
      pair_node
      pair_node
      2
      0
      fresh).0
    ≡ ok tt
unfolding create_checkpoint_transition ◌>>=◌ lift step gets meanwhile alloc await_and_send
    wait_for_quorum emit_signed sign_at merge_checkpoint_proof merge_into find_checkpoint_proof
    collect_checkpoint_proofs_worker new_relay_service create_checkpoint_proof checkpoint_loop
    note_epoch_block sign_checkpoint_proof get_signature_or_nil store_signature has_signature
    calc_required_quorum_for_next_epoch extract_parlia_validators slice_upto extract_loop
    copy_address insert lookup Bytes-discrete wait_tx_to_be_mined wait_loop inject_signer write_at
    mapping_values
pair_transition = refl

transition-Sends_example :
    Sends cache world trie pair_node all_idle true
      (at cache world trie pair_node all_idle true fresh idle)
      pair_node
      2
      (λ k. true)
      (create_checkpoint_transition cache world trie
        (λ k. [])
        []
        (λ k. true)
        pair_node
        pair_node
        2
        0
        fresh).1
transition-Sends_example =
    transition-Sends cache world trie pair_node all_idle true (λ k. []) [] (λ k. true) pair_node 2 0
      fresh pair_transition
