-- ===== src/Tests/Transitions.antt =====
-- Epoch transitions and the worker in the small world.
use bas_relay_hub.Prelude.{
  ◌<◌, ℕ, ◌+◌, ◌*◌, ◌≤◌, ◌≡◌, ◌⊎◌, refl, Bool, true, false, inl, some, [], ◌∷◌, length, arith,
  Bytes-discrete,
}
use bas_relay_hub.Prelude.Words.{div_int}
use bas_relay_hub.Prelude.Maps.{insert}
use bas_relay_hub.Errors.{Result, Fault, ok, panic}
use bas_relay_hub.Node.{NodeConfig, or_fatal}
use bas_relay_hub.Slices.{slice_upto, slice_from}
use bas_relay_hub.Hub.{Tx}
use bas_relay_hub.Common.{wait_loop, wait_tx_to_be_mined}
use bas_relay_hub.Parlia.{
  signing_items, signing_header_items, or_panic, recover_parlia_block_signer, copy_address,
  extract_loop, extract_parlia_validators,
}
use bas_relay_hub.Proof.{
  prove_block, check_signer, block_loop, create_block_proofs, calc_required_quorum_for_next_epoch,
}
use bas_relay_hub.Service.State.{State, new_relay_service}
use bas_relay_hub.Service.State.Unfound.{start}
use bas_relay_hub.Service.Epochs.{
  tx_gas_reserve, batch_size, batch_loop, send_transition, create_epoch_transition,
}
use bas_relay_hub.Service.Epochs.Single.{SingleSent, single_proves}
use bas_relay_hub.Service.Epochs.Sent.{
  EstimatesGas, BatchSent, sender, batch_fits, low_limit_sends_nothing,
}
use bas_relay_hub.Service.Exec.{lift, ◌>>=◌}
use bas_relay_hub.Service.Worker.{
  Worker, Round, wait_for_block, confirm, handle_block, worker_loop, epoch_worker,
}
use bas_relay_hub.Service.Fetcher.{fetch_tick, latest_block_fetcher}
use bas_relay_hub.Service.Worker.Depth.{IsConfirmed, transition-IsConfirmed}
use bas_relay_hub.Service.Worker.Clock.{transition_counts}
use bas_relay_hub.Service.Worker.Epoch.{checkpoint_never_decides}
use bas_relay_hub.Service.Worker.Follows.{Worked, started_at, epoch_worker_follows}
use bas_relay_hub.Tests.World.{world, client, hub, node, encode, trie, Cache, cache, cache_laws}

abbrev done : Tx
done = record { hash = 2 ∷ []; gas = 0 }

estimates_small : (gas_limit : ℕ) → EstimatesGas (node false gas_limit)
estimates_small gas_limit opts chain_id proofs tx e = omega (arith, gas_of e)
  where
    gas_of :
        {tx : Tx}
        → ◌≡◌ {A = Result Tx} (ok (record { hash = 1 ∷ []; gas = 400000 })) (ok tx)
        → tx.gas ≡ 400000
    gas_of e = cc

-- a limit for two calls at 400000
batch_sent :
    send_transition world encode (λ k. client) (node false 1000000) (node false 1000000) 2 5
    ≡ ok done
unfolding send_transition batch_size batch_loop div_int create_block_proofs block_loop prove_block
    check_signer recover_parlia_block_signer signing_header_items signing_items or_panic slice_from
    slice_upto extract_parlia_validators extract_loop copy_address insert Bytes-discrete
batch_sent = refl

batch_fits_example :
    (b : BatchSent world encode (λ k. client) (node false 1000000) (node false 1000000) 2 5 done)
    × (length b.inputs * b.estimated.gas + tx_gas_reserve ≤ 1000000)
batch_fits_example =
    batch_fits world encode (λ k. client) (node false 1000000) (node false 1000000) 2 5
      (estimates_small 1000000) (omega arith) (omega arith) batch_sent

low_sent :
    send_transition world encode (λ k. client) (node false 50000) (node false 50000) 2 5 ≡ ok done
unfolding send_transition batch_size batch_loop div_int create_block_proofs block_loop prove_block
    check_signer recover_parlia_block_signer signing_header_items signing_items or_panic slice_from
    slice_upto extract_parlia_validators extract_loop copy_address insert Bytes-discrete
low_sent = refl

low_limit_sends_nothing_example :
    hub.multicall
      (record (sender world encode (λ k. client) (node false 50000) (node false 50000) 2 5) {
        no_send = false;
      })
      []
    ≡ ok done
low_limit_sends_nothing_example =
    low_limit_sends_nothing world encode (λ k. client) (node false 50000) (node false 50000) 2 5
      (estimates_small 50000) (omega arith) (omega arith) low_sent

fetched : 8 ∷ [] ≡ latest_block_fetcher 12 0 (some 20 ∷ [])
unfolding latest_block_fetcher fetch_tick
fetched = refl

-- the worker has transitioned no epoch, and waits for block 2
abbrev started : Worker
started = record {
  latest_transitioned_epoch = 0;
  total_processed_blocks = 0;
  last_process_time = 100;
}

abbrev pub round_at : ℕ → ℕ → Round
round_at latest_known_block now = record {
  latest_known_block = latest_known_block;
  points = λ k. [];
  ticks = [];
  checkpoint_mined = λ k. true;
  clients = λ k. client;
  epoch_mined = λ k. true;
  latest_after = ok 2;
  now = now;
}

abbrev fresh_service : State Cache
fresh_service = new_relay_service cache

abbrev plain : NodeConfig
plain = node false 0

transitioned :
    create_epoch_transition world encode (λ k. client) (λ k. true) plain plain 2 5 ≡ ok tt
unfolding create_epoch_transition wait_tx_to_be_mined wait_loop send_transition create_block_proofs
    block_loop prove_block check_signer recover_parlia_block_signer signing_header_items
    signing_items or_panic slice_from slice_upto extract_parlia_validators extract_loop copy_address
    insert Bytes-discrete
transitioned = refl

single_proves_example : SingleSent world encode (λ k. client) plain plain 2 5 (λ k. true)
single_proves_example =
    single_proves world encode (λ k. client) plain plain 2 5 (λ k. true) refl transitioned

first_block : (others : Bool) → wait_for_block (node others 0) started ≡ 2
unfolding wait_for_block
first_block others = refl

first_transition :
    create_epoch_transition world encode
      (λ k. client)
      (λ k. true)
      plain
      plain
      (wait_for_block plain started)
      5
    ≡ ok tt
first_transition = rw (first_block false) transitioned

epochs_counted :
    (handle_block cache world trie encode plain plain (round_at 5 104) started fresh_service).0
    ≡ ok (record {
      latest_transitioned_epoch = 2;
      total_processed_blocks = 4;
      last_process_time = 100;
    })
epochs_counted =
    transition_counts cache world trie encode plain plain (round_at 5 104) started fresh_service
      (omega (arith, first_block false)) refl first_transition refl (λ e. omega arith)

abbrev second : Worker
second = record {
  latest_transitioned_epoch = 2;
  total_processed_blocks = 4;
  last_process_time = 100;
}

one_round :
    (epoch_worker cache world trie encode plain plain
      (ok 0)
      100
      (round_at 5 104 ∷ [])
      fresh_service).0
    ≡ ok second
unfolding epoch_worker worker_loop ◌>>=◌ lift or_fatal
one_round = rw epochs_counted refl

epoch_worker_follows_example :
    (0 < 2)
    × (first : ℕ) × (◌≡◌ {A = Result ℕ} (ok 0) (ok first))
    × Worked cache world trie encode plain plain
        (round_at 5 104 ∷ [])
        (started_at cache world trie encode plain plain first 100)
        fresh_service
        second
        (epoch_worker cache world trie encode plain plain
          (ok 0)
          100
          (round_at 5 104 ∷ [])
          fresh_service).1
epoch_worker_follows_example =
    epoch_worker_follows cache world trie encode plain plain (ok 0) 100 (round_at 5 104 ∷ []) second
      fresh_service one_round

quorum_two :
    calc_required_quorum_for_next_epoch world (node true 0) (wait_for_block (node true 0) started)
    ≡ ok 2
unfolding wait_for_block calc_required_quorum_for_next_epoch extract_parlia_validators slice_upto
    extract_loop copy_address insert Bytes-discrete
quorum_two = refl

checkpoint_never_decides_example :
    ((handle_block cache world trie encode
        (node true 0)
        plain
        (round_at 5 104)
        started
        fresh_service).0
      ≡ confirm cache world trie encode
          (node true 0)
          plain
          (round_at 5 104)
          (wait_for_block (node true 0) started)
          started)
    ⊎ ((p : Fault) × ((handle_block cache world trie encode
            (node true 0)
            plain
            (round_at 5 104)
            started
            fresh_service).0
          ≡ panic p))
checkpoint_never_decides_example =
    checkpoint_never_decides cache world trie encode (node true 0) plain cache_laws (round_at 5 104)
      started fresh_service 2 start (omega (arith, first_block true)) (omega arith) quorum_two
      (omega arith)

-- the node reports block 20, with 12 confirmations, and the worker gets block 8
transition-IsConfirmed_example :
    (handle_block cache world trie encode plain plain (round_at 8 100) started fresh_service
      ≡ (ok started, fresh_service))
    ⊎ IsConfirmed 12 (some 20 ∷ []) (wait_for_block plain started)
transition-IsConfirmed_example =
    transition-IsConfirmed cache world trie encode plain plain (some 20 ∷ []) (round_at 8 100 ∷ [])
      ((omega arith, omega arith), tt) fetched (round_at 8 100) (inl refl) started fresh_service
