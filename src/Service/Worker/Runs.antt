-- ===== src/Service/Worker/Runs.antt =====
-- `epochWorker` as a run of the system of Service/System.
use bas_relay_hub.Prelude.{ℕ, Bool, inl, inr, Bool-cases, List, [], ◌∷◌, Bytes, length, ltb, ◌==◌}
use bas_relay_hub.Errors.{Result, ok, err, panic}
use bas_relay_hub.Eth.{Eth}
use bas_relay_hub.Checkpoint.{TrieOps}
use bas_relay_hub.Node.{NodeConfig, or_fatal}
use bas_relay_hub.Service.State.{Lru, State}
use bas_relay_hub.Service.Exec.{Exec, continue, lift, ◌>>=◌}
use bas_relay_hub.Service.Worker.{
  Worker, Round, handle_block, worker_loop, epoch_worker, wait_for_block,
}
use bas_relay_hub.Service.System.{Pc, idle, System, Steps, here, next}
use bas_relay_hub.Service.System.Sequential.{at, transition_runs}

module _ {C T : Type 0} (lru : Lru C) (eth : Eth) (trie : TrieOps T)
    (encode : ℕ → List Bytes → Result Bytes) (source target : NodeConfig) (pc : Bool → Pc)
    (i : Bool) where
  -- from one state of the service to another, with the worker idle in both
  abbrev Between : State C → State C → Type 0
  Between s t =
      Steps lru eth trie source.config.relayer.private_key (at lru eth trie source pc i s idle)
        (at lru eth trie source pc i t idle)

  Steps-trans :
      {a b c : System C}
      → Steps lru eth trie source.config.relayer.private_key a b
      → Steps lru eth trie source.config.relayer.private_key b c
      → Steps lru eth trie source.config.relayer.private_key a c
  Steps-trans first here = first
  Steps-trans first (next later step) = next (Steps-trans first later) step

  handle_block_runs :
      (round : Round) (w : Worker) (s : State C)
      → Between s (handle_block lru eth trie encode source target round w s).1
  unfolding handle_block
  handle_block_runs round w s =
      let block = wait_for_block source w in
      elim (Bool-cases (ltb round.latest_known_block block)) [
        | inl early ↦ rw early here
        | inr reached ↦ elim (Bool-cases (ltb 0 (length source.config.relayer.relayer_urls))) [
          | inl others ↦
              rw (reached, others)
                (transition_runs lru eth trie source pc i round.points round.ticks
                  round.checkpoint_mined target block w.latest_transitioned_epoch s)
          | inr alone ↦ rw (reached, alone) here
        ]
      ]

  -- the rest of a block goes on from where the first part has come to
  continue_runs :
      {A B : Type 0} (r : Result A) (f : A → Exec (State C) B) (s t : State C)
      → Between s t
      → ((a : A) → Between t (f a t).1)
      → Between s (continue r f t).1
  continue_runs (ok a) f s t first rest = Steps-trans first (rest a)
  continue_runs (err e) f s t first rest = first
  continue_runs (panic p) f s t first rest = first

  worker_loop_runs :
      (rounds : List Round) (w : Worker) (s : State C)
      → Between s (worker_loop lru eth trie encode source target rounds w s).1
  unfolding worker_loop ◌>>=◌ lift
  worker_loop_runs [] w s = here
  worker_loop_runs (round ∷ rounds) w s =
      let handled = handle_block lru eth trie encode source target round w s in
      continue_runs handled.0 (worker_loop lru eth trie encode source target rounds) s handled.1
        (handle_block_runs round w s) (λ w'. worker_loop_runs rounds w' handled.1)

  -- `epochWorker`, over whatever its channel delivers and whatever the world answers, is a run of the
  -- system that starts and ends with the worker idle, whether it goes on, fails or ends the process, with
  -- the proofs of other relayers that are merged meanwhile as steps of the collector.
  pub epoch_worker_runs :
      (latest : Result ℕ) (now : ℕ) (rounds : List Round) (s : State C)
      → Steps lru eth trie source.config.relayer.private_key (at lru eth trie source pc i s idle) (
          at lru eth trie source pc i
            (epoch_worker lru eth trie encode source target latest now rounds s).1
            idle)
  unfolding epoch_worker ◌>>=◌ lift
  epoch_worker_runs latest now rounds s =
      elim (Bool-cases (source.chain_config.epoch_length == 0)) [
        | inl none_ ↦ rw none_ here
        | inr some_ ↦
            rw some_
              (continue_runs (or_fatal latest) _ s s here (λ epoch. worker_loop_runs rounds _ s))
      ]
