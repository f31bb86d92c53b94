-- ===== src/Service/Worker/Follows.antt =====
-- What the worker has done over the blocks that it was told of.
use bas_relay_hub.Prelude.{
  ℕ, ◌≤◌, ◌<◌, ◌≡◌, ◌⊎◌, inl, inr, refl, sym, ap, ◌∙◌, List, [], ◌∷◌, Bytes, length, arith, ltb,
  ltb→lt, not-ltb→le, Bool-cases, ◌==◌,
}
use bas_relay_hub.Errors.{Result, ok, err, panic, ok-injective}
use bas_relay_hub.Eth.{Eth}
use bas_relay_hub.Checkpoint.{TrieOps}
use bas_relay_hub.Node.{NodeConfig, or_fatal}
use bas_relay_hub.Service.State.{Lru, State}
use bas_relay_hub.Service.Exec.{lift, continue_ok, ◌>>=◌}
use bas_relay_hub.Service.Worker.Steps.{waits, reached_alone, reached_with_relayers}
use bas_relay_hub.Service.Worker.{
  Worker, Round, wait_for_block, count_processed, after_transition, after_confirmation, confirm,
  after_checkpoint, handle_block, worker_loop, epoch_worker,
}
use bas_relay_hub.Errors.{Error}
use bas_relay_hub.Prelude.{◌≢◌, subst, ==_iff}
use bas_relay_hub.Prelude.Words.{add64, sub64, mul64}
use bas_relay_hub.Service.Checkpointing.{create_checkpoint_transition}
use bas_relay_hub.Service.Epochs.{create_epoch_transition}

module _ {C T : Type 0} (lru : Lru C) (eth : Eth) (trie : TrieOps T)
    (encode : ℕ → List Bytes → Result Bytes) (source target : NodeConfig) where
  -- the two transitions of a block that is reached
  abbrev pub checkpointed : Round → Worker → State C → Result (Unit {0})
  checkpointed round w s =
      (create_checkpoint_transition lru eth trie round.points round.ticks round.checkpoint_mined
        source target (wait_for_block source w) w.latest_transitioned_epoch s).0

  abbrev pub confirmed : Round → Worker → Result (Unit {0})
  confirmed round w =
      create_epoch_transition eth encode round.clients round.epoch_mined source target
        (wait_for_block source w) round.latest_known_block

  abbrev pub relayers : ℕ
  relayers = length source.config.relayer.relayer_urls

  -- no checkpoint transition went through: there is no other relayer, or it returned an error
  abbrev pub Unchecked : Round → Worker → State C → Type 0
  Unchecked round w s =
      (relayers ≡ 0) ⊎ ((0 < relayers) × (e : Error) × (checkpointed round w s ≡ err e))

  -- a transition of the next epoch went through
  abbrev pub Transitioned : Round → Worker → State C → Type 0
  Transitioned round w s =
      (wait_for_block source w ≤ round.latest_known_block)
      × (((0 < relayers) × (checkpointed round w s ≡ ok tt))
          ⊎ (Unchecked round w s × (confirmed round w ≡ ok tt)))

  -- the next epoch block is not reached, or all that was tried returned an error
  abbrev pub Missed : Round → Worker → State C → Type 0
  Missed round w s =
      (round.latest_known_block < wait_for_block source w)
      ⊎ ((wait_for_block source w ≤ round.latest_known_block)
          × Unchecked round w s
          × (e : Error) × (confirmed round w ≡ err e))

  -- the worker behind a transition: at the hub's epoch, with the blocks of the epochs in between counted
  abbrev pub brought_to : ℕ → Worker → Worker
  brought_to latest w = record w {
    latest_transitioned_epoch = latest;
    total_processed_blocks =
        add64 w.total_processed_blocks
          (mul64 (sub64 latest w.latest_transitioned_epoch) source.chain_config.epoch_length);
  }

  -- from a worker and a state of the service to others, over the rounds: each round was missed and left
  -- the worker as it was, or made a transition, after which the hub answered, in another second than that of the
  -- worker's start
  pub data Worked : List Round → Worker → State C → Worker → State C → Type 0 where
    over : {w : Worker} {s : State C} → Worked [] w s w s
    missed :
        {round : Round} {rounds : List Round} {w w' : Worker} {s t : State C}
        → Missed round w s
        → Worked rounds w (handle_block lru eth trie encode source target round w s).1 w' t
        → Worked (round ∷ rounds) w s w' t
    transitioned :
        {round : Round} {rounds : List Round} {w w' : Worker} {s t : State C} (latest : ℕ)
        → Transitioned round w s
        → round.latest_after ≡ ok latest
        → round.now ≢ w.last_process_time
        → Worked rounds
            (brought_to latest w)
            (handle_block lru eth trie encode source target round w s).1
            w'
            t
        → Worked (round ∷ rounds) w s w' t

  -- behind a transition
  abbrev Moved : Round → Worker → Worker → Type 0
  Moved round w w' =
      (latest : ℕ) × (round.latest_after ≡ ok latest)
      × (round.now ≢ w.last_process_time)
      × (w' ≡ brought_to latest w)

  count-Moved :
      (round : Round) (w w' : Worker) (latest : ℕ)
      → count_processed source latest round.now w ≡ ok w'
      → (round.now ≢ w.last_process_time) × (w' ≡ brought_to latest w)
  unfolding count_processed
  count-Moved round w w' latest e = elim (Bool-cases (round.now == w.last_process_time)) [
    | inl same ↦ absurd (cc (rw same at e))
    | inr other ↦ (
      λ x. cc (sym ((==_iff round.now w.last_process_time).1 x) ∙ other),
      sym (ok-injective (rw other at e)),
    )
  ]

  after_transition-Moved :
      (round : Round) (w w' : Worker) (r : Result ℕ)
      → round.latest_after ≡ r
      → after_transition source round w ≡ ok w'
      → Moved round w w'
  unfolding after_transition or_fatal
  after_transition-Moved round w w' (ok latest) answered e =
      let (later, is) = count-Moved round w w' latest (rw answered at e) in
      (latest, answered, later, is)
  after_transition-Moved round w w' (err x) answered e = absurd (cc (answered, e))
  after_transition-Moved round w w' (panic p) answered e = absurd (cc (answered, e))

  -- one round: missed, or a transition
  Rounded : Round → Worker → State C → Worker → Type 0
  Rounded round w s w' = (Missed round w s × (w' ≡ w)) ⊎ (Transitioned round w s × Moved round w w')

  confirmation-Rounded :
      (round : Round) (w w' : Worker) (s : State C) (r : Result (Unit {0}))
      → wait_for_block source w ≤ round.latest_known_block
      → Unchecked round w s
      → confirmed round w ≡ r
      → after_confirmation source round w r ≡ ok w'
      → Rounded round w s w'
  unfolding after_confirmation Rounded
  confirmation-Rounded round w w' s (ok _) reached unchecked is e =
      inr ((reached, inr (unchecked, is)), after_transition-Moved round w w' _ refl e)
  confirmation-Rounded round w w' s (err x) reached unchecked is e =
      inl (inr (reached, unchecked, x, is), sym (ok-injective e))
  confirmation-Rounded round w w' s (panic p) reached unchecked is e = absurd (cc e)

  confirm-Rounded :
      (round : Round) (w w' : Worker) (s : State C)
      → wait_for_block source w ≤ round.latest_known_block
      → Unchecked round w s
      → confirm lru eth trie encode source target round (wait_for_block source w) w ≡ ok w'
      → Rounded round w s w'
  unfolding confirm
  confirm-Rounded round w w' s reached unchecked e =
      confirmation-Rounded round w w' s _ reached unchecked refl e

  checkpoint-Rounded :
      (round : Round) (w w' : Worker) (s : State C) (r : Result (Unit {0}))
      → wait_for_block source w ≤ round.latest_known_block
      → 0 < relayers
      → checkpointed round w s ≡ r
      → after_checkpoint lru eth trie encode source target round (wait_for_block source w) w r
        ≡ ok w'
      → Rounded round w s w'
  unfolding after_checkpoint Rounded
  checkpoint-Rounded round w w' s (ok _) reached others is e =
      inr ((reached, inl (others, is)), after_transition-Moved round w w' _ refl e)
  checkpoint-Rounded round w w' s (err x) reached others is e =
      confirm-Rounded round w w' s reached (inr (others, x, is)) e
  checkpoint-Rounded round w w' s (panic p) reached others is e = absurd (cc e)

  handle-Rounded :
      (round : Round) (w w' : Worker) (s : State C)
      → (handle_block lru eth trie encode source target round w s).0 ≡ ok w'
      → Rounded round w s w'
  unfolding Rounded
  handle-Rounded round w w' s e =
      elim (Bool-cases (ltb round.latest_known_block (wait_for_block source w))) [
        | inl early ↦ inl (
          inl (ltb→lt _ _ early),
          ok-injective (
              sym e
              ∙ ap (λ (x : Result Worker × State C). x.0)
                  (waits lru eth trie encode source target round w s (ltb→lt _ _ early))),
        )
        | inr reached ↦ elim (Bool-cases (ltb 0 (length source.config.relayer.relayer_urls))) [
          | inl others ↦
              checkpoint-Rounded round w w' s _ (not-ltb→le _ _ reached) (ltb→lt _ _ others) refl (
                ap (λ (x : Result Worker × State C). x.0)
                  (sym (
                    reached_with_relayers lru eth trie encode source target round w s
                      (not-ltb→le _ _ reached) others))
                ∙ e)
          | inr alone ↦
              confirm-Rounded round w w' s (not-ltb→le _ _ reached)
                (inl (omega (arith, not-ltb→le _ _ alone)))
                (ap (λ (x : Result Worker × State C). x.0)
                    (sym (
                      reached_alone lru eth trie encode source target round w s
                        (not-ltb→le _ _ reached) alone))
                  ∙ e)
        ]
      ]

  loop-Worked :
      (rounds : List Round) (w w' : Worker) (s : State C)
      → (worker_loop lru eth trie encode source target rounds w s).0 ≡ ok w'
      → Worked rounds w s w' (worker_loop lru eth trie encode source target rounds w s).1
  unfolding worker_loop ◌>>=◌ lift Rounded
  loop-Worked [] w w' s e = subst (λ (x : Worker). Worked [] w s x s) (ok-injective e) over
  loop-Worked (round ∷ rounds) w w' s e =
      let handled = handle_block lru eth trie encode source target round w s in
      let (w₁, goes_on, e₁) =
        continue_ok handled.0 (worker_loop lru eth trie encode source target rounds) handled.1 e in
      let rest = loop-Worked rounds w₁ w' handled.1 e₁ in
      let t : State C = (worker_loop lru eth trie encode source target rounds w₁ handled.1).1 in
      let same : t ≡ (worker_loop lru eth trie encode source target (round ∷ rounds) w s).1 =
        rw goes_on refl in
      subst (Worked (round ∷ rounds) w s w') same (elim (handle-Rounded round w w₁ s goes_on) [
        | inl (none, is) ↦
            missed none (subst (λ (x : Worker). Worked rounds x handled.1 w' t) is rest)
        | inr (done, (latest, answered, later, is)) ↦
            transitioned latest done answered later
              (subst (λ (x : Worker). Worked rounds x handled.1 w' t) is rest)
      ])

  or_fatal-eq-ok : (r : Result ℕ) (n : ℕ) → or_fatal r ≡ ok n → r ≡ ok n
  unfolding or_fatal
  or_fatal-eq-ok (ok m) n e = e
  or_fatal-eq-ok (err x) n e = cc
  or_fatal-eq-ok (panic p) n e = cc

  abbrev pub started_at : ℕ → ℕ → Worker
  started_at epoch now = record {
    latest_transitioned_epoch = epoch;
    total_processed_blocks = 0;
    last_process_time = now;
  }

  -- The loop of `epochWorker` over what its channel has delivered, if it goes on: the epochs have some
  -- blocks, the worker started at the epoch that the hub answered, and in each round either the next epoch block was
  -- not reached or every transition that was tried returned an error, and the worker was left as it was; or the
  -- checkpoint transition succeeded, or else the confirmation transition, where there is no other relayer or the
  -- checkpoint transition returned an error, and then the hub answered, in another second than that of the
  -- worker's start, the worker is at the epoch of the answer, and has counted the blocks of the epochs in between.
  pub epoch_worker_follows :
      (latest : Result ℕ) (now : ℕ) (rounds : List Round) (w' : Worker) (s : State C)
      → (epoch_worker lru eth trie encode source target latest now rounds s).0 ≡ ok w'
      → (0 < source.chain_config.epoch_length)
        × (first : ℕ) × (latest ≡ ok first)
        × Worked rounds
            (started_at first now)
            s
            w'
            (epoch_worker lru eth trie encode source target latest now rounds s).1
  unfolding epoch_worker ◌>>=◌ lift
  epoch_worker_follows latest now rounds w' s e =
      elim (Bool-cases (source.chain_config.epoch_length == 0)) [
        | inl no_blocks ↦ absurd (cc (rw no_blocks at e))
        | inr some_blocks ↦
            let (first, answered, e₁) = continue_ok (or_fatal latest) _ s (rw some_blocks at e) in
            (
              ground arith,
              first,
              or_fatal-eq-ok latest first answered,
              rw (some_blocks, answered) (loop-Worked rounds (started_at first now) w' s e₁),
            )
      ]
