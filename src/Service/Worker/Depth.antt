-- ===== src/Service/Worker/Depth.antt =====
-- The worker behind the fetcher: how deep an epoch block lies when the worker first acts on it.
use bas_relay_hub.Prelude.{
  ℕ, ◌+◌, ◌≤◌, ◌≡◌, ◌⊎◌, inl, inr, refl, ap, ◌∙◌, Bool-cases, Option, none, some, List, [], ◌∷◌,
  map, Bytes, All, arith, leb, ltb, leb→le, ltb→lt, not-leb→lt, not-ltb→le,
}
use bas_relay_hub.Errors.{Result, ok}
use bas_relay_hub.Eth.{Eth}
use bas_relay_hub.Checkpoint.{TrieOps}
use bas_relay_hub.Node.{NodeConfig}
use bas_relay_hub.Service.State.{Lru, State}
use bas_relay_hub.Service.Fetcher.{
  fetcher_new, fetcher_old, fetcher_error, latest_block_fetcher, IsDeep,
}
use bas_relay_hub.Service.Worker.{Worker, Round, wait_for_block, handle_block}
use bas_relay_hub.Service.Worker.Steps.{waits}

-- the node reported this block number on one of the ticks
abbrev pub WasReported : ℕ → List (Option ℕ) → Type 0
WasReported b [] = ⊥
WasReported b (answer ∷ ticks) = (answer ≡ some b) ⊎ WasReported b ticks

-- a reported block has the confirmations above this one
abbrev pub IsConfirmed : ℕ → List (Option ℕ) → ℕ → Type 0
IsConfirmed confirmations ticks x = (b : ℕ) × WasReported b ticks × (x + confirmations ≤ b)

abbrev pub IsRoundOf : Round → List Round → Type 0
IsRoundOf round [] = ⊥
IsRoundOf round (first ∷ rounds) = (round ≡ first) ⊎ IsRoundOf round rounds

abbrev blocks_of : List Round → List ℕ
blocks_of = map (λ round. round.latest_known_block)

module _ (confirmations : ℕ) where
  later_tick :
      (answer : Option ℕ) (ticks : List (Option ℕ)) (x : ℕ)
      → IsConfirmed confirmations ticks x
      → IsConfirmed confirmations (answer ∷ ticks) x
  later_tick answer ticks x (b, reported, below) = (b, inr reported, below)

  head_of : {x y : ℕ} {xs ys : List ℕ} → x ∷ xs ≡ y ∷ ys → x ≡ y
  head_of e = cc

  tail_of : {x y : ℕ} {xs ys : List ℕ} → x ∷ xs ≡ y ∷ ys → xs ≡ ys
  tail_of e = cc

  -- each block that the channel delivers to a round is confirmed by a report
  delivered-IsConfirmed :
      (latest : ℕ) (ticks : List (Option ℕ)) (rounds : List Round) (round : Round)
      → All (IsDeep confirmations) ticks
      → blocks_of rounds ≡ latest_block_fetcher confirmations latest ticks
      → IsRoundOf round rounds
      → IsConfirmed confirmations ticks round.latest_known_block
  unfolding latest_block_fetcher
  delivered-IsConfirmed latest ticks [] round _ _ at = absurd at
  delivered-IsConfirmed latest [] (first ∷ rounds) round _ e at = cc
  delivered-IsConfirmed latest (none ∷ ticks) (first ∷ rounds) round (_, deep) e at =
      later_tick none ticks round.latest_known_block (
        delivered-IsConfirmed latest ticks (first ∷ rounds) round deep
          (e ∙ fetcher_error confirmations latest ticks) at)
  delivered-IsConfirmed latest (some b ∷ ticks) (first ∷ rounds) round ((enough, fits), deep) e at =
      elim (Bool-cases (leb b latest)) [
        | inl old ↦ later_tick (some b) ticks round.latest_known_block (
            delivered-IsConfirmed latest ticks (first ∷ rounds) round deep
              (e ∙ fetcher_old confirmations latest b ticks (leb→le b latest old)) at)
        | inr new ↦
            let e' =
              e
              ∙ fetcher_new confirmations latest b ticks (not-leb→lt b latest new) (enough, fits) in
            elim at [
              | inl here ↦ (
                b,
                inl refl,
                omega (arith, head_of e', ap (λ (r : Round). r.latest_known_block) here),
              )
              | inr there ↦
                  later_tick (some b) ticks round.latest_known_block
                    (delivered-IsConfirmed b ticks rounds round deep (tail_of e') there)
            ]
      ]

module _ {C T : Type 0} (lru : Lru C) (eth : Eth) (trie : TrieOps T)
    (encode : ℕ → List Bytes → Result Bytes) (source target : NodeConfig) where
  -- Over the blocks that the fetcher delivers, from the start, on a chain at least as long as the
  -- confirmations: in each round, whatever the worker's state, it either changes nothing, or the node
  -- had reported a block that has the configured confirmations above the epoch block that is
  -- transitioned.
  pub transition-IsConfirmed :
      (ticks : List (Option ℕ)) (rounds : List Round)
      → All (IsDeep source.chain_config.confirmations) ticks
      → blocks_of rounds ≡ latest_block_fetcher source.chain_config.confirmations 0 ticks
      → (round : Round) → IsRoundOf round rounds
      → (w : Worker) (s : State C)
      → (handle_block lru eth trie encode source target round w s ≡ (ok w, s))
        ⊎ IsConfirmed source.chain_config.confirmations ticks (wait_for_block source w)
  transition-IsConfirmed ticks rounds deep fed round at w s =
      elim (Bool-cases (ltb round.latest_known_block (wait_for_block source w))) [
        | inl early ↦ inl (
            waits lru eth trie encode source target round w s
              (ltb→lt round.latest_known_block (wait_for_block source w) early))
        | inr reached ↦
            let (b, reported, below) =
              delivered-IsConfirmed source.chain_config.confirmations 0 ticks rounds round deep fed
                at in
            inr (
              b,
              reported,
              omega (
                arith,
                below,
                not-ltb→le round.latest_known_block (wait_for_block source w) reached,
              ),
            )
      ]
