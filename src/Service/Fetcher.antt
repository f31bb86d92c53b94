-- ===== src/Service/Fetcher.antt =====
-- `latestBlockFetcher` of relayer/service.go: on each tick the node is asked for its latest block, and
-- a block that is newer than all before goes to the channel, less the confirmations.
use bas_relay_hub.Prelude.{
  ℕ, ◌+◌, ◌-◌, ◌≤◌, ◌<◌, ◌≡◌, refl, ap, ◌∙◌, inl, inr, Bool-cases, le→leb, leb→le, not-leb,
  not-leb→lt, not-ltb, Option, none, some, List, [], ◌∷◌, All, arith, leb, ltb, if◌then◌else◌,
}
use bas_relay_hub.Prelude.Words.{word, sub64}

-- One tick: the latest block number so far, the node's answer (`none` is an error), and what is sent.
-- The test on the confirmed block is the code's; on a `uint64` it never holds.
unfoldable pub fetch_tick : ℕ → ℕ → Option ℕ → ℕ × Option ℕ
fetch_tick confirmations latest none = (latest, none)
fetch_tick confirmations latest (some block_number) =
    if leb block_number latest
    then (latest, none)
    else let confirmed_block = sub64 block_number confirmations in
      if ltb confirmed_block 0 then (block_number, none) else (block_number, some confirmed_block)

-- the value that is sent, in front of those sent later
abbrev pub sent_before : Option ℕ → List ℕ → List ℕ
sent_before none later = later
sent_before (some b) later = b ∷ later

-- what the channel receives over the ticks
unfoldable pub latest_block_fetcher : ℕ → ℕ → List (Option ℕ) → List ℕ
latest_block_fetcher confirmations latest [] = []
latest_block_fetcher confirmations latest (answer ∷ ticks) =
    let (latest', sent) = fetch_tick confirmations latest answer in
    sent_before sent (latest_block_fetcher confirmations latest' ticks)

-- every answer is a block with enough blocks below it, and a `uint64`
abbrev pub IsDeep : ℕ → Option ℕ → Type 0
IsDeep confirmations none = Unit
IsDeep confirmations (some b) = (confirmations ≤ b) × (b < word)

-- blocks that rise, each with its confirmations above a block number
abbrev pub Rises : ℕ → ℕ → List ℕ → Type 0
Rises confirmations latest [] = Unit
Rises confirmations latest (b ∷ blocks) =
    (latest < b + confirmations) × Rises confirmations (b + confirmations) blocks

fetch_new :
    (confirmations latest b : ℕ)
    → latest < b
    → fetch_tick confirmations latest (some b) ≡ (b, some (sub64 b confirmations))
unfolding fetch_tick
fetch_new confirmations latest b newer =
    rw (not-leb b latest newer, not-ltb (sub64 b confirmations) 0 (omega arith))

fetch_old :
    (confirmations latest b : ℕ)
    → b ≤ latest
    → fetch_tick confirmations latest (some b) ≡ (latest, none)
unfolding fetch_tick
fetch_old confirmations latest b old = rw (le→leb b latest old)

pub fetcher_error :
    (confirmations latest : ℕ) (ticks : List (Option ℕ))
    → latest_block_fetcher confirmations latest (none ∷ ticks)
      ≡ latest_block_fetcher confirmations latest ticks
unfolding latest_block_fetcher fetch_tick
fetcher_error confirmations latest ticks = refl

pub fetcher_old :
    (confirmations latest b : ℕ) (ticks : List (Option ℕ))
    → b ≤ latest
    → latest_block_fetcher confirmations latest (some b ∷ ticks)
      ≡ latest_block_fetcher confirmations latest ticks
unfolding latest_block_fetcher
fetcher_old confirmations latest b ticks old = rw (fetch_old confirmations latest b old) refl

pub fetcher_new :
    (confirmations latest b : ℕ) (ticks : List (Option ℕ))
    → latest < b
    → (confirmations ≤ b) × (b < word)
    → latest_block_fetcher confirmations latest (some b ∷ ticks)
      ≡ (b - confirmations) ∷ latest_block_fetcher confirmations b ticks
unfolding latest_block_fetcher
fetcher_new confirmations latest b ticks newer (enough, fits) =
    let sent : sub64 b confirmations ≡ b - confirmations = omega arith in
    rw (fetch_new confirmations latest b newer, sent) refl

-- On a chain that is at least as long as the confirmations, the blocks that the channel receives
-- rise strictly: each lies the confirmations below a block number above all that the node reported
-- before.
pub latest_block_fetcher-Rises :
    (confirmations latest : ℕ) (ticks : List (Option ℕ))
    → All (IsDeep confirmations) ticks
    → Rises confirmations latest (latest_block_fetcher confirmations latest ticks)
unfolding latest_block_fetcher
latest_block_fetcher-Rises confirmations latest [] _ = tt
latest_block_fetcher-Rises confirmations latest (none ∷ ticks) (_, deep) =
    rw (fetcher_error confirmations latest ticks)
      (latest_block_fetcher-Rises confirmations latest ticks deep)
latest_block_fetcher-Rises confirmations latest (some b ∷ ticks) ((enough, fits), deep) =
    elim (Bool-cases (leb b latest)) [
      | inl old ↦
          rw (fetcher_old confirmations latest b ticks (leb→le b latest old))
            (latest_block_fetcher-Rises confirmations latest ticks deep)
      | inr new ↦
          let back : b - confirmations + confirmations ≡ b = omega arith in
          let newer : latest < b = not-leb→lt b latest new in
          rw (fetcher_new confirmations latest b ticks newer (enough, fits))
            (omega arith, rw back (latest_block_fetcher-Rises confirmations b ticks deep))
    ]

-- At a new block of a chain with fewer blocks than the confirmations, the subtraction wraps
-- around: the block number that is sent lies above the chain.
pub unconfirmed_wraps :
    (confirmations latest block_number : ℕ)
    → latest < block_number
    → block_number < confirmations
    → confirmations < word
    → (fetch_tick confirmations latest (some block_number)
        ≡ (block_number, some (word - (confirmations - block_number))))
      × (block_number < word - (confirmations - block_number))
unconfirmed_wraps confirmations latest block_number newer young fits =
    let wrapped : sub64 block_number confirmations ≡ word - (confirmations - block_number) =
      omega arith in
    (
      fetch_new confirmations latest block_number newer
          ∙ ap (λ (x : ℕ). (block_number, some x)) wrapped,
      omega arith,
    )
