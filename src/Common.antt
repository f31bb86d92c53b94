-- ===== src/Common.antt =====
-- relayer/common.go: the helpers on maps and slices, and the wait for a transaction. A map's entries
-- are visited in the order of its list.
pub mod Mining
pub mod Time
use bas_relay_hub.Prelude.{ℕ, zero, suc, Bool, List, [], ◌∷◌, if◌then◌else◌}
use bas_relay_hub.Prelude.Maps.{GoMap}
use bas_relay_hub.Errors.{Result, ok, err, not_mined}
use bas_relay_hub.Eth.{Hash}

module _ {ℓ} {K V : Type ℓ} where
  unfoldable pub mapping_keys : GoMap K V → List K
  mapping_keys [] = []
  mapping_keys ((k, v) ∷ m) = k ∷ mapping_keys m

  unfoldable pub mapping_values : GoMap K V → List V
  mapping_values [] = []
  mapping_values ((k, v) ∷ m) = v ∷ mapping_values m

unfoldable pub array_apply {ℓ} : {I O : Type ℓ} → List I → (I → O) → List O
array_apply [] fn = []
array_apply (v ∷ value) fn = fn v ∷ array_apply value fn

-- the rounds of the wait that are left; `mined` says whether a receipt is there when the node is
-- asked, from the next time on
unfoldable pub wait_loop : ℕ → (ℕ → Bool) → Hash → Result (Unit {0})
wait_loop zero mined tx_hash = err (not_mined tx_hash)
wait_loop (suc tries) mined tx_hash =
    let again = wait_loop tries (λ k. mined (suc k)) tx_hash in if mined 0 then ok tt else again

-- `tries := 30`
abbrev pub tries : ℕ
tries = 30

unfoldable pub wait_tx_to_be_mined : (ℕ → Bool) → Hash → Result (Unit {0})
wait_tx_to_be_mined mined tx_hash = wait_loop tries mined tx_hash
