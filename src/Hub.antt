-- ===== src/Hub.antt =====
-- The hub contract as the relayer calls it through the generated binding relayer/abigen (its
-- results are parameters), and relayer/signer.go.
use bas_relay_hub.Prelude.{ℕ, Bool, false, Option, none, some, List, [], Bytes}
use bas_relay_hub.Errors.{Result}
use bas_relay_hub.Eth.{Address, Hash, PrivateKey, Eth}

-- `types.Transaction`
pub record Tx : Type 0 where
  pub hash : Hash
  pub gas : ℕ

-- `bind.TransactOpts`: the fields that the relayer sets; the signer is known by the chain and the key
-- that it signs for
pub record TransactOpts : Type 0 where
  pub from : Address
  pub signer : Option (ℕ × PrivateKey)
  pub gas_limit : ℕ
  pub no_send : Bool

-- `abigen.RelayHub`: what the contract answers to the transactions of one run of a relayer function
pub record RelayHub : Type 0 where
  pub update_validator_set : TransactOpts → ℕ → List Bytes → Result Tx
  pub multicall : TransactOpts → List Bytes → Result Tx
  pub checkpoint_transition : TransactOpts → ℕ → Bytes → Hash → List Bytes → Result Tx

-- `&bind.TransactOpts{}`
abbrev pub no_opts : TransactOpts
no_opts = record { from = []; signer = none; gas_limit = 0; no_send = false }

unfoldable pub inject_signer : Eth → ℕ → PrivateKey → Option TransactOpts → TransactOpts
inject_signer eth chain_id private_key opts = record (elim opts [ none ↦ no_opts | some o ↦ o ]) {
  from = eth.pubkey_to_address private_key;
  signer = some (chain_id, private_key);
}
