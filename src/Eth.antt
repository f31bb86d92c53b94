-- ===== src/Eth.antt =====
-- What the relayer takes from go-ethereum (module github.com/ethereum/go-ethereum, not part of the
-- repository): the header of a block, and the functions that the relayer calls, as a record of
-- operations that the model takes as a parameter.
use bas_relay_hub.Prelude.{ℕ, ◌≡◌, List, Bytes, length}
use bas_relay_hub.Prelude.Words.{ℤ}
use bas_relay_hub.Errors.{Result}

-- `common.Address`, an array of 20 bytes, and `common.Hash`, an array of 32 bytes
abbrev pub Address : Type 0
Address = Bytes

abbrev pub Hash : Type 0
Hash = Bytes

-- `common.AddressLength`
abbrev pub address_length : ℕ
address_length = 20

-- `*ecdsa.PrivateKey`
abbrev pub PrivateKey : Type 0
PrivateKey = Bytes

-- the fields of `types.Header` that the relayer reads
pub record Header : Type 0 where
  pub parent_hash : Hash
  pub uncle_hash : Hash
  pub coinbase : Address
  pub root : Hash
  pub tx_hash : Hash
  pub receipt_hash : Hash
  pub bloom : Bytes
  pub difficulty : ℕ
  pub number : ℕ
  pub gas_limit : ℕ
  pub gas_used : ℕ
  pub time : ℕ
  pub extra : Bytes
  pub mix_digest : Hash
  pub nonce : Bytes

-- the values that the relayer hands to `rlp.Encode`
pub data Item : Type 0 where
  num : ℕ → Item
  bytes : Bytes → Item

-- `common`, `rlp`, `crypto` and `types`
pub record Eth : Type 0 where
  pub bytes_to_address : Bytes → Address
  pub bytes_to_hash : Bytes → Hash
  pub rlp_encode : List Item → Result Bytes
  pub rlp_encode_header : Header → Result Bytes
  pub rlp_encode_uint : ℕ → Result Bytes
  pub header_hash : Header → Hash
  pub keccak256 : Bytes → Bytes
  pub ecrecover : Bytes → Bytes → Result Bytes
  pub sign : Hash → PrivateKey → Result Bytes
  pub pubkey_to_address : PrivateKey → Address

-- `common.BytesToAddress` returns the address whose bytes it is given, if there are 20 of them.
abbrev pub KeepsAddresses : Eth → Type 0
KeepsAddresses eth = (b : Bytes) → length b ≡ address_length → eth.bytes_to_address b ≡ b

-- `common.BytesToHash` returns the hash whose bytes it is given, if there are 32 of them.
abbrev pub KeepsHashes : Eth → Type 0
KeepsHashes eth = (b : Bytes) → length b ≡ 32 → eth.bytes_to_hash b ≡ b

-- `ethclient.Client`: what a node answers while one function of the relayer runs. A block is
-- asked for by a `*big.Int`, which the relayer makes from an `int64`.
pub record Client : Type 0 where
  pub chain_id : Result ℕ
  pub block_by_number : ℤ → Result Header
