-- ===== src/Tests/World.antt =====
-- A small world: three validators, epochs of two blocks, a cache that never drops an entry, and a hash
-- that keeps its bytes.
use Prim.Native.String.{String}
use mathlib.Core.Logic.{ite}
use bas_relay_hub.Prelude.{
  ℕ, ◌-◌, ◌%◌, ◌≡◌, ◌≢◌, refl, ap, Bool, true, false, none, some, Option, List, [], ◌∷◌, ◌++◌,
  Bytes, concat, replicate, take, ◌==◌, if◌then◌else◌, arith, Bytes-discrete,
}
use bas_relay_hub.Prelude.Words.{ℤ, pos, negsuc}
use bas_relay_hub.Errors.{Result, ok, err, external}
use bas_relay_hub.Eth.{Address, Header, Item, num, bytes, Eth, Client}
use bas_relay_hub.Hub.{RelayHub}
use bas_relay_hub.Config.{ChainConfig, Config}
use bas_relay_hub.Node.{NodeConfig}
use bas_relay_hub.Checkpoint.{TrieOps}
use bas_relay_hub.Service.State.{Ref, Key, epoch_key, hash_key, Lru, LruLaws}

abbrev pub alice : Address
alice = replicate 20 1

abbrev pub bob : Address
bob = replicate 20 2

abbrev pub carol : Address
carol = replicate 20 3

abbrev flat : List Item → Bytes
flat [] = []
flat (num n ∷ items) = n ∷ flat items
flat (bytes b ∷ items) = b ++ flat items

-- a seal that `world` recovers to an address
abbrev pub seal_of : Address → Bytes
seal_of a = replicate 13 0 ++ (a ++ replicate 32 0)

abbrev pub world : Eth
world = record {
  bytes_to_address = λ b. b;
  bytes_to_hash = λ b. b;
  rlp_encode = λ items. ok (flat items);
  rlp_encode_header = λ h. ok (h.number ∷ h.coinbase);
  rlp_encode_uint = λ n. ok (n ∷ []);
  header_hash = λ h. h.number ∷ [];
  keccak256 = λ b. b;
  ecrecover = λ digest signature. ok (take 33 signature);
  sign = λ hash key. ok (9 ∷ key);
  pubkey_to_address = λ key. key;
}

abbrev pub header : ℕ → Address → Bytes → Header
header number coinbase extra = record {
  parent_hash = (number - 1) ∷ [];
  uncle_hash = [];
  coinbase = coinbase;
  root = [];
  tx_hash = [];
  receipt_hash = [];
  bloom = [];
  difficulty = 2;
  number = number;
  gas_limit = 0;
  gas_used = 0;
  time = 7;
  extra = extra;
  mix_digest = [];
  nonce = [];
}

abbrev pub validators : List Address
validators = alice ∷ bob ∷ carol ∷ []

abbrev pub sealer : ℕ → Address
sealer n = if (n % 2) == 0 then alice else bob

-- each block holds the three validators; the first seals the even blocks, the second the others
abbrev pub block : ℕ → Header
block n = header n (sealer n) (replicate 32 0 ++ (concat validators ++ seal_of (sealer n)))

abbrev pub block_at : ℤ → Result Header
block_at (pos n) = ok (block n)
block_at (negsuc n) = err (external 2)

abbrev pub client : Client
client = record { chain_id = ok 56; block_by_number = block_at }

abbrev pub hub : RelayHub
hub = record {
  update_validator_set = λ opts chain_id proofs. ok (record { hash = 1 ∷ []; gas = 400000 });
  multicall = λ opts inputs. ok (record { hash = 2 ∷ []; gas = 0 });
  checkpoint_transition =
      λ opts chain_id raw hash signatures. ok (record { hash = 3 ∷ []; gas = 0 });
}

abbrev pub chain : ℕ → ChainConfig
chain gas_limit = record {
  chain_name = "small";
  rpc_url = "";
  relay_hub_address = "";
  chain_id = 56;
  confirmations = 12;
  gas_limit = gas_limit;
  epoch_length = 2;
}

abbrev pub settings : List String → ℕ → Config
settings urls gas_limit = record {
  root = chain gas_limit;
  child = chain gas_limit;
  relayer = record { private_key = alice; grpc_address = ""; relayer_urls = urls };
}

-- a node, with other relayers or without
abbrev pub node : Bool → ℕ → NodeConfig
node others gas_limit = record {
  client = client;
  relay_hub = hub;
  config = settings (if others then "peer" ∷ [] else []) gas_limit;
  chain_config = chain gas_limit;
  chain_id = 56;
}

abbrev pub encode : ℕ → List Bytes → Result Bytes
encode chain_id proofs = ok (concat proofs)

abbrev pub trie : TrieOps (List Bytes)
trie = record { new_empty = []; update = λ t path value. (path ++ value) ∷ t; hash = concat }

abbrev same_key : Key → Key → Bool
same_key (epoch_key m) (epoch_key n) = m == n
same_key (hash_key g) (hash_key h) = ite (Bytes-discrete g h) true false
same_key _ _ = false

abbrev pub Cache : Type 0
Cache = Key → Option Ref

abbrev pub cache : Lru Cache
cache = record {
  new = λ n k. none;
  get = λ c k. (c k, c);
  add = λ c k v j. if same_key k j then some v else c j;
}

same_key-eq : (j k : Key) → same_key j k ≡ true → j ≡ k
same_key-eq (epoch_key m) (epoch_key n) e = ap epoch_key (ground arith)
same_key-eq (hash_key g) (hash_key h) e = ap hash_key (ground arith)
same_key-eq (epoch_key m) (hash_key h) e = cc
same_key-eq (hash_key h) (epoch_key m) e = cc

keeps_others :
    (c : Cache) (j k : Key) (v : Ref)
    → j ≢ k
    → c k ≡ none
    → (if same_key j k then some v else c k) ≡ none
keeps_others c j k v other nothing = ground (arith, same_key-eq j k)

pub cache_laws : LruLaws cache
cache_laws = record { get-new = λ n k. refl; get-get = λ c j k. refl; get-add = keeps_others }
