-- ===== src/Config/Written.antt =====
-- A settings file in the layout of relayer/config.yaml, as `configFromViper` of relayer/config.go reads it.
use Prim.Native.Nat.{Ordering}
use Prim.Native.String.{String, compare}
use bas_relay_hub.Prelude.{ℕ, ◌≡◌, refl, List, [], ◌∷◌, Option, none, some}
use bas_relay_hub.Errors.{Error, Result, ok, err, panic, raised}
use bas_relay_hub.Eth.{PrivateKey}
use bas_relay_hub.Config.{ChainConfig, Config, Viper, must, config_from_viper}

-- what stands behind a key of the file
pub data Setting : Type 0 where
  text : String → Setting
  number : ℕ → Setting
  texts : List String → Setting

-- the sections of the file, each with its keys
abbrev pub Sections : Type 0
Sections = List (String × List (String × Setting))

abbrev equal : {A : Type 0} → Ordering → A → A → A
equal Ordering.lt a b = b
equal Ordering.eq a b = a
equal Ordering.gt a b = b

-- viper joins the names of the section and the key by a dot
abbrev pub full_key : String → String → String
full_key section key = Prim.Native.String.◌++◌ section (Prim.Native.String.◌++◌ "." key)

abbrev find_key : String → String → List (String × Setting) → Option Setting → Option Setting
find_key wanted section [] otherwise = otherwise
find_key wanted section ((key, setting) ∷ keys) otherwise =
    equal (compare wanted (full_key section key)) (some setting)
      (find_key wanted section keys otherwise)

abbrev pub find_setting : String → Sections → Option Setting
find_setting wanted [] = none
find_setting wanted ((section, keys) ∷ sections) =
    find_key wanted section keys (find_setting wanted sections)

abbrev as_text : Option Setting → String
as_text (some (text s)) = s
as_text _ = ""

abbrev as_number : Option Setting → ℕ
as_number (some (number n)) = n
as_number _ = 0

abbrev as_texts : Option Setting → List String
as_texts (some (texts l)) = l
as_texts _ = []

-- the readers of viper over the file: a key that is not there, or holds another kind of value, is the
-- zero value of its type
abbrev pub viper_of : (String → Result PrivateKey) → Sections → Viper
viper_of hex_to_ecdsa file = record {
  get_string = λ key. as_text (find_setting key file);
  get_uint64 = λ key. as_number (find_setting key file);
  get_string_slice = λ key. as_texts (find_setting key file);
  hex_to_ecdsa = hex_to_ecdsa;
}

abbrev chain_section : ChainConfig → List (String × Setting)
chain_section c =
    ("chain-name", text c.chain_name)
    ∷ ("rpc-url", text c.rpc_url)
    ∷ ("relay-hub-address", text c.relay_hub_address)
    ∷ ("chain-id", number c.chain_id)
    ∷ ("confirmations", number c.confirmations)
    ∷ ("gas-limit", number c.gas_limit)
    ∷ ("epoch-blocks", number c.epoch_length)
    ∷ []

-- where there is no other relayer, the file of the repository has no line for them
abbrev urls_section : List String → List (String × Setting)
urls_section [] = []
urls_section (url ∷ urls) = ("relayer-urls", texts (url ∷ urls)) ∷ []

-- the file that holds a configuration, with the text of the private key
abbrev pub written : String → Config → Sections
written key_text c =
    ("root", chain_section c.root)
    ∷ ("child", chain_section c.child)
    ∷ (
      "relayer",
      ("private-key", text key_text)
          ∷ ("grpc-address", text c.relayer.grpc_address)
          ∷ urls_section c.relayer.relayer_urls,
    )
    ∷ []

module _ (hex_to_ecdsa : String → Result PrivateKey) (key_text : String) where
  reads_urls :
      (root child : ChainConfig) (private_key : PrivateKey) (grpc_address : String)
      (urls : List String)
      → hex_to_ecdsa key_text ≡ ok private_key
      → let c : Config = record {
        root = root;
        child = child;
        relayer = record {
          private_key = private_key;
          grpc_address = grpc_address;
          relayer_urls = urls;
        };
      } in
        config_from_viper (viper_of hex_to_ecdsa (written key_text c)) ≡ ok c
  unfolding config_from_viper must
  reads_urls root child private_key grpc_address [] parsed = rw parsed refl
  reads_urls root child private_key grpc_address (url ∷ urls) parsed = rw parsed refl

  -- From the file that holds a configuration, in the sections and under the keys of the repository's
  -- own settings file, `configFromViper` reads back that configuration where the text of the key is a
  -- private key, the other relayers too, and none of them where the file has no line for them; where
  -- the text is refused, the process panics.
  pub config-written :
      (c : Config)
      → (hex_to_ecdsa key_text ≡ ok c.relayer.private_key
          → config_from_viper (viper_of hex_to_ecdsa (written key_text c)) ≡ ok c)
        × ((e : Error)
            → hex_to_ecdsa key_text ≡ err e
            → config_from_viper (viper_of hex_to_ecdsa (written key_text c)) ≡ panic raised)
  unfolding config_from_viper must
  config-written c = (
    reads_urls c.root c.child c.relayer.private_key c.relayer.grpc_address c.relayer.relayer_urls,
    λ e refused. rw refused refl,
  )
