-- ===== src/Abi.antt =====
-- relayer/common.go: `mustNewArguments` and `encodeFunctionCall`. A text is the list of its bytes;
-- the types, methods and packing of go-ethereum's `accounts/abi` are parameters.
pub mod Split
use bas_relay_hub.Prelude.{
  ℕ, zero, suc, ◌+◌, ◌-◌, Bool, true, false, Option, none, some, List, [], ◌∷◌, ◌++◌, Bytes, length,
  take, drop, leb, ltb, ◌==◌, if◌then◌else◌,
}
use bas_relay_hub.Errors.{Result, ok, err, panic, raised, fatal, slice_bounds, ◌>>=◌}
use bas_relay_hub.Parlia.{or_panic}
use bas_relay_hub.Node.{or_fatal}

-- an argument of a call of the hub contract
pub data Value : Type 0 where
  uint256 : ℕ → Value
  bytes_array : List Bytes → Value

-- `abi.NewType`, the selector of `abi.NewMethod`, and `Arguments.Pack`
pub record AbiOps (AbiType : Type 0) : Type 0 where
  pub new_type : Bytes → Result AbiType
  pub method_id : Bytes → List (AbiType × Bytes) → Bytes
  pub pack : List (AbiType × Bytes) → List Value → Result Bytes

-- `strings.Index(s, sep)` for one byte; `none` is -1
unfoldable pub index_of : ℕ → Bytes → Option ℕ
index_of sep [] = none
index_of sep (c ∷ s) =
    if c == sep then some 0 else elim (index_of sep s) [ none ↦ none | some i ↦ some (suc i) ]

-- `strings.Split(s, sep)` for one byte: the part that is being read, and the rest
unfoldable pub split_from : ℕ → Bytes → Bytes → List Bytes
split_from sep current [] = current ∷ []
split_from sep current (c ∷ s) = elim (c == sep) [
  | true ↦ current ∷ split_from sep [] s
  | false ↦ split_from sep (current ++ c ∷ []) s
]

unfoldable pub split : Bytes → ℕ → List Bytes
split s sep = split_from sep [] s

-- `functionSignature[0:i]` and `functionSignature[i+1:len(functionSignature)-1]`, where `i` is the
-- place of the first parenthesis; without one the first slice panics
unfoldable pub split_signature : Bytes → Result (Bytes × Bytes)
split_signature signature = elim (index_of b'(' signature) [
  | none ↦ panic slice_bounds
  | some i ↦
      if leb (i + 1) (length signature - 1)
      then ok (take i signature, take (length signature - 1 - (i + 1)) (drop (i + 1) signature))
      else panic slice_bounds
]

module _ {AbiType : Type 0} (abi : AbiOps AbiType) where
  -- the name and the type of one argument, from the parts of its text
  unfoldable pub new_argument : List Bytes → Result (AbiType × Bytes)
  new_argument [] = panic slice_bounds
  new_argument (item ∷ name ∷ []) = do typ ← or_panic (abi.new_type item); ok (typ, name)
  new_argument (item ∷ more) = do typ ← or_panic (abi.new_type item); ok (typ, item)

  unfoldable pub must_new_arguments : List Bytes → Result (List (AbiType × Bytes))
  must_new_arguments [] = ok []
  must_new_arguments (t ∷ types) = do
    argument ← new_argument (split t b' ')
    result ← must_new_arguments types
    ok (argument ∷ result)

  unfoldable pub encode_function_call : Bytes → List Value → Result Bytes
  encode_function_call signature args = do
    (function_name, function_types) ← split_signature signature
    input ← must_new_arguments (split function_types b',')
    packed ← or_fatal (abi.pack input args)
    ok (abi.method_id function_name input ++ packed)
