-- ===== src/Errors.antt =====
-- How a Go function of the relayer ends: with a value, with an `error`, or by ending the process
-- (a run-time panic, `panic(err)`, or `log.Fatalf`).
use Prim.Native.String.{String}
use bas_relay_hub.Prelude.{ℕ, ◌≡◌, refl, Bytes}

pub data Fault : Type 0 where
  slice_bounds : Fault
  divide_by_zero : Fault
  nil_dereference : Fault
  raised : Fault
  fatal : Fault

-- what `errors.Wrapf` puts in front of an error
pub data Context : Type 0 where
  fetch_prev_epoch_block : ℕ → Context
  fetch_block : ℕ → Context
  extract_validators : Context
  encode_epoch_block : Context
  encode_path : ℕ → Context
  encode_header : Context
  update_validator_set : Context
  do_multicall : Context
  listen_address : String → Context

-- the errors that the relayer makes, and `external` for those that a library returns
pub data Error : Type 0 where
  bad_epoch_block : ℕ → Error
  bad_parlia_block : Error
  bad_block_signer : Bytes → Bytes → Error
  quorum_not_reached : ℕ → ℕ → ℕ → Error
  not_mined : Bytes → Error
  context_done : Error
  corrupted_data : ℕ → ℕ → Error
  bad_event : Error
  external : ℕ → Error
  wrap : Context → Error → Error

pub data Result {ℓ} (A : Type ℓ) : Type ℓ where
  ok : A → Result A
  err : Error → Result A
  panic : Fault → Result A

-- `if err != nil { return err }`; a panic passes through
infixl 5 ◌>>=◌ ◌>>◌
abbrev pub ◌>>=◌ {ℓ κ} : {A : Type ℓ} {B : Type κ} → Result A → (A → Result B) → Result B
ok a >>= next = next a
panic p >>= next = panic p
err e >>= next = err e

abbrev pub ◌>>◌ {ℓ} : {B : Type ℓ} → Result (Unit {0}) → Result B → Result B
m >> k = m >>= λ _. k

-- `errors.Wrapf(err, …)` on the error path
abbrev pub wrapped {ℓ} : {A : Type ℓ} → Context → Result A → Result A
wrapped c (ok a) = ok a
wrapped c (err e) = err (wrap c e)
wrapped c (panic p) = panic p

-- Inversion of a successful bind, for proofs where the parts stay shut.
pub >>=-eq-ok {ℓ κ} :
    {A : Type ℓ} {B : Type κ} (first : Result A) (next : A → Result B) {result : B}
    → (first >>= next) ≡ ok result
    → (a : A) × (first ≡ ok a) × (next a ≡ ok result)
>>=-eq-ok (panic p) next ended = cc
>>=-eq-ok (err e) next ended = cc
>>=-eq-ok (ok a) next ended = (a, refl, ended)

pub wrapped-eq-ok {ℓ} :
    {A : Type ℓ} (c : Context) (m : Result A) {a : A} → wrapped c m ≡ ok a → m ≡ ok a
wrapped-eq-ok c (ok x) h = h
wrapped-eq-ok c (err e) h = cc
wrapped-eq-ok c (panic p) h = cc

pub >>=_assoc {ℓ} :
    {A B C : Type ℓ} (m : Result A) (f : A → Result B) (g : B → Result C)
    → (m >>= f >>= g) ≡ (m >>= λ a. f a >>= g)
>>=_assoc (ok a) f g = refl
>>=_assoc (err e) f g = refl
>>=_assoc (panic p) f g = refl

-- What the rest of a block ensures of each of its results, the block ensures.
pub ensures_bind {ℓ κ} :
    {A B : Type ℓ} (P : B → Type κ) (m : Result A) (f : A → Result B)
    → ((a : A) (b : B) → f a ≡ ok b → P b)
    → (b : B) → (m >>= f) ≡ ok b
    → P b
ensures_bind P (ok a) f h b e = h a b e
ensures_bind P (err x) f h b e = cc
ensures_bind P (panic p) f h b e = cc

pub ok-injective {ℓ} : {A : Type ℓ} {a b : A} → ok a ≡ ok b → a ≡ b
ok-injective e = cc
