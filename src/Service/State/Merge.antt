-- ===== src/Service/State/Merge.antt =====
-- Maps of signatures, the signature that one map or else another has, and writes into the heap of proofs.
use bas_relay_hub.Prelude.{◌≡◌, ◌≢◌, Option, none, some, [], ◌∷◌, Bytes, arith, Bytes-discrete}
use bas_relay_hub.Prelude.Maps.{GoMap, lookup}
use bas_relay_hub.Eth.{Address}
use bas_relay_hub.Checkpoint.{CheckpointProof}
use bas_relay_hub.Service.State.{Ref, write_at}

-- each key stands once in the list of a map's entries
abbrev pub IsMap : GoMap Address Bytes → Type 0
IsMap [] = Unit
IsMap ((k, v) ∷ m) = (lookup Bytes-discrete k m ≡ none) × IsMap m

abbrev pub or_else : Option Bytes → Option Bytes → Option Bytes
or_else none b = b
or_else (some v) b = some v

pub write_at_self :
    (f : Ref → CheckpointProof) (r : Ref) (p : CheckpointProof) → write_at f r p r ≡ p
write_at_self f r p = ground arith

pub write_at_other :
    (f : Ref → CheckpointProof) (r q : Ref) (p : CheckpointProof) → q ≢ r → write_at f r p q ≡ f q
write_at_other f r q p h = ground arith
