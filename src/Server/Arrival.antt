-- ===== src/Server/Arrival.antt =====
-- What one relayer announces, as another receives it.
use mathlib.Core.List.{append_assoc, append-nil}
use bas_relay_hub.Prelude.{
  suc, ◌≡◌, refl, ap, ◌∙◌, some, Option, List, [], ◌∷◌, ◌++◌, map, Bytes, length, arith, ==_iff,
  Bytes-discrete,
}
use bas_relay_hub.Prelude.Maps.{GoMap, insert, lookup, lookup-insert}
use bas_relay_hub.Errors.{Result, ok, err, context_done}
use bas_relay_hub.Eth.{Address, address_length, Eth, KeepsAddresses, KeepsHashes}
use bas_relay_hub.Common.{mapping_keys, mapping_values}
use bas_relay_hub.Checkpoint.{CheckpointProof, entries, get_signature_or_nil}
use bas_relay_hub.Checkpoint.Signatures.{SameBlock}
use bas_relay_hub.Service.State.Merge.{IsMap, or_else}
use bas_relay_hub.Server.{
  SignCheckpointProofReply, append_signatures, reply_of, serve, read_signatures, proof_of,
  receive_loop, listen_for_incoming_messages,
}

-- every signer is an address
abbrev pub HasAddresses : GoMap Address Bytes → Type 0
HasAddresses [] = Unit
HasAddresses ((k, v) ∷ m) = (length k ≡ address_length) × HasAddresses m

-- the values have the sizes of their Go types
pub record IsSized (proof : CheckpointProof) : Type 0 where
  pub hashed : length proof.block_hash ≡ 32
  pub checkpointed : length proof.checkpoint_hash ≡ 32
  pub addressed : HasAddresses (entries proof.signatures)
  pub once : IsMap (entries proof.signatures)

-- the same proof, whatever the order of its signatures
abbrev pub SameProof : CheckpointProof → CheckpointProof → Type 0
SameProof p q =
    SameBlock p q × ((a : Address) → get_signature_or_nil p a ≡ get_signature_or_nil q a)

-- the same proofs in the same order
abbrev pub SameProofs : List CheckpointProof → List CheckpointProof → Type 0
SameProofs [] [] = Unit
SameProofs (p ∷ ps) (q ∷ qs) = SameProof p q × SameProofs ps qs
SameProofs _ _ = ⊥

append_signatures_all :
    (m : GoMap Address Bytes) (reply : SignCheckpointProofReply)
    → append_signatures m reply ≡ record reply {
      validators = reply.validators ++ mapping_keys m;
      signatures = reply.signatures ++ mapping_values m;
    }
unfolding append_signatures mapping_keys mapping_values
append_signatures_all [] reply = cc (append-nil reply.validators, append-nil reply.signatures)
append_signatures_all ((k, v) ∷ rest) reply =
    append_signatures_all rest _
    ∙ cc (
      append_assoc reply.validators (k ∷ []) (mapping_keys rest),
      append_assoc reply.signatures (v ∷ []) (mapping_values rest),
    )

length-keys : (m : GoMap Address Bytes) → length (mapping_keys m) ≡ length (mapping_values m)
unfolding mapping_keys mapping_values
length-keys [] = refl
length-keys ((k, v) ∷ rest) = ap suc (length-keys rest)

-- the events of a relayer whose stream takes every reply
abbrev pub announced : List CheckpointProof → List (Option CheckpointProof × Result (Unit {0}))
announced = map (λ p. (some p, ok tt))

abbrev pub AllSized : List CheckpointProof → Type 0
AllSized [] = Unit
AllSized (p ∷ ps) = IsSized p × AllSized ps

module _ (eth : Eth) (keeps : KeepsAddresses eth) (keeps' : KeepsHashes eth) where
  lookup-read_signatures :
      (l m : GoMap Address Bytes) (a : Address)
      → IsMap l
      → HasAddresses l
      → lookup Bytes-discrete a (read_signatures eth (mapping_keys l) (mapping_values l) m)
        ≡ or_else (lookup Bytes-discrete a l) (lookup Bytes-discrete a m)
  unfolding read_signatures lookup mapping_keys mapping_values
  lookup-read_signatures [] m a _ _ = refl
  lookup-read_signatures ((signer, signature) ∷ rest) m a (once, h) (sized, hs) =
      rw (keeps signer sized) (
        lookup-read_signatures rest (insert Bytes-discrete signer signature m) a h hs
        ∙ ap (or_else (lookup Bytes-discrete a rest))
            (lookup-insert Bytes-discrete signer a signature m)
        ∙ ground arith)

  proof_of-reply_of :
      (proof : CheckpointProof)
      → IsSized proof
      → proof_of eth (reply_of proof)
        ≡ ok (record proof {
          signatures = some (
              read_signatures eth
                (mapping_keys (entries proof.signatures))
                (mapping_values (entries proof.signatures))
                []);
        })
  unfolding proof_of reply_of
  proof_of-reply_of proof sized =
      rw
        (
          append_signatures_all (entries proof.signatures),
          keeps' proof.block_hash sized.hashed,
          keeps' proof.checkpoint_hash sized.checkpointed,
          (==_iff _ _).1 (length-keys (entries proof.signatures)),
        )
        refl

  -- Where `common.BytesToAddress` and `common.BytesToHash` keep bytes of the right number: a
  -- proof whose hashes and signers have their sizes, and that has one signature for each signer,
  -- is made of the message that it is sent as, with its block data and the signature of every
  -- signer, though not the order of the signatures.
  pub message_arrives :
      (proof : CheckpointProof)
      → IsSized proof
      → (received : CheckpointProof) × (proof_of eth (reply_of proof) ≡ ok received)
        × SameProof received proof
  unfolding get_signature_or_nil lookup
  message_arrives proof sized =
      let l = entries proof.signatures in
      (
        record proof {
          signatures = some (read_signatures eth (mapping_keys l) (mapping_values l) []);
        },
        proof_of-reply_of proof sized,
        (
          (refl, refl, refl, refl),
          λ a. lookup-read_signatures l [] a sized.once sized.addressed ∙ ground arith,
        ),
      )

  one_arrives :
      (proof : CheckpointProof) (replies : List SignCheckpointProofReply)
      (proofs : List CheckpointProof)
      → IsSized proof
      → let (received, ended) = receive_loop eth (map ok replies) in
        (ended ≡ ok tt) × SameProofs received proofs
        → let (received, ended) = receive_loop eth (map ok (reply_of proof ∷ replies)) in
          (ended ≡ ok tt) × SameProofs received (proof ∷ proofs)
  unfolding receive_loop
  one_arrives proof replies proofs sized (open_, rest) =
      let (received, made, same) = message_arrives proof sized in rw made (open_, (same, rest))

  -- Where `common.BytesToAddress` and `common.BytesToHash` keep bytes of the right number: proofs
  -- whose hashes and signers have their sizes, with one signature for each signer, that one
  -- relayer announces on a stream that takes every reply, arrive at the relayer that reads the
  -- stream: all of them, in their order, each with its block data and the signature of every
  -- signer. The sender ends by the context, and the receiver goes on to listen.
  pub announced_arrive :
      (proofs : List CheckpointProof)
      → AllSized proofs
      → let (replies, ended) = serve (announced proofs) in
        let (received, listening) = listen_for_incoming_messages eth (ok (map ok replies)) in
        (ended ≡ err context_done) × (listening ≡ ok tt) × SameProofs received proofs
  unfolding serve listen_for_incoming_messages receive_loop
  announced_arrive [] _ = (refl, refl, tt)
  announced_arrive (proof ∷ proofs) (sized, more) =
      let (ended, listening, rest) = announced_arrive proofs more in
      let (listening', all) =
        one_arrives proof (serve (announced proofs)).0 proofs sized (listening, rest) in
      (ended, listening', all)
