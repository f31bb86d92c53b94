-- ===== src/Service/System/Keeps.antt =====
-- What no step of the service takes from a proof.
use bas_relay_hub.Prelude.{
  ◌≤◌, ◌<◌, ◌≡◌, refl, sym, ◌∙◌, true, Option, none, some, [], ◌∷◌, Bytes, subst, arith,
  Bytes-discrete, ℕ_discrete,
}
use bas_relay_hub.Prelude.Maps.{GoMap, lookup-insert}
use bas_relay_hub.Errors.{Result, ok, err, panic}
use bas_relay_hub.Eth.{Address, PrivateKey, Eth}
use bas_relay_hub.Checkpoint.{
  CheckpointProof, TrieOps, entries, has_signature, store_signature, sign_checkpoint_proof,
  add_signature,
}
use bas_relay_hub.Checkpoint.Signatures.{SameBlock}
use bas_relay_hub.Service.State.{
  Ref, hash_key, Lru, State, write_at, alloc, merge_signatures, merge_into, merge_checkpoint_proof,
  receive,
}
use bas_relay_hub.Service.State.Merge.{write_at_self, write_at_other}
use bas_relay_hub.Service.Checkpointing.{sign_at, emit_signed}
use bas_relay_hub.Service.System.{
  Pc, Move, make, sign, sign_failed, merge, announce, quorum_known, quorum_unknown, tick, give_up,
  pass, sent, System, work, collect, Steps, here, next,
}

-- the block data is the same, and every signer that had a signature has one
pub record Kept (q p : CheckpointProof) : Type 0 where
  pub same : SameBlock q p
  pub signers : (a : Address) → has_signature p a ≡ true → has_signature q a ≡ true

Kept-refl : (p : CheckpointProof) → Kept p p
Kept-refl p = record { same = (refl, refl, refl, refl); signers = λ a h. h }

Kept-trans : {p q r : CheckpointProof} → Kept r q → Kept q p → Kept r p
Kept-trans later earlier = record {
  same = (
    later.same.0 ∙ earlier.same.0,
    later.same.1 ∙ earlier.same.1,
    later.same.2 ∙ earlier.same.2,
    later.same.3 ∙ earlier.same.3,
  );
  signers = λ a h. later.signers a (earlier.signers a h);
}

add_signature-Kept :
    (p : CheckpointProof) (signer : Address) (signature : Bytes)
    → Kept (add_signature p signer signature).0 p
unfolding add_signature has_signature
add_signature-Kept p signer signature = record {
  same = (refl, refl, refl, refl);
  signers = λ a h.
      ground (arith, h, lookup-insert Bytes-discrete signer a signature (entries p.signatures));
}

store_signature-Kept :
    (p : CheckpointProof) (signer : Address) (signature : Bytes)
    → Kept (store_signature p signer signature) p
unfolding store_signature has_signature
store_signature-Kept p signer signature = record {
  same = (ground arith, ground arith, ground arith, ground arith);
  signers = λ a h.
      ground (arith, h, lookup-insert Bytes-discrete signer a signature (entries p.signatures));
}

merge_signatures-Kept :
    (l : GoMap Address Bytes) (p : CheckpointProof) → Kept (merge_signatures l p) p
unfolding merge_signatures
merge_signatures-Kept [] p = Kept-refl p
merge_signatures-Kept ((signer, signature) ∷ rest) p =
    Kept-trans (merge_signatures-Kept rest (add_signature p signer signature).0)
      (add_signature-Kept p signer signature)

sign-Kept :
    (eth : Eth) (p : CheckpointProof) (key : PrivateKey)
    → Kept (sign_checkpoint_proof eth p key).0 p
unfolding sign_checkpoint_proof
sign-Kept eth p key =
    let signer = eth.pubkey_to_address key in
    elim (eth.sign p.checkpoint_hash key)
      as (λ r.
        Kept
          (elim r as (λ _. CheckpointProof × Result (Unit {0})) [
            | ok signature ↦ (store_signature p signer signature, ok tt)
            | err e ↦ (p, err e)
            | panic f ↦ (p, panic f)
          ]).0
          p) [
            | ok signature ↦ store_signature-Kept p signer signature
            | err e ↦ Kept-refl p
            | panic f ↦ Kept-refl p
          ]

-- a write keeps every proof, if what is written keeps what was there, or the place is new
write-Kept :
    (f : Ref → CheckpointProof) (r q : Ref) (p : CheckpointProof)
    → Kept p (f r)
    → Kept (write_at f r p q) (f q)
write-Kept f r q p kept = elim (ℕ_discrete r q) [
  | yes e ↦ subst (λ (x : Ref). Kept (write_at f r p x) (f x)) e (rw (write_at_self f r p) kept)
  | no n ↦ rw (write_at_other f r q p (λ e. n (sym e))) (Kept-refl (f q))
]

module _ {C T : Type 0} (lru : Lru C) (eth : Eth) (trie : TrieOps T) (key : PrivateKey) where
  -- every proof that was there is kept
  pub record AllKept (t s : State C) : Type 0 where
    pub grows : s.next_ref ≤ t.next_ref
    pub kept : (r : Ref) → r < s.next_ref → Kept (t.proof_at r) (s.proof_at r)

  AllKept-refl : (s : State C) → AllKept s s
  AllKept-refl s = record { grows = omega arith; kept = λ r h. Kept-refl (s.proof_at r) }

  AllKept-trans : {s t u : State C} → AllKept u t → AllKept t s → AllKept u s
  AllKept-trans later earlier = record {
    grows = omega (arith, later.grows, earlier.grows);
    kept = λ r h. Kept-trans (later.kept r (omega (arith, h, earlier.grows))) (earlier.kept r h);
  }

  alloc-AllKept : (proof : CheckpointProof) (s : State C) → AllKept (alloc proof s).1 s
  unfolding alloc
  alloc-AllKept proof s = record {
    grows = omega arith;
    kept = λ r h.
        rw (write_at_other s.proof_at s.next_ref r proof (λ e. omega (arith, e, h)))
          (Kept-refl (s.proof_at r));
  }

  sign-AllKept : (r : Ref) (s : State C) → AllKept (sign_at eth r key s).1 s
  unfolding sign_at
  sign-AllKept r s = record {
    grows = omega arith;
    kept = λ q h.
        write-Kept s.proof_at r q (sign_checkpoint_proof eth (s.proof_at r) key).0
          (sign-Kept eth (s.proof_at r) key);
  }

  merge_into-AllKept :
      (r : Ref) (found : Option Ref) (s : State C) → AllKept (merge_into lru r found s).1 s
  unfolding merge_into
  merge_into-AllKept r none s = record {
    grows = omega arith;
    kept = λ q h. Kept-refl (s.proof_at q);
  }
  merge_into-AllKept r (some existing) s = record {
    grows = omega arith;
    kept = λ q h.
        write-Kept s.proof_at existing q _
          (merge_signatures-Kept (entries (s.proof_at r).signatures) (s.proof_at existing));
  }

  merge-AllKept : (r : Ref) (s : State C) → AllKept (merge_checkpoint_proof lru r s).1 s
  unfolding merge_checkpoint_proof
  merge-AllKept r s =
      let (found, proofs_map) = lru.get s.proofs_map (hash_key (s.proof_at r).checkpoint_hash) in
      let k = merge_into-AllKept r found (record s { proofs_map = proofs_map }) in
      record { grows = k.grows; kept = k.kept }

  receive-AllKept : (proof : CheckpointProof) (s : State C) → AllKept (receive lru proof s) s
  unfolding receive
  receive-AllKept proof s =
      AllKept-trans (merge-AllKept (alloc proof s).0 (alloc proof s).1) (alloc-AllKept proof s)

  emit-AllKept : (r : Ref) (s : State C) → AllKept (emit_signed r s).1 s
  unfolding emit_signed
  emit-AllKept r s = record { grows = omega arith; kept = λ q h. Kept-refl (s.proof_at q) }

  Move-AllKept : {s t : State C} {p q : Pc} → Move lru eth trie key s p t q → AllKept t s
  Move-AllKept {s} (make client epoch_block epoch_length proof made_ok) = alloc-AllKept proof s
  Move-AllKept {s} (sign {r} ok_) = sign-AllKept r s
  Move-AllKept {s} (sign_failed {r} failed) = sign-AllKept r s
  Move-AllKept {s} (merge {r}) = merge-AllKept r s
  Move-AllKept {s} (announce {r}) = emit-AllKept r s
  Move-AllKept {s} (quorum_known quorum) = AllKept-refl s
  Move-AllKept {s} quorum_unknown = AllKept-refl s
  Move-AllKept {s} (tick few) = AllKept-refl s
  Move-AllKept {s} (give_up few) = AllKept-refl s
  Move-AllKept {s} (pass enough) = AllKept-refl s
  Move-AllKept {s} sent = AllKept-refl s

  -- While the service runs, whatever its goroutines do and in whatever order, the block data of a proof
  -- never changes, and a signer that has a signature in it never loses it.
  pub proofs-Kept :
      {a b : System C}
      → Steps lru eth trie key a b
      → (r : Ref) → r < a.shared.next_ref
      → Kept (b.shared.proof_at r) (a.shared.proof_at r)
  proofs-Kept steps = (all steps).kept
    where
      all : {a b : System C} → Steps lru eth trie key a b → AllKept b.shared a.shared
      all {a} here = AllKept-refl a.shared
      all (next earlier (work i move)) = AllKept-trans (Move-AllKept move) (all earlier)
      all (next {b} earlier (collect proof)) =
          AllKept-trans (receive-AllKept proof b.shared) (all earlier)
