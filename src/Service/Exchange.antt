-- ===== src/Service/Exchange.antt =====
-- From one relayer to another: the announced proofs, over a stream, into the state of the other service.
use bas_relay_hub.Prelude.{
  ◌+◌, ◌<◌, ◌≡◌, refl, sym, ap, subst, List, [], ◌∷◌, map, length, suc, arith,
}
use bas_relay_hub.Errors.{ok}
use bas_relay_hub.Eth.{Eth, KeepsAddresses, KeepsHashes}
use bas_relay_hub.Checkpoint.{CheckpointProof}
use bas_relay_hub.Server.{serve, listen_for_incoming_messages}
use bas_relay_hub.Server.Arrival.{AllSized, SameProof, SameProofs, announced, announced_arrive}
use bas_relay_hub.Service.State.{Ref, Lru, LruLaws, State, collect_checkpoint_proofs_worker}
use bas_relay_hub.Service.State.Unfound.{Reachable, Reachable-FindsNothing}
use bas_relay_hub.Service.State.Received.{Holds, collect-IsExtended}

-- the proofs that stand from a pointer on are these, up to the order of their signatures
abbrev pub HoldsSame : (Ref → CheckpointProof) → Ref → List CheckpointProof → Type 0
HoldsSame proof_at r [] = Unit
HoldsSame proof_at r (p ∷ ps) = SameProof (proof_at r) p × HoldsSame proof_at (r + 1) ps

Holds-HoldsSame :
    (proof_at : Ref → CheckpointProof) (r : Ref) (received proofs : List CheckpointProof)
    → Holds proof_at r received
    → SameProofs received proofs
    → HoldsSame proof_at r proofs
Holds-HoldsSame proof_at r [] [] _ _ = tt
Holds-HoldsSame proof_at r (q ∷ received) (p ∷ proofs) (here, later) (same, rest) = (
  subst (λ (x : CheckpointProof). SameProof x p) (sym here) same,
  Holds-HoldsSame proof_at (r + 1) received proofs later rest,
)
Holds-HoldsSame proof_at r [] (p ∷ proofs) _ other = absurd other
Holds-HoldsSame proof_at r (q ∷ received) [] _ other = absurd other

length-SameProofs :
    (received proofs : List CheckpointProof)
    → SameProofs received proofs
    → length received ≡ length proofs
length-SameProofs [] [] _ = refl
length-SameProofs (q ∷ received) (p ∷ proofs) (_, rest) =
    ap suc (length-SameProofs received proofs rest)
length-SameProofs [] (p ∷ proofs) other = absurd other
length-SameProofs (q ∷ received) [] other = absurd other

module _ {C : Type 0} (lru : Lru C) (laws : LruLaws lru) (eth : Eth) (keeps : KeepsAddresses eth)
    (keeps' : KeepsHashes eth) where
  -- Over a cache with the laws of golang-lru, and where `common.BytesToAddress` and
  -- `common.BytesToHash` keep bytes of the right number: the proofs, of the sizes of their types, that one
  -- relayer announces on a stream that takes every reply end up in the service of another, in any state
  -- that it can come to, as so many new proofs, in their order and up to the order of their signatures;
  -- and no proof that the service held before changes, so that none of the signatures is added to its own.
  pub announced_collected :
      {s : State C} (proofs : List CheckpointProof)
      → Reachable lru s
      → AllSized proofs
      → let replies = (serve (announced proofs)).0 in
        let received = (listen_for_incoming_messages eth (ok (map ok replies))).0 in
        let t = collect_checkpoint_proofs_worker lru received s in
        (t.next_ref ≡ s.next_ref + length proofs)
        × ((r : Ref) → r < s.next_ref → t.proof_at r ≡ s.proof_at r)
        × HoldsSame t.proof_at s.next_ref proofs
  announced_collected {s} proofs reachable sized =
      let received =
        (listen_for_incoming_messages eth (ok (map ok (serve (announced proofs)).0))).0 in
      let (_, _, same) = announced_arrive eth keeps keeps' proofs sized in
      let extended =
        collect-IsExtended lru laws s received (Reachable-FindsNothing lru laws reachable) in
      (
        omega (arith, extended.grown, length-SameProofs received proofs same),
        extended.kept,
        Holds-HoldsSame (collect_checkpoint_proofs_worker lru received s).proof_at s.next_ref
            received proofs extended.holds same,
      )
