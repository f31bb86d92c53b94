-- ===== src/Service/System/Safety.antt =====
-- What the invariant gives in every state that the running service can come to.
use bas_relay_hub.Prelude.{
  ℕ, ◌≤◌, ◌≡◌, ◌≢◌, inl, inr, sym, ap, Bool, true, false, some, subst, arith,
}
use bas_relay_hub.Eth.{PrivateKey, Eth}
use bas_relay_hub.Checkpoint.{CheckpointProof, signature_count, TrieOps}
use bas_relay_hub.Service.State.{Ref, Lru, LruLaws, State, new_relay_service, receive}
use bas_relay_hub.Service.State.Received.{receive-IsExtended}
use bas_relay_hub.Service.State.Unfound.{start, FindsNothing, Reachable-FindsNothing}
use bas_relay_hub.Service.System.{
  Pc, idle, made, signed, merged, announced, waiting, sending, Move, System, set_pc, work, collect,
  Steps, here, next, started,
}
use bas_relay_hub.Service.System.Invariant.{limit, IsLow, held, Owns, Apart, Leaves, Move-Leaves}

Apart-sym : (p q : Pc) → Apart p q → Apart q p
Apart-sym p q apart r r' h h' e = apart r' r h' h (sym e)

module _ {C T : Type 0} (lru : Lru C) (laws : LruLaws lru) (eth : Eth) (trie : TrieOps T)
    (key : PrivateKey) where
  Owns-frame :
      (s t : State C) (p : Pc)
      → s.next_ref ≤ t.next_ref
      → ((r : Ref) → held p ≡ some r → t.proof_at r ≡ s.proof_at r)
      → Owns s p
      → Owns t p
  Owns-frame s t p grows same own = record {
    allocated = λ r e. omega (arith, grows, own.allocated r e);
    few = λ r e. omega (arith, ap signature_count (same r e), own.few r e);
    low = own.low;
  }

  other-Owns :
      {s t : State C} {p q o : Pc}
      → Leaves lru laws eth trie key s t p q
      → Owns s o
      → Apart p o
      → Owns t o
  other-Owns {s} {t} {o} leaves own apart =
      Owns-frame s t o leaves.grows
        (λ r e. leaves.others r (own.allocated r e) (λ r' e'. apart r' r e' e)) own

  other-Apart :
      {s t : State C} {p q o : Pc}
      → Leaves lru laws eth trie key s t p q
      → Owns s o
      → Apart p o
      → Apart q o
  other-Apart leaves own apart r r' e e' same = elim (leaves.mine r e) [
    | inl before ↦ apart r r' before e' same
    | inr new ↦ omega (arith, new, same, own.allocated r' e')
  ]

  pub record Inv (a : System C) : Type 0 where
    pub nothing : FindsNothing lru a.shared
    pub owns : (i : Bool) → Owns a.shared (a.pc i)
    pub apart : Apart (a.pc true) (a.pc false)

  work-Inv :
      (a : System C) (i : Bool) {s : State C} {p : Pc}
      → Inv a
      → Move lru eth trie key a.shared (a.pc i) s p
      → Inv (record { shared = s; pc = set_pc a.pc i p })
  work-Inv a true {s} {p} inv move =
      let leaves = Move-Leaves lru laws eth trie key inv.nothing (inv.owns true) move in
      record {
        nothing = leaves.nothing;
        owns = λ j. elim j as (λ k. Owns s (set_pc a.pc true p k)) [
          | true ↦ leaves.own
          | false ↦ other-Owns leaves (inv.owns false) inv.apart
        ];
        apart = other-Apart leaves (inv.owns false) inv.apart;
      }
  work-Inv a false {s} {p} inv move =
      let leaves = Move-Leaves lru laws eth trie key inv.nothing (inv.owns false) move in
      let apart = Apart-sym (a.pc true) (a.pc false) inv.apart in
      record {
        nothing = leaves.nothing;
        owns = λ j. elim j as (λ k. Owns s (set_pc a.pc false p k)) [
          | true ↦ other-Owns leaves (inv.owns true) apart
          | false ↦ leaves.own
        ];
        apart = Apart-sym p (a.pc true) (other-Apart leaves (inv.owns true) apart);
      }

  collect-Inv :
      (a : System C) (proof : CheckpointProof)
      → Inv a
      → Inv (record { shared = receive lru proof a.shared; pc = a.pc })
  collect-Inv a proof inv =
      let s = a.shared in
      let extended = receive-IsExtended lru laws s proof inv.nothing in
      record {
        nothing = extended.nothing;
        owns = λ i.
            Owns-frame s (receive lru proof s) (a.pc i) (omega (arith, extended.grown))
              (λ r e. extended.kept r ((inv.owns i).allocated r e)) (inv.owns i);
        apart = inv.apart;
      }

  started-Inv : Inv (started lru)
  unfolding new_relay_service
  started-Inv = record {
    nothing = Reachable-FindsNothing lru laws start;
    owns = λ i. record { allocated = λ r e. cc; few = λ r e. cc; low = tt };
    apart = λ r r' e e'. cc;
  }

  pub Steps-Inv : {a : System C} → Steps lru eth trie key (started lru) a → Inv a
  Steps-Inv here = started-Inv
  Steps-Inv (next {b} earlier (work i move)) = work-Inv b i (Steps-Inv earlier) move
  Steps-Inv (next {b} earlier (collect proof)) = collect-Inv b proof (Steps-Inv earlier)

  -- Over a cache with the laws of golang-lru, in every state that the running service can come to, in
  -- whatever order its two workers and the collector act and whatever other relayers send: a worker that
  -- sends a checkpoint transition was told a quorum of one signature or none; every proof that a worker
  -- holds has one signature at most; and the two workers hold different proofs.
  pub workers_alone :
      {a : System C}
      → Steps lru eth trie key (started lru) a
      → ((i : Bool) (r : Ref) (quorum : ℕ) → a.pc i ≡ sending r quorum → quorum ≤ 1)
        × ((i : Bool) (r : Ref)
            → held (a.pc i) ≡ some r
            → signature_count (a.shared.proof_at r) ≤ 1)
        × ((r r' : Ref) → held (a.pc true) ≡ some r → held (a.pc false) ≡ some r' → r ≢ r')
  workers_alone {a} steps =
      let inv = Steps-Inv steps in
      (
        λ i r quorum e. low_of (a.pc i) r quorum (inv.owns i).low e,
        λ i r e. omega (arith, (inv.owns i).few r e, limit_le (a.pc i)),
        inv.apart,
      )
    where
      low_of : (p : Pc) (r : Ref) (quorum : ℕ) → IsLow p → p ≡ sending r quorum → quorum ≤ 1
      low_of p r quorum low e = subst IsLow e low

      limit_le : (p : Pc) → limit p ≤ 1
      limit_le idle = omega arith
      limit_le (made r) = omega arith
      limit_le (signed r) = omega arith
      limit_le (merged r) = omega arith
      limit_le (announced r) = omega arith
      limit_le (waiting r quorum) = omega arith
      limit_le (sending r quorum) = omega arith
