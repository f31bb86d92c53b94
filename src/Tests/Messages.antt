-- ===== src/Tests/Messages.antt =====
-- Messages between relayers and calls of the contract in the small world.
use bas_relay_hub.Prelude.{
  ℕ, ◌+◌, ◌<◌, ◌≡◌, refl, some, List, [], ◌∷◌, ◌++◌, map, Bytes, concat, arith, Bytes-discrete,
}
use bas_relay_hub.Prelude.Maps.{lookup}
use bas_relay_hub.Errors.{ok, err, context_done, external, ◌>>=◌}
use bas_relay_hub.Node.{or_fatal}
use bas_relay_hub.Abi.{uint256, bytes_array, AbiOps, must_new_arguments, encode_function_call}
use bas_relay_hub.Abi.Split.{signature, encode-signature}
use bas_relay_hub.Checkpoint.{CheckpointProof, new_proof}
use bas_relay_hub.Server.{serve, reply_of, proof_of, listen_for_incoming_messages}
use bas_relay_hub.Server.Arrival.{
  AllSized, IsSized, SameProof, SameProofs, announced, message_arrives, announced_arrive,
}
use bas_relay_hub.Server.Start.{reader_loop}
use bas_relay_hub.Server.Start.Sessions.{
  Session, refused, streamed, opened_by, announced_in, sessions_arrive,
}
use bas_relay_hub.Service.State.{new_relay_service, collect_checkpoint_proofs_worker}
use bas_relay_hub.Service.State.Unfound.{start}
use bas_relay_hub.Service.Exchange.{HoldsSame, announced_collected}
use bas_relay_hub.Tests.World.{alice, bob, world, cache, cache_laws}

abbrev signed_twice : CheckpointProof
signed_twice = record (new_proof 4) { signatures = some ((alice, 1 ∷ []) ∷ (bob, 2 ∷ []) ∷ []) }

signed_twice-IsSized : IsSized signed_twice
unfolding lookup Bytes-discrete
signed_twice-IsSized = record {
  hashed = refl;
  checkpointed = refl;
  addressed = (refl, (refl, tt));
  once = (refl, (refl, tt));
}

twice_arrives :
    (received : CheckpointProof) × (proof_of world (reply_of signed_twice) ≡ ok received)
    × SameProof received signed_twice
twice_arrives = message_arrives world (λ b h. refl) (λ b h. refl) signed_twice signed_twice-IsSized

abbrev two_announced : List CheckpointProof
two_announced = signed_twice ∷ new_proof 5 ∷ []

two-AllSized : AllSized two_announced
two-AllSized = (
  signed_twice-IsSized,
  (record { hashed = refl; checkpointed = refl; addressed = tt; once = tt }, tt),
)

announced_arrive_example :
    let (replies, ended) = serve (announced two_announced) in
    let (received, listening) = listen_for_incoming_messages world (ok (map ok replies)) in
    (ended ≡ err context_done) × (listening ≡ ok tt) × SameProofs received two_announced
announced_arrive_example =
    announced_arrive world (λ b h. refl) (λ b h. refl) two_announced two-AllSized

-- into a service that has just started
announced_collected_example :
    let replies = (serve (announced two_announced)).0 in
    let received = (listen_for_incoming_messages world (ok (map ok replies))).0 in
    let t = collect_checkpoint_proofs_worker cache received (new_relay_service cache) in
    (t.next_ref ≡ (new_relay_service cache).next_ref + 2)
    × ((r : ℕ)
        → r < (new_relay_service cache).next_ref
        → t.proof_at r ≡ (new_relay_service cache).proof_at r)
    × HoldsSame t.proof_at (new_relay_service cache).next_ref two_announced
announced_collected_example =
    announced_collected cache cache_laws world (λ b h. refl) (λ b h. refl) two_announced start
      two-AllSized

abbrev three_attempts : List Session
three_attempts =
    streamed two_announced (external 1)
    ∷ refused (external 2)
    ∷ streamed (signed_twice ∷ []) (external 1)
    ∷ []

sessions_arrive_example :
    let (received, ended) = reader_loop world (map opened_by three_attempts) in
    (ended ≡ ok tt) × SameProofs received (announced_in three_attempts)
sessions_arrive_example =
    sessions_arrive world (λ b h. refl) (λ b h. refl) three_attempts
      (
        signed_twice-IsSized,
        (
          record { hashed = refl; checkpointed = refl; addressed = tt; once = tt },
          (signed_twice-IsSized, tt),
        ),
      )

-- types are their names
abbrev by_name : AbiOps Bytes
by_name = record {
  new_type = ok;
  method_id = λ name arguments. name;
  pack = λ arguments values. ok (concat (map (λ a. a.0) arguments));
}

-- f(ab,c)
encode-signature_example :
    encode_function_call by_name
      (signature (b'f' ∷ []) (b'a' ∷ b'b' ∷ []) ((b'c' ∷ []) ∷ []))
      (uint256 56 ∷ bytes_array [] ∷ [])
    ≡ (must_new_arguments by_name ((b'a' ∷ b'b' ∷ []) ∷ (b'c' ∷ []) ∷ []) >>= λ input.
        or_fatal (by_name.pack input (uint256 56 ∷ bytes_array [] ∷ [])) >>= λ packed.
        ok (by_name.method_id (b'f' ∷ []) input ++ packed))
encode-signature_example =
    encode-signature by_name (b'f' ∷ []) (b'a' ∷ b'b' ∷ []) ((b'c' ∷ []) ∷ [])
      (uint256 56 ∷ bytes_array [] ∷ []) (λ e. omega arith, tt)
      (λ e. omega arith, (λ e. omega arith, tt)) ((λ e. omega arith, tt), tt)
