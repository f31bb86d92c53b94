-- ===== src/Server/Start/Sessions.antt =====
-- What one relayer announces over several streams, as the reader of another receives it.
use bas_relay_hub.Prelude.{◌≡◌, refl, ap, List, [], ◌∷◌, ◌++◌, map}
use bas_relay_hub.Errors.{Error, Result, ok, err, panic, ◌>>=◌}
use bas_relay_hub.Eth.{Eth, KeepsAddresses, KeepsHashes}
use bas_relay_hub.Checkpoint.{CheckpointProof}
use bas_relay_hub.Server.{
  after_receive, proof_of, SignCheckpointProofReply, serve, receive_loop,
  listen_for_incoming_messages,
}
use bas_relay_hub.Server.Arrival.{AllSized, SameProofs, announced, announced_arrive}
use bas_relay_hub.Server.Start.{Opened, reader_loop}

-- one attempt of the reader: it is refused, or gets a stream of what is announced until an error, as of
-- the time limit, ends it
pub data Session : Type 0 where
  refused : Error → Session
  streamed : List CheckpointProof → Error → Session

abbrev pub opened_by : Session → Opened
opened_by (refused e) = err e
opened_by (streamed proofs e) = ok (map ok (serve (announced proofs)).0 ++ err e ∷ [])

-- what is announced while a stream is open
abbrev pub announced_in : List Session → List CheckpointProof
announced_in [] = []
announced_in (refused e ∷ sessions) = announced_in sessions
announced_in (streamed proofs e ∷ sessions) = proofs ++ announced_in sessions

SameProofs-append :
    (ps qs ps' qs' : List CheckpointProof)
    → SameProofs ps qs
    → SameProofs ps' qs'
    → SameProofs (ps ++ ps') (qs ++ qs')
SameProofs-append [] [] ps' qs' _ same = same
SameProofs-append (p ∷ ps) (q ∷ qs) ps' qs' (here, later) same =
    (here, SameProofs-append ps qs ps' qs' later same)
SameProofs-append [] (q ∷ qs) ps' qs' other same = absurd other
SameProofs-append (p ∷ ps) [] ps' qs' other same = absurd other

AllSized-append : (ps qs : List CheckpointProof) → AllSized (ps ++ qs) → AllSized ps × AllSized qs
AllSized-append [] qs sized = (tt, sized)
AllSized-append (p ∷ ps) qs (here, sized) =
    let (front, back) = AllSized-append ps qs sized in ((here, front), back)

-- one more answer in front of a stream that an error ends
after_receive-ends :
    (eth : Eth) (r : Result CheckpointProof) (e : Error)
    (open_ closed : List CheckpointProof × Result (Unit {0}))
    → (open_.1 ≡ ok tt → closed ≡ (open_.0, err e))
    → (after_receive eth r open_).1 ≡ ok tt
    → after_receive eth r closed ≡ ((after_receive eth r open_).0, err e)
after_receive-ends eth (ok proof) e open_ closed ends listening =
    ap (λ (x : List CheckpointProof × Result (Unit {0})). after_receive eth (ok proof) x)
      (ends listening)
after_receive-ends eth (err e') e open_ closed ends listening = cc
after_receive-ends eth (panic p) e open_ closed ends listening = cc

module _ (eth : Eth) where
  -- an error behind a stream ends the loop, with what was received
  receive_loop-ends :
      (stream : List (Result SignCheckpointProofReply)) (e : Error)
      → (receive_loop eth stream).1 ≡ ok tt
      → receive_loop eth (stream ++ err e ∷ []) ≡ ((receive_loop eth stream).0, err e)
  unfolding receive_loop
  receive_loop-ends [] e listening = refl
  receive_loop-ends (received ∷ stream) e listening =
      after_receive-ends eth (received >>= λ reply. proof_of eth reply) e (receive_loop eth stream)
        (receive_loop eth (stream ++ err e ∷ [])) (receive_loop-ends stream e) listening

module _ (eth : Eth) (keeps : KeepsAddresses eth) (keeps' : KeepsHashes eth) where
  -- Where `common.BytesToAddress` and `common.BytesToHash` keep bytes of the right number, and the
  -- hashes and signers of the announced proofs have their sizes, with one signature for each signer: a
  -- reader goes on after every attempt that is refused and every stream that an error ends, and what it
  -- emits over all of them is what the other relayer announced while a stream was open, in its order,
  -- each proof with its block data and the signature of every signer.
  pub sessions_arrive :
      (sessions : List Session)
      → AllSized (announced_in sessions)
      → let (received, ended) = reader_loop eth (map opened_by sessions) in
        (ended ≡ ok tt) × SameProofs received (announced_in sessions)
  unfolding reader_loop listen_for_incoming_messages
  sessions_arrive [] _ = (refl, tt)
  sessions_arrive (refused e ∷ sessions) sized = sessions_arrive sessions sized
  sessions_arrive (streamed proofs e ∷ sessions) sized =
      let (first, more) = AllSized-append proofs (announced_in sessions) sized in
      let (_, listening, same) = announced_arrive eth keeps keeps' proofs first in
      let (ended, later) = sessions_arrive sessions more in
      rw (receive_loop-ends eth (map ok (serve (announced proofs)).0) e listening) (
        ended,
        SameProofs-append (receive_loop eth (map ok (serve (announced proofs)).0)).0 proofs _ _ same
            later,
      )
