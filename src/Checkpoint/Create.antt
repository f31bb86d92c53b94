-- ===== src/Checkpoint/Create.antt =====
-- `createCheckpointProof` of relayer/checkpoint.go.
use bas_relay_hub.Prelude.{
  ℕ, zero, suc, ◌+◌, ◌/◌, ◌%◌, ◌<◌, ◌≡◌, ◌≢◌, refl, sym, ap, ◌∙◌, subst, Bool, true, false, none,
  List, [], ◌∷◌, Bytes, length, arith, ◌==◌, if◌then◌else◌,
}
use bas_relay_hub.Prelude.Words.{add64, int64}
use bas_relay_hub.Errors.{
  Fault, Error, Result, ok, err, panic, wrapped, bad_epoch_block, divide_by_zero, fetch_block,
  encode_path, >>=-eq-ok, wrapped-eq-ok, ok-injective,
}
use bas_relay_hub.Eth.{Hash, Header, Eth, Client}
use bas_relay_hub.Proof.{rounds}
use bas_relay_hub.Checkpoint.{
  CheckpointProof, TrieOps, new_proof, note_epoch_block, checkpoint_loop, create_checkpoint_proof,
}
use bas_relay_hub.Checkpoint.Blocks.{Blocks, end, next, fill, ShowsFirst, IsCheckpoint}

module _ {T : Type 0} (eth : Eth) (trie : TrieOps T) (client : Client) (epoch_block : ℕ) where
  record Step (n i : ℕ) (t : T) (result : CheckpointProof) (r : T × CheckpointProof) : Type 0 where
    header : Header
    path : Bytes
    noted : CheckpointProof
    fetched : client.block_by_number (int64 i) ≡ ok header
    note : note_epoch_block eth epoch_block i header result ≡ ok noted
    encoded : eth.rlp_encode_uint i ≡ ok path
    rest :
        checkpoint_loop eth trie client epoch_block n
          (i + 1)
          (trie.update t path (eth.header_hash header))
          noted
        ≡ ok r

  loop_round :
      (n i : ℕ) (t : T) (result : CheckpointProof) (r : T × CheckpointProof)
      → checkpoint_loop eth trie client epoch_block (suc n) i t result ≡ ok r
      → Step n i t result r
  unfolding checkpoint_loop
  loop_round n i t result r e =
      let (header, fetched, e₁) =
        >>=-eq-ok (wrapped (fetch_block i) (client.block_by_number (int64 i))) _ e in
      let (noted, note, e₂) = >>=-eq-ok (note_epoch_block eth epoch_block i header result) _ e₁ in
      let (path, encoded, rest) =
        >>=-eq-ok (wrapped (encode_path i) (eth.rlp_encode_uint i)) _ e₂ in
      record {
        header = header;
        path = path;
        noted = noted;
        fetched = wrapped-eq-ok _ _ fetched;
        note = note;
        encoded = wrapped-eq-ok _ _ encoded;
        rest = rest;
      }

  -- what the loop has done when it ends
  record HasFilled (n i : ℕ) (t : T) (t' : T) : Type 0 where
    headers : List Header
    paths : List Bytes
    blocks : Blocks eth client i headers paths
    whole : length headers ≡ n
    filled : t' ≡ fill eth trie t headers paths

  note_later :
      (i : ℕ) (header : Header) (result noted : CheckpointProof)
      → epoch_block < i
      → note_epoch_block eth epoch_block i header result ≡ ok noted
      → noted ≡ result
  unfolding note_epoch_block
  note_later i header result noted later e = ground arith

  note_first :
      (header : Header) (result noted : CheckpointProof)
      → note_epoch_block eth epoch_block epoch_block header result ≡ ok noted
      → (eth.rlp_encode_header header ≡ ok noted.raw_epoch_block)
        × (noted ≡ record result {
          raw_epoch_block = noted.raw_epoch_block;
          block_hash = eth.header_hash header;
        })
  unfolding note_epoch_block
  note_first header result noted e = (ground arith, ground arith)

  loop_ended :
      (i : ℕ) (t : T) (result : CheckpointProof) (r : T × CheckpointProof)
      → checkpoint_loop eth trie client epoch_block zero i t result ≡ ok r
      → (r.1 ≡ result) × HasFilled zero i t r.0
  unfolding checkpoint_loop
  loop_ended i t result r e =
      let ended : (t, result) ≡ r = ok-injective e in
      (
        ap (λ (x : T × CheckpointProof). x.1) (sym ended),
        record {
          headers = [];
          paths = [];
          blocks = end;
          whole = refl;
          filled = ap (λ (x : T × CheckpointProof). x.0) (sym ended);
        },
      )

  -- past the epoch block the loop only fills the trie
  loop_later :
      (n i : ℕ) (t : T) (result : CheckpointProof) (r : T × CheckpointProof)
      → epoch_block < i
      → checkpoint_loop eth trie client epoch_block n i t result ≡ ok r
      → (r.1 ≡ result) × HasFilled n i t r.0
  loop_later zero i t result r later e = loop_ended i t result r e
  loop_later (suc n) i t result r later e =
      let s = loop_round n i t result r e in
      let same : s.noted ≡ result = note_later i s.header result s.noted later s.note in
      let (kept, done) =
        loop_later n (i + 1) (trie.update t s.path (eth.header_hash s.header)) s.noted r
          (omega (arith, later)) s.rest in
      (
        kept ∙ same,
        record {
          headers = s.header ∷ done.headers;
          paths = s.path ∷ done.paths;
          blocks = next s.fetched s.encoded done.blocks;
          whole = ap suc done.whole;
          filled = done.filled;
        },
      )

  -- from the epoch block on, its header is noted in the first round
  loop_all :
      (n number : ℕ) (r : T × CheckpointProof)
      → checkpoint_loop eth trie client epoch_block n epoch_block trie.new_empty (new_proof number)
        ≡ ok r
      → (done : HasFilled n epoch_block trie.new_empty r.0) × ShowsFirst eth r.1 done.headers
        × (r.1.epoch_number ≡ number)
        × (r.1.signatures ≡ none)
  loop_all zero number r e =
      let (kept, done) = loop_ended epoch_block trie.new_empty (new_proof number) r e in
      (
        done,
        shows_none done.headers done.whole kept,
        ap (λ (p : CheckpointProof). p.epoch_number) kept,
        ap (λ (p : CheckpointProof). p.signatures) kept,
      )
    where
      shows_none :
          (headers : List Header)
          → length headers ≡ 0
          → r.1 ≡ new_proof number
          → ShowsFirst eth r.1 headers
      shows_none [] h kept = (
        ap (λ (p : CheckpointProof). p.raw_epoch_block) kept,
        ap (λ (p : CheckpointProof). p.block_hash) kept,
      )
      shows_none (x ∷ headers) h kept = absurd (omega arith)
  loop_all (suc n) number r e =
      let s = loop_round n epoch_block trie.new_empty (new_proof number) r e in
      let (shown, noted) = note_first s.header (new_proof number) s.noted s.note in
      let (kept, done) =
        loop_later n (epoch_block + 1)
          (trie.update trie.new_empty s.path (eth.header_hash s.header)) s.noted r (omega arith)
          s.rest in
      (
        record {
          headers = s.header ∷ done.headers;
          paths = s.path ∷ done.paths;
          blocks = next s.fetched s.encoded done.blocks;
          whole = ap suc done.whole;
          filled = done.filled;
        },
        (
          shown ∙ ap (λ (p : CheckpointProof). ok p.raw_epoch_block) (sym kept),
          ap (λ (p : CheckpointProof). p.block_hash) (kept ∙ noted),
        ),
        ap (λ (p : CheckpointProof). p.epoch_number) (kept ∙ noted),
        ap (λ (p : CheckpointProof). p.signatures) (kept ∙ noted),
      )

ShowsFirst-hash :
    (eth : Eth) (p : CheckpointProof) (hash : Hash) (headers : List Header)
    → ShowsFirst eth p headers
    → ShowsFirst eth (record p { checkpoint_hash = hash }) headers
ShowsFirst-hash eth p hash [] s = s
ShowsFirst-hash eth p hash (h ∷ hs) s = s

-- the two tests in front of the loop
passed_tests :
    (no_blocks aligned : Bool) (fault : Fault) (failed : Error) (m : Result CheckpointProof)
    (proof : CheckpointProof)
    → (if no_blocks then panic fault else if aligned then m else err failed) ≡ ok proof
    → (no_blocks ≡ false) × (aligned ≡ true) × (m ≡ ok proof)
passed_tests true aligned fault failed m proof e = cc
passed_tests false true fault failed m proof e = (refl, refl, e)
passed_tests false false fault failed m proof e = cc

module _ {T : Type 0} (eth : Eth) (trie : TrieOps T) (client : Client)
    (epoch_block epoch_length : ℕ) where
  -- A checkpoint proof that is made holds the RLP and the hash of the epoch block, the number of the
  -- epoch, no signature, and as its checkpoint hash the root of the trie that has the hash of every
  -- block of the epoch, in order, under the RLP of its number.
  pub create_checkpoint_proof-IsCheckpoint :
      {proof : CheckpointProof}
      → create_checkpoint_proof eth trie client epoch_block epoch_length ≡ ok proof
      → IsCheckpoint eth trie client epoch_block epoch_length proof
  unfolding create_checkpoint_proof
  create_checkpoint_proof-IsCheckpoint {proof} e =
      let n : ℕ = rounds epoch_block (add64 epoch_block epoch_length) in
      let (some_blocks, aligned, e₁) =
        passed_tests (epoch_length == 0) (epoch_block % epoch_length == 0) _ _ _ proof e in
      let (r, looped, e₂) =
        >>=-eq-ok
          (checkpoint_loop eth trie client epoch_block n epoch_block trie.new_empty
            (new_proof (epoch_block / epoch_length)))
          _ e₁ in
      let made : record r.1 { checkpoint_hash = trie.hash r.0 } ≡ proof = ok-injective e₂ in
      let (done, shown, numbered, unsigned) =
        loop_all eth trie client epoch_block n (epoch_block / epoch_length) r looped in
      subst (IsCheckpoint eth trie client epoch_block epoch_length) made (record {
        positive = ground arith;
        aligned = ground arith;
        headers = done.headers;
        paths = done.paths;
        blocks = done.blocks;
        whole = done.whole;
        hashed = ap trie.hash done.filled;
        numbered = numbered;
        first = ShowsFirst-hash eth r.1 (trie.hash r.0) done.headers shown;
        unsigned = unsigned;
      })

  -- No checkpoint proof is made for an epoch of no blocks, which panics, or for a block that does
  -- not begin an epoch, which is an error.
  pub checkpoint_refuses :
      (epoch_length ≡ 0
        → create_checkpoint_proof eth trie client epoch_block epoch_length ≡ panic divide_by_zero)
      × (0 < epoch_length
          → epoch_block % epoch_length ≢ 0
          → create_checkpoint_proof eth trie client epoch_block epoch_length
            ≡ err (bad_epoch_block epoch_block))
  unfolding create_checkpoint_proof
  checkpoint_refuses = (λ h. ground arith, λ h k. ground arith)
