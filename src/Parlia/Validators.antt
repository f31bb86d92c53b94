-- ===== src/Parlia/Validators.antt =====
-- `extractParliaValidators` of relayer/parlia.go.
use mathlib.Core.List.{append-nil, append_assoc}
use bas_relay_hub.Prelude.{
  ℕ, zero, suc, ◌+◌, ◌-◌, ◌*◌, ◌/◌, ◌%◌, ◌≤◌, ◌<◌, ◌≡◌, ◌≢◌, refl, sym, ap, ◌∙◌, Bool, true, none,
  some, List, [], ◌∷◌, ◌++◌, Bytes, length, take, drop, replicate, copy_into, copy_into_lem, concat,
  length-append, take-append, drop-append, All, arith, ◌==◌, if◌then◌else◌, Bytes-discrete,
}
use bas_relay_hub.Prelude.Maps.{GoMap, insert, lookup, contains, mark_all, lookup-mark_all}
use bas_relay_hub.Errors.{ok, err, panic, bad_parlia_block, slice_bounds}
use bas_relay_hub.Slices.{slice_upto-append, length-slice_upto, slice_upto_short}
use bas_relay_hub.Eth.{Address, address_length, Header, Eth, KeepsAddresses}
use bas_relay_hub.Parlia.{
  extra_vanity, extra_seal, copy_address, extract_loop, extract_parlia_validators,
}

abbrev pub IsAddress : Address → Type 0
IsAddress a = length a ≡ address_length

copy_address-append :
    (front a rest : Bytes) (i : ℕ)
    → length front ≡ i * address_length
    → IsAddress a
    → copy_address (front ++ (a ++ rest)) i ≡ a
unfolding copy_address
copy_address-append front a rest i hf ha =
    ap (copy_into (replicate address_length 0)) chunk
    ∙ copy_into_lem (replicate address_length 0) a ha
  where
    chunk : take address_length (drop (i * address_length) (front ++ (a ++ rest))) ≡ a
    chunk =
        ap (take address_length) (rw (← hf) (drop-append front (a ++ rest)))
        ∙ ap (λ n. take n (a ++ rest)) (sym ha)
        ∙ take-append a rest

module _ (eth : Eth) (keeps : KeepsAddresses eth) where
  loop-concat :
      (addresses : List Address) (front : Bytes) (i : ℕ) (result : List Address)
      (mapping : GoMap Address Bool)
      → length front ≡ i * address_length
      → All IsAddress addresses
      → extract_loop eth (length addresses) i (front ++ concat addresses) result mapping
        ≡ (result ++ addresses, mark_all Bytes-discrete addresses mapping)
  unfolding extract_loop mark_all
  loop-concat [] front i result mapping hf _ = rw append-nil
  loop-concat (a ∷ rest) front i result mapping hf (ha, hrest) =
      ap
        (λ (x : Address).
          extract_loop eth (length rest) (i + 1) (front ++ (a ++ concat rest)) (result ++ x ∷ [])
            (insert Bytes-discrete x true mapping))
        (ap eth.bytes_to_address (copy_address-append front a (concat rest) i hf ha) ∙ keeps a ha)
      ∙ ap
          (λ (b : Bytes).
            extract_loop eth (length rest) (i + 1) b (result ++ a ∷ [])
              (insert Bytes-discrete a true mapping))
          (sym (append_assoc front a (concat rest)))
      ∙ loop-concat rest (front ++ a) (i + 1) (result ++ a ∷ [])
          (insert Bytes-discrete a true mapping) (omega (arith, length-append front a)) hrest
      ∙ rw append_assoc

length-concat :
    (addresses : List Address)
    → All IsAddress addresses
    → length (concat addresses) ≡ length addresses * address_length
length-concat [] _ = refl
length-concat (a ∷ rest) (ha, hrest) =
    omega (arith, length-append a (concat rest), length-concat rest hrest)

abbrev pub shortest_extra : ℕ
shortest_extra = extra_vanity + extra_seal

module _ (eth : Eth) where
  length-extract_loop :
      (n i : ℕ) (b : Bytes) (result : List Address) (mapping : GoMap Address Bool)
      → length (extract_loop eth n i b result mapping).0 ≡ length result + n
  unfolding extract_loop
  length-extract_loop zero i b result mapping = omega arith
  length-extract_loop (suc n) i b result mapping =
      let a = eth.bytes_to_address (copy_address b i) in
      omega (
        arith,
        length-extract_loop n (i + 1) b (result ++ a ∷ []) (insert Bytes-discrete a true mapping),
        length-append result (a ∷ []),
      )

  -- Extracting validators panics exactly on extra data that is too short for the vanity and the
  -- seal, fails exactly where the bytes between them are no whole number of addresses, and
  -- otherwise returns one validator for each 20 bytes.
  pub extract_branches :
      (h : Header)
      → (length h.extra < shortest_extra → extract_parlia_validators eth h ≡ panic slice_bounds)
        × (shortest_extra ≤ length h.extra
            → (length h.extra - shortest_extra) % address_length ≢ 0
            → extract_parlia_validators eth h ≡ err bad_parlia_block)
        × (shortest_extra ≤ length h.extra
            → (length h.extra - shortest_extra) % address_length ≡ 0
            → (validators : List Address) × (mapping : GoMap Address Bool)
              × (extract_parlia_validators eth h ≡ ok (validators, mapping))
              × (length validators * address_length + shortest_extra ≡ length h.extra))
  unfolding extract_parlia_validators
  extract_branches h = (
    λ short. rw (slice_upto_short extra_vanity extra_seal h.extra short),
    λ fits uneven.
        let (s, sliced, size) = length-slice_upto extra_vanity extra_seal h.extra fits in
        rw sliced (uneven_bytes s (omega arith)),
    λ fits even.
        let (s, sliced, size) = length-slice_upto extra_vanity extra_seal h.extra fits in
        let r = extract_loop eth (length s / address_length) 0 s [] [] in
        (
          r.0,
          r.1,
          rw sliced (even_bytes s (omega arith)),
          omega (arith, length-extract_loop (length s / address_length) 0 s [] []),
        ),
  )
    where
      uneven_bytes :
          (s : Bytes)
          → length s % address_length ≢ 0
          → (if length s % address_length == 0
              then ok (extract_loop eth (length s / address_length) 0 s [] [])
              else err bad_parlia_block)
            ≡ err bad_parlia_block
      uneven_bytes s n = ground arith

      even_bytes :
          (s : Bytes)
          → length s % address_length ≡ 0
          → (if length s % address_length == 0
              then ok (extract_loop eth (length s / address_length) 0 s [] [])
              else err bad_parlia_block)
            ≡ ok (extract_loop eth (length s / address_length) 0 s [] [])
      even_bytes s n = ground arith

module _ (eth : Eth) (keeps : KeepsAddresses eth) where
  -- Where `common.BytesToAddress` keeps 20 bytes: validators of 20 bytes each that were written
  -- between 32 bytes of vanity and 65 bytes of seal are read back in their order, and the map
  -- holds exactly them.
  pub extract-concat :
      (h : Header) (vanity seal : Bytes) (validators : List Address)
      → length vanity ≡ extra_vanity
      → length seal ≡ extra_seal
      → All IsAddress validators
      → h.extra ≡ vanity ++ (concat validators ++ seal)
      → (mapping : GoMap Address Bool) × (extract_parlia_validators eth h
          ≡ ok (validators, mapping))
        × ((a : Address)
            → lookup Bytes-discrete a mapping
              ≡ (if contains Bytes-discrete a validators then some true else none))
  unfolding extract_parlia_validators lookup
  extract-concat h vanity seal validators hv hs ha e = (
    mark_all Bytes-discrete validators [],
    rw (e, slice_upto-append vanity (concat validators) seal extra_vanity extra_seal hv hs)
        (rw size (decoded (length validators) refl)),
    λ a. lookup-mark_all Bytes-discrete a validators [],
  )
    where
      size : length (concat validators) ≡ length validators * address_length
      size = length-concat validators ha

      decoded :
          (n : ℕ)
          → n ≡ length validators
          → (if n * address_length % address_length == 0
              then ok (
                  extract_loop eth
                    (n * address_length / address_length)
                    0
                    (concat validators)
                    []
                    [])
              else err bad_parlia_block)
            ≡ ok (validators, mark_all Bytes-discrete validators [])
      decoded n e' =
          let whole : n * address_length % address_length ≡ 0 = omega arith in
          let count : n * address_length / address_length ≡ length validators = omega arith in
          rw (whole, count) (ap ok (loop-concat eth keeps validators [] 0 [] [] refl ha))
