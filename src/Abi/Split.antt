-- ===== src/Abi/Split.antt =====
-- The parts of a signature, as `encodeFunctionCall` of relayer/common.go takes them apart.
use bas_relay_hub.Prelude.{
  ℕ, ◌+◌, ◌-◌, ◌≡◌, ◌≢◌, refl, sym, ap, ◌∙◌, some, List, [], ◌∷◌, ◌++◌, Bytes, length, take, drop,
  All, arith, le→leb, not-==, ==_iff, length-append, take-append, drop-append,
}
use mathlib.Core.List.{append_assoc, append-nil}
use bas_relay_hub.Errors.{ok, ◌>>=◌}
use bas_relay_hub.Node.{or_fatal}
use bas_relay_hub.Abi.{
  Value, AbiOps, index_of, split_from, split, split_signature, must_new_arguments,
  encode_function_call,
}

-- a text without one byte
abbrev pub Lacks : ℕ → Bytes → Type 0
Lacks sep s = All (λ c. c ≢ sep) s

-- the parts, with the separator between them
abbrev pub join : ℕ → Bytes → List Bytes → Bytes
join sep part [] = part
join sep part (next ∷ parts) = part ++ (sep ∷ join sep next parts)

-- `name(type,…)`
abbrev pub signature : Bytes → Bytes → List Bytes → Bytes
signature name first types = name ++ (b'(' ∷ (join b',' first types ++ b')' ∷ []))

split_from-part :
    (sep : ℕ) (current part rest : Bytes)
    → Lacks sep part
    → split_from sep current (part ++ rest) ≡ split_from sep (current ++ part) rest
unfolding split_from
split_from-part sep current [] rest _ = cc (append-nil current)
split_from-part sep current (c ∷ part) rest (other, lacks) =
    rw (split_from, not-== c sep other)
      (split_from-part sep (current ++ c ∷ []) part rest lacks
        ∙ ap (λ (x : Bytes). split_from sep x rest) (append_assoc current (c ∷ []) part))

split-join :
    (sep : ℕ) (part : Bytes) (parts : List Bytes)
    → Lacks sep part
    → All (Lacks sep) parts
    → split_from sep [] (join sep part parts) ≡ part ∷ parts
unfolding split_from
split-join sep part [] lacks _ =
    ap (split_from sep []) (sym (append-nil part)) ∙ split_from-part sep [] part [] lacks
split-join sep part (next ∷ parts) lacks (lacks', more) =
    split_from-part sep [] part (sep ∷ join sep next parts) lacks
    ∙ rw (split_from, (==_iff sep sep).1 refl)
        (ap (λ (x : List Bytes). part ∷ x) (split-join sep next parts lacks' more))

index_of-append :
    (sep : ℕ) (name rest : Bytes)
    → Lacks sep name
    → index_of sep (name ++ sep ∷ rest) ≡ some (length name)
unfolding index_of
index_of-append sep [] rest _ = rw ((==_iff sep sep).1 refl)
index_of-append sep (c ∷ name) rest (other, lacks) =
    rw (not-== c sep other, index_of-append sep name rest lacks)

split_signature-join :
    (name body : Bytes)
    → Lacks b'(' name
    → split_signature (name ++ (b'(' ∷ (body ++ b')' ∷ []))) ≡ ok (name, body)
unfolding split_signature
split_signature-join name body lacks =
    let tail = (b'(' ∷ (body ++ b')' ∷ [])) in
    let size : length (name ++ tail) ≡ length name + (length body + 2) =
      omega (arith, length-append name tail, length-append body (b')' ∷ [])) in
    rw
      (
        split_signature,
        index_of-append b'(' name (body ++ b')' ∷ []) lacks,
        size,
        le→leb (length name + 1) (length name + (length body + 2) - 1) (omega arith),
      )
      (cc (take-append name tail, inner))
  where
    inner :
        take
          (length name + (length body + 2) - 1 - (length name + 1))
          (drop (length name + 1) (name ++ (b'(' ∷ (body ++ b')' ∷ []))))
        ≡ body
    inner =
        let left : length name + (length body + 2) - 1 - (length name + 1) ≡ length body =
          omega arith in
        let front : length (name ++ b'(' ∷ []) ≡ length name + 1 = length-append name (b'(' ∷ []) in
        rw left (
          ap (take (length body)) (
            ap (λ (n : ℕ). drop n (name ++ (b'(' ∷ (body ++ b')' ∷ [])))) (sym front)
            ∙ ap (drop (length (name ++ b'(' ∷ [])))
                (sym (append_assoc name (b'(' ∷ []) (body ++ b')' ∷ [])))
            ∙ drop-append (name ++ b'(' ∷ []) (body ++ b')' ∷ []))
          ∙ take-append body (b')' ∷ []))

module _ {AbiType : Type 0} (abi : AbiOps AbiType) where
  -- Encoding a call by `name(type,…)`, where the name has no parenthesis and no type has a comma,
  -- packs the arguments by the types that the signature lists, one after the other, and puts the
  -- selector of the name and these types in front.
  pub encode-signature :
      (name first : Bytes) (types : List Bytes) (args : List Value)
      → Lacks b'(' name
      → Lacks b',' first
      → All (Lacks b',') types
      → encode_function_call abi (signature name first types) args ≡ (
          must_new_arguments abi (first ∷ types) >>= λ input.
          or_fatal (abi.pack input args) >>= λ packed. ok (abi.method_id name input ++ packed))
  unfolding encode_function_call split
  encode-signature name first types args named lacks more =
      rw (split_signature-join name (join b',' first types) named, split_from_all) refl
    where
      split_from_all : split_from b',' [] (join b',' first types) ≡ first ∷ types
      split_from_all = split-join b',' first types lacks more
