-- ===== src/Contract/Verifier/Prefix.antt =====
-- The first blocks of a run, of a chain and of an epoch.
use mathlib.Core.List.{head-eq_of_cons-eq, tail-eq_of_cons-eq}
use bas_relay_hub.Prelude.{
  ℕ, ◌≤◌, ◌≡◌, ◌≢◌, refl, sym, ap, ◌∙◌, subst, List, [], ◌∷◌, ◌++◌, Bytes, length, All, arith,
}
use bas_relay_hub.Errors.{ok-injective}
use bas_relay_hub.Eth.{Address, Hash, Header, Eth, Client}
use bas_relay_hub.Proof.Run.{Run, end, next, coinbases}
use bas_relay_hub.Contract.Verifier.Relayed.{Linked, BeginsEpoch}

-- two runs from the same block of a node are the same, as far as both go
pub prefix_of_runs :
    {eth : Eth} {client : Client} {chain_id i : ℕ} {hs hs' : List Header} {ps ps' : List Bytes}
    → Run eth client chain_id i hs ps
    → Run eth client chain_id i hs' ps'
    → length hs' ≤ length hs
    → (back : List Header) × (hs ≡ hs' ++ back)
prefix_of_runs {hs} run end shorter = (hs, refl)
prefix_of_runs end (next proven' run') shorter = absurd (omega (arith, shorter))
prefix_of_runs {hs} (next {h} proven run) (next {h = h'} {hs = hs''} proven' run') shorter =
    let (back, is) = prefix_of_runs run run' (omega (arith, shorter)) in
    let same : h ≡ h' = ok-injective (sym proven.fetched ∙ proven'.fetched) in
    (back, ap (◌∷◌ h) is ∙ ap (λ (g : Header). g ∷ hs'' ++ back) same)

pub prefix_sealed :
    (P : Address → Type 0) (hs back : List Header)
    → All P (coinbases (hs ++ back))
    → All P (coinbases hs)
prefix_sealed P [] back all = tt
prefix_sealed P (h ∷ hs) back (one, more) = (one, prefix_sealed P hs back more)

prefix-Linked :
    (eth : Eth) (parent_hash : Hash) (hs back : List Header)
    → Linked eth parent_hash (hs ++ back)
    → Linked eth parent_hash hs
prefix-Linked eth parent_hash [] back linked = tt
prefix-Linked eth parent_hash (h ∷ hs) back (child, more) =
    (child, prefix-Linked eth (eth.header_hash h) hs back more)

pub prefix_begins :
    {eth : Eth} {epoch_length epoch_number : ℕ} {headers : List Header} {validators : List Address}
    (hs back : List Header)
    → BeginsEpoch eth epoch_length epoch_number headers validators
    → headers ≡ hs ++ back
    → hs ≢ []
    → BeginsEpoch eth epoch_length epoch_number hs validators
prefix_begins [] back starts is some_ = absurd (some_ refl)
prefix_begins {eth} {epoch_length} {epoch_number} (h ∷ hs) back starts is some_ =
    let first : starts.first ≡ h = head-eq_of_cons-eq (sym starts.is ∙ is) in
    let rest : starts.rest ≡ hs ++ back = tail-eq_of_cons-eq (sym starts.is ∙ is) in
    record {
      first = starts.first;
      rest = hs;
      is = ap (λ (g : Header). g ∷ hs) (sym first);
      linked =
          prefix-Linked eth (eth.header_hash starts.first) hs back
            (subst (Linked eth (eth.header_hash starts.first)) rest starts.linked);
      begins = starts.begins;
      epoch = starts.epoch;
      mapping = starts.mapping;
      extracted = starts.extracted;
    }
