-- ===== src/Service/Exec.antt =====
-- Functions of the service that change its state and may fail: what was written before an error stays
-- written, so the state comes back beside the error too.
use bas_relay_hub.Prelude.{◌≡◌, refl}
use bas_relay_hub.Errors.{Result, ok, err, panic}

abbrev pub Exec {ℓ} : Type ℓ → Type ℓ → Type ℓ
Exec S A = S → Result A × S

module _ {ℓ} {S A : Type ℓ} where
  unfoldable pub lift : Result A → Exec S A
  lift r s = (r, s)

  -- a step that cannot fail
  unfoldable pub step : (S → A × S) → Exec S A
  step f s = let (a, s') = f s in (ok a, s')

  unfoldable pub gets : (S → A) → Exec S A
  gets f s = (ok (f s), s)

module _ {ℓ} {S A B : Type ℓ} where
  abbrev pub continue : Result A → (A → Exec S B) → Exec S B
  continue (panic p) next s = (panic p, s)
  continue (err e) next s = (err e, s)
  continue (ok a) next s = next a s

  infixl 5 ◌>>=◌ ◌>>◌
  unfoldable pub ◌>>=◌ : Exec S A → (A → Exec S B) → Exec S B
  unfolding lift step gets
  ◌>>=◌ first next s = let (ended, after) = first s in continue ended next after

  abbrev pub ◌>>◌ : Exec S A → Exec S B → Exec S B
  first >> next = first >>= λ _. next

-- Inversion of a block that succeeds.
pub continue_ok {ℓ} :
    {S A B : Type ℓ} (r : Result A) (f : A → Exec S B) (s : S) {b : B}
    → (continue r f s).0 ≡ ok b
    → (a : A) × (r ≡ ok a) × ((f a s).0 ≡ ok b)
continue_ok (ok a) f s h = (a, refl, h)
continue_ok (err e) f s h = cc
continue_ok (panic p) f s h = cc
