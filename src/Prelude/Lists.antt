-- ===== src/Prelude/Lists.antt =====
-- Lists measured and indexed by native numbers, under the library's names; the bytes of Go slices.
use Prim.Native.Nat.{ℕ, zero, suc, ◌+◌, ◌-◌, ◌≤◌, min}
use mathlib.Core.Path.{◌≡◌, refl, ap}
use mathlib.Core.List.{
  List, [], ◌∷◌, ◌++◌, append-nil, nil≢cons, cons≢nil, tail-eq_of_cons-eq, head-eq_of_cons-eq,
}
use native.Mathlib.Decide.{ℕ_discrete}
use native.Mathlib.Omega.{arith}

-- `[]byte`, a list of numbers below 256
abbrev pub Bytes : Type 0
Bytes = List ℕ

cons-discrete : {x y : ℕ} {xs ys : Bytes} → Dec (x ≡ y) → Dec (xs ≡ ys) → Dec (x ∷ xs ≡ y ∷ ys)
cons-discrete (yes p) (yes q) = yes (λ i. p i ∷ q i)
cons-discrete (yes p) (no n) = no (λ e. n (tail-eq_of_cons-eq e))
cons-discrete (no n) q = no (λ e. n (head-eq_of_cons-eq e))

-- `==` of arrays of bytes
unfoldable pub Bytes-discrete : Discrete Bytes
unfolding cons-discrete ℕ_discrete
Bytes-discrete [] [] = yes refl
Bytes-discrete [] (y ∷ ys) = no nil≢cons
Bytes-discrete (x ∷ xs) [] = no cons≢nil
Bytes-discrete (x ∷ xs) (y ∷ ys) = cons-discrete (ℕ_discrete x y) (Bytes-discrete xs ys)

module _ {ℓ} {A : Type ℓ} where
  abbrev pub length : List A → ℕ
  length [] = 0
  length (x ∷ xs) = suc (length xs)

  abbrev pub take : ℕ → List A → List A
  take zero xs = []
  take (suc n) [] = []
  take (suc n) (x ∷ xs) = x ∷ take n xs

  abbrev pub drop : ℕ → List A → List A
  drop zero xs = xs
  drop (suc n) [] = []
  drop (suc n) (x ∷ xs) = drop n xs

  abbrev pub replicate : ℕ → A → List A
  replicate zero a = []
  replicate (suc n) a = a ∷ replicate n a

  -- `copy(dst, src)`: as many elements as the shorter one has
  abbrev pub copy_into : List A → List A → List A
  copy_into dst src = take (length dst) src ++ drop (length src) dst

  -- the elements of the lists, one list after the other
  abbrev pub concat : List (List A) → List A
  concat [] = []
  concat (xs ∷ xss) = xs ++ concat xss

  pub length-append : (xs ys : List A) → length (xs ++ ys) ≡ length xs + length ys
  length-append [] ys = omega arith
  length-append (x ∷ xs) ys = omega (arith, length-append xs ys)

  pub length-take : (n : ℕ) (xs : List A) → length (take n xs) ≡ min n (length xs)
  length-take zero xs = omega arith
  length-take (suc n) [] = omega arith
  length-take (suc n) (x ∷ xs) = omega (arith, length-take n xs)

  pub length-drop : (n : ℕ) (xs : List A) → length (drop n xs) ≡ length xs - n
  length-drop zero xs = omega arith
  length-drop (suc n) [] = omega arith
  length-drop (suc n) (x ∷ xs) = omega (arith, length-drop n xs)

  pub length-replicate : (n : ℕ) (a : A) → length (replicate n a) ≡ n
  length-replicate zero a = refl
  length-replicate (suc n) a = ap suc (length-replicate n a)

  pub take-append : (xs ys : List A) → take (length xs) (xs ++ ys) ≡ xs
  take-append [] ys = refl
  take-append (x ∷ xs) ys = ap (◌∷◌ x) (take-append xs ys)

  pub drop-append : (xs ys : List A) → drop (length xs) (xs ++ ys) ≡ ys
  drop-append [] ys = refl
  drop-append (x ∷ xs) ys = drop-append xs ys

module _ {ℓ} {A : Type ℓ} where
  pub take_of_length-le : (n : ℕ) (l : List A) → length l ≤ n → take n l ≡ l
  take_of_length-le (suc n) (a ∷ l) short = ap (◌∷◌ a) (take_of_length-le n l (omega arith))
  take_of_length-le (suc n) [] short = refl
  take_of_length-le zero (a ∷ l) short = absurd (omega arith)
  take_of_length-le zero [] short = refl

  pub drop_of_length-le : (n : ℕ) (xs : List A) → length xs ≤ n → drop n xs ≡ []
  drop_of_length-le zero [] h = refl
  drop_of_length-le zero (x ∷ xs) h = absurd (omega arith)
  drop_of_length-le (suc n) [] h = refl
  drop_of_length-le (suc n) (x ∷ xs) h = drop_of_length-le n xs (omega arith)

  pub length-copy_into : (dst src : List A) → length (copy_into dst src) ≡ length dst
  length-copy_into dst src = omega (
    arith,
    length-append (take (length dst) src) (drop (length src) dst),
    length-take (length dst) src,
    length-drop (length src) dst,
  )

  -- a copy onto an array of the same length replaces the array
  pub copy_into_lem : (dst src : List A) → length src ≡ length dst → copy_into dst src ≡ src
  copy_into_lem dst src h =
      rw
        (
          take_of_length-le (length dst) src (omega arith),
          drop_of_length-le (length src) dst (omega arith),
        )
        (append-nil src)

module _ {ℓ κ} {A : Type ℓ} (P : A → Type κ) where
  -- every element has the property
  abbrev pub All : List A → Type κ
  All [] = Unit
  All (x ∷ xs) = P x × All xs

  pub All-append : (xs ys : List A) → All xs → All ys → All (xs ++ ys)
  All-append [] ys _ hy = hy
  All-append (x ∷ xs) ys (px, hx) hy = (px, All-append xs ys hx hy)
