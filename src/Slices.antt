-- ===== src/Slices.antt =====
-- Go's slice expressions on `[]byte`, with the panic of bounds that cross.
use bas_relay_hub.Prelude.{
  ℕ, ◌+◌, ◌-◌, ◌≤◌, ◌<◌, ◌≡◌, ap, ◌∙◌, ◌++◌, Bytes, length, take, drop, length-append, length-take,
  length-drop, take-append, drop-append, arith, leb, le→leb, if◌then◌else◌,
}
use bas_relay_hub.Errors.{Result, ok, panic, slice_bounds}

-- `b[lo : len(b)-k]` of a slice, which panics where the bounds cross
unfoldable pub slice_upto : ℕ → ℕ → Bytes → Result Bytes
slice_upto lo k b =
    if leb (lo + k) (length b)
    then ok (take (length b - k - lo) (drop lo b))
    else panic slice_bounds

-- `b[lo:]` of a slice
unfoldable pub slice_from : ℕ → Bytes → Result Bytes
slice_from lo b = if leb lo (length b) then ok (drop lo b) else panic slice_bounds

-- a slice of bytes that lie between two others
pub slice_upto-append :
    (front middle back : Bytes) (lo k : ℕ)
    → length front ≡ lo
    → length back ≡ k
    → slice_upto lo k (front ++ (middle ++ back)) ≡ ok middle
unfolding slice_upto
slice_upto-append front middle back lo k hf hb =
    let size : length (front ++ (middle ++ back)) ≡ lo + (length middle + k) =
      omega (arith, length-append front (middle ++ back), length-append middle back) in
    rw (size, le→leb (lo + k) (lo + (length middle + k)) (omega arith))
      (ap ok (between ∙ take-append middle back))
  where
    between :
        take (lo + (length middle + k) - k - lo) (drop lo (front ++ (middle ++ back)))
        ≡ take (length middle) (middle ++ back)
    between =
        let n : lo + (length middle + k) - k - lo ≡ length middle = omega arith in
        let d : drop lo (front ++ (middle ++ back)) ≡ middle ++ back =
          rw (← hf) (drop-append front (middle ++ back)) in
        rw (n, d)

pub slice_from-append :
    (front back : Bytes) (k : ℕ)
    → length back ≡ k
    → slice_from (length (front ++ back) - k) (front ++ back) ≡ ok back
unfolding slice_from
slice_from-append front back k h =
    let n : length (front ++ back) - k ≡ length front = omega (arith, length-append front back) in
    let l : length front ≤ length (front ++ back) = omega (arith, length-append front back) in
    rw (n, le→leb _ _ l) (ap ok (drop-append front back))

pub length-slice_upto :
    (lo k : ℕ) (b : Bytes)
    → lo + k ≤ length b
    → (s : Bytes) × (slice_upto lo k b ≡ ok s) × (length s + lo + k ≡ length b)
unfolding slice_upto
length-slice_upto lo k b h = (
  take (length b - k - lo) (drop lo b),
  rw (le→leb (lo + k) (length b) h),
  omega (arith, length-take (length b - k - lo) (drop lo b), length-drop lo b),
)

pub slice_upto_short :
    (lo k : ℕ) (b : Bytes) → length b < lo + k → slice_upto lo k b ≡ panic slice_bounds
unfolding slice_upto
slice_upto_short lo k b h = ground arith
