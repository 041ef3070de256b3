-- ===== src/ByteUtil/Bytes.antt =====
-- Numbers as bytes, for include/jau/byte_util.hpp.
use jaulib.Prelude.{
  ℕ, zero, suc, ◌+◌, ◌*◌, ◌/◌, ◌%◌, ◌^◌, ◌<◌, ◌≡◌, refl, ap, ◌∙◌, List, [], ◌∷◌, ◌++◌, length,
  length-append, arith,
}
use mathlib.Core.List.{reverse, reverse-cons}
use native.Mathlib.Nat.{pow-suc}
use jaulib.ByteUtil.{bytes, value}

-- `n` needs at most `w` bytes.
abbrev pub Fits : ℕ → ℕ → Type 0
Fits w n = n < 256 ^ w

pub value-bytes : (w n : ℕ) → Fits w n → value (bytes w n) ≡ n
unfolding bytes value
value-bytes zero n h = let one : 256 ^ 0 ≡ 1 = omega arith in omega arith
value-bytes (suc w) n h =
    let wider = pow-suc 256 w in let rest = value-bytes w (n / 256) (omega arith) in omega arith

pub length-bytes : (w n : ℕ) → length (bytes w n) ≡ w
unfolding bytes
length-bytes zero n = refl
length-bytes (suc w) n = ap suc (length-bytes w (n / 256))

pub data IsBytes : List ℕ → Type 0 where
  none_left : IsBytes []
  one_more : (b : ℕ) (bs : List ℕ) → b < 256 → IsBytes bs → IsBytes (b ∷ bs)

pub bytes-value : (bs : List ℕ) → IsBytes bs → bytes (length bs) (value bs) ≡ bs
unfolding bytes value
bytes-value [] none_left = refl
bytes-value (b ∷ bs) (one_more _ _ h rest) =
    let low : (b + 256 * value bs) % 256 ≡ b = omega arith in
    let high : (b + 256 * value bs) / 256 ≡ value bs = omega arith in
    rw (low, high, bytes-value bs rest)

pub bytes-IsBytes : (w n : ℕ) → IsBytes (bytes w n)
unfolding bytes
bytes-IsBytes zero n = none_left
bytes-IsBytes (suc w) n = one_more (n % 256) _ (omega arith) (bytes-IsBytes w (n / 256))

pub value-Fits : (bs : List ℕ) → IsBytes bs → Fits (length bs) (value bs)
unfolding value
value-Fits [] none_left = omega arith
value-Fits (b ∷ bs) (one_more _ _ h rest) =
    let wider = pow-suc 256 (length bs) in let small = value-Fits bs rest in omega arith

-- The bytes in reverse are as many bytes.
pub length-reverse {ℓ} : {A : Type ℓ} (xs : List A) → length (reverse xs) ≡ length xs
length-reverse [] = refl
length-reverse (x ∷ xs) =
    rw (reverse-cons x xs) (length-append (reverse xs) (x ∷ []) ∙ omega (arith, length-reverse xs))

IsBytes-append : (xs ys : List ℕ) → IsBytes xs → IsBytes ys → IsBytes (xs ++ ys)
IsBytes-append [] ys none_left h = h
IsBytes-append (x ∷ xs) ys (one_more _ _ b rest) h = one_more x _ b (IsBytes-append xs ys rest h)

pub IsBytes-reverse : (xs : List ℕ) → IsBytes xs → IsBytes (reverse xs)
IsBytes-reverse [] none_left = none_left
IsBytes-reverse (x ∷ xs) (one_more _ _ b rest) =
    rw (reverse-cons x xs)
      (IsBytes-append (reverse xs) (x ∷ []) (IsBytes-reverse xs rest) (one_more x [] b none_left))
