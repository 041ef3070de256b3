-- ===== src/StringUtil/Negative.antt =====
-- include/jau/string_util.hpp: `to_decstring` of a negative number.
use mathlib.Core.Option
use jaulib.Prelude.{
  ℕ, suc, ◌+◌, ◌-◌, ◌/◌, ◌%◌, ◌≡◌, ◌≤◌, ◌<◌, ◌==◌, refl, sym, ◌∙◌, inr, Bool, true, false, List, [],
  ◌∷◌, append-nil, some, max, length, arith, ℤ, negsuc, magnitude, is_negative, signed, replicate,
  ltb, Bool-cases, inl,
}
use jaulib.Environment.Numbers.{digits}
use jaulib.StringUtil.{
  Integral, same_int, sign, invert_sign, digits10, rem_ten, digit_of, to_decstring,
}
use jaulib.StringUtil.Writing.{blanks, put_back-blanks}
use jaulib.StringUtil.Loop.{low_digits, grouped, onto, magnitude-signed, digits_loop-grouped}
use jaulib.StringUtil.Decimal.{IsLog10, low_digits-digits, length-low_digits, length-grouped_digits}

module _ (log10 : ℕ → ℕ) (T : Integral) (l : ℕ) (lowest : T.lowest ≡ negsuc l) (wide : 9 ≤ l) where
  lowest_differs : (b : Bool) (k : ℕ) → k < 10 → same_int (negsuc l) (signed b k) ≡ false
  lowest_differs false k h = refl
  lowest_differs true k h = elim (Bool-cases (ltb 0 k)) [
    | inl t ↦ let differ : (l == k - 1) ≡ false = ground arith in rw (t, differ)
    | inr t ↦ rw t
  ]

  digit_of_negative : (x : ℤ) → magnitude (digit_of log10 T true x) ≡ magnitude x % 10
  unfolding invert_sign rem_ten
  digit_of_negative x =
      let small : magnitude x % 10 < 10 = omega arith in
      rw (lowest, lowest_differs (is_negative x) (magnitude x % 10) small)
        (magnitude-signed _ (magnitude (rem_ten x))
          ∙ magnitude-signed (is_negative x) (magnitude x % 10))

  digits10-negative :
      (n : ℕ) → n < l → digits10 log10 T (negsuc n) (negsuc 0) true ≡ suc (suc (log10 (n + 1)))
  unfolding digits10 invert_sign
  digits10-negative n h =
      let differ : (l == n) ≡ false = ground arith in
      let sum : 1 + log10 (n + 1) + 1 ≡ suc (suc (log10 (n + 1))) = omega arith in
      rw (lowest, differ, sum)

  -- A negative number that is not the lowest of its type is printed by `to_decstring` as a minus
  -- sign and its decimal digits in groups, with blanks in front up to the width and up to a
  -- length that has a separator for each three digits, one blank too many where their number is a
  -- multiple of three, if the logarithm of its absolute value is exact, the separator is not 0
  -- and the type's lowest number is below -9.
  pub to_decstring-negative :
      (n separator width : ℕ)
      → IsLog10 log10 (n + 1)
      → n < l
      → (0 == separator) ≡ false
      → (low : List ℕ) × (onto low [] ≡ digits (n + 1) (n + 1))
        × (to_decstring log10 T (negsuc n) separator width
            ≡ some (
                blanks
                  (max width (length low + 1 + length low / 3)
                    - (length (grouped separator 0 low) + 1))
                  (45 ∷ onto (grouped separator 0 low) [])))
  unfolding to_decstring Option.bind grouped sign IsLog10 low_digits
  to_decstring-negative n separator width exact below apart =
      let c = log10 (n + 1) in
      let (at_least, at_most) = exact (omega arith) in
      let one : c + 1 ≡ suc c = omega arith in
      let low : List ℕ = low_digits (suc c) (n + 1) in
      let e : List ℕ = grouped separator 0 low in
      let len = length-grouped_digits separator c (n + 1) in
      let len' = length-low_digits (suc c) (n + 1) in
      let more = max width (length low + 1 + length low / 3) - (length e + 1) in
      let total : max width (suc (suc c) + (suc (suc c) - 1) / 3) ≡ length e + suc more =
        omega (arith, len, len') in
      let written =
        digits_loop-grouped log10 T separator true digit_of_negative (suc c) 0 (suc more) (n + 1)
          (negsuc n) [] refl in
      let start : replicate (length e + suc more) 32 ≡ blanks (length e + suc more) [] =
        sym (append-nil _) in
      let less : suc (suc c) - 1 ≡ suc c = omega arith in
      (
        low,
        low_digits-digits c (n + 1) (n + 1) [] (omega arith) (inr at_least) (rw (sym one) at_most)
            ∙ append-nil (digits (n + 1) (n + 1)),
        rw (
          digits10-negative n below,
          apart,
          total,
          less,
          start,
          written,
          put_back-blanks more 45 (onto e []),
        ),
      )
