-- ===== src/StringUtil/Decimal.antt =====
-- include/jau/string_util.hpp: `to_decstring` prints the digits of the number, in groups.
use mathlib.Core.Option
use native.Mathlib.Numerals.{unary_clauses}
use jaulib.Prelude.{
  ◌⊎◌, ℕ, zero, suc, ◌+◌, ◌-◌, ◌*◌, ◌/◌, ◌%◌, ◌^◌, ◌≡◌, ◌≤◌, ◌<◌, ◌==◌, refl, ap, sym, ◌∙◌, true,
  false, List, [], ◌∷◌, ◌++◌, append_assoc, append-nil, none, some, ltb, max, length, arith, ℤ, pos,
  magnitude, is_negative, Bool-cases, inl, inr, replicate, lt→ltb, le→ltb_false,
}
use jaulib.Environment.Numbers.{digits}
use jaulib.StringUtil.{Integral, sign, digits10, rem_ten, digit_of, to_decstring}
use jaulib.StringUtil.Writing.{blanks}
use jaulib.StringUtil.Loop.{
  low_digits, grouped, onto, magnitude-signed, digits_loop-grouped, digits_loop_overflows,
}

-- The logarithm of this number without its fraction is exact; there is none of 0.
unfoldable pub IsLog10 : (ℕ → ℕ) → ℕ → Type 0
IsLog10 log10 n = 0 < n → (10 ^ log10 n ≤ n) × (n < 10 ^ (log10 n + 1))

pub pow_suc : (c : ℕ) → 10 ^ suc c ≡ 10 ^ c * 10
pow_suc c = simp unary_clauses

pow_pos : (c : ℕ) → 1 ≤ 10 ^ c
pow_pos zero = omega arith
pow_pos (suc c) = omega (arith, pow_suc c, pow_pos c)

digits_short : (fuel n : ℕ) → n < 10 → digits fuel n ≡ (48 + n) ∷ []
unfolding digits
digits_short zero n h = refl
digits_short (suc fuel) n h = rw (lt→ltb n 10 h)

-- From the lowest digit on, or from the highest.
pub low_digits-digits :
    (c fuel n : ℕ) (tail : List ℕ)
    → n ≤ fuel
    → (c ≡ 0) ⊎ (10 ^ c ≤ n)
    → n < 10 ^ suc c
    → onto (low_digits (suc c) n) tail ≡ digits fuel n ++ tail
unfolding low_digits onto digits
low_digits-digits zero fuel n tail f low high =
    let short : n < 10 = omega arith in
    let whole : n % 10 ≡ n = omega arith in rw (digits_short fuel n short, whole)
low_digits-digits (suc c) zero n tail f (inl e) high = absurd (omega arith)
low_digits-digits (suc c) zero n tail f (inr low) high = absurd (omega (arith, pow_pos (suc c)))
low_digits-digits (suc c) (suc fuel) n tail f (inl e) high = absurd (omega arith)
low_digits-digits (suc c) (suc fuel) n tail f (inr low) high =
    let ten : 10 ≤ n = omega (arith, pow_suc c, pow_pos c) in
    let below : 10 ^ c ≤ n / 10 = omega (arith, pow_suc c) in
    let above : n / 10 < 10 ^ suc c = omega (arith, pow_suc (suc c)) in
    rw (le→ltb_false n 10 ten) (
      low_digits-digits c fuel (n / 10) ((48 + n % 10) ∷ tail) (omega arith) (inr below) above
      ∙ sym (append_assoc (digits fuel (n / 10)) ((48 + n % 10) ∷ []) tail))

length-grouped :
    (separator place : ℕ) (s : List ℕ)
    → length (grouped separator (suc place) s) + place / 3 ≡ length s + (place + length s) / 3
unfolding grouped
length-grouped separator place [] = omega arith
length-grouped separator place (c ∷ s) =
    let step : suc place + 1 ≡ suc (suc place) = omega arith in
    let rest = length-grouped separator (suc place) s in
    let some_place : ltb 0 (suc place) ≡ true = ground arith in
    elim (Bool-cases (0 == suc place % 3)) [
      | inl t ↦
          let third : suc place % 3 ≡ 0 = ground arith in rw (t, step, some_place) (omega arith)
      | inr t ↦
          let no_third : 0 < suc place % 3 = ground arith in rw (t, step, some_place) (omega arith)
    ]

pub length-low_digits : (count n : ℕ) → length (low_digits count n) ≡ count
unfolding low_digits
length-low_digits zero n = refl
length-low_digits (suc count) n = ap suc (length-low_digits count (n / 10))

pub length-grouped_digits :
    (separator c n : ℕ) → length (grouped separator 0 (low_digits (suc c) n)) ≡ suc c + c / 3
unfolding low_digits grouped
length-grouped_digits separator c n =
    omega (arith, length-grouped separator 0 (low_digits c (n / 10)), length-low_digits c (n / 10))

module _ (log10 : ℕ → ℕ) (T : Integral) where
  digit_of_natural : (n : ℤ) → magnitude (digit_of log10 T false n) ≡ magnitude n % 10
  unfolding rem_ten
  digit_of_natural n = magnitude-signed _ (magnitude n % 10)

  sign_natural : (n : ℕ) → is_negative (sign (pos n)) ≡ false
  unfolding sign
  sign_natural n = elim (Bool-cases (n == 0)) [ inl t ↦ rw t | inr t ↦ rw t ]

  -- How many digits there are.
  digits10-natural :
      (n : ℕ)
      → IsLog10 log10 n
      → (c : ℕ) × (digits10 log10 T (pos n) (sign (pos n)) true ≡ suc c)
        × ((c ≡ 0) ⊎ (10 ^ c ≤ n))
        × (n < 10 ^ suc c)
  unfolding digits10 sign IsLog10
  digits10-natural n exact = elim (Bool-cases (n == 0)) [
    | inl t ↦ (0, rw t, inl refl, ground arith)
    | inr t ↦
        let (low, high) = exact (ground arith) in
        let one : log10 n + 1 ≡ suc (log10 n) = omega arith in
        let one' : 1 + log10 n ≡ suc (log10 n) = omega arith in
        (log10 n, rw (t, one'), inr low, rw (sym one) high)
  ]

  -- A number that is not negative is printed by `to_decstring` as its decimal digits, with the
  -- separator between groups of three and blanks in front up to the width, if the logarithm of
  -- that number is exact and the separator is not 0.
  pub to_decstring-digits :
      (n separator width : ℕ)
      → IsLog10 log10 n
      → (0 == separator) ≡ false
      → (low : List ℕ) × (onto low [] ≡ digits n n)
        × (to_decstring log10 T (pos n) separator width
            ≡ some (
                blanks
                  (width - length (grouped separator 0 low))
                  (onto (grouped separator 0 low) [])))
  unfolding to_decstring Option.bind grouped
  to_decstring-digits n separator width exact apart =
      let (c, count, low, high) = digits10-natural n exact in
      let len = length-grouped_digits separator c n in
      let e : List ℕ = grouped separator 0 (low_digits (suc c) n) in
      let total : max width (suc c + (suc c - 1) / 3) ≡ length e + (width - length e) =
        omega (arith, len) in
      let written =
        digits_loop-grouped log10 T separator false digit_of_natural (suc c) 0 (width - length e) n
          (pos n) [] refl in
      let start : replicate (length e + (width - length e)) 32
          ≡ blanks (length e + (width - length e)) [] =
        sym (append-nil _) in
      (
        low_digits (suc c) n,
        low_digits-digits c n n [] (omega arith) low high ∙ append-nil (digits n n),
        rw (sign_natural n, count, apart, total, start, written),
      )

  at_least_three : (c n : ℕ) → 1000 ≤ n → n < 10 ^ suc c → 3 ≤ c
  at_least_three zero n h l = absurd (omega arith)
  at_least_three (suc zero) n h l = absurd (omega arith)
  at_least_three (suc (suc zero)) n h l = absurd (omega arith)
  at_least_three (suc (suc (suc c))) n h l = omega arith

  -- With 0 for the separator, which is to mean none, and no width, `to_decstring` of a number of
  -- four digits or more writes outside of its string, if the logarithm of that number is exact.
  pub to_decstring_overflows :
      (n : ℕ) → IsLog10 log10 n → 1000 ≤ n → to_decstring log10 T (pos n) 0 0 ≡ none
  unfolding to_decstring Option.bind
  to_decstring_overflows n exact long =
      let (c, count, low, high) = digits10-natural n exact in
      let three = at_least_three c n long high in
      let total : max 0 (suc c + 0) ≡ suc c = omega arith in
      let short : suc c < length (grouped 0 0 (low_digits (suc c) n)) =
        omega (arith, length-grouped_digits 0 c n) in
      let overflows =
        digits_loop_overflows log10 T 0 false digit_of_natural (suc c) 0 (suc c) n (pos n) [] refl
          short in
      let start : replicate (suc c) 32 ≡ blanks (suc c) [] = sym (append-nil _) in
      rw (sign_natural n, count, total, start, overflows)
