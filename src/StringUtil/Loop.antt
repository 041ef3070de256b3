-- ===== src/StringUtil/Loop.antt =====
-- include/jau/string_util.hpp: the loop of `to_decstring` writes the digits in groups of three.
use mathlib.Core.Option
use jaulib.Prelude.{
  ℕ, zero, suc, ◌+◌, ◌-◌, ◌/◌, ◌%◌, ◌≡◌, ◌<◌, ◌==◌, ◌&&◌, refl, ap, ◌∙◌, Bool, true, false, List,
  [], ◌∷◌, none, some, ltb, if◌then◌else◌, length, arith, ℤ, magnitude, is_negative, signed,
  Bool-cases, inl, inr,
}
use jaulib.StringUtil.{Integral, div_ten, put_back, put_separator, digit_of, digits_loop}
use jaulib.StringUtil.Writing.{blanks, put_back-blanks, put_back_full}

-- The lowest digits, lowest first.
unfoldable pub low_digits : ℕ → ℕ → List ℕ
low_digits zero m = []
low_digits (suc count) m = (48 + m % 10) ∷ low_digits count (m / 10)

-- Digits, lowest first, with a separator behind each group of three, from the place of the first one on.
unfoldable pub grouped : ℕ → ℕ → List ℕ → List ℕ
grouped separator place [] = []
grouped separator place (c ∷ s) =
    let rest = c ∷ grouped separator (place + 1) s in
    if ltb 0 place && (0 == place % 3) then separator ∷ rest else rest

-- The characters in front of the others, in reverse.
unfoldable pub onto : List ℕ → List ℕ → List ℕ
onto [] tail = tail
onto (c ∷ s) tail = onto s (c ∷ tail)

pub magnitude-signed : (b : Bool) (n : ℕ) → magnitude (signed b n) ≡ n
magnitude-signed false n = refl
magnitude-signed true zero = refl
magnitude-signed true (suc n) =
    let above : ltb 0 (suc n) ≡ true = ground arith in
    let back : suc n - 1 + 1 ≡ suc n = omega arith in rw (above, back)

module _ (log10 : ℕ → ℕ) (T : Integral) (separator : ℕ) (negative : Bool)
    (digit : (n : ℤ) → magnitude (digit_of log10 T negative n) ≡ magnitude n % 10) where
  div_ten-magnitude : (n : ℤ) → magnitude (div_ten n) ≡ magnitude n / 10
  unfolding div_ten
  div_ten-magnitude n = magnitude-signed (is_negative n) (magnitude n / 10)

  -- The digit, and what follows it.
  digit_step :
      (count place k m : ℕ) (n : ℤ) (tail : List ℕ)
      → magnitude n ≡ m
      → Option.bind
          (put_back
            (length tail)
            (48 + magnitude (digit_of log10 T negative n))
            (blanks (suc k) tail))
          (λ res.
            digits_loop log10 T count separator negative
              (place + 1)
              (div_ten n)
              (length tail + 1)
              res)
        ≡ digits_loop log10 T count separator negative
            (place + 1)
            (div_ten n)
            (length ((48 + m % 10) ∷ tail))
            (blanks k ((48 + m % 10) ∷ tail))
  unfolding Option.bind digits_loop
  digit_step count place k m n tail e =
      let next : length tail + 1 ≡ suc (length tail) = omega arith in
      rw (digit n, e, put_back-blanks k (48 + m % 10) tail, next)

  separator_step :
      (place k : ℕ) (tail : List ℕ)
      → (ltb 0 place && (0 == place % 3)) ≡ true
      → put_separator log10 T separator place (length tail) (blanks (suc k) tail)
        ≡ some (length (separator ∷ tail), blanks k (separator ∷ tail))
  unfolding put_separator
  separator_step place k tail t =
      let next : length tail + 1 ≡ suc (length tail) = omega arith in
      rw (t, put_back-blanks k separator tail, next)

  no_separator :
      (place i : ℕ) (res : List ℕ)
      → (ltb 0 place && (0 == place % 3)) ≡ false
      → put_separator log10 T separator place i res ≡ some (i, res)
  unfolding put_separator
  no_separator place i res t = rw t

  -- With as many blanks as there are characters to write, and more, they are written.
  pub digits_loop-grouped :
      (count place more m : ℕ) (n : ℤ) (tail : List ℕ)
      → magnitude n ≡ m
      → digits_loop log10 T count separator negative place n
          (length tail)
          (blanks (length (grouped separator place (low_digits count m)) + more) tail)
        ≡ some (
          length (onto (grouped separator place (low_digits count m)) tail),
          blanks more (onto (grouped separator place (low_digits count m)) tail),
        )
  unfolding digits_loop grouped low_digits onto put_back Option.bind
  digits_loop-grouped zero place more m n tail e =
      let nothing : 0 + more ≡ more = omega arith in rw nothing
  digits_loop-grouped (suc count) place more m n tail e =
      let rest : List ℕ = grouped separator (place + 1) (low_digits count (m / 10)) in
      let left : magnitude (div_ten n) ≡ m / 10 = div_ten-magnitude n ∙ ap (λ i. i / 10) e in
      let d : ℕ = 48 + m % 10 in
      elim (Bool-cases (ltb 0 place && (0 == place % 3))) [
        | inl t ↦
            let two : suc (suc (length rest)) + more ≡ suc (suc (length rest + more)) =
              omega arith in
            rw (t, two, separator_step place (suc (length rest + more)) tail t)
              (digit_step count place (length rest + more) m n (separator ∷ tail) e
                ∙ digits_loop-grouped count (place + 1) more (m / 10) (div_ten n)
                    (d ∷ separator ∷ tail) left)
        | inr t ↦
            let one : suc (length rest) + more ≡ suc (length rest + more) = omega arith in
            rw (t, one, no_separator place (length tail) (blanks (suc (length rest + more)) tail) t)
              (digit_step count place (length rest + more) m n tail e
                ∙ digits_loop-grouped count (place + 1) more (m / 10) (div_ten n) (d ∷ tail) left)
      ]

  -- A digit without a blank left for it is written outside of the string.
  digit_full :
      (count place m : ℕ) (n : ℤ) (tail : List ℕ)
      → Option.bind
          (put_back (length tail) (48 + magnitude (digit_of log10 T negative n)) tail)
          (λ res.
            digits_loop log10 T count separator negative
              (place + 1)
              (div_ten n)
              (length tail + 1)
              res)
        ≡ none
  unfolding Option.bind digits_loop
  digit_full count place m n tail =
      rw (put_back_full (48 + magnitude (digit_of log10 T negative n)) tail)

  separator_full :
      (place : ℕ) (tail : List ℕ)
      → (ltb 0 place && (0 == place % 3)) ≡ true
      → put_separator log10 T separator place (length tail) tail ≡ none
  unfolding put_separator
  separator_full place tail t = rw (t, put_back_full separator tail)

  -- With `k` blanks left for a digit and for what follows it.
  digit_overflows :
      (count place k m : ℕ) (n : ℤ) (tail : List ℕ)
      → magnitude n ≡ m
      → k < suc (length (grouped separator (place + 1) (low_digits count (m / 10))))
      → ((j : ℕ)
          → j < length (grouped separator (place + 1) (low_digits count (m / 10)))
          → digits_loop log10 T count separator negative
              (place + 1)
              (div_ten n)
              (length ((48 + m % 10) ∷ tail))
              (blanks j ((48 + m % 10) ∷ tail))
            ≡ none)
      → Option.bind
          (put_back (length tail) (48 + magnitude (digit_of log10 T negative n)) (blanks k tail))
          (λ res.
            digits_loop log10 T count separator negative
              (place + 1)
              (div_ten n)
              (length tail + 1)
              res)
        ≡ none
  digit_overflows count place zero m n tail e h rest = digit_full count place m n tail
  digit_overflows count place (suc k) m n tail e h rest =
      digit_step count place k m n tail e ∙ rest k (omega arith)

  -- With fewer blanks than there are characters to write, one is written outside of the string.
  pub digits_loop_overflows :
      (count place k m : ℕ) (n : ℤ) (tail : List ℕ)
      → magnitude n ≡ m
      → k < length (grouped separator place (low_digits count m))
      → digits_loop log10 T count separator negative place n (length tail) (blanks k tail) ≡ none
  unfolding digits_loop grouped low_digits put_back Option.bind
  digits_loop_overflows zero place k m n tail e h = absurd (omega arith)
  digits_loop_overflows (suc count) place zero m n tail e h =
      elim (Bool-cases (ltb 0 place && (0 == place % 3))) [
        | inl t ↦ rw (separator_full place tail t)
        | inr t ↦ rw (no_separator place (length tail) tail t) (digit_full count place m n tail)
      ]
  digits_loop_overflows (suc count) place (suc k) m n tail e h =
      let rest : List ℕ = grouped separator (place + 1) (low_digits count (m / 10)) in
      let left : magnitude (div_ten n) ≡ m / 10 = div_ten-magnitude n ∙ ap (λ i. i / 10) e in
      let d : ℕ = 48 + m % 10 in
      elim (Bool-cases (ltb 0 place && (0 == place % 3))) [
        | inl t ↦
            let len : length (grouped separator place (low_digits (suc count) m))
                ≡ suc (suc (length rest)) =
              rw t in
            rw (separator_step place k tail t) (
              digit_overflows count place k m n (separator ∷ tail) e (omega (arith, len)) (λ j l.
                digits_loop_overflows count (place + 1) j (m / 10) (div_ten n)
                  (d ∷ separator ∷ tail) left l))
        | inr t ↦
            let len : length (grouped separator place (low_digits (suc count) m))
                ≡ suc (length rest) =
              rw t in
            rw (no_separator place (length tail) (blanks (suc k) tail) t) (
              digit_step count place k m n tail e
              ∙ digits_loop_overflows count (place + 1) k (m / 10) (div_ten n) (d ∷ tail) left
                  (omega (arith, len)))
      ]
