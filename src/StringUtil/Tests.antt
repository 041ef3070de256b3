-- ===== src/StringUtil/Tests.antt =====
-- include/jau/string_util.hpp: some numbers printed by `to_decstring`.
use jaulib.Prelude.{
  max, ℕ, zero, suc, ◌+◌, ◌-◌, ◌/◌, ◌^◌, ◌≡◌, ◌≤◌, ◌<◌, refl, List, [], ◌∷◌, none, some, length,
  ltb, if◌then◌else◌, arith, pos, negsuc, Bool-cases, inl, inr, ltb→lt, ltb_false→le, sym,
}
use jaulib.Environment.Numbers.{digits}
use jaulib.StringUtil.{Integral, to_decstring}
use jaulib.StringUtil.Writing.{blanks}
use jaulib.StringUtil.Loop.{grouped, onto}
use jaulib.StringUtil.Negative.{to_decstring-negative}
use jaulib.StringUtil.Decimal.{IsLog10, to_decstring-digits, to_decstring_overflows, pow_suc}

abbrev int32 : Integral
int32 = record { lowest = negsuc (2 ^ 31 - 1); highest = pos (2 ^ 31 - 1) }

-- A logarithm that divides.
unfoldable log_fuel : ℕ → ℕ → ℕ
log_fuel zero n = 0
log_fuel (suc fuel) n = let more = log_fuel fuel (n / 10) + 1 in if ltb n 10 then 0 else more

unfoldable log10 : ℕ → ℕ
log10 n = log_fuel n n

log_fuel-IsLog10 :
    (fuel n : ℕ) → n ≤ fuel → 0 < n → (10 ^ log_fuel fuel n ≤ n) × (n < 10 ^ (log_fuel fuel n + 1))
unfolding log_fuel
log_fuel-IsLog10 zero n f h = absurd (omega arith)
log_fuel-IsLog10 (suc fuel) n f h = elim (Bool-cases (ltb n 10)) [
  | inl t ↦ let below = ltb→lt n 10 t in rw t (omega arith, omega arith)
  | inr t ↦
      let above = ltb_false→le n 10 t in
      let (low, high) = log_fuel-IsLog10 fuel (n / 10) (omega arith) (omega arith) in
      let l = log_fuel fuel (n / 10) in
      let one : l + 1 ≡ suc l = omega arith in
      let two : l + 1 + 1 ≡ suc (suc l) = omega arith in
      let power = pow_suc l in
      let power' = pow_suc (suc l) in
      let high' : n / 10 < 10 ^ suc l = rw (sym one) high in
      let low'' : 10 ^ suc l ≤ n = omega arith in
      let high'' : n < 10 ^ suc (suc l) = omega arith in rw t (rw one low'', rw two high'')
]

log10-IsLog10 : (n : ℕ) → IsLog10 log10 n
unfolding IsLog10 log10
log10-IsLog10 n h = log_fuel-IsLog10 n n (omega arith) h

to_decstring-digits_example :
    (low : List ℕ) × (onto low [] ≡ digits 1234 1234)
    × (to_decstring log10 int32 (pos 1234) 44 8
        ≡ some (blanks (8 - length (grouped 44 0 low)) (onto (grouped 44 0 low) [])))
to_decstring-digits_example = to_decstring-digits log10 int32 1234 44 8 (log10-IsLog10 1234) refl

to_decstring_overflows_example : to_decstring log10 int32 (pos 1234) 0 0 ≡ none
to_decstring_overflows_example =
    to_decstring_overflows log10 int32 1234 (log10-IsLog10 1234) (omega arith)

to_decstring-negative_example :
    (low : List ℕ) × (onto low [] ≡ digits 123 123)
    × (to_decstring log10 int32 (negsuc 122) 44 0
        ≡ some (
            blanks
              (max 0 (length low + 1 + length low / 3) - (length (grouped 44 0 low) + 1))
              (45 ∷ onto (grouped 44 0 low) [])))
to_decstring-negative_example =
    to_decstring-negative log10 int32 (2 ^ 31 - 1) refl (omega arith) 122 44 0 (log10-IsLog10 123)
      (omega arith) refl

-- "   1,234", and " -123", where the sign is counted for a digit that a separator stands before
positive_runs :
    to_decstring log10 int32 (pos 1234) 44 8 ≡ some (32 ∷ 32 ∷ 32 ∷ 49 ∷ 44 ∷ 50 ∷ 51 ∷ 52 ∷ [])
unfolding to_decstring log10 mathlib.Core.Option.bind jaulib.StringUtil.digits_loop
    jaulib.StringUtil.sign jaulib.StringUtil.digits10 log_fuel jaulib.StringUtil.invert_sign
    jaulib.StringUtil.put_separator jaulib.StringUtil.put_back jaulib.StringUtil.rem_ten
    jaulib.StringUtil.div_ten
positive_runs = refl

negative_runs : to_decstring log10 int32 (negsuc 122) 44 0 ≡ some (32 ∷ 45 ∷ 49 ∷ 50 ∷ 51 ∷ [])
unfolding to_decstring log10 mathlib.Core.Option.bind jaulib.StringUtil.digits_loop
    jaulib.StringUtil.sign jaulib.StringUtil.digits10 log_fuel jaulib.StringUtil.invert_sign
    jaulib.StringUtil.put_separator jaulib.StringUtil.put_back jaulib.StringUtil.rem_ten
    jaulib.StringUtil.div_ten
negative_runs = refl
