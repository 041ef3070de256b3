-- ===== src/StringUtil.antt =====
-- include/jau/string_util.hpp, `to_decstring`, and what it uses of include/jau/int_math.hpp: decimal
-- numbers with separators between groups of three digits. A character is its code.
pub mod Writing
pub mod Loop
pub mod Decimal
pub mod Negative
mod Tests
use jaulib.Prelude.{
  ℕ, zero, suc, ◌+◌, ◌-◌, ◌*◌, ◌/◌, ◌%◌, ◌==◌, ◌&&◌, Bool, true, false, not, List, [], ◌∷◌, Option,
  none, some, ltb, max, if◌then◌else◌, length, set, replicate, ℤ, pos, negsuc, magnitude,
  is_negative, signed,
}
use mathlib.Core.Option

-- `std::numeric_limits` of the type of the value.
pub record Integral : Type 0 where
  pub lowest : ℤ
  pub highest : ℤ

abbrev pub same_int : ℤ → ℤ → Bool
same_int (pos a) (pos b) = a == b
same_int (pos a) (negsuc b) = false
same_int (negsuc a) (pos b) = false
same_int (negsuc a) (negsuc b) = a == b

-- `sign`
unfoldable pub sign : ℤ → ℤ
sign (pos n) = if n == 0 then pos 0 else pos 1
sign (negsuc n) = negsuc 0

-- `n % 10` and `n / 10`, which truncate towards zero
unfoldable pub rem_ten : ℤ → ℤ
rem_ten n = signed (is_negative n) (magnitude n % 10)

unfoldable pub div_ten : ℤ → ℤ
div_ten n = signed (is_negative n) (magnitude n / 10)

-- `res[total_chars-1-char_iter] = c`: the index wraps round, and is outside of the string, where
-- `char_iter` is not below its length.
unfoldable pub put_back : ℕ → ℕ → List ℕ → Option (List ℕ)
put_back char_iter c res =
    if ltb char_iter (length res) then some (set res (length res - 1 - char_iter) c) else none

module _ (log10 : ℕ → ℕ) (T : Integral) where
  -- `invert_sign`
  unfoldable pub invert_sign : ℤ → ℤ
  invert_sign x =
      if same_int T.lowest x then T.highest else signed (not (is_negative x)) (magnitude x)

  -- `digits10`; `log10` is `std::log10` without its fraction.
  unfoldable pub digits10 : ℤ → ℤ → Bool → ℕ
  digits10 x x_sign sign_is_digit =
      if same_int x_sign (pos 0)
      then 1
      else if is_negative x_sign
      then 1 + log10 (magnitude (invert_sign x)) + (if sign_is_digit then 1 else 0)
      else 1 + log10 (magnitude x)

  -- The separator before a digit.
  unfoldable pub put_separator : ℕ → ℕ → ℕ → List ℕ → Option (ℕ × List ℕ)
  put_separator separator digit10_iter char_iter res =
      let put =
        Option.map (λ (r : List ℕ). (char_iter + 1, r)) (put_back char_iter separator res) in
      if ltb 0 digit10_iter && (0 == digit10_iter % 3) then put else some (char_iter, res)

  abbrev pub digit_of : Bool → ℤ → ℤ
  digit_of negative n = if negative then invert_sign (rem_ten n) else rem_ten n

  -- The loop over the digits, `count` of them left.
  unfoldable pub digits_loop : ℕ → ℕ → Bool → ℕ → ℤ → ℕ → List ℕ → Option (ℕ × List ℕ)
  digits_loop zero separator negative digit10_iter n char_iter res = some (char_iter, res)
  digits_loop (suc count) separator negative digit10_iter n char_iter res =
      Option.bind (put_separator separator digit10_iter char_iter res) (λ state.
        Option.bind (put_back state.0 (48 + magnitude (digit_of negative n)) state.1) (λ res'.
          digits_loop count separator negative (digit10_iter + 1) (div_ten n) (state.0 + 1) res'))

  -- `to_decstring`; none is a write outside of the string.
  unfoldable pub to_decstring : ℤ → ℕ → ℕ → Option (List ℕ)
  to_decstring v separator width =
      let v_sign = sign v in
      let digit10_count1 = digits10 v v_sign true in
      let digit10_count2 = if is_negative v_sign then digit10_count1 - 1 else digit10_count1 in
      let comma_count = if 0 == separator then 0 else (digit10_count1 - 1) / 3 in
      let total_chars = max width (digit10_count1 + comma_count) in
      Option.bind
        (digits_loop digit10_count2 separator (is_negative v_sign) 0 v 0 (replicate total_chars 32))
        (λ state. if is_negative v_sign then put_back state.0 45 state.1 else some state.1)
