-- ===== src/Utf8/Automaton.antt =====
-- src/dfa_utf8_decode.cpp: what the tables say of each range of bytes, by a check of every byte.
use jaulib.Prelude.{
  all_from, all_from-at, ℕ, ◌+◌, ◌-◌, ◌*◌, ◌/◌, ◌%◌, ◌^◌, ◌≤◌, ◌<◌, ◌≡◌, refl, ap, ◌∙◌, true, false,
  ◌==◌, ==_iff, arith,
}
use jaulib.Utf8.{class_of, next_state, Decoder, step, accept}

-- The state after a byte of a range.
pub transition :
    (state first count target b : ℕ)
    → all_from (λ n. next_state state n == target) first count ≡ true
    → first ≤ b
    → b < first + count
    → next_state state b ≡ target
transition state first count target b h k l =
    (==_iff _ _).0 (all_from-at (λ n. next_state state n == target) count first b h k l)

class-at :
    (first count class b : ℕ)
    → all_from (λ n. class_of n == class) first count ≡ true
    → first ≤ b
    → b < first + count
    → class_of b ≡ class
class-at first count class b h k l =
    (==_iff _ _).0 (all_from-at (λ n. class_of n == class) count first b h k l)

abbrev pub decoder : ℕ → ℕ → Decoder
decoder s c = record { state = s; codep = c }

-- A first byte of one of the classes.
first-step :
    (class target b unset : ℕ)
    → class_of b ≡ class
    → next_state 0 b ≡ target
    → step (decoder accept unset) b ≡ decoder target (b % (255 / 2 ^ class + 1))
unfolding step
first-step class target b unset e f = rw (e, f)

-- One class at a time.
pub ascii-step : (b unset : ℕ) → b < 128 → step (decoder accept unset) b ≡ decoder accept b
unfolding all_from next_state class_of
ascii-step b unset h =
    first-step 0 0 b unset (class-at 0 128 0 b refl (omega arith) (omega arith))
      (transition 0 0 128 0 b refl (omega arith) (omega arith))
    ∙ ap (decoder 0) (let e : b % 256 ≡ b = omega arith in e)

pub two-step :
    (b unset : ℕ) → 194 ≤ b → b < 224 → step (decoder accept unset) b ≡ decoder 24 (b - 192)
unfolding all_from next_state class_of
two-step b unset h k =
    first-step 2 24 b unset (class-at 194 30 2 b refl (omega arith) (omega arith))
      (transition 0 194 30 24 b refl (omega arith) (omega arith))
    ∙ ap (decoder 24) (let e : b % 64 ≡ b - 192 = omega arith in e)

pub three-step :
    (b unset : ℕ) → 225 ≤ b → b < 237 → step (decoder accept unset) b ≡ decoder 36 (b - 224)
unfolding all_from next_state class_of
three-step b unset h k =
    first-step 3 36 b unset (class-at 225 12 3 b refl (omega arith) (omega arith))
      (transition 0 225 12 36 b refl (omega arith) (omega arith))
    ∙ ap (decoder 36) (let e : b % 32 ≡ b - 224 = omega arith in e)

pub three-step_high :
    (b unset : ℕ) → 238 ≤ b → b < 240 → step (decoder accept unset) b ≡ decoder 36 (b - 224)
unfolding all_from next_state class_of
three-step_high b unset h k =
    first-step 3 36 b unset (class-at 238 2 3 b refl (omega arith) (omega arith))
      (transition 0 238 2 36 b refl (omega arith) (omega arith))
    ∙ ap (decoder 36) (let e : b % 32 ≡ b - 224 = omega arith in e)

pub four-step :
    (b unset : ℕ) → 241 ≤ b → b < 244 → step (decoder accept unset) b ≡ decoder 84 (b - 240)
unfolding all_from next_state class_of
four-step b unset h k =
    first-step 6 84 b unset (class-at 241 3 6 b refl (omega arith) (omega arith))
      (transition 0 241 3 84 b refl (omega arith) (omega arith))
    ∙ ap (decoder 84) (let e : b % 4 ≡ b - 240 = omega arith in e)

-- The first bytes after which not every byte may follow.
pub overlong3_lead : (unset : ℕ) → step (decoder accept unset) 224 ≡ decoder 48 0
unfolding step next_state class_of
overlong3_lead unset = refl

pub surrogate_lead : (unset : ℕ) → step (decoder accept unset) 237 ≡ decoder 60 13
unfolding step next_state class_of
surrogate_lead unset = refl

pub overlong4_lead : (unset : ℕ) → step (decoder accept unset) 240 ≡ decoder 72 0
unfolding step next_state class_of
overlong4_lead unset = refl

pub above_lead : (unset : ℕ) → step (decoder accept unset) 244 ≡ decoder 96 4
unfolding step next_state class_of
above_lead unset = refl

-- A byte that goes on.
more-step :
    (s target b c : ℕ)
    → (s == 0) ≡ false
    → next_state s b ≡ target
    → 128 ≤ b
    → b < 192
    → c < 2 ^ 26
    → step (decoder s c) b ≡ decoder target (b - 128 + c * 64)
unfolding step
more-step s target b c n e h k l =
    rw (n, e)
      (ap (decoder target)
        (let e : b % 64 + c * 2 ^ 6 % 2 ^ 32 ≡ b - 128 + c * 64 = omega arith in e))

module _ (b c : ℕ) (h : 128 ≤ b) (k : b < 192) (l : c < 2 ^ 26) where
  pub last-step : step (decoder 24 c) b ≡ decoder accept (b - 128 + c * 64)
  unfolding all_from next_state class_of
  last-step = more-step 24 0 b c refl (transition 24 128 64 0 b refl h (omega arith)) h k l

  pub second_last-step : step (decoder 36 c) b ≡ decoder 24 (b - 128 + c * 64)
  unfolding all_from next_state class_of
  second_last-step = more-step 36 24 b c refl (transition 36 128 64 24 b refl h (omega arith)) h k l

  pub third_last-step : step (decoder 84 c) b ≡ decoder 36 (b - 128 + c * 64)
  unfolding all_from next_state class_of
  third_last-step = more-step 84 36 b c refl (transition 84 128 64 36 b refl h (omega arith)) h k l

  -- After 224, 237, 240 and 244 not every byte may follow.
  pub not_overlong3-step : 160 ≤ b → step (decoder 48 c) b ≡ decoder 24 (b - 128 + c * 64)
  unfolding all_from next_state class_of
  not_overlong3-step m =
      more-step 48 24 b c refl (transition 48 160 32 24 b refl m (omega arith)) h k l

  pub not_surrogate-step : b < 160 → step (decoder 60 c) b ≡ decoder 24 (b - 128 + c * 64)
  unfolding all_from next_state class_of
  not_surrogate-step m =
      more-step 60 24 b c refl (transition 60 128 32 24 b refl h (omega arith)) h k l

  pub not_overlong4-step : 144 ≤ b → step (decoder 72 c) b ≡ decoder 36 (b - 128 + c * 64)
  unfolding all_from next_state class_of
  not_overlong4-step m =
      more-step 72 36 b c refl (transition 72 144 48 36 b refl m (omega arith)) h k l

  pub not_above-step : b < 144 → step (decoder 96 c) b ≡ decoder 36 (b - 128 + c * 64)
  unfolding all_from next_state class_of
  not_above-step m = more-step 96 36 b c refl (transition 96 128 16 36 b refl h (omega arith)) h k l
