-- ===== src/Environment/Numbers.antt =====
-- src/environment.cpp: numbers in the environment, written in decimal digits, and the bounds of
-- `getInt32Property` and `getUint32Property`.
use jaulib.Prelude.{
  ℕ, zero, suc, ◌+◌, ◌-◌, ◌*◌, ◌/◌, ◌%◌, ◌^◌, ◌≡◌, ◌≤◌, ◌<◌, refl, ap, ◌∙◌, Bool, true, false, ◌&&◌,
  [], ◌∷◌, ◌++◌, append_assoc, append-nil, sym, some, ltb, leb, if◌then◌else◌, arith, ℤ, pos,
  negsuc, leℤ, magnitude, ◌⊎◌, Bool-cases, inl, inr, ltb→lt, ltb_false→le, and_left, and_right,
  length, ◌==◌,
}
use jaulib.BasicTypes.{drop_spaces}
use jaulib.Environment.{
  Text, Environment, getenv, get_property, isspace, starts_with_digit, read_digits, read_sign,
  read_number, strtol, strtoul, int32_min, int32_max, get_int32_property, get_uint32_property,
}

-- Between two bounds, both included.
unfoldable pub IsBetween : ℤ → ℤ → ℤ → Type 0
IsBetween low high z = (leℤ low z ≡ true) × (leℤ z high ≡ true)

-- The digits of a number below `10 ^ fuel`, highest first.
unfoldable pub digits : ℕ → ℕ → Text
digits zero n = (48 + n) ∷ []
digits (suc fuel) n =
    let more = digits fuel (n / 10) ++ ((48 + n % 10) ∷ []) in
    if ltb n 10 then (48 + n) ∷ [] else more

-- An integer as one writes it, with no sign in front unless it is negative.
unfoldable pub decimal : ℤ → Text
decimal (pos n) = digits n n
decimal (negsuc n) = 45 ∷ digits (n + 1) (n + 1)

read_digits_step :
    (a n : ℕ) (ys : Text) → n < 10 → read_digits a ((48 + n) ∷ ys) ≡ read_digits (a * 10 + n) ys
unfolding read_digits
read_digits_step a n ys h =
    let low : leb 48 (48 + n) ≡ true = ground arith in
    let high : leb (48 + n) 57 ≡ true = ground arith in
    let back : 48 + n - 48 ≡ n = omega arith in rw (low, high, back)

read_digits-digits :
    (fuel n : ℕ) (ys : Text) → n ≤ fuel → read_digits 0 (digits fuel n ++ ys) ≡ read_digits n ys
unfolding digits
read_digits-digits zero n ys h =
    read_digits_step 0 n ys (omega arith)
    ∙ ap (λ m. read_digits m ys) (let e : 0 * 10 + n ≡ n = omega arith in e)
read_digits-digits (suc fuel) n ys h = elim (Bool-cases (ltb n 10)) [
  | inl t ↦ rw t (
      read_digits_step 0 n ys (ltb→lt n 10 t)
      ∙ ap (λ m. read_digits m ys) (let e : 0 * 10 + n ≡ n = omega arith in e))
  | inr t ↦
      let above : 10 ≤ n = ltb_false→le n 10 t in
      let unfolded : n / 10 * 10 + n % 10 ≡ n = omega arith in
      rw t (
        ap (read_digits 0) (append_assoc (digits fuel (n / 10)) ((48 + n % 10) ∷ []) ys)
        ∙ read_digits-digits fuel (n / 10) ((48 + n % 10) ∷ ys) (omega arith)
        ∙ read_digits_step (n / 10) (n % 10) ys (omega arith)
        ∙ ap (λ m. read_digits m ys) unfolded)
]

starts_with_digit_step : (n : ℕ) (ys : Text) → n < 10 → starts_with_digit ((48 + n) ∷ ys) ≡ true
starts_with_digit_step n ys h = ground arith

starts_with_digit-digits :
    (fuel n : ℕ) (ys : Text) → n ≤ fuel → starts_with_digit (digits fuel n ++ ys) ≡ true
unfolding digits
starts_with_digit-digits zero n ys h = ground arith
starts_with_digit-digits (suc fuel) n ys h = elim (Bool-cases (ltb n 10)) [
  | inl t ↦ let below = ltb→lt n 10 t in rw t (starts_with_digit_step n ys below)
  | inr t ↦
      let above : 10 ≤ n = ltb_false→le n 10 t in
      rw t (
        ap starts_with_digit (append_assoc (digits fuel (n / 10)) ((48 + n % 10) ∷ []) ys)
        ∙ starts_with_digit-digits fuel (n / 10) ((48 + n % 10) ∷ ys) (omega arith))
]

-- A digit is no space and no sign.
drop_spaces-digit : (s : Text) → starts_with_digit s ≡ true → drop_spaces isspace s ≡ s
unfolding drop_spaces isspace
drop_spaces-digit [] h = refl
drop_spaces-digit (c ∷ s) h = ground arith

read_sign-digit : (s : Text) → starts_with_digit s ≡ true → read_sign s ≡ (false, s)
unfolding read_sign
read_sign-digit [] h = refl
read_sign-digit (c ∷ s) h = ground arith

-- What is read of a text that is only digits, or a minus sign and digits.
read_number-digits :
    (s : Text) (n : ℕ)
    → starts_with_digit s ≡ true
    → read_digits 0 s ≡ (n, [])
    → read_number s ≡ ((false, n), [])
unfolding read_number
read_number-digits s n h e = rw (drop_spaces-digit s h, read_sign-digit s h, e, h)

read_number-minus :
    (s : Text) (n : ℕ)
    → starts_with_digit s ≡ true
    → read_digits 0 s ≡ (n, [])
    → read_number (45 ∷ s) ≡ ((true, n), [])
unfolding read_number drop_spaces isspace read_sign
read_number-minus s n h e = rw (e, h)

digits-nil : (n : ℕ) → digits n n ++ [] ≡ digits n n
digits-nil n = append-nil (digits n n)

digits_read : (n : ℕ) → read_digits 0 (digits n n) ≡ (n, [])
unfolding read_digits
digits_read n = ap (read_digits 0) (sym (digits-nil n)) ∙ read_digits-digits n n [] (omega arith)

digits_start : (n : ℕ) → starts_with_digit (digits n n) ≡ true
digits_start n =
    ap starts_with_digit (sym (digits-nil n)) ∙ starts_with_digit-digits n n [] (omega arith)

-- Reading back what was written.
strtol-decimal :
    (z : ℤ) → IsBetween (negsuc (2 ^ 63 - 1)) (pos (2 ^ 63 - 1)) z → strtol (decimal z) ≡ (z, [])
unfolding strtol decimal IsBetween
strtol-decimal (pos n) (low, high) =
    let fits : ltb n (2 ^ 63) ≡ true = ground arith in
    rw (read_number-digits (digits n n) n (digits_start n) (digits_read n), fits)
strtol-decimal (negsuc n) (low, high) =
    let fits : ltb (2 ^ 63) (n + 1) ≡ false = ground arith in
    let back : n + 1 - 1 ≡ n = omega arith in
    let above : ltb 0 (n + 1) ≡ true = ground arith in
    rw (
      read_number-minus (digits (n + 1) (n + 1)) (n + 1) (digits_start (n + 1))
          (digits_read (n + 1)),
      fits,
      above,
      back,
    )

strtoul-decimal_pos : (n : ℕ) → n < 2 ^ 64 → strtoul (decimal (pos n)) ≡ (n, [])
unfolding strtoul decimal
strtoul-decimal_pos n h =
    let fits : leb (2 ^ 64) n ≡ false = ground arith in
    rw (read_number-digits (digits n n) n (digits_start n) (digits_read n), fits)

strtoul-decimal_negsuc :
    (n : ℕ) → n + 1 < 2 ^ 64 → strtoul (decimal (negsuc n)) ≡ (2 ^ 64 - 1 - n, [])
unfolding strtoul decimal
strtoul-decimal_negsuc n h =
    let fits : leb (2 ^ 64) (n + 1) ≡ false = ground arith in
    let back : (2 ^ 64 - (n + 1)) % 2 ^ 64 ≡ 2 ^ 64 - 1 - n = omega arith in
    rw (
      read_number-minus (digits (n + 1) (n + 1)) (n + 1) (digits_start (n + 1))
          (digits_read (n + 1)),
      fits,
      back,
    )

length-starting : (s : Text) → starts_with_digit s ≡ true → (length s == 0) ≡ false
length-starting [] h = sym h
length-starting (c ∷ s) h = ground arith

length-decimal : (z : ℤ) → (length (decimal z) == 0) ≡ false
unfolding decimal
length-decimal (pos n) = length-starting (digits n n) (digits_start n)
length-decimal (negsuc n) = ground arith

pub get_property-found :
    (name value : Text) (env : Environment)
    → getenv name env ≡ some value
    → get_property name env ≡ value
unfolding get_property
get_property-found name value env h = rw (h, get_property)

int32_is_int64 :
    (z : ℤ) → IsBetween int32_min int32_max z → IsBetween (negsuc (2 ^ 63 - 1)) (pos (2 ^ 63 - 1)) z
unfolding IsBetween
int32_is_int64 (pos n) (above, below) = (refl, ground arith)
int32_is_int64 (negsuc n) (above, below) = (ground arith, refl)

-- A property that is an integer of 32 bits, written in decimal digits, is that integer if it is
-- within the bounds that are allowed, and the default otherwise.
pub get_int32_property-decimal :
    (name : Text) (default_value low high z : ℤ) (env : Environment)
    → getenv name env ≡ some (decimal z)
    → IsBetween int32_min int32_max z
    → get_int32_property name default_value low high env
      ≡ (if leℤ low z && leℤ z high then z else default_value)
unfolding get_int32_property IsBetween
get_int32_property-decimal name default_value low high z env h (above, below) = rw (
  get_property-found name (decimal z) env h,
  length-decimal z,
  strtol-decimal z (int32_is_int64 z (above, below)),
  above,
  below,
)

-- The number of 64 bits that `strtoul` takes an integer for.
abbrev pub wrapped : ℤ → ℕ
wrapped (pos n) = n
wrapped (negsuc n) = 2 ^ 64 - 1 - n

strtoul-decimal : (z : ℤ) → magnitude z < 2 ^ 64 → strtoul (decimal z) ≡ (wrapped z, [])
strtoul-decimal (pos n) h = strtoul-decimal_pos n h
strtoul-decimal (negsuc n) h = strtoul-decimal_negsuc n h

if_and :
    {A : Type 0} (a b : Bool) (x y : A)
    → (if a then (if b then x else y) else y) ≡ (if a && b then x else y)
if_and true b x y = refl
if_and false b x y = refl

-- A property that is an integer in decimal digits, of a magnitude below 2^64, stands for that
-- integer modulo 2^64, a negative one too: the result is this number if it is one of 32 bits within
-- the bounds that are allowed, and the default otherwise.
pub get_uint32_property-decimal :
    (name : Text) (default_value low high : ℕ) (z : ℤ) (env : Environment)
    → getenv name env ≡ some (decimal z)
    → magnitude z < 2 ^ 64
    → get_uint32_property name default_value low high env ≡ (
        if leb (wrapped z) (2 ^ 32 - 1) && (leb low (wrapped z) && leb (wrapped z) high)
        then wrapped z
        else default_value)
unfolding get_uint32_property
get_uint32_property-decimal name default_value low high z env h small =
    rw (get_property-found name (decimal z) env h, length-decimal z, strtoul-decimal z small)
      (if_and (leb (wrapped z) (2 ^ 32 - 1)) (leb low (wrapped z) && leb (wrapped z) high) _ _)

if_keeps :
    {A : Type 0} (P : A → Type 0) (b : Bool) {x y : A}
    → (b ≡ true → P x)
    → (b ≡ false → P y)
    → P (if b then x else y)
if_keeps P true f g = f refl
if_keeps P false f g = g refl

-- An integer of 32 bits, and the default or one within the bounds.
pub Int32Allowed : ℤ → ℤ → ℤ → ℤ → Type 0
Int32Allowed default_value low high z =
    IsBetween int32_min int32_max z × ((z ≡ default_value) ⊎ IsBetween low high z)

-- What stands under the tests, when they are passed.
checked_lem :
    (empty whole : Bool) (default_value low high z : ℤ)
    → IsBetween int32_min int32_max default_value
    → Int32Allowed default_value low high (
        if empty
        then default_value
        else if whole
        then (if leℤ int32_min z && leℤ z int32_max
            then (if leℤ low z && leℤ z high then z else default_value)
            else default_value)
        else default_value)
unfolding IsBetween Int32Allowed
checked_lem true whole default_value low high z h = (h, inl refl)
checked_lem false false default_value low high z h = (h, inl refl)
checked_lem false true default_value low high z h =
    let keep : Int32Allowed default_value low high default_value = (h, inl refl) in
    if_keeps (Int32Allowed default_value low high) (leℤ int32_min z && leℤ z int32_max)
      (λ fits.
        if_keeps (Int32Allowed default_value low high) (leℤ low z && leℤ z high)
          (λ allowed. (
            (and_left (leℤ int32_min z) _ fits, and_right (leℤ int32_min z) _ fits),
            inr (and_left (leℤ low z) _ allowed, and_right (leℤ low z) _ allowed),
          ))
          (λ _. keep))
      (λ _. keep)

-- Whatever the environment holds, `getInt32Property` returns an integer of 32 bits that is the
-- default or within the bounds that are allowed, if the default is one of 32 bits.
pub get_int32_property-Int32Allowed :
    (name : Text) (default_value low high : ℤ) (env : Environment)
    → IsBetween int32_min int32_max default_value
    → Int32Allowed default_value low high (get_int32_property name default_value low high env)
unfolding get_int32_property
get_int32_property-Int32Allowed name default_value low high env h =
    checked_lem (length (get_property name env) == 0)
      (length (strtol (get_property name env)).1 == 0) default_value low high
      (strtol (get_property name env)).0 h
