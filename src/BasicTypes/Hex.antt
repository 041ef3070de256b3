-- ===== src/BasicTypes/Hex.antt =====
-- src/basic_types.cpp: what stands in a hexadecimal string of bytes.
use mathlib.Core.List.{reverse, reverse-append}
use jaulib.Prelude.{
  all_from, all_from-at, ℕ, zero, suc, ◌+◌, ◌-◌, ◌/◌, ◌%◌, ◌≤◌, ◌<◌, ◌≡◌, refl, sym, ap, ◌∙◌, Bool,
  true, false, List, [], ◌∷◌, ◌++◌, some, ◌==◌, ltb, ne→==_false, ==_iff, if◌then◌else◌, get_or,
  get_or-get_elem?, length, length-drop, take, drop, take-at, drop-at, get_elem?-drop, append_assoc,
  arith,
}
use jaulib.ByteUtil.Bytes.{IsBytes, none_left, one_more, IsBytes-reverse}
use jaulib.BasicTypes.{byte_digits, digits_up, digits_down, bytes_hex_string, hex_array}

-- The digit of a number below 16: 0 to 9, and then a to f or A to F.
unfoldable pub digit : Bool → ℕ → ℕ
digit lower_case v =
    if ltb v 10 then 48 + v else if lower_case then 97 + (v - 10) else 65 + (v - 10)

-- Two digits for each byte in order, the higher one first.
unfoldable pub digits_of : Bool → List ℕ → List ℕ
digits_of lower_case [] = []
digits_of lower_case (b ∷ bs) =
    digit lower_case (b / 16) ∷ digit lower_case (b % 16) ∷ digits_of lower_case bs

hex_array-digit :
    (lower_case : Bool) (v : ℕ) → v < 16 → get_or (hex_array lower_case) v 0 ≡ digit lower_case v
unfolding all_from digit
hex_array-digit true v h = (==_iff _ _).0 (
    all_from-at (λ n. get_or (hex_array true) n 0 == digit true n) 16 0 v refl (omega arith)
      (omega arith))
hex_array-digit false v h = (==_iff _ _).0 (
    all_from-at (λ n. get_or (hex_array false) n 0 == digit false n) 16 0 v refl (omega arith)
      (omega arith))

byte_digits-digit :
    (lower_case : Bool) (b : ℕ)
    → b < 256
    → byte_digits lower_case b ≡ digit lower_case (b / 16) ∷ digit lower_case (b % 16) ∷ []
unfolding byte_digits
byte_digits-digit lower_case b h =
    let whole : b % 256 ≡ b = omega arith in
    rw (
      whole,
      hex_array-digit lower_case (b / 16) (omega arith),
      hex_array-digit lower_case (b % 16) (omega arith),
    )

-- What the loops print for bytes in order.
printed : Bool → List ℕ → List ℕ
printed lower_case [] = []
printed lower_case (b ∷ bs) = byte_digits lower_case b ++ printed lower_case bs

printed-digits_of :
    (lower_case : Bool) (bs : List ℕ) → IsBytes bs → printed lower_case bs ≡ digits_of lower_case bs
unfolding printed digits_of
printed-digits_of lower_case [] none_left = refl
printed-digits_of lower_case (b ∷ bs) (one_more _ _ h rest) =
    rw (byte_digits-digit lower_case b h, printed-digits_of lower_case bs rest)

IsBytes-drop : (n : ℕ) (bs : List ℕ) → IsBytes bs → IsBytes (drop n bs)
IsBytes-drop zero bs h = h
IsBytes-drop (suc n) [] none_left = none_left
IsBytes-drop (suc n) (b ∷ bs) (one_more _ _ h rest) = IsBytes-drop n bs rest

IsBytes-take : (n : ℕ) (bs : List ℕ) → IsBytes bs → IsBytes (take n bs)
IsBytes-take zero bs h = none_left
IsBytes-take (suc n) [] none_left = none_left
IsBytes-take (suc n) (b ∷ bs) (one_more _ _ h rest) = one_more b _ h (IsBytes-take n bs rest)

digits_up-eq :
    (lower_case : Bool) (bytes : List ℕ) (count j : ℕ)
    → j + count ≤ length bytes
    → digits_up lower_case bytes j count ≡ printed lower_case (take count (drop j bytes))
unfolding digits_up printed
digits_up-eq lower_case bytes zero j h = refl
digits_up-eq lower_case bytes (suc count) j h =
    let (x, e, f) = drop-at j bytes (omega arith) in
    rw (
      e,
      get_or-get_elem? bytes j x 0 (omega arith) f,
      digits_up-eq lower_case bytes count (j + 1) (omega arith),
    )

printed-append :
    (lower_case : Bool) (xs ys : List ℕ)
    → printed lower_case (xs ++ ys) ≡ printed lower_case xs ++ printed lower_case ys
unfolding printed
printed-append lower_case [] ys = refl
printed-append lower_case (x ∷ xs) ys =
    ap (λ l. byte_digits lower_case x ++ l) (printed-append lower_case xs ys)
    ∙ sym (append_assoc (byte_digits lower_case x) (printed lower_case xs) (printed lower_case ys))

digits_down-eq :
    (lower_case : Bool) (bytes : List ℕ) (offset count : ℕ)
    → offset + count ≤ length bytes
    → digits_down lower_case bytes offset count
      ≡ printed lower_case (reverse (take count (drop offset bytes)))
unfolding digits_down printed
digits_down-eq lower_case bytes offset zero h = refl
digits_down-eq lower_case bytes offset (suc count) h =
    let right = drop offset bytes in
    let len = length-drop offset bytes in
    let (x, e, f) = drop-at count right (omega arith) in
    let here =
      get_or-get_elem? bytes (offset + count) x 0 (omega arith)
        (sym (get_elem?-drop offset count bytes) ∙ f) in
    rw (
      here,
      take-at count right x (omega arith) f,
      reverse-append (take count right) (x ∷ []),
      digits_down-eq lower_case bytes offset count (omega arith),
    )

-- `bytesHexString` of a range of at least one byte within the bytes gives two digits for each byte,
-- the higher one first, of 0 to 9 and a to f or A to F as asked for, in order when the lowest byte
-- comes first, and otherwise in reverse after a leading 0x.
pub bytes_hex_string-digits_of :
    (bytes : List ℕ) (offset count : ℕ) (lsb_first lower_case : Bool)
    → IsBytes bytes
    → 0 < count
    → offset + count ≤ length bytes
    → bytes_hex_string (some bytes) offset count lsb_first lower_case ≡ (
        if lsb_first
        then digits_of lower_case (take count (drop offset bytes))
        else 48 ∷ 120 ∷ digits_of lower_case (reverse (take count (drop offset bytes))))
unfolding bytes_hex_string
bytes_hex_string-digits_of bytes offset count lsb_first lower_case valid h k =
    let range = IsBytes-take count _ (IsBytes-drop offset bytes valid) in
    let up = digits_up-eq lower_case bytes count offset k ∙ printed-digits_of lower_case _ range in
    let down =
      digits_down-eq lower_case bytes offset count k
      ∙ printed-digits_of lower_case _ (IsBytes-reverse _ range) in
    rw (ne→==_false count 0 (λ e. omega arith), up, down)
