-- ===== src/ByteUtil/Swap.antt =====
-- include/jau/byte_util.hpp: what `bswap` does to the bytes of each type.
use jaulib.Prelude.{
  ℕ, zero, suc, ◌+◌, ◌*◌, ◌/◌, ◌%◌, ◌^◌, ◌≡◌, refl, sym, ap, ◌∙◌, List, [], ◌∷◌, length, ◌≤◌, take,
  take-at, drop-at, take-length, get_or-get_elem?, arith,
}
use native.Mathlib.Nat.{div-div-eq-div-mul}
use mathlib.Core.Path.{subst}
use mathlib.Core.List.{reverse, reverse-reverse, reverse-append}
use jaulib.ByteUtil.{
  Endian, little, big, bytes, value, bswap16, bswap32, bswap64, bswap_data, Uint, store_scalar,
  load_scalar, uint16, uint32, uint64, uint_data,
}
use jaulib.ByteUtil.Bytes.{
  Fits, value-bytes, length-bytes, length-reverse, IsBytes-reverse, bytes-value, bytes-IsBytes,
  value-Fits,
}

-- The shifts and masks put the bytes in reverse.
pub bswap16-reverse : (n : ℕ) → bswap16 n ≡ value (reverse (bytes 2 n))
unfolding bswap16 value bytes
bswap16-reverse n = omega arith

-- Bytes that are summed at their places, and as nested pairs.
nested4 :
    (a b c d : ℕ)
    → a + b * 2 ^ 8 + c * 2 ^ 16 + d * 2 ^ 24 ≡ a + 256 * (b + 256 * (c + 256 * (d + 0)))
nested4 a b c d = omega arith

nested8 :
    (a b c d e f g h : ℕ)
    → a + b * 2 ^ 8 + c * 2 ^ 16 + d * 2 ^ 24 + e * 2 ^ 32 + f * 2 ^ 40 + g * 2 ^ 48 + h * 2 ^ 56
      ≡ a + 256 * (b + 256 * (c + 256 * (d + 256 * (e + 256 * (f + 256 * (g + 256 * (h + 0)))))))
nested8 a b c d e f g h = omega arith

-- One more byte is shifted out.
shift : (n q k : ℕ) → q ≡ n / k → q / 256 ≡ n / (k * 256)
shift n q k e = ap (λ m. m / 256) e ∙ div-div-eq-div-mul n k 256

pub bswap32-reverse : (n : ℕ) → bswap32 n ≡ value (reverse (bytes 4 n))
unfolding bswap32 value bytes
bswap32-reverse n =
    let s₂ : n / 256 / 256 ≡ n / 2 ^ 16 = shift n _ (2 ^ 8) refl in
    let s₃ : n / 256 / 256 / 256 ≡ n / 2 ^ 24 = shift n _ (2 ^ 16) s₂ in
    rw (s₃, s₂) (nested4 (n / 2 ^ 24 % 256) (n / 2 ^ 16 % 256) (n / 2 ^ 8 % 256) (n % 256))

-- The shifts and masks of the 64-bit `bswap` give the number whose bytes are those of the argument
-- in reverse.
pub bswap64-reverse : (n : ℕ) → bswap64 n ≡ value (reverse (bytes 8 n))
unfolding bswap64 value bytes
bswap64-reverse n =
    let s₂ : n / 256 / 256 ≡ n / 2 ^ 16 = shift n _ (2 ^ 8) refl in
    let s₃ : n / 256 / 256 / 256 ≡ n / 2 ^ 24 = shift n _ (2 ^ 16) s₂ in
    let s₄ : n / 256 / 256 / 256 / 256 ≡ n / 2 ^ 32 = shift n _ (2 ^ 24) s₃ in
    let s₅ : n / 256 / 256 / 256 / 256 / 256 ≡ n / 2 ^ 40 = shift n _ (2 ^ 32) s₄ in
    let s₆ : n / 256 / 256 / 256 / 256 / 256 / 256 ≡ n / 2 ^ 48 = shift n _ (2 ^ 40) s₅ in
    let s₇ : n / 256 / 256 / 256 / 256 / 256 / 256 / 256 ≡ n / 2 ^ 56 = shift n _ (2 ^ 48) s₆ in
    rw (s₇, s₆, s₅, s₄, s₃, s₂)
      (nested8 (n / 2 ^ 56 % 256) (n / 2 ^ 48 % 256) (n / 2 ^ 40 % 256) (n / 2 ^ 32 % 256)
        (n / 2 ^ 24 % 256) (n / 2 ^ 16 % 256) (n / 2 ^ 8 % 256) (n % 256))

-- The loop reverses an array of that many bytes.
bswap_data-take : (s : List ℕ) (n : ℕ) → n ≤ length s → bswap_data s n ≡ reverse (take n s)
unfolding bswap_data
bswap_data-take s zero h = refl
bswap_data-take s (suc n) h =
    let (x, e, f) = drop-at n s (omega arith) in
    rw (
      take-at n s x (omega arith) f,
      reverse-append (take n s) (x ∷ []),
      get_or-get_elem? s n x 0 (omega arith) f,
      bswap_data-take s n (omega arith),
    )

-- The loop that swaps an array of bytes, run over all of it, reverses it.
pub bswap_data-reverse : (s : List ℕ) (n : ℕ) → length s ≡ n → bswap_data s n ≡ reverse s
bswap_data-reverse s n h = bswap_data-take s n (omega arith) ∙ ap reverse (take-length n s h)

-- What the swap of a type does to its bytes in memory.
pub record Laws {T : Type 0} (u : Uint T) : Type 1 where
  pub Valid : T → Type 0
  pub length-store : (host : Endian) (v : T) → Valid v → length (u.store host v) ≡ u.size
  pub load-store : (host : Endian) (v : T) → Valid v → u.load host (u.store host v) ≡ v
  pub store-bswap :
      (host : Endian) (v : T) → Valid v → u.store host (u.bswap v) ≡ reverse (u.store host v)
  pub bswap-Valid : (v : T) → Valid v → Valid (u.bswap v)

module _ (w : ℕ) (swap : ℕ → ℕ)
    (swap-reverse : (n : ℕ) → swap n ≡ value (reverse (bytes w n))) where
  abbrev pub scalar : Uint ℕ
  scalar = record { size = w; bswap = swap; store = store_scalar w; load = load_scalar }

  swapped-bytes : (n : ℕ) → bytes w (swap n) ≡ reverse (bytes w n)
  swapped-bytes n =
      let width = length-reverse (bytes w n) ∙ length-bytes w n in
      rw (swap-reverse n) (
        ap (λ m. bytes m (value (reverse (bytes w n)))) (sym width)
        ∙ bytes-value (reverse (bytes w n)) (IsBytes-reverse _ (bytes-IsBytes w n)))

  pub scalar-load :
      (host : Endian) (n : ℕ) → Fits w n → load_scalar host (store_scalar w host n) ≡ n
  unfolding load_scalar store_scalar
  scalar-load little n h = value-bytes w n h
  scalar-load big n h = rw (reverse-reverse (bytes w n)) (value-bytes w n h)

  pub scalar-length : (host : Endian) (n : ℕ) → length (store_scalar w host n) ≡ w
  unfolding store_scalar
  scalar-length little n = length-bytes w n
  scalar-length big n = length-reverse (bytes w n) ∙ length-bytes w n

  pub scalar-bswap :
      (host : Endian) (n : ℕ) → store_scalar w host (swap n) ≡ reverse (store_scalar w host n)
  unfolding store_scalar
  scalar-bswap little n = swapped-bytes n
  scalar-bswap big n = ap reverse (swapped-bytes n)

  pub swap-Fits : (n : ℕ) → Fits w (swap n)
  swap-Fits n =
      let width = length-reverse (bytes w n) ∙ length-bytes w n in
      rw (swap-reverse n) (
        subst (λ m. Fits m (value (reverse (bytes w n)))) width
          (value-Fits _ (IsBytes-reverse _ (bytes-IsBytes w n))))

  abbrev pub scalar-Laws : Laws scalar
  scalar-Laws = record {
    Valid = Fits w;
    length-store = λ host n h. scalar-length host n;
    load-store = scalar-load;
    store-bswap = λ host n h. scalar-bswap host n;
    bswap-Valid = λ n h. swap-Fits n;
  }

abbrev pub uint16-Laws : Laws uint16
uint16-Laws = scalar-Laws 2 bswap16 bswap16-reverse

abbrev pub uint32-Laws : Laws uint32
uint32-Laws = scalar-Laws 4 bswap32 bswap32-reverse

abbrev pub uint64-Laws : Laws uint64
uint64-Laws = scalar-Laws 8 bswap64 bswap64-reverse

abbrev pub uint_data-Laws : (n : ℕ) → Laws (uint_data n)
uint_data-Laws n = record {
  Valid = λ s. length s ≡ n;
  length-store = λ host s h. h;
  load-store = λ host s h. refl;
  store-bswap = λ host s h. bswap_data-reverse s n h;
  bswap-Valid = λ s h. rw (bswap_data-reverse s n h) (length-reverse s ∙ h);
}

pub bswap-bswap :
    {T : Type 0} (u : Uint T) (laws : Laws u) (v : T) → laws.Valid v → u.bswap (u.bswap v) ≡ v
bswap-bswap u laws v h =
    let once = laws.store-bswap little v h in
    let twice = laws.store-bswap little (u.bswap v) (laws.bswap-Valid v h) in
    sym (laws.load-store little (u.bswap (u.bswap v)) (laws.bswap-Valid _ (laws.bswap-Valid v h)))
    ∙ ap (u.load little) (twice ∙ ap reverse once ∙ reverse-reverse (u.store little v))
    ∙ laws.load-store little v h

-- A swap puts the bytes of a number in reverse, and done twice gives the number back.
unfoldable pub Swaps : ℕ → (ℕ → ℕ) → ℕ → Type 0
Swaps w swap n = (bytes w (swap n) ≡ reverse (bytes w n)) × (swap (swap n) ≡ n)

-- `bswap` of a number of 16, 32 or 64 bits has the bytes of that number in reverse, and `bswap` of
-- an array of bytes is the array in reverse; done twice, each gives back what it was given, if the
-- number is one of its type.
pub bswap-reverse :
    (a b c : ℕ) (s : List ℕ)
    → Fits 2 a
    → Fits 4 b
    → Fits 8 c
    → Swaps 2 bswap16 a
      × Swaps 4 bswap32 b
      × Swaps 8 bswap64 c
      × (bswap_data s (length s) ≡ reverse s)
      × (bswap_data (bswap_data s (length s)) (length s) ≡ s)
unfolding Swaps
bswap-reverse a b c s f g h = (
  (swapped-bytes 2 bswap16 bswap16-reverse a, bswap-bswap uint16 uint16-Laws a f),
  (swapped-bytes 4 bswap32 bswap32-reverse b, bswap-bswap uint32 uint32-Laws b g),
  (swapped-bytes 8 bswap64 bswap64-reverse c, bswap-bswap uint64 uint64-Laws c h),
  bswap_data-reverse s (length s) refl,
  bswap-bswap (uint_data (length s)) (uint_data-Laws (length s)) s refl,
)
