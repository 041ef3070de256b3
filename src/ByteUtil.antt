-- ===== src/ByteUtil.antt =====
-- include/jau/byte_util.hpp: byte swaps, the conversions between the host's byte order and a given one,
-- and the access to integers in a byte array. The masks of the swaps do not overlap, so that their
-- bitwise or is a sum.
pub mod Bytes
pub mod Swap
pub mod Memory
mod Tests
use mathlib.Core.List.{reverse}
use mathlib.Core.Option
use jaulib.Prelude.{
  ℕ, zero, suc, ◌+◌, ◌*◌, ◌/◌, ◌%◌, ◌^◌, Bool, List, [], ◌∷◌, ◌++◌, Option, none, some, leb,
  if◌then◌else◌, length, get_or, take, drop,
}

-- The host's order; `static_assert(isLittleOrBigEndian())` excludes the others.
pub data Endian : Type 0 where
  little big : Endian

-- The bytes of a number, lowest first, and the number that bytes stand for.
unfoldable pub bytes : ℕ → ℕ → List ℕ
bytes zero n = []
bytes (suc w) n = n % 256 ∷ bytes w (n / 256)

unfoldable pub value : List ℕ → ℕ
value [] = 0
value (b ∷ bs) = b + 256 * value bs

-- `bswap`, the versions without builtins
unfoldable pub bswap16 : ℕ → ℕ
bswap16 source = source / 2 ^ 8 % 256 + source % 256 * 2 ^ 8

unfoldable pub bswap32 : ℕ → ℕ
bswap32 source =
    source / 2 ^ 24 % 256
    + source / 2 ^ 16 % 256 * 2 ^ 8
    + source / 2 ^ 8 % 256 * 2 ^ 16
    + source % 256 * 2 ^ 24

unfoldable pub bswap64 : ℕ → ℕ
bswap64 source =
    source / 2 ^ 56 % 256
    + source / 2 ^ 48 % 256 * 2 ^ 8
    + source / 2 ^ 40 % 256 * 2 ^ 16
    + source / 2 ^ 32 % 256 * 2 ^ 24
    + source / 2 ^ 24 % 256 * 2 ^ 32
    + source / 2 ^ 16 % 256 * 2 ^ 40
    + source / 2 ^ 8 % 256 * 2 ^ 48
    + source % 256 * 2 ^ 56

-- `d[i] = s[count - 1 - i]`, for the types that are an array of bytes: 128, 192 and 256 bits
unfoldable pub bswap_data : List ℕ → ℕ → List ℕ
bswap_data s zero = []
bswap_data s (suc count) = get_or s count 0 ∷ bswap_data s count

-- A type of integers: its bytes in memory, and its swap.
pub record Uint (T : Type 0) : Type 0 where
  pub size : ℕ
  pub bswap : T → T
  pub store : Endian → T → List ℕ
  pub load : Endian → List ℕ → T

unfoldable pub store_scalar : ℕ → Endian → ℕ → List ℕ
store_scalar w little n = bytes w n
store_scalar w big n = reverse (bytes w n)

unfoldable pub load_scalar : Endian → List ℕ → ℕ
load_scalar little bs = value bs
load_scalar big bs = value (reverse bs)

abbrev pub uint16 : Uint ℕ
uint16 = record { size = 2; bswap = bswap16; store = store_scalar 2; load = load_scalar }

abbrev pub uint32 : Uint ℕ
uint32 = record { size = 4; bswap = bswap32; store = store_scalar 4; load = load_scalar }

abbrev pub uint64 : Uint ℕ
uint64 = record { size = 8; bswap = bswap64; store = store_scalar 8; load = load_scalar }

-- `uint128_t`, `uint192_t` and `uint256_t` for 16, 24 and 32 bytes
abbrev pub uint_data : ℕ → Uint (List ℕ)
uint_data n = record { size = n; bswap = λ s. bswap_data s n; store = λ _ s. s; load = λ _ s. s }

module _ {T : Type 0} (u : Uint T) (host : Endian) where
  open u use {bswap, store, load, size}

  unfoldable pub cpu_to_be : T → T
  cpu_to_be h = elim host [ little ↦ bswap h | big ↦ h ]

  -- `be_to_cpu` of all types but `uint16_t`
  unfoldable pub be_to_cpu : T → T
  be_to_cpu n = elim host [ little ↦ bswap n | big ↦ n ]

  unfoldable pub cpu_to_le : T → T
  cpu_to_le h = elim host [ little ↦ h | big ↦ bswap h ]

  unfoldable pub le_to_cpu : T → T
  le_to_cpu l = elim host [ little ↦ l | big ↦ bswap l ]

  -- `put_uint16` to `put_uint256`, and `put_value`; `none` is a write outside the buffer.
  unfoldable pub put_native : List ℕ → ℕ → T → Option (List ℕ)
  put_native buffer byte_offset v =
      if leb (byte_offset + size) (length buffer)
      then some (take byte_offset buffer ++ (store host v ++ drop (byte_offset + size) buffer))
      else none

  unfoldable pub get_native : List ℕ → ℕ → Option T
  get_native buffer byte_offset =
      if leb (byte_offset + size) (length buffer)
      then some (load host (take size (drop byte_offset buffer)))
      else none

  -- The same in a given byte order.
  unfoldable pub put_value : List ℕ → ℕ → T → Bool → Option (List ℕ)
  put_value buffer byte_offset v little_endian =
      put_native buffer byte_offset (if little_endian then cpu_to_le v else cpu_to_be v)

  unfoldable pub get_value : List ℕ → ℕ → Bool → Option T
  get_value buffer byte_offset little_endian =
      Option.map (λ v. if little_endian then le_to_cpu v else be_to_cpu v)
        (get_native buffer byte_offset)

-- `be_to_cpu(uint16_t)` swaps on a big-endian host, too.
unfoldable pub be_to_cpu16 : Endian → ℕ → ℕ
be_to_cpu16 little n = bswap16 n
be_to_cpu16 big n = bswap16 n

unfoldable pub get_uint16 : Endian → List ℕ → ℕ → Bool → Option ℕ
get_uint16 host buffer byte_offset little_endian =
    Option.map (λ v. if little_endian then le_to_cpu uint16 host v else be_to_cpu16 host v)
      (get_native uint16 host buffer byte_offset)
