-- ===== src/ByteUtil/Memory.antt =====
-- include/jau/byte_util.hpp: integers put into a byte array, and read back.
use jaulib.Prelude.{
  ℕ, ◌+◌, ◌≤◌, ◌≡◌, refl, ◌∙◌, Bool, true, false, List, ◌++◌, none, some, le→leb, lt→leb_false, ◌<◌,
  if◌then◌else◌, ◌&&◌, not, length, length-append, length-take, length-drop, take, drop,
  take-append_length, drop-append_length, arith,
}
use mathlib.Core.List.{reverse, reverse-reverse}
use mathlib.Core.Option
use jaulib.ByteUtil.{
  Endian, little, big, bytes, Uint, store_scalar, uint16, uint32, uint64, bswap16, cpu_to_be,
  be_to_cpu, cpu_to_le, le_to_cpu, put_native, get_native, put_value, get_value, get_uint16,
  be_to_cpu16,
}
use jaulib.ByteUtil.Bytes.{Fits}
use jaulib.ByteUtil.Swap.{Laws, bswap-bswap, uint16-Laws, uint32-Laws, uint64-Laws}

module _ {T : Type 0} (u : Uint T) (host : Endian) where
  -- outside
  pub put_value_outside :
      (buffer : List ℕ) (byte_offset : ℕ) (v : T) (little_endian : Bool)
      → length buffer < byte_offset + u.size
      → (put_value u host buffer byte_offset v little_endian ≡ none)
        × (get_value u host buffer byte_offset little_endian ≡ none)
  unfolding put_value get_value put_native get_native
  put_value_outside buffer byte_offset v little_endian h =
      let over = lt→leb_false (byte_offset + u.size) (length buffer) h in (rw over, rw over)

module _ {T : Type 0} (u : Uint T) (laws : Laws u) (host : Endian) where
  -- The array with the bytes of `v` at a place.
  unfoldable pub patched : List ℕ → ℕ → T → List ℕ
  patched buffer byte_offset v =
      take byte_offset buffer ++ (u.store host v ++ drop (byte_offset + u.size) buffer)

  put_native-patched :
      (buffer : List ℕ) (byte_offset : ℕ) (v : T)
      → byte_offset + u.size ≤ length buffer
      → put_native u host buffer byte_offset v ≡ some (patched buffer byte_offset v)
  unfolding put_native patched
  put_native-patched buffer byte_offset v h = rw (le→leb (byte_offset + u.size) (length buffer) h)

  pub length-patched :
      (buffer : List ℕ) (byte_offset : ℕ) (v : T)
      → laws.Valid v
      → byte_offset + u.size ≤ length buffer
      → length (patched buffer byte_offset v) ≡ length buffer
  unfolding patched
  length-patched buffer byte_offset v k h =
      let len =
        length-append (take byte_offset buffer)
          (u.store host v ++ drop (byte_offset + u.size) buffer) in
      let len₁ = length-append (u.store host v) (drop (byte_offset + u.size) buffer) in
      let len₂ = length-take byte_offset buffer in
      let len₃ = length-drop (byte_offset + u.size) buffer in
      let len₄ = laws.length-store host v k in omega arith

  get_native-patched :
      (buffer : List ℕ) (byte_offset : ℕ) (v : T)
      → laws.Valid v
      → byte_offset + u.size ≤ length buffer
      → get_native u host (patched buffer byte_offset v) byte_offset ≡ some v
  unfolding get_native patched
  get_native-patched buffer byte_offset v k h =
      let len₂ = length-take byte_offset buffer in
      let len₄ = laws.length-store host v k in
      let whole = length-patched buffer byte_offset v k h in
      let here =
        drop-append_length (take byte_offset buffer)
          (u.store host v ++ drop (byte_offset + u.size) buffer) byte_offset (omega arith) in
      let mine =
        take-append_length (u.store host v) (drop (byte_offset + u.size) buffer) u.size len₄ in
      rw (
        whole,
        le→leb (byte_offset + u.size) (length buffer) h,
        here,
        mine,
        laws.load-store host v k,
      )

  converted-Valid :
      (v : T) (little_endian : Bool)
      → laws.Valid v
      → laws.Valid (if little_endian then cpu_to_le u host v else cpu_to_be u host v)
  unfolding cpu_to_le cpu_to_be
  converted-Valid v little_endian k = by_host host little_endian
    where
      by_host :
          (e : Endian) (b : Bool) → laws.Valid (if b then cpu_to_le u e v else cpu_to_be u e v)
      by_host little true = k
      by_host little false = laws.bswap-Valid v k
      by_host big true = laws.bswap-Valid v k
      by_host big false = k

  back :
      (v : T) (little_endian : Bool)
      → laws.Valid v
      → (if little_endian
          then le_to_cpu u host (cpu_to_le u host v)
          else be_to_cpu u host (cpu_to_be u host v))
        ≡ v
  unfolding cpu_to_le cpu_to_be le_to_cpu be_to_cpu
  back v little_endian k = by_host host little_endian
    where
      by_host :
          (e : Endian) (b : Bool)
          → (if b then le_to_cpu u e (cpu_to_le u e v) else be_to_cpu u e (cpu_to_be u e v)) ≡ v
      by_host little true = refl
      by_host little false = bswap-bswap u laws v k
      by_host big true = bswap-bswap u laws v k
      by_host big false = refl

  -- A value that is put in a byte order and got back in it is the value itself, on either host,
  -- for the types of 32, 64, 128, 192 and 256 bits, and any type whose swap reverses its bytes in
  -- memory and whose `be_to_cpu` swaps on a little-endian host only, if the value is one of the
  -- type and its place is within the buffer.
  pub get_value-put_value :
      (buffer : List ℕ) (byte_offset : ℕ) (v : T) (little_endian : Bool)
      → laws.Valid v
      → byte_offset + u.size ≤ length buffer
      → Option.bind
          (put_value u host buffer byte_offset v little_endian)
          (λ written. get_value u host written byte_offset little_endian)
        ≡ some v
  unfolding put_value get_value Option.bind
  get_value-put_value buffer byte_offset v true k h = rw (
    put_native-patched buffer byte_offset _ h,
    get_native-patched buffer byte_offset _ (converted-Valid v true k) h,
    back v true k,
  )
  get_value-put_value buffer byte_offset v false k h = rw (
    put_native-patched buffer byte_offset _ h,
    get_native-patched buffer byte_offset _ (converted-Valid v false k) h,
    back v false k,
  )

-- The types that are machine words.
pub data Scalar : Type 0 where
  s16 s32 s64 : Scalar

unfoldable pub uint : Scalar → Uint ℕ
uint s16 = uint16
uint s32 = uint32
uint s64 = uint64

abbrev uint-Laws : (s : Scalar) → Laws (uint s)
unfolding uint
uint-Laws s16 = uint16-Laws
uint-Laws s32 = uint32-Laws
uint-Laws s64 = uint64-Laws

-- The bytes of a number in the order that the caller asks for.
unfoldable pub wire : ℕ → ℕ → Bool → List ℕ
wire w n true = bytes w n
wire w n false = reverse (bytes w n)

stored-wire :
    (s : Scalar) (host : Endian) (n : ℕ) (little_endian : Bool)
    → Fits (uint s).size n
    → (uint s).store host
        (if little_endian then cpu_to_le (uint s) host n else cpu_to_be (uint s) host n)
      ≡ wire (uint s).size n little_endian
unfolding uint wire cpu_to_le cpu_to_be store_scalar
stored-wire s16 little n true k = refl
stored-wire s32 little n true k = refl
stored-wire s64 little n true k = refl
stored-wire s16 big n false k = refl
stored-wire s32 big n false k = refl
stored-wire s64 big n false k = refl
stored-wire s16 little n false k = uint16-Laws.store-bswap little n k
stored-wire s32 little n false k = uint32-Laws.store-bswap little n k
stored-wire s64 little n false k = uint64-Laws.store-bswap little n k
stored-wire s16 big n true k = uint16-Laws.store-bswap big n k ∙ reverse-reverse (bytes 2 n)
stored-wire s32 big n true k = uint32-Laws.store-bswap big n k ∙ reverse-reverse (bytes 4 n)
stored-wire s64 big n true k = uint64-Laws.store-bswap big n k ∙ reverse-reverse (bytes 8 n)

-- Putting a number of 16, 32 or 64 bits writes its bytes lowest first, or highest first, as asked
-- for, on either host, and changes no other byte, if the number fits the type and its place is
-- within the buffer.
pub put_value-wire :
    (s : Scalar) (host : Endian) (buffer : List ℕ) (byte_offset n : ℕ) (little_endian : Bool)
    → Fits (uint s).size n
    → byte_offset + (uint s).size ≤ length buffer
    → put_value (uint s) host buffer byte_offset n little_endian
      ≡ some (
          take byte_offset buffer
          ++ (wire (uint s).size n little_endian ++ drop (byte_offset + (uint s).size) buffer))
unfolding put_value put_native
put_value-wire s host buffer byte_offset n little_endian k h =
    rw
      (le→leb (byte_offset + (uint s).size) (length buffer) h, stored-wire s host n little_endian k)

unfoldable pub is_big : Endian → Bool
is_big little = false
is_big big = true

-- A number of 16 bits that is put within the buffer in a byte order and got back in it by
-- `get_uint16` is the number itself, except for big-endian order on a big-endian host, where it
-- comes back with its bytes swapped.
pub get_uint16-put_value :
    (host : Endian) (buffer : List ℕ) (byte_offset n : ℕ) (little_endian : Bool)
    → Fits 2 n
    → byte_offset + 2 ≤ length buffer
    → Option.bind
        (put_value uint16 host buffer byte_offset n little_endian)
        (λ written. get_uint16 host written byte_offset little_endian)
      ≡ some (if is_big host && not little_endian then bswap16 n else n)
unfolding put_value get_uint16 Option.bind is_big be_to_cpu16 cpu_to_le cpu_to_be le_to_cpu
get_uint16-put_value little buffer byte_offset n true k h = rw (
  put_native-patched uint16 uint16-Laws little buffer byte_offset n h,
  get_native-patched uint16 uint16-Laws little buffer byte_offset n k h,
)
get_uint16-put_value little buffer byte_offset n false k h = rw (
  put_native-patched uint16 uint16-Laws little buffer byte_offset (bswap16 n) h,
  get_native-patched uint16 uint16-Laws little buffer byte_offset (bswap16 n)
      (uint16-Laws.bswap-Valid n k) h,
  bswap-bswap uint16 uint16-Laws n k,
)
get_uint16-put_value big buffer byte_offset n true k h = rw (
  put_native-patched uint16 uint16-Laws big buffer byte_offset (bswap16 n) h,
  get_native-patched uint16 uint16-Laws big buffer byte_offset (bswap16 n)
      (uint16-Laws.bswap-Valid n k) h,
  bswap-bswap uint16 uint16-Laws n k,
)
get_uint16-put_value big buffer byte_offset n false k h = rw (
  put_native-patched uint16 uint16-Laws big buffer byte_offset n h,
  get_native-patched uint16 uint16-Laws big buffer byte_offset n k h,
)
