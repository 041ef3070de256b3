-- ===== src/ByteUtil/Tests.antt =====
-- Runs of the model of include/jau/byte_util.hpp, and its theorems at concrete values.
use jaulib.Prelude.{
  ℕ, ◌+◌, ◌≡◌, refl, true, false, List, [], ◌∷◌, ◌++◌, some, none, take, drop, arith,
}
use mathlib.Core.List.{reverse}
use mathlib.Core.Option
use jaulib.ByteUtil.{
  Endian, little, big, uint16, uint32, uint64, uint_data, bswap16, bswap32, bswap64, bswap_data,
  put_value, get_value, get_uint16, bytes, value,
}
use jaulib.ByteUtil.Swap.{uint32-Laws, Swaps, bswap-reverse, bswap32-reverse}
use jaulib.ByteUtil.Memory.{
  get_value-put_value, put_value-wire, put_value_outside, get_uint16-put_value, s32, uint, wire,
}

abbrev buffer : List ℕ
buffer = 9 ∷ 9 ∷ 9 ∷ 9 ∷ 9 ∷ 9 ∷ []

bswap32_runs : bswap32 287454020 ≡ 1144201745
unfolding bswap32
bswap32_runs = refl

-- Network order, on either host.
puts_big : put_value uint16 little buffer 1 258 false ≡ some (9 ∷ 1 ∷ 2 ∷ 9 ∷ 9 ∷ 9 ∷ [])
unfolding put_value jaulib.ByteUtil.put_native jaulib.ByteUtil.cpu_to_be
    jaulib.ByteUtil.store_scalar bswap16 bytes
puts_big = refl

bswap-reverse_example :
    Swaps 2 bswap16 258
    × Swaps 4 bswap32 287454020
    × Swaps 8 bswap64 72623859790382856
    × (bswap_data buffer 6 ≡ reverse buffer)
    × (bswap_data (bswap_data buffer 6) 6 ≡ buffer)
bswap-reverse_example =
    bswap-reverse 258 287454020 72623859790382856 buffer (omega arith) (omega arith) (omega arith)

bswap32-reverse_example : bswap32 258 ≡ value (reverse (bytes 4 258))
bswap32-reverse_example = bswap32-reverse 258

get_value-put_value_example :
    Option.bind
      (put_value uint32 big buffer 1 258 true)
      (λ written. get_value uint32 big written 1 true)
    ≡ some 258
get_value-put_value_example =
    get_value-put_value uint32 uint32-Laws big buffer 1 258 true (omega arith) (omega arith)

put_value-wire_example :
    put_value (uint s32) big buffer 1 258 true
    ≡ some (take 1 buffer ++ (wire (uint s32).size 258 true ++ drop (1 + (uint s32).size) buffer))
unfolding uint
put_value-wire_example = put_value-wire s32 big buffer 1 258 true (omega arith) (omega arith)

put_value_outside_example :
    (put_value uint32 big buffer 3 258 true ≡ none) × (get_value uint32 big buffer 3 true ≡ none)
put_value_outside_example = put_value_outside uint32 big buffer 3 258 true (omega arith)

get_uint16-put_value_example :
    Option.bind
      (put_value uint16 big buffer 1 258 false)
      (λ written. get_uint16 big written 1 false)
    ≡ some (bswap16 258)
unfolding jaulib.ByteUtil.Memory.is_big
get_uint16-put_value_example =
    get_uint16-put_value big buffer 1 258 false (omega arith) (omega arith)
