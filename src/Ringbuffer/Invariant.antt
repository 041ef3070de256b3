-- ===== src/Ringbuffer/Invariant.antt =====
-- The representation invariant of include/jau/ringbuffer.hpp, the elements that a buffer holds, and
-- that its queries count them.
use jaulib.Prelude.{ℕ, ◌+◌, ◌<◌, ◌≡◌, ◌↔◌, true, List, length, size_mod, arith}
use jaulib.Ringbuffer.{Ringbuffer, capacity, get_size, get_free_slots, is_empty, is_full}
use jaulib.Ringbuffer.Slots.{window, length-window, next_pos_cases, IsAhead}

module _ {ℓ} {A : Type ℓ} where
  pub record IsValid (r : Ringbuffer A) : Type 0 where
    pub storage : length r.array ≡ r.capacity_plus_one
    pub nonempty : 0 < r.capacity_plus_one
    pub small : r.capacity_plus_one < size_mod
    pub read_in : r.read_pos < r.capacity_plus_one
    pub write_in : r.write_pos < r.capacity_plus_one

  -- The elements that were put and not yet read, oldest first.
  abbrev pub contents : Ringbuffer A → List A
  contents r = window r.nullelem r.capacity_plus_one r.array r.read_pos (get_size r)

  pub length-contents : (r : Ringbuffer A) → length (contents r) ≡ get_size r
  length-contents r = length-window r.nullelem r.capacity_plus_one r.array r.read_pos (get_size r)

  pub record Counts (r : Ringbuffer A) : Type 0 where
    pub size_in : get_size r < r.capacity_plus_one
    pub ahead : IsAhead r.capacity_plus_one r.read_pos (get_size r) r.write_pos
    pub free : get_free_slots r + get_size r + 1 ≡ r.capacity_plus_one
    pub cap : capacity r + 1 ≡ r.capacity_plus_one

  -- In a well-formed buffer the size is below the number of slots, the write position is that far
  -- ahead of the read position, and free slots and size add up to the capacity.
  pub counts : {r : Ringbuffer A} → IsValid r → Counts r
  unfolding get_size get_free_slots capacity
  counts {r} v = ground arith

  -- The size is how far the write position is ahead of the read position.
  pub get_size_unique :
      {r : Ringbuffer A} (k : ℕ)
      → IsValid r
      → k < r.capacity_plus_one
      → IsAhead r.capacity_plus_one r.read_pos k r.write_pos
      → get_size r ≡ k
  get_size_unique k v h a = let n = counts v in omega arith

  -- `isEmpty` tests for size 0, and `isFull` for a size equal to the capacity.
  pub is_empty_iff : {r : Ringbuffer A} → IsValid r → (is_empty r ≡ true) ↔ (get_size r ≡ 0)
  unfolding is_empty
  is_empty_iff v = let n = counts v in ground arith

  pub is_full_iff : {r : Ringbuffer A} → IsValid r → (is_full r ≡ true) ↔ (get_free_slots r ≡ 0)
  unfolding is_full
  is_full_iff {r} v =
      let n = counts v in
      let near = next_pos_cases r.capacity_plus_one r.write_pos v.small v.write_in in ground arith
