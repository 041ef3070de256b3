-- ===== src/Ringbuffer.antt =====
-- include/jau/ringbuffer.hpp: the state of `class ringbuffer`, its queries, and the loops that move
-- elements from slot to slot. One slot stays open, so the array has `capacity_plus_one` slots; the
-- positions point to the slots last read and last written.
pub mod Wait
pub mod Ops
pub mod Slots
pub mod Blocks
pub mod Invariant
pub mod Puts
pub mod Gets
pub mod Simulation
pub mod Queue
pub mod Refine
pub mod Reset
pub mod Threads
mod Tests
use jaulib.Prelude.{
  ℕ, zero, suc, ◌+◌, ◌-◌, ◌%◌, Bool, List, [], ◌∷◌, ltb, leb, ◌==◌, if◌then◌else◌, length, get_or,
  set, add_size, sub_size,
}

-- `Size_type` is taken at 64 bits. The mutexes and condition variables have no field: see `Wait`.
pub record Ringbuffer {ℓ} (A : Type ℓ) : Type ℓ where
  pub nullelem : A
  pub capacity_plus_one : ℕ
  pub array : List A
  pub read_pos : ℕ
  pub write_pos : ℕ

-- The template's `use_memcpy` and `use_memset`.
pub record Traits : Type 0 where
  pub uses_memcpy : Bool
  pub uses_memset : Bool

-- `(pos + 1) % capacityPlusOne`
unfoldable pub next_pos : ℕ → ℕ → ℕ
next_pos c pos = add_size pos 1 % c

-- `(pos + count - 1) % capacityPlusOne`
unfoldable pub last_pos : ℕ → ℕ → ℕ → ℕ
last_pos c pos count = sub_size (add_size pos count) 1 % c

module _ {ℓ} {A : Type ℓ} where
  pub capacity : Ringbuffer A → ℕ
  capacity r = sub_size r.capacity_plus_one 1

  unfoldable pub get_size : Ringbuffer A → ℕ
  get_size r =
      if leb r.read_pos r.write_pos
      then sub_size r.write_pos r.read_pos
      else add_size (sub_size r.capacity_plus_one r.read_pos) r.write_pos

  unfoldable pub get_free_slots : Ringbuffer A → ℕ
  get_free_slots r = sub_size (sub_size r.capacity_plus_one 1) (get_size r)

  unfoldable pub is_empty : Ringbuffer A → Bool
  is_empty r = r.write_pos == r.read_pos

  unfoldable pub is_full : Ringbuffer A → Bool
  is_full r = next_pos r.capacity_plus_one r.write_pos == r.read_pos

  -- `array[pos + i] = elems[i]`: the copying loops, and `memcpy` into the array.
  unfoldable pub write_block : List A → ℕ → List A → List A
  write_block array pos [] = array
  write_block array pos (e ∷ elems) = write_block (set array pos e) (add_size pos 1) elems

  -- `array[pos + i] = nullelem` for `count` slots: the clearing loops, and `memset`.
  unfoldable pub fill_block : A → List A → ℕ → ℕ → List A
  fill_block nullelem array pos zero = array
  fill_block nullelem array pos (suc count) =
      fill_block nullelem (set array pos nullelem) (add_size pos 1) count

  -- `dest[i] = array[pos + i]`. What a read outside the array would give is left to `d`.
  unfoldable pub read_block : A → List A → ℕ → ℕ → List A
  read_block d array pos zero = []
  read_block d array pos (suc count) =
      get_or array pos d ∷ read_block d array (add_size pos 1) count

-- The array, and a local position that walks through it.
pub record Cursor {ℓ} (A : Type ℓ) : Type ℓ where
  pub array : List A
  pub pos : ℕ

module _ {ℓ} {A : Type ℓ} (c : ℕ) where
  -- `pos = (pos + 1) % capacityPlusOne; array[pos] = elem`
  abbrev pub put_slot : Cursor A → A → Cursor A
  put_slot s e = record { array = set s.array (next_pos c s.pos) e; pos = next_pos c s.pos }

  -- The same for each element in turn.
  unfoldable pub put_slots : Cursor A → List A → Cursor A
  put_slots s [] = s
  put_slots s (e ∷ elems) = put_slots (put_slot s e) elems

  -- The same with `nullelem`, `count` times.
  unfoldable pub null_slots : A → Cursor A → ℕ → Cursor A
  null_slots nullelem s zero = s
  null_slots nullelem s (suc count) = null_slots nullelem (put_slot s nullelem) count
