-- ===== src/Ringbuffer/Reset/Clear.antt =====
-- `clear` and `reset` of include/jau/ringbuffer.hpp, and the constructor from elements.
use jaulib.Prelude.{
  ℕ, zero, suc, ◌+◌, ◌<◌, ◌≡◌, refl, sym, ap, ◌∙◌, List, [], ◌∷◌, ◌++◌, ==_iff, length, length-set,
  set, size_mod, arith, dec_lt, Bool-cases, inl, inr, lt→ltb, le→ltb_false, add_size, sub_size, ap₂,
  max, ℕ_discrete,
}
use jaulib.Ringbuffer.{
  Ringbuffer, Traits, get_size, Cursor, fill_block, write_block, next_pos, put_slots,
}
use jaulib.Ringbuffer.Slots.{
  window, next_pos_cases, advance, pos-null_slots, advance-lt, advance-IsAhead, IsAhead-unique,
}
use jaulib.Ringbuffer.Blocks.{store_part-eq, last_pos-eq}
use jaulib.Ringbuffer.Ops.{store_part}
use jaulib.Ringbuffer.Invariant.{IsValid, contents, length-contents, counts, get_size_unique}
use jaulib.Ringbuffer.Puts.{with_puts, with_puts-Stored}
use jaulib.Ringbuffer.Gets.{with_nulls, with_nulls-Taken}
use jaulib.Ringbuffer.Reset.{Ends, ends, Ends-bind, Arrays, clear, resized, refill, reset}

module _ {ℓ} {A : Type ℓ} where
  length-fill_block :
      (d : A) (array : List A) (pos n : ℕ) → length (fill_block d array pos n) ≡ length array
  unfolding fill_block
  length-fill_block d array pos zero = refl
  length-fill_block d array pos (suc n) =
      length-fill_block d (set array pos d) (add_size pos 1) n ∙ length-set array pos d

  -- Well formed, and holding exactly these elements.
  pub record Filled (nullelem : A) (c : ℕ) (elems : List A) (r : Ringbuffer A) : Type ℓ where
    pub valid : IsValid r
    pub held : contents r ≡ elems
    pub same_capacity : r.capacity_plus_one ≡ c
    pub same_nullelem : r.nullelem ≡ nullelem

  no_contents : (r : Ringbuffer A) → get_size r ≡ 0 → contents r ≡ []
  unfolding window
  no_contents r e = ap (window r.nullelem r.capacity_plus_one r.array r.read_pos) e

  -- A buffer whose positions coincide is empty.
  pub Filled-nil :
      {r : Ringbuffer A}
      → IsValid r
      → r.read_pos ≡ r.write_pos
      → Filled r.nullelem r.capacity_plus_one [] r
  Filled-nil {r} v e = record {
    valid = v;
    held = no_contents r (get_size_unique 0 v v.nonempty (omega arith));
    same_capacity = refl;
    same_nullelem = refl;
  }

  -- The read position that the clearing loop ends at is the write position.
  end_of_walk : {r : Ringbuffer A} → IsValid r → r.write_pos ≡ (with_nulls (get_size r) r).read_pos
  end_of_walk {r} v =
      let c = r.capacity_plus_one in
      let n = counts v in
      let k = get_size r in
      IsAhead-unique c r.read_pos k r.write_pos (advance c r.read_pos k) v.write_in
        (advance-lt c v.small r.read_pos k v.read_in) n.ahead
        (advance-IsAhead c v.small r.read_pos k v.read_in (omega arith))
      ∙ sym (pos-null_slots c r.nullelem _ k)

  zeroed-IsValid :
      {r : Ringbuffer A}
      → IsValid r
      → IsValid (record r {
        array = fill_block r.nullelem r.array 0 r.capacity_plus_one;
        read_pos = 0;
        write_pos = 0;
      })
  zeroed-IsValid {r} v = record {
    storage = length-fill_block r.nullelem r.array 0 r.capacity_plus_one ∙ v.storage;
    nonempty = v.nonempty;
    small = v.small;
    read_in = v.nonempty;
    write_in = v.nonempty;
  }

  -- `clear` of a well-formed buffer never aborts and leaves an empty buffer of the same capacity
  -- and null element.
  pub clear-Filled :
      (t : Traits) {r : Ringbuffer A}
      → IsValid r
      → Ends (Filled r.nullelem r.capacity_plus_one []) (clear t r)
  unfolding clear
  clear-Filled t {r} v =
      let c = r.capacity_plus_one in
      elim (ℕ_discrete (get_size r) 0) [
        | yes empty ↦ rw empty (
            ends (record {
              valid = v;
              held = no_contents r empty;
              same_capacity = refl;
              same_nullelem = refl;
            }))
        | no filled ↦ elim (Bool-cases t.uses_memset) [
          | inl bytes ↦
              rw (lt→ltb 0 (get_size r) (omega arith), bytes)
                (ends (Filled-nil (zeroed-IsValid v) refl))
          | inr walk ↦
              rw (lt→ltb 0 (get_size r) (omega arith), walk, (==_iff _ _).1 (end_of_walk v))
                (ends (
                  Filled-nil (with_nulls-Taken (get_size r) v (omega arith)).valid
                    (sym (end_of_walk v))))
        ]
      ]

  -- What `reset` fills is empty, and has room.
  record Room (nullelem : A) (count : ℕ) (r : Ringbuffer A) : Type ℓ where
    filled : Filled nullelem r.capacity_plus_one [] r
    room : count < r.capacity_plus_one

  fill_empty :
      {nullelem : A} {c : ℕ} {r : Ringbuffer A} (elems : List A)
      → Filled nullelem c [] r
      → length elems < c
      → Filled nullelem c elems (with_puts elems r)
  fill_empty {r} elems f h =
      let n = counts f.valid in
      let size = sym (length-contents r) ∙ ap length f.held in
      let same = f.same_capacity in
      let s = with_puts-Stored elems f.valid (omega arith) in
      record {
        valid = s.valid;
        held = s.held ∙ ap (λ l. l ++ elems) f.held;
        same_capacity = f.same_capacity;
        same_nullelem = f.same_nullelem;
      }

  -- The block copy of `reset` puts the elements behind the last slot.
  block_cursor :
      (c p : ℕ) (array elems : List A)
      → c < size_mod
      → p + 1 ≡ c
      → 0 < length elems
      → length elems < c
      → let copied : Cursor A = record {
        array = write_block array 0 elems;
        pos = sub_size (length elems) 1;
      } in
        copied ≡ put_slots c (record { array = array; pos = p }) elems
  unfolding store_part
  block_cursor c p array elems small last pos fits =
      let near = next_pos_cases c p small (omega arith) in
      let first : next_pos c p ≡ 0 = omega arith in
      let end = last_pos-eq c small (next_pos c p) (length elems) pos (omega arith) in
      ap₂ (λ j q. record { array = write_block array j elems; pos = q }) (sym first) (omega arith)
      ∙ store_part-eq c small elems (record { array = array; pos = p }) pos (omega arith)

  refill-Filled :
      (t : Traits) (heap : Arrays A) {nullelem : A} (elems : List A) {r : Ringbuffer A}
      → 0 < length elems
      → Room nullelem (length elems) r
      → Filled nullelem r.capacity_plus_one elems (refill t heap elems r)
  unfolding refill
  refill-Filled t heap {nullelem} elems {r} pos m =
      let c = r.capacity_plus_one in
      let v = m.filled.valid in
      elim (Bool-cases t.uses_memcpy) [
        | inl bytes ↦
            let last = sub_size c 1 in
            let start : Ringbuffer A = record r { read_pos = last; write_pos = last } in
            let valid : IsValid start = record {
              storage = v.storage;
              nonempty = v.nonempty;
              small = v.small;
              read_in = omega arith;
              write_in = omega arith;
            } in
            let empty : Filled nullelem c [] start = record {
              valid = valid;
              held = (Filled-nil valid refl).held;
              same_capacity = refl;
              same_nullelem = m.filled.same_nullelem;
            } in
            let cursor = block_cursor c last r.array elems v.small (omega arith) pos m.room in
            rw (bytes, ap (λ s. record start { array = s.array; write_pos = s.pos }) cursor)
              (fill_empty elems empty m.room)
        | inr walk ↦ rw walk (fill_empty elems m.filled m.room)
      ]

  resized-Room :
      (t : Traits) (heap : Arrays A) {nullelem : A} (count : ℕ) {r : Ringbuffer A}
      → 0 < count
      → count + 1 < size_mod
      → Filled nullelem r.capacity_plus_one [] r
      → Room nullelem count (resized t heap count r)
        × ((resized t heap count r).capacity_plus_one ≡ max r.capacity_plus_one (count + 1))
  unfolding resized
  resized-Room t heap count {r} pos small f =
      let v = f.valid in
      elim (dec_lt (sub_size r.capacity_plus_one 1) count) [
        | yes large ↦
            let c = add_size count 1 in
            let valid : IsValid (record r {
              capacity_plus_one = c;
              array = heap.new_array c;
              read_pos = 0;
              write_pos = 0;
            }) =
              record {
                storage = heap.length-new_array c;
                nonempty = omega arith;
                small = omega arith;
                read_in = omega arith;
                write_in = omega arith;
              } in
            rw (lt→ltb _ _ large) (
              record {
                filled = record {
                  valid = valid;
                  held = (Filled-nil valid refl).held;
                  same_capacity = refl;
                  same_nullelem = f.same_nullelem;
                };
                room = omega arith;
              },
              omega arith,
            )
        | no fits ↦
            rw (le→ltb_false (sub_size r.capacity_plus_one 1) count (omega arith))
              (record { filled = f; room = omega arith }, omega arith)
      ]

  -- `reset` of a well-formed buffer with elements whose number plus one is below 2^64 does not
  -- abort and leaves exactly these elements, in the old capacity or a larger one that just fits.
  pub reset-Filled :
      (t : Traits) (heap : Arrays A) (elems : List A) {r : Ringbuffer A}
      → IsValid r
      → length elems + 1 < size_mod
      → Ends
          (Filled r.nullelem (max r.capacity_plus_one (length elems + 1)) elems)
          (reset t heap elems r)
  unfolding reset
  reset-Filled t heap [] {r} v small =
      Ends-bind _
        (λ s f. ends (record {
          valid = f.valid;
          held = f.held;
          same_capacity = let e = f.same_capacity in omega arith;
          same_nullelem = f.same_nullelem;
        }))
        (clear-Filled t v)
  reset-Filled t heap (e ∷ elems) {r} v small =
      let n = length (e ∷ elems) in
      rw (lt→ltb 0 n (omega arith)) (
        Ends-bind _
          (λ s f.
            let room = resized-Room t heap n (omega arith) small (record {
              valid = f.valid;
              held = f.held;
              same_capacity = refl;
              same_nullelem = f.same_nullelem;
            }) in
            let filled = refill-Filled t heap (e ∷ elems) (omega arith) room.0 in
            let same = f.same_capacity in
            ends (record {
              valid = filled.valid;
              held = filled.held;
              same_capacity = filled.same_capacity ∙ room.1 ∙ ap (λ c. max c (n + 1)) same;
              same_nullelem = filled.same_nullelem;
            }))
          (clear-Filled t v))
