-- ===== src/Ringbuffer/Puts.antt =====
-- What the storing halves of the put operations of include/jau/ringbuffer.hpp do to the elements held.
use jaulib.Prelude.{
  ℕ, ◌+◌, ◌-◌, ◌≤◌, ◌<◌, ◌≡◌, refl, ◌∙◌, ap, List, [], ◌∷◌, ◌++◌, leb, length, size_mod, arith,
  take, drop, min, length-take, length-drop, take-append-drop, sym, ltb, if◌then◌else◌, append-nil,
  Bool-cases, inl, inr, sub_size, lt→ltb,
}
use jaulib.Ringbuffer.{Ringbuffer, next_pos, Cursor, put_slots, get_size, get_free_slots}
use jaulib.Ringbuffer.Slots.{
  next_pos_cases, IsAhead, window-put_slots, pos-put_slots, length-put_slots, put_slots-append,
  advance-lt, advance-IsAhead,
}
use jaulib.Ringbuffer.Blocks.{store_part-eq, last_pos-eq}
use jaulib.Ringbuffer.Ops.{store_one, store_part, store_range}
use jaulib.Ringbuffer.Invariant.{IsValid, contents, counts, get_size_unique}

module _ {ℓ} {A : Type ℓ} where
  -- `r'` is `r` with the elements put behind those that it held.
  pub record Stored (r : Ringbuffer A) (elems : List A) (r' : Ringbuffer A) : Type ℓ where
    pub valid : IsValid r'
    pub held : contents r' ≡ contents r ++ elems
    pub size : get_size r' ≡ get_size r + length elems
    pub same_capacity : r'.capacity_plus_one ≡ r.capacity_plus_one
    pub same_nullelem : r'.nullelem ≡ r.nullelem

  abbrev pub write_cursor : Ringbuffer A → Cursor A
  write_cursor r = record { array = r.array; pos = r.write_pos }

  -- The elements put slot by slot.
  abbrev pub with_puts : List A → Ringbuffer A → Ringbuffer A
  with_puts elems r =
      let end = put_slots r.capacity_plus_one (write_cursor r) elems in
      record r { array = end.array; write_pos = end.pos }

  pub with_puts-Stored :
      {r : Ringbuffer A} (elems : List A)
      → IsValid r
      → length elems ≤ get_free_slots r
      → Stored r elems (with_puts elems r)
  with_puts-Stored {r} elems v fits =
      let c = r.capacity_plus_one in
      let s = write_cursor r in
      let n = counts v in
      let k = length elems in
      let same_pos = pos-put_slots c s elems in
      let inside : (with_puts elems r).write_pos < c =
        rw same_pos (advance-lt c v.small r.write_pos k v.write_in) in
      let there : IsAhead c r.write_pos k (with_puts elems r).write_pos =
        rw same_pos (advance-IsAhead c v.small r.write_pos k v.write_in (omega arith)) in
      let valid : IsValid (with_puts elems r) = record {
        storage = length-put_slots c s elems ∙ v.storage;
        nonempty = v.nonempty;
        small = v.small;
        read_in = v.read_in;
        write_in = inside;
      } in
      let size : get_size (with_puts elems r) ≡ get_size r + k =
        get_size_unique (get_size r + k) valid (omega arith) (omega arith) in
      record {
        valid = valid;
        held = rw size (
            window-put_slots r.nullelem c v.small elems s (get_size r) r.read_pos v.storage
              v.read_in v.write_in (omega arith) n.ahead);
        size = size;
        same_capacity = refl;
        same_nullelem = refl;
      }

  -- After a tail that reaches the end of the array the next position is 0.
  next_pos_of_tail :
      (c : ℕ) (s : Cursor A) (xs : List A)
      → c < size_mod
      → 0 < length xs
      → next_pos c s.pos + length xs ≡ c
      → next_pos c (store_part c s xs).pos ≡ 0
  unfolding store_part
  next_pos_of_tail c s xs small pos end =
      let last = last_pos-eq c small (next_pos c s.pos) (length xs) pos (omega arith) in
      let near = next_pos_cases c (c - 1) small (omega arith) in
      let e : next_pos c s.pos + length xs - 1 ≡ c - 1 = omega arith in rw (last, e) (omega arith)

  -- A tail that reaches the end of the array, or all there is to put, and then the head.
  store_parts-eq :
      (c : ℕ) (s : Cursor A) (xs ys : List A)
      → c < size_mod
      → 0 < length xs
      → next_pos c s.pos + length xs ≤ c
      → length ys < c
      → (0 < length ys → next_pos c s.pos + length xs ≡ c)
      → (if ltb 0 (length ys) then store_part c (store_part c s xs) ys else store_part c s xs)
        ≡ put_slots c s (xs ++ ys)
  store_parts-eq c s xs [] small pos fits short end =
      rw append-nil (store_part-eq c small xs s pos fits)
  store_parts-eq c s xs (y ∷ ys) small pos fits short end =
      let tail = store_part-eq c small xs s pos fits in
      let next =
        ap (λ t. next_pos c t.pos) (sym tail)
        ∙ next_pos_of_tail c s xs small pos (end (omega arith)) in
      rw (lt→ltb 0 (length (y ∷ ys)) (omega arith), tail, put_slots-append)
        (store_part-eq c small (y ∷ ys) (put_slots c s xs) (omega arith) (omega arith))

  store_range-eq :
      {r : Ringbuffer A} (elems : List A)
      → IsValid r
      → 0 < length elems
      → length elems ≤ get_free_slots r
      → store_range elems r ≡ with_puts elems r
  unfolding store_range
  store_range-eq {r} elems v pos fits =
      let c = r.capacity_plus_one in
      let s = write_cursor r in
      let n = counts v in
      let near = next_pos_cases c r.write_pos v.small v.write_in in
      let i = next_pos c r.write_pos in
      let k = min (length elems) (sub_size c i) in
      elim (Bool-cases (leb r.read_pos r.write_pos)) [
        | inl wraps ↦
            let tail = length-take k elems in
            let head = length-drop k elems in
            let parts =
              store_parts-eq c s (take k elems) (drop k elems) v.small (omega arith) (omega arith)
                (omega arith) (λ h. omega arith) in
            rw wraps (
              ap (λ t. record r { array = t.array; write_pos = t.pos })
                (parts ∙ ap (put_slots c s) (take-append-drop k elems)))
        | inr inner ↦
            let ordered : r.write_pos < r.read_pos = ground arith in
            rw (inner, lt→ltb 0 (length elems) pos)
              (ap (λ t. record r { array = t.array; write_pos = t.pos })
                (store_part-eq c v.small elems s pos (omega arith)))
      ]

  -- Putting a range that is not empty and fits the free slots of a well-formed buffer, in one
  -- part or wrapped round the end of the array, leaves a well-formed buffer with these elements
  -- behind those it held.
  pub store_range-Stored :
      {r : Ringbuffer A} (elems : List A)
      → IsValid r
      → 0 < length elems
      → length elems ≤ get_free_slots r
      → Stored r elems (store_range elems r)
  store_range-Stored elems v pos fits =
      rw (store_range-eq elems v pos fits) (with_puts-Stored elems v fits)

  -- So is one element.
  pub store_one-Stored :
      {r : Ringbuffer A} (e : A)
      → IsValid r
      → 0 < get_free_slots r
      → Stored r (e ∷ []) (store_one e r)
  unfolding store_one put_slots
  store_one-Stored e v free = with_puts-Stored (e ∷ []) v free
