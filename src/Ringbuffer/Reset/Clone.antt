-- ===== src/Ringbuffer/Reset/Clone.antt =====
-- The constructors, the copy constructor and `operator=` of include/jau/ringbuffer.hpp.
use jaulib.Prelude.{
  ℕ, zero, suc, ◌+◌, ◌<◌, ◌≡◌, refl, sym, ap, ◌∙◌, true, false, List, [], ==_iff, length, size_mod,
  arith, Bool-cases, inl, inr, add_size, ℕ_discrete, get_or, ne→==_false, take-length, Bool,
}
use jaulib.Ringbuffer.{Ringbuffer, Traits, Cursor, get_size, next_pos, put_slot, put_slots}
use jaulib.Ringbuffer.Slots.{
  window, window-put_slots, pos-put_slots, length-put_slots, advance, advance-lt, advance-IsAhead,
  IsAhead-unique,
}
use jaulib.Ringbuffer.Blocks.{write_block_all}
use jaulib.Ringbuffer.Invariant.{IsValid, contents, counts, length-contents}
use jaulib.Ringbuffer.Reset.{
  Ends, ends, Ends-bind, Ends-map, Arrays, copy_slots, new, new_from, clone_into, clone_from, copy,
  assign,
}
use jaulib.Ringbuffer.Reset.Clear.{Filled, Filled-nil, clear-Filled, reset-Filled}

module _ {ℓ} {A : Type ℓ} where
  -- Copying slots is putting the elements that stand there.
  pub copy_slots-eq :
      (d : A) (c c_src : ℕ) (src : List A) (s : Cursor A) (src_pos n : ℕ)
      → copy_slots d c c_src src s src_pos n ≡ put_slots c s (window d c_src src src_pos n)
  unfolding copy_slots window put_slots
  copy_slots-eq d c c_src src s src_pos zero = refl
  copy_slots-eq d c c_src src s src_pos (suc n) =
      let i = next_pos c_src src_pos in
      copy_slots-eq d c c_src src (put_slot c s (get_or src i d)) i n

  -- A new buffer is empty.
  pub new-Filled :
      (t : Traits) (heap : Arrays A) (nullelem : A) (cap : ℕ)
      → cap + 1 < size_mod
      → Filled nullelem (cap + 1) [] (new t heap nullelem cap)
  unfolding new
  new-Filled t heap nullelem cap small =
      let c = add_size cap 1 in
      let valid : IsValid (new t heap nullelem cap) = record {
        storage = heap.length-new_array c;
        nonempty = omega arith;
        small = omega arith;
        read_in = omega arith;
        write_in = omega arith;
      } in
      record {
        valid = valid;
        held = (Filled-nil valid refl).held;
        same_capacity = omega arith;
        same_nullelem = refl;
      }

  -- A buffer made from elements whose number plus one is below 2^64 holds them, and has no free
  -- slot.
  pub new_from-Filled :
      (t : Traits) (heap : Arrays A) (nullelem : A) (elems : List A)
      → length elems + 1 < size_mod
      → Ends (Filled nullelem (length elems + 1) elems) (new_from t heap nullelem elems)
  unfolding new_from
  new_from-Filled t heap nullelem elems small =
      let f = new-Filled t heap nullelem (length elems) small in
      let same = f.same_capacity in
      Ends-map
        (λ s g. record {
          valid = g.valid;
          held = g.held;
          same_capacity = let e = g.same_capacity in omega arith;
          same_nullelem = g.same_nullelem ∙ f.same_nullelem;
        })
        (reset-Filled t heap elems f.valid small)

  -- The size goes by the positions alone.
  same_size :
      (r s : Ringbuffer A)
      → r.capacity_plus_one ≡ s.capacity_plus_one
      → r.read_pos ≡ s.read_pos
      → r.write_pos ≡ s.write_pos
      → get_size r ≡ get_size s
  unfolding get_size
  same_size r s c p q = rw (c, p, q)

  module _ (t : Traits) (heap : Arrays A) {source : Ringbuffer A} (v : IsValid source) where
    abbrev c : ℕ
    c = source.capacity_plus_one

    -- What the copying loop leaves in the array.
    record Copied (array : List A) (end : Cursor A) : Type ℓ where
      storage : length end.array ≡ c
      last : source.write_pos ≡ end.pos
      held : window source.nullelem c end.array source.read_pos (get_size source) ≡ contents source

    copy_slots-Copied :
        (array : List A)
        → length array ≡ c
        → Copied array (
            copy_slots source.nullelem c c source.array
              (record { array = array; pos = source.read_pos })
              source.read_pos
              (get_size source))
    unfolding window
    copy_slots-Copied array len =
        let s : Cursor A = record { array = array; pos = source.read_pos } in
        let elems = contents source in
        let n = counts v in
        let size = length-contents source in
        let put =
          window-put_slots source.nullelem c v.small elems s 0 source.read_pos len v.read_in
            v.read_in (omega arith) (omega arith) in
        let all : 0 + length elems ≡ get_size source = omega arith in
        let there =
          IsAhead-unique c source.read_pos (length elems) source.write_pos
            (advance c source.read_pos (length elems)) v.write_in
            (advance-lt c v.small source.read_pos (length elems) v.read_in) (omega arith)
            (advance-IsAhead c v.small source.read_pos (length elems) v.read_in (omega arith)) in
        rw (copy_slots-eq source.nullelem c c source.array s source.read_pos (get_size source))
          (record {
            storage = length-put_slots c s elems ∙ len;
            last = there ∙ sym (pos-put_slots c s elems);
            held = (rw all at put);
          })

    Filled-by :
        (array : List A) (len : length array ≡ c) {end : Cursor A}
        → Copied array end
        → Filled source.nullelem c (contents source) (record source { array = end.array })
    Filled-by array len {end} k = record {
      valid = record {
        storage = k.storage;
        nonempty = v.nonempty;
        small = v.small;
        read_in = v.read_in;
        write_in = v.write_in;
      };
      held =
          ap (window source.nullelem c end.array source.read_pos)
            (same_size (record source { array = end.array }) source refl refl refl)
          ∙ k.held;
      same_capacity = refl;
      same_nullelem = refl;
    }

    clone_into-Filled :
        (array : List A) (r : Ringbuffer A)
        → r.nullelem ≡ source.nullelem
        → length array ≡ c
        → Ends (Filled source.nullelem c (contents source)) (clone_into t heap array source r)
    unfolding clone_into
    clone_into-Filled array r null len = elim (Bool-cases t.uses_memcpy) [
      | inl bytes ↦
          let all = write_block_all array source.array (len ∙ sym v.storage) (omega arith) in
          rw (null, bytes, take-length c source.array v.storage, all)
            (ends (record { valid = v; held = refl; same_capacity = refl; same_nullelem = refl }))
      | inr walk ↦
          let k = copy_slots-Copied array len in
          let cloned : Ringbuffer A = record source { array = array } in
          rw (null, walk, same_size cloned source refl refl refl, (==_iff _ _).1 k.last)
            (ends (Filled-by array len k))
    ]

    -- What `clone_from` has to start with: an array of the right length, and the same `nullelem`.
    clone_from-Filled :
        (alloc : Bool) (r : Ringbuffer A)
        → r.nullelem ≡ source.nullelem
        → length r.array ≡ r.capacity_plus_one
        → (alloc ≡ false → r.capacity_plus_one ≡ c)
        → Ends (Filled source.nullelem c (contents source)) (clone_from t heap alloc source r)
    unfolding clone_from
    clone_from-Filled true r null len same =
        clone_into-Filled (heap.new_array c) r null (heap.length-new_array c)
    clone_from-Filled false r null len same =
        rw ((==_iff _ _).1 (same refl)) (clone_into-Filled r.array r null (len ∙ same refl))

    -- The copy of a well-formed buffer holds the same elements in the same order, with the same
    -- capacity and null element.
    pub copy-Filled : Ends (Filled source.nullelem c (contents source)) (copy t heap source)
    unfolding copy
    copy-Filled = clone_from-Filled false _ refl (heap.length-new_array c) (λ e. refl)

    -- Assigning a well-formed buffer to another well-formed one, whatever the capacity of the
    -- target was, does not abort and leaves the target with the elements, the capacity and the
    -- null element of the source.
    pub assign-Filled :
        {r : Ringbuffer A}
        → IsValid r
        → Ends (Filled source.nullelem c (contents source)) (assign t heap source r)
    unfolding assign
    assign-Filled {r} w = elim (ℕ_discrete r.capacity_plus_one c) [
      | yes same ↦ rw ((==_iff _ _).1 same) (
          Ends-bind _
            (λ s f.
              clone_from-Filled false s f.same_nullelem (f.valid.storage)
                (λ e. f.same_capacity ∙ same))
            (clear-Filled t {r = record r { nullelem = source.nullelem }} (record {
              storage = w.storage;
              nonempty = w.nonempty;
              small = w.small;
              read_in = w.read_in;
              write_in = w.write_in;
            })))
      | no other ↦ rw (ne→==_false _ _ other) (clone_from-Filled true _ refl w.storage (λ e. cc))
    ]
