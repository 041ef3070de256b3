-- ===== src/Ringbuffer/Gets.antt =====
-- What the reading halves of the get and drop operations of include/jau/ringbuffer.hpp do to the
-- elements held, and what they hand out.
use jaulib.Prelude.{
  ℕ, suc, zero, ◌+◌, ◌-◌, ◌≤◌, ◌<◌, ◌≡◌, refl, ◌∙◌, ap, ap₂, [], ◌∷◌, ◌++◌, ltb, size_mod, arith,
  take, drop, min, take-append_length, drop-append_length, sym, if◌then◌else◌, append-nil,
  Bool-cases, inl, inr, sub_size, lt→ltb, get_or,
}
use jaulib.Ringbuffer.{Ringbuffer, next_pos, Cursor, null_slots, get_size, read_block}
use jaulib.Ringbuffer.Slots.{
  window, next_pos_cases, IsAhead, window-null_slots, window-add, pos-null_slots, length-null_slots,
  length-window, null_slots-add, advance, advance-lt, advance-IsAhead,
}
use jaulib.Ringbuffer.Blocks.{clear_part-eq, read_block-eq, last_pos-eq}
use jaulib.Ringbuffer.Ops.{take_one, clear_part, drop_range, take_range}
use jaulib.Ringbuffer.Invariant.{IsValid, contents, counts, get_size_unique}

module _ {ℓ} {A : Type ℓ} where
  -- `r'` is `r` without its `n` oldest elements.
  pub record Taken (r : Ringbuffer A) (n : ℕ) (r' : Ringbuffer A) : Type ℓ where
    pub valid : IsValid r'
    pub held : contents r' ≡ drop n (contents r)
    pub size : get_size r' + n ≡ get_size r
    pub same_capacity : r'.capacity_plus_one ≡ r.capacity_plus_one
    pub same_nullelem : r'.nullelem ≡ r.nullelem

  abbrev pub read_cursor : Ringbuffer A → Cursor A
  read_cursor r = record { array = r.array; pos = r.read_pos }

  -- The slots read and cleared one by one.
  abbrev pub with_nulls : ℕ → Ringbuffer A → Ringbuffer A
  with_nulls n r =
      let end = null_slots r.capacity_plus_one r.nullelem (read_cursor r) n in
      record r { array = end.array; read_pos = end.pos }

  -- The oldest elements, and the rest.
  contents_split :
      (r : Ringbuffer A) (n m : ℕ)
      → n + m ≡ get_size r
      → contents r
        ≡ window r.nullelem r.capacity_plus_one r.array r.read_pos n
          ++ window r.nullelem r.capacity_plus_one r.array
              (advance r.capacity_plus_one r.read_pos n)
              m
  contents_split r n m e =
      rw (← e) (window-add r.capacity_plus_one r.nullelem r.array r.read_pos n m)

  take-contents :
      (r : Ringbuffer A) (n : ℕ)
      → n ≤ get_size r
      → take n (contents r) ≡ window r.nullelem r.capacity_plus_one r.array r.read_pos n
  take-contents r n h =
      ap (take n) (contents_split r n (get_size r - n) (omega arith))
      ∙ take-append_length _ _ n (length-window r.nullelem r.capacity_plus_one r.array r.read_pos n)

  pub with_nulls-Taken :
      {r : Ringbuffer A} (n : ℕ) → IsValid r → n ≤ get_size r → Taken r n (with_nulls n r)
  with_nulls-Taken {r} n v h =
      let c = r.capacity_plus_one in
      let s = read_cursor r in
      let sizes = counts v in
      let m = get_size r - n in
      let same_pos = pos-null_slots c r.nullelem s n in
      let inside : (with_nulls n r).read_pos < c =
        rw same_pos (advance-lt c v.small r.read_pos n v.read_in) in
      let there : IsAhead c r.read_pos n (with_nulls n r).read_pos =
        rw same_pos (advance-IsAhead c v.small r.read_pos n v.read_in (omega arith)) in
      let valid : IsValid (with_nulls n r) = record {
        storage = length-null_slots c r.nullelem s n ∙ v.storage;
        nonempty = v.nonempty;
        small = v.small;
        read_in = inside;
        write_in = v.write_in;
      } in
      let size : get_size (with_nulls n r) ≡ m =
        get_size_unique m valid (omega arith) (omega arith) in
      let kept = window-null_slots c r.nullelem s n m v.small v.read_in (omega arith) in
      let rest =
        drop-append_length (window r.nullelem c r.array r.read_pos n)
          (window r.nullelem c r.array (advance c r.read_pos n) m) n
          (length-window r.nullelem c r.array r.read_pos n) in
      record {
        valid = valid;
        held =
            rw (size, same_pos)
              (kept ∙ sym rest ∙ ap (drop n) (sym (contents_split r n m (omega arith))));
        size = omega arith;
        same_capacity = refl;
        same_nullelem = refl;
      }

  -- The oldest element is handed out, and its slot is cleared.
  pub take_one-Taken :
      {r : Ringbuffer A}
      → IsValid r
      → 0 < get_size r
      → Taken r 1 (take_one r).1 × (contents r ≡ (take_one r).0 ∷ contents (take_one r).1)
  unfolding take_one null_slots window
  take_one-Taken {r} v h =
      let t = with_nulls-Taken 1 v h in
      let split = contents_split r 1 (get_size r - 1) (omega arith) in
      let e = get_or r.array (next_pos r.capacity_plus_one r.read_pos) r.nullelem in
      (t, split ∙ ap (λ l. e ∷ l) (sym (t.held ∙ ap (drop 1) split)))

  next_pos_of_tail :
      (c : ℕ) (nullelem : A) (s : Cursor A) (m : ℕ)
      → c < size_mod
      → 0 < m
      → next_pos c s.pos + m ≡ c
      → next_pos c (clear_part nullelem c s m).pos ≡ 0
  unfolding clear_part
  next_pos_of_tail c nullelem s m small pos end =
      let last = last_pos-eq c small (next_pos c s.pos) m pos (omega arith) in
      let near = next_pos_cases c (c - 1) small (omega arith) in
      let e : next_pos c s.pos + m - 1 ≡ c - 1 = omega arith in rw (last, e) (omega arith)

  -- A tail that reaches the end of the array, or all there is to clear, and then the head.
  clear_parts-eq :
      (c : ℕ) (nullelem : A) (s : Cursor A) (m n : ℕ)
      → c < size_mod
      → 0 < m
      → next_pos c s.pos + m ≤ c
      → n < c
      → (0 < n → next_pos c s.pos + m ≡ c)
      → (if ltb 0 n
          then clear_part nullelem c (clear_part nullelem c s m) n
          else clear_part nullelem c s m)
        ≡ null_slots c nullelem s (m + n)
  clear_parts-eq c nullelem s m zero small pos fits short end =
      let e : m + 0 ≡ m = omega arith in rw e (clear_part-eq c small nullelem m s pos fits)
  clear_parts-eq c nullelem s m (suc n) small pos fits short end =
      let tail = clear_part-eq c small nullelem m s pos fits in
      let next =
        ap (λ t. next_pos c t.pos) (sym tail)
        ∙ next_pos_of_tail c nullelem s m small pos (end (omega arith)) in
      rw (lt→ltb 0 (suc n) (omega arith), tail, null_slots-add)
        (clear_part-eq c small nullelem (suc n) (null_slots c nullelem s m) (omega arith)
          (omega arith))

  -- The head is read after the tail was cleared.
  read_parts-eq :
      (c : ℕ) (nullelem : A) (s : Cursor A) (m n : ℕ)
      → c < size_mod
      → s.pos < c
      → 0 < m
      → next_pos c s.pos + m ≤ c
      → m + n < c
      → (0 < n → next_pos c s.pos + m ≡ c)
      → let t = clear_part nullelem c s m in
        read_block nullelem s.array (next_pos c s.pos) m
          ++ (if ltb 0 n then read_block nullelem t.array (next_pos c t.pos) n else [])
        ≡ window nullelem c s.array s.pos (m + n)
  read_parts-eq c nullelem s m zero small inside pos fits short end =
      let e : m + 0 ≡ m = omega arith in
      rw (e, append-nil) (read_block-eq c small nullelem s.array m s.pos fits)
  read_parts-eq c nullelem s m (suc n) small inside pos fits short end =
      let tail = clear_part-eq c small nullelem m s pos fits in
      let next =
        ap (λ t. next_pos c t.pos) (sym tail)
        ∙ next_pos_of_tail c nullelem s m small pos (end (omega arith)) in
      let t = null_slots c nullelem s m in
      let head =
        read_block-eq c small nullelem t.array (suc n) t.pos (omega arith)
        ∙ ap (λ p. window nullelem c t.array p (suc n)) (pos-null_slots c nullelem s m)
        ∙ window-null_slots c nullelem s m (suc n) small inside short in
      rw (lt→ltb 0 (suc n) (omega arith), tail, window-add)
        (ap₂ ◌++◌ (read_block-eq c small nullelem s.array m s.pos fits) head)

  drop_range-eq :
      {r : Ringbuffer A} (n : ℕ)
      → IsValid r
      → 0 < n
      → n ≤ get_size r
      → drop_range n r ≡ with_nulls n r
  unfolding drop_range
  drop_range-eq {r} n v pos h =
      let c = r.capacity_plus_one in
      let s = read_cursor r in
      let sizes = counts v in
      let near = next_pos_cases c r.read_pos v.small v.read_in in
      let k = min n (sub_size c (next_pos c r.read_pos)) in
      elim (Bool-cases (ltb r.write_pos r.read_pos)) [
        | inl wraps ↦
            let parts =
              clear_parts-eq c r.nullelem s k (sub_size n k) v.small (omega arith) (omega arith)
                (omega arith) (λ q. omega arith) in
            let all : k + sub_size n k ≡ n = omega arith in
            rw wraps (
              ap (λ t. record r { array = t.array; read_pos = t.pos })
                (parts ∙ ap (null_slots c r.nullelem s) all))
        | inr inner ↦
            let ordered : r.read_pos ≤ r.write_pos = ground arith in
            rw (inner, lt→ltb 0 n pos)
              (ap (λ t. record r { array = t.array; read_pos = t.pos })
                (clear_part-eq c v.small r.nullelem n s pos (omega arith)))
      ]

  take_range-eq :
      {r : Ringbuffer A} (n : ℕ)
      → IsValid r
      → 0 < n
      → n ≤ get_size r
      → (take_range n r).0 ≡ take n (contents r)
  unfolding take_range
  take_range-eq {r} n v pos h =
      let c = r.capacity_plus_one in
      let s = read_cursor r in
      let sizes = counts v in
      let near = next_pos_cases c r.read_pos v.small v.read_in in
      let k = min n (sub_size c (next_pos c r.read_pos)) in
      elim (Bool-cases (ltb r.write_pos r.read_pos)) [
        | inl wraps ↦
            let parts =
              read_parts-eq c r.nullelem s k (sub_size n k) v.small v.read_in (omega arith)
                (omega arith) (omega arith) (λ q. omega arith) in
            let all : k + sub_size n k ≡ n = omega arith in
            rw (take-contents, wraps) (parts ∙ ap (window r.nullelem c r.array r.read_pos) all)
        | inr inner ↦
            let ordered : r.read_pos ≤ r.write_pos = ground arith in
            rw (take-contents, inner, lt→ltb 0 n pos)
              (read_block-eq c v.small r.nullelem r.array n r.read_pos (omega arith))
      ]

  -- A get of a range leaves the buffer as a drop of as many elements does.
  pub take_range-drop_range : (r : Ringbuffer A) (n : ℕ) → (take_range n r).1 ≡ drop_range n r
  unfolding take_range drop_range
  take_range-drop_range r n = refl

  -- The oldest elements are dropped.
  pub drop_range-Taken :
      {r : Ringbuffer A} (n : ℕ) → IsValid r → 0 < n → n ≤ get_size r → Taken r n (drop_range n r)
  drop_range-Taken n v pos h = rw (drop_range-eq n v pos h) (with_nulls-Taken n v h)

  -- Getting `n` elements, of which a well-formed buffer holds at least so many and `n` is not 0,
  -- hands out the `n` oldest in order and leaves a well-formed buffer with the others.
  pub take_range-Taken :
      {r : Ringbuffer A} (n : ℕ)
      → IsValid r
      → 0 < n
      → n ≤ get_size r
      → Taken r n (take_range n r).1 × ((take_range n r).0 ≡ take n (contents r))
  take_range-Taken {r} n v pos h =
      (rw (take_range-drop_range r n) (drop_range-Taken n v pos h), take_range-eq n v pos h)
