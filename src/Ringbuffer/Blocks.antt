-- ===== src/Ringbuffer/Blocks.antt =====
-- The contiguous parts that the range operations of include/jau/ringbuffer.hpp copy and clear do
-- what as many single steps round the ring do.
use native.Mathlib.Nat.{mod-eq_of_lt}
use jaulib.Prelude.{
  ℕ, zero, suc, ◌+◌, ◌-◌, ◌≤◌, ◌<◌, ◌≡◌, refl, sym, ap, ap₂, ◌∙◌, List, [], ◌∷◌, ◌++◌, append_assoc,
  length-append, set-append, length, get_or, set, size_mod, add_size, sub_size, arith,
}
use jaulib.Ringbuffer.{
  next_pos, last_pos, Cursor, put_slot, put_slots, null_slots, write_block, fill_block, read_block,
}
use jaulib.Ringbuffer.Slots.{window, next_pos_cases}
use jaulib.Ringbuffer.Ops.{store_part, clear_part}

module _ (c : ℕ) (small : c < size_mod) where
  -- Inside the array the positions of a part do not go round.
  pub last_pos-eq : (i n : ℕ) → 0 < n → i + n ≤ c → last_pos c i n ≡ i + n - 1
  unfolding last_pos
  last_pos-eq i n h k =
      let e : sub_size (add_size i n) 1 ≡ i + n - 1 = omega arith in
      rw e (mod-eq_of_lt {n = i + n - 1} {m = c} (omega arith))

  next_pos_inner : (i : ℕ) → suc i < c → next_pos c i ≡ add_size i 1
  next_pos_inner i h = let near = next_pos_cases c i small (omega arith) in omega arith

  last_pos_shift :
      (i n : ℕ)
      → i + suc (suc n) ≤ c
      → last_pos c i (suc (suc n)) ≡ last_pos c (next_pos c i) (suc n)
  last_pos_shift i n h =
      let inner = next_pos_inner i (omega arith) in
      last_pos-eq i (suc (suc n)) (omega arith) h
      ∙ omega (arith, last_pos-eq (next_pos c i) (suc n) (omega arith) (omega arith))

  module _ {ℓ} {A : Type ℓ} where
    write_block-eq :
        (elems : List A) (e : A) (s : Cursor A)
        → next_pos c s.pos + suc (length elems) ≤ c
        → store_part c s (e ∷ elems) ≡ put_slots c s (e ∷ elems)
    unfolding store_part write_block put_slots
    write_block-eq [] e s h =
        let i = next_pos c s.pos in
        let last : last_pos c i 1 ≡ i = last_pos-eq i 1 (omega arith) h ∙ omega arith in
        ap (λ q. record { array = set s.array i e; pos = q }) last
    write_block-eq (e' ∷ elems) e s h =
        let i = next_pos c s.pos in
        let inner = next_pos_inner i (omega arith) in
        let rest = write_block-eq elems e' (put_slot c s e) (omega arith) in
        ap₂ (λ j q. record { array = write_block (set s.array i e) j (e' ∷ elems); pos = q })
          (sym inner) (last_pos_shift i (length elems) h)
        ∙ rest

    fill_block-eq :
        (nullelem : A) (n : ℕ) (s : Cursor A)
        → next_pos c s.pos + suc n ≤ c
        → clear_part nullelem c s (suc n) ≡ null_slots c nullelem s (suc n)
    unfolding clear_part fill_block null_slots
    fill_block-eq nullelem zero s h =
        let i = next_pos c s.pos in
        let last : last_pos c i 1 ≡ i = last_pos-eq i 1 (omega arith) h ∙ omega arith in
        ap (λ q. record { array = set s.array i nullelem; pos = q }) last
    fill_block-eq nullelem (suc n) s h =
        let i = next_pos c s.pos in
        let inner = next_pos_inner i (omega arith) in
        let rest = fill_block-eq nullelem n (put_slot c s nullelem) (omega arith) in
        ap₂
          (λ j q. record {
            array = fill_block nullelem (set s.array i nullelem) j (suc n);
            pos = q;
          })
          (sym inner) (last_pos_shift i n h)
        ∙ rest

    -- A part that is put is put slot by slot.
    pub store_part-eq :
        (elems : List A) (s : Cursor A)
        → 0 < length elems
        → next_pos c s.pos + length elems ≤ c
        → store_part c s elems ≡ put_slots c s elems
    store_part-eq [] s pos h = elim pos [ ]
    store_part-eq (e ∷ elems) s pos h = write_block-eq elems e s h

    -- A part that is cleared is cleared slot by slot.
    pub clear_part-eq :
        (nullelem : A) (n : ℕ) (s : Cursor A)
        → 0 < n
        → next_pos c s.pos + n ≤ c
        → clear_part nullelem c s n ≡ null_slots c nullelem s n
    clear_part-eq nullelem zero s pos h = elim pos [ ]
    clear_part-eq nullelem (suc n) s pos h = fill_block-eq nullelem n s h

    -- A part that is read is the window behind the position.
    pub read_block-eq :
        (nullelem : A) (array : List A) (n p : ℕ)
        → next_pos c p + n ≤ c
        → read_block nullelem array (next_pos c p) n ≡ window nullelem c array p n
    unfolding read_block window
    read_block-eq nullelem array zero p h = refl
    read_block-eq nullelem array (suc zero) p h = refl
    read_block-eq nullelem array (suc (suc n)) p h =
        let i = next_pos c p in
        let inner = next_pos_inner i (omega arith) in
        ap (λ l. get_or array i nullelem ∷ l)
          (rw (← inner) (read_block-eq nullelem array (suc n) i (omega arith)))

module _ {ℓ} {A : Type ℓ} where
  -- A block that reaches the end of the array replaces what stood there.
  write_block-append :
      (pre rest xs : List A) (pos : ℕ)
      → pos ≡ length pre
      → length rest ≡ length xs
      → pos + length xs < size_mod
      → write_block (pre ++ rest) pos xs ≡ pre ++ xs
  unfolding write_block
  write_block-append pre [] [] pos e len small = refl
  write_block-append pre [] (x ∷ xs) pos e len small = absurd (omega arith)
  write_block-append pre (y ∷ rest) [] pos e len small = absurd (omega arith)
  write_block-append pre (y ∷ rest) (x ∷ xs) pos e len small =
      let longer = length-append pre (x ∷ []) in
      let first : set (pre ++ (y ∷ rest)) pos x ≡ (pre ++ x ∷ []) ++ rest =
        rw e (set-append pre x y rest ∙ sym (append_assoc pre (x ∷ []) rest)) in
      rw first (
        write_block-append (pre ++ x ∷ []) rest xs (add_size pos 1) (omega arith) (omega arith)
          (omega arith)
        ∙ append_assoc pre (x ∷ []) xs)

  pub write_block_all :
      (array xs : List A)
      → length array ≡ length xs
      → length xs < size_mod
      → write_block array 0 xs ≡ xs
  write_block_all array xs len small = write_block-append [] array xs 0 refl len (omega arith)
