-- ===== src/Ringbuffer/Refine/Acts.antt =====
-- A buffer of include/jau/ringbuffer.hpp holds a queue, and single steps on either keep it so.
use jaulib.Prelude.{
  ℕ, suc, ◌≤◌, ◌≡◌, sym, ap, ◌∙◌, List, [], ◌∷◌, ◌++◌, ltb, leb, ◌==◌, length, drop, arith,
  Bool-cases, inl, inr, append-nil, zero, le→leb, leb→le, ne→==_false,
}
use jaulib.Ringbuffer.{Ringbuffer, get_size, get_free_slots, is_empty, is_full}
use jaulib.Ringbuffer.Ops.{put_act, get_act}
use jaulib.Ringbuffer.Invariant.{
  IsValid, contents, counts, length-contents, is_empty_iff, is_full_iff,
}
use jaulib.Ringbuffer.Puts.{Stored, store_range-Stored}
use jaulib.Ringbuffer.Gets.{Taken, drop_range-Taken}
use jaulib.Ringbuffer.Queue

module _ {ℓ} {A : Type ℓ} (cap : ℕ) (nullelem : A) where
  -- The buffer is well formed, of that capacity, and holds the elements of the queue in order.
  pub record Holds (r : Ringbuffer A) (q : List A) : Type ℓ where
    pub valid : IsValid r
    pub held : contents r ≡ q
    pub same_capacity : r.capacity_plus_one ≡ suc cap
    pub same_nullelem : r.nullelem ≡ nullelem

  pub record Sizes (r : Ringbuffer A) (q : List A) : Type 0 where
    pub size : get_size r ≡ length q
    pub free : get_free_slots r ≡ Queue.free cap nullelem q
    pub bounded : length q ≤ cap

  pub sizes : {r : Ringbuffer A} {q : List A} → Holds r q → Sizes r q
  unfolding Queue.free
  sizes {r} {q} h =
      let same : get_size r ≡ length q = sym (length-contents r) ∙ ap length h.held in
      let n = counts h.valid in
      let c = h.same_capacity in record { size = same; free = omega arith; bounded = omega arith }

  pub Holds-Stored :
      {r r' : Ringbuffer A} {q elems : List A}
      → Holds r q
      → Stored r elems r'
      → Holds r' (q ++ elems)
  Holds-Stored {elems} h s = record {
    valid = s.valid;
    held = s.held ∙ ap (λ q. q ++ elems) h.held;
    same_capacity = s.same_capacity ∙ h.same_capacity;
    same_nullelem = s.same_nullelem ∙ h.same_nullelem;
  }

  pub Holds-Taken :
      {r r' : Ringbuffer A} {q : List A} {n : ℕ} → Holds r q → Taken r n r' → Holds r' (drop n q)
  Holds-Taken {n} h t = record {
    valid = t.valid;
    held = t.held ∙ ap (drop n) h.held;
    same_capacity = t.same_capacity ∙ h.same_capacity;
    same_nullelem = t.same_nullelem ∙ h.same_nullelem;
  }

  -- What a putter does while a getter waits.
  pub put_act-Holds :
      (elems : List A) (r : Ringbuffer A) (q : List A)
      → Holds r q
      → Holds (put_act elems r) (Queue.put_act cap nullelem elems q)
  unfolding put_act Queue.put_act
  put_act-Holds [] r q h = rw (le→leb 0 (Queue.free cap nullelem q) (omega arith), append-nil) h
  put_act-Holds (e ∷ elems) r q h =
      let z = sizes h in
      elim (Bool-cases (leb (length (e ∷ elems)) (get_free_slots r))) [
        | inl fits ↦
            rw
              (
                ne→==_false (length (e ∷ elems)) 0 (omega arith),
                fits,
                ap (leb (length (e ∷ elems))) (sym z.free) ∙ fits,
              )
              (Holds-Stored h
                (store_range-Stored (e ∷ elems) h.valid (omega arith) (leb→le _ _ fits)))
        | inr full ↦
            rw
              (
                ne→==_false (length (e ∷ elems)) 0 (omega arith),
                full,
                ap (leb (length (e ∷ elems))) (sym z.free) ∙ full,
              )
              h
      ]

  pub get_act-Holds :
      (count : ℕ) (r : Ringbuffer A) (q : List A)
      → Holds r q
      → Holds (get_act count r) (Queue.get_act cap nullelem count q)
  unfolding get_act Queue.get_act
  get_act-Holds zero r q h = rw (le→leb 0 (length q) (omega arith)) h
  get_act-Holds (suc n) r q h =
      let z = sizes h in
      elim (Bool-cases (leb (suc n) (get_size r))) [
        | inl fits ↦
            rw (ne→==_false (suc n) 0 (omega arith), fits, ap (leb (suc n)) (sym z.size) ∙ fits)
              (Holds-Taken h (drop_range-Taken (suc n) h.valid (omega arith) (leb→le _ _ fits)))
        | inr few ↦
            rw (ne→==_false (suc n) 0 (omega arith), few, ap (leb (suc n)) (sym z.size) ∙ few) h
      ]

  -- The tests of the waits.
  pub is_full-free :
      (r : Ringbuffer A) (q : List A) → Holds r q → is_full r ≡ (Queue.free cap nullelem q == 0)
  is_full-free r q h = let z = sizes h in ground (arith, is_full_iff h.valid)

  pub is_empty-length : (r : Ringbuffer A) (q : List A) → Holds r q → is_empty r ≡ (length q == 0)
  is_empty-length r q h = let z = sizes h in ground (arith, is_empty_iff h.valid)

  pub few_free :
      (n : ℕ) (r : Ringbuffer A) (q : List A)
      → Holds r q
      → ltb (get_free_slots r) n ≡ ltb (Queue.free cap nullelem q) n
  few_free n r q h = ap (λ k. ltb k n) (sizes h).free

  pub few_elems :
      (n : ℕ) (r : Ringbuffer A) (q : List A) → Holds r q → ltb (get_size r) n ≡ ltb (length q) n
  few_elems n r q h = ap (λ k. ltb k n) (sizes h).size
