-- ===== src/Ringbuffer/Threads/Putting.antt =====
-- include/jau/ringbuffer.hpp: an access of the memory by the putter keeps what holds of the two threads.
use jaulib.Prelude.{
  ℕ, suc, ◌+◌, ◌<◌, ◌≡◌, refl, sym, ap, ◌∙◌, List, [], ◌∷◌, ◌++◌, length, get_or, set, length-set,
  get_or-set_self, get_or-set_ne, append_assoc, Bool-cases, inl, inr, ◌==◌, false, arith,
}
use jaulib.Ringbuffer.{Ringbuffer, next_pos, get_size, get_free_slots}
use jaulib.Ringbuffer.Slots.{next_pos_cases, window, window-set, window-set_ne}
use jaulib.Ringbuffer.Invariant.{IsValid, counts, get_size_unique}
use jaulib.Ringbuffer.Threads.{
  Threads, Putter, Getter, put_idle, put_testing, put_storing, put_publishing, get_idle,
  get_testing, get_reading, get_clearing, get_publishing, step_put, begin_put, fail_put,
}
use jaulib.Ringbuffer.Threads.Good.{
  Good, threads, PutterKnows, GetterKnows, idle_put, testing_put, storing_put, publishing_put,
  idle_get, testing_get, reading_get, clearing_get, publishing_get, restored, in_flight, set-same,
  set_comm, slots_apart, set-IsValid,
}

module _ {ℓ} {A : Type ℓ} where
  -- The test for a free slot.
  found_free :
      {r : Ringbuffer A} (pos : ℕ)
      → IsValid r
      → pos ≡ next_pos r.capacity_plus_one r.write_pos
      → (pos == r.read_pos) ≡ false
      → 0 < get_free_slots r
  found_free {r} pos v e t =
      let near = next_pos_cases r.capacity_plus_one r.write_pos v.small v.write_in in
      let n = counts v in ground arith

  -- Storing in the next slot to write leaves what the getter knows.
  store-GetterKnows :
      {r : Ringbuffer A} {g : Getter A} (pos : ℕ) (e : A)
      → IsValid r
      → pos ≡ next_pos r.capacity_plus_one r.write_pos
      → 0 < get_free_slots r
      → GetterKnows r g
      → GetterKnows (record r { array = set r.array pos e }) g
  unfolding get_size
  store-GetterKnows pos e v p f idle_get = idle_get
  store-GetterKnows pos e v p f (testing_get h) = testing_get h
  store-GetterKnows pos e v p f (reading_get h k) = reading_get h k
  store-GetterKnows {r} pos e v p f (clearing_get h k m) =
      let apart = slots_apart v f k in
      clearing_get h k (get_or-set_ne r.array pos _ e r.nullelem (λ x. apart (sym p ∙ x ∙ h)) ∙ m)
  store-GetterKnows {r} pos e v p f (publishing_get h k m) =
      let apart = slots_apart v f k in
      publishing_get h k (get_or-set_ne r.array pos _ e r.nullelem (λ x. apart (sym p ∙ x ∙ h)) ∙ m)

  -- The restored array, with and without the element.
  restored-set :
      {r : Ringbuffer A} {g : Getter A} (pos : ℕ) (e : A)
      → IsValid r
      → pos ≡ next_pos r.capacity_plus_one r.write_pos
      → 0 < get_free_slots r
      → GetterKnows r g
      → restored g (set r.array pos e) ≡ set (restored g r.array) pos e
  unfolding restored
  restored-set pos e v p f idle_get = refl
  restored-set pos e v p f (testing_get h) = refl
  restored-set pos e v p f (reading_get h k) = refl
  restored-set pos e v p f (clearing_get h k m) = refl
  restored-set {r} pos e v p f (publishing_get h k m) =
      let apart = slots_apart v f k in set_comm r.array e _ (λ x. apart (sym p ∙ x ∙ h))

  length-restored : (g : Getter A) (array : List A) → length (restored g array) ≡ length array
  unfolding restored
  length-restored get_idle array = refl
  length-restored (get_testing pos) array = refl
  length-restored (get_reading pos) array = refl
  length-restored (get_clearing v pos) array = refl
  length-restored (get_publishing v pos) array = length-set array pos v

  -- The slot is outside what is in flight.
  store-in_flight :
      {r : Ringbuffer A} {g : Getter A} (p p' : Putter A) (s q : List A) (pos : ℕ) (e : A)
      → IsValid r
      → pos ≡ next_pos r.capacity_plus_one r.write_pos
      → 0 < get_free_slots r
      → GetterKnows r g
      → in_flight (threads (record r { array = set r.array pos e }) p g s q)
        ≡ in_flight (threads r p' g s q)
  unfolding get_size
  store-in_flight {r} {g} p p' s q pos e v h f k =
      let c = r.capacity_plus_one in
      let n = counts v in
      let near = next_pos_cases c r.write_pos v.small v.write_in in
      ap (λ a. window r.nullelem c a r.read_pos (get_size r)) (restored-set pos e v h f k)
      ∙ window-set_ne r.nullelem c v.small (restored g r.array) e (get_size r) r.read_pos
          (get_size r + 1) pos v.read_in (omega arith) (omega arith) (omega arith) (omega arith)

  pub get_size-array :
      (r : Ringbuffer A) (array : List A) → get_size (record r { array = array }) ≡ get_size r
  unfolding get_size
  get_size-array r array = refl

  pub get_free_slots-array :
      (r : Ringbuffer A) (array : List A)
      → get_free_slots (record r { array = array }) ≡ get_free_slots r
  unfolding get_size get_free_slots
  get_free_slots-array r array = refl

  -- Once the element is in its slot, moving the position puts it in flight.
  publish-in_flight :
      {r : Ringbuffer A} {g : Getter A} (p p' : Putter A) (s s' q : List A) (pos : ℕ) (e : A)
      → IsValid r
      → pos ≡ next_pos r.capacity_plus_one r.write_pos
      → 0 < get_free_slots r
      → get_or r.array pos r.nullelem ≡ e
      → GetterKnows r g
      → IsValid (record r { write_pos = pos })
        × (get_size (record r { write_pos = pos }) ≡ suc (get_size r))
        × (in_flight (threads (record r { write_pos = pos }) p' g s' q)
            ≡ in_flight (threads r p g s q) ++ (e ∷ []))
  publish-in_flight {r} {g} p p' s s' q pos e v h f there k =
      let c = r.capacity_plus_one in
      let n = counts v in
      let near = next_pos_cases c r.write_pos v.small v.write_in in
      let valid : IsValid (record r { write_pos = pos }) = record {
        storage = v.storage;
        nonempty = v.nonempty;
        small = v.small;
        read_in = v.read_in;
        write_in = omega arith;
      } in
      let size =
        get_size_unique {r = record r { write_pos = pos }} (suc (get_size r)) valid (omega arith)
          (omega arith) in
      let kept : set r.array pos e ≡ r.array =
        ap (set r.array pos) (sym there)
        ∙ set-same r.array pos r.nullelem (let l = v.storage in omega arith) in
      let held : set (restored g r.array) pos e ≡ restored g r.array =
        sym (restored-set pos e v h f k) ∙ ap (restored g) kept in
      let len = length-restored g r.array ∙ v.storage in
      let grows =
        window-set r.nullelem c v.small (restored g r.array) e (get_size r) r.read_pos r.write_pos
          len v.read_in v.write_in (omega arith) n.ahead in
      let last = ap (λ i. set (restored g r.array) i e) (sym h) ∙ held in
      (
        valid,
        size,
        ap (window r.nullelem c (restored g r.array) r.read_pos)
              (get_size-array (record r { write_pos = pos }) (restored g r.array) ∙ size)
            ∙ ap (λ a. window r.nullelem c a r.read_pos (suc (get_size r))) (sym last)
            ∙ grows
            ∙ ap (λ k. window r.nullelem c (restored g r.array) r.read_pos k ++ (e ∷ []))
                (sym (get_size-array r (restored g r.array))),
      )

  publish-GetterKnows :
      {r : Ringbuffer A} {g : Getter A} (pos : ℕ)
      → get_size (record r { write_pos = pos }) ≡ suc (get_size r)
      → GetterKnows r g
      → GetterKnows (record r { write_pos = pos }) g
  publish-GetterKnows pos more idle_get = idle_get
  publish-GetterKnows pos more (testing_get h) = testing_get h
  publish-GetterKnows pos more (reading_get h k) = reading_get h (omega arith)
  publish-GetterKnows pos more (clearing_get h k m) = clearing_get h (omega arith) m
  publish-GetterKnows pos more (publishing_get h k m) = publishing_get h (omega arith) m

  -- A step of the putter.
  step_on :
      (r : Ringbuffer A) (p : Putter A) (g : Getter A) (s q : List A)
      → Good (threads r p g s q)
      → Good (step_put (threads r p g s q))
  unfolding step_put
  step_on r put_idle g s q h = h
  step_on r (put_testing e pos) g s q h = elim (Bool-cases (pos == r.read_pos)) [
    | inl t ↦ rw t h
    | inr t ↦ rw t (elim h.putter_knows [
      | testing_put p ↦ record {
        valid = h.valid;
        fifo = h.fifo;
        putter_knows = storing_put p (found_free pos h.valid p t);
        getter_knows = h.getter_knows;
      }
    ])
  ]
  step_on r (put_storing e pos) g s q h = elim h.putter_knows [
    | storing_put p f ↦
        let near = next_pos_cases r.capacity_plus_one r.write_pos h.valid.small h.valid.write_in in
        record {
          valid = set-IsValid pos e h.valid;
          fifo =
              ap (λ l. q ++ l)
                (store-in_flight (put_publishing e pos) (put_storing e pos) s q pos e h.valid p f
                  h.getter_knows)
              ∙ h.fifo;
          putter_knows =
              publishing_put p (rw (get_free_slots-array r (set r.array pos e)) f) (
                get_or-set_self r.array pos e r.nullelem
                  (let len = h.valid.storage in omega arith));
          getter_knows = store-GetterKnows pos e h.valid p f h.getter_knows;
        }
  ]
  step_on r (put_publishing e pos) g s q h = elim h.putter_knows [
    | publishing_put p f there ↦
        let (valid, more, flies) =
          publish-in_flight (put_publishing e pos) put_idle s (s ++ (e ∷ [])) q pos e h.valid p f
            there h.getter_knows in
        record {
          valid = valid;
          fifo =
              ap (λ l. q ++ l) flies
              ∙ sym (append_assoc q _ (e ∷ []))
              ∙ ap (λ l. l ++ (e ∷ [])) h.fifo;
          putter_knows = idle_put;
          getter_knows = publish-GetterKnows pos more h.getter_knows;
        }
  ]

  pub step_put-Good : (t : Threads A) → Good t → Good (step_put t)
  step_put-Good t h = step_on t.buffer t.putter t.getter t.sent t.received h

  -- The putter changes, and the memory does not.
  putter-Good :
      (r : Ringbuffer A) (p p' : Putter A) (g : Getter A) (s q : List A)
      → PutterKnows r p'
      → Good (threads r p g s q)
      → Good (threads r p' g s q)
  putter-Good r p p' g s q k h = record {
    valid = h.valid;
    fifo = h.fifo;
    putter_knows = k;
    getter_knows = h.getter_knows;
  }

  begin_on :
      (e : A) (r : Ringbuffer A) (p : Putter A) (g : Getter A) (s q : List A)
      → Good (threads r p g s q)
      → Good (begin_put e (threads r p g s q))
  unfolding begin_put
  begin_on e r put_idle g s q h = putter-Good r put_idle _ g s q (testing_put refl) h
  begin_on e r (put_testing x pos) g s q h = h
  begin_on e r (put_storing x pos) g s q h = h
  begin_on e r (put_publishing x pos) g s q h = h

  fail_on :
      (r : Ringbuffer A) (p : Putter A) (g : Getter A) (s q : List A)
      → Good (threads r p g s q)
      → Good (fail_put (threads r p g s q))
  unfolding fail_put
  fail_on r put_idle g s q h = h
  fail_on r (put_testing e pos) g s q h = elim (Bool-cases (pos == r.read_pos)) [
    | inl t ↦ rw t (putter-Good r (put_testing e pos) put_idle g s q idle_put h)
    | inr t ↦ rw t h
  ]
  fail_on r (put_storing e pos) g s q h = h
  fail_on r (put_publishing e pos) g s q h = h

  pub begin_put-Good : (e : A) (t : Threads A) → Good t → Good (begin_put e t)
  begin_put-Good e t h = begin_on e t.buffer t.putter t.getter t.sent t.received h

  pub fail_put-Good : (t : Threads A) → Good t → Good (fail_put t)
  fail_put-Good t h = fail_on t.buffer t.putter t.getter t.sent t.received h
