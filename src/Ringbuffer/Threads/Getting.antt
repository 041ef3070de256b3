-- ===== src/Ringbuffer/Threads/Getting.antt =====
-- include/jau/ringbuffer.hpp: an access of the memory by the getter keeps what holds of the two threads.
use jaulib.Prelude.{
  ℕ, ◌+◌, ◌<◌, ◌≡◌, refl, sym, ap, ap₂, ◌∙◌, List, [], ◌∷◌, ◌++◌, length, get_or, set,
  get_or-set_self, get_or-set_ne, append_assoc, Bool-cases, inl, inr, ◌==◌, false, arith,
}
use jaulib.Ringbuffer.{Ringbuffer, next_pos, get_size, get_free_slots}
use jaulib.Ringbuffer.Slots.{next_pos_cases}
use jaulib.Ringbuffer.Ops.{take_one}
use jaulib.Ringbuffer.Gets.{take_one-Taken}
use jaulib.Ringbuffer.Invariant.{IsValid, contents, counts}
use jaulib.Ringbuffer.Threads.{
  Threads, Putter, Getter, get_idle, get_testing, get_reading, get_clearing, get_publishing,
  step_get, begin_get, fail_get,
}
use jaulib.Ringbuffer.Threads.Good.{
  Good, threads, PutterKnows, GetterKnows, idle_put, testing_put, storing_put, publishing_put,
  idle_get, testing_get, reading_get, clearing_get, publishing_get, restored, in_flight, set-same,
  set-set, slots_apart, set-IsValid,
}
use jaulib.Ringbuffer.Threads.Putting.{get_size-array}

module _ {ℓ} {A : Type ℓ} where
  -- The test for an element.
  found_element :
      {r : Ringbuffer A} → IsValid r → (r.read_pos == r.write_pos) ≡ false → 0 < get_size r
  found_element v t = let n = counts v in ground arith

  -- Clearing the slot of the getter leaves what the putter knows.
  clear-PutterKnows :
      {r : Ringbuffer A} {p : Putter A} (pos : ℕ) (v : A)
      → IsValid r
      → pos ≡ next_pos r.capacity_plus_one r.read_pos
      → 0 < get_size r
      → PutterKnows r p
      → PutterKnows (record r { array = set r.array pos v }) p
  unfolding get_free_slots get_size
  clear-PutterKnows pos v valid e k idle_put = idle_put
  clear-PutterKnows pos v valid e k (testing_put h) = testing_put h
  clear-PutterKnows pos v valid e k (storing_put h f) = storing_put h f
  clear-PutterKnows {r} pos v valid e k (publishing_put h f there) =
      let apart = slots_apart valid f k in
      publishing_put h f
        (get_or-set_ne r.array pos _ v r.nullelem (λ x. apart (sym h ∙ sym x ∙ e)) ∙ there)

  -- Getting the element whose slot is cleared already moves the position only.
  took :
      (r : Ringbuffer A) (pos : ℕ) (v : A)
      → pos < length r.array
      → pos ≡ next_pos r.capacity_plus_one r.read_pos
      → get_or r.array pos r.nullelem ≡ r.nullelem
      → ((take_one (record r { array = set r.array pos v })).0 ≡ v)
        × ((take_one (record r { array = set r.array pos v })).1 ≡ record r { read_pos = pos })
  unfolding take_one
  took r pos v h e cleared =
      let full = set r.array pos v in
      let emptied : set full pos r.nullelem ≡ r.array =
        set-set r.array pos v r.nullelem
        ∙ ap (set r.array pos) (sym cleared)
        ∙ set-same r.array pos r.nullelem h in
      (
        ap (λ i. get_or full i r.nullelem) (sym e) ∙ get_or-set_self r.array pos v r.nullelem h,
        ap (λ i. record r { array = set full i r.nullelem; read_pos = i }) (sym e)
            ∙ ap (λ a. record r { array = a; read_pos = pos }) emptied,
      )

  -- The oldest element in flight, once the position is moved.
  pub release-in_flight :
      (r : Ringbuffer A) (p p' : Putter A) (s q q' : List A) (pos : ℕ) (v : A)
      → IsValid r
      → pos ≡ next_pos r.capacity_plus_one r.read_pos
      → 0 < get_size r
      → get_or r.array pos r.nullelem ≡ r.nullelem
      → IsValid (record r { read_pos = pos })
        × (get_size (record r { read_pos = pos }) + 1 ≡ get_size r)
        × (in_flight (threads r p (get_publishing v pos) s q)
            ≡ v ∷ in_flight (threads (record r { read_pos = pos }) p' get_idle s q'))
  unfolding restored
  release-in_flight r p p' s q q' pos v valid e k cleared =
      let there : Ringbuffer A = record r { array = set r.array pos v } in
      let more : 0 < get_size there = rw (get_size-array r (set r.array pos v)) k in
      let (taken, oldest) = take_one-Taken (set-IsValid pos v valid) more in
      let near = next_pos_cases r.capacity_plus_one r.read_pos valid.small valid.read_in in
      let inside : pos < length r.array = let len = valid.storage in omega arith in
      let (value, state) = took r pos v inside e cleared in
      let smaller : get_size (record r { read_pos = pos }) + 1 ≡ get_size there =
        rw (← state) taken.size in
      (
        rw (← state) taken.valid,
        smaller ∙ get_size-array r (set r.array pos v),
        oldest ∙ ap₂ (λ x b. x ∷ contents b) value state,
      )

  release-PutterKnows :
      {r : Ringbuffer A} {p : Putter A} (pos : ℕ)
      → IsValid r
      → IsValid (record r { read_pos = pos })
      → get_size (record r { read_pos = pos }) + 1 ≡ get_size r
      → PutterKnows r p
      → PutterKnows (record r { read_pos = pos }) p
  release-PutterKnows pos v w less idle_put = idle_put
  release-PutterKnows pos v w less (testing_put h) = testing_put h
  release-PutterKnows pos v w less (storing_put h f) =
      let n = counts v in let m = counts w in storing_put h (omega arith)
  release-PutterKnows pos v w less (publishing_put h f there) =
      let n = counts v in let m = counts w in publishing_put h (omega arith) there

  -- The getter changes, and the memory does not.
  getter-Good :
      (r : Ringbuffer A) (p : Putter A) (g g' : Getter A) (s q : List A)
      → restored g' r.array ≡ restored g r.array
      → GetterKnows r g'
      → Good (threads r p g s q)
      → Good (threads r p g' s q)
  getter-Good r p g g' s q e k h = record {
    valid = h.valid;
    fifo = ap (λ a. q ++ contents (record r { array = a })) e ∙ h.fifo;
    putter_knows = h.putter_knows;
    getter_knows = k;
  }

  step_on :
      (r : Ringbuffer A) (p : Putter A) (g : Getter A) (s q : List A)
      → Good (threads r p g s q)
      → Good (step_get (threads r p g s q))
  unfolding step_get restored
  step_on r p get_idle s q h = h
  step_on r p (get_testing pos) s q h = elim (Bool-cases (pos == r.write_pos)) [
    | inl t ↦ rw t h
    | inr t ↦ rw t (elim h.getter_knows [
      | testing_get e ↦
          getter-Good r p (get_testing pos) _ s q refl
            (reading_get (ap (next_pos r.capacity_plus_one) e)
              (found_element h.valid (ap (λ i. i == r.write_pos) (sym e) ∙ t)))
            h
    ])
  ]
  step_on r p (get_reading pos) s q h = elim h.getter_knows [
    | reading_get e k ↦ getter-Good r p (get_reading pos) _ s q refl (clearing_get e k refl) h
  ]
  step_on r p (get_clearing v pos) s q h = elim h.getter_knows [
    | clearing_get e k there ↦
        let near = next_pos_cases r.capacity_plus_one r.read_pos h.valid.small h.valid.read_in in
        let inside : pos < length r.array = let len = h.valid.storage in omega arith in
        let whole : set (set r.array pos r.nullelem) pos v ≡ r.array =
          set-set r.array pos r.nullelem v
          ∙ ap (set r.array pos) (sym there)
          ∙ set-same r.array pos r.nullelem inside in
        record {
          valid = set-IsValid pos r.nullelem h.valid;
          fifo = ap (λ a. q ++ contents (record r { array = a })) whole ∙ h.fifo;
          putter_knows = clear-PutterKnows pos r.nullelem h.valid e k h.putter_knows;
          getter_knows =
              publishing_get e (rw (get_size-array r (set r.array pos r.nullelem)) k)
                (get_or-set_self r.array pos r.nullelem r.nullelem inside);
        }
  ]
  step_on r p (get_publishing v pos) s q h = elim h.getter_knows [
    | publishing_get e k cleared ↦
        let (valid, less, flies) =
          release-in_flight r p p s q (q ++ (v ∷ [])) pos v h.valid e k cleared in
        record {
          valid = valid;
          fifo = append_assoc q (v ∷ []) _ ∙ ap (λ l. q ++ l) (sym flies) ∙ h.fifo;
          putter_knows = release-PutterKnows pos h.valid valid less h.putter_knows;
          getter_knows = idle_get;
        }
  ]

  pub step_get-Good : (t : Threads A) → Good t → Good (step_get t)
  step_get-Good t h = step_on t.buffer t.putter t.getter t.sent t.received h

  begin_on :
      (r : Ringbuffer A) (p : Putter A) (g : Getter A) (s q : List A)
      → Good (threads r p g s q)
      → Good (begin_get (threads r p g s q))
  unfolding begin_get restored
  begin_on r p get_idle s q h = getter-Good r p get_idle _ s q refl (testing_get refl) h
  begin_on r p (get_testing pos) s q h = h
  begin_on r p (get_reading pos) s q h = h
  begin_on r p (get_clearing v pos) s q h = h
  begin_on r p (get_publishing v pos) s q h = h

  fail_on :
      (r : Ringbuffer A) (p : Putter A) (g : Getter A) (s q : List A)
      → Good (threads r p g s q)
      → Good (fail_get (threads r p g s q))
  unfolding fail_get restored
  fail_on r p get_idle s q h = h
  fail_on r p (get_testing pos) s q h = elim (Bool-cases (pos == r.write_pos)) [
    | inl t ↦ rw t (getter-Good r p (get_testing pos) get_idle s q refl idle_get h)
    | inr t ↦ rw t h
  ]
  fail_on r p (get_reading pos) s q h = h
  fail_on r p (get_clearing v pos) s q h = h
  fail_on r p (get_publishing v pos) s q h = h

  pub begin_get-Good : (t : Threads A) → Good t → Good (begin_get t)
  begin_get-Good t h = begin_on t.buffer t.putter t.getter t.sent t.received h

  pub fail_get-Good : (t : Threads A) → Good t → Good (fail_get t)
  fail_get-Good t h = fail_on t.buffer t.putter t.getter t.sent t.received h
