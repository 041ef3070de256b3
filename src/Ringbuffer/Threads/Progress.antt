-- ===== src/Ringbuffer/Threads/Progress.antt =====
-- include/jau/ringbuffer.hpp: a put that finds room comes to its end by its own steps, whatever the getter
-- does meanwhile.
use jaulib.Prelude.{
  ℕ, suc, ◌-◌, ◌≤◌, ◌<◌, ◌≡◌, refl, ap, List, [], ◌∷◌, ◌++◌, false, set, Bool-cases, inl, inr, ◌==◌,
  ne→==_false, arith,
}
use jaulib.Ringbuffer.{Ringbuffer, get_free_slots}
use jaulib.Ringbuffer.Slots.{next_pos_cases}
use jaulib.Ringbuffer.Invariant.{IsValid, counts}
use jaulib.Ringbuffer.Threads.{
  Threads, Putter, Getter, Move, call_put, call_get, putter_step, getter_step, putter_fails,
  getter_fails, put_idle, put_testing, put_storing, put_publishing, get_idle, get_testing,
  get_reading, get_clearing, get_publishing, step_put, step_get, begin_get, fail_put, fail_get,
  move, run,
}
use jaulib.Ringbuffer.Threads.Good.{Good, threads, PutterKnows, testing_put, publishing_get}
use jaulib.Ringbuffer.Threads.Getting.{release-in_flight}
use jaulib.Ringbuffer.Threads.Putting.{get_free_slots-array}
use jaulib.Ringbuffer.Threads.Fifo.{move-Good}

module _ {ℓ} {A : Type ℓ} where
  -- The moves with no new call of `put` in them.
  unfoldable pub AreNoCalls : List (Move A) → Type 0
  AreNoCalls [] = Unit
  AreNoCalls (call_put e ∷ moves) = ⊥
  AreNoCalls (m ∷ moves) = AreNoCalls moves

  unfoldable pub putter_steps : List (Move A) → ℕ
  putter_steps [] = 0
  putter_steps (putter_step ∷ moves) = suc (putter_steps moves)
  putter_steps (m ∷ moves) = putter_steps moves

  -- A put of `e` that has `n` steps to go. `before` is what was put before it.
  pub data Landing (e : A) (before : List A) : ℕ → Ringbuffer A → Putter A → List A → Type ℓ where
    to_test :
        {n : ℕ} {r : Ringbuffer A} {s : List A} (pos : ℕ)
        → n ≡ 3
        → s ≡ before
        → 0 < get_free_slots r
        → Landing e before n r (put_testing e pos) s
    to_store :
        {n : ℕ} {r : Ringbuffer A} {s : List A} (pos : ℕ)
        → n ≡ 2
        → s ≡ before
        → Landing e before n r (put_storing e pos) s
    to_publish :
        {n : ℕ} {r : Ringbuffer A} {s : List A} (pos : ℕ)
        → n ≡ 1
        → s ≡ before
        → Landing e before n r (put_publishing e pos) s
    landed :
        {n : ℕ} {r : Ringbuffer A} {s : List A}
        → n ≡ 0
        → s ≡ before ++ (e ∷ [])
        → Landing e before n r put_idle s

  -- A getter's move gives the putter no less room.
  get_more_free :
      (r : Ringbuffer A) (p : Putter A) (g : Getter A) (s q : List A)
      → Good (threads r p g s q)
      → get_free_slots r ≤ get_free_slots (step_get (threads r p g s q)).buffer
  unfolding step_get
  get_more_free r p get_idle s q h = omega arith
  get_more_free r p (get_testing pos) s q h = elim (Bool-cases (pos == r.write_pos)) [
    | inl t ↦ rw t (omega arith)
    | inr t ↦ rw t (omega arith)
  ]
  get_more_free r p (get_reading pos) s q h = omega arith
  get_more_free r p (get_clearing v pos) s q h =
      rw (get_free_slots-array r (set r.array pos r.nullelem)) (omega arith)
  get_more_free r p (get_publishing v pos) s q h = elim h.getter_knows [
    | publishing_get e k cleared ↦
        let (valid, less, flies) = release-in_flight r p p s q q pos v h.valid e k cleared in
        let n = counts h.valid in let m = counts valid in omega arith
  ]

  more_room :
      {e : A} {before : List A} {n : ℕ} {r : Ringbuffer A} {p : Putter A} {s : List A}
      (r' : Ringbuffer A)
      → get_free_slots r ≤ get_free_slots r'
      → Landing e before n r p s
      → Landing e before n r' p s
  more_room r' more (to_test pos h k f) = to_test pos h k (omega arith)
  more_room r' more (to_store pos h k) = to_store pos h k
  more_room r' more (to_publish pos h k) = to_publish pos h k
  more_room r' more (landed h k) = landed h k

  -- A getter's move leaves the putter where it is.
  step_get-putter :
      (r : Ringbuffer A) (p : Putter A) (g : Getter A) (s q : List A)
      → ((step_get (threads r p g s q)).putter ≡ p) × ((step_get (threads r p g s q)).sent ≡ s)
  unfolding step_get
  step_get-putter r p get_idle s q = (refl, refl)
  step_get-putter r p (get_testing pos) s q = elim (Bool-cases (pos == r.write_pos)) [
    | inl t ↦ rw t (refl, refl)
    | inr t ↦ rw t (refl, refl)
  ]
  step_get-putter r p (get_reading pos) s q = (refl, refl)
  step_get-putter r p (get_clearing v pos) s q = (refl, refl)
  step_get-putter r p (get_publishing v pos) s q = (refl, refl)

  begin_get-Landing :
      {e : A} {before : List A} {n : ℕ} (t : Threads A) (g : Getter A)
      → t.getter ≡ g
      → Landing e before n t.buffer t.putter t.sent
      → Landing e before n (begin_get t).buffer (begin_get t).putter (begin_get t).sent
  unfolding begin_get
  begin_get-Landing t get_idle k h = rw k h
  begin_get-Landing t (get_testing pos) k h = rw k h
  begin_get-Landing t (get_reading pos) k h = rw k h
  begin_get-Landing t (get_clearing v pos) k h = rw k h
  begin_get-Landing t (get_publishing v pos) k h = rw k h

  fail_get-Landing :
      {e : A} {before : List A} {n : ℕ} (t : Threads A) (g : Getter A)
      → t.getter ≡ g
      → Landing e before n t.buffer t.putter t.sent
      → Landing e before n (fail_get t).buffer (fail_get t).putter (fail_get t).sent
  unfolding fail_get
  fail_get-Landing t get_idle k h = rw k h
  fail_get-Landing t (get_testing pos) k h = elim (Bool-cases (pos == t.buffer.write_pos)) [
    | inl x ↦ rw (k, x) h
    | inr x ↦ rw (k, x) h
  ]
  fail_get-Landing t (get_reading pos) k h = rw k h
  fail_get-Landing t (get_clearing v pos) k h = rw k h
  fail_get-Landing t (get_publishing v pos) k h = rw k h

  -- With a free slot the test of the put is over.
  free_test :
      {r : Ringbuffer A} {e : A} (pos : ℕ)
      → IsValid r
      → PutterKnows r (put_testing e pos)
      → 0 < get_free_slots r
      → (pos == r.read_pos) ≡ false
  free_test {r} pos v k f = elim k [
    | testing_put p ↦
        let near = next_pos_cases r.capacity_plus_one r.write_pos v.small v.write_in in
        let n = counts v in ne→==_false pos r.read_pos (λ x. omega arith)
  ]

  step_put-Landing :
      {e : A} {before : List A} {n : ℕ} {p : Putter A} (r : Ringbuffer A) (g : Getter A)
      {s : List A} (q : List A)
      → Good (threads r p g s q)
      → Landing e before n r p s
      → (let t = step_put (threads r p g s q) in Landing e before (n - 1) t.buffer t.putter t.sent)
  unfolding step_put
  step_put-Landing r g q h (to_test pos k same f) =
      rw (free_test pos h.valid h.putter_knows f) (to_store pos (omega arith) same)
  step_put-Landing r g q h (to_store pos k same) = to_publish pos (omega arith) same
  step_put-Landing {e} r g q h (to_publish pos k same) =
      landed (omega arith) (ap (λ l. l ++ (e ∷ [])) same)
  step_put-Landing r g q h (landed k same) = landed (omega arith) same

  fail_put-Landing :
      {e : A} {before : List A} {n : ℕ} {p : Putter A} (r : Ringbuffer A) (g : Getter A)
      {s : List A} (q : List A)
      → Good (threads r p g s q)
      → Landing e before n r p s
      → (let t = fail_put (threads r p g s q) in Landing e before n t.buffer t.putter t.sent)
  unfolding fail_put
  fail_put-Landing r g q h (to_test pos k same f) =
      rw (free_test pos h.valid h.putter_knows f) (to_test pos k same f)
  fail_put-Landing r g q h (to_store pos k same) = to_store pos k same
  fail_put-Landing r g q h (to_publish pos k same) = to_publish pos k same
  fail_put-Landing r g q h (landed k same) = landed k same

  step_get-Landing :
      {e : A} {before : List A} {n : ℕ} (t : Threads A)
      → Good t
      → Landing e before n t.buffer t.putter t.sent
      → Landing e before n (step_get t).buffer (step_get t).putter (step_get t).sent
  step_get-Landing t h l =
      let (same, sent) = step_get-putter t.buffer t.putter t.getter t.sent t.received in
      let more = get_more_free t.buffer t.putter t.getter t.sent t.received h in
      rw (same, sent) (more_room (step_get t).buffer more l)

  run-Landing :
      (moves : List (Move A)) {e : A} {before : List A} (n : ℕ) (t : Threads A)
      → Good t
      → AreNoCalls moves
      → Landing e before n t.buffer t.putter t.sent
      → (let u = run moves t in Landing e before (n - putter_steps moves) u.buffer u.putter u.sent)
  unfolding run AreNoCalls putter_steps move
  run-Landing [] n t h k l = let same : n - 0 ≡ n = omega arith in rw same l
  run-Landing (call_put e ∷ moves) n t h k l = absurd k
  run-Landing (call_get ∷ moves) n t h k l =
      run-Landing moves n (begin_get t) (move-Good call_get t h) k
        (begin_get-Landing t t.getter refl l)
  run-Landing (putter_step ∷ moves) n t h k l =
      let fewer : n - suc (putter_steps moves) ≡ n - 1 - putter_steps moves = omega arith in
      rw fewer (
        run-Landing moves (n - 1) (step_put t) (move-Good putter_step t h) k
          (step_put-Landing t.buffer t.getter t.received h l))
  run-Landing (getter_step ∷ moves) n t h k l =
      run-Landing moves n (step_get t) (move-Good getter_step t h) k (step_get-Landing t h l)
  run-Landing (putter_fails ∷ moves) n t h k l =
      run-Landing moves n (fail_put t) (move-Good putter_fails t h) k
        (fail_put-Landing t.buffer t.getter t.received h l)
  run-Landing (getter_fails ∷ moves) n t h k l =
      run-Landing moves n (fail_get t) (move-Good getter_fails t h) k
        (fail_get-Landing t t.getter refl l)

  at_end :
      {e : A} {before : List A} {n : ℕ} {r : Ringbuffer A} {p : Putter A} {s : List A}
      → n ≡ 0
      → Landing e before n r p s
      → (p ≡ put_idle) × (s ≡ before ++ (e ∷ []))
  at_end z (to_test pos h k f) = absurd (omega arith)
  at_end z (to_store pos h k) = absurd (omega arith)
  at_end z (to_publish pos h k) = absurd (omega arith)
  at_end z (landed h k) = (refl, k)

  -- A put that is about to test for a free slot, when there is one, is over and has put its
  -- element after three steps of its own, however these interleave with the getter's, if the two
  -- threads stand as their accesses leave them and no other put is called.
  pub put_lands :
      (moves : List (Move A)) (t : Threads A) (e : A) (pos : ℕ)
      → Good t
      → t.putter ≡ put_testing e pos
      → 0 < get_free_slots t.buffer
      → AreNoCalls moves
      → 3 ≤ putter_steps moves
      → ((run moves t).putter ≡ put_idle) × ((run moves t).sent ≡ t.sent ++ (e ∷ []))
  put_lands moves t e pos h at f k enough =
      let start : Landing e t.sent 3 t.buffer t.putter t.sent = rw at (to_test pos refl refl f) in
      let over : 3 - putter_steps moves ≡ 0 = omega arith in
      at_end over (run-Landing moves 3 t h k start)
