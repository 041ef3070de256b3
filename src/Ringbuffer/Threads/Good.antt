-- ===== src/Ringbuffer/Threads/Good.antt =====
-- include/jau/ringbuffer.hpp: what holds between any two accesses of the memory by a putter and a getter.
use jaulib.Prelude.{
  ℕ, zero, suc, ◌<◌, ◌≡◌, ◌≢◌, refl, ap, ◌∙◌, List, [], ◌∷◌, ◌++◌, length, get_or, set, length-set,
  arith,
}
use jaulib.Ringbuffer.{Ringbuffer, next_pos, get_size, get_free_slots}
use jaulib.Ringbuffer.Slots.{next_pos_cases}
use jaulib.Ringbuffer.Invariant.{IsValid, contents, counts}
use jaulib.Ringbuffer.Threads.{
  Threads, Putter, Getter, put_idle, put_testing, put_storing, put_publishing, get_idle,
  get_testing, get_reading, get_clearing, get_publishing,
}

module _ {ℓ} {A : Type ℓ} where
  pub set-same : (xs : List A) (i : ℕ) (d : A) → i < length xs → set xs i (get_or xs i d) ≡ xs
  set-same [] i d h = refl
  set-same (x ∷ xs) zero d h = refl
  set-same (x ∷ xs) (suc i) d h = ap (λ l. x ∷ l) (set-same xs i d (omega arith))

  pub set-set : (xs : List A) (i : ℕ) (v w : A) → set (set xs i v) i w ≡ set xs i w
  set-set [] i v w = refl
  set-set (x ∷ xs) zero v w = refl
  set-set (x ∷ xs) (suc i) v w = ap (λ l. x ∷ l) (set-set xs i v w)

  pub set_comm :
      (xs : List A) {i j : ℕ} (v w : A) → i ≢ j → set (set xs i v) j w ≡ set (set xs j w) i v
  set_comm [] v w h = refl
  set_comm (x ∷ xs) {i = zero} {j = zero} v w h = absurd (h refl)
  set_comm (x ∷ xs) {i = zero} {j = suc j} v w h = refl
  set_comm (x ∷ xs) {i = suc i} {j = zero} v w h = refl
  set_comm (x ∷ xs) {i = suc i} {j = suc j} v w h =
      ap (λ l. x ∷ l) (set_comm xs v w (λ e. h (ap suc e)))

  -- The array with the value that a getter has cleared and not yet given free.
  unfoldable pub restored : Getter A → List A → List A
  restored (get_publishing v pos) array = set array pos v
  restored _ array = array

  -- The elements put and not yet got: those between the positions, as the getter finds them.
  abbrev pub in_flight : Threads A → List A
  in_flight t = contents (record t.buffer { array = restored t.getter t.buffer.array })

  -- What a putter knows of the memory: its local position is the next one to write, and from its test
  -- on there is a free slot, which holds its element once it is stored.
  pub data PutterKnows (r : Ringbuffer A) : Putter A → Type ℓ where
    idle_put : PutterKnows r put_idle
    testing_put :
        {e : A} {pos : ℕ}
        → pos ≡ next_pos r.capacity_plus_one r.write_pos
        → PutterKnows r (put_testing e pos)
    storing_put :
        {e : A} {pos : ℕ}
        → pos ≡ next_pos r.capacity_plus_one r.write_pos
        → 0 < get_free_slots r
        → PutterKnows r (put_storing e pos)
    publishing_put :
        {e : A} {pos : ℕ}
        → pos ≡ next_pos r.capacity_plus_one r.write_pos
        → 0 < get_free_slots r
        → get_or r.array pos r.nullelem ≡ e
        → PutterKnows r (put_publishing e pos)

  -- What a getter knows: from its test on there is an element at its local position, until it is
  -- cleared.
  pub data GetterKnows (r : Ringbuffer A) : Getter A → Type ℓ where
    idle_get : GetterKnows r get_idle
    testing_get : {pos : ℕ} → pos ≡ r.read_pos → GetterKnows r (get_testing pos)
    reading_get :
        {pos : ℕ}
        → pos ≡ next_pos r.capacity_plus_one r.read_pos
        → 0 < get_size r
        → GetterKnows r (get_reading pos)
    clearing_get :
        {v : A} {pos : ℕ}
        → pos ≡ next_pos r.capacity_plus_one r.read_pos
        → 0 < get_size r
        → get_or r.array pos r.nullelem ≡ v
        → GetterKnows r (get_clearing v pos)
    publishing_get :
        {v : A} {pos : ℕ}
        → pos ≡ next_pos r.capacity_plus_one r.read_pos
        → 0 < get_size r
        → get_or r.array pos r.nullelem ≡ r.nullelem
        → GetterKnows r (get_publishing v pos)

  -- The representation invariant, what the threads know, and: what was got and what is in flight is
  -- what was put, in order.
  pub record Good (t : Threads A) : Type ℓ where
    pub valid : IsValid t.buffer
    pub fifo : t.received ++ in_flight t ≡ t.sent
    pub putter_knows : PutterKnows t.buffer t.putter
    pub getter_knows : GetterKnows t.buffer t.getter

  abbrev pub threads : Ringbuffer A → Putter A → Getter A → List A → List A → Threads A
  threads r p g s q = record { buffer = r; putter = p; getter = g; sent = s; received = q }

  -- The slots that the two threads touch are apart.
  pub slots_apart :
      {r : Ringbuffer A}
      → IsValid r
      → 0 < get_free_slots r
      → 0 < get_size r
      → next_pos r.capacity_plus_one r.write_pos ≢ next_pos r.capacity_plus_one r.read_pos
  slots_apart {r} v f h e =
      let n = counts v in
      let w = next_pos_cases r.capacity_plus_one r.write_pos v.small v.write_in in
      let q = next_pos_cases r.capacity_plus_one r.read_pos v.small v.read_in in omega arith

  -- A buffer whose array changed in one slot is well-formed.
  pub set-IsValid :
      {r : Ringbuffer A} (i : ℕ) (v : A)
      → IsValid r
      → IsValid (record r { array = set r.array i v })
  set-IsValid {r} i v h = record {
    storage = length-set r.array i v ∙ h.storage;
    nonempty = h.nonempty;
    small = h.small;
    read_in = h.read_in;
    write_in = h.write_in;
  }
