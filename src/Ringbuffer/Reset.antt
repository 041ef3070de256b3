-- ===== src/Ringbuffer/Reset.antt =====
-- The operations of include/jau/ringbuffer.hpp that hold both mutexes: the constructors, clear, reset,
-- assignment and recapacity.
pub mod Clear
pub mod Clone
pub mod Recapacity
use jaulib.Prelude.{
  ℕ, zero, suc, ◌-◌, ◌≡◌, Bool, true, false, List, [], ◌∷◌, ltb, ◌==◌, if◌then◌else◌, length,
  get_or, take, add_size, sub_size,
}
use jaulib.Ringbuffer.{
  Ringbuffer, Traits, Cursor, next_pos, get_size, write_block, fill_block, put_slot, put_slots,
  null_slots,
}

-- A return, `ABORT`, or an `IllegalArgumentException`.
pub data Outcome {ℓ} (S : Type ℓ) : Type ℓ where
  done : S → Outcome S
  abort illegal_argument : Outcome S

infixl 5 ◌>>=◌
abbrev pub ◌>>=◌ {ℓ κ} : {S : Type ℓ} {T : Type κ} → Outcome S → (S → Outcome T) → Outcome T
done s >>= f = f s
abort >>= f = abort
illegal_argument >>= f = illegal_argument

-- It returns a state with that property.
pub data Ends {ℓ κ} {S : Type ℓ} (P : S → Type κ) : Outcome S → Type (ℓ ⊔ κ) where
  ends : {s : S} → P s → Ends P (done s)

pub Ends-bind {ℓ κ μ ν} :
    {S : Type ℓ} {T : Type κ} {P : S → Type μ} {Q : T → Type ν} (f : S → Outcome T)
    → ((s : S) → P s → Ends Q (f s))
    → {m : Outcome S} → Ends P m
    → Ends Q (m >>= f)
Ends-bind f next (ends {s} h) = next s h

pub Ends-map {ℓ κ μ} :
    {S : Type ℓ} {P : S → Type κ} {Q : S → Type μ} {m : Outcome S}
    → ((s : S) → P s → Q s)
    → Ends P m
    → Ends Q m
Ends-map f (ends {s} h) = ends (f s h)

-- `new Value_type[count]`: what stands in its slots is left open.
pub record Arrays {ℓ} (A : Type ℓ) : Type ℓ where
  pub new_array : ℕ → List A
  pub length-new_array : (count : ℕ) → length (new_array count) ≡ count

module _ {ℓ} {A : Type ℓ} where
  -- `pos = (pos + 1) % capacityPlusOne; src_pos = (src_pos + 1) % c_src; array[pos] = src[src_pos]`,
  -- `count` times.
  unfoldable pub copy_slots : A → ℕ → ℕ → List A → Cursor A → ℕ → ℕ → Cursor A
  copy_slots d c c_src src s src_pos zero = s
  copy_slots d c c_src src s src_pos (suc count) =
      let i = next_pos c_src src_pos in
      copy_slots d c c_src src (put_slot c s (get_or src i d)) i count

module _ {ℓ} {A : Type ℓ} (t : Traits) where
  -- `clearImpl`
  unfoldable pub clear : Ringbuffer A → Outcome (Ringbuffer A)
  clear r =
      let c = r.capacity_plus_one in
      let end : Cursor A =
        null_slots c r.nullelem (record { array = r.array; pos = r.read_pos }) (get_size r) in
      let zeroed = record r {
        array = fill_block r.nullelem r.array 0 c;
        read_pos = 0;
        write_pos = 0;
      } in
      let walked =
        if r.write_pos == end.pos
        then done (record r { array = end.array; read_pos = end.pos })
        else abort in
      if ltb 0 (get_size r) then (if t.uses_memset then done zeroed else walked) else done r

  module _ (heap : Arrays A) where
    open heap use {new_array}

    -- `ringbuffer(nullelem, capacity)`
    unfoldable pub new : A → ℕ → Ringbuffer A
    new nullelem cap =
        let c = add_size cap 1 in
        record {
          nullelem = nullelem;
          capacity_plus_one = c;
          array = new_array c;
          read_pos = 0;
          write_pos = 0;
        }

    -- The buffer that `resetImpl` fills: a larger one where the elements do not fit.
    unfoldable pub resized : ℕ → Ringbuffer A → Ringbuffer A
    resized count r =
        let c = add_size count 1 in
        if ltb (sub_size r.capacity_plus_one 1) count
        then record r { capacity_plus_one = c; array = new_array c; read_pos = 0; write_pos = 0 }
        else r

    -- The end of `resetImpl`.
    unfoldable pub refill : List A → Ringbuffer A → Ringbuffer A
    refill elems r =
        let c = r.capacity_plus_one in
        let end : Cursor A = put_slots c (record { array = r.array; pos = r.write_pos }) elems in
        if t.uses_memcpy
        then record r {
          array = write_block r.array 0 elems;
          read_pos = sub_size c 1;
          write_pos = sub_size (length elems) 1;
        }
        else record r { array = end.array; write_pos = end.pos }

    -- `resetImpl`; a null pointer is the empty list.
    unfoldable pub reset : List A → Ringbuffer A → Outcome (Ringbuffer A)
    reset elems r = do
      r' ← clear r
      if ltb 0 (length elems) then done (refill elems (resized (length elems) r')) else done r'

    -- `ringbuffer(nullelem, copyFrom)`
    unfoldable pub new_from : A → List A → Outcome (Ringbuffer A)
    new_from nullelem elems = reset elems (new nullelem (length elems))

    -- `cloneFrom` after the choice of the array.
    unfoldable pub clone_into : List A → Ringbuffer A → Ringbuffer A → Outcome (Ringbuffer A)
    clone_into array source r =
        let c = source.capacity_plus_one in
        let r' : Ringbuffer A = record r {
          capacity_plus_one = c;
          array = array;
          read_pos = source.read_pos;
          write_pos = source.write_pos;
        } in
        let end : Cursor A =
          copy_slots r.nullelem c c source.array (record { array = array; pos = r'.read_pos })
            r'.read_pos (get_size r') in
        if t.uses_memcpy
        then done (record r' { array = write_block array 0 (take c source.array) })
        else if r'.write_pos == end.pos
        then done (record r' { array = end.array })
        else abort

    -- `cloneFrom`: `this` is the last argument.
    unfoldable pub clone_from : Bool → Ringbuffer A → Ringbuffer A → Outcome (Ringbuffer A)
    clone_from alloc source r =
        if alloc
        then clone_into (new_array source.capacity_plus_one) source r
        else if r.capacity_plus_one == source.capacity_plus_one
        then clone_into r.array source r
        else abort

    -- The copy constructor, and `operator=` of another buffer.
    unfoldable pub copy : Ringbuffer A → Outcome (Ringbuffer A)
    copy source = clone_from false source (record {
      nullelem = source.nullelem;
      capacity_plus_one = source.capacity_plus_one;
      array = new_array source.capacity_plus_one;
      read_pos = 0;
      write_pos = 0;
    })

    -- `operator=(const ringbuffer&)` of another buffer; of the buffer itself it does nothing.
    unfoldable pub assign : Ringbuffer A → Ringbuffer A → Outcome (Ringbuffer A)
    assign source r =
        let r' = record r { nullelem = source.nullelem } in
        if r.capacity_plus_one == source.capacity_plus_one
        then (do r'' ← clear r'; clone_from false source r'')
        else clone_from true source r'

    -- `recapacity`
    unfoldable pub recapacity : ℕ → Ringbuffer A → Outcome (Ringbuffer A)
    recapacity new_cap r =
        let c = add_size new_cap 1 in
        let end : Cursor A =
          copy_slots r.nullelem c r.capacity_plus_one r.array
            (record { array = new_array c; pos = 0 }) r.read_pos (get_size r) in
        let resized = record r {
          capacity_plus_one = c;
          array = end.array;
          read_pos = 0;
          write_pos = end.pos;
        } in
        if r.capacity_plus_one == c
        then done r
        else if ltb new_cap (get_size r)
        then illegal_argument
        else done resized
