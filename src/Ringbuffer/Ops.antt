-- ===== src/Ringbuffer/Ops.antt =====
-- The operations of include/jau/ringbuffer.hpp that put, get, peek and drop elements. Each holds the
-- mutex of its side throughout, so its own position changes only at its end.
use jaulib.Prelude.{
  ℕ, ◌==◌, Bool, true, false, List, [], ◌++◌, ltb, leb, if◌then◌else◌, length, get_or, set, take,
  drop, min, sub_size,
}
use jaulib.Ringbuffer.{
  Ringbuffer, Cursor, next_pos, last_pos, get_size, get_free_slots, is_empty, is_full, write_block,
  fill_block, read_block,
}
use jaulib.Ringbuffer.Wait.{Mode, WakeUp, Waited, ready, failed, waiting, wait_loop, await}

-- A call that returns, with its result and the state after it, or one that waits still.
pub data Reply {ℓ κ} (R : Type ℓ) (S : Type κ) : Type (ℓ ⊔ κ) where
  returned : R → S → Reply R S
  parked : S → Reply R S

-- What follows a wait: `go` after its success, the value `fail` after its failure.
unfoldable pub settle {ℓ κ} : {R : Type ℓ} {S : Type κ} → R → (S → R × S) → Waited S → Reply R S
settle fail go (ready s) = let (v, s') = go s in returned v s'
settle fail go (failed s) = returned fail s
settle fail go (waiting s) = parked s

-- A wait that returns a count, however it ends.
unfoldable pub count_of {ℓ} : {S : Type ℓ} → (S → ℕ) → Waited S → Reply ℕ S
count_of size (ready s) = returned (size s) s
count_of size (failed s) = returned (size s) s
count_of size (waiting s) = parked s

module _ {ℓ} {A : Type ℓ} where
  -- From the wait of `moveIntoImpl` and `copyIntoImpl` on.
  unfoldable pub store_one : A → Ringbuffer A → Ringbuffer A
  store_one e r =
      let pos = next_pos r.capacity_plus_one r.write_pos in
      record r { array = set r.array pos e; write_pos = pos }

  -- From the wait of `moveOutImpl` on.
  unfoldable pub take_one : Ringbuffer A → A × Ringbuffer A
  take_one r =
      let pos = next_pos r.capacity_plus_one r.read_pos in
      (
        get_or r.array pos r.nullelem,
        record r { array = set r.array pos r.nullelem; read_pos = pos },
      )

  -- One contiguous part of `copyIntoImpl` of a range: `localWritePos` before and after it.
  unfoldable pub store_part : ℕ → Cursor A → List A → Cursor A
  store_part c s elems =
      let pos = next_pos c s.pos in
      record { array = write_block s.array pos elems; pos = last_pos c pos (length elems) }

  -- From the wait of `copyIntoImpl` of a range on: the tail of the array, then its head.
  unfoldable pub store_range : List A → Ringbuffer A → Ringbuffer A
  store_range elems r =
      let c = r.capacity_plus_one in
      let start : Cursor A = record { array = r.array; pos = r.write_pos } in
      let tail_count = min (length elems) (sub_size c (next_pos c r.write_pos)) in
      let has_tail = leb r.read_pos r.write_pos in
      let after_tail = if has_tail then store_part c start (take tail_count elems) else start in
      let togo = if has_tail then drop tail_count elems else elems in
      let end = if ltb 0 (length togo) then store_part c after_tail togo else after_tail in
      record r { array = end.array; write_pos = end.pos }

  unfoldable pub clear_part : A → ℕ → Cursor A → ℕ → Cursor A
  clear_part nullelem c s count =
      let pos = next_pos c s.pos in
      record { array = fill_block nullelem s.array pos count; pos = last_pos c pos count }

  -- From the wait of `dropImpl` on.
  unfoldable pub drop_range : ℕ → Ringbuffer A → Ringbuffer A
  drop_range count r =
      let c = r.capacity_plus_one in
      let start : Cursor A = record { array = r.array; pos = r.read_pos } in
      let tail_count = min count (sub_size c (next_pos c r.read_pos)) in
      let has_tail = ltb r.write_pos r.read_pos in
      let after_tail = if has_tail then clear_part r.nullelem c start tail_count else start in
      let togo = if has_tail then sub_size count tail_count else count in
      let end = if ltb 0 togo then clear_part r.nullelem c after_tail togo else after_tail in
      record r { array = end.array; read_pos = end.pos }

  -- From the wait of `moveOutImpl` of a range on: what it writes to `dest`, and the buffer after it.
  unfoldable pub take_range : ℕ → Ringbuffer A → List A × Ringbuffer A
  take_range count r =
      let c = r.capacity_plus_one in
      let start : Cursor A = record { array = r.array; pos = r.read_pos } in
      let tail_count = min count (sub_size c (next_pos c r.read_pos)) in
      let has_tail = ltb r.write_pos r.read_pos in
      let after_tail = if has_tail then clear_part r.nullelem c start tail_count else start in
      let tail_out =
        if has_tail then read_block r.nullelem r.array (next_pos c r.read_pos) tail_count else [] in
      let togo = if has_tail then sub_size count tail_count else count in
      let end = if ltb 0 togo then clear_part r.nullelem c after_tail togo else after_tail in
      let head_out =
        if ltb 0 togo
        then read_block r.nullelem after_tail.array (next_pos c after_tail.pos) togo
        else [] in
      (tail_out ++ head_out, record r { array = end.array; read_pos = end.pos })

  -- An act of a putter while a getter waits: a put of a range, or of one element, if it fits.
  unfoldable pub put_act : List A → Ringbuffer A → Ringbuffer A
  put_act elems r =
      if length elems == 0
      then r
      else if leb (length elems) (get_free_slots r)
      then store_range elems r
      else r

  -- An act of a getter while a putter waits: a get or a drop, if there are as many elements.
  unfoldable pub get_act : ℕ → Ringbuffer A → Ringbuffer A
  get_act count r =
      if count == 0 then r else if leb count (get_size r) then drop_range count r else r

  module _ (mode : Mode) where
    -- `moveIntoImpl` and `copyIntoImpl`, which differ in how the element is passed.
    unfoldable pub put : List (WakeUp ℕ) → A → Ringbuffer A → Reply Bool (Ringbuffer A)
    put wakes e r = settle false (λ s. (true, store_one e s)) (await get_act is_full mode wakes r)

    -- `copyIntoImpl` of a range
    unfoldable pub put_range : List (WakeUp ℕ) → List A → Ringbuffer A → Reply Bool (Ringbuffer A)
    put_range wakes elems r =
        if leb r.capacity_plus_one (length elems)
        then returned false r
        else if length elems == 0
        then returned true r
        else settle false (λ s. (true, store_range elems s))
            (await get_act (λ s. ltb (get_free_slots s) (length elems)) mode wakes r)

    -- `peekImpl`: `success` and the value
    unfoldable pub peek : List (WakeUp (List A)) → Ringbuffer A → Reply (Bool × A) (Ringbuffer A)
    peek wakes r =
        settle (false, r.nullelem)
          (λ s. ((true, get_or s.array (next_pos s.capacity_plus_one s.read_pos) s.nullelem), s))
          (await put_act is_empty mode wakes r)

    -- `moveOutImpl`: `success` and the value
    unfoldable pub get : List (WakeUp (List A)) → Ringbuffer A → Reply (Bool × A) (Ringbuffer A)
    get wakes r =
        settle (false, r.nullelem) (λ s. let (v, s') = take_one s in ((true, v), s'))
          (await put_act is_empty mode wakes r)

    -- `moveOutImpl` of a range: the elements written to `dest`, whose number it returns
    unfoldable pub get_range :
        List (WakeUp (List A)) → ℕ → ℕ → Ringbuffer A → Reply (List A) (Ringbuffer A)
    get_range wakes dest_len min_count_ r =
        let min_count = min dest_len min_count_ in
        if leb r.capacity_plus_one min_count
        then returned [] r
        else if min_count == 0
        then returned [] r
        else settle [] (λ s. take_range (min dest_len (get_size s)) s)
            (await put_act (λ s. ltb (get_size s) min_count) mode wakes r)

    -- `dropImpl`
    unfoldable pub drop_elems :
        List (WakeUp (List A)) → ℕ → Ringbuffer A → Reply Bool (Ringbuffer A)
    drop_elems wakes count r =
        if leb r.capacity_plus_one count
        then returned false r
        else if count == 0
        then returned true r
        else settle false (λ s. (true, drop_range count s))
            (await put_act (λ s. ltb (get_size s) count) mode wakes r)

    -- `waitForElements` and `waitForFreeSlots`, which always wait: the count that they return
    unfoldable pub wait_for_elements :
        List (WakeUp (List A)) → ℕ → Ringbuffer A → Reply ℕ (Ringbuffer A)
    wait_for_elements wakes min_count r =
        count_of get_size (wait_loop put_act (λ s. ltb (get_size s) min_count) mode wakes r)

    unfoldable pub wait_for_free_slots : List (WakeUp ℕ) → ℕ → Ringbuffer A → Reply ℕ (Ringbuffer A)
    wait_for_free_slots wakes min_count r =
        count_of get_free_slots
          (wait_loop get_act (λ s. ltb (get_free_slots s) min_count) mode wakes r)
