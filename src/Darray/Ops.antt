-- ===== src/Darray/Ops.antt =====
-- The operations of include/jau/darray.hpp. A position is an index: iterators before `begin_` are not
-- modelled.
use jaulib.Prelude.{
  ℕ, zero, suc, ◌+◌, ◌-◌, Bool, true, false, List, [], Option, ltb, leb, ◌==◌, if◌then◌else◌,
  length,
}
use jaulib.Darray.{
  Darray, Config, illegal_argument, index_out_of_bounds, Result, ok, threw, dangling, fault, ◌>>=◌,
  read, construct, dtor_one, dtor_range, ctor_copy_range, alloc_store, grown_capacity,
  grow_storage_move, move_elements, within,
}

-- A `const value_type&` argument: a value outside the array, or the element at an index of it.
pub data Source {ℓ} (A : Type ℓ) : Type ℓ where
  outside : A → Source A
  own : ℕ → Source A

module _ {ℓ} {A : Type ℓ} where
  -- The argument is read after the storage was moved, and its old place may be gone.
  unfoldable pub read_source : Bool → List (Option A) → Source A → Result A
  read_source grown storage (outside v) = ok v
  read_source grown storage (own i) = if grown then fault else read storage i

  unfoldable pub pop_back : Darray A → Result (Darray A)
  pop_back d =
      let popped =
        dtor_one d.storage (d.size - 1) >>= λ s. ok (record { storage = s; size = d.size - 1 }) in
      if d.size == 0 then ok d else popped

  unfoldable pub clear : Darray A → Result (Darray A)
  clear d = dtor_range d.storage 0 d.size >>= λ s. ok (record { storage = []; size = 0 })

  -- An exception after `freeStore` of that capacity, which does nothing where there is no storage.
  unfoldable pub freed : ℕ → Result (Darray A) → Result (Darray A)
  freed capacity (threw e) = if capacity == 0 then threw e else dangling e
  freed capacity r = r

  -- `at`
  unfoldable pub at : ℕ → Darray A → Result A
  at i d = if ltb i d.size then read d.storage i else threw index_out_of_bounds

module _ {ℓ} {A : Type ℓ} (matches : A → A → Bool) where
  -- The loop of `push_back_unique` over `count` elements: whether one of them matches.
  unfoldable pub any_from : A → Darray A → ℕ → ℕ → Result Bool
  any_from x d pos zero = ok false
  any_from x d pos (suc count) = read d.storage pos >>= λ v.
      let rest = any_from x d (pos + 1) count in if matches v x then ok true else rest

module _ {ℓ} {A : Type ℓ} (cfg : Config) where
  -- `darray(capacity)`
  unfoldable pub new : ℕ → Result (Darray A)
  new cap = alloc_store cfg cap >>= λ s. ok (record { storage = s; size = 0 })

  -- The elements in new storage of that capacity: `clone_range` and `clone_range_foreign`.
  unfoldable pub clone_range : ℕ → List A → Result (Darray A)
  clone_range cap xs = do
    s ← alloc_store cfg cap
    s' ← ctor_copy_range s 0 xs
    ok (record { storage = s'; size = length xs })

  -- `clone_range_check`
  unfoldable pub clone_range_check : ℕ → List A → Result (Darray A)
  clone_range_check cap xs =
      if ltb cap (length xs) then threw illegal_argument else clone_range cap xs

  -- `end_ == storage_end_`
  unfoldable pub at_end : Darray A → Bool
  at_end d = d.size == length d.storage

  unfoldable pub grow_if : Bool → ℕ → Darray A → Result (Darray A)
  grow_if needed n d = if needed then grow_storage_move cfg n d else ok d

  unfoldable pub push_back : Source A → Darray A → Result (Darray A)
  push_back x d = do
    d' ← grow_if (at_end d) (grown_capacity cfg d) d
    v ← read_source (at_end d) d'.storage x
    s ← construct d'.storage d'.size v
    ok (record { storage = s; size = d'.size + 1 })

  -- The elements from `pos` on, `count` slots to the right.
  unfoldable pub make_room : ℕ → ℕ → Darray A → Result (List (Option A))
  make_room pos count d =
      let right_count = d.size - pos in
      if ltb 0 right_count
      then move_elements cfg d.storage (pos + count) pos right_count
      else ok d.storage

  -- `insert` of one element, and `emplace`; the iterator returned is at `pos`.
  unfoldable pub insert : ℕ → Source A → Darray A → Result (Darray A)
  insert pos x d =
      let inserted = (do
        d' ← grow_if (at_end d) (grown_capacity cfg d) d
        s ← make_room pos 1 d'
        v ← read_source (at_end d) s x
        s' ← construct s pos v
        ok (record { storage = s'; size = d'.size + 1 })) in
      if leb pos d.size then inserted else threw index_out_of_bounds

  -- `end_ + count >= storage_end_`
  unfoldable pub no_room : ℕ → Darray A → Bool
  no_room count d = leb (length d.storage) (d.size + count)

  -- `insert` of a range from elsewhere
  unfoldable pub insert_range : ℕ → List A → Darray A → Result (Darray A)
  insert_range pos xs d =
      let count = length xs in
      let inserted = (do
        d' ← grow_if (no_room count d) (d.size + count) d
        s ← make_room pos count d'
        s' ← ctor_copy_range s pos xs
        ok (record { storage = s'; size = d'.size + count })) in
      if leb pos d.size then inserted else threw index_out_of_bounds

  -- `push_back` of a range from elsewhere
  unfoldable pub push_back_range : List A → Darray A → Result (Darray A)
  push_back_range xs d = do
    d' ← grow_if (no_room (length xs) d) (d.size + length xs) d
    s ← ctor_copy_range d'.storage d'.size xs
    ok (record { storage = s; size = d'.size + length xs })

  -- `erase` of one element; a position past the end does nothing.
  unfoldable pub erase : ℕ → Darray A → Result (Darray A)
  erase pos d =
      let right_count = d.size - (pos + 1) in
      let erased = (do
        s ← dtor_one d.storage pos
        s' ← (if ltb 0 right_count then move_elements cfg s pos (pos + 1) right_count else ok s)
        ok (record { storage = s'; size = d.size - 1 })) in
      if ltb pos d.size then erased else ok d

  -- `erase` of a range
  unfoldable pub erase_range : ℕ → ℕ → Darray A → Result (Darray A)
  erase_range first last d =
      let count = last - first in
      let right_count = d.size - last in
      dtor_range d.storage first count >>= λ s.
      let moved = if ltb 0 right_count then move_elements cfg s first last right_count else ok s in
      if ltb 0 count
      then (moved >>= λ s'. ok (record { storage = s'; size = d.size - count }))
      else ok (record d { storage = s })

  unfoldable pub reserve : ℕ → Darray A → Result (Darray A)
  reserve n d = grow_if (ltb (length d.storage) n) n d

  -- `assign`, and `operator=` of another array
  unfoldable pub assign : List A → Darray A → Result (Darray A)
  assign xs d = do
    s ← dtor_range d.storage 0 d.size
    (if ltb (length d.storage) (length xs)
        then freed (length d.storage) (clone_range (length xs) xs)
        else (ctor_copy_range s 0 xs >>= λ s'. ok (record { storage = s'; size = length xs })))

  module _ (matches : A → A → Bool) where
    unfoldable pub push_back_unique : A → Darray A → Result (Bool × Darray A)
    push_back_unique x d = any_from matches x d 0 d.size >>= λ found.
        if found then ok (false, d) else (push_back (outside x) d >>= λ d'. ok (true, d'))

    -- The loop of `erase_matching` over the elements below `pos`, from the last down: how many were
    -- erased.
    unfoldable pub erase_down : A → Bool → ℕ → ℕ → Darray A → Result (ℕ × Darray A)
    erase_down x all_matching zero count d = ok (count, d)
    erase_down x all_matching (suc pos) count d = read d.storage pos >>= λ v.
        let rest = erase_down x all_matching pos count d in
        let erased = erase pos d >>= λ d'.
        let more = erase_down x all_matching pos (count + 1) d' in
        within (count + 1) (if all_matching then more else ok (count + 1, d')) in
        if matches v x then erased else rest

    -- `erase_matching`: with no storage `end_ - 1` is below the null pointer, and wraps round.
    unfoldable pub erase_matching : A → Bool → Darray A → Result (ℕ × Darray A)
    erase_matching x all_matching d =
        if length d.storage == 0 then fault else erase_down x all_matching d.size 0 d
