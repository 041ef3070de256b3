-- ===== src/Darray.antt =====
-- include/jau/darray.hpp: the state of `class darray`, its memory, and what growing and moving do to
-- single slots. A slot is raw memory or a live object; what C++ leaves undefined is a `fault`.
pub mod Ops
pub mod Memory
pub mod Shift
pub mod View
pub mod Promise
pub mod Grow
pub mod Counting
pub mod Inserts
pub mod Appends
pub mod Erases
pub mod Matching
pub mod Unique
pub mod Assign
pub mod Run
pub mod Whole
pub mod Faults
mod Tests
use jaulib.Prelude.{
  ℕ, zero, suc, ◌+◌, ◌-◌, ◌*◌, ◌^◌, Bool, List, [], ◌∷◌, ◌++◌, Option, none, some, ltb, leb, ◌==◌,
  if◌then◌else◌, length, get_elem?, set, take, drop, replicate, max, not, ◌&&◌,
}

-- `begin_` to `storage_end_` is `storage`, and `end_ - begin_` is `size`. No storage is the null
-- pointer.
pub record Darray {ℓ} (A : Type ℓ) : Type ℓ where
  pub storage : List (Option A)
  pub size : ℕ

-- The template's flags, the allocator and the growth factor. `alloc n` says whether memory for `n`
-- elements is to be had; `scaled n` is `size_type(n * growth_factor_ + 0.5f)`.
pub record Config : Type 0 where
  pub uses_memmove : Bool
  pub uses_realloc : Bool
  pub alloc : ℕ → Bool
  pub scaled : ℕ → ℕ

-- The exceptions that are thrown.
pub data Error : Type 0 where
  illegal_argument out_of_memory index_out_of_bounds length_error : Error

-- `threw` leaves the array as it was; after `dangling`, an exception too, `begin_` points to memory
-- that was freed.
pub data Result {ℓ} (S : Type ℓ) : Type ℓ where
  ok : S → Result S
  threw : Error → Result S
  dangling : Error → Result S
  fault : Result S

infixl 5 ◌>>=◌
abbrev pub ◌>>=◌ {ℓ κ} : {S : Type ℓ} {T : Type κ} → Result S → (S → Result T) → Result T
ok s >>= f = f s
threw e >>= f = threw e
dangling e >>= f = dangling e
fault >>= f = fault

-- What follows when an `int` that counts has become `n`: beyond the maximum of its 32 bits its increment
-- is undefined.
abbrev pub within {ℓ} : {S : Type ℓ} → ℕ → Result S → Result S
within n r = if ltb n (2 ^ 31) then r else fault

-- `DIFF_MAX` for a 64-bit `difference_type`
abbrev pub diff_max : ℕ
diff_max = 2 ^ 63 - 1

module _ {ℓ} {A : Type ℓ} where
  -- Reading `*pos`.
  unfoldable pub read : List (Option A) → ℕ → Result A
  read storage pos = elim (get_elem? storage pos) [ some (some v) ↦ ok v | _ ↦ fault ]

  -- `new (pos) value_type(v)`, on raw memory.
  unfoldable pub construct : List (Option A) → ℕ → A → Result (List (Option A))
  construct storage pos v = elim (get_elem? storage pos) [
    | some none ↦ ok (set storage pos (some v))
    | _ ↦ fault
  ]

  -- `dtor_one`
  unfoldable pub dtor_one : List (Option A) → ℕ → Result (List (Option A))
  dtor_one storage pos = elim (get_elem? storage pos) [
    | some (some v) ↦ ok (set storage pos none)
    | _ ↦ fault
  ]

  -- `dtor_range` of `count` objects
  unfoldable pub dtor_range : List (Option A) → ℕ → ℕ → Result (List (Option A))
  dtor_range storage pos zero = ok storage
  dtor_range storage pos (suc count) = dtor_one storage pos >>= λ s. dtor_range s (pos + 1) count

  -- `ctor_copy_range` and its checked and foreign versions
  unfoldable pub ctor_copy_range : List (Option A) → ℕ → List A → Result (List (Option A))
  ctor_copy_range storage pos [] = ok storage
  ctor_copy_range storage pos (x ∷ xs) =
      construct storage pos x >>= λ s. ctor_copy_range s (pos + 1) xs

  -- `new (dest) value_type(std::move(*first)); dtor_one(first);`
  unfoldable pub move_slot : List (Option A) → ℕ → ℕ → Result (List (Option A))
  unfolding read construct dtor_one
  move_slot storage dest first = do
    v ← read storage first
    s ← construct storage dest v
    dtor_one s first

  -- The loop of `move_elements` to the left.
  unfoldable pub move_left : List (Option A) → ℕ → ℕ → ℕ → Result (List (Option A))
  move_left storage dest first zero = ok storage
  move_left storage dest first (suc count) =
      move_slot storage dest first >>= λ s. move_left s (dest + 1) (first + 1) count

  -- The loop to the right: from the last of `count` objects down.
  unfoldable pub move_right : List (Option A) → ℕ → ℕ → ℕ → Result (List (Option A))
  move_right storage dest first zero = ok storage
  move_right storage dest first (suc count) =
      move_slot storage (dest + count) (first + count) >>= λ s. move_right s dest first count

  abbrev pub raw : ℕ → List (Option A)
  raw n = replicate n none

  -- `memmove` of `count` objects; the slots that only the source had are raw afterwards.
  unfoldable pub move_block : List (Option A) → ℕ → ℕ → ℕ → Result (List (Option A))
  move_block storage dest first count =
      let block = take count (drop first storage) in
      let cleared = take first storage ++ (raw count ++ drop (first + count) storage) in
      if leb (first + count) (length storage) && leb (dest + count) (length storage)
      then ok (take dest cleared ++ (block ++ drop (dest + count) cleared))
      else fault

  -- The move into new storage, when the elements are no plain bytes.
  unfoldable pub move_over : List (Option A) → List (Option A) → ℕ → ℕ → Result (List (Option A))
  move_over old new pos zero = ok new
  move_over old new pos (suc count) = do
    v ← read old pos
    new' ← construct new pos v
    old' ← dtor_one old pos
    move_over old' new' (pos + 1) count

  -- `memcpy` of the elements into new storage
  unfoldable pub copy_block : Darray A → List (Option A) → Result (List (Option A))
  copy_block d new =
      if leb d.size (length new) then ok (take d.size d.storage ++ drop d.size new) else fault

module _ {ℓ} {A : Type ℓ} (cfg : Config) where
  open cfg use {uses_memmove, uses_realloc, alloc, scaled}

  unfoldable pub capacity : Darray A → ℕ
  capacity d = length d.storage

  -- `allocStore`
  unfoldable pub alloc_store : ℕ → Result (List (Option A))
  alloc_store n =
      if n == 0
      then ok []
      else if ltb diff_max n
      then threw illegal_argument
      else if alloc n
      then ok (raw n)
      else threw out_of_memory

  -- `reallocStore`: on failure it frees the storage that `begin_` points to, if it does not point to null.
  unfoldable pub realloc_store : Darray A → ℕ → Result (List (Option A))
  realloc_store d n =
      if ltb diff_max n
      then threw illegal_argument
      else if alloc n
      then ok (take n d.storage ++ raw (n - length d.storage))
      else if length d.storage == 0
      then threw out_of_memory
      else dangling out_of_memory

  unfoldable pub grown_capacity : Darray A → ℕ
  grown_capacity d = max (max 10 (length d.storage + 1)) (scaled (length d.storage))

  -- `grow_storage_move`
  unfoldable pub grow_storage_move : ℕ → Darray A → Result (Darray A)
  grow_storage_move n d =
      let moved = (do
        new ← alloc_store n
        new' ← move_over d.storage new 0 d.size
        ok (record d { storage = new' })) in
      let resized = realloc_store d n >>= λ s. ok (record d { storage = s }) in
      let copied = (do
        new ← alloc_store n
        new' ← copy_block d new
        ok (record d { storage = new' })) in
      if not uses_memmove then moved else if uses_realloc then resized else copied

  -- `move_elements`
  unfoldable pub move_elements : List (Option A) → ℕ → ℕ → ℕ → Result (List (Option A))
  move_elements storage dest first count =
      if uses_memmove
      then move_block storage dest first count
      else if ltb dest first
      then move_left storage dest first count
      else move_right storage dest first count
