-- ===== src/CowVector.antt =====
-- include/jau/cow_vector.hpp: the state of `class cow_vector` and its operations. A `storage_ref_t` is
-- a position in the list of all vectors that `std::shared_ptr` keeps, as in CowDarray.
pub mod Erasing
pub mod Isolation
pub mod Run
mod Tests
use jaulib.Prelude.{
  ℕ, zero, suc, ◌+◌, ◌-◌, Bool, true, false, List, [], ◌∷◌, ◌++◌, Option, none, some, ltb, leb,
  ◌==◌, if◌then◌else◌, length, get_elem?, take, drop, max,
}
use jaulib.Darray.{Result, ok, threw, dangling, fault, within, ◌>>=◌, out_of_memory, length_error}
use jaulib.CowDarray.{no_throw}

-- `std::vector`
pub record Vector {ℓ} (A : Type ℓ) : Type ℓ where
  pub items : List A
  pub capacity : ℕ

-- The allocator, `max_size()`, and the capacity that `std::vector` takes when a full one must grow.
pub record VectorConfig : Type 0 where
  pub alloc : ℕ → Bool
  pub max_size : ℕ
  pub grown : ℕ → ℕ

-- `store_ref` is null after the container was moved from.
pub record CowVector {ℓ} (A : Type ℓ) : Type ℓ where
  pub stores : List (Vector A)
  pub store_ref : Option ℕ

module _ {ℓ} {A : Type ℓ} where
  abbrev pub vector : List A → ℕ → Vector A
  vector xs n = record { items = xs; capacity = n }

  -- `*ref`
  unfoldable pub load : List (Vector A) → Option ℕ → Result (Vector A)
  load stores none = fault
  load stores (some i) = elim (get_elem? stores i) [ some v ↦ ok v | none ↦ fault ]

  -- `store_ref = std::make_shared<storage_t>( v )`
  unfoldable pub publish : Vector A → CowVector A → CowVector A
  publish v c = record { stores = c.stores ++ (v ∷ []); store_ref = some (length c.stores) }

  -- `cow_vector()`
  unfoldable pub new : List (Vector A) → CowVector A
  new stores = publish (vector [] 0) (record { stores = stores; store_ref = none })

  unfoldable pub clear : CowVector A → CowVector A
  clear c = publish (vector [] 0) c

  -- `cow_vector(cow_vector&&)` and `operator=(cow_vector&&)` of another container, which is its
  -- reference
  unfoldable pub move_from : Option ℕ → CowVector A → CowVector A × Option ℕ
  move_from x_ref c = (record c { store_ref = x_ref }, none)

  unfoldable pub swap : Option ℕ → CowVector A → CowVector A × Option ℕ
  swap x_ref c = (record c { store_ref = x_ref }, c.store_ref)

  unfoldable pub snapshot : CowVector A → Option ℕ
  snapshot c = c.store_ref

  unfoldable pub set_store : Option ℕ → CowVector A → CowVector A
  set_store ref c = record c { store_ref = ref }

  unfoldable pub size : CowVector A → Result ℕ
  size c = load c.stores c.store_ref >>= λ v. ok (length v.items)

  unfoldable pub empty : CowVector A → Result Bool
  empty c = load c.stores c.store_ref >>= λ v. ok (length v.items == 0)

  module _ (cfg : VectorConfig) where
    -- `std::vector` of these elements, with memory for `n` of them; more than `max_size()` is an error.
    unfoldable pub allocate : ℕ → List A → Result (Vector A)
    allocate n xs =
        if n == 0
        then ok (vector [] 0)
        else if ltb cfg.max_size n
        then threw length_error
        else if cfg.alloc n
        then ok (vector xs n)
        else threw out_of_memory

    -- `std::vector(const std::vector&)`
    unfoldable pub copy_of : Vector A → Result (Vector A)
    copy_of v = allocate (length v.items) v.items

    -- `std::vector::push_back`
    unfoldable pub vector_push_back : A → Vector A → Result (Vector A)
    vector_push_back x v =
        let added = v.items ++ (x ∷ []) in
        if ltb (length v.items) v.capacity
        then ok (vector added v.capacity)
        else allocate (max (length added) (cfg.grown v.capacity)) added

    -- `std::vector::reserve`
    unfoldable pub vector_reserve : ℕ → Vector A → Result (Vector A)
    vector_reserve n v = if ltb v.capacity n then allocate n v.items else ok v

    -- `std::vector::pop_back` of a vector that is not empty
    unfoldable pub vector_pop_back : Vector A → Vector A
    vector_pop_back v = vector (take (length v.items - 1) v.items) v.capacity

    -- `std::vector::erase` of the element at a position
    unfoldable pub vector_erase : ℕ → Vector A → Vector A
    vector_erase i v = vector (take i v.items ++ drop (i + 1) v.items) v.capacity

    -- The constructor from a range, or from a list of initial values.
    unfoldable pub new_range : List A → List (Vector A) → Result (CowVector A)
    new_range xs stores = allocate (length xs) xs >>= λ v.
        ok (publish v (record { stores = stores; store_ref = none }))

    -- `operator=(const cow_vector&)`, and with no store before the copy constructor: the other
    -- container is its reference.
    unfoldable pub assign : Option ℕ → CowVector A → Result (CowVector A)
    assign x_ref c = load c.stores x_ref >>= λ x. copy_of x >>= λ v. ok (publish v c)

    -- `copy_store`: the memory afterwards, and the reference of the copy.
    unfoldable pub copy_store : CowVector A → Result (List (Vector A) × Option ℕ)
    copy_store c = do
      x ← load c.stores c.store_ref
      v ← copy_of x
      ok (c.stores ++ (v ∷ []), some (length c.stores))

    unfoldable pub reserve : ℕ → CowVector A → Result (CowVector A)
    reserve n c = load c.stores c.store_ref >>= λ x.
        let copied = (do v ← copy_of x; v' ← vector_reserve n v; ok (publish v' c)) in
        if ltb x.capacity n then copied else ok c

    unfoldable pub pop_back : CowVector A → Result (CowVector A)
    pop_back c = load c.stores c.store_ref >>= λ x.
        let popped = copy_of x >>= λ v. ok (publish (vector_pop_back v) c) in
        if ltb 0 (length x.items) then no_throw popped else ok c

    -- `push_back` and `emplace_back`
    unfoldable pub push_back : A → CowVector A → Result (CowVector A)
    push_back e c = do
      x ← load c.stores c.store_ref
      v ← copy_of x
      v' ← vector_push_back e v
      ok (publish v' c)

    module _ (matches : A → A → Bool) where
      -- The loop of `push_back_unique`.
      unfoldable pub included : A → List A → Bool
      included x [] = false
      included x (y ∷ ys) = let rest = included x ys in if matches y x then true else rest

      unfoldable pub push_back_unique : A → CowVector A → Result (Bool × CowVector A)
      push_back_unique x c = load c.stores c.store_ref >>= λ v.
          if included x v.items then ok (false, c) else (push_back x c >>= λ d. ok (true, d))

      -- The loop of `erase_matching` at position `i`; `fuel` is more than the elements from there on.
      unfoldable pub erase_loop : A → Bool → ℕ → ℕ → ℕ → Vector A → Result (ℕ × Vector A)
      erase_loop x all_matching zero i count v = fault
      erase_loop x all_matching (suc fuel) i count v =
          let w = vector_erase i v in
          let more = erase_loop x all_matching fuel i (count + 1) w in
          let erased = within (count + 1) (if all_matching then more else ok (count + 1, w)) in
          let skipped = erase_loop x all_matching fuel (i + 1) count v in
          elim (get_elem? v.items i) [
            | none ↦ ok (count, v)
            | some y ↦ if matches y x then erased else skipped
          ]

      unfoldable pub erase_matching : A → Bool → CowVector A → Result (ℕ × CowVector A)
      erase_matching x all_matching c = do
        v ← load c.stores c.store_ref
        w ← copy_of v
        (count, w') ← erase_loop x all_matching (length w.items + 1) 0 0 w
        ok (count, if ltb 0 count then publish w' c else c)
