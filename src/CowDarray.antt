-- ===== src/CowDarray.antt =====
-- include/jau/cow_darray.hpp: the state of `class cow_darray` and its operations. The stores that
-- `std::shared_ptr` keeps are one list, and a `storage_ref_t` is a position in it. A store that
-- nobody refers to stays in the list, where nobody sees it.
pub mod Iterators
pub mod Shelf
pub mod Effects
pub mod Refines
pub mod Sessions
pub mod Erasing
pub mod Isolation
pub mod Run
pub mod Ranges
pub mod Order
mod Tests
use jaulib.Prelude.{
  ℕ, zero, suc, ◌+◌, Bool, List, [], ◌∷◌, ◌++◌, Option, none, some, ltb, leb, true, false,
  if◌then◌else◌, length, get_elem?, set, take, ◌-◌, ◌==◌,
}
use jaulib.Darray.{
  Darray, Config, Result, ok, threw, dangling, fault, ◌>>=◌, read, grown_capacity, capacity,
}
use jaulib.Darray.Whole.{read_range, no_store, copy_with, copy_of}
use jaulib.Darray.Ops
use jaulib.Darray.Ops.{Source, outside, own, read_source, clone_range, clone_range_check, any_from}

-- `store_ref` is null after the container was moved from. `stores` is the memory that all
-- containers and iterators share.
pub record Cow {ℓ} (A : Type ℓ) : Type ℓ where
  pub stores : List (Darray A)
  pub store_ref : Option ℕ

-- An exception that leaves a `noexcept` function ends the program.
unfoldable pub no_throw {ℓ} : {S : Type ℓ} → Result S → Result S
no_throw (threw e) = fault
no_throw (dangling e) = fault
no_throw r = r

module _ {ℓ} {A : Type ℓ} where
  -- `*ref`
  unfoldable pub load : List (Darray A) → Option ℕ → Result (Darray A)
  load stores none = fault
  load stores (some i) = elim (get_elem? stores i) [ some d ↦ ok d | none ↦ fault ]

  -- A store changes where it is, for all that refer to it.
  unfoldable pub store_at : Option ℕ → Darray A → List (Darray A) → List (Darray A)
  store_at none d stores = stores
  store_at (some i) d stores = set stores i d

  -- `store_ref = std::make_shared<storage_t>( d )`
  unfoldable pub publish : Darray A → Cow A → Cow A
  publish d c = record { stores = c.stores ++ (d ∷ []); store_ref = some (length c.stores) }

  -- `capacity_reached`
  unfoldable pub capacity_reached : Darray A → Bool
  capacity_reached d = leb (length d.storage) d.size

  -- `cow_darray()`
  unfoldable pub new : List (Darray A) → Cow A
  new stores = publish no_store (record { stores = stores; store_ref = none })

  unfoldable pub clear : Cow A → Cow A
  clear c = publish no_store c

  -- `operator=(storage_t&&)`
  unfoldable pub take_store : Darray A → Cow A → Cow A
  take_store d c = publish d c

  -- `cow_darray(cow_darray&&)` and `operator=(cow_darray&&)` of another container: both of them
  -- afterwards, the other one by its reference.
  unfoldable pub move_from : Option ℕ → Cow A → Cow A × Option ℕ
  move_from x_ref c = (record c { store_ref = x_ref }, none)

  -- `swap` with another container, which is its reference.
  unfoldable pub swap : Option ℕ → Cow A → Cow A × Option ℕ
  swap x_ref c = (record c { store_ref = x_ref }, c.store_ref)

  unfoldable pub snapshot : Cow A → Option ℕ
  snapshot c = c.store_ref

  unfoldable pub set_store : Option ℕ → Cow A → Cow A
  set_store ref c = record c { store_ref = ref }

  unfoldable pub size : Cow A → Result ℕ
  size c = load c.stores c.store_ref >>= λ d. ok d.size

  unfoldable pub empty : Cow A → Result Bool
  empty c = load c.stores c.store_ref >>= λ d. ok (d.size == 0)

module _ {ℓ} {A : Type ℓ} (cfg : Config) where
  -- `cow_darray(capacity)`
  unfoldable pub new_capacity : ℕ → List (Darray A) → Result (Cow A)
  new_capacity cap stores =
      Ops.new cfg cap >>= λ d. ok (publish d (record { stores = stores; store_ref = none }))

  -- The constructors from a range, with a capacity; a list of initial values has its length.
  unfoldable pub new_range : ℕ → List A → List (Darray A) → Result (Cow A)
  new_range cap xs stores = clone_range_check cfg cap xs >>= λ d.
      ok (publish d (record { stores = stores; store_ref = none }))

  -- `operator=(const storage_t&)`
  unfoldable pub assign_store : Darray A → Cow A → Result (Cow A)
  assign_store x c = copy_of cfg x >>= λ d. ok (publish d c)

  -- `operator=(const cow_darray&)`, and with no store before the copy constructor: the other
  -- container is its reference.
  unfoldable pub assign : Option ℕ → Cow A → Result (Cow A)
  assign x_ref c = load c.stores x_ref >>= λ x. copy_of cfg x >>= λ d. ok (publish d c)

  -- `copy_store`: the memory afterwards, and the reference of the copy.
  unfoldable pub copy_store : Cow A → Result (List (Darray A) × Option ℕ)
  copy_store c = do
    x ← load c.stores c.store_ref
    d ← copy_of cfg x
    ok (c.stores ++ (d ∷ []), some (length c.stores))

  unfoldable pub reserve : ℕ → Cow A → Result (Cow A)
  reserve n c = load c.stores c.store_ref >>= λ x.
      let copied = copy_with cfg n x >>= λ d. ok (publish d c) in
      if ltb (length x.storage) n then copied else ok c

  unfoldable pub pop_back : Cow A → Result (Cow A)
  pop_back c = load c.stores c.store_ref >>= λ x.
      let popped = (do
        xs ← read_range x.storage 0 (x.size - 1)
        d ← clone_range_check cfg (length x.storage) xs
        ok (publish d c)) in
      if x.size == 0 then ok c else no_throw popped

  -- `push_back` of one element, and `emplace_back`. The argument may be an element of the container.
  unfoldable pub push_back : Source A → Cow A → Result (Cow A)
  push_back v c = load c.stores c.store_ref >>= λ x.
      let copied = (do
        d ← copy_with cfg (grown_capacity cfg x) x
        e ← read_source false x.storage v
        d' ← Ops.push_back cfg (outside e) d
        ok (publish d' c)) in
      let appended = Ops.push_back cfg v x >>= λ x'.
      ok (record c { stores = store_at c.store_ref x' c.stores }) in
      if capacity_reached x then copied else appended

  -- `push_back` of a range from elsewhere. It puts the range in the old store, also where it makes a
  -- larger copy.
  unfoldable pub push_back_range : List A → Cow A → Result (Cow A)
  push_back_range xs c = load c.stores c.store_ref >>= λ x.
      let copied = (do
        d ← copy_with cfg (x.size + length xs) x
        x' ← Ops.push_back_range cfg xs x
        ok (publish d (record c { stores = store_at c.store_ref x' c.stores }))) in
      let appended = Ops.push_back_range cfg xs x >>= λ x'.
      ok (record c { stores = store_at c.store_ref x' c.stores }) in
      if ltb (length x.storage) (x.size + length xs) then copied else appended

  unfoldable pub push_back_unique : (A → A → Bool) → A → Cow A → Result (Bool × Cow A)
  push_back_unique matches v c = load c.stores c.store_ref >>= λ x.
      any_from matches v x 0 x.size >>= λ found.
      if found then ok (false, c) else (push_back (outside v) c >>= λ c'. ok (true, c'))
