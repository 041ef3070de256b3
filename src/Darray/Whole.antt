-- ===== src/Darray/Whole.antt =====
-- include/jau/darray.hpp: operations on two arrays, which may be one and the same. The arrays are one
-- list, and each is named by its place in it. The growth factor is the same for all of them.
pub mod Reads
pub mod Refines
use jaulib.Prelude.{
  ℕ, zero, suc, ◌+◌, ◌==◌, List, [], ◌∷◌, ◌++◌, Option, none, some, if◌then◌else◌, length,
  get_elem?, set,
}
use jaulib.Darray.{Darray, Config, Result, ok, threw, dangling, fault, ◌>>=◌, read}
use jaulib.Darray.Ops.{assign, clear, clone_range}

module _ {ℓ} {A : Type ℓ} where
  -- The objects of `count` slots from `pos` on.
  unfoldable pub read_range : List (Option A) → ℕ → ℕ → Result (List A)
  read_range storage pos zero = ok []
  read_range storage pos (suc count) = do
    x ← read storage pos
    xs ← read_range storage (pos + 1) count
    ok (x ∷ xs)

  -- The array at a place.
  unfoldable pub array : ℕ → List (Darray A) → Result (Darray A)
  array i arrays = elim (get_elem? arrays i) [ some d ↦ ok d | none ↦ fault ]

  -- `darray()`, and what `explicit_bzero` leaves of an array that was moved from
  abbrev pub no_store : Darray A
  no_store = record { storage = []; size = 0 }

  -- `swap`
  unfoldable pub swap : ℕ → ℕ → List (Darray A) → Result (List (Darray A))
  swap i j arrays = do d ← array i arrays; x ← array j arrays; ok (set (set arrays i x) j d)

  -- `operator=(darray&& x)`
  unfoldable pub move_assign : ℕ → ℕ → List (Darray A) → Result (List (Darray A))
  move_assign i j arrays =
      let moved = (do
        d ← array i arrays
        x ← array j arrays
        cleared ← clear d
        ok (set (set arrays i x) j no_store)) in
      if i == j then ok arrays else moved

  -- `darray(darray&& x)`, the new array behind the others
  unfoldable pub move_new : ℕ → List (Darray A) → Result (List (Darray A))
  move_new j arrays = do x ← array j arrays; ok (set arrays j no_store ++ (x ∷ []))

module _ {ℓ} {A : Type ℓ} (cfg : Config) where
  -- `darray(const darray& x, capacity, ...)`: nothing compares the capacity with the size.
  unfoldable pub copy_with : ℕ → Darray A → Result (Darray A)
  copy_with cap d = read_range d.storage 0 d.size >>= λ xs. clone_range cfg cap xs

  -- `darray(const darray& x)`
  unfoldable pub copy_of : Darray A → Result (Darray A)
  copy_of d = copy_with d.size d

  -- `darray(const darray& x)`, the new array behind the others
  unfoldable pub copy_new : ℕ → List (Darray A) → Result (List (Darray A))
  copy_new j arrays = do x ← array j arrays; d ← copy_of x; ok (arrays ++ (d ∷ []))

  -- `operator=(const darray& x)`: the elements are read where they are copied, the array itself is
  -- cleared before.
  unfoldable pub copy_assign : ℕ → ℕ → List (Darray A) → Result (List (Darray A))
  copy_assign i j arrays =
      let copied = (do
        d ← array i arrays
        x ← array j arrays
        xs ← read_range x.storage 0 x.size
        d' ← assign cfg xs d
        ok (set arrays i d')) in
      if i == j then ok arrays else copied

-- The operations on several arrays.
pub data Act : Type 0 where
  act_copy_assign act_move_assign act_swap : ℕ → ℕ → Act
  act_copy_new act_move_new : ℕ → Act

module _ {ℓ} {A : Type ℓ} (cfg : Config) where
  unfoldable pub perform : Act → List (Darray A) → Result (List (Darray A))
  perform (act_copy_assign i j) arrays = copy_assign cfg i j arrays
  perform (act_move_assign i j) arrays = move_assign i j arrays
  perform (act_swap i j) arrays = swap i j arrays
  perform (act_copy_new j) arrays = copy_new cfg j arrays
  perform (act_move_new j) arrays = move_new j arrays

  unfoldable pub run : List Act → List (Darray A) → Result (List (Darray A))
  run [] arrays = ok arrays
  run (act ∷ acts) arrays = perform act arrays >>= run acts
