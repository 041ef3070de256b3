-- ===== src/CowDarray/Iterators.antt =====
-- include/jau/cow_iterator.hpp over the stores of include/jau/cow_darray.hpp: the immutable and the
-- mutable iterator, and `erase_matching`, which uses the latter. A position is an index.
use jaulib.Prelude.{
  ℕ, zero, suc, ◌+◌, Bool, List, Option, none, some, ltb, ◌==◌, if◌then◌else◌, min,
}
use jaulib.Darray.{Darray, Config, Result, ok, fault, within, ◌>>=◌, read}
use jaulib.Darray.Ops
use jaulib.Darray.Ops.{Source, outside}
use jaulib.CowDarray.{Cow, load, store_at, copy_store, set_store, snapshot}

-- `cow_ro_iterator`
pub record RoIterator : Type 0 where
  pub store_ref : Option ℕ
  pub pos : ℕ

-- `cow_rw_iterator` with its container. It holds the container's write lock as long as its own
-- `store_ref` is not null.
pub record RwIterator {ℓ} (A : Type ℓ) : Type ℓ where
  pub cow_parent : Cow A
  pub store_ref : Option ℕ
  pub pos : ℕ

module _ {ℓ} {A : Type ℓ} where
  -- `cbegin` of the container
  unfoldable pub cbegin : Cow A → RoIterator
  cbegin c = record { store_ref = snapshot c; pos = 0 }

  -- `*it`, read from the memory as it is now.
  unfoldable pub read_ro : List (Darray A) → RoIterator → Result A
  read_ro stores it = load stores it.store_ref >>= λ d. read d.storage it.pos

  -- `is_end` of an immutable iterator
  unfoldable pub is_end_ro : List (Darray A) → RoIterator → Result Bool
  is_end_ro stores it = load stores it.store_ref >>= λ d. ok (it.pos == d.size)

  -- The store of a mutable iterator, `storage()`.
  unfoldable pub storage : RwIterator A → Result (Darray A)
  storage it = load it.cow_parent.stores it.store_ref

  -- The iterator's own store changes, and its position is set.
  unfoldable pub edited : RwIterator A → Darray A → ℕ → RwIterator A
  edited it d i = record it {
    cow_parent = record it.cow_parent { stores = store_at it.store_ref d it.cow_parent.stores };
    pos = i;
  }

  unfoldable pub is_end : RwIterator A → Result Bool
  is_end it = storage it >>= λ d. ok (it.pos == d.size)

  -- `operator*`
  unfoldable pub read_rw : RwIterator A → Result A
  read_rw it = storage it >>= λ d. read d.storage it.pos

  -- `operator+=`, and with 1 `operator++`
  unfoldable pub advance : ℕ → RwIterator A → RwIterator A
  advance n it = record it { pos = it.pos + n }

  unfoldable pub to_begin : RwIterator A → RwIterator A
  to_begin it = record it { pos = 0 }

  unfoldable pub to_end : RwIterator A → Result (RwIterator A)
  to_end it = storage it >>= λ d. ok (record it { pos = d.size })

  unfoldable pub pop_back : RwIterator A → Result (RwIterator A)
  pop_back it = storage it >>= λ d. Ops.pop_back d >>= λ d'. ok (edited it d' d'.size)

  -- `write_back`: a second one does nothing.
  unfoldable pub write_back : RwIterator A → RwIterator A
  write_back it = elim it.store_ref [
    | none ↦ it
    | some i ↦ record { cow_parent = set_store (some i) it.cow_parent; store_ref = none; pos = 0 }
  ]

  -- `immutable`
  unfoldable pub immutable : RwIterator A → RoIterator
  immutable it = record { store_ref = it.store_ref; pos = it.pos }

module _ {ℓ} {A : Type ℓ} (cfg : Config) where
  -- `begin` of the container
  unfoldable pub begin : Cow A → Result (RwIterator A)
  begin c = copy_store cfg c >>= λ (stores, ref).
      ok (record { cow_parent = record c { stores = stores }; store_ref = ref; pos = 0 })

  -- `erase`; a position past the end becomes the end.
  unfoldable pub erase : RwIterator A → Result (RwIterator A)
  erase it =
      storage it >>= λ d. Ops.erase cfg it.pos d >>= λ d'. ok (edited it d' (min it.pos d'.size))

  -- `erase(count)`
  unfoldable pub erase_count : ℕ → RwIterator A → Result (RwIterator A)
  erase_count n it = storage it >>= λ d.
      Ops.erase_range cfg it.pos (it.pos + n) d >>= λ d'. ok (edited it d' (min it.pos d'.size))

  unfoldable pub insert : Source A → RwIterator A → Result (RwIterator A)
  insert v it = storage it >>= λ d. Ops.insert cfg it.pos v d >>= λ d'. ok (edited it d' it.pos)

  unfoldable pub insert_range : List A → RwIterator A → Result (RwIterator A)
  insert_range vs it =
      storage it >>= λ d. Ops.insert_range cfg it.pos vs d >>= λ d'. ok (edited it d' it.pos)

  unfoldable pub push_back : Source A → RwIterator A → Result (RwIterator A)
  push_back v it = storage it >>= λ d. Ops.push_back cfg v d >>= λ d'. ok (edited it d' d'.size)

  unfoldable pub push_back_range : List A → RwIterator A → Result (RwIterator A)
  push_back_range vs it =
      storage it >>= λ d. Ops.push_back_range cfg vs d >>= λ d'. ok (edited it d' d'.size)

  module _ (matches : A → A → Bool) (x : A) (all_matching : Bool) where
    -- The loop of `erase_matching`; `fuel` is more than the elements from the position on.
    unfoldable pub erase_loop : ℕ → ℕ → RwIterator A → Result (ℕ × RwIterator A)
    erase_loop zero count it = fault
    erase_loop (suc fuel) count it = is_end it >>= λ done.
        let erased = erase it >>= λ it'.
        let more = erase_loop fuel (count + 1) it' in
        within (count + 1) (if all_matching then more else ok (count + 1, it')) in
        let skipped = erase_loop fuel count (advance 1 it) in
        let looked = read_rw it >>= λ y. if matches y x then erased else skipped in
        if done then ok (count, it) else looked

    -- `erase_matching` after `begin`
    unfoldable pub erase_in : RwIterator A → Result (ℕ × Cow A)
    erase_in it = do
      d ← storage it
      (count, it') ← erase_loop (d.size + 1) 0 it
      ok (count, (if ltb 0 count then write_back it' else it').cow_parent)

    unfoldable pub erase_matching : Cow A → Result (ℕ × Cow A)
    erase_matching c = begin c >>= λ it. erase_in it
