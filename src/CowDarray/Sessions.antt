-- ===== src/CowDarray/Sessions.antt =====
-- include/jau/cow_iterator.hpp: a session with the mutable iterator of a container. It works on a
-- copy of its own, at the end of the memory, and leaves every other store as it is.
use jaulib.Prelude.{
  ℕ, ◌+◌, ◌≡◌, ◌≤◌, refl, ap, ap₂, ◌∙◌, List, [], ◌∷◌, ◌++◌, map, Option, some, length, min,
  get_elem?-append, set-append, length-map, arith,
}
use jaulib.Darray.{Darray, Config, Result, ok, threw, dangling, fault, ◌>>=◌}
use jaulib.Darray.View.{View, held, holding}
use jaulib.Darray.Inserts
use jaulib.Darray.Appends
use jaulib.Darray.Erases
use jaulib.Darray.Ops.{outside}
use jaulib.Darray.Promise
use jaulib.Darray.Run.{IsOkThen}
use jaulib.CowDarray.{Cow, load, copy_store, set_store}
use jaulib.Darray.Whole.Reads.{cloned, stores-held, copy_of-held}
use jaulib.CowDarray.Shelf.{
  Shelf, shown, showing, fetch, shelved, load-held, store_at-held, view_at,
}
use jaulib.CowDarray.Iterators
use jaulib.CowDarray.Iterators.{RwIterator, storage, edited, begin, write_back}

-- The calls of a mutable iterator, with arguments from elsewhere. A range to put in is not empty.
pub data Edit {ℓ} (A : Type ℓ) : Type ℓ where
  edit_erase : Edit A
  edit_erase_count : ℕ → Edit A
  edit_insert : A → Edit A
  edit_insert_range : A → List A → Edit A
  edit_push_back : A → Edit A
  edit_push_back_range : A → List A → Edit A
  edit_pop_back : Edit A
  edit_advance : ℕ → Edit A
  edit_to_begin : Edit A
  edit_to_end : Edit A

module _ {ℓ} {A : Type ℓ} where
  -- The iterator at `pos` of its own copy `v`, next to the stores of the shelf.
  abbrev pub working : Shelf A → View A → ℕ → RwIterator A
  working s v pos = record {
    cow_parent = record { stores = map held (s.views ++ (v ∷ [])); store_ref = s.store_ref };
    store_ref = some (length s.views);
    pos = pos;
  }

  pub fetch-last :
      (views : List (View A)) (v : View A) → fetch (views ++ (v ∷ [])) (some (length views)) ≡ ok v
  unfolding fetch
  fetch-last views v = rw (get_elem?-append views v [], fetch)

  pub storage-working :
      (s : Shelf A) (v : View A) (pos : ℕ) → storage (working s v pos) ≡ ok (held v)
  unfolding storage
  storage-working s v pos =
      load-held (s.views ++ (v ∷ [])) (some (length s.views)) ∙ ap holding (fetch-last s.views v)

  pub edited-working :
      (s : Shelf A) (v w : View A) (pos i : ℕ) → edited (working s v pos) (held w) i ≡ working s w i
  unfolding edited view_at
  edited-working s v w pos i =
      ap
        (λ l. record {
          cow_parent = record { stores = l; store_ref = s.store_ref };
          store_ref = some (length s.views);
          pos = i;
        })
        (store_at-held (some (length s.views)) w (s.views ++ (v ∷ []))
          ∙ ap (map held) (set-append s.views w v []))

  -- An operation of the array that belongs to the iterator.
  edit-working :
      (s : Shelf A) (v : View A) (pos : ℕ) (F : Darray A → Result (Darray A)) (r : Result (View A))
      (at : ℕ → ℕ)
      → F (held v) ≡ holding r
      → (storage (working s v pos) >>= λ d.
          F d >>= λ d'. ok (edited (working s v pos) d' (at d'.size)))
        ≡ ((r >>= λ w. ok (w, at (length w.items))) >>= λ (w, i). ok (working s w i))
  edit-working s v pos F r at h = rw (storage-working s v pos, h) (edit-result s v pos r at)
    where
      edit-result :
          (s : Shelf A) (v : View A) (pos : ℕ) (r : Result (View A)) (at : ℕ → ℕ)
          → (holding r >>= λ d'. ok (edited (working s v pos) d' (at d'.size)))
            ≡ ((r >>= λ w. ok (w, at (length w.items))) >>= λ (w, i). ok (working s w i))
      edit-result s v pos (ok w) at = ap ok (edited-working s v w pos (at (length w.items)))
      edit-result s v pos (threw e) at = refl
      edit-result s v pos (dangling e) at = refl
      edit-result s v pos fault at = refl

module _ {ℓ} {A : Type ℓ} (cfg : Config) where
  unfoldable pub perform_edit : Edit A → RwIterator A → Result (RwIterator A)
  perform_edit edit_erase it = Iterators.erase cfg it
  perform_edit (edit_erase_count n) it = Iterators.erase_count cfg n it
  perform_edit (edit_insert x) it = Iterators.insert cfg (outside x) it
  perform_edit (edit_insert_range x xs) it = Iterators.insert_range cfg (x ∷ xs) it
  perform_edit (edit_push_back x) it = Iterators.push_back cfg (outside x) it
  perform_edit (edit_push_back_range x xs) it = Iterators.push_back_range cfg (x ∷ xs) it
  perform_edit edit_pop_back it = Iterators.pop_back it
  perform_edit (edit_advance n) it = ok (Iterators.advance n it)
  perform_edit edit_to_begin it = ok (Iterators.to_begin it)
  perform_edit edit_to_end it = Iterators.to_end it

  -- What it does to the iterator's own elements and to the position.
  unfoldable pub promise_edit : Edit A → View A × ℕ → Result (View A × ℕ)
  promise_edit edit_erase (v, pos) = let w = Promise.erase pos v in ok (w, min pos (length w.items))
  promise_edit (edit_erase_count n) (v, pos) =
      let w = Promise.erase_range pos (pos + n) v in ok (w, min pos (length w.items))
  promise_edit (edit_insert x) (v, pos) = Promise.insert cfg pos x v >>= λ w. ok (w, pos)
  promise_edit (edit_insert_range x xs) (v, pos) =
      Promise.insert_range cfg pos (x ∷ xs) v >>= λ w. ok (w, pos)
  promise_edit (edit_push_back x) (v, pos) =
      Promise.push_back cfg x v >>= λ w. ok (w, length w.items)
  promise_edit (edit_push_back_range x xs) (v, pos) =
      Promise.push_back_range cfg (x ∷ xs) v >>= λ w. ok (w, length w.items)
  promise_edit edit_pop_back (v, pos) = let w = Promise.pop_back v in ok (w, length w.items)
  promise_edit (edit_advance n) (v, pos) = ok (v, pos + n)
  promise_edit edit_to_begin (v, pos) = ok (v, 0)
  promise_edit edit_to_end (v, pos) = ok (v, length v.items)

  -- The elements to erase are there.
  unfoldable pub IsInside : Edit A → View A × ℕ → Type 0
  IsInside (edit_erase_count n) (v, pos) = pos + n ≤ length v.items
  IsInside edit (v, pos) = Unit

  perform_edit_refines :
      (edit : Edit A) (s : Shelf A) (v : View A) (pos : ℕ)
      → IsInside edit (v, pos)
      → perform_edit edit (working s v pos)
        ≡ (promise_edit edit (v, pos) >>= λ (w, i). ok (working s w i))
  unfolding perform_edit promise_edit IsInside Iterators.erase Iterators.erase_count
      Iterators.insert Iterators.insert_range Iterators.push_back Iterators.push_back_range
      Iterators.pop_back Iterators.advance Iterators.to_begin Iterators.to_end
  perform_edit_refines edit_erase s v pos h =
      edit-working s v pos _ (ok (Promise.erase pos v)) (λ n. min pos n)
        (Erases.erase_refines cfg pos v)
  perform_edit_refines (edit_erase_count n) s v pos h =
      edit-working s v pos _ (ok (Promise.erase_range pos (pos + n) v)) (λ m. min pos m)
        (Erases.erase_range_refines cfg pos (pos + n) v (omega arith) h)
  perform_edit_refines (edit_insert x) s v pos h =
      edit-working s v pos _ (Promise.insert cfg pos x v) (λ _. pos)
        (Inserts.insert_refines cfg pos x v)
  perform_edit_refines (edit_insert_range x xs) s v pos h =
      edit-working s v pos _ (Promise.insert_range cfg pos (x ∷ xs) v) (λ _. pos)
        (Inserts.insert_range_refines cfg pos x xs v)
  perform_edit_refines (edit_push_back x) s v pos h =
      edit-working s v pos _ (Promise.push_back cfg x v) (λ n. n)
        (Appends.push_back_refines cfg x v)
  perform_edit_refines (edit_push_back_range x xs) s v pos h =
      edit-working s v pos _ (Promise.push_back_range cfg (x ∷ xs) v) (λ n. n)
        (Appends.push_back_range_refines cfg x xs v)
  perform_edit_refines edit_pop_back s v pos h =
      edit-working s v pos _ (ok (Promise.pop_back v)) (λ n. n) (Erases.pop_back_refines v)
  perform_edit_refines (edit_advance n) s v pos h = refl
  perform_edit_refines edit_to_begin s v pos h = refl
  perform_edit_refines edit_to_end s v pos h = rw (storage-working s v pos)

  unfoldable pub edit_all : List (Edit A) → RwIterator A → Result (RwIterator A)
  edit_all [] it = ok it
  edit_all (edit ∷ edits) it = perform_edit edit it >>= λ it'. edit_all edits it'

  unfoldable pub promise_all : List (Edit A) → View A × ℕ → Result (View A × ℕ)
  promise_all [] p = ok p
  promise_all (edit ∷ edits) p = promise_edit edit p >>= λ q. promise_all edits q

  unfoldable pub AreInside : List (Edit A) → View A × ℕ → Type 0
  AreInside [] p = Unit
  AreInside (edit ∷ edits) p = IsInside edit p × IsOkThen (AreInside edits) (promise_edit edit p)

  edit_step :
      (edits : List (Edit A)) (s : Shelf A) (r : Result (View A × ℕ))
      → IsOkThen (AreInside edits) r
      → ((w : View A) (i : ℕ)
          → AreInside edits (w, i)
          → edit_all edits (working s w i)
            ≡ (promise_all edits (w, i) >>= λ (w', j). ok (working s w' j)))
      → ((r >>= λ (w, i). ok (working s w i)) >>= λ it. edit_all edits it)
        ≡ ((r >>= λ q. promise_all edits q) >>= λ (w, i). ok (working s w i))
  unfolding IsOkThen
  edit_step edits s (ok (w, i)) later rest = rest w i later
  edit_step edits s (threw e) later rest = refl
  edit_step edits s (dangling e) later rest = refl
  edit_step edits s fault later rest = refl

  edit_all_refines :
      (edits : List (Edit A)) (s : Shelf A) (v : View A) (pos : ℕ)
      → AreInside edits (v, pos)
      → edit_all edits (working s v pos)
        ≡ (promise_all edits (v, pos) >>= λ (w, i). ok (working s w i))
  unfolding edit_all promise_all AreInside
  edit_all_refines [] s v pos h = refl
  edit_all_refines (edit ∷ edits) s v pos (inside, later) =
      rw (perform_edit_refines edit s v pos inside) (
        edit_step edits s (promise_edit edit (v, pos)) later
          (λ w i h. edit_all_refines edits s w i h))

  -- `begin` of the container, the calls of the iterator, and `write_back`.
  unfoldable pub session : List (Edit A) → Cow A → Result (Cow A)
  session edits c = do it ← begin cfg c; it' ← edit_all edits it; ok (write_back it').cow_parent

  unfoldable pub promise_session : List (Edit A) → Shelf A → Result (Shelf A)
  promise_session edits s = do
    v ← fetch s.views s.store_ref
    w ← cloned cfg (length v.items) v.items
    (w', i) ← promise_all edits (w, 0)
    ok (shelved s.views w')

  clone_working :
      (s : Shelf A) (r : Result (View A))
      → (◌>>=◌ {T = List (Darray A) × Option ℕ}
            (holding r)
            (λ d. ok (map held s.views ++ (d ∷ []), some (length (map held s.views))))
          >>= λ (stores, ref). ok (record {
            cow_parent = record { stores = stores; store_ref = s.store_ref };
            store_ref = ref;
            pos = 0;
          }))
        ≡ (r >>= λ w. ok (working s w 0))
  clone_working s (ok w) =
      ap₂
        (λ l n. ok (record {
          cow_parent = record { stores = l; store_ref = s.store_ref };
          store_ref = some n;
          pos = 0;
        }))
        (stores-held s.views w) (length-map s.views held)
  clone_working s (threw e) = refl
  clone_working s (dangling e) = refl
  clone_working s fault = refl

  -- `begin` of the container makes the iterator's own copy, or fails as the copying does.
  pub begin-working :
      (s : Shelf A) (v : View A)
      → fetch s.views s.store_ref ≡ ok v
      → begin cfg (shown s) ≡ (cloned cfg (length v.items) v.items >>= λ w. ok (working s w 0))
  unfolding begin copy_store
  begin-working s v h =
      let loaded : load (map held s.views) s.store_ref ≡ ok (held v) =
        load-held s.views s.store_ref ∙ ap holding h in
      rw (loaded, copy_of-held cfg v) (clone_working s (cloned cfg (length v.items) v.items))

  written :
      (s : Shelf A) (r : Result (View A × ℕ))
      → ((r >>= λ (w, i). ok (working s w i)) >>= λ it. ok (write_back it).cow_parent)
        ≡ showing (r >>= λ (w, i). ok (shelved s.views w))
  unfolding write_back set_store
  written s (ok p) = refl
  written s (threw e) = refl
  written s (dangling e) = refl
  written s fault = refl

  session_from :
      (edits : List (Edit A)) (s : Shelf A) (r : Result (View A))
      → IsOkThen (λ w. AreInside edits (w, 0)) r
      → ((r >>= λ w. ok (working s w 0)) >>= λ it.
          edit_all edits it >>= λ it'. ok (write_back it').cow_parent)
        ≡ showing (r >>= λ w. promise_all edits (w, 0) >>= λ (w', i). ok (shelved s.views w'))
  unfolding IsOkThen write_back
  session_from edits s (ok w) inside =
      rw (edit_all_refines edits s w 0 inside) (written s (promise_all edits (w, 0)))
  session_from edits s (threw e) inside = refl
  session_from edits s (dangling e) inside = refl
  session_from edits s fault inside = refl

  -- What is asked of the caller: a store, and elements where the calls of the iterator erase some.
  unfoldable pub IsSession : List (Edit A) → Shelf A → Type ℓ
  IsSession edits s =
      (v : View A) × (fetch s.views s.store_ref ≡ ok v)
      × IsOkThen (λ w. AreInside edits (w, 0)) (cloned cfg (length v.items) v.items)

  -- A session that writes back replaces the container's store by the iterator's copy, on which
  -- its calls did what they promise of lists, and leaves all other stores as they were; a call
  -- that fails ends the session with its exception. The elements that it puts in come from
  -- elsewhere, a range that is put in is not empty, the container has a store, and a range that
  -- is erased is within the elements.
  pub session_refines :
      (edits : List (Edit A)) (s : Shelf A)
      → IsSession edits s
      → session edits (shown s) ≡ showing (promise_session edits s)
  unfolding session promise_session IsSession
  session_refines edits s (v, h, inside) =
      rw (begin-working s v h, h) (session_from edits s (cloned cfg _ v.items) inside)
