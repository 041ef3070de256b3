-- ===== src/CowDarray/Tests.antt =====
-- Runs of the models of include/jau/cow_darray.hpp and include/jau/cow_iterator.hpp, and their theorems
-- at concrete containers.
use jaulib.Prelude.{
  ℕ, ◌+◌, ◌≡◌, refl, true, false, List, [], ◌∷◌, ltb, ◌==◌, arith, Bool, some, Option, leb,
}
use jaulib.Darray.{Darray, Config, Result, ok, threw, ◌>>=◌}
use jaulib.Darray.View.{View, held, view}
use jaulib.Darray.Ops.{own, outside}
use jaulib.CowDarray.{Cow, push_back, push_back_range, load}
use jaulib.Darray.Whole.Reads.{cloned}
use jaulib.CowDarray.Shelf.{Shelf, shown, showing, fetch, shelved, view_at}
use jaulib.CowDarray.Iterators.{RoIterator, read_ro, erase_matching}
use jaulib.CowDarray.Sessions.{
  Edit, edit_advance, edit_erase, edit_insert, edit_push_back, session, promise_session, IsSession,
  session_refines,
}
use jaulib.CowDarray.Erasing.{promise_erase, erase_matching_refines}
use jaulib.CowDarray.Run.{
  Call, call_push_back, call_push_back_unique, call_pop_back, call_erase_matching, run, run_alone,
  Agrees, run_isolated, read_ro-run,
}
use jaulib.CowDarray.Ranges.{push_back_range_lost}
use jaulib.CowDarray.Order.{rw_order, rw_le_ro, rw_lt_ro, rw_ge_ro, rw_gt_ro}

-- Objects moved one by one, in memory for at most twenty.
abbrev objects : Config
objects = record {
  uses_memmove = false;
  uses_realloc = false;
  alloc = λ n. ltb n 21;
  scaled = λ n. n + n;
}

abbrev same : ℕ → ℕ → Bool
same a b = a == b

-- A container with three elements and room for one.
abbrev three : View ℕ
three = view (7 ∷ 8 ∷ 7 ∷ []) 1

abbrev shelf : Shelf ℕ
shelf = record { views = three ∷ []; store_ref = some 0 }

abbrev second : RoIterator
second = record { store_ref = some 0; pos = 1 }

abbrev two_pushes : List (Call ℕ)
two_pushes = call_push_back 9 ∷ call_push_back 6 ∷ []

-- The first push stays in the store, and the second one makes a copy.
abbrev pushed : Shelf ℕ
pushed = record {
  views = view (7 ∷ 8 ∷ 7 ∷ 9 ∷ []) 0 ∷ view (7 ∷ 8 ∷ 7 ∷ 9 ∷ 6 ∷ []) 5 ∷ [];
  store_ref = some 1;
}

both_pushed : run objects same two_pushes (shown shelf) ≡ ok (shown pushed)
unfolding run jaulib.Darray.Run.resume jaulib.CowDarray.Run.perform push_back load
    jaulib.CowDarray.capacity_reached jaulib.Darray.Ops.push_back jaulib.Darray.Ops.grow_if
    jaulib.Darray.Ops.at_end jaulib.Darray.Ops.read_source jaulib.Darray.construct
    jaulib.CowDarray.store_at jaulib.Darray.Whole.copy_with jaulib.Darray.Whole.read_range
    jaulib.Darray.read jaulib.Darray.Ops.clone_range jaulib.Darray.alloc_store
    jaulib.Darray.grown_capacity jaulib.Darray.ctor_copy_range jaulib.CowDarray.publish
both_pushed = refl

run_isolated_example :
    (r : Result (Shelf ℕ)) × (run objects same
        (call_push_back 9 ∷ call_erase_matching 7 true ∷ [])
        (shown shelf)
      ≡ showing r)
    × Agrees objects same shelf r
        (run_alone objects same (call_push_back 9 ∷ call_erase_matching 7 true ∷ []) three)
unfolding fetch
run_isolated_example =
    run_isolated objects same (call_push_back 9 ∷ call_erase_matching 7 true ∷ []) shelf three refl

read_ro-run_example : read_ro (shown pushed).stores second ≡ ok 8
unfolding fetch read_ro load jaulib.Darray.read
read_ro-run_example =
    read_ro-run objects same two_pushes shelf three (shown pushed) second 8 refl both_pushed refl

abbrev edits : List (Edit ℕ)
edits = edit_advance 1 ∷ edit_erase ∷ edit_insert 4 ∷ edit_push_back 5 ∷ []

edits-IsSession : IsSession objects edits shelf
unfolding IsSession fetch cloned jaulib.Darray.Run.IsOkThen jaulib.CowDarray.Sessions.AreInside
    jaulib.CowDarray.Sessions.IsInside jaulib.CowDarray.Sessions.promise_edit
    jaulib.Darray.Promise.erase jaulib.Darray.Promise.insert jaulib.Darray.Promise.push_back
    jaulib.Darray.View.widen_if jaulib.Darray.View.widen jaulib.Darray.View.grown
edits-IsSession = (three, refl, (tt, (tt, (tt, (tt, tt)))))

session_refines_example :
    session objects edits (shown shelf) ≡ showing (promise_session objects edits shelf)
session_refines_example = session_refines objects edits shelf edits-IsSession

erase_matching_refines_example :
    erase_matching objects same 7 false (shown shelf)
    ≡ (promise_erase objects same 7 false shelf >>= λ p. ok (p.0, shown p.1))
unfolding fetch
erase_matching_refines_example = erase_matching_refines objects same 7 false shelf three refl

push_back_range_lost_example :
    push_back_range objects (1 ∷ 2 ∷ []) (shown shelf)
    ≡ ok (
        shown (
          shelved
            (view_at (some 0) (view (7 ∷ 8 ∷ 7 ∷ 1 ∷ 2 ∷ []) 0) shelf.views)
            (view (7 ∷ 8 ∷ 7 ∷ []) 2)))
unfolding fetch
push_back_range_lost_example =
    push_back_range_lost objects 1 (2 ∷ []) shelf three refl (omega arith) (omega arith) refl

abbrev addresses : Option ℕ → ℕ
addresses ref = 1000

abbrev first : RoIterator
first = record { store_ref = some 0; pos = 0 }

rw_order_example :
    (rw_le_ro addresses second second ≡ ltb 1 1)
    × (rw_lt_ro addresses second second ≡ leb 1 1)
    × (rw_ge_ro addresses second second ≡ ltb 1 1)
    × (rw_gt_ro addresses second second ≡ leb 1 1)
rw_order_example = rw_order addresses (some 0) 1 1
