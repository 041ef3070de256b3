-- ===== src/Darray/Tests.antt =====
-- Runs of the model of include/jau/darray.hpp, and its theorems at concrete arrays.
use jaulib.Prelude.{
  ℕ, ◌+◌, ◌≡◌, refl, true, false, List, [], ◌∷◌, ltb, ◌==◌, Bool, none, some, Option, arith,
}
use jaulib.Darray.{
  grow_storage_move, move_elements, ◌>>=◌, Darray, Config, Result, ok, threw, dangling, fault,
  out_of_memory, index_out_of_bounds,
}
use jaulib.Darray.View.{widen, View, held, holding, view}
use jaulib.Darray.Ops.{
  assign, at, push_back_unique, outside, own, new, insert, insert_range, push_back, erase_range,
  erase_matching,
}
use jaulib.Darray.Assign
use jaulib.Darray.Promise
use jaulib.Darray.Appends
use jaulib.Darray.Faults
use jaulib.Darray.Whole
use jaulib.Darray.Whole.Refines.{run_whole_refines}
use jaulib.Darray.Run.{
  AreLegal, Call, call_push_back, call_insert, call_erase_range, call_erase_matching, call_assign,
  run, run_promise, perform, promise, run_keeps_promise, perform_keeps_promise,
}

-- Objects moved one by one, in memory for at most twenty; bytes; and bytes that `realloc` moves.
abbrev objects : Config
objects = record {
  uses_memmove = false;
  uses_realloc = false;
  alloc = λ n. ltb n 21;
  scaled = λ n. n + n;
}

abbrev bytes : Config
bytes = record {
  uses_memmove = true;
  uses_realloc = true;
  alloc = λ n. ltb n 21;
  scaled = λ n. n + n;
}

abbrev three : View ℕ
three = view (7 ∷ 8 ∷ 9 ∷ []) 1

abbrev full : View ℕ
full = view (7 ∷ 8 ∷ []) 0

abbrev pair_left : List (Option ℕ)
pair_left = none ∷ some 1 ∷ some 2 ∷ none ∷ none ∷ []

abbrev pair_right : List (Option ℕ)
pair_right = none ∷ none ∷ none ∷ some 1 ∷ some 2 ∷ []

abbrev same : ℕ → ℕ → Bool
same a b = a == b

inserts : insert objects 1 (outside 5) (held three) ≡ ok (held (view (7 ∷ 5 ∷ 8 ∷ 9 ∷ []) 0))
unfolding insert jaulib.Darray.Ops.grow_if jaulib.Darray.Ops.at_end jaulib.Darray.Ops.make_room
    jaulib.Darray.move_elements jaulib.Darray.move_right jaulib.Darray.move_slot
    jaulib.Darray.Ops.read_source
inserts = refl

abbrev script : List (Call ℕ)
script =
    call_insert 1 5
    ∷ call_push_back 8
    ∷ call_erase_matching 8 true
    ∷ call_insert 9 4
    ∷ call_erase_range 0 2
    ∷ call_assign (1 ∷ 2 ∷ [])
    ∷ []

script_runs : run bytes same script (held three) ≡ ok (held (view (1 ∷ 2 ∷ []) 8))
unfolding run perform jaulib.Darray.Run.resume insert jaulib.Darray.Ops.grow_if
    jaulib.Darray.Ops.at_end jaulib.Darray.Ops.make_room jaulib.Darray.move_elements
    jaulib.Darray.move_block jaulib.Darray.Ops.read_source jaulib.Darray.construct push_back
    jaulib.Darray.grow_storage_move jaulib.Darray.realloc_store jaulib.Darray.grown_capacity
    erase_matching jaulib.Darray.Ops.erase_down jaulib.Darray.read jaulib.Darray.Ops.erase
    jaulib.Darray.Ops.assign erase_range jaulib.Darray.ctor_copy_range jaulib.Darray.dtor_one
    jaulib.Darray.dtor_range
script_runs = refl

-- The theorems at these arrays.
script-AreLegal : AreLegal bytes same script three
unfolding AreLegal jaulib.Darray.Run.IsOkThen jaulib.Darray.Run.IsLegal jaulib.Darray.Run.resume
    promise jaulib.Darray.Promise.insert jaulib.Darray.Promise.push_back
    jaulib.Darray.Promise.erase_matching jaulib.Darray.Promise.hits jaulib.Darray.Promise.kept
    jaulib.Darray.Promise.erase_range jaulib.Darray.Promise.assign jaulib.Darray.View.widen
    jaulib.Darray.View.widen_if jaulib.Darray.View.grown
script-AreLegal = (tt, (tt, (omega arith, (tt, ((omega arith, omega arith), (tt, tt))))))

run_keeps_promise_example :
    run bytes same script (held three) ≡ holding (run_promise bytes same script three)
run_keeps_promise_example = run_keeps_promise bytes same script three script-AreLegal

push_back_refines_example :
    push_back bytes (outside 5) (held three) ≡ holding (Promise.push_back bytes 5 three)
push_back_refines_example = Appends.push_back_refines bytes 5 three

assign_refines_example :
    assign objects (1 ∷ 2 ∷ []) (held three) ≡ holding (Promise.assign objects (1 ∷ 2 ∷ []) three)
assign_refines_example = Assign.assign_refines objects (1 ∷ 2 ∷ []) three

push_back_own_example : push_back objects (own 1) (held full) ≡ fault
unfolding jaulib.Darray.read jaulib.Darray.View.grown
push_back_own_example = Faults.push_back_own objects 1 8 full (omega arith) refl (omega arith) refl

insert_range_nothing_example : insert_range objects 1 [] (held three) ≡ fault
insert_range_nothing_example =
    Faults.insert_range_nothing objects 1 three refl (omega arith) (omega arith)

-- The first array is copied over the second one, moved behind both, and assigned to itself.
abbrev acts : List Whole.Act
acts =
    Whole.act_copy_assign 1 0
    ∷ Whole.act_move_new 0
    ∷ Whole.act_swap 0 2
    ∷ Whole.act_copy_assign 0 0
    ∷ Whole.act_move_assign 1 0
    ∷ []

run_whole_refines_example :
    Whole.run objects acts (held three ∷ held full ∷ [])
    ≡ ok (held (view [] 0) ∷ held three ∷ held (view [] 0) ∷ [])
unfolding jaulib.Darray.Whole.Refines.promise_run jaulib.Darray.Whole.Refines.promise_act
    jaulib.Darray.Whole.Refines.view_of Promise.assign
run_whole_refines_example = run_whole_refines objects acts (three ∷ full ∷ [])
