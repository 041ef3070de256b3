-- ===== src/Ringbuffer/Tests.antt =====
-- Runs of include/jau/ringbuffer.hpp on small buffers, and its theorems at concrete inputs.
use jaulib.Prelude.{
  ℕ, ◌≡◌, refl, true, false, List, [], ◌∷◌, some, none, replicate, length-replicate, arith,
}
use jaulib.Ringbuffer.{
  Ringbuffer, Traits, get_size, get_free_slots, next_pos, last_pos, write_block, fill_block,
  read_block, is_empty, is_full,
}
use jaulib.Ringbuffer.Wait.{
  nonblocking, timed, forever, no_timeout, timeout, await, wait_loop, acts_on,
}
use jaulib.Ringbuffer.Ops
use jaulib.Ringbuffer.Slots.{window}
use jaulib.Ringbuffer.Invariant.{IsValid, contents}
use jaulib.Ringbuffer.Puts.{Stored, store_range-Stored}
use jaulib.Ringbuffer.Gets.{Taken, take_range-Taken}
use jaulib.Ringbuffer.Refine.Acts.{Holds}
use jaulib.Ringbuffer.Refine.Run.{
  Call, success, value, elems, perform, perform_queue, run, run_refines,
}
use jaulib.Ringbuffer.Reset.{Arrays, Ends, done, reset, recapacity, copy_slots, assign}
use jaulib.Ringbuffer.Reset.Clone.{assign-Filled}
use jaulib.Ringbuffer.Reset.Clear.{Filled, reset-Filled}
use jaulib.Ringbuffer.Reset.Recapacity.{recapacity-Filled}

-- Four slots; 8 stands in the last one and 9, round the end, in the first.
abbrev wrapped : Ringbuffer ℕ
wrapped = record {
  nullelem = 0;
  capacity_plus_one = 4;
  array = 9 ∷ 0 ∷ 0 ∷ 8 ∷ [];
  read_pos = 2;
  write_pos = 0;
}

abbrev zeros : Arrays ℕ
zeros = record { new_array = λ n. replicate n 0; length-new_array = λ n. length-replicate n 0 }

abbrev loops : Traits
loops = record { uses_memcpy = false; uses_memset = false }

abbrev bytes : Traits
bytes = record { uses_memcpy = true; uses_memset = true }

wrapped-IsValid : IsValid wrapped
wrapped-IsValid = omega arith

wrapped-Holds : Holds 3 0 wrapped (8 ∷ 9 ∷ [])
unfolding get_size window next_pos
wrapped-Holds = record {
  valid = omega arith;
  held = refl;
  same_capacity = refl;
  same_nullelem = refl;
}

-- A put of two that waits for a getter, a get of up to three, and a get that times out.
abbrev script : List (Call ℕ)
script =
    Call.put_range timed (record { status = no_timeout; acts = 1 ∷ [] } ∷ []) (5 ∷ 6 ∷ [])
    ∷ Call.get_range nonblocking [] 3 1
    ∷ Call.get timed (record { status = timeout; acts = [] } ∷ [])
    ∷ Call.put nonblocking [] 7
    ∷ Call.peek nonblocking []
    ∷ Call.drop forever [] 2
    ∷ []

run-script :
    run perform script wrapped
    ≡ some (success true)
      ∷ some (elems (9 ∷ 5 ∷ 6 ∷ []))
      ∷ some (value (false, 0))
      ∷ some (success true)
      ∷ some (value (true, 7))
      ∷ none
      ∷ []
unfolding run perform Ops.put_range Ops.get_range Ops.get Ops.put Ops.peek Ops.drop_elems Ops.settle
    await wait_loop acts_on Ops.store_range Ops.store_part Ops.take_range Ops.drop_range
    Ops.clear_part Ops.get_act Ops.put_act Ops.store_one Ops.take_one get_size get_free_slots
    next_pos last_pos write_block fill_block read_block is_empty is_full
run-script = refl

run_refines_example : run perform script wrapped ≡ run (perform_queue 3 0) script (8 ∷ 9 ∷ [])
run_refines_example = run_refines 3 0 script wrapped (8 ∷ 9 ∷ []) wrapped-Holds

store_range-Stored_example : Stored wrapped (5 ∷ []) (Ops.store_range (5 ∷ []) wrapped)
unfolding get_free_slots get_size
store_range-Stored_example = store_range-Stored (5 ∷ []) wrapped-IsValid (omega arith) (omega arith)

take_range-Taken_example :
    Taken wrapped 2 (Ops.take_range 2 wrapped).1 × ((Ops.take_range 2 wrapped).0 ≡ 8 ∷ 9 ∷ [])
unfolding get_size window next_pos
take_range-Taken_example = take_range-Taken 2 wrapped-IsValid (omega arith) (omega arith)

reset-Filled_example :
    Ends (Filled 0 6 (1 ∷ 2 ∷ 3 ∷ 4 ∷ 5 ∷ [])) (reset bytes zeros (1 ∷ 2 ∷ 3 ∷ 4 ∷ 5 ∷ []) wrapped)
reset-Filled_example =
    reset-Filled bytes zeros (1 ∷ 2 ∷ 3 ∷ 4 ∷ 5 ∷ []) wrapped-IsValid (omega arith)

recapacity-Filled_example : Ends (Filled 0 8 (contents wrapped)) (recapacity loops zeros 7 wrapped)
unfolding get_size
recapacity-Filled_example =
    recapacity-Filled loops zeros 7 wrapped-IsValid (omega arith) (omega arith)

recapacity_runs :
    recapacity loops zeros 2 wrapped
    ≡ done (record {
      nullelem = 0;
      capacity_plus_one = 3;
      array = 0 ∷ 8 ∷ 9 ∷ [];
      read_pos = 0;
      write_pos = 2;
    })
unfolding recapacity copy_slots get_size next_pos
recapacity_runs = refl

-- Two slots, of which one is in use.
abbrev narrow : Ringbuffer ℕ
narrow = record {
  nullelem = 7;
  capacity_plus_one = 2;
  array = 7 ∷ 3 ∷ [];
  read_pos = 0;
  write_pos = 1;
}

narrow-IsValid : IsValid narrow
narrow-IsValid = omega arith

assign-Filled_example : Ends (Filled 0 4 (contents wrapped)) (assign loops zeros wrapped narrow)
assign-Filled_example = assign-Filled loops zeros wrapped-IsValid narrow-IsValid
