-- ===== src/Ringbuffer/Threads/Tests.antt =====
-- A putter and a getter of include/jau/ringbuffer.hpp at the same time, on a small buffer.
use jaulib.Prelude.{ℕ, ◌≡◌, refl, List, [], ◌∷◌, ◌++◌, arith}
use jaulib.Ringbuffer.{Ringbuffer, capacity}
use jaulib.Ringbuffer.Invariant.{IsValid}
use jaulib.Ringbuffer.Threads.{
  Threads, Move, call_put, call_get, putter_step, getter_step, put_idle, begin_put, run,
}
use jaulib.Ringbuffer.Threads.Good.{Good, in_flight}
use jaulib.Ringbuffer.Threads.Putting.{begin_put-Good}
use jaulib.Ringbuffer.Threads.Fifo.{started, started-Good, run_fifo}
use jaulib.Ringbuffer.Threads.Progress.{AreNoCalls, put_lands}

-- Four slots; 8 stands in the last one and 9, round the end, in the first.
abbrev wrapped : Ringbuffer ℕ
wrapped = record {
  nullelem = 0;
  capacity_plus_one = 4;
  array = 9 ∷ 0 ∷ 0 ∷ 8 ∷ [];
  read_pos = 2;
  write_pos = 0;
}

wrapped-IsValid : IsValid wrapped
wrapped-IsValid = omega arith

-- The getter clears its slot before the putter stores, and gives it free after it published.
abbrev mixed : List (Move ℕ)
mixed =
    call_get ∷ getter_step ∷ putter_step ∷ getter_step ∷ getter_step ∷ putter_step ∷ putter_step
    ∷ getter_step ∷ []

received : (run (call_put 5 ∷ mixed) (started wrapped)).received ≡ 8 ∷ []
unfolding run jaulib.Ringbuffer.Threads.move jaulib.Ringbuffer.Threads.begin_put
    jaulib.Ringbuffer.Threads.begin_get jaulib.Ringbuffer.Threads.step_put
    jaulib.Ringbuffer.Threads.step_get jaulib.Ringbuffer.next_pos
received = refl

run_fifo_example :
    IsValid (run (call_put 5 ∷ mixed) (started wrapped)).buffer
    × ((run (call_put 5 ∷ mixed) (started wrapped)).received
          ++ in_flight (run (call_put 5 ∷ mixed) (started wrapped))
        ≡ (run (call_put 5 ∷ mixed) (started wrapped)).sent)
run_fifo_example = run_fifo (call_put 5 ∷ mixed) wrapped wrapped-IsValid

abbrev calling : Threads ℕ
calling = begin_put 5 (started wrapped)

calling-Good : Good calling
calling-Good = begin_put-Good 5 (started wrapped) (started-Good wrapped-IsValid)

put_lands_example :
    ((run mixed calling).putter ≡ put_idle) × ((run mixed calling).sent ≡ calling.sent ++ (5 ∷ []))
unfolding begin_put jaulib.Ringbuffer.next_pos jaulib.Ringbuffer.get_free_slots
    jaulib.Ringbuffer.get_size AreNoCalls jaulib.Ringbuffer.Threads.Progress.putter_steps
put_lands_example = put_lands mixed calling 5 1 calling-Good refl (omega arith) tt (omega arith)
