-- ===== src/Ringbuffer/Threads/Fifo.antt =====
-- include/jau/ringbuffer.hpp: whatever way the accesses of a putter and a getter interleave, elements come
-- out in the order they went in, and a put that finds room does not wait for the getter.
use jaulib.Prelude.{◌+◌, ◌≤◌, ◌≡◌, refl, ap, ◌∙◌, List, [], ◌∷◌, ◌++◌, length, length-append, arith}
use jaulib.Ringbuffer.{Ringbuffer, capacity}
use jaulib.Ringbuffer.Invariant.{IsValid, contents, length-contents, counts}
use jaulib.Ringbuffer.Threads.{
  Threads, Move, call_put, call_get, putter_step, getter_step, putter_fails, getter_fails, put_idle,
  get_idle, move, run,
}
use jaulib.Ringbuffer.Threads.Good.{Good, threads, idle_put, idle_get, restored, in_flight}
use jaulib.Ringbuffer.Threads.Putting.{step_put-Good, begin_put-Good, fail_put-Good, get_size-array}
use jaulib.Ringbuffer.Threads.Getting.{step_get-Good, begin_get-Good, fail_get-Good}

module _ {ℓ} {A : Type ℓ} where
  pub move-Good : (m : Move A) (t : Threads A) → Good t → Good (move m t)
  unfolding move
  move-Good (call_put e) t h = begin_put-Good e t h
  move-Good call_get t h = begin_get-Good t h
  move-Good putter_step t h = step_put-Good t h
  move-Good getter_step t h = step_get-Good t h
  move-Good putter_fails t h = fail_put-Good t h
  move-Good getter_fails t h = fail_get-Good t h

  run-Good : (moves : List (Move A)) (t : Threads A) → Good t → Good (run moves t)
  unfolding run
  run-Good [] t h = h
  run-Good (m ∷ moves) t h = run-Good moves (move m t) (move-Good m t h)

  -- Both threads before their first call.
  abbrev pub started : Ringbuffer A → Threads A
  started r = threads r put_idle get_idle (contents r) []

  pub started-Good : {r : Ringbuffer A} → IsValid r → Good (started r)
  unfolding restored
  started-Good v = record {
    valid = v;
    fifo = refl;
    putter_knows = idle_put;
    getter_knows = idle_get;
  }

  -- Under every interleaving of the accesses of a putter and a getter a well-formed buffer stays
  -- well-formed, and what was got, followed by what is in flight, is what the buffer held at
  -- first, followed by what was put: nothing is lost, doubled or overtaken.
  pub run_fifo :
      (moves : List (Move A)) (r : Ringbuffer A)
      → IsValid r
      → IsValid (run moves (started r)).buffer
        × ((run moves (started r)).received ++ in_flight (run moves (started r))
            ≡ (run moves (started r)).sent)
  run_fifo moves r v = let h = run-Good moves (started r) (started-Good v) in (h.valid, h.fifo)

  Good-bounded : (t : Threads A) → Good t → length t.sent ≤ length t.received + capacity t.buffer
  Good-bounded t h =
      let n = counts h.valid in
      let len = ap length h.fifo in
      let parts = length-append t.received (in_flight t) in
      let flying =
        length-contents (record t.buffer { array = restored t.getter t.buffer.array })
        ∙ get_size-array t.buffer (restored t.getter t.buffer.array) in
      omega arith

  -- Under every interleaving of the accesses of a putter and a getter of a well-formed buffer at
  -- most as many elements as the capacity are put and not yet got.
  pub run_bounded :
      (moves : List (Move A)) (r : Ringbuffer A)
      → IsValid r
      → length (run moves (started r)).sent
        ≤ length (run moves (started r)).received + capacity (run moves (started r)).buffer
  run_bounded moves r v =
      Good-bounded (run moves (started r)) (run-Good moves (started r) (started-Good v))
