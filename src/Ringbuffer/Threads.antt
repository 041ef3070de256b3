-- ===== src/Ringbuffer/Threads.antt =====
-- include/jau/ringbuffer.hpp: one putter and one getter at the same time, in single accesses of the
-- memory that they share. Each holds the mutex of its side, so there is one of each. The positions are
-- read and written in sequentially consistent order, and a wait tests again whenever it is scheduled.
pub mod Good
pub mod Putting
pub mod Getting
pub mod Fifo
pub mod Progress
mod Tests
use jaulib.Prelude.{ℕ, ◌==◌, Bool, List, [], ◌∷◌, ◌++◌, if◌then◌else◌, get_or, set}
use jaulib.Ringbuffer.{Ringbuffer, next_pos}

-- Where `moveIntoImpl` and `copyIntoImpl` of one element are, with the local `localWritePos`.
pub data Putter {ℓ} (A : Type ℓ) : Type ℓ where
  put_idle : Putter A
  -- before `localWritePos == readPos`
  put_testing : A → ℕ → Putter A
  -- before `array[localWritePos] = e`
  put_storing : A → ℕ → Putter A
  -- before `writePos = localWritePos`
  put_publishing : A → ℕ → Putter A

-- Where `moveOutImpl` of one element is, with the local `localReadPos` and the value.
pub data Getter {ℓ} (A : Type ℓ) : Type ℓ where
  get_idle : Getter A
  -- before `localReadPos == writePos`
  get_testing : ℕ → Getter A
  -- before `r = std::move( array[localReadPos] )`
  get_reading : ℕ → Getter A
  -- before `array[localReadPos] = nullelem`
  get_clearing : A → ℕ → Getter A
  -- before `readPos = localReadPos`
  get_publishing : A → ℕ → Getter A

-- The shared memory, the two threads, and what calls that returned have put and got, oldest first.
pub record Threads {ℓ} (A : Type ℓ) : Type ℓ where
  pub buffer : Ringbuffer A
  pub putter : Putter A
  pub getter : Getter A
  pub sent : List A
  pub received : List A

-- What the scheduler may do next.
pub data Move {ℓ} (A : Type ℓ) : Type ℓ where
  call_put : A → Move A
  call_get : Move A
  putter_step : Move A
  getter_step : Move A
  -- A wait that times out, or that there is none of, after a last test.
  putter_fails : Move A
  getter_fails : Move A

module _ {ℓ} {A : Type ℓ} where
  -- A call begins by reading its own position.
  unfoldable pub begin_put : A → Threads A → Threads A
  begin_put e t = elim t.putter [
    | put_idle ↦ record t {
      putter = put_testing e (next_pos t.buffer.capacity_plus_one t.buffer.write_pos);
    }
    | _ ↦ t
  ]

  unfoldable pub begin_get : Threads A → Threads A
  begin_get t = elim t.getter [
    | get_idle ↦ record t { getter = get_testing t.buffer.read_pos }
    | _ ↦ t
  ]

  unfoldable pub step_put : Threads A → Threads A
  step_put t = elim t.putter [
    | put_idle ↦ t
    | put_testing e pos ↦
        if pos == t.buffer.read_pos then t else record t { putter = put_storing e pos }
    | put_storing e pos ↦ record t {
      buffer = record t.buffer { array = set t.buffer.array pos e };
      putter = put_publishing e pos;
    }
    | put_publishing e pos ↦ record t {
      buffer = record t.buffer { write_pos = pos };
      putter = put_idle;
      sent = t.sent ++ (e ∷ []);
    }
  ]

  unfoldable pub step_get : Threads A → Threads A
  step_get t = elim t.getter [
    | get_idle ↦ t
    | get_testing pos ↦
        if pos == t.buffer.write_pos
        then t
        else record t { getter = get_reading (next_pos t.buffer.capacity_plus_one pos) }
    | get_reading pos ↦ record t {
      getter = get_clearing (get_or t.buffer.array pos t.buffer.nullelem) pos;
    }
    | get_clearing v pos ↦ record t {
      buffer = record t.buffer { array = set t.buffer.array pos t.buffer.nullelem };
      getter = get_publishing v pos;
    }
    | get_publishing v pos ↦ record t {
      buffer = record t.buffer { read_pos = pos };
      getter = get_idle;
      received = t.received ++ (v ∷ []);
    }
  ]

  unfoldable pub fail_put : Threads A → Threads A
  fail_put t = elim t.putter [
    | put_testing e pos ↦ if pos == t.buffer.read_pos then record t { putter = put_idle } else t
    | _ ↦ t
  ]

  unfoldable pub fail_get : Threads A → Threads A
  fail_get t = elim t.getter [
    | get_testing pos ↦ if pos == t.buffer.write_pos then record t { getter = get_idle } else t
    | _ ↦ t
  ]

  unfoldable pub move : Move A → Threads A → Threads A
  move (call_put e) t = begin_put e t
  move call_get t = begin_get t
  move putter_step t = step_put t
  move getter_step t = step_get t
  move putter_fails t = fail_put t
  move getter_fails t = fail_get t

  unfoldable pub run : List (Move A) → Threads A → Threads A
  run [] t = t
  run (m ∷ moves) t = run moves (move m t)
