-- ===== src/CowVector/Tests.antt =====
-- Runs of the model of include/jau/cow_vector.hpp, and its theorems at concrete containers.
use jaulib.Prelude.{
  ℕ, ◌+◌, ◌^◌, ◌≡◌, refl, true, false, List, [], ◌∷◌, ltb, ◌==◌, Bool, some, take, drop, arith,
}
use jaulib.Darray.{ok}
use jaulib.CowVector.{Vector, VectorConfig, CowVector, vector, load, erase_loop}
use jaulib.CowVector.Isolation.{Agrees}
use jaulib.CowVector.Erasing.{swept, erase_loop-swept}
use jaulib.CowVector.Run.{
  Call, call_push_back, call_push_back_unique, call_reserve, call_pop_back, call_erase_matching,
  run, run_promise, run_keeps_stores,
}

abbrev plenty : VectorConfig
plenty = record { alloc = λ n. true; max_size = 2 ^ 32; grown = λ n. n + n }

-- Memory for at most three elements, of vectors of at most five.
abbrev little : VectorConfig
little = record { alloc = λ n. ltb n 4; max_size = 5; grown = λ n. n + n }

abbrev same : ℕ → ℕ → Bool
same a b = a == b

abbrev three : Vector ℕ
three = vector (7 ∷ 8 ∷ 7 ∷ []) 3

abbrev holder : CowVector ℕ
holder = record { stores = three ∷ []; store_ref = some 0 }

-- There is no memory for a fourth element, and six are too many for a vector.
abbrev calls : List (Call ℕ)
calls =
    call_push_back 9
    ∷ call_push_back_unique 8
    ∷ call_reserve 6
    ∷ call_erase_matching 7 false
    ∷ call_pop_back
    ∷ call_push_back 5
    ∷ []

promise_runs : run_promise little same calls three ≡ ok (vector (8 ∷ 5 ∷ []) 2)
unfolding run_promise jaulib.Darray.Run.resume jaulib.CowVector.Run.promised
    jaulib.CowVector.Run.pushed jaulib.CowVector.Isolation.obtained jaulib.CowVector.included
    jaulib.CowVector.Erasing.gone jaulib.CowVector.Erasing.removed jaulib.CowDarray.no_throw
promise_runs = refl

run_keeps_stores_example :
    Agrees holder (run little same calls holder) (run_promise little same calls three)
unfolding load
run_keeps_stores_example = run_keeps_stores little same calls holder three refl

erase_loop-swept_example :
    erase_loop plenty same 7 true 4 0 0 three
    ≡ swept plenty same 7 true 0 (take 0 three.items) (drop 0 three.items) 3
erase_loop-swept_example =
    erase_loop-swept plenty same 7 true 4 0 0 three (omega arith) (omega arith) (omega arith)
