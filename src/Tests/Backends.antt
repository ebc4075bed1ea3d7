-- ===== src/Tests/Backends.antt =====
-- store_memory.go at concrete inputs.
use cache.Prelude.{
  add64, ℕ, true, false, equal, ◌≡◌, refl, none, List, [], ◌∷◌, arith, codes, pos, lookup,
}
use cache.Store.{ok}
use cache.Store.Contract.{
  Command, get, increment, lock_acquire, lock_release, run, flag, number, found,
}
use cache.Store.Spec.{spec_run}
use cache.Memory.{memory_store}
use cache.Memory.Refines.{Holds, run-memory_store}
use cache.Memory.Timed.{HoldsTimed, run_timed, run_timed-memory_store}
use cache.Store.Timed.{timed_run}
use cache.Tests.Fixtures.{start, engine, engine_laws, written, engine_expires}

start-Holds : Holds engine start (λ k. none)
unfolding lookup
start-Holds = record { at_key = λ k. refl }

abbrev script : List Command
script =
    increment (codes "n") (pos 41) (pos 5)
    ∷ increment (codes "n") (pos 1) (pos 0)
    ∷ get (codes "n")
    ∷ lock_acquire (codes "l") (codes "me") (pos 5)
    ∷ lock_release (codes "l") (codes "you")
    ∷ []

run-memory_store_example :
    ((run (memory_store engine (pos 60)) script start).0 ≡ (spec_run script (λ k. none)).0)
    × Holds engine
        (run (memory_store engine (pos 60)) script start).1
        (spec_run script (λ k. none)).1
run-memory_store_example =
    run-memory_store engine engine_laws (pos 60) refl script start (λ k. none) start-Holds

-- A lock that runs out after 5 nanoseconds goes to another owner.
abbrev timed_script : List (ℕ × Command)
timed_script =
    (0, lock_acquire (codes "l") (codes "me") (pos 5))
    ∷ (5, lock_acquire (codes "l") (codes "you") (pos 5))
    ∷ (1, lock_acquire (codes "l") (codes "you") (pos 5))
    ∷ (1, lock_release (codes "l") (codes "me"))
    ∷ (0, increment (codes "n") (pos 2) (pos 0))
    ∷ (61, get (codes "n"))
    ∷ []

start-HoldsTimed : HoldsTimed engine engine_laws written engine_expires start.state (λ k. none)
unfolding lookup
start-HoldsTimed = record { at_key = λ k. refl }

run_timed-memory_store_example :
    ((run_timed (memory_store engine (pos 60)) timed_script start).0
      ≡ (timed_run (pos 60) timed_script 1000 (λ k. none)).0)
    × HoldsTimed engine engine_laws written engine_expires
        (run_timed (memory_store engine (pos 60)) timed_script start).1.state
        (timed_run (pos 60) timed_script 1000 (λ k. none)).1
run_timed-memory_store_example =
    run_timed-memory_store engine engine_laws written engine_expires (pos 60) refl timed_script
      start (λ k. none) (omega arith, (omega arith, (omega arith, (tt, (omega arith, (tt, tt))))))
      start-HoldsTimed

timed_test :
    (timed_run (pos 60) timed_script 1000 (λ k. none)).0
    ≡ ok (flag true)
      ∷ ok (flag false)
      ∷ ok (flag true)
      ∷ ok (flag false)
      ∷ ok (number (pos 2))
      ∷ ok (found none)
      ∷ []
unfolding timed_run equal add64
timed_test = refl
