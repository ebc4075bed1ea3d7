-- ===== src/Tests/Fake.antt =====
-- cachefake/fake.go at a concrete input, with the process store under it.
use cache.Prelude.{lookup, ◌+◌, ◌≡◌, List, [], ◌∷◌, Bytes, codes, pos}
use cache.Store.Contract.{Command, get, set, delete_many, lock_acquire, lock_release, run}
use cache.Memory.{World}
use cache.Fake.{Op, Fake, count, total, counting_store}
use cache.Fake.Counts.{IsCounted, plain, occurrences, occurrences_of, all_calls}
use cache.Fake.Runs.{run-counting_store}
use cache.Tests.Fixtures.{engine, start, base}

abbrev fresh : Fake (World engine)
fresh = record { inner = start; counts = [] }

fresh-IsCounted : IsCounted fresh
unfolding lookup
fresh-IsCounted = record { unique = λ op. tt }

abbrev script : List Command
script =
    set (codes "a") (codes "1") (pos 5)
    ∷ get (codes "a")
    ∷ lock_acquire (codes "l") (codes "me") (pos 5)
    ∷ lock_release (codes "l") (codes "you")
    ∷ delete_many (codes "a" ∷ codes "l" ∷ [])
    ∷ []

run-counting_store_example :
    ((run (counting_store base) script fresh).0 ≡ (run (plain base) script start).0)
    × ((run (counting_store base) script fresh).1.inner ≡ (run (plain base) script start).1)
    × ((op : Op) (key : Bytes)
        → count op key (run (counting_store base) script fresh).1
          ≡ occurrences op key (all_calls script) + count op key fresh)
    × ((op : Op)
        → total op (run (counting_store base) script fresh).1
          ≡ occurrences_of op (all_calls script) + total op fresh)
    × IsCounted (run (counting_store base) script fresh).1
run-counting_store_example = run-counting_store base script fresh fresh-IsCounted
