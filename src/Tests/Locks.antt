-- ===== src/Tests/Locks.antt =====
-- The locks of cache.go and lock_handle.go over the in-process store, at concrete inputs.
use cache.Prelude.{
  ℕ, ◌≡◌, refl, true, false, Option, none, some, [], ◌∷◌, arith, Bytes, codes, pos, equal, lookup,
  put,
}
use cache.Store.{ok, err, text, Act}
use cache.Memory.{World, memory_store}
use cache.Memory.Backend.{Object, bytes}
use cache.Memory.Framed.{memory_store-IsLocking}
use cache.Facade.{Session, acquiring}
use cache.Facade.Locks.{begin_acquire, try_lock_owned, unlock_owned}
use cache.Facade.Locks.Exclusion.{Locks, idle, busy, move, Reach, here, next, take, Reach-alone}
use cache.Facade.Locks.Ownership.{
  lock_entry, owner_excludes_others, release_keeps_successor, get_under_lock,
}
use cache.Facade.Locks.Handle
use cache.Facade.Locks.Handle.{LockHandle, HandleState}
use cache.Tests.Fixtures.{engine, engine_laws, start}
use cache.Facade.Locks.{try_lock, unlock, uses_direct_lock_lifecycle}
use cache.Facade.Locks.Lifecycle.{try_lock_cycle}
use cache.Tests.Facade.{app, session}

abbrev caller : ℕ
caller = 1

abbrev quiet : Locks
quiet = record { statuses = []; phases = λ t. idle }

abbrev taking : Locks
taking = record {
  statuses = (codes "l", acquiring) ∷ [];
  phases = move caller (busy (codes "l") acquiring) quiet.phases;
}

one_takes : Reach quiet taking
unfolding begin_acquire lookup put
one_takes = next here (take quiet caller (codes "l") refl refl)

Reach-alone_example : caller ≡ caller
unfolding move
Reach-alone_example =
    Reach-alone {s = quiet} {u = taking} caller caller (codes "l") acquiring acquiring (λ t. refl)
      one_takes refl refl

abbrev object_at : World engine → Bytes → Option Object
object_at w k = engine.get k w.now w.state

abbrev lock_at : Session (World engine) → Option Object
lock_at s = lock_entry object_at bytes (codes "l") s

abbrev taken : Session (World engine)
taken = (try_lock_owned app (codes "l") (codes "me") (pos 5) session).1

abbrev refused : Session (World engine)
refused = (try_lock_owned app (codes "l") (codes "you") (pos 9) taken).1

abbrev kept : Session (World engine)
kept = (unlock_owned app (codes "l") (codes "you") refused).1

owner_excludes_others_example :
    ((try_lock_owned app (codes "l") (codes "me") (pos 5) session).0 ≡ ok true)
    × ((try_lock_owned app (codes "l") (codes "you") (pos 9) taken).0 ≡ ok false)
    × ((unlock_owned app (codes "l") (codes "you") refused).0 ≡ ok tt)
    × (lock_at kept ≡ some (bytes (codes "me")))
    × (lock_at (unlock_owned app (codes "l") (codes "me") kept).1 ≡ none)
unfolding lookup
owner_excludes_others_example =
    owner_excludes_others object_at bytes app
      (memory_store-IsLocking engine engine_laws (pos 60) refl) (codes "l") (codes "me")
      (codes "you") (pos 5) (pos 9) session refl refl (λ e. ground (arith, e)) refl

abbrev handle : LockHandle (World engine)
handle = record { cache_of = app; key = codes "l"; ttl = pos 5; owner = ok (codes "me") }

abbrev unheld : HandleState (World engine)
unheld = record { session = session; held = false }

-- The lock of the handle has expired and another owner took it.
abbrev expired : HandleState (World engine)
expired = record {
  session = record session {
    inner = record start { state = (codes "__lock:l", (bytes (codes "you"), 5000)) ∷ [] };
  };
  held = true;
}

release_keeps_successor_example :
    ((Handle.release handle expired).0 ≡ ok tt)
    × (lock_at (Handle.release handle expired).1.session ≡ some (bytes (codes "you")))
    × ((Handle.release handle expired).1.held ≡ false)
unfolding lookup equal
release_keeps_successor_example =
    release_keeps_successor object_at bytes handle
      (memory_store-IsLocking engine engine_laws (pos 60) refl) (codes "me") refl expired refl
      (λ e. ground (arith, e))

abbrev failing_call : Act (Session (World engine)) (Unit {0})
failing_call s = (err (text "down"), s)

get_under_lock_example :
    ((Handle.get handle (some failing_call) unheld).0 ≡ (true, some (text "down")))
    × (lock_at (Handle.get handle (some failing_call) unheld).1.session ≡ none)
    × ((Handle.get handle (some failing_call) unheld).1.held ≡ false)
unfolding lookup
get_under_lock_example =
    get_under_lock object_at bytes handle (memory_store-IsLocking engine engine_laws (pos 60) refl)
      (codes "me") refl failing_call unheld refl refl refl (λ u. refl)

-- The token of the Cache is made.
abbrev ready : Session (World engine)
ready = record session { owner = some (ok (codes "me")) }

abbrev locked : Session (World engine)
locked = (try_lock app (codes "l") (pos 5) ready).1

abbrev again : Session (World engine)
again = (try_lock app (codes "l") (pos 9) locked).1

try_lock_cycle_example :
    ((try_lock app (codes "l") (pos 5) ready).0 ≡ ok true)
    × (lock_at locked ≡ some (bytes (codes "me")))
    × ((try_lock app (codes "l") (pos 9) locked).0 ≡ ok false)
    × (again.inner ≡ locked.inner)
    × ((unlock app (codes "l") again).0 ≡ ok tt)
    × (lookup (codes "l") (unlock app (codes "l") again).1.direct_locks ≡ none)
    × (lock_at (unlock app (codes "l") again).1 ≡ none)
unfolding lookup uses_direct_lock_lifecycle memory_store
try_lock_cycle_example =
    try_lock_cycle object_at bytes app (memory_store-IsLocking engine engine_laws (pos 60) refl)
      refl (codes "l") (codes "me") (pos 5) (pos 9) ready refl refl refl refl

-- Another process has the lock.
