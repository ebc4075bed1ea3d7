-- ===== src/Tests/Refresh.antt =====
-- refreshAheadBytes of cache.go over the in-process store, at concrete inputs.
use cache.Prelude.{
  ◌≡◌, refl, true, none, some, [], ◌∷◌, arith, codes, pos, lookup, put, equal, ◌+ℤ◌, wrap64,
  without,
}
use cache.Decimal.{format_int}
use cache.Store.{ok}
use cache.Memory.{World, memory_store}
use cache.Memory.Framed.{memory_store-IsFramed, memory_store-Recalls}
use cache.Facade.{Session, get_bytes, set_bytes, resolve_ttl, observe, held}
use cache.Facade.Locks.{uses_direct_lock_lifecycle}
use cache.Facade.Refresh.{refresh_ahead_bytes, refresh_in_background, set_refresh_ahead_value}
use cache.Facade.Refresh.Ahead.{refresh_ahead_cycle, refresh_in_background_once}
use cache.Tests.Facade.{app, session, entry, compute}
use cache.Tests.Fixtures.{engine, engine_laws}

abbrev cached : Session (World engine)
cached = (refresh_ahead_bytes app (codes "k") (pos 50) (pos 10) (some compute) session).1

-- 41 nanoseconds later, 9 before the end.
abbrev near : Session (World engine)
near = record cached { inner = record cached.inner { now = 1041 } }

refresh_ahead_cycle_example :
    ((refresh_ahead_bytes app (codes "k") (pos 50) (pos 10) none near).0 ≡ ok (codes "v", true))
    × ((refresh_ahead_bytes app (codes "k") (pos 50) (pos 10) none near).1.inner ≡ near.inner)
unfolding refresh_ahead_bytes set_refresh_ahead_value get_bytes set_bytes resolve_ttl observe
    memory_store lookup put equal without format_int wrap64 ◌+ℤ◌
refresh_ahead_cycle_example =
    refresh_ahead_cycle app entry (memory_store-IsFramed engine engine_laws (pos 60) refl)
      (memory_store-Recalls engine engine_laws (pos 60) refl) (codes "k") (codes "v") 50 10 50 10
      compute none session near refl refl (omega arith) (omega arith) (omega arith) (omega arith)
      refl refl

abbrev refreshing : Session (World engine)
refreshing = record session {
  owner = some (ok (codes "me"));
  direct_locks = (codes "__refresh_lock:k", held) ∷ [];
}

refresh_in_background_once_example :
    ((refresh_in_background app (codes "k") (pos 50) (pos 10) (some compute) refreshing).1.inner
      ≡ refreshing.inner)
    × ((refresh_in_background app
          (codes "k")
          (pos 50)
          (pos 10)
          (some compute)
          refreshing).1.direct_locks
        ≡ refreshing.direct_locks)
unfolding uses_direct_lock_lifecycle memory_store lookup equal
refresh_in_background_once_example =
    refresh_in_background_once app (codes "k") (codes "me") held (pos 50) (pos 10) (some compute)
      refreshing refl refl refl
