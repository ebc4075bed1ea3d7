-- ===== src/Tests/Facade.antt =====
-- cache.go and lock_handle.go over the in-process store, at concrete inputs.
use cache.Prelude.{
  ◌≡◌, refl, true, false, Option, none, some, [], ◌∷◌, Bytes, codes, pos, equal, lookup, put,
}
use cache.Store.{ok, err, text, Act}
use cache.Memory.{World, memory_store}
use cache.Memory.Backend.{bytes}
use cache.Memory.Framed.{view, memory_store-IsFramed, memory_store-Recalls}
use cache.Facade.{Cache, Session, get_bytes, set_bytes, observe, resolve_ttl}
use cache.Facade.Remember.{remember_bytes, remember_stale_bytes}
use cache.Facade.Remember.Reads.{remember_once, remember_stale-fallback, remember_stale-keeps_copy}
use cache.Tests.Fixtures.{engine, engine_laws, read_zeros, start, base}

abbrev pub app : Cache (World engine)
app = record {
  store = base;
  default_ttl = pos 60;
  observed = true;
  read_random = read_zeros;
  clock = λ w. w.now;
}

abbrev pub session : Session (World engine)
session = record { inner = start; events = []; owner = none; direct_locks = [] }

abbrev pub entry : World engine → Bytes → Option Bytes
entry = view engine engine_laws (pos 60) refl

abbrev pub compute : Act (Session (World engine)) Bytes
compute s = (ok (codes "v"), s)

abbrev remembered : Session (World engine)
remembered = (remember_bytes app (codes "k") (pos 5) (some compute) session).1

remember_once_example :
    ((remember_bytes app (codes "k") (pos 5) none remembered).0 ≡ ok (codes "v"))
    × ((remember_bytes app (codes "k") (pos 5) none remembered).1.inner ≡ remembered.inner)
unfolding remember_bytes get_bytes set_bytes resolve_ttl observe memory_store lookup put
remember_once_example =
    remember_once app entry (memory_store-IsFramed engine engine_laws (pos 60) refl).reads
      (memory_store-Recalls engine engine_laws (pos 60) refl) (codes "k") (codes "v") (pos 5)
      (pos 5) (some compute) none session refl

-- Only a stale copy is left.
abbrev stale : Session (World engine)
stale = record session {
  inner = record start { state = (codes "k:__stale", (bytes (codes "old"), 5000)) ∷ [] };
}

abbrev fail_to_compute : Act (Session (World engine)) Bytes
fail_to_compute s = (err (text "down"), s)

remember_stale-fallback_example :
    ((remember_stale_bytes app (codes "k") (pos 5) (pos 90) (some fail_to_compute) stale).0
      ≡ ok (codes "old", true))
    × ((remember_stale_bytes app (codes "k") (pos 5) (pos 90) (some fail_to_compute) stale).1.inner
        ≡ stale.inner)
unfolding get_bytes observe memory_store lookup equal
remember_stale-fallback_example =
    remember_stale-fallback app entry (memory_store-IsFramed engine engine_laws (pos 60) refl).reads
      (memory_store-Recalls engine engine_laws (pos 60) refl) (codes "k") (pos 5) (pos 90)
      fail_to_compute stale (text "down") refl refl

remember_stale-keeps_copy_example :
    ((remember_stale_bytes app (codes "k") (pos 5) (pos 90) (some compute) session).0
      ≡ ok (codes "v", false))
    × (entry
          (remember_stale_bytes app (codes "k") (pos 5) (pos 90) (some compute) session).1.inner
          (codes "k:__stale")
        ≡ some (codes "v"))
unfolding get_bytes set_bytes resolve_ttl observe memory_store lookup put
remember_stale-keeps_copy_example =
    remember_stale-keeps_copy app entry
      (memory_store-IsFramed engine engine_laws (pos 60) refl).reads
      (memory_store-Recalls engine engine_laws (pos 60) refl) (codes "k") (codes "v") (pos 5)
      (pos 90) compute session refl refl refl refl refl
