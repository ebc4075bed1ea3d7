-- ===== src/Memory.antt =====
-- store_memory.go: the in-process store. Its engine, github.com/patrickmn/go-cache, is a parameter.
pub mod Backend
pub mod Refines
pub mod Timed
pub mod Framed
pub mod Counting
use cache.Prelude.{
  ℕ, ◌+◌, ◌/◌, ◌<◌, Bool, true, false, not, ◌||◌, Option, none, some, List, [], ◌∷◌, Bytes, codes,
  contains, equal, length, ltb, ℤ, pos, negsuc, pos_part, is_positive, wrap64, add64, neg64, two63,
  if◌then◌else◌,
}
use cache.Decimal.{parse_int, format_int}
use cache.Store.{
  Error, Result, ok, err, not_numeric, overflows_int64, message, Driver, memory, Act, pure, fail,
  lift, continue, ◌>>=◌, ◌>>◌, Store, LockStore, Inspector, all_capabilities, ListPageOptions,
  CacheEntry, ListPageResult, ttl_or,
}
use cache.Inspect.{filter_and_sort_entries, list_filter_term, decode_offset_cursor, slice_entries}
use Backend.{Engine, Object, bytes, string, signed, uint, uint64, small_unsigned, opaque}

-- 5 and 10 minutes, in nanoseconds.
abbrev pub default_cache_ttl : ℤ
default_cache_ttl = pos 300000000000

abbrev pub default_memory_cleanup_interval : ℤ
default_memory_cleanup_interval = pos 600000000000

-- The engine's state and the clock, in nanoseconds.
pub record World (engine : Engine) : Type 0 where
  pub state : engine.State
  pub now : ℕ

module _ (engine : Engine) where
  abbrev change : (ℕ → engine.State → engine.State) → Act (World engine) (Unit {0})
  change f w = (ok tt, record w { state = f w.now w.state })

  -- readInt64, where the key is present.
  unfoldable pub object_int64 : Bytes → Object → Result ℤ
  object_int64 key (bytes s) = elim (parse_int s) [ none ↦ err (not_numeric key) | some n ↦ ok n ]
  object_int64 key (string s) = elim (parse_int s) [ none ↦ err (not_numeric key) | some n ↦ ok n ]
  object_int64 key (signed n) = ok n
  object_int64 key (uint n) = ok (wrap64 (pos n))
  object_int64 key (uint64 n) = if ltb n two63 then ok (pos n) else err (overflows_int64 key)
  object_int64 key (small_unsigned n) = ok (pos n)
  object_int64 key (opaque n) = err (not_numeric key)

  unfoldable pub read_int64 : Bytes → World engine → Result ℤ
  unfolding object_int64
  read_int64 key w = elim (engine.get key w.now w.state) [
    | none ↦ ok (pos 0)
    | some item ↦ object_int64 key item
  ]

  abbrev pub as_bytes : Option Object → Option Bytes
  as_bytes (some (bytes s)) = some s
  as_bytes _ = none

  unfoldable pub get : Bytes → Act (World engine) (Option Bytes)
  get key w = (ok (as_bytes (engine.get key w.now w.state)), w)

  unfoldable pub set : ℤ → Bytes → Bytes → ℤ → Act (World engine) (Unit {0})
  set default_ttl key value ttl = change (engine.set key (bytes value) (ttl_or ttl default_ttl))

  abbrev added : Option Bytes → Act (World engine) Bool
  added none = pure true
  added (some e) = if contains e (codes "already exists") then pure false else fail (message e)

  unfoldable pub add : ℤ → Bytes → Bytes → ℤ → Act (World engine) Bool
  add default_ttl key value ttl w =
      let (e, state) = engine.add key (bytes value) (ttl_or ttl default_ttl) w.now w.state in
      added e (record w { state = state })

  abbrev release_owned : Bytes → Bytes → Option Bytes → Act (World engine) Bool
  release_owned key owner none = pure false
  release_owned key owner (some value) =
      if equal value owner then (do change (λ now. engine.delete key); pure true) else pure false

  unfoldable pub lock_release : Bytes → Bytes → Act (World engine) Bool
  lock_release key owner w = release_owned key owner (as_bytes (engine.get key w.now w.state)) w

  unfoldable pub increment : ℤ → Bytes → ℤ → ℤ → Act (World engine) ℤ
  unfolding read_int64
  increment default_ttl key delta ttl w =
      (do
        current ← lift (read_int64 key w)
        change (engine.set key (bytes (format_int (add64 current delta))) (ttl_or ttl default_ttl))
        pure (add64 current delta))
        w

  unfoldable pub delete : Bytes → Act (World engine) (Unit {0})
  delete key = change (λ now. engine.delete key)

  abbrev pub delete_each : List Bytes → engine.State → engine.State
  delete_each [] state = state
  delete_each (key ∷ keys) state = delete_each keys (engine.delete key state)

  unfoldable pub delete_many : List Bytes → Act (World engine) (Unit {0})
  delete_many keys = change (λ now. delete_each keys)

  unfoldable pub flush : Act (World engine) (Unit {0})
  flush = change (λ now. engine.flush)

  abbrev object_size : Object → ℕ
  object_size (bytes s) = length s
  object_size (string s) = length s
  object_size _ = 0

  -- An expiration in nanoseconds, as UnixMilli gives it.
  abbrev entries_of : List (Bytes × Object × ℤ) → List CacheEntry
  entries_of [] = []
  entries_of ((key, item, expiration) ∷ items) =
      record {
        key = key;
        size_bytes = object_size item;
        expires_at =
            if is_positive expiration then some (pos (pos_part expiration / 1000000)) else none;
      }
      ∷ entries_of items

  unfoldable pub list_page : ListPageOptions → Act (World engine) ListPageResult
  list_page opts w =
      (do
        offset ← lift (decode_offset_cursor opts.cursor)
        pure (
            slice_entries
              (filter_and_sort_entries (entries_of (engine.items w.now w.state))
                (list_filter_term opts))
              (pos offset) opts.limit))
        w

  unfoldable pub memory_store : ℤ → Store (World engine)
  unfolding get set add lock_release increment delete delete_many flush list_page
  memory_store default_ttl = record {
    driver = memory;
    ready = pure tt;
    get = get;
    set = set default_ttl;
    add = add default_ttl;
    increment = increment default_ttl;
    decrement = λ key delta ttl. increment default_ttl key (neg64 delta) ttl;
    delete = delete;
    delete_many = delete_many;
    flush = flush;
    lock_store = some (record { lock_acquire = add default_ttl; lock_release = lock_release });
    inspector = some (record { capabilities = λ w. all_capabilities; list_page = list_page });
  }

  -- The store, and the state of its new engine.
  unfoldable pub new_memory_store : ℤ → ℤ → Store (World engine) × engine.State
  unfolding memory_store
  new_memory_store default_ttl cleanup_interval =
      let ttl = ttl_or default_ttl default_cache_ttl in
      (memory_store ttl, engine.new ttl (ttl_or cleanup_interval default_memory_cleanup_interval))
