-- ===== src/Factory.antt =====
-- factory.go and config.go: the stores that the library opens by itself, with their defaults.
pub mod Opens
use cache.Prelude.{
  ℕ, Bool, Option, none, some, List, [], ◌∷◌, Bytes, codes, Map, ℤ, is_positive, if◌then◌else◌,
}
use cache.Store.{
  Error, text, Result, Act, Driver, null, file, memory, memcached, dynamo, sql, redis, nats, other,
  CompressionCodec, unset, compression_none, BaseConfig, Store, ttl_or,
}
use cache.Null.{null_store, error_store}
use cache.Memory.{World, new_memory_store, default_cache_ttl, default_memory_cleanup_interval}
use cache.Memory.Backend.{Engine}
use cache.File.Calls.{Disk}
use cache.File.Directory.{new_file_store}
use cache.Shaping.Value.{Gzip}
use cache.Shaping.Envelope.{Crypto}
use cache.Shaping.Wrap.{wrap_store}

abbrev pub default_cache_prefix : Bytes
default_cache_prefix = codes "app"

pub record StoreConfig : Type 0 where
  pub base : BaseConfig
  pub memory_cleanup_interval : ℤ
  pub file_dir : Bytes

-- A store with the kind of its state and the state that it starts in.
pub record Opened : Type 1 where
  pub State : Type 0
  pub store : Store State
  pub start : State

-- What the stores stand on: the libraries, the operating system, and the time.
pub record Platform : Type 1 where
  pub engine : Engine
  pub gzip : Gzip
  pub crypto : Crypto
  pub read_random : {W : Type 0} → ℕ → Act W Bytes
  pub sha256 : Bytes → Bytes
  pub unmarshal : Bytes → Result (Bytes × ℤ × Bytes)
  pub temp_name : Map Bytes → Bytes
  pub default_file_dir : Bytes
  pub directory : Bytes → Disk
  pub now : ℕ

abbrev or_text : Bytes → Bytes → Bytes
or_text [] d = d
or_text (c ∷ s) d = c ∷ s

abbrev or_none : CompressionCodec → CompressionCodec
or_none unset = compression_none
or_none c = c

module _ (p : Platform) where
  unfoldable pub with_defaults : StoreConfig → StoreConfig
  with_defaults cfg = record {
    base = record cfg.base {
      default_ttl = ttl_or cfg.base.default_ttl default_cache_ttl;
      prefix = or_text cfg.base.prefix default_cache_prefix;
      compression = or_none cfg.base.compression;
    };
    memory_cleanup_interval = ttl_or cfg.memory_cleanup_interval default_memory_cleanup_interval;
    file_dir = or_text cfg.file_dir p.default_file_dir;
  }

  -- The end of newStoreForDriver: the wrappers, or a store of their error.
  abbrev wrapped_or_error : {W : Type 0} → Driver → Store W × Option Error → Store W
  wrapped_or_error driver (store, none) = store
  wrapped_or_error driver (store, some e) = error_store driver e

  unfoldable pub finish : {W : Type 0} → Driver → Store W → BaseConfig → Store W
  unfolding error_store
  finish driver store cfg =
      wrapped_or_error driver (wrap_store p.read_random p.gzip p.crypto store cfg)

  -- A driver that this library does not have.
  unfoldable pub removed : Driver → Error → Opened
  unfolding error_store
  removed driver e = record { State = Unit {0}; store = error_store driver e; start = tt }

  unfoldable pub open_memory : StoreConfig → Opened
  unfolding finish new_memory_store
  open_memory cfg =
      let (store, state) =
        new_memory_store p.engine cfg.base.default_ttl cfg.memory_cleanup_interval in
      record {
        State = World p.engine;
        store = finish memory store cfg.base;
        start = record { state = state; now = p.now };
      }

  unfoldable pub new_store_for_driver : Driver → StoreConfig → Opened
  unfolding with_defaults finish removed open_memory new_file_store
  new_store_for_driver null cfg = record {
    State = Unit {0};
    store = finish null null_store (with_defaults cfg).base;
    start = tt;
  }
  new_store_for_driver file cfg = record {
    State = Disk;
    store =
        finish file
          (new_file_store p.sha256 p.unmarshal p.temp_name (with_defaults cfg).base.default_ttl)
          (with_defaults cfg).base;
    start = p.directory (with_defaults cfg).file_dir;
  }
  new_store_for_driver memory cfg = open_memory (with_defaults cfg)
  new_store_for_driver memcached cfg =
      removed memcached
        (text "root memcached driver removed; use github.com/goforj/cache/driver/memcachedcache")
  new_store_for_driver dynamo cfg =
      removed dynamo
        (text "root dynamo driver removed; use github.com/goforj/cache/driver/dynamocache")
  new_store_for_driver sql cfg = removed sql (
      text
        "root sql driver removed; use github.com/goforj/cache/driver/sqlitecache, /driver/postgrescache, or /driver/mysqlcache")
  new_store_for_driver redis cfg =
      removed redis
        (text "root redis driver removed; use github.com/goforj/cache/driver/rediscache")
  new_store_for_driver nats cfg =
      removed nats (text "root nats driver removed; use github.com/goforj/cache/driver/natscache")
  new_store_for_driver (other name) cfg =
      removed (other name) (text "unknown driver; use explicit root constructor or driver module")
