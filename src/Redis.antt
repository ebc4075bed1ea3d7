-- ===== src/Redis.antt =====
-- driver/rediscache/store.go: the store on a Redis server. github.com/redis/go-redis/v9 is a
-- parameter (Redis/Server).
pub mod Server
pub mod Table
mod Promises
mod Counters
pub mod Flushes
pub mod Refines
use cache.Prelude.{
  ℕ, zero, suc, Bool, true, false, not, ◌||◌, Option, none, some, List, [], ◌∷◌, ◌++◌, Bytes, codes,
  has_prefix, length, take, drop, ◌==◌, ℤ, pos, negsuc, is_positive, neg64, if◌then◌else◌,
}
use cache.Store.{
  Error, Result, ok, err, text, join, Driver, redis, Act, pure, fail, lift, continue, attempt,
  ◌>>=◌, ◌>>◌, Store, LockStore, Inspector, InspectorCapabilities, CacheEntry, ListPageOptions,
  ListPageResult, BaseConfig, ttl_or,
}
use cache.Inspect.{filter_and_sort_entries, list_filter_term, decode_offset_cursor, slice_entries}
use cache.Shaping.Value.{Gzip}
use cache.Shaping.Envelope.{Crypto}
use cache.Shaping.Wrap.{wrap_store}
use Server.{Client}

abbrev pub default_ttl : ℤ
default_ttl = pos 300000000000

abbrev pub default_prefix : Bytes
default_prefix = codes "app"

abbrev pub release_lock_script : Bytes
release_lock_script =
    codes
      "\nif redis.call(\"get\", KEYS[1]) == ARGV[1] then\n  return redis.call(\"del\", KEYS[1])\n"
    ++ codes "end\nreturn 0\n"

abbrev pub lock_scripts_required : Error
lock_scripts_required = text "redis cache locking requires a client with Eval support"

-- `connected` tells that the client is not nil, and `turns` bounds the turns of the loops over Scan.
pub record RedisStore : Type 0 where
  pub connected : Bool
  pub ttl : ℤ
  pub prefix : Bytes
  pub turns : ℕ

module _ (client : Client) (s : RedisStore) where
  abbrev W : Type 0
  W = client.State

  -- `if s.client == nil`
  abbrev connected : {A : Type 0} → Act W A → Act W A
  connected act w = if s.connected then act w else (err (text "redis cache client unavailable"), w)

  unfoldable pub cache_key : Bytes → Bytes
  cache_key key = s.prefix ++ (codes ":" ++ key)

  unfoldable pub ready : Act W (Unit {0})
  ready = connected client.ping

  unfoldable pub get : Bytes → Act W (Option Bytes)
  unfolding cache_key
  get key = connected (client.get (cache_key key))

  unfoldable pub set : Bytes → Bytes → ℤ → Act W (Unit {0})
  unfolding cache_key
  set key value ttl = connected (client.set (cache_key key) value (ttl_or ttl s.ttl))

  unfoldable pub add : Bytes → Bytes → ℤ → Act W Bool
  unfolding cache_key
  add key value ttl = connected (client.set_nx (cache_key key) value (ttl_or ttl s.ttl))

  unfoldable pub lock_acquire : Bytes → Bytes → ℤ → Act W Bool
  unfolding add
  lock_acquire key owner ttl =
      connected
        (elim client.eval [ none ↦ fail lock_scripts_required | some eval ↦ add key owner ttl ])

  abbrev is_one : ℤ → Bool
  is_one (pos n) = n == 1
  is_one (negsuc n) = false

  unfoldable pub lock_release : Bytes → Bytes → Act W Bool
  unfolding cache_key
  lock_release key owner = connected (elim client.eval [
    | none ↦ fail lock_scripts_required
    | some eval ↦ do
      released ← eval release_lock_script (cache_key key ∷ []) (owner ∷ [])
      pure (is_one released)
  ])

  -- The end of Increment; the error of Expire is wrapped in a text.
  abbrev expired : ℤ → Result Bool → Act W ℤ
  expired value (ok set) = pure value
  expired value (err e) = fail (join (text "expire cache key") e)

  unfoldable pub increment : Bytes → ℤ → ℤ → Act W ℤ
  unfolding cache_key
  increment key delta ttl = connected (do
    value ← client.incr_by (cache_key key) delta
    (if is_positive (ttl_or ttl s.ttl)
        then attempt (client.expire (cache_key key) (ttl_or ttl s.ttl)) (expired value)
        else pure value))

  unfoldable pub decrement : Bytes → ℤ → ℤ → Act W ℤ
  unfolding increment
  decrement key delta ttl = increment key (neg64 delta) ttl

  unfoldable pub delete : Bytes → Act W (Unit {0})
  unfolding cache_key
  delete key = connected (do client.del (cache_key key ∷ []); pure tt)

  abbrev pub cache_keys : List Bytes → List Bytes
  cache_keys [] = []
  cache_keys (key ∷ keys) = cache_key key ∷ cache_keys keys

  abbrev pub delete_all : List Bytes → Act W (Unit {0})
  delete_all [] = pure tt
  delete_all (key ∷ keys) = do client.del (key ∷ keys); pure tt

  unfoldable pub delete_many : List Bytes → Act W (Unit {0})
  unfolding cache_key
  delete_many keys = connected (delete_all (cache_keys keys))

  abbrev endless : {A : Type 0} → Act W A
  endless = fail (text "no turn is left")

  -- The loop of Flush.
  unfoldable pub flush_from : ℕ → ℕ → Act W (Unit {0})
  unfolding cache_key
  flush_from zero cursor = endless
  flush_from (suc turns) cursor = do
    page ← client.scan cursor (cache_key (codes "*")) 200
    delete_all page.0
    (let rest = flush_from turns page.1 in if page.1 == 0 then pure tt else rest)

  unfoldable pub flush : Act W (Unit {0})
  unfolding flush_from
  flush = connected (flush_from s.turns 0)

  unfoldable pub capabilities : InspectorCapabilities
  capabilities = record { can_list = true; can_read = true; can_delete = true; can_ttl = false }

  -- The loop of ListPage over the keys.
  unfoldable pub scan_from : ℕ → ℕ → Act W (List Bytes)
  unfolding cache_key
  scan_from zero cursor = endless
  scan_from (suc turns) cursor = do
    page ← client.scan cursor (cache_key (codes "*")) 200
    more ← (let rest = scan_from turns page.1 in if page.1 == 0 then pure [] else rest)
    pure (page.0 ++ more)

  -- strings.TrimPrefix
  abbrev trim_prefix : Bytes → Bytes → Bytes
  trim_prefix key prefix = if has_prefix key prefix then drop (length prefix) key else key

  abbrev with_entry : Bytes → Result (Option Bytes) → List CacheEntry → List CacheEntry
  with_entry key (err e) entries = entries
  with_entry key (ok none) entries = entries
  with_entry key (ok (some body)) entries =
      record { key = key; size_bytes = length body; expires_at = none } ∷ entries

  unfoldable pub list_entries : List Bytes → Act W (List CacheEntry)
  unfolding get
  list_entries [] = pure []
  list_entries (full_key ∷ keys) =
      let key = trim_prefix full_key (s.prefix ++ codes ":") in
      attempt (get key) λ r. do entries ← list_entries keys; pure (with_entry key r entries)

  unfoldable pub list_page : ListPageOptions → Act W ListPageResult
  unfolding scan_from list_entries
  list_page opts = connected (do
    keys ← scan_from s.turns 0
    entries ← list_entries keys
    offset ← lift (decode_offset_cursor opts.cursor)
    pure (
        slice_entries (filter_and_sort_entries entries (list_filter_term opts)) (pos offset)
          opts.limit))

  unfoldable pub redis_store : Store W
  unfolding ready get set add increment decrement lock_acquire lock_release delete delete_many flush
      list_page capabilities
  redis_store = record {
    driver = redis;
    ready = ready;
    get = get;
    set = set;
    add = add;
    increment = increment;
    decrement = decrement;
    delete = delete;
    delete_many = delete_many;
    flush = flush;
    lock_store = some (record { lock_acquire = lock_acquire; lock_release = lock_release });
    inspector = some (record { capabilities = λ w. capabilities; list_page = list_page });
  }

abbrev or_default : Bytes → Bytes
or_default [] = default_prefix
or_default (c ∷ prefix) = c ∷ prefix

-- New, where `has_client` tells that the configuration has a client or an address to make one for.
unfoldable pub new_redis_store :
    (client : Client)
    → (ℕ → Act client.State Bytes)
    → Gzip
    → Crypto
    → BaseConfig
    → Bool
    → ℕ
    → Store client.State
unfolding redis_store wrap_store
new_redis_store client read_random gzip crypto cfg has_client turns =
    (wrap_store read_random gzip crypto
      (redis_store client (record {
        connected = has_client;
        ttl = ttl_or cfg.default_ttl default_ttl;
        prefix = or_default cfg.prefix;
        turns = turns;
      }))
      cfg).0
