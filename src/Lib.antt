-- ===== src/Lib.antt =====
-- A model of goforj/cache: a Cache with typed helpers, read-through helpers, locks and a rate
-- limit over a store, which a driver or one of the in-process stores provides and which decorators
-- wrap.
--
-- The parts and where they are modelled:
--   Prelude: lists, options, Boolean tests, integers with the wrap-around of int64 (add64, neg64,
--     wrap64), byte strings and association lists. Decimal: strconv.FormatInt and ParseInt to the
--     base 10 with the range of int64.
--   Store: the interfaces and options of cachecore (store.go, inspect.go, config.go, driver.go,
--     compression.go, and lockStore of shaping.go). An operation of a store is an action on the
--     world W of the store, W → Result A × W. Store/Contract: the commands of a client, their
--     replies, and what a client or a decorator may rely on (IsFramed, Recalls). Store/Spec: the
--     abstract table that a store stands for, at one time; Store/Timed: the table with the ends of
--     its entries and a clock.
--   Memo: store_memo.go. Memo/Transparent treats one caller at a time, and Memo/Race the critical
--     sections of any number of concurrent callers as steps (Memo/Race/Current).
--   Shaping: cachecore/shaping.go. Value is encodeValue and decodeValue, Envelope encrypt and
--     decrypt, Wrap the three wrappers and WrapStore; RoundTrip, Stores and Limits are about them.
--   Inspect: cachecore/inspect_helpers.go. Inspect/Pages follows the cursors of a listing,
--     and Inspect/Sorted is about its order.
--   Null: store_null.go and error_store.go.
--   Memory: store_memory.go over its engine (Memory/Backend). Memory/Refines relates it to
--     Store/Spec, Memory/Timed to Store/Timed, Memory/Framed to the contract of Store/Contract and of the locks, and
--     Memory/Counting to what the rate limit relies on.
--   File: store_file.go over a directory of which any call may fail (File/Calls). Record is the
--     format of its files, Directory has Flush, ListPage and the store; Atomic and Reads are about
--     them.
--   Facade: the Cache of cache.go with the events of observer.go. Values has the text and typed
--     helpers, Remember and Refresh the read-through helpers, RateLimit the rate limit, Locks the
--     locks, and Locks/Handle is lock_handle.go. Locks/Exclusion treats the critical sections of
--     concurrent callers as steps, Locks/Ownership who holds a lock, and Locks/Lifecycle the locks
--     that one Cache takes.
--   Nats: driver/natscache/store.go over a bucket (Nats/Bucket), with Locks, Counter and Listing for
--     the operations on locks and counters and for Flush, ListPage and New. Updates is about an
--     Increment among other clients (with Moves and Attempt), Records about the stored keys and
--     values, and Refines about a store that has the bucket for itself, with Shape for what an entry
--     holds, Promises for reads and writes, Owners for locks, Counts for counters and Flushes for
--     DeleteMany and Flush. Base64: base64.RawURLEncoding.
--   Sql: driver/sqlcore/store.go over a database (Sql/Server), with Inspection for DeleteMany, Flush
--     and ListPage and Opening for New and the three drivers that configure it. Dialects compares
--     the statements with those that the servers know, Refines treats runs of commands, with Table,
--     Promises and Counts, and Safety table names and rows past their end.
--   Redis: driver/rediscache/store.go over a client (Redis/Server). Refines treats runs of commands,
--     with Table, Promises and Counters, and Flushes the loop over SCAN.
--   Memcached: driver/memcachedcache/store.go, with its connections in Pools and what they carry in
--     Lines. Idle and Balance are about which connections are open, Runs about commands, and Peers
--     about the choice of a peer.
--   Fake: cachefake/fake.go. Counts is about what it counts, and Runs about commands through it.
--   Factory: factory.go and config.go.
--   Tests: concrete parameters and inputs.
--
-- How the model reads the code: a Go function that returns (value, ok, error) is a Result of an
-- Option. A method of Cache acts on a Session, which holds the world of the store and what the
-- Cache and its clones share: the events that the observer was told, the owner token, and the
-- direct locks. A nil and an empty slice are one value, and strings are their bytes. A mutex makes
-- the section under it one step. A loop that waits takes the list of what others do in each wait,
-- at whose end the context is done. Each call of a NATS bucket first takes the next of a list of
-- interludes, in which time passes and other clients act. The goroutine of a background refresh is
-- an action that runs at some later moment. The loops over SCAN of the Redis driver take a bound
-- on their turns, for which more than an iteration of SCAN takes is enough, and incr of the Memcached driver, which
-- calls itself when the key is absent, one on its calls. all_pages takes a
-- bound on its pages, for which one more than the number of entries is enough.
--
-- Parameters, with what their documentation promises as laws: github.com/patrickmn/go-cache
-- (Engine, with whole-number times in nanoseconds), compress/gzip (Gzip), crypto/aes and
-- crypto/cipher (Crypto, Aead), crypto/sha256, os.CreateTemp and json.Unmarshal in the file store
-- (FileStore), database/sql with its servers (Database), github.com/redis/go-redis/v9 with its
-- server (Client), net and bufio in the Memcached driver (Network), github.com/nats-io/nats.go (KeyValue) and json.Unmarshal of the envelopes of
-- its driver (NatsStore), crypto/rand (read_random), the clock, and encoding/json (ValueCodec).
--
-- Not modelled: contexts apart from the end of a wait, durations of events, white space outside
-- ASCII in strings.TrimSpace, the rounding of float64 in the seconds of a long ttl, and the DynamoDB driver.
pub mod Prelude
pub mod Base64
pub mod Decimal
pub mod Store
pub mod Memo
pub mod Shaping
pub mod Inspect
pub mod Null
pub mod Memory
pub mod File
pub mod Nats
pub mod Sql
pub mod Redis
pub mod Fake
pub mod Memcached
pub mod Facade
pub mod Factory
mod Tests
