-- ===== src/Memcached.antt =====
-- driver/memcachedcache/store.go: the store on a Memcached server, by the text protocol over the
-- connections of Memcached/Pools.
pub mod Pools
pub mod Lines
mod Idle
pub mod Balance
pub mod Runs
pub mod Peers
use cache.Prelude.{
  ℕ, zero, suc, ◌/◌, Bool, true, false, not, ◌||◌, ◌&&◌, Option, none, some, List, [], ◌∷◌, ◌++◌,
  Bytes, codes, equal, has_prefix, length, get_or, ltb, ◌==◌, ℤ, pos, negsuc, is_positive, neg64,
  if◌then◌else◌, map,
}
use cache.Decimal.{parse_int, format_int}
use cache.Store.{
  Error, Result, ok, err, text, message, join, Driver, memcached, Act, pure, fail, ◌>>=◌, ◌>>◌,
  Store, BaseConfig, ttl_or,
}
use cache.Inspect.{trim_space}
use cache.Shaping.Value.{Gzip}
use cache.Shaping.Envelope.{Crypto}
use cache.Shaping.Wrap.{wrap_store}
use Pools.{
  Network, MemcachedStore, PoolMap, Pooled, W, Mc, Exchange, using, spoil, apart, send, read_line,
}
use Lines.{
  fields, seconds_of, field, answered, cache_key, request, expecting, read_value, store_value,
}

abbrev pub default_ttl : ℤ
default_ttl = pos 300000000000

abbrev pub default_prefix : Bytes
default_prefix = codes "app"

abbrev pub expired_memcached_timestamp : ℕ
expired_memcached_timestamp = 2592001

abbrev pub is_negative : ℤ → Bool
is_negative (pos n) = false
is_negative (negsuc n) = true

module _ (network : Network) (s : MemcachedStore) where
  unfoldable pub ready : Act (W network s) (Unit {0})
  ready = using network s λ mc. do
    line ← request network s mc (codes "version\r\n")
    expecting network s (codes "VERSION ") (text "memcached readiness failed") line

  -- Get, after the line of the value.
  abbrev pub get_sized : Mc network s → Bytes → Option ℤ → Exchange network s (Option Bytes)
  get_sized mc size none = fail (join (text "parse length") (message size))
  get_sized mc size (some n) = do value ← read_value network s mc n; pure (some value)

  abbrev pub get_fields : Mc network s → Bytes → List Bytes → Exchange network s (Option Bytes)
  get_fields mc line fs =
      if ltb (length fs) 4 || not (equal (field fs 0) (codes "VALUE"))
      then fail (answered (text "unexpected response") line)
      else get_sized mc (field fs 3) (parse_int (field fs 3))

  unfoldable pub get : Bytes → Act (W network s) (Option Bytes)
  unfolding cache_key trim_space fields
  get key = using network s λ mc. do
    line ← request network s mc (codes "get " ++ (cache_key network s key ++ codes "\r\n"))
    (if equal line (codes "END\r\n")
        then pure none
        else get_fields mc line (fields (trim_space line)))

  unfoldable pub set : Bytes → Bytes → ℤ → Act (W network s) (Unit {0})
  set key value ttl = using network s λ mc. do
    line ← store_value network s mc (codes "set") key value (ttl_or ttl s.ttl)
    expecting network s (codes "STORED") (text "memcached set failed") line

  abbrev pub add_answer : Bytes → Exchange network s Bool
  add_answer line =
      if has_prefix line (codes "STORED")
      then pure true
      else if has_prefix line (codes "NOT_STORED")
      then pure false
      else spoil network s (answered (text "memcached add failed") line)

  unfoldable pub add : Bytes → Bytes → ℤ → Act (W network s) Bool
  add key value ttl = using network s λ mc. do
    line ← store_value network s mc (codes "add") key value (ttl_or ttl s.ttl)
    add_answer line

  unfoldable pub lock_acquire : Bytes → Bytes → ℤ → Act (W network s) Bool
  unfolding add
  lock_acquire key owner ttl = add key owner ttl

  -- LockRelease, after the answer to cas.
  abbrev pub swapped : Bytes → Exchange network s Bool
  swapped line =
      if has_prefix line (codes "EXISTS") || has_prefix line (codes "NOT_FOUND")
      then pure false
      else do
        expecting network s (codes "STORED") (text "memcached lock release failed") line
        pure true

  abbrev pub expire_owned : Mc network s → Bytes → Bytes → Bytes → Bytes → Exchange network s Bool
  expire_owned mc full owner unique value = if not (equal value owner) then pure false else do
    line ← request network s mc (
        codes "cas "
        ++ (full
            ++ (codes " 0 "
                ++ (format_int (pos expired_memcached_timestamp)
                    ++ (codes " 0 " ++ (unique ++ codes "\r\n\r\n"))))))
    swapped line

  abbrev pub release_sized :
      Mc network s → Bytes → Bytes → List Bytes → Option ℤ → Exchange network s Bool
  release_sized mc full owner fs none =
      spoil network s (join (text "parse length") (message (field fs 3)))
  release_sized mc full owner fs (some n) = do
    value ← read_value network s mc n
    expire_owned mc full owner (field fs 4) value

  abbrev pub release_fields :
      Mc network s → Bytes → Bytes → Bytes → List Bytes → Exchange network s Bool
  release_fields mc full owner line fs =
      if not (length fs == 5) || not (equal (field fs 0) (codes "VALUE"))
      then spoil network s (answered (text "unexpected response") line)
      else release_sized mc full owner fs (parse_int (field fs 3))

  unfoldable pub lock_release : Bytes → Bytes → Act (W network s) Bool
  unfolding cache_key trim_space fields
  lock_release key owner = using network s λ mc. do
    line ← request network s mc (codes "gets " ++ (cache_key network s key ++ codes "\r\n"))
    (if equal line (codes "END\r\n")
        then pure false
        else release_fields mc (cache_key network s key) owner line (fields (trim_space line)))

  abbrev pub touched : Bytes → Exchange network s (Unit {0})
  touched line =
      if not (has_prefix line (codes "TOUCHED")) && not (has_prefix line (codes "NOT_FOUND"))
      then spoil network s (answered (text "memcached touch failed") line)
      else pure tt

  -- incr, after the number of the answer was read.
  abbrev pub count_answer : Mc network s → Bytes → ℤ → Bytes → Option ℤ → Exchange network s ℤ
  count_answer mc full ttl digits none =
      spoil network s (join (text "strconv.ParseInt") (message digits))
  count_answer mc full ttl digits (some val) =
      if is_positive ttl
      then (do
        line ← request network s mc (
            codes "touch "
            ++ (full ++ (codes " " ++ (format_int (pos (seconds_of ttl)) ++ codes "\r\n"))))
        touched line
        pure val)
      else pure val

  -- `again` is the call of incr by itself.
  abbrev pub incr_answer :
      Act (W network s) ℤ → Mc network s → Bytes → ℤ → Bytes → Exchange network s ℤ
  incr_answer again mc key ttl line =
      if equal line (codes "NOT_FOUND")
      then (do apart network s (set key (codes "0") ttl); apart network s again)
      else if has_prefix line (codes "ERROR")
      then spoil network s (message line)
      else count_answer mc (cache_key network s key) ttl line (parse_int line)

  unfoldable pub incr : ℕ → Bytes → ℤ → ℤ → Bytes → Act (W network s) ℤ
  unfolding cache_key trim_space set
  incr zero key delta ttl verb = fail (text "no turn is left")
  incr (suc turns) key delta ttl verb =
      let again = incr turns key delta (ttl_or ttl s.ttl) verb in
      using network s λ mc. do
        line ← request network s mc (
            verb
            ++ (codes " "
                ++ (cache_key network s key ++ (codes " " ++ (format_int delta ++ codes "\r\n")))))
        incr_answer again mc key (ttl_or ttl s.ttl) (trim_space line)

  unfoldable pub decr : Bytes → ℤ → ℤ → Act (W network s) ℤ
  unfolding incr
  decr key delta ttl = incr s.turns key delta ttl (codes "decr")

  unfoldable pub increment : Bytes → ℤ → ℤ → Act (W network s) ℤ
  unfolding incr decr
  increment key delta ttl =
      if is_negative delta
      then decr key (neg64 delta) ttl
      else incr s.turns key delta ttl (codes "incr")

  unfoldable pub decrement : Bytes → ℤ → ℤ → Act (W network s) ℤ
  unfolding increment decr
  decrement key delta ttl =
      if is_negative delta then increment key (neg64 delta) ttl else decr key delta ttl

  -- The line of the answer is not looked at.
  unfoldable pub delete : Bytes → Act (W network s) (Unit {0})
  unfolding cache_key
  delete key = using network s λ mc. do
    line ← request network s mc (codes "delete " ++ (cache_key network s key ++ codes "\r\n"))
    pure tt

  unfoldable pub delete_many : List Bytes → Act (W network s) (Unit {0})
  unfolding delete
  delete_many [] = pure tt
  delete_many (key ∷ keys) = do delete key; delete_many keys

  unfoldable pub flush : Act (W network s) (Unit {0})
  flush = using network s λ mc. do
    line ← request network s mc (codes "flush_all\r\n")
    expecting network s (codes "OK") (text "memcached flush failed") line

  unfoldable pub memcached_store : Store (W network s)
  unfolding ready get set add increment decrement lock_acquire lock_release delete delete_many flush
  memcached_store = record {
    driver = memcached;
    ready = ready;
    get = get;
    set = set;
    add = add;
    increment = increment;
    decrement = decrement;
    delete = delete;
    delete_many = delete_many;
    flush = flush;
    lock_store = some (record { lock_acquire = lock_acquire; lock_release = lock_release });
    inspector = none;
  }

abbrev or_default : Bytes → Bytes
or_default [] = default_prefix
or_default (c ∷ prefix) = c ∷ prefix

abbrev or_local : List Bytes → List Bytes
or_local [] = codes "127.0.0.1:11211" ∷ []
or_local (addr ∷ addrs) = addr ∷ addrs

abbrev store_of : BaseConfig → List Bytes → ℕ → MemcachedStore
store_of cfg addresses turns = record {
  addrs = or_local addresses;
  ttl = ttl_or cfg.default_ttl default_ttl;
  prefix = or_default cfg.prefix;
  turns = turns;
}

-- A channel for each address; the one of an address that comes twice is the first.
abbrev pub empty_pools : {C : Type 0} → List Bytes → PoolMap C
empty_pools [] = []
empty_pools (addr ∷ addrs) = (addr, []) ∷ empty_pools addrs

-- New, with the fields that change beside the store.
unfoldable pub new_memcached_store :
    (network : Network)
    → (ℕ → Act (Pooled network.State network.Conn) Bytes)
    → Gzip
    → Crypto
    → BaseConfig
    → List Bytes
    → ℕ
    → network.State
    → Store (Pooled network.State network.Conn) × Pooled network.State network.Conn
unfolding memcached_store wrap_store
new_memcached_store network read_random gzip crypto cfg addresses turns net = (
  (wrap_store read_random gzip crypto (memcached_store network (store_of cfg addresses turns))
      cfg).0,
  record { net = net; pools = empty_pools (or_local addresses); rr = 0 },
)
