-- ===== src/Nats.antt =====
-- driver/natscache/store.go: the store over a JetStream key-value bucket. github.com/nats-io/nats.go
-- is a parameter (Nats/Bucket), and so is json.Unmarshal of the records of the first versions.
pub mod Bucket
pub mod Locks
pub mod Counter
pub mod Listing
mod Moves
mod Attempt
pub mod Updates
pub mod Records
pub mod Shape
mod Promises
mod Owners
mod Counts
pub mod Flushes
pub mod Refines
use cache.Prelude.{
  ℕ, zero, suc, ◌+◌, ◌/◌, Bool, true, false, not, ◌&&◌, ◌||◌, Option, none, some, List, [], ◌∷◌,
  ◌++◌, Bytes, codes, equal, has_prefix, length, take, drop, ltb, leb, ◌==◌, ltb_ℤ, leb_ℤ, ℤ, pos,
  pos_part, is_positive, bits64, signed64, add64, neg64, if◌then◌else◌,
}
use cache.Base64.{encode, decode}
use cache.Decimal.{format_int, parse_int}
use cache.Store.{
  Error, Result, ok, err, text, not_numeric, Driver, nats, Act, pure, fail, lift, continue, attempt,
  ◌>>=◌, ◌>>◌, Store, LockStore, Inspector, InspectorCapabilities, CacheEntry, ListPageOptions,
  ListPageResult, BaseConfig, ttl_or,
}
use cache.Inspect.{filter_and_sort_entries, list_filter_term, decode_offset_cursor, slice_entries}
use cache.File.Record.{put_uint, uint_from}
use cache.Shaping.Value.{Gzip}
use cache.Shaping.Envelope.{Crypto}
use cache.Shaping.Wrap.{wrap_store}
use Bucket.{
  Failure, key_not_found, key_deleted, key_exists, no_keys_found, another, Fault, Answer, answered,
  failed, Operation, key_value_put, key_value_delete, key_value_purge, Entry, KeyValue, World, ask,
}

abbrev pub default_ttl : ℤ
default_ttl = pos 300000000000

abbrev pub default_prefix : Bytes
default_prefix = codes "app"

abbrev pub nats_envelope_magic : Bytes
nats_envelope_magic = codes "NCV1"

abbrev pub nats_envelope_marker : Bytes
nats_envelope_marker = codes "cache-v1"

-- isMiss
abbrev pub is_miss : Fault → Bool
is_miss x = elim x.failure [ key_not_found ↦ true | key_deleted ↦ true | _ ↦ false ]

-- errors.Is of nats.ErrKeyExists and of nats.ErrNoKeysFound
abbrev pub is_exists : Fault → Bool
is_exists x = elim x.failure [ key_exists ↦ true | _ ↦ false ]

abbrev pub is_no_keys : Fault → Bool
is_no_keys x = elim x.failure [ no_keys_found ↦ true | _ ↦ false ]

unfoldable pub encode_key_part : Bytes → Bytes
unfolding encode
encode_key_part [] = b'_' ∷ []
encode_key_part (c ∷ part) = encode (c ∷ part)

-- decodeCacheKey, where an error is `none`.
unfoldable pub decode_cache_key : Bytes → Option Bytes
unfolding decode
decode_cache_key part = if equal part (b'_' ∷ []) then some [] else decode part

unfoldable pub scope_prefix_of : Bytes → Bytes
unfolding encode_key_part
scope_prefix_of prefix = codes "p." ++ (encode_key_part prefix ++ codes ".k.")

-- Without the marker; `marked` tells the third result of decodeEnvelope.
pub record Envelope : Type 0 where
  pub value : Bytes
  pub expires_at : ℤ

-- The store, with what stands in for json.Unmarshal of an envelope: its marker, value and end.
-- `connected` tells that the bucket is not nil.
pub record NatsStore : Type 0 where
  pub connected : Bool
  pub ttl : ℤ
  pub scope_prefix : Bytes
  pub bucket_ttl : Bool
  pub unmarshal : Bytes → Result (Bytes × Bytes × ℤ)

abbrev marked : Result (Bytes × Bytes × ℤ) → Result (Option Envelope)
marked (err e) = err e
marked (ok (marker, value, expires_at)) =
    if equal marker nats_envelope_marker
    then ok (some (record { value = value; expires_at = expires_at }))
    else ok none

-- A body that is no envelope is `none`.
unfoldable pub decode_envelope :
    (Bytes → Result (Bytes × Bytes × ℤ)) → Bytes → Result (Option Envelope)
unfolding uint_from
decode_envelope unmarshal [] = ok none
decode_envelope unmarshal (c ∷ s) =
    let body = c ∷ s in
    if leb 12 (length body) && equal (take 4 body) nats_envelope_magic
    then ok (
        some (record {
          value = drop 12 body;
          expires_at = signed64 (uint_from 0 (take 8 (drop 4 body)));
        }))
    else if not (c == b'{')
    then ok none
    else marked (unmarshal body)

module _ (kv : KeyValue) (s : NatsStore) where
  -- time.Now().UnixMilli(), and the test for an end in the past.
  abbrev pub is_expired : Envelope → World kv → Bool
  is_expired env w = is_positive env.expires_at && ltb_ℤ env.expires_at (pos (w.now / 1000000))

  -- The end of an entry that is written now, in milliseconds.
  abbrev pub expiry : ℤ → World kv → ℤ
  expiry ttl w = pos ((w.now + pos_part (ttl_or ttl s.ttl)) / 1000000)

  unfoldable pub encode_envelope : Bytes → ℤ → World kv → Bytes
  unfolding put_uint
  encode_envelope value ttl w = nats_envelope_magic ++ (put_uint 8 (bits64 (expiry ttl w)) ++ value)

  -- What is stored for a value.
  unfoldable pub body_of : Bytes → ℤ → World kv → Bytes
  unfolding encode_envelope
  body_of value ttl w = if s.bucket_ttl then value else encode_envelope value ttl w

  unfoldable pub cache_key : Bytes → Bytes
  unfolding encode_key_part
  cache_key key = s.scope_prefix ++ encode_key_part key

  abbrev unavailable : Error
  unavailable = text "nats cache key-value unavailable"

  -- `if s.kv == nil`
  abbrev pub connected : {A : Type 0} → Act (World kv) A → Act (World kv) A
  connected act w = if s.connected then act w else (err unavailable, w)

  abbrev pub is_removal : Operation → Bool
  is_removal key_value_put = false
  is_removal key_value_delete = true
  is_removal key_value_purge = true

  unfoldable pub ready : Act (World kv) (Unit {0})
  ready = connected (ask kv kv.status λ r. elim r [ answered u ↦ pure u | failed x ↦ fail x.error ])

  -- A Purge whose outcome is ignored.
  abbrev pub purge_then : {A : Type 0} → Bytes → Act (World kv) A → Act (World kv) A
  purge_then key next = ask kv (kv.purge key) λ ignored. next

  abbrev opened : Bytes → Bytes → Result (Option Envelope) → Act (World kv) (Option Bytes)
  opened key raw (err e) w = (err e, w)
  opened key raw (ok none) w = (ok (some raw), w)
  opened key raw (ok (some env)) w =
      let expired = purge_then key (pure none) w in
      if is_expired env w then expired else (ok (some env.value), w)

  abbrev pub received : Bytes → Answer Entry → Act (World kv) (Option Bytes)
  received key (failed x) = if is_miss x then pure none else fail x.error
  received key (answered entry) =
      if is_removal entry.operation
      then pure none
      else if s.bucket_ttl
      then pure (some entry.value)
      else opened key entry.value (decode_envelope s.unmarshal entry.value)

  unfoldable pub get : Bytes → Act (World kv) (Option Bytes)
  unfolding decode_envelope cache_key
  get key = connected (ask kv (kv.get (cache_key key)) (received (cache_key key)))

  abbrev written : Answer ℕ → Act (World kv) (Unit {0})
  written (answered n) = pure tt
  written (failed x) = fail x.error

  unfoldable pub set : Bytes → Bytes → ℤ → Act (World kv) (Unit {0})
  unfolding body_of cache_key
  set key value ttl =
      connected (λ w. ask kv (kv.put (cache_key key) (body_of value ttl w)) written w)

  -- createLock, and the end of Add.
  abbrev pub created : Answer ℕ → Act (World kv) Bool
  created (answered n) = pure true
  created (failed x) = if is_exists x then pure false else fail x.error

  unfoldable pub add : Bytes → Bytes → ℤ → Act (World kv) Bool
  unfolding get body_of cache_key
  add key value ttl = connected (do
    o ← get key
    elim o [
      | some present ↦ pure false
      | none ↦ λ w. ask kv (kv.create (cache_key key) (body_of value ttl w)) created w
    ])

  abbrev pub removed : Answer (Unit {0}) → Act (World kv) (Unit {0})
  removed (answered u) = pure tt
  removed (failed x) = if is_miss x then pure tt else fail x.error

  unfoldable pub delete : Bytes → Act (World kv) (Unit {0})
  unfolding cache_key
  delete key = connected (ask kv (kv.delete (cache_key key) none) removed)

  unfoldable pub delete_many : List Bytes → Act (World kv) (Unit {0})
  unfolding delete
  delete_many [] = pure tt
  delete_many (key ∷ keys) = do delete key; delete_many keys
