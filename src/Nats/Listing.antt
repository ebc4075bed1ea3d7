-- ===== src/Nats/Listing.antt =====
-- Flush, ListPage and New of driver/natscache/store.go.
use cache.Prelude.{
  ℕ, Bool, true, false, not, Option, none, some, List, [], ◌∷◌, ◌++◌, Bytes, has_prefix, length,
  drop, ℤ, pos, is_positive, if◌then◌else◌,
}
use cache.Store.{
  Error, Result, ok, err, nats, Act, pure, fail, lift, attempt, ◌>>=◌, ◌>>◌, Store,
  InspectorCapabilities, CacheEntry, ListPageOptions, ListPageResult, BaseConfig, ttl_or,
}
use cache.Inspect.{filter_and_sort_entries, list_filter_term, decode_offset_cursor, slice_entries}
use cache.Shaping.Value.{Gzip}
use cache.Shaping.Envelope.{Crypto}
use cache.Shaping.Wrap.{wrap_store}
use cache.Nats.Bucket.{Answer, answered, failed, Entry, KeyValue, World, ask}
use cache.Nats.{
  NatsStore, Envelope, is_no_keys, decode_envelope, decode_cache_key, connected, removed, get, set,
  add, delete, delete_many, scope_prefix_of, default_prefix, default_ttl,
}
use cache.Nats.{ready}
use cache.Nats.Locks.{lock_acquire, lock_release}
use cache.Nats.Counter.{increment, decrement}

module _ (kv : KeyValue) (s : NatsStore) where
  -- The first error that the lister reports.
  abbrev pub first_error : List (Option Error) → Act (World kv) (Unit {0})
  first_error [] = pure tt
  first_error (none ∷ errors) = first_error errors
  first_error (some e ∷ errors) = fail e

  -- The loop of Flush.
  unfoldable pub purge_each : List Bytes → Act (World kv) (Unit {0})
  purge_each [] = pure tt
  purge_each (key ∷ keys) =
      let rest = purge_each keys in
      if has_prefix key s.scope_prefix
      then (do ask kv (kv.purge key) (removed kv s); rest)
      else rest

  abbrev pub flush_listed : Answer (List Bytes × List (Option Error)) → Act (World kv) (Unit {0})
  unfolding purge_each
  flush_listed (failed x) = if is_no_keys x then pure tt else fail x.error
  flush_listed (answered (keys, errors)) = do purge_each keys; first_error errors

  unfoldable pub flush : Act (World kv) (Unit {0})
  unfolding purge_each
  flush = connected kv s (ask kv kv.list_keys flush_listed)

  abbrev end_of : Result (Option Envelope) → Option ℤ
  end_of (err e) = none
  end_of (ok none) = none
  end_of (ok (some env)) = if is_positive env.expires_at then some env.expires_at else none

  abbrev end_in : Answer Entry → Act (World kv) (Option ℤ)
  end_in (failed x) = pure none
  end_in (answered entry) = pure (end_of (decode_envelope s.unmarshal entry.value))

  -- The end of an entry that is listed, from a second read of it.
  unfoldable pub listed_end : Bytes → Act (World kv) (Option ℤ)
  unfolding decode_envelope
  listed_end key =
      let second = ask kv (kv.get key) end_in in if s.bucket_ttl then pure none else second

  abbrev listed : Bytes → Bytes → Result (Option Bytes) → Act (World kv) (List CacheEntry)
  listed key raw_key (err e) = pure []
  listed key raw_key (ok none) = pure []
  listed key raw_key (ok (some body)) = do
    end ← listed_end key
    pure (record { key = raw_key; size_bytes = length body; expires_at = end } ∷ [])

  -- The entry of a key of the bucket, if the store has one there.
  unfoldable pub list_key : Bytes → Act (World kv) (List CacheEntry)
  unfolding get listed_end decode_cache_key
  list_key key =
      if has_prefix key s.scope_prefix
      then elim (decode_cache_key (drop (length s.scope_prefix) key)) [
        | none ↦ pure []
        | some raw_key ↦ attempt (get kv s raw_key) (listed key raw_key)
      ]
      else pure []

  -- The loop of ListPage.
  unfoldable pub list_entries : List Bytes → Act (World kv) (List CacheEntry)
  unfolding list_key
  list_entries [] = pure []
  list_entries (key ∷ keys) = do
    entry ← list_key key
    entries ← list_entries keys
    pure (entry ++ entries)

  abbrev empty_page : ListPageResult
  empty_page = record { entries = []; next_cursor = []; has_more = false }

  abbrev page_listed :
      ListPageOptions → Answer (List Bytes × List (Option Error)) → Act (World kv) ListPageResult
  page_listed opts (failed x) = if is_no_keys x then pure empty_page else fail x.error
  page_listed opts (answered (keys, errors)) = do
    entries ← list_entries keys
    first_error errors
    offset ← lift (decode_offset_cursor opts.cursor)
    pure (
        slice_entries (filter_and_sort_entries entries (list_filter_term opts)) (pos offset)
          opts.limit)

  unfoldable pub list_page : ListPageOptions → Act (World kv) ListPageResult
  unfolding list_entries
  list_page opts = connected kv s (ask kv kv.list_keys (page_listed opts))

  unfoldable pub capabilities : InspectorCapabilities
  capabilities = record {
    can_list = true;
    can_read = true;
    can_delete = true;
    can_ttl = not s.bucket_ttl;
  }

  unfoldable pub nats_store : Store (World kv)
  unfolding ready get set add increment decrement lock_acquire lock_release delete delete_many flush
      list_page capabilities
  nats_store = record {
    driver = nats;
    ready = ready kv s;
    get = get kv s;
    set = set kv s;
    add = add kv s;
    increment = increment kv s;
    decrement = decrement kv s;
    delete = delete kv s;
    delete_many = delete_many kv s;
    flush = flush;
    lock_store =
        some (record { lock_acquire = lock_acquire kv s; lock_release = lock_release kv s });
    inspector = some (record { capabilities = λ w. capabilities; list_page = list_page });
  }

abbrev or_default : Bytes → Bytes
or_default [] = default_prefix
or_default (c ∷ prefix) = c ∷ prefix

-- New, where `has_bucket` tells that the configuration has a bucket.
unfoldable pub new_nats_store :
    (kv : KeyValue)
    → (Bytes → Result (Bytes × Bytes × ℤ))
    → (ℕ → Act (World kv) Bytes)
    → Gzip
    → Crypto
    → BaseConfig
    → Bool
    → Bool
    → Store (World kv)
unfolding nats_store scope_prefix_of wrap_store
new_nats_store kv unmarshal read_random gzip crypto cfg has_bucket bucket_ttl =
    (wrap_store read_random gzip crypto
      (nats_store kv (record {
        connected = has_bucket;
        ttl = ttl_or cfg.default_ttl default_ttl;
        scope_prefix = scope_prefix_of (or_default cfg.prefix);
        bucket_ttl = bucket_ttl;
        unmarshal = unmarshal;
      }))
      cfg).0
