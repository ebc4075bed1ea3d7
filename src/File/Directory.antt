-- ===== src/File/Directory.antt =====
-- The operations of store_file.go on its whole directory: Flush and ListPage, and the store.
use cache.Prelude.{
  ℕ, ◌/◌, ◌==◌, Bool, true, not, ◌&&◌, ◌||◌, Option, none, some, List, [], ◌∷◌, Bytes, codes,
  has_prefix, equal, leb, length, take, drop, leb_ℤ, ℤ, pos, pos_part, is_positive, neg64, Map,
  if◌then◌else◌,
}
use cache.Store.{
  Result, ok, err, file, Act, pure, lift, attempt, ◌>>=◌, ◌>>◌, Store, all_capabilities, CacheEntry,
  ListPageOptions, ListPageResult, ttl_or,
}
use cache.Memory.{default_cache_ttl}
use cache.Inspect.{filter_and_sort_entries, list_filter_term, decode_offset_cursor, slice_entries}
use cache.File.Calls.{Disk, system, nothing_written, read_file, remove_file, call}
use cache.File.Record.{decode_file_record}
use cache.File.{FileStore, get, set, add, lock_release, increment, delete, delete_many}

abbrev pub is_hex_digit : ℕ → Bool
is_hex_digit c = (leb 48 c && leb c 57) || (leb 97 c && leb c 102) || (leb 65 c && leb c 70)

abbrev pub all_hex : Bytes → Bool
all_hex [] = true
all_hex (c ∷ cs) = is_hex_digit c && all_hex cs

-- A digest of 64 digits, which hex.DecodeString takes in either case, with the suffix.
unfoldable pub is_file_store_entry : Bytes → Bool
unfolding has_prefix equal
is_file_store_entry name =
    has_prefix name (codes ".cache-tmp-")
    || (length name == 70 && equal (drop 64 name) (codes ".cache") && all_hex (take 64 name))

unfoldable pub is_file_store_record : Bytes → Bool
unfolding is_file_store_entry
is_file_store_record name = not (has_prefix name (codes ".cache-tmp-")) && is_file_store_entry name

abbrev pub names : Map Bytes → List Bytes
names [] = []
names ((name, body) ∷ files) = name ∷ names files

-- The names of the files. os.ReadDir gives them sorted; the order of the map stands for that.
unfoldable pub read_dir : Act Disk (List Bytes)
read_dir = system (λ d. (names d.files, d)) nothing_written

-- The loop of Flush.
unfoldable pub flush_each : List Bytes → Act Disk (Unit {0})
unfolding remove_file
flush_each [] = pure tt
flush_each (name ∷ more) =
    let rest = flush_each more in
    if is_file_store_entry name then (do remove_file name; rest) else rest

unfoldable pub flush : Act Disk (Unit {0})
unfolding flush_each read_dir
flush = do more ← read_dir; flush_each more

module _ (s : FileStore) where
  -- The entry of a record that is not expired; `none` where ListPage passes over the file.
  abbrev listed : Bytes → Result (Bytes × ℤ × Bytes) → Act Disk (Option CacheEntry)
  listed name (err e) = pure none
  listed name (ok ([], expires_at, value)) = pure none
  listed name (ok (c ∷ key, expires_at, value)) = λ d.
      let removed = attempt (remove_file name) (λ ignored. pure none) d in
      let entry : CacheEntry = record {
        key = c ∷ key;
        size_bytes = length value;
        expires_at =
            if is_positive expires_at then some (pos (pos_part expires_at / 1000000)) else none;
      } in
      if is_positive expires_at && leb_ℤ expires_at (pos d.now)
      then removed
      else (ok (some entry), d)

  unfoldable pub list_file : Bytes → Act Disk (Option CacheEntry)
  unfolding decode_file_record remove_file
  list_file name = do
    o ← read_file name
    elim o [ none ↦ pure none | some body ↦ listed name (decode_file_record s.unmarshal body) ]

  abbrev with_entry : Option CacheEntry → List CacheEntry → List CacheEntry
  with_entry none entries = entries
  with_entry (some entry) entries = entry ∷ entries

  -- The loop of ListPage.
  unfoldable pub list_entries : List Bytes → Act Disk (List CacheEntry)
  unfolding list_file
  list_entries [] = pure []
  list_entries (name ∷ more) =
      let rest = list_entries more in
      if is_file_store_record name
      then (do o ← list_file name; entries ← rest; pure (with_entry o entries))
      else rest

  unfoldable pub list_page : ListPageOptions → Act Disk ListPageResult
  unfolding list_entries read_dir
  list_page opts = do
    more ← read_dir
    entries ← list_entries more
    offset ← lift (decode_offset_cursor opts.cursor)
    pure (
        slice_entries (filter_and_sort_entries entries (list_filter_term opts)) (pos offset)
          opts.limit)

  unfoldable pub file_store : Store Disk
  unfolding get set add lock_release increment delete delete_many flush list_page
  file_store = record {
    driver = file;
    ready = (do call; call);
    get = get s;
    set = set s;
    add = add s;
    increment = increment s;
    decrement = λ key delta ttl. increment s key (neg64 delta) ttl;
    delete = delete s;
    delete_many = delete_many s;
    flush = flush;
    lock_store = some (record { lock_acquire = add s; lock_release = lock_release s });
    inspector = some (record { capabilities = λ d. all_capabilities; list_page = list_page });
  }

-- MkdirAll of the directory, whose failure is ignored, is left out.
unfoldable pub new_file_store :
    (Bytes → Bytes) → (Bytes → Result (Bytes × ℤ × Bytes)) → (Map Bytes → Bytes) → ℤ → Store Disk
unfolding file_store
new_file_store sha256 unmarshal temp_name default_ttl = file_store (record {
  sha256 = sha256;
  unmarshal = unmarshal;
  temp_name = temp_name;
  default_ttl = ttl_or default_ttl default_cache_ttl;
})
