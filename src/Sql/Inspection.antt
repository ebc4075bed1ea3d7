-- ===== src/Sql/Inspection.antt =====
-- DeleteMany, Flush and ListPage of driver/sqlcore/store.go, and the store.
use cache.Prelude.{
  ℕ, suc, ◌+◌, true, false, ◌&&◌, Option, none, some, List, [], ◌∷◌, ◌++◌, Bytes, codes, has_prefix,
  length, take, drop, ltb, ltb_ℤ, ℤ, pos, is_positive, if◌then◌else◌,
}
use cache.Store.{
  Error, Result, ok, err, sql, Act, pure, lift, continue, ◌>>=◌, ◌>>◌, Store, all_capabilities,
  CacheEntry, ListPageOptions, ListPageResult,
}
use cache.Inspect.{
  normalize_list_limit, list_filter_term, decode_offset_cursor, encode_offset_cursor,
}
use cache.Sql.Server.{Database, Value, text, int, Row}
use cache.Sql.{
  SqlStore, World, ph, cache_key, flush_sql, call, now_milli, ready, get, set, add, lock_release,
  increment, decrement, delete,
}

module _ (db : Database) (s : SqlStore) where
  -- The placeholders from the one with this number on, with commas between them.
  abbrev pub placeholders : ℕ → List Bytes → Bytes
  placeholders i [] = []
  placeholders i (key ∷ []) = ph s i
  placeholders i (key ∷ k ∷ keys) = ph s i ++ b',' ∷ placeholders (suc i) (k ∷ keys)

  abbrev pub key_args : List Bytes → List Value
  key_args [] = []
  key_args (key ∷ keys) = text (cache_key s key) ∷ key_args keys

  unfoldable pub delete_many_sql : List Bytes → Bytes
  unfolding ph
  delete_many_sql keys =
      codes "DELETE FROM "
      ++ (s.table ++ (codes " WHERE k IN (" ++ (placeholders 1 keys ++ codes ")")))

  unfoldable pub delete_many : List Bytes → Act (World db) (Unit {0})
  unfolding delete_many_sql cache_key
  delete_many [] = pure tt
  delete_many (key ∷ keys) = do
    call db s (db.exec (delete_many_sql (key ∷ keys)) (key_args (key ∷ keys)))
    pure tt

  unfoldable pub flush : Act (World db) (Unit {0})
  unfolding flush_sql
  flush = do call db s (db.exec (flush_sql s) []); pure tt

  -- The condition of a listing and its argument, where there is a filter.
  abbrev where_clause : Bytes → Bytes
  unfolding ph
  where_clause [] = []
  where_clause (c ∷ filter) = codes " WHERE k LIKE " ++ ph s 1

  abbrev pattern_of : Bytes → Bytes → Bytes
  pattern_of [] filter = b'%' ∷ (filter ++ b'%' ∷ [])
  pattern_of (c ∷ prefix) filter = (c ∷ prefix) ++ (b':' ∷ b'%' ∷ (filter ++ b'%' ∷ []))

  abbrev pattern_args : Bytes → List Value
  pattern_args [] = []
  pattern_args (c ∷ filter) = text (pattern_of s.prefix (c ∷ filter)) ∷ []

  unfoldable pub list_sql : Bytes → Bytes
  unfolding ph
  list_sql filter =
      let n = length (pattern_args filter) in
      codes "SELECT k, v, ea FROM "
      ++ (s.table
          ++ (where_clause filter
              ++ (codes " ORDER BY k ASC LIMIT "
                  ++ (ph s (n + 1) ++ (codes " OFFSET " ++ ph s (n + 2))))))

  -- strings.TrimPrefix
  abbrev trim_prefix : Bytes → Bytes → Bytes
  trim_prefix key prefix = if has_prefix key prefix then drop (length prefix) key else key

  abbrev entry_of : Row → CacheEntry
  entry_of row = record {
    key = trim_prefix row.key (s.prefix ++ b':' ∷ []);
    size_bytes = length row.value;
    expires_at = if is_positive row.ends then some row.ends else none;
  }

  -- The loop over the rows; a row that is past its end is left out.
  unfoldable pub entries_of : ℤ → List (Result Row) → Result (List CacheEntry)
  entries_of now [] = ok []
  entries_of now (err e ∷ rows) = err e
  entries_of now (ok row ∷ rows) =
      let rest = entries_of now rows in
      if is_positive row.ends && ltb_ℤ row.ends now
      then rest
      else elim rest [ err e ↦ err e | ok entries ↦ ok (entry_of row ∷ entries) ]

  unfoldable pub page_of : ℕ → ℕ → List CacheEntry → ListPageResult
  page_of limit offset entries =
      if ltb limit (length entries)
      then record {
        entries = take limit entries;
        next_cursor = encode_offset_cursor (pos (offset + limit));
        has_more = true;
      }
      else record { entries = entries; next_cursor = []; has_more = false }

  abbrev finished : ℕ → ℕ → Option Error → List CacheEntry → Result ListPageResult
  finished limit offset (some e) entries = err e
  finished limit offset none entries = ok (page_of limit offset entries)

  abbrev listed : ℕ → ℕ → List (Result Row) × Option Error → Act (World db) ListPageResult
  listed limit offset (rows, failure) w =
      (continue (entries_of (now_milli db s w) rows)
        (λ entries. lift (finished limit offset failure entries)) w)

  unfoldable pub list_page : ListPageOptions → Act (World db) ListPageResult
  unfolding list_sql entries_of page_of
  list_page opts =
      let limit = normalize_list_limit opts.limit in
      let filter = list_filter_term opts in
      do
        offset ← lift (decode_offset_cursor opts.cursor)
        rows ← call db s (
            db.query (list_sql filter)
              (pattern_args filter ++ (int (pos (limit + 1)) ∷ int (pos offset) ∷ [])))
        listed limit offset rows

  unfoldable pub sql_store : Store (World db)
  unfolding ready get set add lock_release increment decrement delete delete_many flush list_page
  sql_store = record {
    driver = sql;
    ready = ready db s;
    get = get db s;
    set = set db s;
    add = add db s;
    increment = increment db s;
    decrement = decrement db s;
    delete = delete db s;
    delete_many = delete_many;
    flush = flush;
    lock_store = some (record { lock_acquire = add db s; lock_release = lock_release db s });
    inspector = some (record { capabilities = λ w. all_capabilities; list_page = list_page });
  }
