-- ===== src/Sql.antt =====
-- driver/sqlcore/store.go: the store in a table of a database, which the drivers for SQLite, MySQL
-- and PostgreSQL configure. database/sql is a parameter (Sql/Server).
pub mod Server
pub mod Inspection
pub mod Opening
pub mod Dialects
pub mod Table
mod Promises
mod Counts
pub mod Refines
pub mod Safety
use cache.Prelude.{
  ℕ, zero, suc, ◌+◌, ◌*◌, ◌/◌, Bool, true, false, not, ◌&&◌, ◌||◌, Option, none, some, List, [],
  ◌∷◌, ◌++◌, Bytes, codes, contains, equal, ltb, leb, ◌==◌, ltb_ℤ, ℤ, pos, pos_part, is_positive,
  add64, neg64, if◌then◌else◌,
}
use cache.Decimal.{format_int, parse_int}
use cache.Store.{
  Error, Result, ok, err, not_numeric, Act, pure, fail, lift, continue, attempt, ◌>>=◌, ◌>>◌,
  ttl_or,
}
use Server.{Database, Value, text, blob, int, Row}

abbrev pub default_ttl : ℤ
default_ttl = pos 300000000000

abbrev pub default_prefix : Bytes
default_prefix = codes "app"

abbrev pub default_table : Bytes
default_table = codes "cache_entries"

pub record SqlStore : Type 0 where
  pub table : Bytes
  pub driver_name : Bytes
  pub prefix : Bytes
  pub ttl : ℤ

-- The database and the clock in nanoseconds.
pub record World (db : Database) : Type 0 where
  pub state : db.State
  pub now : ℕ

abbrev pub is_postgres : Bytes → Bool
is_postgres driver = equal driver (codes "postgres") || equal driver (codes "pgx")

abbrev pub is_mysql : Bytes → Bool
is_mysql driver = equal driver (codes "mysql")

-- The texts of the statements.
module _ (s : SqlStore) where
  unfoldable pub ph : ℕ → Bytes
  ph i = if is_postgres s.driver_name then b'$' ∷ format_int (pos i) else b'?' ∷ []

  unfoldable pub get_sql : Bytes
  unfolding ph
  get_sql = codes "SELECT v, ea FROM " ++ (s.table ++ (codes " WHERE k = " ++ ph 1))

  abbrev values : Bytes
  unfolding ph
  values =
      codes " (k, v, ea) VALUES ("
      ++ (ph 1 ++ (codes ", " ++ (ph 2 ++ (codes ", " ++ (ph 3 ++ codes ")")))))

  abbrev assigned : Bytes
  unfolding ph
  assigned = codes "v = " ++ (ph 4 ++ (codes ", ea = " ++ ph 5))

  unfoldable pub upsert_sql : Bytes
  unfolding ph
  upsert_sql =
      codes "INSERT INTO "
      ++ (s.table
          ++ (values
              ++ (if is_postgres s.driver_name
                  then codes " ON CONFLICT (k) DO UPDATE SET " ++ assigned
                  else if is_mysql s.driver_name
                  then codes " ON DUPLICATE KEY UPDATE " ++ assigned
                  else codes " ON CONFLICT(k) DO UPDATE SET " ++ assigned)))

  unfoldable pub add_insert_sql : Bytes
  unfolding ph
  add_insert_sql = codes "INSERT INTO " ++ (s.table ++ values)

  unfoldable pub add_reuse_expired_sql : Bytes
  unfolding ph
  add_reuse_expired_sql =
      codes "UPDATE "
      ++ (s.table
          ++ (codes " SET v = "
              ++ (ph 1
                  ++ (codes ", ea = "
                      ++ (ph 2
                          ++ (codes " WHERE k = " ++ (ph 3 ++ (codes " AND ea < " ++ ph 4))))))))

  unfoldable pub delete_sql : Bytes
  unfolding ph
  delete_sql = codes "DELETE FROM " ++ (s.table ++ (codes " WHERE k = " ++ ph 1))

  unfoldable pub flush_sql : Bytes
  flush_sql = codes "DELETE FROM " ++ s.table

  unfoldable pub cache_key : Bytes → Bytes
  cache_key key = elim s.prefix [ [] ↦ key | c ∷ rest ↦ (c ∷ rest) ++ b':' ∷ key ]

module _ (db : Database) (s : SqlStore) where
  -- A call of the database.
  abbrev pub call : {A : Type 0} → Act db.State A → Act (World db) A
  call act w = ((act w.state).0, record w { state = (act w.state).1 })

  abbrev pub now_milli : World db → ℤ
  now_milli w = pos (w.now / 1000000)

  -- time.Now().Add(ttl).UnixMilli()
  abbrev pub expiry : ℤ → World db → ℤ
  expiry ttl w = pos ((w.now + pos_part (ttl_or ttl s.ttl)) / 1000000)

  unfoldable pub ready : Act (World db) (Unit {0})
  ready = call db.ping

  unfoldable pub delete : Bytes → Act (World db) (Unit {0})
  unfolding delete_sql cache_key
  delete key = do call (db.exec (delete_sql s) (text (cache_key s key) ∷ [])); pure tt

  abbrev received : Bytes → Option (Bytes × ℤ) → Act (World db) (Option Bytes)
  unfolding delete
  received key none w = (ok none, w)
  received key (some (v, exp)) w =
      let expired = attempt (delete key) (λ ignored. pure none) w in
      if ltb_ℤ exp (now_milli w) then expired else (ok (some v), w)

  unfoldable pub get : Bytes → Act (World db) (Option Bytes)
  unfolding get_sql cache_key delete
  get key = do row ← call (db.query_row (get_sql s) (text (cache_key s key) ∷ [])); received key row

  unfoldable pub set : Bytes → Bytes → ℤ → Act (World db) (Unit {0})
  unfolding upsert_sql cache_key
  set key value ttl w =
      let exp = expiry ttl w in
      (do
        call (
            db.exec (upsert_sql s)
              (text (cache_key s key) ∷ blob value ∷ int exp ∷ blob value ∷ int exp ∷ []))
        pure tt)
        w

  -- isDuplicateErr
  unfoldable pub is_duplicate_err : Error → Bool
  is_duplicate_err e =
      let msg = db.error_text e in
      if is_postgres s.driver_name
      then contains msg (codes "duplicate key value")
      else if is_mysql s.driver_name
      then contains msg (codes "Duplicate entry")
      else contains msg (codes "UNIQUE constraint failed")
        || contains msg (codes "unique constraint")

  abbrev affected : Result ℕ → Act (World db) Bool
  affected (err e) = fail e
  affected (ok n) = pure (ltb 0 n)

  unfoldable pub add : Bytes → Bytes → ℤ → Act (World db) Bool
  unfolding add_insert_sql add_reuse_expired_sql cache_key is_duplicate_err
  add key value ttl w =
      let now_ms = w.now / 1000000 in
      let exp = pos ((now_ms * 1000000 + pos_part (ttl_or ttl s.ttl)) / 1000000) in
      let name = cache_key s key in
      attempt (call (db.exec (add_insert_sql s) (text name ∷ blob value ∷ int exp ∷ [])))
        (λ r. elim r [
          | ok rows ↦ pure true
          | err e ↦
              let args = blob value ∷ int exp ∷ text name ∷ int (pos now_ms) ∷ [] in
              let reuse = (do
                rows ← call (db.exec (add_reuse_expired_sql s) args)
                affected rows) in
              if is_duplicate_err e then reuse else fail e
        ])
        w

  unfoldable pub lock_release : Bytes → Bytes → Act (World db) Bool
  unfolding ph cache_key
  lock_release key owner = do
    rows ← call (
        db.exec
          (codes "DELETE FROM "
            ++ (s.table ++ (codes " WHERE k = " ++ (ph s 1 ++ (codes " AND v = " ++ ph s 2)))))
          (text (cache_key s key) ∷ blob owner ∷ []))
    affected rows

  abbrev pub number_of : Bytes → Bytes → Result ℤ
  number_of key v = elim (parse_int v) [ none ↦ err (not_numeric key) | some n ↦ ok n ]

  -- The number that an Increment counts from.
  abbrev pub counter : Bytes → Option (Bytes × ℤ) → World db → Result ℤ
  counter key none w = ok (pos 0)
  counter key (some (v, exp)) w = if ltb_ℤ exp (now_milli w) then ok (pos 0) else number_of key v

  unfoldable pub select_sql : Bytes
  unfolding ph
  select_sql =
      let base = codes "SELECT v, ea FROM " ++ (s.table ++ (codes " WHERE k = " ++ ph s 1)) in
      if is_postgres s.driver_name || is_mysql s.driver_name
      then base ++ codes " FOR UPDATE"
      else base

  abbrev count_from : Bytes → Option (Bytes × ℤ) → Act (World db) ℤ
  count_from key row w = (counter key row w, w)

  -- The transaction of Increment, before its deferred Rollback.
  unfoldable pub count_in_tx : Bytes → ℤ → ℤ → Act (World db) ℤ
  unfolding select_sql cache_key set
  count_in_tx key delta ttl = do
    row ← call (db.query_row select_sql (text (cache_key s key) ∷ []))
    current ← count_from key row
    set key (format_int (add64 current delta)) ttl
    call db.commit
    pure (add64 current delta)

  abbrev pub rolled_back : {A : Type 0} → Act (World db) A → Act (World db) A
  rolled_back act w = let r = act w in (r.0, record r.1 { state = db.rollback r.1.state })

  unfoldable pub increment : Bytes → ℤ → ℤ → Act (World db) ℤ
  unfolding count_in_tx
  increment key delta ttl = do call db.begin; rolled_back (count_in_tx key delta ttl)

  unfoldable pub decrement : Bytes → ℤ → ℤ → Act (World db) ℤ
  unfolding increment
  decrement key delta ttl = increment key (neg64 delta) ttl
