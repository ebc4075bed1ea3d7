-- ===== src/Sql/Opening.antt =====
-- New of driver/sqlcore/store.go: the schema, the prepared statements and the name of the table.
use cache.Prelude.{
  ℕ, Bool, true, false, ◌&&◌, ◌||◌, Option, none, some, List, [], ◌∷◌, ◌++◌, Bytes, codes, equal,
  leb, ◌==◌, if◌then◌else◌,
}
use cache.Store.{
  Error, Result, ok, err, Act, pure, fail, lift, continue, ◌>>=◌, ◌>>◌, Store, BaseConfig, ttl_or,
}
use cache.Store
use cache.Inspect.{trim_space}
use cache.Shaping.Value.{Gzip}
use cache.Shaping.Envelope.{Crypto}
use cache.Shaping.Wrap.{wrap_store, validate_base_config}
use cache.Sql.Server.{Database}
use cache.Sql.{
  SqlStore, World, is_postgres, is_mysql, default_ttl, default_prefix, default_table, get_sql,
  upsert_sql, add_insert_sql, add_reuse_expired_sql, delete_sql, flush_sql, call,
}
use cache.Sql.Inspection.{sql_store}

abbrev pub is_letter : ℕ → Bool
is_letter c = leb 65 c && leb c 90 || leb 97 c && leb c 122 || c == b'_'

abbrev pub is_word : ℕ → Bool
is_word c = is_letter c || leb 48 c && leb c 57

abbrev pub all_words : Bytes → Bool
all_words [] = true
all_words (c ∷ s) = is_word c && all_words s

-- ^[A-Za-z_][A-Za-z0-9_]*$
unfoldable pub is_ident_part : Bytes → Bool
is_ident_part [] = false
is_ident_part (c ∷ s) = is_letter c && all_words s

abbrev pub begin_part : ℕ → List Bytes → List Bytes
begin_part c [] = (c ∷ []) ∷ []
begin_part c (part ∷ parts) = (c ∷ part) ∷ parts

-- strings.Split at the dots.
unfoldable pub split_dots : Bytes → List Bytes
split_dots [] = [] ∷ []
split_dots (c ∷ s) = let rest = split_dots s in if c == b'.' then [] ∷ rest else begin_part c rest

abbrev pub all_parts : List Bytes → Bool
all_parts [] = true
all_parts (part ∷ parts) = is_ident_part part && all_parts parts

unfoldable pub validate_sql_table_name : Bytes → Result (Unit {0})
unfolding split_dots is_ident_part trim_space
validate_sql_table_name name =
    if equal (trim_space name) []
    then err (Store.text "sql table name is required")
    else if all_parts (split_dots name)
    then ok tt
    else err (Store.message (codes "invalid sql table name " ++ name))

unfoldable pub schema_sql : SqlStore → Bytes
schema_sql s =
    codes "CREATE TABLE IF NOT EXISTS "
    ++ (s.table
        ++ (if is_postgres s.driver_name
            then codes
                " (\n\t\t\tk TEXT PRIMARY KEY,\n\t\t\tv BYTEA NOT NULL,\n\t\t\tea BIGINT NOT NULL\n\t\t);"
            else if is_mysql s.driver_name
            then codes " (\n\t\t\tk VARBINARY(255) PRIMARY KEY,\n\t\t\tv LONGBLOB NOT NULL,\n"
              ++ codes "\t\t\tea BIGINT NOT NULL\n\t\t) ENGINE=InnoDB;"
            else codes
                " (\n\t\t\tk TEXT PRIMARY KEY,\n\t\t\tv BLOB NOT NULL,\n\t\t\tea INTEGER NOT NULL\n\t\t);"))

module _ (db : Database) (s : SqlStore) where
  unfoldable pub ensure_schema : Act (World db) (Unit {0})
  unfolding schema_sql
  ensure_schema = do call db s (db.exec (schema_sql s) []); pure tt

  unfoldable pub prepare_statements : Act (World db) (Unit {0})
  unfolding get_sql upsert_sql add_insert_sql add_reuse_expired_sql delete_sql flush_sql
  prepare_statements = do
    call db s (db.prepare (get_sql s))
    call db s (db.prepare (upsert_sql s))
    call db s (db.prepare (add_insert_sql s))
    call db s (db.prepare (add_reuse_expired_sql s))
    call db s (db.prepare (delete_sql s))
    call db s (db.prepare (flush_sql s))

abbrev or_default : Bytes → Bytes → Bytes
or_default fallback [] = fallback
or_default fallback (c ∷ rest) = c ∷ rest

-- Config of the SQL store.
pub record SqlConfig : Type 0 where
  pub base : BaseConfig
  pub driver_name : Bytes
  pub dsn : Bytes
  pub table : Bytes

-- Config of the drivers for SQLite, MySQL and PostgreSQL, and what their New passes on.
pub record DriverConfig : Type 0 where
  pub base : BaseConfig
  pub dsn : Bytes
  pub table : Bytes

abbrev named : Bytes → DriverConfig → SqlConfig
named driver cfg = record {
  base = cfg.base;
  driver_name = driver;
  dsn = cfg.dsn;
  table = cfg.table;
}

unfoldable pub sqlite_config : DriverConfig → SqlConfig
sqlite_config cfg = named (codes "sqlite") cfg

unfoldable pub mysql_config : DriverConfig → SqlConfig
mysql_config cfg = named (codes "mysql") cfg

unfoldable pub postgres_config : DriverConfig → SqlConfig
postgres_config cfg = named (codes "pgx") cfg

abbrev with_table : SqlConfig → Bytes → SqlStore
with_table cfg table = record {
  table = table;
  driver_name = cfg.driver_name;
  prefix = or_default default_prefix cfg.base.prefix;
  ttl = ttl_or cfg.base.default_ttl default_ttl;
}

abbrev wrapped : {W : Type 0} → Store W × Option Error → Result (Store W)
wrapped (store, none) = ok store
wrapped (store, some e) = err e

abbrev checked : Option Error → Result (Unit {0})
checked none = ok tt
checked (some e) = err e

-- New, of which `opened` is the answer of sql.Open.
unfoldable pub new_sql_store :
    (db : Database)
    → (ℕ → Act (World db) Bytes)
    → Gzip
    → Crypto
    → SqlConfig
    → Result (Unit {0})
    → Act (World db) (Store (World db))
unfolding validate_sql_table_name ensure_schema prepare_statements sql_store wrap_store
new_sql_store db read_random gzip crypto cfg opened =
    let table = or_default default_table cfg.table in
    let s = with_table cfg table in
    do
      lift (checked (validate_base_config cfg.base))
      (if equal cfg.driver_name [] || equal cfg.dsn []
          then fail (Store.text "sql driver requires driver name and dsn")
          else pure tt)
      lift opened
      call db s db.ping
      lift (validate_sql_table_name table)
      ensure_schema db s
      prepare_statements db s
      lift (wrapped (wrap_store read_random gzip crypto (sql_store db s) cfg.base))
