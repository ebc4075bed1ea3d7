-- ===== src/Tests/Sql.antt =====
-- driver/sqlcore/store.go at concrete inputs, over a table as a map that tells the statements apart
-- by their arguments.
use cache.Prelude.{
  ℕ, ◌≡◌, ◌≢◌, refl, ◌∙◌, All, true, Option, none, some, List, [], ◌∷◌, arith, Bytes, codes,
  contains, equal, equal_refl, has_prefix, Map, lookup, put, without, lookup-put, lookup-without,
  ltb_ℤ, ℤ, pos, inl, if◌then◌else◌,
}
use cache.Store.{Error, Result, ok, err, message}
use cache.Store.Contract.{
  Command, get, set, increment, lock_acquire, lock_release, delete_many, flush, run,
}
use cache.Store.Spec.{spec_run}
use cache.Sql.Server.{
  Database, Value, text, blob, int, Dialect, postgres, mysql, sqlite, duplicate_text, Rows,
  DatabaseLaws, texts, without_rows,
}
use cache.Sql.{SqlStore, cache_key}
use cache.Sql
use cache.Sql.Dialects.{dialect}
use cache.Sql.Table.{Holds, at}
use cache.Sql.Inspection.{sql_store}
use cache.Sql.Refines.{Fits, run-sql_store}
use cache.Sql.Opening.{validate_sql_table_name}
use cache.Sql.Safety.{IsPlain, validate_sql_table_name-safe, expired_row}

abbrev Items : Type 0
Items = Map (Bytes × ℤ)

abbrev duplicate : Dialect → Error
duplicate d = message (duplicate_text d)

abbrev inserted :
    Dialect → Option (Bytes × ℤ) → Bytes → Bytes → ℤ → Items → Result (Result ℕ) × Items
inserted d none k v e m = (ok (ok 1), put k (v, e) m)
inserted d (some old) k v e m = (err (duplicate d), m)

abbrev reused : Option (Bytes × ℤ) → Bytes → Bytes → ℤ → ℤ → Items → Result (Result ℕ) × Items
reused none k v e now m = (ok (ok 0), m)
reused (some old) k v e now m =
    if ltb_ℤ old.1 now then (ok (ok 1), put k (v, e) m) else (ok (ok 0), m)

abbrev released : Option (Bytes × ℤ) → Bytes → Bytes → Items → Result (Result ℕ) × Items
released none k v m = (ok (ok 0), m)
released (some old) k v m = if equal old.0 v then (ok (ok 1), without k m) else (ok (ok 0), m)

abbrev dropped : List Value → Items → Items
dropped [] m = m
dropped (text k ∷ vs) m = dropped vs (without k m)
dropped (blob v ∷ vs) m = m
dropped (int n ∷ vs) m = m

abbrev exec : Dialect → List Value → Items → Result (Result ℕ) × Items
exec d [] m = (ok (ok 0), [])
exec d (text k ∷ blob v ∷ int e ∷ blob w ∷ int f ∷ []) m = (ok (ok 1), put k (v, e) m)
exec d (text k ∷ blob v ∷ int e ∷ []) m = inserted d (lookup k m) k v e m
exec d (blob v ∷ int e ∷ text k ∷ int now ∷ []) m = reused (lookup k m) k v e now m
exec d (text k ∷ blob v ∷ []) m = released (lookup k m) k v m
exec d vs m = (ok (ok 1), dropped vs m)

abbrev selected : List Value → Items → Result (Option (Bytes × ℤ))
selected (text k ∷ []) m = ok (lookup k m)
selected vs m = ok none

abbrev database : Dialect → Database
database d = record {
  State = Items;
  ping = λ m. (ok tt, m);
  prepare = λ q m. (ok tt, m);
  exec = λ q. exec d;
  query_row = λ q vs m. (selected vs m, m);
  query = λ q vs m. (ok ([], none), m);
  begin = λ m. (ok tt, m);
  commit = λ m. (ok tt, m);
  rollback = λ m. m;
  error_text = λ x. duplicate_text d;
}

abbrev rows : Items → Rows
rows m k = lookup k m

says_duplicate : (d : Dialect) → contains (duplicate_text d) (duplicate_text d) ≡ true
unfolding contains has_prefix
says_duplicate postgres = refl
says_duplicate mysql = refl
says_duplicate sqlite = refl

lookup-dropped :
    (d : Dialect) (ks : List Bytes) (m : Items) (j : Bytes)
    → lookup j (dropped (texts (database d) rows ks) m)
      ≡ without_rows (database d) rows ks (rows m) j
lookup-dropped d [] m j = refl
lookup-dropped d (k ∷ ks) m j =
    ground (arith, lookup-dropped d ks (without k m) j, lookup-without k j m)

exec-texts :
    (d : Dialect) (k : Bytes) (ks : List Bytes) (m : Items)
    → exec d (texts (database d) rows (k ∷ ks)) m
      ≡ (ok (ok 1), dropped (texts (database d) rows (k ∷ ks)) m)
exec-texts d k [] m = refl
exec-texts d k (j ∷ ks) m = refl

laws : (d : Dialect) (table : Bytes) → DatabaseLaws (database d) rows table d
unfolding lookup
laws d table = record {
  admits = λ k. true;
  row-admitted = λ k m old h. refl;
  select = λ k m named. refl;
  select_locking = λ k m named. refl;
  upsert = λ k v e m named. (1, (refl, λ j. lookup-put k j (v, e) m));
  insert_new =
      λ k v e m named h. (ground (arith, h), λ j. ground (arith, h, lookup-put k j (v, e) m));
  insert_duplicate = λ k v e m old h. (duplicate d, ground (arith, h), says_duplicate d);
  reuse = λ k v e now m old h. (ground (arith, h), λ j. ground (arith, h, lookup-put k j (v, e) m));
  delete_row = λ k m named. (1, (refl, λ j. lookup-without k j m));
  delete_missing = λ k v m named h. (ground (arith, h), λ j. ground (arith, h));
  delete_owned = λ k v m old h. (ground (arith, h), λ j. ground (arith, h, lookup-without k j m));
  delete_in = λ k ks m named. (
    1,
    (
      ground (arith, exec-texts d k ks m),
      λ j. ground (arith, exec-texts d k ks m, lookup-dropped d (k ∷ ks) m j),
    ),
  );
  clear = λ m. (0, (refl, λ j. refl));
  begins = λ m. (refl, λ j. refl);
  commits = λ m. (refl, λ j. refl);
  rolls_back = λ m j. refl;
}

abbrev store : SqlStore
store = record {
  table = codes "cache_entries";
  driver_name = codes "pgx";
  prefix = codes "app";
  ttl = pos 60000000000;
}

abbrev db : Database
db = database (dialect store)

abbrev db_laws : DatabaseLaws db rows store.table (dialect store)
db_laws = laws (dialect store) store.table

empty-Holds : Holds db rows store db_laws 1000 [] (λ k. none)
unfolding lookup
empty-Holds = record { at_key = λ k. inl (refl, refl) }

abbrev script : List Command
script =
    set (codes "n") (codes "41") (pos 5)
    ∷ increment (codes "n") (pos 1) (pos 0)
    ∷ get (codes "n")
    ∷ lock_acquire (codes "l") (codes "me") (pos 5)
    ∷ lock_release (codes "l") (codes "you")
    ∷ delete_many (codes "n" ∷ codes "l" ∷ [])
    ∷ flush
    ∷ []

script-Fits : All (Fits db rows store db_laws 1000) script
unfolding laws
script-Fits = (refl, (refl, (refl, (refl, (refl, ((refl, (refl, tt)), (tt, tt)))))))

run-sql_store_example :
    ((run (sql_store db store) script (at db rows store db_laws 1000 [])).0
      ≡ (spec_run script (λ k. none)).0)
    × (m : Items) × ((run (sql_store db store) script (at db rows store db_laws 1000 [])).1
        ≡ at db rows store db_laws 1000 m)
    × Holds db rows store db_laws 1000 m (spec_run script (λ k. none)).1
run-sql_store_example =
    run-sql_store db rows store db_laws 1000 script [] (λ k. none) script-Fits empty-Holds

accepted : validate_sql_table_name (codes "app.cache_1") ≡ ok tt
unfolding validate_sql_table_name equal
accepted = refl

validate_sql_table_name-safe_example :
    (codes "app.cache_1" ≢ []) × All IsPlain (codes "app.cache_1")
validate_sql_table_name-safe_example = validate_sql_table_name-safe (codes "app.cache_1") accepted

abbrev old_row : Sql.World db
old_row = record {
  state = put (cache_key store (codes "k")) (codes "old", pos 1) [];
  now = 5000000;
}

expired_row_example :
    ((Sql.get db store (codes "k") old_row).0 ≡ ok none)
    × (rows (Sql.get db store (codes "k") old_row).1.state (cache_key store (codes "k")) ≡ none)
    × ((Sql.add db store (codes "k") (codes "new") (pos 7) old_row).0 ≡ ok true)
    × ((end : ℤ) × (rows
            (Sql.add db store (codes "k") (codes "new") (pos 7) old_row).1.state
            (cache_key store (codes "k"))
          ≡ some (codes "new", end)))
expired_row_example =
    expired_row db rows store db_laws (codes "k") (codes "new") (codes "old") (pos 7) (pos 1)
      old_row
      (lookup-put (cache_key store (codes "k")) (cache_key store (codes "k")) (codes "old", pos 1)
          []
        ∙ ground (arith, equal_refl (cache_key store (codes "k"))))
      refl
