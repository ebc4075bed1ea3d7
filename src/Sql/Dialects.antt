-- ===== src/Sql/Dialects.antt =====
-- The statements that driver/sqlcore/store.go builds are those of the three servers.
use mathlib.Core.List.{append_assoc}
use mathlib.Core.Path.{ap₂}
use cache.Sql.Inspection.{placeholders, delete_many_sql}
use cache.Prelude.{
  length, ℕ, suc, ◌≡◌, refl, ap, true, false, List, [], ◌∷◌, ◌++◌, arith, Bytes, codes, contains,
  if◌then◌else◌, Bool-cases, inl, inr,
}
use cache.Decimal.{format_int}
use cache.Store.{Error}
use cache.Sql.Server.{
  Database, Dialect, postgres, mysql, sqlite, select_text, locking_text, upsert_text, insert_text,
  reuse_text, delete_text, owned_text, duplicate_text, marker, markers, delete_in_text,
}
use cache.Sql.{
  SqlStore, is_postgres, is_mysql, ph, get_sql, select_sql, upsert_sql, add_insert_sql,
  add_reuse_expired_sql, delete_sql, is_duplicate_err,
}

module _ (s : SqlStore) where
  abbrev pub dialect : Dialect
  dialect =
      if is_postgres s.driver_name
      then postgres
      else if is_mysql s.driver_name
      then mysql
      else sqlite

  data Kind : Type 0 where
    is_pg : is_postgres s.driver_name ≡ true → Kind
    is_my : is_postgres s.driver_name ≡ false → is_mysql s.driver_name ≡ true → Kind
    is_lite : is_postgres s.driver_name ≡ false → is_mysql s.driver_name ≡ false → Kind

  kind : Kind
  kind = elim (Bool-cases (is_postgres s.driver_name)) [
    | inl pg ↦ is_pg pg
    | inr other ↦ elim (Bool-cases (is_mysql s.driver_name)) [
      | inl my ↦ is_my other my
      | inr lite ↦ is_lite other lite
    ]
  ]

  pub get_sql_lem : get_sql s ≡ select_text s.table dialect
  unfolding get_sql format_int
  get_sql_lem = elim kind [
    | is_pg p ↦ rw p refl
    | is_my p q ↦ rw (p, q) refl
    | is_lite p q ↦ rw (p, q) refl
  ]

  pub upsert_sql_lem : upsert_sql s ≡ upsert_text s.table dialect
  unfolding upsert_sql format_int
  upsert_sql_lem = elim kind [
    | is_pg p ↦ rw p refl
    | is_my p q ↦ rw (p, q) refl
    | is_lite p q ↦ rw (p, q) refl
  ]

  pub add_insert_sql_lem : add_insert_sql s ≡ insert_text s.table dialect
  unfolding add_insert_sql format_int
  add_insert_sql_lem = elim kind [
    | is_pg p ↦ rw p refl
    | is_my p q ↦ rw (p, q) refl
    | is_lite p q ↦ rw (p, q) refl
  ]

  pub add_reuse_expired_sql_lem : add_reuse_expired_sql s ≡ reuse_text s.table dialect
  unfolding add_reuse_expired_sql format_int
  add_reuse_expired_sql_lem = elim kind [
    | is_pg p ↦ rw p refl
    | is_my p q ↦ rw (p, q) refl
    | is_lite p q ↦ rw (p, q) refl
  ]

  pub delete_sql_lem : delete_sql s ≡ delete_text s.table dialect
  unfolding delete_sql format_int
  delete_sql_lem = elim kind [
    | is_pg p ↦ rw p refl
    | is_my p q ↦ rw (p, q) refl
    | is_lite p q ↦ rw (p, q) refl
  ]

  pub owned_sql_lem :
      codes "DELETE FROM "
        ++ (s.table ++ (codes " WHERE k = " ++ (ph s 1 ++ (codes " AND v = " ++ ph s 2))))
      ≡ owned_text s.table dialect
  unfolding ph format_int
  owned_sql_lem = elim kind [
    | is_pg p ↦ rw p refl
    | is_my p q ↦ rw (p, q) refl
    | is_lite p q ↦ rw (p, q) refl
  ]

  pub select_sql_lem : (db : Database) → select_sql db s ≡ locking_text s.table dialect
  unfolding select_sql format_int
  select_sql_lem db = elim kind [
    | is_pg p ↦ rw p (
        ap (λ (x : Bytes). codes "SELECT v, ea FROM " ++ x)
          (append_assoc s.table (codes " WHERE k = $1") (codes " FOR UPDATE")))
    | is_my p q ↦
        rw (p, q)
          (ap (λ (x : Bytes). codes "SELECT v, ea FROM " ++ x)
            (append_assoc s.table (codes " WHERE k = ?") (codes " FOR UPDATE")))
    | is_lite p q ↦ rw (p, q) refl
  ]

  -- The error of a second row is told apart from others.
  pub is_duplicate_err_lem :
      (db : Database) (x : Error)
      → contains (db.error_text x) (duplicate_text dialect) ≡ true
      → is_duplicate_err db s x ≡ true
  unfolding is_duplicate_err
  is_duplicate_err_lem db x h = elim kind [
    | is_pg p ↦ ground (arith, p, h)
    | is_my p q ↦ ground (arith, p, q, h)
    | is_lite p q ↦ ground (arith, p, q, h)
  ]

  ph_lem : (i : ℕ) → ph s i ≡ marker s.table dialect i
  unfolding ph
  ph_lem i = elim kind [
    | is_pg p ↦ rw p refl
    | is_my p q ↦ rw (p, q) refl
    | is_lite p q ↦ rw (p, q) refl
  ]

  placeholders_lem :
      (db : Database) (i : ℕ) (ks : List Bytes)
      → placeholders db s i ks ≡ markers s.table dialect i (length ks)
  placeholders_lem db i [] = refl
  placeholders_lem db i (k ∷ []) = ph_lem i
  placeholders_lem db i (k ∷ j ∷ ks) =
      ap₂ (λ (x y : Bytes). x ++ b',' ∷ y) (ph_lem i) (placeholders_lem db (suc i) (j ∷ ks))

  pub delete_many_sql_lem :
      (db : Database) (ks : List Bytes)
      → delete_many_sql db s ks ≡ delete_in_text s.table dialect (length ks)
  unfolding delete_many_sql
  delete_many_sql_lem db ks =
      ap
        (λ (x : Bytes).
          codes "DELETE FROM " ++ (s.table ++ (codes " WHERE k IN (" ++ (x ++ codes ")"))))
        (placeholders_lem db 1 ks)
