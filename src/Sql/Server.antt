-- ===== src/Sql/Server.antt =====
-- The part of database/sql that driver/sqlcore/store.go calls, over one database, and what the
-- documentation of the servers promises of the statements that the store sends.
use cache.Prelude.{
  ℕ, zero, suc, pos, length, ◌≡◌, true, Option, none, some, List, [], ◌∷◌, ◌++◌, Bytes, codes, Bool,
  All, contains, equal, ltb_ℤ, ℤ, if◌then◌else◌,
}
use cache.Decimal.{format_int}
use cache.Store.{Error, Result, ok, err, Act}
use cache.Store.Contract.{member}

-- An argument of a statement: a string, a []byte or an integer.
pub data Value : Type 0 where
  text blob : Bytes → Value
  int : ℤ → Value

pub record Row : Type 0 where
  pub key : Bytes
  pub value : Bytes
  pub ends : ℤ

-- sql.ErrNoRows is `none`. An Exec gives what RowsAffected says of it, and a Query the rows or the
-- errors of their Scan, and what Err says after them. `error_text` is the Error method of an error.
-- Statements of a transaction are those between `begin` and `commit`.
pub record Database : Type 1 where
  pub State : Type 0
  pub ping : Act State (Unit {0})
  pub prepare : Bytes → Act State (Unit {0})
  pub exec : Bytes → List Value → Act State (Result ℕ)
  pub query_row : Bytes → List Value → Act State (Option (Bytes × ℤ))
  pub query : Bytes → List Value → Act State (List (Result Row) × Option Error)
  pub begin : Act State (Unit {0})
  pub commit : Act State (Unit {0})
  pub rollback : State → State
  pub error_text : Error → Bytes

pub data Dialect : Type 0 where
  postgres mysql sqlite : Dialect

-- The statements, as each server is sent them.
module _ (table : Bytes) where
  abbrev pub select_text : Dialect → Bytes
  select_text postgres = codes "SELECT v, ea FROM " ++ (table ++ codes " WHERE k = $1")
  select_text d = codes "SELECT v, ea FROM " ++ (table ++ codes " WHERE k = ?")

  abbrev pub locking_text : Dialect → Bytes
  locking_text postgres = codes "SELECT v, ea FROM " ++ (table ++ codes " WHERE k = $1 FOR UPDATE")
  locking_text mysql = codes "SELECT v, ea FROM " ++ (table ++ codes " WHERE k = ? FOR UPDATE")
  locking_text sqlite = codes "SELECT v, ea FROM " ++ (table ++ codes " WHERE k = ?")

  abbrev pub upsert_text : Dialect → Bytes
  upsert_text postgres =
      codes "INSERT INTO "
      ++ (table
          ++ codes " (k, v, ea) VALUES ($1, $2, $3) ON CONFLICT (k) DO UPDATE SET v = $4, ea = $5")
  upsert_text mysql =
      codes "INSERT INTO "
      ++ (table ++ codes " (k, v, ea) VALUES (?, ?, ?) ON DUPLICATE KEY UPDATE v = ?, ea = ?")
  upsert_text sqlite =
      codes "INSERT INTO "
      ++ (table ++ codes " (k, v, ea) VALUES (?, ?, ?) ON CONFLICT(k) DO UPDATE SET v = ?, ea = ?")

  abbrev pub insert_text : Dialect → Bytes
  insert_text postgres = codes "INSERT INTO " ++ (table ++ codes " (k, v, ea) VALUES ($1, $2, $3)")
  insert_text d = codes "INSERT INTO " ++ (table ++ codes " (k, v, ea) VALUES (?, ?, ?)")

  abbrev pub reuse_text : Dialect → Bytes
  reuse_text postgres =
      codes "UPDATE " ++ (table ++ codes " SET v = $1, ea = $2 WHERE k = $3 AND ea < $4")
  reuse_text d = codes "UPDATE " ++ (table ++ codes " SET v = ?, ea = ? WHERE k = ? AND ea < ?")

  abbrev pub delete_text : Dialect → Bytes
  delete_text postgres = codes "DELETE FROM " ++ (table ++ codes " WHERE k = $1")
  delete_text d = codes "DELETE FROM " ++ (table ++ codes " WHERE k = ?")

  abbrev pub owned_text : Dialect → Bytes
  owned_text postgres = codes "DELETE FROM " ++ (table ++ codes " WHERE k = $1 AND v = $2")
  owned_text d = codes "DELETE FROM " ++ (table ++ codes " WHERE k = ? AND v = ?")

  abbrev pub marker : Dialect → ℕ → Bytes
  marker postgres i = b'$' ∷ format_int (pos i)
  marker d i = b'?' ∷ []

  -- As many placeholders, from the one with this number on.
  abbrev pub markers : Dialect → ℕ → ℕ → Bytes
  markers d i zero = []
  markers d i (suc zero) = marker d i
  markers d i (suc (suc n)) = marker d i ++ b',' ∷ markers d (suc i) (suc n)

  abbrev pub delete_in_text : Dialect → ℕ → Bytes
  delete_in_text d n =
      codes "DELETE FROM " ++ (table ++ (codes " WHERE k IN (" ++ (markers d 1 n ++ codes ")")))

  abbrev pub clear_text : Bytes
  clear_text = codes "DELETE FROM " ++ table

-- What the error of a second row of a key says.
abbrev pub duplicate_text : Dialect → Bytes
duplicate_text postgres = codes "duplicate key value"
duplicate_text mysql = codes "Duplicate entry"
duplicate_text sqlite = codes "UNIQUE constraint failed"

abbrev pub Rows : Type 0
Rows = Bytes → Option (Bytes × ℤ)

module _ (db : Database) (rows : db.State → Rows) where
  -- A write of so many rows.
  abbrev pub Leaves : ℕ → Rows → Result (Result ℕ) × db.State → Type 0
  Leaves n after r = (r.0 ≡ ok (ok n)) × ((j : Bytes) → rows r.1 j ≡ after j)

  abbrev pub with_row : Bytes → Option (Bytes × ℤ) → Rows → Rows
  with_row k o m j = if equal k j then o else m j

  abbrev pub without_rows : List Bytes → Rows → Rows
  without_rows ks m j = if member j ks then none else m j

  abbrev pub texts : List Bytes → List Value
  texts [] = []
  texts (k ∷ ks) = text k ∷ texts ks

  -- A database that is up and that nobody else writes: `rows` is the table. `admits` tells the keys
  -- that its column takes, which has 255 bytes in MySQL and is a text without NUL in PostgreSQL; the
  -- columns of the value and of the end take all that the store gives them.
  pub record DatabaseLaws (table : Bytes) (d : Dialect) : Type 0 where
    pub admits : Bytes → Bool
    pub row-admitted :
        (k : Bytes) (s : db.State) (old : Bytes × ℤ) → rows s k ≡ some old → admits k ≡ true
    pub select :
        (k : Bytes) (s : db.State)
        → admits k ≡ true
        → db.query_row (select_text table d) (text k ∷ []) s ≡ (ok (rows s k), s)
    pub select_locking :
        (k : Bytes) (s : db.State)
        → admits k ≡ true
        → db.query_row (locking_text table d) (text k ∷ []) s ≡ (ok (rows s k), s)
    pub upsert :
        (k v : Bytes) (e : ℤ) (s : db.State)
        → admits k ≡ true
        → (n : ℕ) × Leaves n
            (with_row k (some (v, e)) (rows s))
            (db.exec (upsert_text table d) (text k ∷ blob v ∷ int e ∷ blob v ∷ int e ∷ []) s)
    pub insert_new :
        (k v : Bytes) (e : ℤ) (s : db.State)
        → admits k ≡ true
        → rows s k ≡ none
        → Leaves 1
            (with_row k (some (v, e)) (rows s))
            (db.exec (insert_text table d) (text k ∷ blob v ∷ int e ∷ []) s)
    pub insert_duplicate :
        (k v : Bytes) (e : ℤ) (s : db.State) (old : Bytes × ℤ)
        → rows s k ≡ some old
        → (x : Error) × (db.exec (insert_text table d) (text k ∷ blob v ∷ int e ∷ []) s
            ≡ (err x, s))
          × (contains (db.error_text x) (duplicate_text d) ≡ true)
    pub reuse :
        (k v : Bytes) (e now : ℤ) (s : db.State) (old : Bytes × ℤ)
        → rows s k ≡ some old
        → Leaves
            (if ltb_ℤ old.1 now then 1 else 0)
            (if ltb_ℤ old.1 now then with_row k (some (v, e)) (rows s) else rows s)
            (db.exec (reuse_text table d) (blob v ∷ int e ∷ text k ∷ int now ∷ []) s)
    pub delete_row :
        (k : Bytes) (s : db.State)
        → admits k ≡ true
        → (n : ℕ) × Leaves n
            (with_row k none (rows s))
            (db.exec (delete_text table d) (text k ∷ []) s)
    pub delete_missing :
        (k v : Bytes) (s : db.State)
        → admits k ≡ true
        → rows s k ≡ none
        → Leaves 0 (rows s) (db.exec (owned_text table d) (text k ∷ blob v ∷ []) s)
    pub delete_owned :
        (k v : Bytes) (s : db.State) (old : Bytes × ℤ)
        → rows s k ≡ some old
        → Leaves
            (if equal old.0 v then 1 else 0)
            (if equal old.0 v then with_row k none (rows s) else rows s)
            (db.exec (owned_text table d) (text k ∷ blob v ∷ []) s)
    pub delete_in :
        (k : Bytes) (ks : List Bytes) (s : db.State)
        → All (λ j. admits j ≡ true) (k ∷ ks)
        → (n : ℕ) × Leaves n
            (without_rows (k ∷ ks) (rows s))
            (db.exec (delete_in_text table d (length (k ∷ ks))) (texts (k ∷ ks)) s)
    pub clear : (s : db.State) → (n : ℕ) × Leaves n (λ j. none) (db.exec (clear_text table) [] s)
    pub begins :
        (s : db.State) → ((db.begin s).0 ≡ ok tt) × ((j : Bytes) → rows (db.begin s).1 j ≡ rows s j)
    pub commits :
        (s : db.State)
        → ((db.commit s).0 ≡ ok tt)
          × ((j : Bytes) → rows (db.rollback (db.commit s).1) j ≡ rows s j)
    pub rolls_back : (s : db.State) (j : Bytes) → rows (db.rollback (db.begin s).1) j ≡ rows s j
