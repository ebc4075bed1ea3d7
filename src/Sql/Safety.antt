-- ===== src/Sql/Safety.antt =====
-- Names of tables and rows that are past their end in driver/sqlcore/store.go.
use cache.Prelude.{
  ℕ, ◌+◌, ◌/◌, ◌≡◌, ◌≢◌, refl, ap, sym, ◌∙◌, All, Bool, true, ◌&&◌, ◌||◌, none, some, List, [], ◌∷◌,
  arith, Bytes, equal, equal_refl, ◌==◌, ltb_ℤ, ℤ, pos, pos_part, ◌*◌, Bool-cases, inl, inr,
}
use cache.Store.{ok, ttl_or}
use cache.Sql.Server.{Database, Rows, DatabaseLaws, text, blob, int, delete_text, reuse_text}
use cache.Sql.{SqlStore, World, cache_key, get, add, delete}
use cache.Sql.Dialects.{
  dialect, get_sql_lem, add_insert_sql_lem, add_reuse_expired_sql_lem, delete_sql_lem,
  is_duplicate_err_lem,
}
use cache.Sql.Opening.{
  validate_sql_table_name, split_dots, is_ident_part, is_word, all_words, all_parts, begin_part,
}

-- A letter, a digit, an underscore or a dot.
abbrev pub IsPlain : ℕ → Type 0
IsPlain c = (is_word c || c == b'.') ≡ true

abbrev wordy : List Bytes → Bool
wordy [] = true
wordy (part ∷ parts) = all_words part && wordy parts

parts-wordy : (parts : List Bytes) → all_parts parts ≡ true → wordy parts ≡ true
unfolding is_ident_part
parts-wordy [] h = refl
parts-wordy ([] ∷ parts) h = ground (arith, h)
parts-wordy ((c ∷ part) ∷ parts) h = ground (arith, parts-wordy parts)

begin_part-wordy :
    (c : ℕ) (parts : List Bytes)
    → wordy (begin_part c parts) ≡ true
    → (is_word c ≡ true) × (wordy parts ≡ true)
begin_part-wordy c [] h = (ground arith, refl)
begin_part-wordy c (part ∷ parts) h = (ground arith, ground arith)

split_dots-All : (s : Bytes) → wordy (split_dots s) ≡ true → All IsPlain s
unfolding split_dots
split_dots-All [] h = tt
split_dots-All (c ∷ s) h = elim (Bool-cases (c == b'.')) [
  | inl dot ↦ (ground arith, split_dots-All s (ground arith))
  | inr other ↦
      let (word, rest) = begin_part-wordy c (split_dots s) (ground arith) in
      (ground arith, split_dots-All s rest)
]

no_empty_name : validate_sql_table_name [] ≢ ok tt
unfolding validate_sql_table_name equal
no_empty_name h = ground (arith, h)

-- A table name that is accepted is not empty and has nothing but letters, digits, underscores and
-- dots, so no statement that it is put into ends early or gains a clause.
pub validate_sql_table_name-safe :
    (name : Bytes) → validate_sql_table_name name ≡ ok tt → (name ≢ []) × All IsPlain name
unfolding validate_sql_table_name
validate_sql_table_name-safe name h = elim (Bool-cases (all_parts (split_dots name))) [
  | inl good ↦ (
    λ empty. no_empty_name (ap validate_sql_table_name (sym empty) ∙ h),
    split_dots-All name (parts-wordy (split_dots name) good),
  )
  | inr bad ↦ absurd (ground (arith, h, bad))
]

module _ (db : Database) (rows : db.State → Rows) (s : SqlStore)
    (laws : DatabaseLaws db rows s.table (dialect s)) where
  expired_get :
      (k w : Bytes) (e : ℤ) (st : World db)
      → rows st.state (cache_key s k) ≡ some (w, e)
      → ltb_ℤ e (pos (st.now / 1000000)) ≡ true
      → ((get db s k st).0 ≡ ok none) × (rows (get db s k st).1.state (cache_key s k) ≡ none)
  unfolding get delete
  expired_get k w e st row past =
      let name = cache_key s k in
      let named = laws.row-admitted name st.state (w, e) row in
      let selected = laws.select name st.state named in
      let (n, deleted) = laws.delete_row name st.state named in
      let r = db.exec (delete_text s.table (dialect s)) (text name ∷ []) st.state in
      let gets : get db s k st ≡ (ok none, record st { state = r.1 }) =
        ground (arith, get_sql_lem s, selected, row, past, delete_sql_lem s) in
      (ground (arith, gets), ground (arith, gets, deleted.1 name, equal_refl name))

  expired_add :
      (k v w : Bytes) (t e : ℤ) (st : World db)
      → rows st.state (cache_key s k) ≡ some (w, e)
      → ltb_ℤ e (pos (st.now / 1000000)) ≡ true
      → ((add db s k v t st).0 ≡ ok true)
        × ((end : ℤ) × (rows (add db s k v t st).1.state (cache_key s k) ≡ some (v, end)))
  unfolding add
  expired_add k v w t e st row past =
      let name = cache_key s k in
      let now_ms = st.now / 1000000 in
      let end = pos ((now_ms * 1000000 + pos_part (ttl_or t s.ttl)) / 1000000) in
      let (x, refused, says) = laws.insert_duplicate name v end st.state (w, e) row in
      let kept = laws.reuse name v end (pos now_ms) st.state (w, e) row in
      let r =
        db.exec (reuse_text s.table (dialect s))
          (blob v ∷ int end ∷ text name ∷ int (pos now_ms) ∷ []) st.state in
      let adds : add db s k v t st ≡ (ok true, record st { state = r.1 }) = ground (
        arith,
        add_insert_sql_lem s,
        add_reuse_expired_sql_lem s,
        refused,
        is_duplicate_err_lem s db x says,
        kept.0,
        past,
      ) in
      (ground (arith, adds), (end, ground (arith, adds, kept.1 name, past, equal_refl name)))

  -- Over a database that is up and that nobody else writes, a row that is past its end is a miss for
  -- Get, which removes it, and Add takes it over with the new value.
  pub expired_row :
      (k v w : Bytes) (t e : ℤ) (st : World db)
      → rows st.state (cache_key s k) ≡ some (w, e)
      → ltb_ℤ e (pos (st.now / 1000000)) ≡ true
      → ((get db s k st).0 ≡ ok none)
        × (rows (get db s k st).1.state (cache_key s k) ≡ none)
        × ((add db s k v t st).0 ≡ ok true)
        × ((end : ℤ) × (rows (add db s k v t st).1.state (cache_key s k) ≡ some (v, end)))
  expired_row k v w t e st row past =
      let (misses, removed) = expired_get k w e st row past in
      let (adds, replaced) = expired_add k v w t e st row past in (misses, removed, adds, replaced)
