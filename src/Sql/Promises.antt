-- ===== src/Sql/Promises.antt =====
-- What a command gets from the store of driver/sqlcore/store.go, over a database that is up and that
-- nobody else writes: reads and writes of one key.
use cache.Prelude.{
  ℕ, ◌+◌, ◌*◌, ◌/◌, ◌≡◌, inl, inr, refl, Bool, true, false, none, some, [], ◌∷◌, arith, Bytes, ℤ,
  pos, pos_part,
}
use cache.Store.{Result, ok, ttl_or}
use cache.Store.Contract.{Command, Reply, found, done, flag, exec}
use cache.Store.Spec.{Table, assign, assign_absent, spec_step}
use cache.Sql.Server.{
  Database, text, blob, int, Rows, DatabaseLaws, upsert_text, insert_text, reuse_text, delete_text,
  clear_text,
}
use cache.Sql.{SqlStore, cache_key, expiry, get, set, add, delete, flush_sql}
use cache.Sql.Inspection.{sql_store, flush}
use cache.Sql.Dialects.{
  dialect, get_sql_lem, upsert_sql_lem, add_insert_sql_lem, add_reuse_expired_sql_lem,
  delete_sql_lem, is_duplicate_err_lem,
}
use cache.Sql.Table.{at, IsCurrent, Holds, change-Holds, same-Holds}

module _ (db : Database) (rows : db.State → Rows) (s : SqlStore)
    (laws : DatabaseLaws db rows s.table (dialect s)) (now : ℕ) where
  pub record Refines (c : Command) (st : db.State) (m : Table) : Type 0 where
    pub reply : Result Reply
    pub table : Table
    pub state : db.State
    pub promised : spec_step c m ≡ (reply, table)
    pub does :
        exec (sql_store db s) c (at db rows s laws now st) ≡ (reply, at db rows s laws now state)
    pub keeps : Holds db rows s laws now state table

  pub get-Refines :
      (k : Bytes) (st : db.State) (m : Table)
      → laws.admits (cache_key s k) ≡ true
      → Holds db rows s laws now st m
      → Refines (Command.get k) st m
  unfolding exec sql_store get spec_step
  get-Refines k st m named h =
      let selected = laws.select (cache_key s k) st named in
      record {
        reply = ok (found (m k));
        table = m;
        state = st;
        promised = refl;
        does = elim (h.at_key k) [
          | inl (free, absent) ↦ ground (arith, get_sql_lem s, selected, free, absent)
          | inr (v, e, row, value, alive) ↦
              ground (arith, get_sql_lem s, selected, row, value, alive)
        ];
        keeps = h;
      }

  pub expiry-IsCurrent :
      (t : ℤ) (st : db.State)
      → IsCurrent db rows s laws now (expiry db s t (at db rows s laws now st))
  expiry-IsCurrent t st = ground arith

  pub set-Refines :
      (k v : Bytes) (t : ℤ) (st : db.State) (m : Table)
      → laws.admits (cache_key s k) ≡ true
      → Holds db rows s laws now st m
      → Refines (Command.set k v t) st m
  unfolding exec sql_store set spec_step
  set-Refines k v t st m named h =
      let e = expiry db s t (at db rows s laws now st) in
      let (n, wrote) = laws.upsert (cache_key s k) v e st named in
      let args = text (cache_key s k) ∷ blob v ∷ int e ∷ blob v ∷ int e ∷ [] in
      record {
        reply = ok done;
        table = assign k (some v) m;
        state = (db.exec (upsert_text s.table (dialect s)) args st).1;
        promised = refl;
        does = ground (arith, upsert_sql_lem s, wrote.0);
        keeps =
            change-Holds db rows s laws now k (some (v, e)) (some v) n st m
              (db.exec (upsert_text s.table (dialect s)) args st)
              (inr (v, e, refl, refl, expiry-IsCurrent t st)) h wrote;
      }

  pub delete-Refines :
      (k : Bytes) (st : db.State) (m : Table)
      → laws.admits (cache_key s k) ≡ true
      → Holds db rows s laws now st m
      → Refines (Command.delete k) st m
  unfolding exec sql_store delete spec_step
  delete-Refines k st m named h =
      let (n, wrote) = laws.delete_row (cache_key s k) st named in
      let r = db.exec (delete_text s.table (dialect s)) (text (cache_key s k) ∷ []) st in
      record {
        reply = ok done;
        table = assign k none m;
        state = r.1;
        promised = refl;
        does = ground (arith, delete_sql_lem s, wrote.0);
        keeps = change-Holds db rows s laws now k none none n st m r (inl (refl, refl)) h wrote;
      }

  pub flush-Refines : (st : db.State) (m : Table) → Refines Command.flush st m
  unfolding exec sql_store flush flush_sql spec_step
  flush-Refines st m =
      let (n, wrote) = laws.clear st in
      record {
        reply = ok done;
        table = λ j. none;
        state = (db.exec (clear_text s.table) [] st).1;
        promised = refl;
        does = ground (arith, wrote.0);
        keeps = record { at_key = λ j. inl (wrote.1 (cache_key s j), refl) };
      }

  -- The end that Add gives a row.
  abbrev add_end : ℤ → ℤ
  add_end t = pos ((now / 1000000 * 1000000 + pos_part (ttl_or t s.ttl)) / 1000000)

  add_end-IsCurrent : (t : ℤ) → IsCurrent db rows s laws now (add_end t)
  add_end-IsCurrent t = ground arith

  pub record Added (k v : Bytes) (t : ℤ) (st : db.State) (m : Table) : Type 0 where
    pub answer : Bool
    pub table : Table
    pub state : db.State
    pub promised : assign_absent k v (m k) m ≡ (ok (flag answer), table)
    pub does : add db s k v t (at db rows s laws now st) ≡ (ok answer, at db rows s laws now state)
    pub keeps : Holds db rows s laws now state table

  pub add_lem :
      (k v : Bytes) (t : ℤ) (st : db.State) (m : Table)
      → laws.admits (cache_key s k) ≡ true
      → Holds db rows s laws now st m
      → Added k v t st m
  unfolding add
  add_lem k v t st m named h =
      let name = cache_key s k in
      let e = add_end t in
      let r = db.exec (insert_text s.table (dialect s)) (text name ∷ blob v ∷ int e ∷ []) st in
      elim (h.at_key k) [
        | inl (free, absent) ↦
            let wrote = laws.insert_new name v e st named free in
            record {
              answer = true;
              table = assign k (some v) m;
              state = r.1;
              promised = ground (arith, absent);
              does = ground (arith, add_insert_sql_lem s, wrote.0);
              keeps =
                  change-Holds db rows s laws now k (some (v, e)) (some v) 1 st m r
                    (inr (v, e, refl, refl, add_end-IsCurrent t)) h wrote;
            }
        | inr (u, f, row, value, alive) ↦
            let (x, refused, says) = laws.insert_duplicate name v e st (u, f) row in
            let q =
              db.exec (reuse_text s.table (dialect s))
                (blob v ∷ int e ∷ text name ∷ int (pos (now / 1000000)) ∷ []) st in
            let kept = laws.reuse name v e (pos (now / 1000000)) st (u, f) row in
            record {
              answer = false;
              table = m;
              state = q.1;
              promised = ground (arith, value);
              does = ground (
                arith,
                add_insert_sql_lem s,
                add_reuse_expired_sql_lem s,
                refused,
                is_duplicate_err_lem s db x says,
                kept.0,
                alive,
              );
              keeps =
                  same-Holds db rows s laws now st q.1 m (λ j. ground (arith, kept.1 j, alive)) h;
            }
      ]
