-- ===== src/Sql/Counts.antt =====
-- Locks and counters of driver/sqlcore/store.go, over a database that is up and that nobody else
-- writes.
use cache.Prelude.{
  ℕ, ◌≡◌, inl, inr, refl, true, false, none, some, [], ◌∷◌, arith, Bytes, equal, ℤ, pos, Bool-cases,
  Option-cases, add64,
}
use cache.Decimal.{parse_int, format_int}
use cache.Store.{ok, err, not_numeric}
use cache.Store.Contract.{Command, flag, number, exec}
use cache.Store.Spec.{Table, assign, counter, spec_step}
use cache.Sql.Server.{Database, text, blob, int, Rows, DatabaseLaws, upsert_text, owned_text}
use cache.Sql
use cache.Sql.{
  SqlStore, World, cache_key, expiry, get, set, add, delete, lock_release, count_in_tx, increment,
  upsert_sql, flush_sql,
}
use cache.Sql.Inspection.{sql_store}
use cache.Sql.Dialects.{dialect, upsert_sql_lem, owned_sql_lem, select_sql_lem}
use cache.Sql.Table.{at, Holds, change-Holds, same-Holds}
use cache.Sql.Promises.{Refines, add_lem, expiry-IsCurrent}

module _ (db : Database) (rows : db.State → Rows) (s : SqlStore)
    (laws : DatabaseLaws db rows s.table (dialect s)) (now : ℕ) where
  pub lock_acquire-Refines :
      (k o : Bytes) (t : ℤ) (st : db.State) (m : Table)
      → laws.admits (cache_key s k) ≡ true
      → Holds db rows s laws now st m
      → Refines db rows s laws now (Command.lock_acquire k o t) st m
  unfolding exec sql_store spec_step
  lock_acquire-Refines k o t st m named h =
      let a = add_lem db rows s laws now k o t st m named h in
      let does = a.does in
      record {
        reply = ok (flag a.answer);
        table = a.table;
        state = a.state;
        promised = a.promised;
        does = ground (arith, does);
        keeps = a.keeps;
      }

  pub add-Refines :
      (k v : Bytes) (t : ℤ) (st : db.State) (m : Table)
      → laws.admits (cache_key s k) ≡ true
      → Holds db rows s laws now st m
      → Refines db rows s laws now (Command.add k v t) st m
  unfolding exec sql_store spec_step
  add-Refines k v t st m named h =
      let a = add_lem db rows s laws now k v t st m named h in
      let does = a.does in
      record {
        reply = ok (flag a.answer);
        table = a.table;
        state = a.state;
        promised = a.promised;
        does = ground (arith, does);
        keeps = a.keeps;
      }

  pub lock_release-Refines :
      (k o : Bytes) (st : db.State) (m : Table)
      → laws.admits (cache_key s k) ≡ true
      → Holds db rows s laws now st m
      → Refines db rows s laws now (Command.lock_release k o) st m
  unfolding exec sql_store lock_release spec_step
  lock_release-Refines k o st m named h =
      let r = db.exec (owned_text s.table (dialect s)) (text (cache_key s k) ∷ blob o ∷ []) st in
      elim (h.at_key k) [
        | inl (free, absent) ↦
            let kept = laws.delete_missing (cache_key s k) o st named free in
            record {
              reply = ok (flag false);
              table = m;
              state = r.1;
              promised = ground (arith, absent);
              does = ground (arith, owned_sql_lem s, kept.0);
              keeps = same-Holds db rows s laws now st r.1 m kept.1 h;
            }
        | inr (u, f, row, value, alive) ↦
            let kept = laws.delete_owned (cache_key s k) o st (u, f) row in
            elim (Bool-cases (equal u o)) [
              | inl mine ↦ record {
                reply = ok (flag true);
                table = assign k none m;
                state = r.1;
                promised = ground (arith, value, mine);
                does = ground (arith, owned_sql_lem s, kept.0, mine);
                keeps =
                    change-Holds db rows s laws now k none none 1 st m r (inl (refl, refl)) h
                      (ground (arith, kept.0, mine), λ j. ground (arith, kept.1 j, mine));
              }
              | inr other ↦ record {
                reply = ok (flag false);
                table = m;
                state = r.1;
                promised = ground (arith, value, other);
                does = ground (arith, owned_sql_lem s, kept.0, other);
                keeps =
                    same-Holds db rows s laws now st r.1 m (λ j. ground (arith, kept.1 j, other)) h;
              }
            ]
      ]

  -- A transaction that counts from `n`.
  counted-Refines :
      (k : Bytes) (d t n : ℤ) (st : db.State) (m : Table)
      → laws.admits (cache_key s k) ≡ true
      → Holds db rows s laws now st m
      → counter (m k) ≡ some n
      → Sql.counter db s k (rows st (cache_key s k)) (at db rows s laws now st) ≡ ok n
      → Refines db rows s laws now (Command.increment k d t) st m
  unfolding exec sql_store increment set spec_step
  counted-Refines k d t n st m named h counts reads =
      let s1 = (db.begin st).1 in
      let e = expiry db s t (at db rows s laws now s1) in
      let v = format_int (add64 n d) in
      let args = text (cache_key s k) ∷ blob v ∷ int e ∷ blob v ∷ int e ∷ [] in
      let r = db.exec (upsert_text s.table (dialect s)) args s1 in
      let (j, wrote) = laws.upsert (cache_key s k) v e s1 named in
      let begun = laws.begins st in
      let selected = laws.select_locking (cache_key s k) s1 named in
      let committed = laws.commits r.1 in
      record {
        reply = ok (number (add64 n d));
        table = assign k (some v) m;
        state = db.rollback (db.commit r.1).1;
        promised = ground (arith, counts);
        does = ground (
          arith,
          begun.0,
          select_sql_lem s db,
          selected,
          begun.1 (cache_key s k),
          reads,
          upsert_sql_lem s,
          wrote.0,
          committed.0,
        );
        keeps =
            same-Holds db rows s laws now r.1 (db.rollback (db.commit r.1).1) (assign k (some v) m)
              committed.1
              (change-Holds db rows s laws now k (some (v, e)) (some v) j s1 m r
                (inr (v, e, refl, refl, expiry-IsCurrent db rows s laws now t s1))
                (same-Holds db rows s laws now st s1 m begun.1 h) wrote);
      }

  uncounted-Refines :
      (k : Bytes) (d t : ℤ) (st : db.State) (m : Table)
      → laws.admits (cache_key s k) ≡ true
      → Holds db rows s laws now st m
      → counter (m k) ≡ none
      → Sql.counter db s k (rows st (cache_key s k)) (at db rows s laws now st)
        ≡ err (not_numeric k)
      → Refines db rows s laws now (Command.increment k d t) st m
  unfolding exec sql_store increment spec_step
  uncounted-Refines k d t st m named h counts reads =
      let s1 = (db.begin st).1 in
      let begun = laws.begins st in
      let selected = laws.select_locking (cache_key s k) s1 named in
      record {
        reply = err (not_numeric k);
        table = m;
        state = db.rollback s1;
        promised = ground (arith, counts);
        does =
            ground (arith, begun.0, select_sql_lem s db, selected, begun.1 (cache_key s k), reads);
        keeps = same-Holds db rows s laws now st (db.rollback s1) m (laws.rolls_back st) h;
      }

  pub increment-Refines :
      (k : Bytes) (d t : ℤ) (st : db.State) (m : Table)
      → laws.admits (cache_key s k) ≡ true
      → Holds db rows s laws now st m
      → Refines db rows s laws now (Command.increment k d t) st m
  increment-Refines k d t st m named h = elim (h.at_key k) [
    | inl (free, absent) ↦
        counted-Refines k d t (pos 0) st m named h (ground (arith, absent)) (ground (arith, free))
    | inr (u, f, row, value, alive) ↦ elim (Option-cases (parse_int u)) [
      | inl bad ↦
          uncounted-Refines k d t st m named h (ground (arith, value, bad))
            (ground (arith, row, alive, bad))
      | inr (n, good) ↦
          counted-Refines k d t n st m named h (ground (arith, value, good))
            (ground (arith, row, alive, good))
    ]
  ]
