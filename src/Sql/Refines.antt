-- ===== src/Sql/Refines.antt =====
-- The store of driver/sqlcore/store.go implements the abstract store.
use cache.Prelude.{
  ℕ, length, map, suc, ◌≡◌, inl, inr, refl, ap, All, true, none, List, [], ◌∷◌, arith, Bytes, ℤ,
  if◌then◌else◌, Bool-cases, neg64,
}
use cache.Store.{Result, ok}
use cache.Store.Contract.{run, member, Command, done, exec}
use cache.Store.Spec.{Table, assign, assign_none, spec_step, spec_run}
use cache.Sql.Server.{
  Database, text, Rows, Leaves, DatabaseLaws, delete_in_text, texts, without_rows,
}
use cache.Sql.{decrement, SqlStore, cache_key}
use cache.Sql.Inspection.{sql_store, delete_many, key_args}
use cache.Sql.Dialects.{dialect, delete_many_sql_lem}
use cache.Sql.Table.{moved, equal-cache_key, at, Holds}
use cache.Sql.Promises.{Refines, get-Refines, set-Refines, delete-Refines, flush-Refines}
use cache.Sql.Counts.{add-Refines, lock_acquire-Refines, lock_release-Refines, increment-Refines}

-- The names of the keys, and what DeleteMany leaves.
key_args_lem :
    (db : Database) (rows : db.State → Rows) (s : SqlStore) (ks : List Bytes)
    → key_args db s ks ≡ texts db rows (map (cache_key s) ks)
key_args_lem db rows s [] = refl
key_args_lem db rows s (k ∷ ks) = ap (◌∷◌ (text (cache_key s k))) (key_args_lem db rows s ks)

member-map :
    (s : SqlStore) (j : Bytes) (ks : List Bytes)
    → member (cache_key s j) (map (cache_key s) ks) ≡ member j ks
member-map s j [] = refl
member-map s j (k ∷ ks) = ground (arith, equal-cache_key s k j, member-map s j ks)

assign_none-member :
    (ks : List Bytes) (m : Table) (j : Bytes)
    → assign_none ks m j ≡ (if member j ks then none else m j)
assign_none-member [] m j = refl
assign_none-member (k ∷ ks) m j = ground (arith, assign_none-member ks (assign k none m) j)

module _ (db : Database) (rows : db.State → Rows) (s : SqlStore)
    (laws : DatabaseLaws db rows s.table (dialect s)) (now : ℕ) where
  decrement-Refines :
      (k : Bytes) (d t : ℤ) (st : db.State) (m : Table)
      → Refines db rows s laws now (Command.increment k (neg64 d) t) st m
      → Refines db rows s laws now (Command.decrement k d t) st m
  unfolding exec sql_store decrement spec_step
  decrement-Refines k d t st m r = record {
    reply = r.reply;
    table = r.table;
    state = r.state;
    promised = r.promised;
    does = r.does;
    keeps = r.keeps;
  }

  delete_many-Holds :
      (ks : List Bytes) (n : ℕ) (st : db.State) (m : Table) (r : Result (Result ℕ) × db.State)
      → Holds db rows s laws now st m
      → Leaves db rows n (without_rows db rows (map (cache_key s) ks) (rows st)) r
      → Holds db rows s laws now r.1 (assign_none ks m)
  delete_many-Holds ks n st m r h (answer, leaves) = record {
    at_key = λ j. elim (Bool-cases (member j ks)) [
      | inl there ↦ inl (
        ground (arith, leaves (cache_key s j), member-map s j ks, there),
        ground (arith, assign_none-member ks m j, there),
      )
      | inr absent ↦
          moved db rows s laws now (rows st (cache_key s j)) (rows r.1 (cache_key s j)) (m j)
            (assign_none ks m j) (ground (arith, leaves (cache_key s j), member-map s j ks, absent))
            (ground (arith, assign_none-member ks m j, absent)) (h.at_key j)
    ];
  }

  length-map : (ks : List Bytes) → length (map (cache_key s) ks) ≡ length ks
  length-map [] = refl
  length-map (k ∷ ks) = ap suc (length-map ks)

  named-map :
      (ks : List Bytes)
      → All (λ k. laws.admits (cache_key s k) ≡ true) ks
      → All (λ j. laws.admits j ≡ true) (map (cache_key s) ks)
  named-map [] h = tt
  named-map (k ∷ ks) h = (h.0, named-map ks h.1)

  delete_many-Refines :
      (ks : List Bytes) (st : db.State) (m : Table)
      → All (λ k. laws.admits (cache_key s k) ≡ true) ks
      → Holds db rows s laws now st m
      → Refines db rows s laws now (Command.delete_many ks) st m
  unfolding exec sql_store delete_many spec_step
  delete_many-Refines [] st m named h = record {
    reply = ok done;
    table = m;
    state = st;
    promised = refl;
    does = refl;
    keeps = h;
  }
  delete_many-Refines (k ∷ ks) st m named h =
      let names = map (cache_key s) (k ∷ ks) in
      let (n, wrote) =
        laws.delete_in (cache_key s k) (map (cache_key s) ks) st (named-map (k ∷ ks) named) in
      let q = delete_in_text s.table (dialect s) (length (k ∷ map (cache_key s) ks)) in
      let r = db.exec q (texts db rows names) st in
      record {
        reply = ok done;
        table = assign_none (k ∷ ks) m;
        state = r.1;
        promised = refl;
        does = ground (
          arith,
          delete_many_sql_lem s db (k ∷ ks),
          length-map ks,
          key_args_lem db rows s ks,
          wrote.0,
        );
        keeps = delete_many-Holds (k ∷ ks) n st m r h wrote;
      }

  -- The keys of a command have names that the column of the keys takes.
  abbrev pub Fits : Command → Type 0
  Fits (Command.get k) = laws.admits (cache_key s k) ≡ true
  Fits (Command.set k v t) = laws.admits (cache_key s k) ≡ true
  Fits (Command.add k v t) = laws.admits (cache_key s k) ≡ true
  Fits (Command.increment k d t) = laws.admits (cache_key s k) ≡ true
  Fits (Command.decrement k d t) = laws.admits (cache_key s k) ≡ true
  Fits (Command.delete k) = laws.admits (cache_key s k) ≡ true
  Fits (Command.delete_many ks) = All (λ k. laws.admits (cache_key s k) ≡ true) ks
  Fits Command.flush = Unit
  Fits (Command.lock_acquire k o t) = laws.admits (cache_key s k) ≡ true
  Fits (Command.lock_release k o) = laws.admits (cache_key s k) ≡ true

  exec-Refines :
      (c : Command) (st : db.State) (m : Table)
      → Fits c
      → Holds db rows s laws now st m
      → Refines db rows s laws now c st m
  exec-Refines (Command.get k) st m named h = get-Refines db rows s laws now k st m named h
  exec-Refines (Command.set k v t) st m named h = set-Refines db rows s laws now k v t st m named h
  exec-Refines (Command.add k v t) st m named h = add-Refines db rows s laws now k v t st m named h
  exec-Refines (Command.increment k d t) st m named h =
      increment-Refines db rows s laws now k d t st m named h
  exec-Refines (Command.decrement k d t) st m named h =
      decrement-Refines k d t st m (increment-Refines db rows s laws now k (neg64 d) t st m named h)
  exec-Refines (Command.delete k) st m named h = delete-Refines db rows s laws now k st m named h
  exec-Refines (Command.delete_many ks) st m named h = delete_many-Refines ks st m named h
  exec-Refines Command.flush st m named h = flush-Refines db rows s laws now st m
  exec-Refines (Command.lock_acquire k o t) st m named h =
      lock_acquire-Refines db rows s laws now k o t st m named h
  exec-Refines (Command.lock_release k o) st m named h =
      lock_release-Refines db rows s laws now k o st m named h

  -- Over a PostgreSQL, MySQL or SQLite database that is up and that nobody else writes, at one time,
  -- from a table that has no row past its end: any commands, on keys whose names the column of the
  -- keys takes, get from the store exactly the replies of the abstract store, errors included, and
  -- the table then holds exactly its entries, none past its end.
  pub run-sql_store :
      (cs : List Command) (st : db.State) (m : Table)
      → All Fits cs
      → Holds db rows s laws now st m
      → ((run (sql_store db s) cs (at db rows s laws now st)).0 ≡ (spec_run cs m).0)
        × (st' : db.State) × ((run (sql_store db s) cs (at db rows s laws now st)).1
            ≡ at db rows s laws now st')
        × Holds db rows s laws now st' (spec_run cs m).1
  unfolding run spec_run
  run-sql_store [] st m fits h = (refl, st, refl, h)
  run-sql_store (c ∷ cs) st m (fit, fits) h =
      let r = exec-Refines c st m fit h in
      let (replies, st', ends, h') = run-sql_store cs r.state r.table fits r.keeps in
      let does = r.does in
      let promised = r.promised in
      (rw (does, promised) (ap (◌∷◌ r.reply) replies), st', rw does ends, rw promised h')
