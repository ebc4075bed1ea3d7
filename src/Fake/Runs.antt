-- ===== src/Fake/Runs.antt =====
-- Runs of commands through the fake of cachefake/fake.go.
use cache.Prelude.{◌+◌, ◌≡◌, refl, ap, ◌∙◌, true, List, [], ◌∷◌, arith, Bytes}
use cache.Store.{Store, Result, ok, err, continue, pure}
use cache.Store.Contract.{Command, Reply, found, done, flag, number, exec, run}
use cache.Fake.{
  Op, op_get, op_set, op_add, op_inc, op_dec, op_delete, op_flush, op_delete_many, Fake, count,
  total, record_call, record_each, counting_store,
}
use cache.Fake.Counts.{
  calls, each, occurrences, occurrences_of, all_calls, plain, IsCounted, recorded,
  recorded-IsCounted, count-recorded, total-recorded, occurrences-append, occurrences_of-append,
}

module _ {W : Type 0} (s : Store W) where
  -- The fake after the calls of a command, with the store under it as the command leaves it.
  abbrev passed_on : Command → Fake W → Result Reply × Fake W
  passed_on c f =
      let r = exec (plain s) c f.inner in (r.0, record (recorded (calls c) f) { inner = r.1 })

  recorded-each :
      (ks : List Bytes) (f : Fake W) → record_each ks f ≡ recorded (each op_delete_many ks) f
  unfolding record_each
  recorded-each [] f = refl
  recorded-each (k ∷ ks) f = recorded-each ks (record_call op_delete_many k f)

  -- What comes after the call of the store does not look at the counts.
  answered :
      {A : Type 0} (r : Result A) (g : A → Reply) (w : W) (f : Fake W)
      → continue r (λ a. pure (g a)) (record f { inner = w }) ≡ (
        (continue r (λ a. pure (g a)) w).0,
        record f { inner = (continue r (λ a. pure (g a)) w).1 },
      )
  answered (ok a) g w f = refl
  answered (err e) g w f = refl

  released :
      (r : Result (Unit {0})) (w : W) (f : Fake W)
      → continue
          (continue r (λ u. pure true) (record f { inner = w })).0
          (λ b. pure (flag b))
          (continue r (λ u. pure true) (record f { inner = w })).1
        ≡ (
          (continue
              (continue r (λ u. pure true) w).0
              (λ b. pure (flag b))
              (continue r (λ u. pure true) w).1).0,
          record f {
            inner =
                (continue
                  (continue r (λ u. pure true) w).0
                  (λ b. pure (flag b))
                  (continue r (λ u. pure true) w).1).1;
          },
        )
  released (ok u) w f = refl
  released (err e) w f = refl

  inner-record_each : (ks : List Bytes) (f : Fake W) → (record_each ks f).inner ≡ f.inner
  unfolding record_each
  inner-record_each [] f = refl
  inner-record_each (k ∷ ks) f = inner-record_each ks (record_call op_delete_many k f)

  many :
      (ks : List Bytes) (g : Fake W) (w : W)
      → g.inner ≡ w
      → continue
          (s.delete_many ks g.inner).0
          (λ u. pure done)
          (record g { inner = (s.delete_many ks g.inner).1 })
        ≡ (
          (exec (plain s) (Command.delete_many ks) w).0,
          record g { inner = (exec (plain s) (Command.delete_many ks) w).1 },
        )
  unfolding exec
  many ks g w h =
      ap
        (λ (v : W).
          continue (s.delete_many ks v).0 (λ u. pure done)
            (record g { inner = (s.delete_many ks v).1 }))
        h
      ∙ answered (s.delete_many ks w).0 (λ u. done) (s.delete_many ks w).1 g

  exec_lem : (c : Command) (f : Fake W) → exec (counting_store s) c f ≡ passed_on c f
  unfolding exec counting_store
  exec_lem (Command.get k) f =
      answered (s.get k f.inner).0 found (s.get k f.inner).1 (record_call op_get k f)
  exec_lem (Command.set k v t) f =
      answered (s.set k v t f.inner).0 (λ u. done) (s.set k v t f.inner).1 (record_call op_set k f)
  exec_lem (Command.add k v t) f =
      answered (s.add k v t f.inner).0 flag (s.add k v t f.inner).1 (record_call op_add k f)
  exec_lem (Command.increment k d t) f =
      answered (s.increment k d t f.inner).0 number (s.increment k d t f.inner).1
        (record_call op_inc k f)
  exec_lem (Command.decrement k d t) f =
      answered (s.decrement k d t f.inner).0 number (s.decrement k d t f.inner).1
        (record_call op_dec k f)
  exec_lem (Command.delete k) f =
      answered (s.delete k f.inner).0 (λ u. done) (s.delete k f.inner).1 (record_call op_delete k f)
  exec_lem (Command.delete_many ks) f =
      many ks (record_each ks f) f.inner (inner-record_each ks f)
      ∙ ap
          (λ (g : Fake W). (
            (exec (plain s) (Command.delete_many ks) f.inner).0,
            record g { inner = (exec (plain s) (Command.delete_many ks) f.inner).1 },
          ))
          (recorded-each ks f)
  exec_lem Command.flush f =
      answered (s.flush f.inner).0 (λ u. done) (s.flush f.inner).1 (record_call op_flush [] f)
  exec_lem (Command.lock_acquire k o t) f =
      answered (s.add k o t f.inner).0 flag (s.add k o t f.inner).1 (record_call op_add k f)
  exec_lem (Command.lock_release k o) f =
      released (s.delete k f.inner).0 (s.delete k f.inner).1 (record_call op_delete k f)

  -- From a fake that was reset or counted before: any commands through it get the replies of the
  -- store under it, taken without its optional interfaces, and leave that store in the same state;
  -- the count of an operation and a key grows by the calls of it that the commands make, a lock
  -- being an Add and an unlock a Delete, and the total of an operation by all its calls.
  pub run-counting_store :
      (cs : List Command) (f : Fake W)
      → IsCounted f
      → ((run (counting_store s) cs f).0 ≡ (run (plain s) cs f.inner).0)
        × ((run (counting_store s) cs f).1.inner ≡ (run (plain s) cs f.inner).1)
        × ((op : Op) (key : Bytes)
            → count op key (run (counting_store s) cs f).1
              ≡ occurrences op key (all_calls cs) + count op key f)
        × ((op : Op)
            → total op (run (counting_store s) cs f).1
              ≡ occurrences_of op (all_calls cs) + total op f)
        × IsCounted (run (counting_store s) cs f).1
  unfolding run count total
  run-counting_store [] f h = (refl, refl, λ op key. omega arith, λ op. omega arith, h)
  run-counting_store (c ∷ cs) f h =
      let r = exec (plain s) c f.inner in
      let g = record (recorded (calls c) f) { inner = r.1 } in
      let step : exec (counting_store s) c f ≡ (r.0, g) = exec_lem c f in
      let g-IsCounted : IsCounted g = record {
        unique = (recorded-IsCounted (calls c) f h).unique;
      } in
      let (replies, inner, counts, totals, ends) = run-counting_store cs g g-IsCounted in
      (
        rw step (ap (◌∷◌ r.0) replies),
        rw step inner,
        λ op key. rw step (
            omega (
              arith,
              counts op key,
              count-recorded op key (calls c) f,
              occurrences-append op key (calls c) (all_calls cs),
            )),
        λ op. rw step (
            omega (
              arith,
              totals op,
              total-recorded op (calls c) f h,
              occurrences_of-append op (calls c) (all_calls cs),
            )),
        rw step ends,
      )
