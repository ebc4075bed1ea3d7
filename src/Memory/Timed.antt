-- ===== src/Memory/Timed.antt =====
-- The in-process store of store_memory.go implements the abstract store whose entries expire.
use mathlib.Core.Path.{ap₂}
use cache.Prelude.{
  ℕ, ◌+◌, ◌<◌, ◌≡◌, refl, sym, ap, subst, ◌∙◌, true, Option, none, some, List, [], ◌∷◌, arith,
  Bytes, ℤ, is_positive, add64, neg64, Option-cases, inl, inr, two63,
}
use cache.Decimal.{format_int}
use cache.Store.{Result, Store, ttl_or, ttl_or-positive}
use cache.Store.Contract.{
  Command, Reply, get, set, add, increment, decrement, delete, delete_many, flush, lock_acquire,
  lock_release, exec,
}
use cache.Store.Spec.{counter}
use cache.Store.Timed.{
  TimedTable, alive, assign_timed, assign_none_timed, end_of, timed_step, timed_run, EndFits,
  AllEndsFit,
}
use cache.Memory.{World, memory_store, delete_each}
use cache.Memory.Backend.{Engine, EngineLaws, Expires, Object, bytes}
use cache.Memory.Refines.{holding}

-- Commands on the store, each with the time since the one before it.
unfoldable pub run_timed :
    {engine : Engine}
    → Store (World engine)
    → List (ℕ × Command)
    → World engine
    → List (Result Reply) × World engine
run_timed s [] w = ([], w)
run_timed s ((wait, c) ∷ cs) w =
    let r = exec s c (record w { now = w.now + wait }) in
    let rest = run_timed s cs r.1 in (r.0 ∷ rest.0, rest.1)

abbrev holding_timed : Option (Bytes × ℕ) → Option (Object × ℕ)
holding_timed none = none
holding_timed (some (v, end)) = some (bytes v, end)

alive-holding_timed :
    (now : ℕ) (o : Option (Bytes × ℕ)) → alive now (holding_timed o) ≡ holding (alive now o)
alive-holding_timed now none = refl
alive-holding_timed now (some (v, end)) = ground arith

module _ (engine : Engine) (laws : EngineLaws engine)
    (stored : engine.State → Bytes → Option (Object × ℕ)) (expires : Expires engine stored) where
  -- The engine holds the entries of a table with their ends, as byte slices.
  pub record HoldsTimed (c : engine.State) (m : TimedTable) : Type 0 where
    pub at_key : (k : Bytes) → stored c k ≡ holding_timed (m k)

  got :
      (k : Bytes) (now : ℕ) (c : engine.State) (m : TimedTable)
      → HoldsTimed c m
      → engine.get k now c ≡ holding (alive now (m k))
  got k now c m h =
      ground (arith, expires.get-stored k now c, h.at_key k, alive-holding_timed now (m k))

  delete_each-HoldsTimed :
      (ks : List Bytes) (c : engine.State) (m : TimedTable)
      → HoldsTimed c m
      → HoldsTimed (delete_each engine ks c) (assign_none_timed ks m)
  delete_each-HoldsTimed [] c m h = h
  delete_each-HoldsTimed (k ∷ ks) c m h =
      delete_each-HoldsTimed ks (engine.delete k c) (assign_timed k none m)
        (record { at_key = λ j. ground (arith, h.at_key j, expires.stored-delete k j c) })

  module _ (ttl : ℤ) (positive : is_positive ttl ≡ true) where
    set-HoldsTimed :
        (k v : Bytes) (t : ℤ) (now : ℕ) (c : engine.State) (m : TimedTable)
        → end_of ttl now t < two63
        → HoldsTimed c m
        → HoldsTimed
            (engine.set k (bytes v) (ttl_or t ttl) now c)
            (assign_timed k (some (v, end_of ttl now t)) m)
    set-HoldsTimed k v t now c m fits h = record {
      at_key = λ j. ground (
        arith,
        h.at_key j,
        expires.stored-set k j (bytes v) (ttl_or t ttl) now c (ttl_or-positive t ttl positive) fits,
      );
    }

    abbrev RefinesTimed : Command → World engine → TimedTable → Type 0
    RefinesTimed c w m =
        ((exec (memory_store engine ttl) c w).0 ≡ (timed_step ttl w.now c m).0)
        × HoldsTimed (exec (memory_store engine ttl) c w).1.state (timed_step ttl w.now c m).1
        × ((exec (memory_store engine ttl) c w).1.now ≡ w.now)

    add-RefinesTimed :
        (k v : Bytes) (t : ℤ) (w : World engine) (m : TimedTable)
        → end_of ttl w.now t < two63
        → HoldsTimed w.state m
        → RefinesTimed (add k v t) w m
    unfolding exec memory_store timed_step
    add-RefinesTimed k v t w m fits h = elim (Option-cases (alive w.now (m k))) [
      | inl absent ↦
          let added =
            laws.add-absent k (bytes v) (ttl_or t ttl) w.now w.state
              (ground (arith, got k w.now w.state m h)) in
          rw (added, absent) (refl, set-HoldsTimed k v t w.now w.state m fits h, refl)
      | inr (old, present) ↦
          let (e, kept, says) =
            laws.add-present k (bytes v) (bytes old) (ttl_or t ttl) w.now w.state
              (ground (arith, got k w.now w.state m h)) in
          rw (kept, present, says) (refl, h, refl)
    ]

    increment-RefinesTimed :
        (k : Bytes) (d t : ℤ) (w : World engine) (m : TimedTable)
        → end_of ttl w.now t < two63
        → HoldsTimed w.state m
        → RefinesTimed (increment k d t) w m
    unfolding exec memory_store timed_step
    increment-RefinesTimed k d t w m fits h = elim (Option-cases (counter (alive w.now (m k)))) [
      | inl bad ↦ (
        ground (arith, got k w.now w.state m h, bad),
        record { at_key = λ j. ground (arith, got k w.now w.state m h, bad, h.at_key j) },
        ground (arith, got k w.now w.state m h, bad),
      )
      | inr (n, good) ↦
          let after = set-HoldsTimed k (format_int (add64 n d)) t w.now w.state m fits h in
          (
            ground (arith, got k w.now w.state m h, good),
            record { at_key = λ j. ground (arith, got k w.now w.state m h, good, after.at_key j) },
            ground (arith, got k w.now w.state m h, good),
          )
    ]

    lock_release-RefinesTimed :
        (k o : Bytes) (w : World engine) (m : TimedTable)
        → HoldsTimed w.state m
        → RefinesTimed (lock_release k o) w m
    unfolding exec memory_store timed_step
    lock_release-RefinesTimed k o w m h = (
      ground (arith, got k w.now w.state m h),
      record {
        at_key = λ j.
            ground (arith, got k w.now w.state m h, h.at_key j, expires.stored-delete k j w.state);
      },
      ground (arith, got k w.now w.state m h),
    )

    exec-RefinesTimed :
        (c : Command) (w : World engine) (m : TimedTable)
        → EndFits ttl w.now c
        → HoldsTimed w.state m
        → RefinesTimed c w m
    unfolding exec memory_store timed_step
    exec-RefinesTimed (get k) w m fits h = (ground (arith, got k w.now w.state m h), h, refl)
    exec-RefinesTimed (set k v t) w m fits h =
        (refl, set-HoldsTimed k v t w.now w.state m fits h, refl)
    exec-RefinesTimed (add k v t) w m fits h = add-RefinesTimed k v t w m fits h
    exec-RefinesTimed (increment k d t) w m fits h = increment-RefinesTimed k d t w m fits h
    exec-RefinesTimed (decrement k d t) w m fits h = increment-RefinesTimed k (neg64 d) t w m fits h
    exec-RefinesTimed (delete k) w m fits h = (
      refl,
      record { at_key = λ j. ground (arith, h.at_key j, expires.stored-delete k j w.state) },
      refl,
    )
    exec-RefinesTimed (delete_many ks) w m fits h =
        (refl, delete_each-HoldsTimed ks w.state m h, refl)
    exec-RefinesTimed flush w m fits h =
        (refl, record { at_key = λ j. expires.stored-flush j w.state }, refl)
    exec-RefinesTimed (lock_acquire k o t) w m fits h = add-RefinesTimed k o t w m fits h
    exec-RefinesTimed (lock_release k o) w m fits h = lock_release-RefinesTimed k o w m h

    -- Over an engine that keeps its documented promises, with a positive default: commands, each a
    -- while after the one before it, get from the in-process store exactly the replies of the
    -- abstract store whose entries are there up to their ends, errors included, and the engine then
    -- holds exactly its entries with their ends, where each end that is given is a time that an
    -- int64 of nanoseconds holds.
    pub run_timed-memory_store :
        (cs : List (ℕ × Command)) (w : World engine) (m : TimedTable)
        → AllEndsFit ttl cs w.now
        → HoldsTimed w.state m
        → ((run_timed (memory_store engine ttl) cs w).0 ≡ (timed_run ttl cs w.now m).0)
          × HoldsTimed
              (run_timed (memory_store engine ttl) cs w).1.state
              (timed_run ttl cs w.now m).1
    unfolding run_timed timed_run
    run_timed-memory_store [] w m fits h = (refl, h)
    run_timed-memory_store ((wait, c) ∷ cs) w m fits h =
        let w' = record w { now = w.now + wait } in
        let (reply, keeps, clock) = exec-RefinesTimed c w' m fits.0 h in
        let r = exec (memory_store engine ttl) c w' in
        let m' = (timed_step ttl w'.now c m).1 in
        let (replies, ends) =
          run_timed-memory_store cs r.1 m'
            (subst (λ (n : ℕ). AllEndsFit ttl cs n) (sym clock) fits.1) keeps in
        (
          ap₂ ◌∷◌ reply (replies ∙ ap (λ (n : ℕ). (timed_run ttl cs n m').0) clock),
          subst
              (λ (n : ℕ).
                HoldsTimed (run_timed (memory_store engine ttl) cs r.1).1.state
                  (timed_run ttl cs n m').1)
              clock ends,
        )
