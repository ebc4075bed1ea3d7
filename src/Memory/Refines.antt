-- ===== src/Memory/Refines.antt =====
-- The in-process store of store_memory.go implements the abstract store.
use mathlib.Core.Path.{ap₂}
use cache.Prelude.{
  ℕ, ◌≡◌, refl, true, Option, none, some, List, [], ◌∷◌, arith, Bytes, ℤ, is_positive, add64, neg64,
  Option-cases, inl, inr,
}
use cache.Decimal.{format_int}
use cache.Store.{ttl_or, ttl_or-positive}
use cache.Store.Contract.{
  Command, get, set, add, increment, decrement, delete, delete_many, flush, lock_acquire,
  lock_release, exec, run,
}
use cache.Store.Spec.{Table, assign, assign_none, counter, spec_step, spec_run}
use cache.Memory.{World, memory_store, delete_each}
use cache.Memory.Backend.{Engine, EngineLaws, Object, bytes}

abbrev pub holding : Option Bytes → Option Object
holding none = none
holding (some v) = some (bytes v)

-- The engine holds the entries of a table, as byte slices.
pub record Holds (engine : Engine) (w : World engine) (m : Table) : Type 0 where
  pub at_key : (k : Bytes) → engine.get k w.now w.state ≡ holding (m k)

module _ (engine : Engine) (laws : EngineLaws engine) where
  delete_each-assign_none :
      (ks : List Bytes) (now : ℕ) (c : engine.State) (m : Table)
      → ((j : Bytes) → engine.get j now c ≡ holding (m j))
      → ((j : Bytes) → engine.get j now (delete_each engine ks c) ≡ holding (assign_none ks m j))
  delete_each-assign_none [] now c m h = h
  delete_each-assign_none (k ∷ ks) now c m h =
      delete_each-assign_none ks now (engine.delete k c) (assign k none m)
        (λ j. ground (arith, h j, laws.get-delete k j now c))

  module _ (ttl : ℤ) (positive : is_positive ttl ≡ true) where
    abbrev Refines : Command → World engine → Table → Type 0
    Refines c w m =
        ((exec (memory_store engine ttl) c w).0 ≡ (spec_step c m).0)
        × Holds engine (exec (memory_store engine ttl) c w).1 (spec_step c m).1

    add-Refines :
        (k v : Bytes) (t : ℤ) (w : World engine) (m : Table)
        → Holds engine w m
        → Refines (add k v t) w m
    unfolding exec memory_store spec_step
    add-Refines k v t w m h = elim (Option-cases (m k)) [
      | inl absent ↦
          let got : engine.get k w.now w.state ≡ none = ground (arith, h.at_key k) in
          let added = laws.add-absent k (bytes v) (ttl_or t ttl) w.now w.state got in
          (
            ground (arith, added),
            record {
              at_key = λ j. ground (
                arith,
                added,
                h.at_key j,
                laws.get-set k j (bytes v) (ttl_or t ttl) w.now w.state
                    (ttl_or-positive t ttl positive),
              );
            },
          )
      | inr (old, present) ↦
          let got : engine.get k w.now w.state ≡ some (bytes old) = ground (arith, h.at_key k) in
          let (e, kept, says) =
            laws.add-present k (bytes v) (bytes old) (ttl_or t ttl) w.now w.state got in
          (
            ground (arith, kept, says),
            record { at_key = λ j. ground (arith, kept, says, h.at_key j) },
          )
    ]

    increment-Refines :
        (k : Bytes) (d t : ℤ) (w : World engine) (m : Table)
        → Holds engine w m
        → Refines (increment k d t) w m
    unfolding exec memory_store spec_step
    increment-Refines k d t w m h = (
      ground (arith, h.at_key k),
      record {
        at_key = λ j. elim (Option-cases (counter (m k))) [
          | inl bad ↦ ground (arith, h.at_key k, h.at_key j)
          | inr (n, e) ↦ ground (
            arith,
            h.at_key k,
            h.at_key j,
            laws.get-set k j (bytes (format_int (add64 n d))) (ttl_or t ttl) w.now w.state
                (ttl_or-positive t ttl positive),
          )
        ];
      },
    )

    lock_release-Refines :
        (k o : Bytes) (w : World engine) (m : Table)
        → Holds engine w m
        → Refines (lock_release k o) w m
    unfolding exec memory_store spec_step
    lock_release-Refines k o w m h = (
      ground (arith, h.at_key k),
      record {
        at_key = λ j. ground (arith, h.at_key k, h.at_key j, laws.get-delete k j w.now w.state);
      },
    )

    exec-Refines : (c : Command) (w : World engine) (m : Table) → Holds engine w m → Refines c w m
    unfolding exec memory_store spec_step
    exec-Refines (get k) w m h = (ground (arith, h.at_key k), record { at_key = h.at_key })
    exec-Refines (set k v t) w m h = (
      refl,
      record {
        at_key = λ j.
            ground (arith, h.at_key j, laws.get-set k j (bytes v) (ttl_or t ttl) w.now w.state);
      },
    )
    exec-Refines (add k v t) w m h = add-Refines k v t w m h
    exec-Refines (increment k d t) w m h = increment-Refines k d t w m h
    exec-Refines (decrement k d t) w m h = increment-Refines k (neg64 d) t w m h
    exec-Refines (delete k) w m h = (
      refl,
      record { at_key = λ j. ground (arith, h.at_key j, laws.get-delete k j w.now w.state) },
    )
    exec-Refines (delete_many ks) w m h =
        (refl, record { at_key = delete_each-assign_none ks w.now w.state m h.at_key })
    exec-Refines flush w m h = (refl, record { at_key = λ j. laws.get-flush j w.now w.state })
    exec-Refines (lock_acquire k o t) w m h = add-Refines k o t w m h
    exec-Refines (lock_release k o) w m h = lock_release-Refines k o w m h

    -- Over an engine that keeps its documented promises, a run of commands at one time gets from
    -- the in-process store exactly the replies of the abstract store, errors included, and the
    -- engine then holds exactly the entries of the abstract store.
    pub run-memory_store :
        (cs : List Command) (w : World engine) (m : Table)
        → Holds engine w m
        → ((run (memory_store engine ttl) cs w).0 ≡ (spec_run cs m).0)
          × Holds engine (run (memory_store engine ttl) cs w).1 (spec_run cs m).1
    unfolding run spec_run
    run-memory_store [] w m h = (refl, h)
    run-memory_store (c ∷ cs) w m h =
        let (r, h') = exec-Refines c w m h in
        let (rs, h'') =
          run-memory_store cs (exec (memory_store engine ttl) c w).1 (spec_step c m).1 h' in
        (ap₂ ◌∷◌ r rs, h'')
