-- ===== src/Memory/Framed.antt =====
-- The in-process store of store_memory.go meets the contract that the wrappers rely on, and its
-- entries live exactly as long as their durations.
use cache.Prelude.{
  ℕ, ◌≡◌, ◌≢◌, refl, ap, ◌∙◌, true, false, Option, some, List, [], ◌∷◌, arith, Bytes, equal_refl,
  equal_iff, ℤ, is_positive, add64, neg64, Option-cases, inl, inr,
}
use cache.Decimal.{format_int}
use cache.Store.{Result-cases, ok, ttl_or, ttl_or-positive}
use cache.Store.Contract.{
  Command, get, set, add, increment, decrement, delete, delete_many, flush, lock_acquire,
  lock_release, exec, touches, member, acquire, release, IsFramed, Recalls,
}
use cache.Memory.{World, memory_store, delete_each, as_bytes, read_int64}
use cache.Memory
use cache.Facade.Locks.Ownership.{IsLocking}
use cache.Memory.Backend.{Engine, EngineLaws, Object, bytes}

module _ (engine : Engine) (laws : EngineLaws engine) (ttl : ℤ)
    (positive : is_positive ttl ≡ true) where
  abbrev pub view : World engine → Bytes → Option Bytes
  view w k = as_bytes engine (engine.get k w.now w.state)

  get-delete_each :
      (ks : List Bytes) (j : Bytes) (now : ℕ) (c : engine.State)
      → member j ks ≡ false
      → engine.get j now (delete_each engine ks c) ≡ engine.get j now c
  get-delete_each [] j now c h = refl
  get-delete_each (k ∷ ks) j now c h =
      ground (arith, get-delete_each ks j now (engine.delete k c), laws.get-delete k j now c)

  abbrev Frames : Command → World engine → Bytes → Type 0
  Frames c w j =
      touches c (exec (memory_store engine ttl) c w).0 j ≡ false
      → view (exec (memory_store engine ttl) c w).1 j ≡ view w j

  Frames-add : (k v : Bytes) (t : ℤ) (w : World engine) (j : Bytes) → Frames (add k v t) w j
  unfolding exec memory_store
  Frames-add k v t w j h = elim (Option-cases (engine.get k w.now w.state)) [
    | inl absent ↦ ground (
      arith,
      laws.add-absent k (bytes v) (ttl_or t ttl) w.now w.state,
      laws.get-set k j (bytes v) (ttl_or t ttl) w.now w.state (ttl_or-positive t ttl positive),
    )
    | inr (old, present) ↦
        let (e, kept, says) =
          laws.add-present k (bytes v) old (ttl_or t ttl) w.now w.state present in
        ground (arith, kept, says)
  ]

  Frames-increment :
      (k : Bytes) (d t : ℤ) (w : World engine) (j : Bytes) → Frames (increment k d t) w j
  unfolding exec memory_store
  Frames-increment k d t w j h = elim (Result-cases (read_int64 engine k w)) [
    | inr (e, bad) ↦ ground arith
    | inl (n, good) ↦ ground (
      arith,
      laws.get-set k j (bytes (format_int (add64 n d))) (ttl_or t ttl) w.now w.state
          (ttl_or-positive t ttl positive),
    )
  ]

  Frames-lock_release : (k o : Bytes) (w : World engine) (j : Bytes) → Frames (lock_release k o) w j
  unfolding exec memory_store
  Frames-lock_release k o w j h = ground (arith, laws.get-delete k j w.now w.state)

  frames : (c : Command) (w : World engine) (j : Bytes) → Frames c w j
  unfolding exec memory_store
  frames (get k) w j h = refl
  frames (set k v t) w j h = ground (
    arith,
    laws.get-set k j (bytes v) (ttl_or t ttl) w.now w.state (ttl_or-positive t ttl positive),
  )
  frames (add k v t) w j h = Frames-add k v t w j h
  frames (increment k d t) w j h = Frames-increment k d t w j h
  frames (decrement k d t) w j h = Frames-increment k (neg64 d) t w j h
  frames (delete k) w j h = ground (arith, laws.get-delete k j w.now w.state)
  frames (delete_many ks) w j h = ground (arith, get-delete_each ks j w.now w.state)
  frames flush w j h = ground arith
  frames (lock_acquire k o t) w j h = Frames-add k o t w j h
  frames (lock_release k o) w j h = Frames-lock_release k o w j h

  -- Reads change nothing, and a command changes no key but those that it names, and none at all
  -- where it fails or refuses.
  pub memory_store-IsFramed : IsFramed (memory_store engine ttl) view
  unfolding memory_store
  memory_store-IsFramed = record { reads = λ k w. refl; frames = frames }

  pub memory_store-Recalls : Recalls (λ _. Unit {0}) (memory_store engine ttl)
  unfolding memory_store
  memory_store-Recalls k v t w _ h = ground (
    arith,
    equal_refl k,
    laws.get-set k k (bytes v) (ttl_or t ttl) w.now w.state (ttl_or-positive t ttl positive),
  )

  not_owned :
      (k o : Bytes) (v : Object) (w : World engine)
      → engine.get k w.now w.state ≡ some v
      → v ≢ bytes o
      → Memory.lock_release engine k o w ≡ (ok false, w)
  unfolding Memory.lock_release
  not_owned k o (bytes b) w taken other = ground (arith, equal_iff b o)
  not_owned k o _ w taken other = ground arith

  -- LockAcquire and LockRelease compare owners.
  pub memory_store-IsLocking :
      IsLocking (memory_store engine ttl) (λ w k. engine.get k w.now w.state) bytes
  unfolding memory_store acquire release
  memory_store-IsLocking = record {
    absent = λ k o t w free positive'. ground (
      arith,
      equal_refl k,
      laws.add-absent k (bytes o) (ttl_or t ttl) w.now w.state free,
      laws.get-set k k (bytes o) (ttl_or t ttl) w.now w.state (ttl_or-positive t ttl positive),
    );
    present = λ k o v t w taken.
        let (e, kept, says) = laws.add-present k (bytes o) v (ttl_or t ttl) w.now w.state taken in
        ground (arith, kept, says);
    own =
        λ k o w mine. ground (arith, equal_refl k, equal_refl o, laws.get-delete k k w.now w.state);
    other = λ k o w theirs. elim (Option-cases (engine.get k w.now w.state)) [
      | inl free ↦ ground arith
      | inr (v, taken) ↦ rw (not_owned k o v w taken (λ e. theirs (taken ∙ ap some e))) (refl, refl)
    ];
  }
