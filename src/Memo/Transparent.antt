-- ===== src/Memo/Transparent.antt =====
-- With one caller at a time, over a store whose failing commands change nothing, the memo of
-- store_memo.go cannot be told from its backing store.
use mathlib.Core.Path.{ap₂}
use cache.Prelude.{
  ◌≡◌, refl, ap, ◌∙◌, Bool, Option, none, some, List, [], ◌∷◌, arith, Bytes, equal_iff, Map, lookup,
  without, lookup-put, lookup-without, if◌then◌else◌, Option-cases, inl, inr,
}
use cache.Store.{Store}
use cache.Store.Contract.{
  Command, get, set, add, increment, decrement, delete, delete_many, flush, lock_acquire,
  lock_release, exec, run, member, IsFramed,
}
use cache.Memo.{MemoState, Memoized, memo_store, without_all}

module _ {W : Type 0} (view : W → Bytes → Option Bytes) where
  -- Every entry holds what the backing store would answer.
  pub record IsFresh (s : Memoized W) : Type 0 where
    pub fresh : (k : Bytes) (v : Option Bytes) → lookup k s.memo.items ≡ some v → v ≡ view s.inner k

pub lookup-without_all :
    (ks : List Bytes) (j : Bytes) (m : Map (Option Bytes))
    → lookup j (without_all ks m) ≡ (if member j ks then none else lookup j m)
lookup-without_all [] j m = refl
lookup-without_all (k ∷ ks) j m =
    ground (arith, lookup-without_all ks j (without k m), lookup-without k j m)

-- The entry of a key after a command that touched it, and of any other.
abbrev Drops : MemoState → MemoState → (Bytes → Bool) → Type 0
Drops m m' touched =
    (j : Bytes) → lookup j m'.items ≡ (if touched j then none else lookup j m.items)

module _ {W : Type 0} (s : Store W) (view : W → Bytes → Option Bytes)
    (framed : IsFramed s view) where
  -- A command through the memo gets the reply of the backing store, and leaves the backing store
  -- as that would.
  abbrev Agrees : Command → Memoized W → Type 0
  Agrees c w =
      ((exec (memo_store s) c w).0 ≡ (exec s c w.inner).0)
      × ((exec (memo_store s) c w).1.inner ≡ (exec s c w.inner).1)

  agrees : (c : Command) (w : Memoized W) → IsFresh view w → Agrees c w
  unfolding exec memo_store
  agrees (get k) w f = elim (Option-cases (lookup k w.memo.items)) [
    | inl miss ↦ ground (arith, framed.reads k w.inner)
    | inr (v, hit) ↦ ground (arith, framed.reads k w.inner, f.fresh k v hit)
  ]
  agrees c w f = ground arith

  stays-IsFresh :
      (c : Command) (w : Memoized W) → IsFresh view w → IsFresh view (exec (memo_store s) c w).1
  unfolding exec memo_store lookup
  stays-IsFresh (get k) w f = record {
    fresh = λ j v h. ground (
      arith,
      f.fresh j v,
      framed.reads k w.inner,
      lookup-put k j (view w.inner k) w.memo.items,
      equal_iff k j,
    );
  }
  stays-IsFresh (set k x t) w f = record {
    fresh = λ j v h.
        ground (
          arith,
          f.fresh j v,
          framed.frames (set k x t) w.inner j,
          lookup-without k j w.memo.items,
        );
  }
  stays-IsFresh (add k x t) w f = record {
    fresh = λ j v h.
        ground (
          arith,
          f.fresh j v,
          framed.frames (add k x t) w.inner j,
          lookup-without k j w.memo.items,
        );
  }
  stays-IsFresh (increment k d t) w f = record {
    fresh = λ j v h. ground (
      arith,
      f.fresh j v,
      framed.frames (increment k d t) w.inner j,
      lookup-without k j w.memo.items,
    );
  }
  stays-IsFresh (decrement k d t) w f = record {
    fresh = λ j v h. ground (
      arith,
      f.fresh j v,
      framed.frames (decrement k d t) w.inner j,
      lookup-without k j w.memo.items,
    );
  }
  stays-IsFresh (delete k) w f = record {
    fresh = λ j v h.
        ground
          (arith, f.fresh j v, framed.frames (delete k) w.inner j, lookup-without k j w.memo.items);
  }
  stays-IsFresh (delete_many ks) w f = record {
    fresh = λ j v h. ground (
      arith,
      f.fresh j v,
      framed.frames (delete_many ks) w.inner j,
      lookup-without_all ks j w.memo.items,
    );
  }
  stays-IsFresh flush w f = record {
    fresh = λ j v h. ground (arith, f.fresh j v, framed.frames flush w.inner j);
  }
  stays-IsFresh (lock_acquire k o t) w f = record {
    fresh = λ j v h. ground (
      arith,
      f.fresh j v,
      framed.frames (lock_acquire k o t) w.inner j,
      lookup-without k j w.memo.items,
    );
  }
  stays-IsFresh (lock_release k o) w f = record {
    fresh = λ j v h. ground (
      arith,
      f.fresh j v,
      framed.frames (lock_release k o) w.inner j,
      lookup-without k j w.memo.items,
    );
  }

  -- Over a store whose reads are pure, and whose commands change only their own keys and nothing
  -- when they fail or are refused, a run of commands through the memo, started empty or with fresh
  -- entries, gets every reply that the store itself gives, errors included, and leaves the store in
  -- the same state.
  pub run-memo_store :
      (cs : List Command) (w : Memoized W)
      → IsFresh view w
      → ((run (memo_store s) cs w).0 ≡ (run s cs w.inner).0)
        × ((run (memo_store s) cs w).1.inner ≡ (run s cs w.inner).1)
        × IsFresh view (run (memo_store s) cs w).1
  unfolding run
  run-memo_store [] w f = (refl, refl, f)
  run-memo_store (c ∷ cs) w f =
      let a = agrees c w f in
      let (r, e, g) = run-memo_store cs (exec (memo_store s) c w).1 (stays-IsFresh c w f) in
      (ap₂ ◌∷◌ a.0 (r ∙ ap (λ w'. (run s cs w').0) a.1), e ∙ ap (λ w'. (run s cs w').1) a.1, g)
