-- ===== src/Facade/Locks/Exclusion.antt =====
-- The direct locks of cache.go with any number of concurrent callers of one Cache: each of the four
-- critical sections is a step, and between the sections of a call the others run in any order.
use cache.Prelude.{
  ℕ, ◌≡◌, ◌≢◌, Bool, true, some, arith, Bytes, Map, equal_iff, lookup, lookup-put, lookup-without,
  ◌==◌, if◌then◌else◌,
}
use cache.Facade.{DirectLockStatus, acquiring, held, releasing}
use cache.Facade.Locks.{begin_acquire, finish_acquire, begin_release, finish_release}

-- A caller is inside tryLock, lock or unlock of a key between a begin that let it on and its
-- finish.
pub data Phase : Type 0 where
  idle : Phase
  busy : Bytes → DirectLockStatus → Phase

pub record Locks : Type 0 where
  pub statuses : Map DirectLockStatus
  pub phases : ℕ → Phase

unfoldable pub move : ℕ → Phase → (ℕ → Phase) → ℕ → Phase
move t p phases u = if u == t then p else phases u

pub data Step : Locks → Locks → Type 0 where
  take :
      (s : Locks) (t : ℕ) (k : Bytes)
      → s.phases t ≡ idle
      → (begin_acquire k s.statuses).0 ≡ true
      → Step s (record {
        statuses = (begin_acquire k s.statuses).1;
        phases = move t (busy k acquiring) s.phases;
      })
  taken :
      (s : Locks) (t : ℕ) (k : Bytes) (acquired : Bool)
      → s.phases t ≡ busy k acquiring
      → Step s (record {
        statuses = finish_acquire k acquired s.statuses;
        phases = move t idle s.phases;
      })
  give :
      (s : Locks) (t : ℕ) (k : Bytes)
      → s.phases t ≡ idle
      → (begin_release k s.statuses).0 ≡ true
      → Step s (record {
        statuses = (begin_release k s.statuses).1;
        phases = move t (busy k releasing) s.phases;
      })
  given :
      (s : Locks) (t : ℕ) (k : Bytes) (succeeded : Bool)
      → s.phases t ≡ busy k releasing
      → Step s (record {
        statuses = finish_release k succeeded s.statuses;
        phases = move t idle s.phases;
      })

pub data Reach (s : Locks) : Locks → Type 0 where
  here : Reach s s
  next : {t u : Locks} → Reach s t → Step t u → Reach s u

-- The status of a key tells where the one caller inside it stands.
pub record IsExclusive (s : Locks) : Type 0 where
  pub recorded :
      (t : ℕ) (k : Bytes) (p : DirectLockStatus)
      → s.phases t ≡ busy k p
      → (lookup k s.statuses ≡ some p) × (p ≢ held)
  pub alone :
      (t u : ℕ) (k : Bytes) (p q : DirectLockStatus)
      → s.phases t ≡ busy k p
      → s.phases u ≡ busy k q
      → t ≡ u

Step-IsExclusive : {s u : Locks} → Step s u → IsExclusive s → IsExclusive u
unfolding move begin_acquire finish_acquire begin_release finish_release
Step-IsExclusive (take s t k h free) c = record {
  recorded = λ u j p e.
      ground (arith, c.recorded u j p, lookup-put k j acquiring s.statuses, equal_iff k j);
  alone = λ u v j p q e f. ground (arith, c.alone u v j p q, c.recorded u j p, c.recorded v j q);
}
Step-IsExclusive (taken s t k b h) c = record {
  recorded = λ u j p e. ground (
    arith,
    c.recorded u j p,
    lookup-put k j held s.statuses,
    lookup-without k j s.statuses,
    equal_iff k j,
    c.alone t u k acquiring p h,
  );
  alone = λ u v j p q e f. ground (arith, c.alone u v j p q);
}
Step-IsExclusive (give s t k h free) c = record {
  recorded = λ u j p e.
      ground (arith, c.recorded u j p, lookup-put k j releasing s.statuses, equal_iff k j);
  alone = λ u v j p q e f. ground (arith, c.alone u v j p q, c.recorded u j p, c.recorded v j q);
}
Step-IsExclusive (given s t k b h) c = record {
  recorded = λ u j p e. ground (
    arith,
    c.recorded u j p,
    lookup-put k j held s.statuses,
    lookup-without k j s.statuses,
    equal_iff k j,
    c.alone t u k releasing p h,
  );
  alone = λ u v j p q e f. ground (arith, c.alone u v j p q);
}

Reach-IsExclusive : {s u : Locks} → IsExclusive s → Reach s u → IsExclusive u
Reach-IsExclusive h here = h
Reach-IsExclusive h (next r step) = Step-IsExclusive step (Reach-IsExclusive h r)

-- From a start where every caller is idle, and whatever the statuses are, two different callers are
-- never both inside tryLock, lock or unlock of the same key past their begin: not two in an
-- acquire, not two in a release, nor one in each.
pub Reach-alone :
    {s u : Locks} (a b : ℕ) (k : Bytes) (p q : DirectLockStatus)
    → ((t : ℕ) → s.phases t ≡ idle)
    → Reach s u
    → u.phases a ≡ busy k p
    → u.phases b ≡ busy k q
    → a ≡ b
Reach-alone a b k p q quiet r ha hb =
    (Reach-IsExclusive
        (record {
          recorded = λ t j x e. absurd (cc (quiet t));
          alone = λ t v j x y e f. absurd (cc (quiet t));
        })
        r).alone
      a b k p q ha hb
