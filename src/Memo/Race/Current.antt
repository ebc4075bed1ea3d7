-- ===== src/Memo/Race/Current.antt =====
-- Why a memo entry of store_memo.go is current with any number of concurrent callers.
use cache.Prelude.{
  ℕ, ◌+◌, ◌≤◌, ◌<◌, ◌≡◌, sym, ◌∙◌, ◌⊎◌, inl, inr, refl, Bool, true, false, not, ◌&&◌, ◌||◌, Option,
  some, arith, Bytes, equal_iff, lookup, lookup-put, lookup-without, ◌==◌, two64, Bool-cases,
}
use cache.Memo.{MemoState, publish}
use cache.Memo.Transparent.{lookup-without_all}
use cache.Memo.Race.{
  Mutation, one, many, all, covers, settle, Phase, idle, reading, fetched, written, Shared, move,
  Step, begin, fetch, abandon, finish, write, fail, drop, Reach, here, next, Pending, IsFreshStart,
}

pub record IsCoherent (s : Shared) : Type 0 where
  pub entries :
      (k : Bytes) (v : Option Bytes)
      → lookup k s.memo.items ≡ some v
      → (v ≡ s.backing k) ⊎ Pending s k ⊎ (s.torn k ≡ true)
  pub flights :
      (t : ℕ) (k : Bytes) (v : Option Bytes)
      → s.phases t ≡ fetched k s.memo.generation v
      → (v ≡ s.backing k) ⊎ Pending s k ⊎ (s.torn k ≡ true)
  pub reads_bounded : (t : ℕ) (k : Bytes) (g : ℕ) → s.phases t ≡ reading k g → g ≤ s.memo.generation
  pub flights_bounded :
      (t : ℕ) (k : Bytes) (g : ℕ) (v : Option Bytes)
      → s.phases t ≡ fetched k g v
      → g ≤ s.memo.generation

-- A value is what the backing store holds, or its key is about to be forgotten or is torn.
abbrev Fresh : Shared → Bytes → Option Bytes → Type 0
Fresh s k v = (v ≡ s.backing k) ⊎ Pending s k ⊎ (s.torn k ≡ true)

-- The same entries, and a caller that moves on from anything but a mutation of the key.
keep-Fresh :
    (s : Shared) (t : ℕ) (p : Phase) (k : Bytes) (v : Option Bytes) (memo : MemoState)
    (torn : Bytes → Bool)
    → ((m : Mutation) → s.phases t ≡ written m → covers m k ≡ false)
    → torn k ≡ s.torn k
    → Fresh s k v
    → Fresh (record s { memo = memo; phases = move t p s.phases; torn = torn }) k v
unfolding move
keep-Fresh s t p k v memo torn elsewhere same (inl e) = inl e
keep-Fresh s t p k v memo torn elsewhere same (inr (inl (u, m, at, covered))) =
    inr (inl (u, m, ground (arith, elsewhere m), covered))
keep-Fresh s t p k v memo torn elsewhere same (inr (inr lost)) = inr (inr (same ∙ lost))

-- After a mutation of the backing store everything it may have changed is pending.
Fresh-write :
    (s : Shared) (t : ℕ) (m : Mutation) (changed : Bytes → Option Bytes) (k : Bytes)
    (v : Option Bytes)
    → s.phases t ≡ idle
    → ((j : Bytes) → covers m j ≡ false → changed j ≡ s.backing j)
    → Fresh s k v
    → Fresh (record s { backing = changed; phases = move t (written m) s.phases }) k v
unfolding move
Fresh-write s t m changed k v h agree fresh = elim (Bool-cases (covers m k)) [
  | inl covered ↦ inr (inl (t, m, ground arith, covered))
  | inr clear ↦ elim fresh [
    | inl e ↦ inl (e ∙ sym (agree k clear))
    | inr (inl (u, n, at, covered)) ↦ inr (inl (u, n, ground arith, covered))
    | inr (inr lost) ↦ inr (inr lost)
  ]
]

-- After a mutation that failed everything it may have changed is torn.
Fresh-fail :
    (s : Shared) (m : Mutation) (changed : Bytes → Option Bytes) (k : Bytes) (v : Option Bytes)
    → ((j : Bytes) → covers m j ≡ false → changed j ≡ s.backing j)
    → Fresh s k v
    → Fresh (record s { backing = changed; torn = λ j. covers m j || s.torn j }) k v
Fresh-fail s m changed k v agree fresh = elim (Bool-cases (covers m k)) [
  | inl covered ↦ inr (inr (ground arith))
  | inr clear ↦ elim fresh [
    | inl e ↦ inl (e ∙ sym (agree k clear))
    | inr (inl p) ↦ inr (inl p)
    | inr (inr lost) ↦ inr (inr (ground arith))
  ]
]

publish-entries :
    (k j : Bytes) (g : ℕ) (v w : Option Bytes) (m : MemoState)
    → lookup j (publish k g v m).items ≡ some w
    → ((m.generation ≡ g) × (k ≡ j) × (v ≡ w)) ⊎ (lookup j m.items ≡ some w)
unfolding publish
publish-entries k j g v w m h = ground (arith, lookup-put k j v m.items, equal_iff k j)

publish-generation :
    (k : Bytes) (g : ℕ) (v : Option Bytes) (m : MemoState)
    → (publish k g v m).generation ≡ m.generation
unfolding publish
publish-generation k g v m = ground arith

settle-entries :
    (m : Mutation) (j : Bytes) (v : Option Bytes) (memo : MemoState)
    → lookup j (settle m memo).items ≡ some v
    → (covers m j ≡ false) × (lookup j memo.items ≡ some v)
unfolding settle lookup
settle-entries (one k) j v memo h = ground (arith, lookup-without k j memo.items)
settle-entries (many ks) j v memo h = ground (arith, lookup-without_all ks j memo.items)
settle-entries all j v memo h = ground arith

settle-generation :
    (m : Mutation) (memo : MemoState)
    → memo.generation + 1 < two64
    → (settle m memo).generation ≡ memo.generation + 1
unfolding settle
settle-generation (one k) memo h = omega arith
settle-generation _ memo h = omega arith

Step-IsCoherent : {s u : Shared} → Step s u → IsCoherent s → IsCoherent u
unfolding move
Step-IsCoherent (begin s t k h miss) c = record {
  entries = λ j v e. keep-Fresh s t _ j v s.memo s.torn (λ m at. cc) refl (c.entries j v e);
  flights = λ u j v e.
      keep-Fresh s t _ j v s.memo s.torn (λ m at. cc) refl (c.flights u j v (ground arith));
  reads_bounded = λ u j g e. ground (arith, c.reads_bounded u j g);
  flights_bounded = λ u j g v e. ground (arith, c.flights_bounded u j g v);
}
Step-IsCoherent (fetch s t k g h) c = record {
  entries = λ j v e. keep-Fresh s t _ j v s.memo s.torn (λ m at. cc) refl (c.entries j v e);
  flights = λ u j v e. elim (Bool-cases (u == t)) [
    | inl own ↦ inl (ground arith)
    | inr other ↦
        keep-Fresh s t _ j v s.memo s.torn (λ m at. cc) refl (c.flights u j v (ground arith))
  ];
  reads_bounded = λ u j g' e. ground (arith, c.reads_bounded u j g');
  flights_bounded = λ u j g' v e. ground (arith, c.flights_bounded u j g' v, c.reads_bounded t k g);
}
Step-IsCoherent (abandon s t k g h) c = record {
  entries = λ j v e. keep-Fresh s t _ j v s.memo s.torn (λ m at. cc) refl (c.entries j v e);
  flights = λ u j v e.
      keep-Fresh s t _ j v s.memo s.torn (λ m at. cc) refl (c.flights u j v (ground arith));
  reads_bounded = λ u j g' e. ground (arith, c.reads_bounded u j g');
  flights_bounded = λ u j g' v e. ground (arith, c.flights_bounded u j g' v);
}
Step-IsCoherent (finish s t k g v h) c = record {
  entries = λ j w e.
      keep-Fresh s t _ j w (publish k g v s.memo) s.torn (λ m at. cc) refl
        (elim (publish-entries k j g v w s.memo e) [
          | inl (g_eq, k_eq, v_eq) ↦ c.flights t j w (cc)
          | inr old ↦ c.entries j w old
        ]);
  flights = λ u j w e.
      keep-Fresh s t _ j w (publish k g v s.memo) s.torn (λ m at. cc) refl
        (c.flights u j w (ground (arith, publish-generation k g v s.memo)));
  reads_bounded =
      λ u j g' e. ground (arith, c.reads_bounded u j g', publish-generation k g v s.memo);
  flights_bounded =
      λ u j g' w e. ground (arith, c.flights_bounded u j g' w, publish-generation k g v s.memo);
}
Step-IsCoherent (write s t m changed h agree) c = record {
  entries = λ j v e. Fresh-write s t m changed j v h agree (c.entries j v e);
  flights = λ u j v e. Fresh-write s t m changed j v h agree (c.flights u j v (ground arith));
  reads_bounded = λ u j g e. ground (arith, c.reads_bounded u j g);
  flights_bounded = λ u j g v e. ground (arith, c.flights_bounded u j g v);
}
Step-IsCoherent (fail s t m changed h agree) c = record {
  entries = λ j v e. Fresh-fail s m changed j v agree (c.entries j v e);
  flights = λ u j v e. Fresh-fail s m changed j v agree (c.flights u j v e);
  reads_bounded = c.reads_bounded;
  flights_bounded = c.flights_bounded;
}
Step-IsCoherent (drop s t m h room) c = record {
  entries = λ j v e.
      let (clear, old) = settle-entries m j v s.memo e in
      keep-Fresh s t _ j v (settle m s.memo) (λ i. not (covers m i) && s.torn i) (λ n at. cc)
        (ground (arith, clear)) (c.entries j v old);
  flights = λ u j v e. absurd (
      ground
        (arith, settle-generation m s.memo, c.flights_bounded u j (settle m s.memo).generation v));
  reads_bounded = λ u j g e. ground (arith, c.reads_bounded u j g, settle-generation m s.memo);
  flights_bounded =
      λ u j g v e. ground (arith, c.flights_bounded u j g v, settle-generation m s.memo);
}

IsFreshStart-IsCoherent : (s : Shared) → IsFreshStart s → IsCoherent s
unfolding lookup
IsFreshStart-IsCoherent s (nothing, quiet, whole) = record {
  entries = λ k v e. absurd (ground arith);
  flights = λ t k v e. absurd (cc (quiet t));
  reads_bounded = λ t k g e. absurd (cc (quiet t));
  flights_bounded = λ t k g v e. absurd (cc (quiet t));
}

pub Reach-IsCoherent : {s u : Shared} → IsFreshStart s → Reach s u → IsCoherent u
Reach-IsCoherent {s} start here = IsFreshStart-IsCoherent s start
Reach-IsCoherent start (next r step) = Step-IsCoherent step (Reach-IsCoherent start r)

-- From a start where every caller is idle and nothing is memoized, however the calls interleave and
-- whichever calls of the backing store fail, a memo entry of a key holds what the backing store
-- holds for it, unless a mutation of that key has changed the backing store and its caller has not
-- yet taken the lock to forget, or a mutation of that key has failed since a later one last made
-- the memo forget it. The counter of generations does not come full circle.
pub Reach-hit_is_current :
    {s u : Shared} (k : Bytes) (v : Option Bytes)
    → IsFreshStart s
    → Reach s u
    → ¬ Pending u k
    → u.torn k ≡ false
    → lookup k u.memo.items ≡ some v
    → v ≡ u.backing k
Reach-hit_is_current k v start r settled whole hit =
    elim ((Reach-IsCoherent start r).entries k v hit) [
      | inl e ↦ e
      | inr (inl p) ↦ absurd (settled p)
      | inr (inr lost) ↦ absurd (ground (arith, whole, lost))
    ]
