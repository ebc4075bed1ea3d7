-- ===== src/Fake/Counts.antt =====
-- What the fake of cachefake/fake.go counts, and that it leaves the store under it to itself.
use cache.Prelude.{
  ℕ, ◌+◌, ◌≡◌, refl, ap, sym, ◌∙◌, subst, Bool, true, ◌&&◌, none, List, [], ◌∷◌, ◌++◌, arith, Bytes,
  equal, equal_refl, equal_iff, lookup, put, without, lookup-put, lookup-without, Map,
  if◌then◌else◌, Bool-cases, inl, inr,
}
use cache.Store.{Store}
use cache.Store.Contract.{Command}
use cache.Fake.{
  Op, op_get, op_set, op_add, op_inc, op_dec, op_delete, op_delete_many, op_flush, name, Fake,
  counts_of, count, sum, total, record_call, map_or_empty, count_or_zero,
}

-- Each map has a key once.
abbrev pub Unique {ℓ} : {V : Type ℓ} → Map V → Type ℓ
Unique [] = Unit
Unique ((k, v) ∷ m) = (lookup k m ≡ none) × Unique m

without-Unique {ℓ} : {V : Type ℓ} (k : Bytes) (m : Map V) → Unique m → Unique (without k m)
unfolding without
without-Unique k [] h = tt
without-Unique k ((j, v) ∷ m) h = elim (Bool-cases (equal j k)) [
  | inl same ↦ rw same (without-Unique k m h.1)
  | inr other ↦ rw other (ground (arith, lookup-without k j m, h.0), without-Unique k m h.1)
]

put-Unique {ℓ} : {V : Type ℓ} (k : Bytes) (v : V) (m : Map V) → Unique m → Unique (put k v m)
unfolding put
put-Unique k v m h = (ground (arith, lookup-without k k m, equal_refl k), without-Unique k m h)

sum-without :
    (k : Bytes) (m : Map ℕ) → Unique m → sum (without k m) + count_or_zero (lookup k m) ≡ sum m
unfolding without lookup
sum-without k [] h = refl
sum-without k ((j, n) ∷ m) h = elim (Bool-cases (equal j k)) [
  | inl same ↦ ground (arith, same, equal_iff j k, h.0, sum-without k m h.1)
  | inr other ↦ ground (arith, other, sum-without k m h.1)
]

-- The calls that a command makes. A lock is taken by an Add and freed by a Delete.
abbrev pub each : Op → List Bytes → List (Op × Bytes)
each op [] = []
each op (key ∷ keys) = (op, key) ∷ each op keys

abbrev pub calls : Command → List (Op × Bytes)
calls (Command.get k) = (op_get, k) ∷ []
calls (Command.set k v t) = (op_set, k) ∷ []
calls (Command.add k v t) = (op_add, k) ∷ []
calls (Command.increment k d t) = (op_inc, k) ∷ []
calls (Command.decrement k d t) = (op_dec, k) ∷ []
calls (Command.delete k) = (op_delete, k) ∷ []
calls (Command.delete_many ks) = each op_delete_many ks
calls Command.flush = (op_flush, []) ∷ []
calls (Command.lock_acquire k o t) = (op_add, k) ∷ []
calls (Command.lock_release k o) = (op_delete, k) ∷ []

abbrev pub is_op : Op → Op → Bool
is_op o op = equal (name o) (name op)

-- How many of the calls are of an operation and a key, and of an operation.
abbrev pub occurrences : Op → Bytes → List (Op × Bytes) → ℕ
occurrences op key [] = 0
occurrences op key ((o, k) ∷ cs) =
    (if is_op o op && equal k key then 1 else 0) + occurrences op key cs

abbrev pub occurrences_of : Op → List (Op × Bytes) → ℕ
occurrences_of op [] = 0
occurrences_of op ((o, k) ∷ cs) = (if is_op o op then 1 else 0) + occurrences_of op cs

abbrev pub all_calls : List Command → List (Op × Bytes)
all_calls [] = []
all_calls (c ∷ cs) = calls c ++ all_calls cs

pub occurrences-append :
    (op : Op) (key : Bytes) (cs ds : List (Op × Bytes))
    → occurrences op key (cs ++ ds) ≡ occurrences op key cs + occurrences op key ds
occurrences-append op key [] ds = omega arith
occurrences-append op key (c ∷ cs) ds = omega (arith, occurrences-append op key cs ds)

pub occurrences_of-append :
    (op : Op) (cs ds : List (Op × Bytes))
    → occurrences_of op (cs ++ ds) ≡ occurrences_of op cs + occurrences_of op ds
occurrences_of-append op [] ds = omega arith
occurrences_of-append op (c ∷ cs) ds = omega (arith, occurrences_of-append op cs ds)

-- The store under the fake, without its optional interfaces.
abbrev pub plain : {W : Type 0} → Store W → Store W
plain store = record store { lock_store = none; inspector = none }

module _ {W : Type 0} where
  -- What holds of the counts.
  pub record IsCounted (f : Fake W) : Type 0 where
    pub unique : (op : Op) → Unique (counts_of op f)

  abbrev pub recorded : List (Op × Bytes) → Fake W → Fake W
  recorded [] f = f
  recorded ((op, key) ∷ cs) f = recorded cs (record_call op key f)

  counts-record_call :
      (o op : Op) (key : Bytes) (f : Fake W)
      → counts_of op (record_call o key f) ≡ (
          if is_op o op
          then put key (count_or_zero (lookup key (counts_of o f)) + 1) (counts_of o f)
          else counts_of op f)
  unfolding record_call
  counts-record_call o op key f =
      let m = put key (count_or_zero (lookup key (counts_of o f)) + 1) (counts_of o f) in
      ground (arith, lookup-put (name o) (name op) m f.counts)

  same_op : (o op : Op) (f : Fake W) → is_op o op ≡ true → counts_of o f ≡ counts_of op f
  same_op o op f h =
      ap (λ (n : Bytes). map_or_empty (lookup n f.counts))
        (ground (arith, h, equal_iff (name o) (name op)))

  count-record_call :
      (o op : Op) (k key : Bytes) (f : Fake W)
      → count op key (record_call o k f)
        ≡ (if is_op o op && equal k key then 1 else 0) + count op key f
  unfolding count
  count-record_call o op k key f = elim (Bool-cases (is_op o op)) [
    | inr other ↦ ground (arith, counts-record_call o op k f, other)
    | inl same ↦ ground (
      arith,
      counts-record_call o op k f,
      same,
      same_op o op f same,
      equal_iff k key,
      lookup-put k key (count_or_zero (lookup k (counts_of o f)) + 1) (counts_of o f),
    )
  ]

  total-record_call :
      (o op : Op) (k : Bytes) (f : Fake W)
      → IsCounted f
      → total op (record_call o k f) ≡ (if is_op o op then 1 else 0) + total op f
  unfolding total put
  total-record_call o op k f h = elim (Bool-cases (is_op o op)) [
    | inr other ↦ ground (arith, counts-record_call o op k f, other)
    | inl same ↦ ground (
      arith,
      counts-record_call o op k f,
      same,
      same_op o op f same,
      sum-without k (counts_of o f) (h.unique o),
    )
  ]

  record_call-IsCounted :
      (o : Op) (k : Bytes) (f : Fake W) → IsCounted f → IsCounted (record_call o k f)
  record_call-IsCounted o k f h = record {
    unique = λ op. elim (Bool-cases (is_op o op)) [
      | inl same ↦
          subst Unique (sym (counts-record_call o op k f ∙ rw same refl)) (
            put-Unique k (count_or_zero (lookup k (counts_of o f)) + 1) (counts_of o f)
              (h.unique o))
      | inr other ↦ subst Unique (sym (counts-record_call o op k f ∙ rw other refl)) (h.unique op)
    ];
  }

  pub recorded-IsCounted :
      (cs : List (Op × Bytes)) (f : Fake W) → IsCounted f → IsCounted (recorded cs f)
  recorded-IsCounted [] f h = h
  recorded-IsCounted ((o, k) ∷ cs) f h =
      recorded-IsCounted cs (record_call o k f) (record_call-IsCounted o k f h)

  pub count-recorded :
      (op : Op) (key : Bytes) (cs : List (Op × Bytes)) (f : Fake W)
      → count op key (recorded cs f) ≡ occurrences op key cs + count op key f
  count-recorded op key [] f = omega arith
  count-recorded op key ((o, k) ∷ cs) f =
      omega (arith, count-recorded op key cs (record_call o k f), count-record_call o op k key f)

  pub total-recorded :
      (op : Op) (cs : List (Op × Bytes)) (f : Fake W)
      → IsCounted f
      → total op (recorded cs f) ≡ occurrences_of op cs + total op f
  total-recorded op [] f h = omega arith
  total-recorded op ((o, k) ∷ cs) f h = omega (
    arith,
    total-recorded op cs (record_call o k f) (record_call-IsCounted o k f h),
    total-record_call o op k f h,
  )
