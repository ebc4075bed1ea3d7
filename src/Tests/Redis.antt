-- ===== src/Tests/Redis.antt =====
-- driver/rediscache/store.go at concrete inputs, on a server that is a map.
use cache.Prelude.{
  ◌≡◌, ◌≢◌, refl, ap, sym, ◌∙◌, Bool, true, false, Option, none, some, List, [], ◌∷◌, ◌++◌, arith,
  Bytes, codes, equal, equal_refl, equal→eq, subst, add64, has_prefix, Map, lookup, put, without,
  lookup-put, lookup-without, ℤ, pos, ◌+ℤ◌, inl, inr, Option-cases, Bool-cases, if◌then◌else◌,
}
use cache.Decimal.{parse_int, format_int, parse_int-format_int}
use cache.Store.{Result, ok, err, text, Act}
use cache.Store.Contract.{
  Command, get, increment, lock_acquire, lock_release, delete_many, run, member,
}
use cache.Store.Spec.{spec_step, spec_run}
use cache.Redis.Server.{Client, IsLiteral, ServerLaws, compare_and_delete, Leaves, with_value}
use cache.Redis.{RedisStore, redis_store}
use cache.Redis
use cache.Redis.Table.{AllAgree, AllFit, Holds}
use cache.Redis.Refines.{run-redis_store}
use cache.Redis.Flushes.{flush-ends}

abbrev Items : Type 0
Items = Map Bytes

abbrev set_over : Option Bytes → Bytes → Bytes → Items → Result Bool × Items
set_over none k v m = (ok true, put k v m)
set_over (some old) k v m = (ok false, m)

abbrev counted : Option ℤ → Bytes → ℤ → Items → Result ℤ × Items
counted none k d m = (err (text "ERR value is not an integer or out of range"), m)
counted (some n) k d m = (ok (n +ℤ d), put k (format_int (n +ℤ d)) m)

abbrev count_over : Option Bytes → Bytes → ℤ → Items → Result ℤ × Items
count_over none k d m = (ok d, put k (format_int d) m)
count_over (some v) k d m = counted (parse_int v) k d m

abbrev is_some : Option Bytes → Bool
is_some none = false
is_some (some v) = true

abbrev del : List Bytes → Items → Items
del [] m = m
del (k ∷ ks) m = del ks (without k m)

abbrev keys_with : Bytes → Items → List Bytes
keys_with p [] = []
keys_with p ((k, v) ∷ m) = let rest = keys_with p m in if has_prefix k p then k ∷ rest else rest

abbrev drop_last : Bytes → Bytes
drop_last [] = []
drop_last (c ∷ []) = []
drop_last (c ∷ d ∷ s) = c ∷ drop_last (d ∷ s)

abbrev release_over : Option Bytes → Bytes → Bytes → Items → Result ℤ × Items
release_over none k o m = (ok (pos 0), m)
release_over (some v) k o m = if equal v o then (ok (pos 1), without k m) else (ok (pos 0), m)

abbrev eval : Bytes → List Bytes → List Bytes → Act Items ℤ
eval source (k ∷ []) (o ∷ []) m = release_over (lookup k m) k o m
eval source ks args m = (err (text "ERR"), m)

abbrev client : Client
client = record {
  State = Items;
  ping = λ m. (ok tt, m);
  get = λ k m. (ok (lookup k m), m);
  set = λ k v t m. (ok tt, put k v m);
  set_nx = λ k v t m. set_over (lookup k m) k v m;
  incr_by = λ k d m. count_over (lookup k m) k d m;
  expire = λ k t m. (ok (is_some (lookup k m)), m);
  del = λ ks m. (ok (pos 0), del ks m);
  scan = λ c p n m. (ok (keys_with (drop_last p) m, 0), m);
  eval = some eval;
}

abbrev live : Items → Bytes → Option Bytes
live m k = lookup k m

drop_last-append : (p : Bytes) → drop_last (p ++ codes "*") ≡ p
drop_last-append [] = refl
drop_last-append (c ∷ []) = refl
drop_last-append (c ∷ d ∷ p) = ap (◌∷◌ c) (drop_last-append (d ∷ p))

keys_with-prefix :
    (p : Bytes) (m : Items) (k : Bytes) → member k (keys_with p m) ≡ true → has_prefix k p ≡ true
keys_with-prefix p [] k h = absurd (ground (arith, h))
keys_with-prefix p ((j, v) ∷ m) k h = elim (Bool-cases (has_prefix j p)) [
  | inr other ↦ keys_with-prefix p m k (ground (arith, h, other))
  | inl own ↦ elim (Bool-cases (equal j k)) [
    | inl same ↦ ap (λ (x : Bytes). has_prefix x p) (sym (equal→eq j k same)) ∙ own
    | inr differs ↦ keys_with-prefix p m k (ground (arith, h, own, differs))
  ]
]

keys_with-member :
    (p : Bytes) (m : Items) (k v : Bytes)
    → lookup k m ≡ some v
    → has_prefix k p ≡ true
    → member k (keys_with p m) ≡ true
unfolding lookup
keys_with-member p [] k v h own = absurd (ground (arith, h))
keys_with-member p ((j, w) ∷ m) k v h own = elim (Bool-cases (equal j k)) [
  | inl same ↦
      let own' : has_prefix j p ≡ true =
        ap (λ (x : Bytes). has_prefix x p) (equal→eq j k same) ∙ own in
      ground (arith, own', same)
  | inr differs ↦ elim (Bool-cases (has_prefix j p)) [
    | inl owned ↦
        ground (arith, owned, differs, keys_with-member p m k v (ground (arith, h, differs)) own)
    | inr no_prefix ↦
        ground (arith, no_prefix, keys_with-member p m k v (ground (arith, h, differs)) own)
  ]
]

lookup-del :
    (ks : List Bytes) (m : Items) (j : Bytes)
    → lookup j (del ks m) ≡ (if member j ks then none else lookup j m)
lookup-del [] m j = refl
lookup-del (k ∷ ks) m j = ground (arith, lookup-del ks (without k m) j, lookup-without k j m)

scan-pages :
    (p : Bytes) (m : Items) → client.scan 0 (p ++ codes "*") 200 m ≡ (ok (keys_with p m, 0), m)
scan-pages p m = ap (λ (q : Bytes). (ok (keys_with q m, 0), m)) (drop_last-append p)

abbrev Script : (Bytes → List Bytes → List Bytes → Act Items ℤ) → Type 0
Script f =
    (k o : Bytes) (m : Items)
    → (live m k ≡ some o
        → Leaves client live (pos 1) (with_value client live k none (live m))
            (f compare_and_delete (k ∷ []) (o ∷ []) m))
      × (live m k ≢ some o
          → Leaves client live (pos 0) (live m) (f compare_and_delete (k ∷ []) (o ∷ []) m))

abbrev OptionalScript : Option (Bytes → List Bytes → List Bytes → Act Items ℤ) → Type 0
OptionalScript none = Unit
OptionalScript (some f) = Script f

eval-Script : Script eval
eval-Script k o m = elim (Option-cases (lookup k m)) [
  | inl absent ↦ (
    λ h. absurd (ground (arith, h, absent)),
    λ h. (ground (arith, absent), λ j. ground (arith, absent)),
  )
  | inr (v, there) ↦ elim (Bool-cases (equal v o)) [
    | inl mine ↦ (
      λ h. (ground (arith, there, mine), λ j. ground (arith, there, mine, lookup-without k j m)),
      λ h. absurd (h (there ∙ ap some (equal→eq v o mine))),
    )
    | inr other ↦ (
      λ h. absurd (ground (arith, h, there, other, equal_refl v)),
      λ h. (ground (arith, there, other), λ j. ground (arith, there, other)),
    )
  ]
]

laws : ServerLaws client live (λ c k. true) (λ c. 0)
laws = record {
  get-live = λ k m. refl;
  set-lem = λ k v t m h. (refl, λ j. lookup-put k j v m);
  set_nx-absent = λ k v t m p h. (ground (arith, h), λ j. ground (arith, h, lookup-put k j v m));
  set_nx-present = λ k v old t m h. (ground (arith, h), λ j. ground (arith, h));
  incr_by-absent =
      λ k d m h fits. (ground (arith, h), λ j. ground (arith, h, lookup-put k j (format_int d) m));
  incr_by-number = λ k n d m h fits sum. (
    ground (arith, h, parse_int-format_int n fits),
    λ j. ground (arith, h, parse_int-format_int n fits, lookup-put k j (format_int (n +ℤ d)) m),
  );
  incr_by-text =
      λ k v d m h bad. (text "ERR value is not an integer or out of range", ground (arith, h, bad));
  expire-present = λ k v t m p h. (ground (arith, h), λ j. refl);
  del-lem = λ ks m. (pos 0, (refl, λ j. lookup-del ks m j));
  starts = λ k. refl;
  scan-lem = λ c p m literal. (
    keys_with p m,
    0,
    scan-pages p m,
    keys_with-prefix p m,
    λ k v held own ahead absent. absurd (ground (arith, keys_with-member p m k v held own, absent)),
    λ more. absurd (more refl),
  );
  script = λ f is. subst OptionalScript is eval-Script;
}

abbrev store : RedisStore
store = record { connected = true; ttl = pos 60; prefix = codes "app"; turns = 1 }

literal : IsLiteral (codes "app:")
literal = (refl, (refl, (refl, (refl, tt))))

empty-Holds : Holds client live (λ c k. true) (λ c. 0) laws store refl refl [] (λ k. none)
unfolding lookup
empty-Holds = record { at_key = λ k. refl }

abbrev script : List Command
script =
    increment (codes "n") (pos 41) (pos 5)
    ∷ increment (codes "n") (pos 1) (pos 0)
    ∷ get (codes "n")
    ∷ lock_acquire (codes "l") (codes "me") (pos 5)
    ∷ lock_release (codes "l") (codes "you")
    ∷ delete_many (codes "n" ∷ codes "l" ∷ [])
    ∷ Command.flush
    ∷ []

script-AllFit : AllFit (λ k. none) script
unfolding spec_step equal add64 ◌+ℤ◌
script-AllFit = (
  inl (refl, (omega arith, omega arith)),
  (
    inr (inl (pos 41, refl, (omega arith, omega arith), (omega arith, omega arith))),
    (tt, (tt, (tt, (tt, (tt, tt))))),
  ),
)

run-redis_store_example :
    AllAgree (run (redis_store client store) script []).0 (spec_run script (λ k. none)).0
    × Holds client live
        (λ c k. true)
        (λ c. 0)
        laws
        store
        refl
        refl
        (run (redis_store client store) script []).1
        (spec_run script (λ k. none)).1
run-redis_store_example =
    run-redis_store client live (λ c k. true) (λ c. 0) laws store refl refl eval refl literal
      (omega arith) script [] (λ k. none) script-AllFit empty-Holds

abbrev shared : Items
shared = (codes "web:a", codes "theirs") ∷ (codes "app:a", codes "ours") ∷ []

flush-ends_example :
    ((Redis.flush client store shared).0 ≡ ok tt)
    × ((k : Bytes)
        → has_prefix k (codes "app:") ≡ true
        → live (Redis.flush client store shared).1 k ≡ none)
    × ((k : Bytes)
        → has_prefix k (codes "app:") ≡ false
        → live (Redis.flush client store shared).1 k ≡ live shared k)
flush-ends_example =
    flush-ends client live (λ c k. true) (λ c. 0) laws store refl refl shared literal (omega arith)
