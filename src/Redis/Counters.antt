-- ===== src/Redis/Counters.antt =====
-- Counters and locks of driver/rediscache/store.go, on a server that answers.
use cache.Prelude.{
  ℕ, ◌≡◌, ◌≢◌, inl, inr, refl, ap, sym, ◌∙◌, Bool, true, false, Option, none, some, List, [], ◌∷◌,
  arith, Bytes, equal, equal_refl, equal→eq, subst, negsuc, ℤ, pos, is_positive, IsInt64, ◌+ℤ◌,
  add64, neg64, wrap64_of_IsInt64, Bool-cases, Option-cases,
}
use cache.Decimal.{format_int, parse_int-format_int}
use cache.Store.{ok, err, Act, not_numeric, ttl_or, ttl_or-positive}
use cache.Store.Contract.{Command, flag, number, exec}
use cache.Store.Spec
use cache.Store.Spec.{assign, assign_none, counter, spec_step, spec_run}
use cache.Redis.Server.{Client, Leaves, with_value, ServerLaws, compare_and_delete}
use cache.Redis.{
  RedisStore, cache_key, lock_acquire, lock_release, increment, decrement, redis_store,
}
use cache.Redis.Table.{Counts, Holds, change-Holds, same-Holds, Refines}
use cache.Redis.Promises.{add_lem}

module _ (client : Client) (live : client.State → Bytes → Option Bytes) (pending : ℕ → Bytes → Bool)
    (turns : ℕ → ℕ) (laws : ServerLaws client live pending turns) (s : RedisStore)
    (up : s.connected ≡ true) (positive : is_positive s.ttl ≡ true) where
  -- A counter that is there after INCRBY gets its duration.
  counted-Refines :
      (k : Bytes) (d t n : ℤ) (st : client.State) (m : Spec.Table)
      → Holds client live pending turns laws s up positive st m
      → spec_step (Command.increment k d t) m ≡ (ok (number n), assign k (some (format_int n)) m)
      → Leaves client live n
          (with_value client live (cache_key client s k) (some (format_int n)) (live st))
          (client.incr_by (cache_key client s k) d st)
      → Refines client live pending turns laws s up positive (Command.increment k d t) st m
  unfolding exec redis_store increment
  counted-Refines k d t n st m h spec wrote =
      let name = cache_key client s k in
      let r = client.incr_by name d st in
      let present : live r.1 name ≡ some (format_int n) =
        ground (arith, wrote.1 name, equal_refl name) in
      let long = ttl_or-positive t s.ttl positive in
      let kept = laws.expire-present name (format_int n) (ttl_or t s.ttl) r.1 long present in
      record {
        reply = ok (number n);
        promised = ok (number n);
        table = assign k (some (format_int n)) m;
        state = (client.expire name (ttl_or t s.ttl) r.1).1;
        spec = spec;
        does = ground (arith, up, wrote.0, long, kept.0);
        agrees = refl;
        keeps =
            same-Holds client live pending turns laws s up positive r.1
              (client.expire name (ttl_or t s.ttl) r.1).1 (assign k (some (format_int n)) m) kept.1
              (change-Holds client live pending turns laws s up positive n k (some (format_int n))
                st m r h wrote);
      }

  add64-exact : (n d : ℤ) → IsInt64 (n +ℤ d) → add64 n d ≡ n +ℤ d
  unfolding add64
  add64-exact n d fits = wrap64_of_IsInt64 (n +ℤ d) fits

  zero-add : (d : ℤ) → pos 0 +ℤ d ≡ d
  unfolding ◌+ℤ◌
  zero-add (pos n) = ground arith
  zero-add (negsuc n) = ground arith

  pub increment-Refines :
      (k : Bytes) (d t : ℤ) (st : client.State) (m : Spec.Table)
      → Counts (m k) d
      → Holds client live pending turns laws s up positive st m
      → Refines client live pending turns laws s up positive (Command.increment k d t) st m
  unfolding exec redis_store increment spec_step
  increment-Refines k d t st m (inl (absent, fits)) h =
      let sum : add64 (pos 0) d ≡ d =
        add64-exact (pos 0) d (subst IsInt64 (sym (zero-add d)) fits) ∙ zero-add d in
      counted-Refines k d t d st m h (ground (arith, absent, sum))
        (laws.incr_by-absent (cache_key client s k) d st (h.at_key k ∙ absent) fits)
  increment-Refines k d t st m (inr (inl (n, there, n_fits, fits))) h =
      let sum : add64 n d ≡ n +ℤ d = add64-exact n d fits in
      counted-Refines k d t (n +ℤ d) st m h
        (ground (arith, there, parse_int-format_int n n_fits, sum))
        (laws.incr_by-number (cache_key client s k) n d st (h.at_key k ∙ there) n_fits fits)
  increment-Refines k d t st m (inr (inr (v, there, bad))) h =
      let (x, fails) = laws.incr_by-text (cache_key client s k) v d st (h.at_key k ∙ there) bad in
      record {
        reply = err x;
        promised = err (not_numeric k);
        table = m;
        state = st;
        spec = ground (arith, there, bad);
        does = ground (arith, up, fails);
        agrees = tt;
        keeps = h;
      }

  pub decrement-Refines :
      (k : Bytes) (d t : ℤ) (st : client.State) (m : Spec.Table)
      → Counts (m k) (neg64 d)
      → Holds client live pending turns laws s up positive st m
      → Refines client live pending turns laws s up positive (Command.decrement k d t) st m
  unfolding exec redis_store decrement spec_step
  decrement-Refines k d t st m fits h =
      let r = increment-Refines k (neg64 d) t st m fits h in
      record {
        reply = r.reply;
        promised = r.promised;
        table = r.table;
        state = r.state;
        spec = r.spec;
        does = r.does;
        agrees = r.agrees;
        keeps = r.keeps;
      }

  module _ (eval : Bytes → List Bytes → List Bytes → Act client.State ℤ)
      (scripts : client.eval ≡ some eval) where
    pub lock_acquire-Refines :
        (k o : Bytes) (t : ℤ) (st : client.State) (m : Spec.Table)
        → Holds client live pending turns laws s up positive st m
        → Refines client live pending turns laws s up positive (Command.lock_acquire k o t) st m
    unfolding exec redis_store lock_acquire spec_step
    lock_acquire-Refines k o t st m h =
        let a = add_lem client live pending turns laws s up positive k o t st m h in
        let does = a.does in
        record {
          reply = ok (flag a.answer);
          promised = ok (flag a.answer);
          table = a.table;
          state = a.state;
          spec = a.spec;
          does = ground (arith, up, scripts, does);
          agrees = refl;
          keeps = a.keeps;
        }

    kept-Refines :
        (k o : Bytes) (st : client.State) (m : Spec.Table)
        → Holds client live pending turns laws s up positive st m
        → m k ≢ some o
        → spec_step (Command.lock_release k o) m ≡ (ok (flag false), m)
        → Refines client live pending turns laws s up positive (Command.lock_release k o) st m
    unfolding exec redis_store lock_release
    kept-Refines k o st m h other spec =
        let name = cache_key client s k in
        let r = eval compare_and_delete (name ∷ []) (o ∷ []) st in
        let kept =
          (laws.script eval scripts name o st).1 (λ there. other (sym (h.at_key k) ∙ there)) in
        record {
          reply = ok (flag false);
          promised = ok (flag false);
          table = m;
          state = r.1;
          spec = spec;
          does = ground (arith, up, scripts, kept.0);
          agrees = refl;
          keeps = same-Holds client live pending turns laws s up positive st r.1 m kept.1 h;
        }

    pub lock_release-Refines :
        (k o : Bytes) (st : client.State) (m : Spec.Table)
        → Holds client live pending turns laws s up positive st m
        → Refines client live pending turns laws s up positive (Command.lock_release k o) st m
    unfolding exec redis_store lock_release spec_step
    lock_release-Refines k o st m h = elim (Option-cases (m k)) [
      | inl absent ↦
          kept-Refines k o st m h (λ same. ground (arith, same, absent)) (ground (arith, absent))
      | inr (v, there) ↦ elim (Bool-cases (equal v o)) [
        | inr other ↦
            kept-Refines k o st m h (λ same. ground (arith, same, there, other, equal_refl v))
              (ground (arith, there, other))
        | inl mine ↦
            let name = cache_key client s k in
            let r = eval compare_and_delete (name ∷ []) (o ∷ []) st in
            let freed =
              (laws.script eval scripts name o st).0
                (h.at_key k ∙ there ∙ ap some (equal→eq v o mine)) in
            record {
              reply = ok (flag true);
              promised = ok (flag true);
              table = assign k none m;
              state = r.1;
              spec = ground (arith, there, mine);
              does = ground (arith, up, scripts, freed.0);
              agrees = refl;
              keeps =
                  change-Holds client live pending turns laws s up positive (pos 1) k none st m r h
                    freed;
            }
      ]
    ]
