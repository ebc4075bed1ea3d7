-- ===== src/Redis/Promises.antt =====
-- Reads and writes of one key in driver/rediscache/store.go, on a server that answers.
use cache.Prelude.{
  ℕ, ◌≡◌, inl, inr, refl, ◌∙◌, Bool, true, false, Option, none, some, [], ◌∷◌, arith, Bytes, ℤ,
  is_positive, Option-cases,
}
use cache.Store.{ok, ttl_or, ttl_or-positive}
use cache.Store.Contract.{Command, found, done, flag, exec}
use cache.Store.Spec
use cache.Store.Spec.{assign, assign_none, counter, spec_step, spec_run}
use cache.Redis.Server.{Client, ServerLaws}
use cache.Redis.{RedisStore, cache_key, get, set, add, delete, redis_store}
use cache.Redis.Table.{equal-cache_key, Holds, change-Holds, same-Holds, Refines}

module _ (client : Client) (live : client.State → Bytes → Option Bytes) (pending : ℕ → Bytes → Bool)
    (turns : ℕ → ℕ) (laws : ServerLaws client live pending turns) (s : RedisStore)
    (up : s.connected ≡ true) (positive : is_positive s.ttl ≡ true) where
  pub get-Refines :
      (k : Bytes) (st : client.State) (m : Spec.Table)
      → Holds client live pending turns laws s up positive st m
      → Refines client live pending turns laws s up positive (Command.get k) st m
  unfolding exec redis_store get spec_step
  get-Refines k st m h = record {
    reply = ok (found (m k));
    promised = ok (found (m k));
    table = m;
    state = st;
    spec = refl;
    does = ground (arith, up, laws.get-live (cache_key client s k) st, h.at_key k);
    agrees = refl;
    keeps = h;
  }

  pub set-Refines :
      (k v : Bytes) (t : ℤ) (st : client.State) (m : Spec.Table)
      → Holds client live pending turns laws s up positive st m
      → Refines client live pending turns laws s up positive (Command.set k v t) st m
  unfolding exec redis_store set spec_step
  set-Refines k v t st m h =
      let r = client.set (cache_key client s k) v (ttl_or t s.ttl) st in
      let wrote =
        laws.set-lem (cache_key client s k) v (ttl_or t s.ttl) st
          (ttl_or-positive t s.ttl positive) in
      record {
        reply = ok done;
        promised = ok done;
        table = assign k (some v) m;
        state = r.1;
        spec = refl;
        does = ground (arith, up, wrote.0);
        agrees = refl;
        keeps =
            change-Holds client live pending turns laws s up positive tt k (some v) st m r h wrote;
      }

  pub delete-Refines :
      (k : Bytes) (st : client.State) (m : Spec.Table)
      → Holds client live pending turns laws s up positive st m
      → Refines client live pending turns laws s up positive (Command.delete k) st m
  unfolding exec redis_store delete spec_step
  delete-Refines k st m h =
      let r = client.del (cache_key client s k ∷ []) st in
      let (n, wrote) = laws.del-lem (cache_key client s k ∷ []) st in
      record {
        reply = ok done;
        promised = ok done;
        table = assign k none m;
        state = r.1;
        spec = refl;
        does = ground (arith, up, wrote.0);
        agrees = refl;
        keeps = record {
          at_key = λ j.
              ground
                (arith, wrote.1 (cache_key client s j), equal-cache_key client s k j, h.at_key j);
        };
      }

  pub record Added (k v : Bytes) (t : ℤ) (st : client.State) (m : Spec.Table) : Type 0 where
    pub answer : Bool
    pub table : Spec.Table
    pub state : client.State
    pub spec : Spec.assign_absent k v (m k) m ≡ (ok (flag answer), table)
    pub does : add client s k v t st ≡ (ok answer, state)
    pub keeps : Holds client live pending turns laws s up positive state table

  pub add_lem :
      (k v : Bytes) (t : ℤ) (st : client.State) (m : Spec.Table)
      → Holds client live pending turns laws s up positive st m
      → Added k v t st m
  unfolding add
  add_lem k v t st m h =
      let name = cache_key client s k in
      let r = client.set_nx name v (ttl_or t s.ttl) st in
      elim (Option-cases (m k)) [
        | inl absent ↦
            let wrote =
              laws.set_nx-absent name v (ttl_or t s.ttl) st (ttl_or-positive t s.ttl positive)
                (h.at_key k ∙ absent) in
            record {
              answer = true;
              table = assign k (some v) m;
              state = r.1;
              spec = ground (arith, absent);
              does = ground (arith, up, wrote.0);
              keeps =
                  change-Holds client live pending turns laws s up positive true k (some v) st m r h
                    wrote;
            }
        | inr (old, present) ↦
            let kept = laws.set_nx-present name v old (ttl_or t s.ttl) st (h.at_key k ∙ present) in
            record {
              answer = false;
              table = m;
              state = r.1;
              spec = ground (arith, present);
              does = ground (arith, up, kept.0);
              keeps = same-Holds client live pending turns laws s up positive st r.1 m kept.1 h;
            }
      ]

  pub add-Refines :
      (k v : Bytes) (t : ℤ) (st : client.State) (m : Spec.Table)
      → Holds client live pending turns laws s up positive st m
      → Refines client live pending turns laws s up positive (Command.add k v t) st m
  unfolding exec redis_store spec_step
  add-Refines k v t st m h =
      let a = add_lem k v t st m h in
      let does = a.does in
      record {
        reply = ok (flag a.answer);
        promised = ok (flag a.answer);
        table = a.table;
        state = a.state;
        spec = a.spec;
        does = ground (arith, does);
        agrees = refl;
        keeps = a.keeps;
      }
