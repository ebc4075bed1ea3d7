-- ===== src/Redis/Refines.antt =====
-- The store of driver/rediscache/store.go implements the abstract store.
use mathlib.Core.List.{append_assoc}
use cache.Prelude.{
  ℕ, ◌<◌, ◌≡◌, refl, Bool, true, Option, none, some, List, [], ◌∷◌, ◌++◌, arith, Bytes, codes,
  subst, has_prefix, has_prefix-append, ℤ, is_positive,
}
use cache.Store.{Result, ok, Act}
use cache.Store.Contract.{Command, Reply, done, exec, run}
use cache.Store.Spec
use cache.Store.Spec.{assign, assign_none, counter, spec_step, spec_run}
use cache.Redis.Server.{Client, IsLiteral, ServerLaws}
use cache.Redis.{RedisStore, cache_key, flush, redis_store}
use cache.Redis.Table.{AllAgree, Fits, AllFit, Holds, Refines}
use cache.Redis.Promises.{get-Refines, set-Refines, delete-Refines, add-Refines}
use cache.Redis.Counters.{
  increment-Refines, decrement-Refines, lock_acquire-Refines, lock_release-Refines,
}
use cache.Redis.Flushes.{delete_many-Refines, flush-ends}

module _ (client : Client) (live : client.State → Bytes → Option Bytes) (pending : ℕ → Bytes → Bool)
    (turns : ℕ → ℕ) (laws : ServerLaws client live pending turns) (s : RedisStore)
    (up : s.connected ≡ true) (positive : is_positive s.ttl ≡ true) where
  flush-Refines :
      (st : client.State) (m : Spec.Table)
      → IsLiteral (s.prefix ++ codes ":")
      → turns 0 < s.turns
      → Refines client live pending turns laws s up positive Command.flush st m
  unfolding exec redis_store spec_step cache_key
  flush-Refines st m literal enough =
      let (answer, gone, others) =
        flush-ends client live pending turns laws s up positive st literal enough in
      record {
        reply = ok done;
        promised = ok done;
        table = λ j. none;
        state = (flush client s st).1;
        spec = refl;
        does = ground (arith, answer);
        agrees = refl;
        keeps = record {
          at_key = λ k. gone (cache_key client s k) (
              subst (λ (n : Bytes). has_prefix n (s.prefix ++ codes ":") ≡ true)
                (append_assoc s.prefix (codes ":") k)
                (has_prefix-append (s.prefix ++ codes ":") k));
        };
      }

  module _ (eval : Bytes → List Bytes → List Bytes → Act client.State ℤ)
      (scripts : client.eval ≡ some eval) (literal : IsLiteral (s.prefix ++ codes ":"))
      (enough : turns 0 < s.turns) where
    exec-Refines :
        (c : Command) (st : client.State) (m : Spec.Table)
        → Fits m c
        → Holds client live pending turns laws s up positive st m
        → Refines client live pending turns laws s up positive c st m
    exec-Refines (Command.get k) st m f h =
        get-Refines client live pending turns laws s up positive k st m h
    exec-Refines (Command.set k v t) st m f h =
        set-Refines client live pending turns laws s up positive k v t st m h
    exec-Refines (Command.add k v t) st m f h =
        add-Refines client live pending turns laws s up positive k v t st m h
    exec-Refines (Command.increment k d t) st m f h =
        increment-Refines client live pending turns laws s up positive k d t st m f h
    exec-Refines (Command.decrement k d t) st m f h =
        decrement-Refines client live pending turns laws s up positive k d t st m f h
    exec-Refines (Command.delete k) st m f h =
        delete-Refines client live pending turns laws s up positive k st m h
    exec-Refines (Command.delete_many ks) st m f h =
        delete_many-Refines client live pending turns laws s up positive ks st m h
    exec-Refines Command.flush st m f h = flush-Refines st m literal enough
    exec-Refines (Command.lock_acquire k o t) st m f h =
        lock_acquire-Refines client live pending turns laws s up positive eval scripts k o t st m h
    exec-Refines (Command.lock_release k o) st m f h =
        lock_release-Refines client live pending turns laws s up positive eval scripts k o st m h

    -- On a server that answers, runs scripts and has no other client, with a positive default
    -- duration, a prefix without special characters and more turns allowed than a Scan takes: any
    -- commands, of which those that count do so from nothing, from a number as it is printed or from
    -- no number, and without an overflow, get from the store the replies of the abstract store, and
    -- errors where it has errors; the server then holds exactly the entries of the abstract store.
    pub run-redis_store :
        (cs : List Command) (st : client.State) (m : Spec.Table)
        → AllFit m cs
        → Holds client live pending turns laws s up positive st m
        → AllAgree (run (redis_store client s) cs st).0 (spec_run cs m).0
          × Holds client live pending turns laws s up positive
              (run (redis_store client s) cs st).1
              (spec_run cs m).1
    unfolding run spec_run
    run-redis_store [] st m fits h = (tt, h)
    run-redis_store (c ∷ cs) st m fits h =
        let r = exec-Refines c st m fits.0 h in
        let does = r.does in
        let spec = r.spec in
        let fits' : AllFit r.table cs =
          subst (λ (x : Result Reply × Spec.Table). AllFit x.1 cs) spec fits.1 in
        let (replies, h') = run-redis_store cs r.state r.table fits' r.keeps in
        (rw (does, spec) (r.agrees, replies), rw (does, spec) h')
