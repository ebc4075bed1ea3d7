-- ===== src/Memcached/Runs.antt =====
-- Runs of commands on driver/memcachedcache/store.go: no connection is lost.
use cache.Prelude.{
  if◌then◌else◌, ℕ, zero, suc, Bool, true, false, Option, none, some, List, [], ◌∷◌, Bytes, codes,
  equal, has_prefix, ℤ, pos, negsuc, neg64,
}
use cache.Decimal.{parse_int}
use cache.Inspect.{trim_space}
use cache.Store.{Error, message, ttl_or, pure, fail, Act, ◌>>=◌}
use cache.Store.Contract.{Command, Reply, found, done, flag, number, run, exec}
use cache.Memcached.Pools.{Network, MemcachedStore, W, Mc, Exchange, spoil, apart}
use cache.Memcached.Lines.{cache_key, request, expecting, read_value, store_value, fields}
use cache.Memcached.{
  ready, get_sized, get, set, add, swapped, release_sized, lock_release, count_answer, incr_answer,
  incr, decr, increment, decrement, delete, delete_many, flush, memcached_store, is_negative,
}
use cache.Memcached.Balance.{
  CountsOpen, IsBalanced, Preserves->>=, Keeps, KeepsExchange, using-Keeps, send-Keeps,
  read_line-Keeps, read_bytes-Keeps, exchange->>=, exchange-if,
}

module _ (network : Network) (opens : network.State → ℕ) (s : MemcachedStore) where
  module _ (h : CountsOpen network opens) where
    abbrev K : {A : Type 0} → Exchange network s A → Type 0
    K = KeepsExchange network opens s h

    abbrev B : {A : Type 0} → Act (W network s) A → Type 0
    B = Keeps network opens s h

    pure-Keeps : {A : Type 0} (a : A) → K (pure a)
    pure-Keeps a = record { keeps = λ held p i. i }

    fail-Keeps : {A : Type 0} (e : Error) → K {A = A} (fail e)
    fail-Keeps e = record { keeps = λ held p i. i }

    spoil-Keeps : {A : Type 0} (e : Error) → K {A = A} (spoil network s e)
    spoil-Keeps e = record { keeps = λ held p i. i }

    bind :
        {A C : Type 0} {m : Exchange network s A} {f : A → Exchange network s C}
        → K m
        → ((a : A) → K (f a))
        → K (m >>= f)
    bind {m = m} {f = f} k l = exchange->>= network opens s h m f k l

    branch :
        {A : Type 0} (b : Bool) {m n : Exchange network s A} → K m → K n → K (if b then m else n)
    branch b {m = m} {n = n} k l = exchange-if network opens s h b m n k l

    request-Keeps : (mc : Mc network s) (line : Bytes) → K (request network s mc line)
    request-Keeps mc line =
        bind (send-Keeps network opens s h mc line) λ u. read_line-Keeps network opens s h mc

    expecting-Keeps :
        (start : Bytes) (e : Error) (line : Bytes) → K (expecting network s start e line)
    expecting-Keeps start e line = branch (has_prefix line start) (pure-Keeps tt) (spoil-Keeps _)

    ready-Keeps : B (ready network s)
    unfolding ready
    ready-Keeps =
        using-Keeps network opens s h _
          λ mc. bind (request-Keeps mc _) λ line. expecting-Keeps _ _ line

    read_value-Keeps : (mc : Mc network s) (n : ℤ) → K (read_value network s mc n)
    read_value-Keeps mc (negsuc n) = fail-Keeps _
    read_value-Keeps mc (pos n) = bind (read_bytes-Keeps network opens s h mc n) λ value.
        bind (read_line-Keeps network opens s h mc)
          λ l. bind (read_line-Keeps network opens s h mc) λ l'. pure-Keeps value

    get_sized-Keeps :
        (mc : Mc network s) (size : Bytes) (o : Option ℤ) → K (get_sized network s mc size o)
    get_sized-Keeps mc size none = fail-Keeps _
    get_sized-Keeps mc size (some n) = bind (read_value-Keeps mc n) λ v. pure-Keeps (some v)

    get-Keeps : (key : Bytes) → B (get network s key)
    unfolding get
    get-Keeps key = using-Keeps network opens s h _ λ mc.
        bind (request-Keeps mc _)
          λ line. branch _ (pure-Keeps none) (branch _ (fail-Keeps _) (get_sized-Keeps mc _ _))

    store_value-Keeps :
        (mc : Mc network s) (verb key value : Bytes) (ttl : ℤ)
        → K (store_value network s mc verb key value ttl)
    store_value-Keeps mc verb key value ttl =
        bind (send-Keeps network opens s h mc _)
          λ u. bind (send-Keeps network opens s h mc value) λ u'. request-Keeps mc _

    set-Keeps : (key value : Bytes) (ttl : ℤ) → B (set network s key value ttl)
    unfolding set
    set-Keeps key value ttl = using-Keeps network opens s h _ λ mc.
        bind (store_value-Keeps mc (codes "set") key value (ttl_or ttl s.ttl))
          λ line. expecting-Keeps _ _ line

    add-Keeps : (key value : Bytes) (ttl : ℤ) → B (add network s key value ttl)
    unfolding add
    add-Keeps key value ttl = using-Keeps network opens s h _ λ mc.
        bind (store_value-Keeps mc (codes "add") key value (ttl_or ttl s.ttl))
          λ line. branch _ (pure-Keeps true) (branch _ (pure-Keeps false) (spoil-Keeps _))

    swapped-Keeps : (line : Bytes) → K (swapped network s line)
    swapped-Keeps line =
        branch _ (pure-Keeps false) (bind (expecting-Keeps _ _ line) λ u. pure-Keeps true)

    release_sized-Keeps :
        (mc : Mc network s) (full owner : Bytes) (fs : List Bytes) (o : Option ℤ)
        → K (release_sized network s mc full owner fs o)
    release_sized-Keeps mc full owner fs none = spoil-Keeps _
    release_sized-Keeps mc full owner fs (some n) =
        bind (read_value-Keeps mc n) λ value.
          branch _ (pure-Keeps false) (bind (request-Keeps mc _) λ line. swapped-Keeps line)

    lock_release-Keeps : (key owner : Bytes) → B (lock_release network s key owner)
    unfolding lock_release
    lock_release-Keeps key owner = using-Keeps network opens s h _ λ mc.
        bind (request-Keeps mc _) λ line. branch _ (pure-Keeps false) (
          branch _ (spoil-Keeps _)
            (release_sized-Keeps mc (cache_key network s key) owner (fields (trim_space line)) _))

    count_answer-Keeps :
        (mc : Mc network s) (full : Bytes) (ttl : ℤ) (digits : Bytes) (o : Option ℤ)
        → K (count_answer network s mc full ttl digits o)
    count_answer-Keeps mc full ttl digits none = spoil-Keeps _
    count_answer-Keeps mc full ttl digits (some val) =
        branch _
          (bind (request-Keeps mc _)
            λ line. bind (branch _ (spoil-Keeps _) (pure-Keeps tt)) λ u. pure-Keeps val)
          (pure-Keeps val)

    apart-Keeps : {A : Type 0} (act : Act (W network s) A) → B act → K (apart network s act)
    apart-Keeps act k = record { keeps = λ held p. k held p.0 }

    incr_answer-Keeps :
        (again : Act (W network s) ℤ)
        → B again
        → (mc : Mc network s) (key : Bytes) (ttl : ℤ) (line : Bytes)
        → K (incr_answer network s again mc key ttl line)
    incr_answer-Keeps again k mc key ttl line =
        branch (equal line (codes "NOT_FOUND"))
          (bind (apart-Keeps (set network s key (codes "0") ttl) (set-Keeps key (codes "0") ttl))
            λ u. apart-Keeps again k)
          (branch (has_prefix line (codes "ERROR")) (spoil-Keeps (message line))
            (count_answer-Keeps mc (cache_key network s key) ttl line (parse_int line)))

    incr-Keeps :
        (turns : ℕ) (key : Bytes) (delta ttl : ℤ) (verb : Bytes)
        → B (incr network s turns key delta ttl verb)
    unfolding incr
    incr-Keeps zero key delta ttl verb = λ held w i. i
    incr-Keeps (suc turns) key delta ttl verb = using-Keeps network opens s h _ λ mc.
        bind (request-Keeps mc _) λ line.
          incr_answer-Keeps (incr network s turns key delta (ttl_or ttl s.ttl) verb)
            (incr-Keeps turns key delta (ttl_or ttl s.ttl) verb) mc key (ttl_or ttl s.ttl)
            (trim_space line)

    choose :
        {A : Type 0} (b : Bool) (m n : Act (W network s) A) → B m → B n → B (if b then m else n)
    choose true m n k l = k
    choose false m n k l = l

    decr-Keeps : (key : Bytes) (delta ttl : ℤ) → B (decr network s key delta ttl)
    unfolding decr
    decr-Keeps key delta ttl = incr-Keeps s.turns key delta ttl (codes "decr")

    increment-Keeps : (key : Bytes) (delta ttl : ℤ) → B (increment network s key delta ttl)
    unfolding increment
    increment-Keeps key delta ttl =
        choose (is_negative delta) (decr network s key (neg64 delta) ttl)
          (incr network s s.turns key delta ttl (codes "incr")) (decr-Keeps key _ ttl)
          (incr-Keeps s.turns key delta ttl _)

    decrement-Keeps : (key : Bytes) (delta ttl : ℤ) → B (decrement network s key delta ttl)
    unfolding decrement
    decrement-Keeps key delta ttl =
        choose (is_negative delta) (increment network s key (neg64 delta) ttl)
          (decr network s key delta ttl) (increment-Keeps key _ ttl) (decr-Keeps key delta ttl)

    delete-Keeps : (key : Bytes) → B (delete network s key)
    unfolding delete
    delete-Keeps key =
        using-Keeps network opens s h _ λ mc. bind (request-Keeps mc _) λ line. pure-Keeps tt

    after :
        {A C : Type 0} (m : Act (W network s) A) (f : A → Act (W network s) C)
        → B m
        → ((a : A) → B (f a))
        → B (m >>= f)
    after m f k l held =
        Preserves->>= (IsBalanced network opens s h held) m f (k held) (λ a. l a held)

    delete_many-Keeps : (keys : List Bytes) → B (delete_many network s keys)
    unfolding delete_many
    delete_many-Keeps [] = λ held w i. i
    delete_many-Keeps (key ∷ keys) =
        after (delete network s key) (λ u. delete_many network s keys) (delete-Keeps key)
          (λ u. delete_many-Keeps keys)

    flush-Keeps : B (flush network s)
    unfolding flush
    flush-Keeps =
        using-Keeps network opens s h _
          λ mc. bind (request-Keeps mc _) λ line. expecting-Keeps _ _ line

    replied :
        {A : Type 0} (m : Act (W network s) A) (f : A → Reply) → B m → B (m >>= λ a. pure (f a))
    replied m f k = after m (λ a. pure (f a)) k (λ a held w i. i)

    exec-Keeps : (c : Command) → B (exec (memcached_store network s) c)
    unfolding exec memcached_store
    exec-Keeps (Command.get k) = replied (get network s k) found (get-Keeps k)
    exec-Keeps (Command.set k v t) = replied (set network s k v t) (λ u. done) (set-Keeps k v t)
    exec-Keeps (Command.add k v t) = replied (add network s k v t) flag (add-Keeps k v t)
    exec-Keeps (Command.increment k d t) =
        replied (increment network s k d t) number (increment-Keeps k d t)
    exec-Keeps (Command.decrement k d t) =
        replied (decrement network s k d t) number (decrement-Keeps k d t)
    exec-Keeps (Command.delete k) = replied (delete network s k) (λ u. done) (delete-Keeps k)
    exec-Keeps (Command.delete_many ks) =
        replied (delete_many network s ks) (λ u. done) (delete_many-Keeps ks)
    exec-Keeps Command.flush = replied (flush network s) (λ u. done) flush-Keeps
    exec-Keeps (Command.lock_acquire k o t) = replied (add network s k o t) flag (add-Keeps k o t)
    exec-Keeps (Command.lock_release k o) =
        replied (lock_release network s k o) flag (lock_release-Keeps k o)

    -- Whatever the dials, the reads, the writes and the answers of the server are, errors on any
    -- branch and the calls of incr by itself included: after any commands from a state in which the
    -- open connections are those in the pools, the open connections are again those in the pools, and
    -- no pool has more than 16.
    pub run-IsBalanced :
        (cs : List Command) (w : W network s)
        → IsBalanced network opens s h 0 w
        → IsBalanced network opens s h 0 (run (memcached_store network s) cs w).1
    unfolding run
    run-IsBalanced [] w i = i
    run-IsBalanced (c ∷ cs) w i =
        run-IsBalanced cs (exec (memcached_store network s) c w).1 (exec-Keeps c 0 w i)
