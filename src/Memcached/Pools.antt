-- ===== src/Memcached/Pools.antt =====
-- driver/memcachedcache/store.go: the connections of the store, and how an operation borrows one.
-- net and bufio are a parameter, with any failures.
use cache.Prelude.{
  ℕ, zero, suc, ◌+◌, ◌%◌, ◌^◌, Bool, true, false, ◌||◌, Option, none, some, List, [], ◌∷◌, ◌++◌,
  Bytes, equal, length, get_or, ltb, ◌==◌, ℤ, if◌then◌else◌,
}
use cache.Store.{Error, Result, ok, err, text, message, join, Act, pure, attempt, ◌>>=◌}

-- dialMemcached, and a connection with its reader: Write, ReadString('\n'), io.ReadFull and Close.
pub record Network : Type 1 where
  pub State : Type 0
  pub Conn : Type 0
  pub dial : Bytes → Act State Conn
  pub write : Conn → Bytes → Act State (Unit {0})
  pub read_string : Conn → Act State Bytes
  pub read_full : Conn → ℕ → Act State Bytes
  pub close : Conn → State → State

pub record MemcachedConn (C : Type 0) : Type 0 where
  pub addr : Bytes
  pub conn : C

-- The fields of the store that do not change; `turns` bounds the calls of incr by itself.
pub record MemcachedStore : Type 0 where
  pub addrs : List Bytes
  pub ttl : ℤ
  pub prefix : Bytes
  pub turns : ℕ

-- The channels by address, the head of a list being what is received next.
abbrev pub PoolMap : Type 0 → Type 0
PoolMap C = List (Bytes × List (MemcachedConn C))

abbrev pub pool_size : ℕ
pool_size = 16

-- The fields that change, and the network.
pub record Pooled (S C : Type 0) : Type 0 where
  pub net : S
  pub pools : PoolMap C
  pub rr : ℕ

module _ {C : Type 0} where
  -- `mc := <-pool` where a connection is ready.
  unfoldable pub take_idle : Bytes → PoolMap C → Option (MemcachedConn C × PoolMap C)
  take_idle addr [] = none
  take_idle addr ((a, []) ∷ pools) =
      let rest = take_idle addr pools in
      if equal a addr then none else elim rest [ none ↦ none | some t ↦ some (t.0, (a, []) ∷ t.1) ]
  take_idle addr ((a, mc ∷ mcs) ∷ pools) =
      let rest = take_idle addr pools in
      if equal a addr
      then some (mc, (a, mcs) ∷ pools)
      else elim rest [ none ↦ none | some t ↦ some (t.0, (a, mc ∷ mcs) ∷ t.1) ]

  -- `pool <- mc` where the address has a channel that is not full.
  unfoldable pub give_idle : MemcachedConn C → PoolMap C → Option (PoolMap C)
  give_idle mc [] = none
  give_idle mc ((a, mcs) ∷ pools) =
      let rest = give_idle mc pools in
      if equal a mc.addr
      then if ltb (length mcs) pool_size then some ((a, mcs ++ mc ∷ []) ∷ pools) else none
      else elim rest [ none ↦ none | some ps ↦ some ((a, mcs) ∷ ps) ]

module _ (network : Network) (s : MemcachedStore) where
  abbrev pub W : Type 0
  W = Pooled network.State network.Conn

  abbrev pub Mc : Type 0
  Mc = MemcachedConn network.Conn

  abbrev pub on_net : {A : Type 0} → Act network.State A → Act W A
  on_net act w = ((act w.net).0, record w { net = (act w.net).1 })

  abbrev pub dialled : Bytes → Error → (Error → Act W Mc) → Result network.Conn → Act W Mc
  dialled addr errs next (ok conn) = pure (record { addr = addr; conn = conn })
  dialled addr errs next (err e) = next (join errs (join (message addr) e))

  -- The loop of acquire, `left` turns before its end; `at` is start+i.
  unfoldable pub acquire_after : ℕ → ℕ → Error → Act W Mc
  unfolding take_idle
  acquire_after zero at errs w = (err errs, w)
  acquire_after (suc left) at errs w =
      let addr = get_or s.addrs (at % length s.addrs) [] in
      let next = acquire_after left (suc at) in
      elim (take_idle addr w.pools) [
        | some t ↦ (ok t.0, record w { pools = t.1 })
        | none ↦ attempt (on_net (network.dial addr)) (dialled addr errs next) w
      ]

  -- The counter is a uint32.
  unfoldable pub acquire : Act W Mc
  unfolding acquire_after
  acquire w =
      if length s.addrs == 0
      then (err (text "memcached: no addresses configured"), w)
      else acquire_after (length s.addrs) (w.rr % length s.addrs) (text "memcached dial failed")
          (record w { rr = (w.rr + 1) % 2 ^ 32 })

  abbrev pub closed : Mc → W → W
  closed mc w = record w { net = network.close mc.conn w.net }

  unfoldable pub release : Mc → Bool → W → W
  unfolding give_idle
  release mc bad w =
      if bad
      then closed mc w
      else elim (give_idle mc w.pools) [ none ↦ closed mc w | some ps ↦ record w { pools = ps } ]

  -- What an operation does between acquire and the deferred release: the Boolean is `bad`.
  abbrev pub Exchange : Type 0 → Type 0
  Exchange A = Act (W × Bool) A

  unfoldable pub using : {A : Type 0} → (Mc → Exchange A) → Act W A
  unfolding acquire release
  using body = acquire >>= λ mc w. let r = body mc (w, false) in (r.0, release mc r.1.1 r.1.0)

  abbrev pub is_err : {A : Type 0} → Result A → Bool
  is_err (ok a) = false
  is_err (err e) = true

  -- A step of which an error spoils the connection, an error that does, and a step on its own
  -- connection.
  abbrev pub spoiling : {A : Type 0} → Act W A → Exchange A
  spoiling act p = let r = act p.0 in (r.0, (r.1, p.1 || is_err r.0))

  abbrev pub spoil : {A : Type 0} → Error → Exchange A
  spoil e p = (err e, (p.0, true))

  abbrev pub apart : {A : Type 0} → Act W A → Exchange A
  apart act p = let r = act p.0 in (r.0, (r.1, p.1))

  abbrev pub send : Mc → Bytes → Exchange (Unit {0})
  send mc bytes = spoiling (on_net (network.write mc.conn bytes))

  abbrev pub read_line : Mc → Exchange Bytes
  read_line mc = spoiling (on_net (network.read_string mc.conn))

  abbrev pub read_bytes : Mc → ℕ → Exchange Bytes
  read_bytes mc n = spoiling (on_net (network.read_full mc.conn n))
