-- ===== src/Memcached/Balance.antt =====
-- The connections of driver/memcachedcache/store.go: which are open, and where they are.
use cache.Prelude.{
  ℕ, zero, suc, ◌+◌, ◌-◌, ◌≡◌, subst, arith, Bool, true, false, Bool-cases, inl, inr, Option, none,
  some, [], Bytes, length, ◌==◌, get_or, ◌%◌, if◌then◌else◌,
}
use cache.Store.{Error, Result, ok, err, Act, continue, attempt, ◌>>=◌}
use cache.Memcached.Pools.{
  Network, MemcachedStore, PoolMap, take_idle, give_idle, W, Mc, on_net, dialled, acquire_after,
  acquire, closed, release, Exchange, using, send, read_line, read_bytes,
}
use cache.Memcached.Idle.{idle, Fits, Taken, take_idle-Taken, Given, give_idle-Given}

-- 1 for a result without an error.
abbrev pub got : {A : Type 0} → Result A → ℕ
got (ok a) = 1
got (err e) = 0

-- A step that keeps a property of its state, whatever its result is.
module _ {S : Type 0} (P : S → Type 0) where
  abbrev pub Preserves : {A : Type 0} → Act S A → Type 0
  Preserves act = (s : S) → P s → P (act s).1

  continue-Preserves :
      {A B : Type 0} (r : Result A) (f : A → Act S B)
      → ((a : A) → Preserves (f a))
      → Preserves (continue r f)
  continue-Preserves (ok a) f h s p = h a s p
  continue-Preserves (err e) f h s p = p

  pub Preserves->>= :
      {A B : Type 0} (m : Act S A) (f : A → Act S B)
      → Preserves m
      → ((a : A) → Preserves (f a))
      → Preserves (m >>= f)
  Preserves->>= m f h k s p = continue-Preserves (m s).0 f k (m s).1 (h s p)

module _ (network : Network) (opens : network.State → ℕ) where
  -- A dial opens a connection if it gives one, and Close closes one, an error of it included.
  pub record CountsOpen : Type 0 where
    pub dial-lem :
        (addr : Bytes) (s : network.State)
        → opens (network.dial addr s).1 ≡ got (network.dial addr s).0 + opens s
    pub write-lem :
        (c : network.Conn) (b : Bytes) (s : network.State) → opens (network.write c b s).1 ≡ opens s
    pub read_string-lem :
        (c : network.Conn) (s : network.State) → opens (network.read_string c s).1 ≡ opens s
    pub read_full-lem :
        (c : network.Conn) (n : ℕ) (s : network.State) → opens (network.read_full c n s).1 ≡ opens s
    pub close-lem : (c : network.Conn) (s : network.State) → opens (network.close c s) ≡ opens s - 1

  module _ (s : MemcachedStore) (h : CountsOpen) where
    -- The open connections are those in the channels and `held` others, and no channel has more
    -- connections than its size.
    pub record IsBalanced (held : ℕ) (w : W network s) : Type 0 where
      pub balance : opens w.net ≡ idle w.pools + held
      pub fits : Fits w.pools

    -- Once `act` is done, its connection is one more that is held.
    abbrev Gives : Act (W network s) (Mc network s) → Type 0
    Gives act =
        (held : ℕ) (w : W network s)
        → IsBalanced held w
        → IsBalanced (got (act w).0 + held) (act w).1

    dialled-Gives :
        (addr : Bytes) (errs : Error) (next : Error → Act (W network s) (Mc network s))
        → ((e : Error) → Gives (next e))
        → (r : Result network.Conn) (held : ℕ) (w : W network s)
        → opens w.net ≡ idle w.pools + (got r + held)
        → Fits w.pools
        → IsBalanced
            (got (dialled network s addr errs next r w).0 + held)
            (dialled network s addr errs next r w).1
    dialled-Gives addr errs next k (ok conn) held w b f = record { balance = b; fits = f }
    dialled-Gives addr errs next k (err e) held w b f =
        k _ held w (record { balance = omega (arith, b); fits = f })

    after_take :
        (addr : Bytes) (errs : Error) (next : Error → Act (W network s) (Mc network s))
        → ((e : Error) → Gives (next e))
        → (w : W network s) (o : Option (Mc network s × PoolMap network.Conn)) → Taken w.pools o
        → (held : ℕ) → IsBalanced held w
        → (let r : Result (Mc network s) × W network s = elim o [
          | some t ↦ (ok t.0, record w { pools = t.1 })
          | none ↦
              attempt (on_net network s (network.dial addr)) (dialled network s addr errs next) w
        ] in
            IsBalanced (got r.0 + held) r.1)
    after_take addr errs next k w (some t) taken held b = record {
      balance = omega (arith, b.balance, taken.0);
      fits = taken.1 b.fits;
    }
    after_take addr errs next k w none taken held b =
        dialled-Gives addr errs next k (network.dial addr w.net).0 held
          (record w { net = (network.dial addr w.net).1 })
          (omega (arith, h.dial-lem addr w.net, b.balance)) b.fits

    none_got : (held : ℕ) (w : W network s) → IsBalanced held w → IsBalanced (0 + held) w
    none_got held w b = record { balance = omega (arith, b.balance); fits = b.fits }

    acquire_after-Gives :
        (left at : ℕ) (errs : Error) → Gives (acquire_after network s left at errs)
    unfolding acquire_after
    acquire_after-Gives zero at errs held w b = none_got held w b
    acquire_after-Gives (suc left) at errs held w b =
        let addr = get_or s.addrs (at % length s.addrs) [] in
        after_take addr errs (acquire_after network s left (suc at))
          (acquire_after-Gives left (suc at)) w (take_idle addr w.pools)
          (take_idle-Taken addr w.pools) held b

    acquire-Gives : Gives (acquire network s)
    unfolding acquire
    acquire-Gives held w b = elim (Bool-cases (length s.addrs == 0)) [
      | inl empty ↦ rw empty (none_got held w b)
      | inr some_addr ↦ rw some_addr (
          acquire_after-Gives (length s.addrs) _ _ held _
            (record { balance = b.balance; fits = b.fits }))
    ]

    closed-IsBalanced :
        (mc : Mc network s) (held : ℕ) (w : W network s)
        → IsBalanced (suc held) w
        → IsBalanced held (closed network s mc w)
    closed-IsBalanced mc held w b = record {
      balance = omega (arith, h.close-lem mc.conn w.net, b.balance);
      fits = b.fits;
    }

    after_give :
        (mc : Mc network s) (held : ℕ) (w : W network s) (o : Option (PoolMap network.Conn))
        → Given w.pools o
        → IsBalanced (suc held) w
        → IsBalanced held
            (elim o [ none ↦ closed network s mc w | some ps ↦ record w { pools = ps } ])
    after_give mc held w none g b = closed-IsBalanced mc held w b
    after_give mc held w (some ps) g b = record {
      balance = omega (arith, b.balance, g.0);
      fits = g.1 b.fits;
    }

    release-IsBalanced :
        (mc : Mc network s) (bad : Bool) (held : ℕ) (w : W network s)
        → IsBalanced (suc held) w
        → IsBalanced held (release network s mc bad w)
    unfolding release
    release-IsBalanced mc true held w b = closed-IsBalanced mc held w b
    release-IsBalanced mc false held w b =
        after_give mc held w (give_idle mc w.pools) (give_idle-Given mc w.pools) b

    -- An operation, and what it does with its connection, whatever else is held.
    abbrev pub Keeps : {A : Type 0} → Act (W network s) A → Type 0
    Keeps act = (held : ℕ) → Preserves (IsBalanced held) act

    pub record KeepsExchange {A : Type 0} (act : Exchange network s A) : Type 0 where
      pub keeps : (held : ℕ) → Preserves (λ p. IsBalanced held p.0) act

    used-Keeps :
        {A : Type 0} (body : Mc network s → Exchange network s A)
        → ((mc : Mc network s) → KeepsExchange (body mc))
        → (r : Result (Mc network s)) (held : ℕ) (w : W network s) → IsBalanced (got r + held) w
        → IsBalanced held
            (continue r
              (λ mc w'. let q = body mc (w', false) in (q.0, release network s mc q.1.1 q.1.0))
              w).1
    used-Keeps body k (ok mc) held w b =
        let q = body mc (w, false) in
        release-IsBalanced mc q.1.1 held q.1.0 (
          subst (λ (n : ℕ). IsBalanced n q.1.0) (omega arith)
            ((k mc).keeps (1 + held) (w, false) b))
    used-Keeps body k (err e) held w b = subst (λ (n : ℕ). IsBalanced n w) (omega arith) b

    pub using-Keeps :
        {A : Type 0} (body : Mc network s → Exchange network s A)
        → ((mc : Mc network s) → KeepsExchange (body mc))
        → Keeps (using network s body)
    unfolding using
    using-Keeps body k held w b =
        used-Keeps body k (acquire network s w).0 held (acquire network s w).1
          (acquire-Gives held w b)

    pub send-Keeps : (mc : Mc network s) (b : Bytes) → KeepsExchange (send network s mc b)
    send-Keeps mc b = record {
      keeps = λ held p i. record {
        balance = omega (arith, h.write-lem mc.conn b p.0.net, i.balance);
        fits = i.fits;
      };
    }

    pub read_line-Keeps : (mc : Mc network s) → KeepsExchange (read_line network s mc)
    read_line-Keeps mc = record {
      keeps = λ held p i. record {
        balance = omega (arith, h.read_string-lem mc.conn p.0.net, i.balance);
        fits = i.fits;
      };
    }

    pub read_bytes-Keeps : (mc : Mc network s) (n : ℕ) → KeepsExchange (read_bytes network s mc n)
    read_bytes-Keeps mc n = record {
      keeps = λ held p i. record {
        balance = omega (arith, h.read_full-lem mc.conn n p.0.net, i.balance);
        fits = i.fits;
      };
    }

    pub exchange->>= :
        {A B : Type 0} (m : Exchange network s A) (f : A → Exchange network s B)
        → KeepsExchange m
        → ((a : A) → KeepsExchange (f a))
        → KeepsExchange (m >>= f)
    exchange->>= m f k l = record {
      keeps = λ held.
          Preserves->>= (λ p. IsBalanced held p.0) m f (k.keeps held) (λ a. (l a).keeps held);
    }

    pub exchange-if :
        {A : Type 0} (b : Bool) (m n : Exchange network s A)
        → KeepsExchange m
        → KeepsExchange n
        → KeepsExchange (if b then m else n)
    exchange-if true m n k l = k
    exchange-if false m n k l = l
