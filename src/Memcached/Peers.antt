-- ===== src/Memcached/Peers.antt =====
-- The choice of a peer in driver/memcachedcache/store.go.
use cache.Prelude.{
  ℕ, zero, suc, ◌+◌, ◌-◌, ◌%◌, ◌<◌, ◌≡◌, refl, sym, ap, ◌∙◌, ◌⊎◌, leb, subst, arith, Bool-cases,
  inl, inr, Option, none, some, [], Bytes, length, get_or, ◌==◌,
}
use native.Mathlib.Nat.{mod-lt, mod-eq_of_lt, add-mod_right}
use cache.Store.{Error, Result, ok, err, Act, attempt}
use cache.Memcached.Pools.{
  Network, MemcachedStore, PoolMap, W, Mc, take_idle, on_net, dialled, acquire_after, acquire,
}

module _ (network : Network) (s : MemcachedStore) where
  abbrev IsGiven : {A : Type 0} → Result A → Type 0
  IsGiven {A} r = (a : A) × (r ≡ ok a)

  -- Without an idle connection the peer at hand is dialled, and after an error the next one.
  dialled-IsGiven :
      (addr : Bytes) (errs : Error) (next : Error → Act (W network s) (Mc network s))
      (r : Result network.Conn)
      → IsGiven r ⊎ ((e : Error) (w : W network s) → IsGiven (next e w).0)
      → (w : W network s) → IsGiven (dialled network s addr errs next r w).0
  dialled-IsGiven addr errs next (ok conn) h w = (record { addr = addr; conn = conn }, refl)
  dialled-IsGiven addr errs next (err e) (inr k) w = k _ w
  dialled-IsGiven addr errs next (err e) (inl given) w = ground (arith, given.1)

  taken_or_dialled :
      (addr : Bytes) (errs : Error) (next : Error → Act (W network s) (Mc network s))
      (w : W network s) (o : Option (Mc network s × PoolMap network.Conn))
      → IsGiven (network.dial addr w.net).0 ⊎ ((e : Error) (v : W network s) → IsGiven (next e v).0)
      → (let r : Result (Mc network s) × W network s = elim o [
        | some t ↦ (ok t.0, record w { pools = t.1 })
        | none ↦ attempt (on_net network s (network.dial addr)) (dialled network s addr errs next) w
      ] in
          IsGiven r.0)
  taken_or_dialled addr errs next w (some t) h = (t.0, refl)
  taken_or_dialled addr errs next w none h =
      dialled-IsGiven addr errs next (network.dial addr w.net).0 h _

  module _ (j : ℕ)
      (up : (n : network.State) → IsGiven (network.dial (get_or s.addrs j []) n).0) where
    acquire_after-IsGiven :
        (left at k : ℕ) (errs : Error) (w : W network s)
        → k < left
        → (at + k) % length s.addrs ≡ j
        → IsGiven (acquire_after network s left at errs w).0
    unfolding acquire_after
    acquire_after-IsGiven zero at k errs w l e = ground (arith, l)
    acquire_after-IsGiven (suc left) at zero errs w l e =
        let addr = get_or s.addrs (at % length s.addrs) [] in
        taken_or_dialled addr errs (acquire_after network s left (suc at)) w
          (take_idle addr w.pools)
          (inl (
            subst (λ (i : ℕ). IsGiven (network.dial (get_or s.addrs i []) w.net).0)
              (sym (ap (λ (i : ℕ). i % length s.addrs) (omega arith) ∙ e)) (up w.net)))
    acquire_after-IsGiven (suc left) at (suc k) errs w l e =
        let addr = get_or s.addrs (at % length s.addrs) [] in
        taken_or_dialled addr errs (acquire_after network s left (suc at)) w
          (take_idle addr w.pools)
          (inr λ e' v.
            acquire_after-IsGiven left (suc at) k e' v (omega (arith, l))
              (ap (λ (i : ℕ). i % length s.addrs) (omega arith) ∙ e))

    -- The turns from the peer i to the peer j.
    turns_to : (n i : ℕ) → i < n → j < n → (k : ℕ) × (k < n) × ((i + k) % n ≡ j)
    turns_to n i below l = elim (Bool-cases (leb i j)) [
      | inl le ↦
          (j - i, ground (arith, le), ap (λ (m : ℕ). m % n) (ground (arith, le)) ∙ mod-eq_of_lt l)
      | inr gt ↦ (
        j + n - i,
        ground (arith, gt, below),
        ap (λ (m : ℕ). m % n) (ground (arith, gt, below)) ∙ (add-mod_right j n ∙ mod-eq_of_lt l),
      )
    ]

    -- If one peer that is configured can be dialled from every state of the network, then acquire
    -- gives a connection, whatever the state of the pools and the counter, and of the other peers.
    pub acquire-IsGiven :
        j < length s.addrs
        → (w : W network s) → (mc : Mc network s) × ((acquire network s w).0 ≡ ok mc)
    unfolding acquire
    acquire-IsGiven l w =
        let n = length s.addrs in
        let below : w.rr % n < n = mod-lt w.rr (ground (arith, l)) in
        let (k, small, e) = turns_to n (w.rr % n) below l in
        elim (Bool-cases (n == 0)) [
          | inl empty ↦ ground (arith, empty, l)
          | inr some_addr ↦ rw some_addr (acquire_after-IsGiven n (w.rr % n) k _ _ small e)
        ]
