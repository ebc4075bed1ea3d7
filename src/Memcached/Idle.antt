-- ===== src/Memcached/Idle.antt =====
-- The channels of driver/memcachedcache/store.go: how many connections are in them.
use cache.Prelude.{
  ℕ, suc, ◌+◌, ◌≤◌, ◌≡◌, arith, All, Bool-cases, inl, inr, Option, none, some, List, [], ◌∷◌, Bytes,
  equal, length, length-append, ltb,
}
use cache.Memcached.Pools.{MemcachedConn, PoolMap, pool_size, take_idle, give_idle}

module _ {C : Type 0} where
  -- The connections in the channels.
  abbrev pub idle : PoolMap C → ℕ
  idle [] = 0
  idle ((addr, mcs) ∷ pools) = length mcs + idle pools

  abbrev pub Fits : PoolMap C → Type 0
  Fits = All (λ p. length p.1 ≤ pool_size)

  abbrev pub Taken : PoolMap C → Option (MemcachedConn C × PoolMap C) → Type 0
  Taken pools none = Unit
  Taken pools (some t) = (idle pools ≡ suc (idle t.1)) × (Fits pools → Fits t.1)

  Taken-behind :
      (p : Bytes × List (MemcachedConn C)) (pools : PoolMap C)
      (o : Option (MemcachedConn C × PoolMap C))
      → Taken pools o
      → Taken (p ∷ pools) (elim o [ none ↦ none | some t ↦ some (t.0, p ∷ t.1) ])
  Taken-behind p pools none h = tt
  Taken-behind p pools (some t) h = (omega (arith, h.0), λ f. (f.0, h.1 f.1))

  pub take_idle-Taken : (addr : Bytes) (pools : PoolMap C) → Taken pools (take_idle addr pools)
  unfolding take_idle
  take_idle-Taken addr [] = tt
  take_idle-Taken addr ((a, []) ∷ pools) = elim (Bool-cases (equal a addr)) [
    | inl same ↦ rw same tt
    | inr other ↦
        rw other (Taken-behind (a, []) pools (take_idle addr pools) (take_idle-Taken addr pools))
  ]
  take_idle-Taken addr ((a, mc ∷ mcs) ∷ pools) = elim (Bool-cases (equal a addr)) [
    | inl same ↦ rw same (omega arith, λ f. (omega (arith, f.0), f.1))
    | inr other ↦
        rw other
          (Taken-behind (a, mc ∷ mcs) pools (take_idle addr pools) (take_idle-Taken addr pools))
  ]

  abbrev pub Given : PoolMap C → Option (PoolMap C) → Type 0
  Given pools none = Unit
  Given pools (some ps) = (idle ps ≡ suc (idle pools)) × (Fits pools → Fits ps)

  Given-behind :
      (p : Bytes × List (MemcachedConn C)) (pools : PoolMap C) (o : Option (PoolMap C))
      → Given pools o
      → Given (p ∷ pools) (elim o [ none ↦ none | some ps ↦ some (p ∷ ps) ])
  Given-behind p pools none h = tt
  Given-behind p pools (some ps) h = (omega (arith, h.0), λ f. (f.0, h.1 f.1))

  pub give_idle-Given :
      (mc : MemcachedConn C) (pools : PoolMap C) → Given pools (give_idle mc pools)
  unfolding give_idle
  give_idle-Given mc [] = tt
  give_idle-Given mc ((a, mcs) ∷ pools) = elim (Bool-cases (equal a mc.addr)) [
    | inr other ↦
        rw other (Given-behind (a, mcs) pools (give_idle mc pools) (give_idle-Given mc pools))
    | inl same ↦ elim (Bool-cases (ltb (length mcs) pool_size)) [
      | inr full ↦ rw (same, full) tt
      | inl room ↦
          rw (same, room)
            (
              omega (arith, length-append mcs (mc ∷ [])),
              λ f. (ground (arith, room, length-append mcs (mc ∷ [])), f.1),
            )
    ]
  ]
