-- ===== src/Facade/Remember/Reads.antt =====
-- What the read-through helpers of cache.go promise: a value is computed once, and a stale copy is
-- served where computing fails.
use cache.Prelude.{◌≡◌, Bool, true, false, Option, none, some, ◌++◌, arith, Bytes, ℤ, is_positive}
use cache.Store.{Error, Result, ok, err, Act, ttl_or}
use cache.Store.Contract.{Recalls}
use cache.Facade.{Cache, Session, observe, resolve_ttl, get_bytes, set_bytes}
use cache.Facade.Remember.{
  remember_bytes, remember_stale_bytes, serve_stale, keep_both, stale_suffix,
}

-- The stale copy, or the error of the callback.
abbrev pub stale_or : Error → Option Bytes → Result (Bytes × Bool)
stale_or e none = err e
stale_or e (some copy) = ok (copy, true)

module _ {W : Type 0} (c : Cache W) (view : W → Bytes → Option Bytes)
    (reads : (k : Bytes) (w : W) → c.store.get k w ≡ (ok (view w k), w))
    (recalls : Recalls (λ _. Unit {0}) c.store) where
  pub get_bytes_lem :
      (key : Bytes) (s : Session W)
      → ((get_bytes c key s).0 ≡ ok (view s.inner key)) × ((get_bytes c key s).1.inner ≡ s.inner)
  unfolding get_bytes
  get_bytes_lem key s = ground (arith, reads key s.inner)

  pub set_bytes_lem :
      (key v : Bytes) (ttl : ℤ) (s : Session W)
      → (set_bytes c key v ttl s).0 ≡ ok tt
      → view (set_bytes c key v ttl s).1.inner key ≡ some v
  unfolding set_bytes
  set_bytes_lem key v ttl s h = ground (
    arith,
    recalls key v (resolve_ttl c ttl) s.inner tt,
    reads key (c.store.set key v (resolve_ttl c ttl) s.inner).1,
  )

  remember-hit :
      (key v : Bytes) (ttl : ℤ) (fn : Option (Act (Session W) Bytes)) (s : Session W)
      → view s.inner key ≡ some v
      → ((remember_bytes c key ttl fn s).0 ≡ ok v)
        × ((remember_bytes c key ttl fn s).1.inner ≡ s.inner)
  unfolding remember_bytes observe
  remember-hit key v ttl fn s h = ground (arith, get_bytes_lem key s)

  remember-stores :
      (key v : Bytes) (ttl : ℤ) (fn : Option (Act (Session W) Bytes)) (s : Session W)
      → (remember_bytes c key ttl fn s).0 ≡ ok v
      → view (remember_bytes c key ttl fn s).1.inner key ≡ some v
  unfolding remember_bytes observe
  remember-stores key v ttl none s h = ground (arith, get_bytes_lem key s)
  remember-stores key v ttl (some f) s h =
      ground (arith, get_bytes_lem key s, set_bytes_lem key v ttl (f (get_bytes c key s).1).1)

  -- Over a store whose reads are pure and which recalls what it stores: right after a Remember that
  -- succeeded, another Remember of the key, with any TTL and callback, gives the same value, does
  -- not call back, and leaves the store as it is.
  pub remember_once :
      (key v : Bytes) (ttl ttl' : ℤ) (fn fn' : Option (Act (Session W) Bytes)) (s : Session W)
      → (remember_bytes c key ttl fn s).0 ≡ ok v
      → ((remember_bytes c key ttl' fn' (remember_bytes c key ttl fn s).1).0 ≡ ok v)
        × ((remember_bytes c key ttl' fn' (remember_bytes c key ttl fn s).1).1.inner
            ≡ (remember_bytes c key ttl fn s).1.inner)
  remember_once key v ttl ttl' fn fn' s h =
      remember-hit key v ttl' fn' (remember_bytes c key ttl fn s).1
        (remember-stores key v ttl fn s h)

  -- Over a store whose reads are pure and which recalls what it stores: RememberStale where the
  -- fresh copy is missing and the callback fails gives the stale copy that is there after the
  -- callback, marked as stale, or the callback's error if there is none; and the store is as the
  -- callback left it.
  pub remember_stale-fallback :
      (key : Bytes) (ttl stale_ttl : ℤ) (f : Act (Session W) Bytes) (s : Session W) (e : Error)
      → view s.inner key ≡ none
      → (f (get_bytes c key s).1).0 ≡ err e
      → ((remember_stale_bytes c key ttl stale_ttl (some f) s).0
          ≡ stale_or e (view (f (get_bytes c key s).1).1.inner (key ++ stale_suffix)))
        × ((remember_stale_bytes c key ttl stale_ttl (some f) s).1.inner
            ≡ (f (get_bytes c key s).1).1.inner)
  unfolding remember_stale_bytes serve_stale observe
  remember_stale-fallback key ttl stale_ttl f s e miss fails =
      ground (
        arith,
        get_bytes_lem key s,
        get_bytes_lem (key ++ stale_suffix) (f (get_bytes c key s).1).1,
      )

  -- Over a store whose reads are pure and which recalls what it stores: RememberStale where the
  -- fresh copy is missing, the callback gives a value and both copies can be written, with a
  -- positive stale TTL, gives the value, not marked as stale, and right after it that value is the
  -- stale copy.
  pub remember_stale-keeps_copy :
      (key v : Bytes) (ttl stale_ttl : ℤ) (f : Act (Session W) Bytes) (s : Session W)
      → view s.inner key ≡ none
      → is_positive (ttl_or stale_ttl ttl) ≡ true
      → (f (get_bytes c key s).1).0 ≡ ok v
      → (set_bytes c key v ttl (f (get_bytes c key s).1).1).0 ≡ ok tt
      → (set_bytes c
          (key ++ stale_suffix)
          v
          (ttl_or stale_ttl ttl)
          (set_bytes c key v ttl (f (get_bytes c key s).1).1).1).0
        ≡ ok tt
      → ((remember_stale_bytes c key ttl stale_ttl (some f) s).0 ≡ ok (v, false))
        × (view (remember_stale_bytes c key ttl stale_ttl (some f) s).1.inner (key ++ stale_suffix)
            ≡ some v)
  unfolding remember_stale_bytes keep_both observe
  remember_stale-keeps_copy key v ttl stale_ttl f s miss positive gives fresh stale = ground (
    arith,
    get_bytes_lem key s,
    set_bytes_lem (key ++ stale_suffix) v (ttl_or stale_ttl ttl)
        (set_bytes c key v ttl (f (get_bytes c key s).1).1).1,
  )
