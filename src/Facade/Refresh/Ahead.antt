-- ===== src/Facade/Refresh/Ahead.antt =====
-- What refreshAheadBytes of cache.go promises, over a store that remembers what it is given.
use cache.Prelude.{
  ℕ, ◌+◌, ◌<◌, ◌≡◌, Bool, true, false, Option, none, some, ◌++◌, arith, Bytes, ℤ, pos, is_positive,
  leb, ◌+ℤ◌, wrap64, wrap64_of_IsInt64, two63, equal, equal_iff, length, length-append, Bool-cases,
  inl, inr, ap, ◌∙◌,
}
use cache.Decimal.{format_int, parse_int-format_int}
use cache.Store.{ok, Act}
use cache.Store.Contract.{Recalls, IsFramed, set, exec}
use cache.Prelude.{lookup}
use cache.Facade.Locks.{uses_direct_lock_lifecycle}
use cache.Facade.Locks.Lifecycle.{try_lock-direct, try_lock_direct-refused}
use cache.Facade.{Cache, Session, DirectLockStatus, observe, resolve_ttl, get_bytes, set_bytes}
use cache.Facade.Refresh.{
  refresh_ahead_bytes, refresh_in_background, refresh_lock_prefix, set_refresh_ahead_value,
  maybe_trigger_refresh_ahead, is_due, refresh_meta_suffix,
}
use cache.Facade.Remember.Reads.{get_bytes_lem, set_bytes_lem}

is_due_lem :
    (now expires ahead : ℕ)
    → expires < two63
    → is_due (pos now) (pos ahead) (ok (some (format_int (wrap64 (pos expires)))))
      ≡ leb expires (now + ahead)
unfolding is_due ◌+ℤ◌
is_due_lem now expires ahead fits = ground (
  arith,
  wrap64_of_IsInt64 (pos expires) (fits, omega arith),
  parse_int-format_int (pos expires) (fits, omega arith),
)

-- A longer text is another text.
equal-append : (s t : Bytes) → 0 < length t → equal (s ++ t) s ≡ false
equal-append s t longer = elim (Bool-cases (equal (s ++ t) s)) [
  | inl same ↦ absurd (omega (arith, length-append s t, ap length ((equal_iff (s ++ t) s).0 same)))
  | inr differ ↦ differ
]

module _ {W : Type 0} (c : Cache W) (view : W → Bytes → Option Bytes)
    (framed : IsFramed c.store view) (recalls : Recalls (λ _. Unit {0}) c.store) (key : Bytes) where
  -- A call on a value that is there.
  refresh_ahead-hit :
      (v : Bytes) (ttl ahead : ℤ) (fn : Option (Act (Session W) Bytes)) (s : Session W)
      → is_positive ttl ≡ true
      → is_positive ahead ≡ true
      → view s.inner key ≡ some v
      → ((refresh_ahead_bytes c key ttl ahead fn s).0
          ≡ ok (
            v,
            is_due (pos (c.clock s.inner)) ahead (ok (view s.inner (key ++ refresh_meta_suffix))),
          ))
        × ((refresh_ahead_bytes c key ttl ahead fn s).1.inner ≡ s.inner)
  unfolding refresh_ahead_bytes maybe_trigger_refresh_ahead observe
  refresh_ahead-hit v ttl ahead fn s positive some_ahead h = ground (
    arith,
    get_bytes_lem c view framed.reads recalls key s,
    get_bytes_lem c view framed.reads recalls (key ++ refresh_meta_suffix) (get_bytes c key s).1,
  )

  set_bytes-elsewhere :
      (k v j : Bytes) (ttl : ℤ) (s : Session W)
      → equal k j ≡ false
      → view (set_bytes c k v ttl s).1.inner j ≡ view s.inner j
  unfolding set_bytes observe exec
  set_bytes-elsewhere k v j ttl s other =
      ground (arith, framed.frames (set k v (resolve_ttl c ttl)) s.inner j)

  -- A value that is written with its metadata.
  set_refresh_ahead_value_lem :
      (v : Bytes) (ttl : ℤ) (s : Session W)
      → (set_refresh_ahead_value c key v ttl s).0 ≡ ok tt
      → (view (set_refresh_ahead_value c key v ttl s).1.inner key ≡ some v)
        × (view (set_refresh_ahead_value c key v ttl s).1.inner (key ++ refresh_meta_suffix)
            ≡ some (
                format_int
                  (wrap64 (pos (c.clock (set_bytes c key v ttl s).1.inner) +ℤ resolve_ttl c ttl))))
  unfolding set_refresh_ahead_value
  set_refresh_ahead_value_lem v ttl s h =
      let s1 = (set_bytes c key v ttl s).1 in
      let expires = format_int (wrap64 (pos (c.clock s1.inner) +ℤ resolve_ttl c ttl)) in
      ground (
        arith,
        set_bytes_lem c view framed.reads recalls key v ttl s,
        set_bytes_lem c view framed.reads recalls (key ++ refresh_meta_suffix) expires ttl s1,
        set_bytes-elsewhere (key ++ refresh_meta_suffix) expires key ttl s1
            (equal-append key refresh_meta_suffix (omega arith)),
      )

  refresh_ahead-stores :
      (v : Bytes) (ttl ahead : ℤ) (f : Act (Session W) Bytes) (s : Session W)
      → view s.inner key ≡ none
      → (refresh_ahead_bytes c key ttl ahead (some f) s).0 ≡ ok (v, false)
      → let u = (f (get_bytes c key s).1).1 in
        ((set_refresh_ahead_value c key v ttl u).0 ≡ ok tt)
        × ((refresh_ahead_bytes c key ttl ahead (some f) s).1.inner
            ≡ (set_refresh_ahead_value c key v ttl u).1.inner)
  unfolding refresh_ahead_bytes observe
  refresh_ahead-stores v ttl ahead f s miss h =
      ground (arith, get_bytes_lem c view framed.reads recalls key s)

  horizon : (t d : ℕ) → 0 < d → pos t +ℤ resolve_ttl c (pos d) ≡ pos (t + d)
  unfolding resolve_ttl ◌+ℤ◌
  horizon t d some_d = ground arith

  -- The time at which a miss has written the value of its callback.
  abbrev pub written_at : Bytes → ℕ → Act (Session W) Bytes → Session W → ℕ
  written_at v d f s = c.clock (set_bytes c key v (pos d) (f (get_bytes c key s).1).1).1.inner

  -- Over a store whose reads are pure, whose commands change only their own keys, and which
  -- recalls what it stores: RefreshAhead on a miss stores what its callback gave, for a duration
  -- d. A RefreshAhead in any later session in which the value and its metadata are still there,
  -- with a positive TTL and window, gives the value without calling back and leaves the store as
  -- it is, and it starts a refresh in the background exactly when the end of d, from the time the
  -- value was written, is at most its own window away. That end is a time that an int64 of
  -- nanoseconds holds.
  pub refresh_ahead_cycle :
      (v : Bytes) (d a d' a' : ℕ) (f : Act (Session W) Bytes) (fn : Option (Act (Session W) Bytes))
      (s s' : Session W)
      → view s.inner key ≡ none
      → (refresh_ahead_bytes c key (pos d) (pos a) (some f) s).0 ≡ ok (v, false)
      → 0 < d
      → 0 < d'
      → 0 < a'
      → written_at v d f s + d < two63
      → view s'.inner key ≡ view (refresh_ahead_bytes c key (pos d) (pos a) (some f) s).1.inner key
      → view s'.inner (key ++ refresh_meta_suffix)
        ≡ view
            (refresh_ahead_bytes c key (pos d) (pos a) (some f) s).1.inner
            (key ++ refresh_meta_suffix)
      → ((refresh_ahead_bytes c key (pos d') (pos a') fn s').0
          ≡ ok (v, leb (written_at v d f s + d) (c.clock s'.inner + a')))
        × ((refresh_ahead_bytes c key (pos d') (pos a') fn s').1.inner ≡ s'.inner)
  refresh_ahead_cycle v d a d' a' f fn s s' miss computed some_d some_d' some_a' fits same
        same_meta =
      let t = written_at v d f s in
      let (stored, left) = refresh_ahead-stores v (pos d) (pos a) f s miss computed in
      let (value, meta) =
        set_refresh_ahead_value_lem v (pos d) (f (get_bytes c key s).1).1 stored in
      let (answer, kept) =
        refresh_ahead-hit v (pos d') (pos a') fn s' (ground arith) (ground arith)
          (same ∙ ap (λ (w : W). view w key) left ∙ value) in
      let meta' : view s'.inner (key ++ refresh_meta_suffix)
          ≡ some (format_int (wrap64 (pos (t + d)))) =
        same_meta
        ∙ ap (λ (w : W). view w (key ++ refresh_meta_suffix)) left
        ∙ meta
        ∙ ap (λ (e : ℤ). some (format_int (wrap64 e))) (horizon t d some_d) in
      (
        answer
            ∙ ap (λ (o : Option Bytes). ok (v, is_due (pos (c.clock s'.inner)) (pos a') (ok o)))
                meta'
            ∙ ap (λ (b : Bool). ok (v, b)) (is_due_lem (c.clock s'.inner) (t + d) a' fits),
        kept,
      )

-- With a driver other than the null one and the token of the Cache made: while a Cache holds,
-- takes or releases the refresh lock of a key, as it does from the start of a background refresh
-- to its end, another background refresh of the key does nothing to the store and does not call
-- back.
pub refresh_in_background_once :
    {W : Type 0} (c : Cache W) (key owner : Bytes) (p : DirectLockStatus) (ttl ahead : ℤ)
    (fn : Option (Act (Session W) Bytes)) (s : Session W)
    → uses_direct_lock_lifecycle c ≡ true
    → s.owner ≡ some (ok owner)
    → lookup (refresh_lock_prefix ++ key) s.direct_locks ≡ some p
    → ((refresh_in_background c key ttl ahead fn s).1.inner ≡ s.inner)
      × ((refresh_in_background c key ttl ahead fn s).1.direct_locks ≡ s.direct_locks)
unfolding refresh_in_background
refresh_in_background_once c key owner p ttl ahead fn s direct made taken = ground (
  arith,
  try_lock-direct c (refresh_lock_prefix ++ key) owner direct ahead s made,
  try_lock_direct-refused c (refresh_lock_prefix ++ key) owner p ahead s taken,
)
