-- ===== src/Store/Timed.antt =====
-- What cachecore.Store promises of entries that expire: the machine of Store/Spec with a clock. A
-- command comes a while after the one before it, and an entry is there up to its end.
use cache.Prelude.{
  ℕ, ◌+◌, ◌<◌, true, false, Option, none, some, List, [], ◌∷◌, Bytes, equal, ltb, ℤ, pos_part,
  two63, add64, neg64, if◌then◌else◌,
}
use cache.Decimal.{format_int}
use cache.Store.{Result, ok, err, not_numeric, ttl_or}
use cache.Store.Contract.{
  Command, get, set, add, increment, decrement, delete, delete_many, flush, lock_acquire,
  lock_release, Reply, found, done, flag, number,
}
use cache.Store.Spec.{counter}

-- The value of a key and its end.
abbrev pub TimedTable : Type 0
TimedTable = Bytes → Option (Bytes × ℕ)

abbrev pub alive {ℓ} : {V : Type ℓ} → ℕ → Option (V × ℕ) → Option V
alive now none = none
alive now (some (v, end)) = if ltb end now then none else some v

abbrev pub assign_timed : Bytes → Option (Bytes × ℕ) → TimedTable → TimedTable
assign_timed k o m j = if equal k j then o else m j

abbrev pub assign_none_timed : List Bytes → TimedTable → TimedTable
assign_none_timed [] m = m
assign_none_timed (k ∷ ks) m = assign_none_timed ks (assign_timed k none m)

module _ (default_ttl : ℤ) (now : ℕ) where
  -- The end of an entry that is written now.
  abbrev pub end_of : ℤ → ℕ
  end_of ttl = now + pos_part (ttl_or ttl default_ttl)

  abbrev pub add_timed : Bytes → Bytes → ℤ → Option Bytes → TimedTable → Result Reply × TimedTable
  add_timed k v ttl none m = (ok (flag true), assign_timed k (some (v, end_of ttl)) m)
  add_timed k v ttl (some old) m = (ok (flag false), m)

  abbrev pub count_timed : Bytes → ℤ → ℤ → Option ℤ → TimedTable → Result Reply × TimedTable
  count_timed k d ttl none m = (err (not_numeric k), m)
  count_timed k d ttl (some n) m =
      (ok (number (add64 n d)), assign_timed k (some (format_int (add64 n d), end_of ttl)) m)

  abbrev pub release_timed : Bytes → Bytes → Option Bytes → TimedTable → Result Reply × TimedTable
  release_timed k owner none m = (ok (flag false), m)
  release_timed k owner (some v) m =
      if equal v owner then (ok (flag true), assign_timed k none m) else (ok (flag false), m)

  unfoldable pub timed_step : Command → TimedTable → Result Reply × TimedTable
  timed_step (get k) m = (ok (found (alive now (m k))), m)
  timed_step (set k v ttl) m = (ok done, assign_timed k (some (v, end_of ttl)) m)
  timed_step (add k v ttl) m = add_timed k v ttl (alive now (m k)) m
  timed_step (increment k d ttl) m = count_timed k d ttl (counter (alive now (m k))) m
  timed_step (decrement k d ttl) m = count_timed k (neg64 d) ttl (counter (alive now (m k))) m
  timed_step (delete k) m = (ok done, assign_timed k none m)
  timed_step (delete_many ks) m = (ok done, assign_none_timed ks m)
  timed_step flush m = (ok done, λ j. none)
  timed_step (lock_acquire k o ttl) m = add_timed k o ttl (alive now (m k)) m
  timed_step (lock_release k o) m = release_timed k o (alive now (m k)) m

  -- The end that a command gives is a time that an int64 of nanoseconds holds.
  abbrev pub EndFits : Command → Type 0
  EndFits (set k v ttl) = end_of ttl < two63
  EndFits (add k v ttl) = end_of ttl < two63
  EndFits (increment k d ttl) = end_of ttl < two63
  EndFits (decrement k d ttl) = end_of ttl < two63
  EndFits (lock_acquire k o ttl) = end_of ttl < two63
  EndFits c = Unit

-- Commands, each with the time since the one before it.
unfoldable pub timed_run :
    ℤ → List (ℕ × Command) → ℕ → TimedTable → List (Result Reply) × TimedTable
unfolding timed_step
timed_run ttl [] now m = ([], m)
timed_run ttl ((wait, c) ∷ cs) now m =
    let r = timed_step ttl (now + wait) c m in
    let rest = timed_run ttl cs (now + wait) r.1 in (r.0 ∷ rest.0, rest.1)

abbrev pub AllEndsFit : ℤ → List (ℕ × Command) → ℕ → Type 0
AllEndsFit ttl [] now = Unit
AllEndsFit ttl ((wait, c) ∷ cs) now = EndFits ttl (now + wait) c × AllEndsFit ttl cs (now + wait)
