-- ===== src/Store/Spec.antt =====
-- What cachecore.Store promises, as a machine over a map from keys to values: the replies and the
-- effects of the operations where no entry expires and no backend fails.
use cache.Prelude.{
  true, false, Option, none, some, List, [], ◌∷◌, Bytes, equal, ℤ, pos, add64, neg64, if◌then◌else◌,
}
use cache.Decimal.{parse_int, format_int}
use cache.Store.{Result, ok, err, not_numeric}
use cache.Store.Contract.{
  Command, get, set, add, increment, decrement, delete, delete_many, flush, lock_acquire,
  lock_release, Reply, found, done, flag, number,
}

abbrev pub Table : Type 0
Table = Bytes → Option Bytes

abbrev pub assign : Bytes → Option Bytes → Table → Table
assign k o m j = if equal k j then o else m j

abbrev pub assign_none : List Bytes → Table → Table
assign_none [] m = m
assign_none (k ∷ ks) m = assign_none ks (assign k none m)

abbrev pub assign_absent : Bytes → Bytes → Option Bytes → Table → Result Reply × Table
assign_absent k v none m = (ok (flag true), assign k (some v) m)
assign_absent k v (some _) m = (ok (flag false), m)

-- A counter that is absent counts from zero.
abbrev pub counter : Option Bytes → Option ℤ
counter none = some (pos 0)
counter (some s) = parse_int s

abbrev pub count : Bytes → ℤ → Option ℤ → Table → Result Reply × Table
count k d none m = (err (not_numeric k), m)
count k d (some n) m = (ok (number (add64 n d)), assign k (some (format_int (add64 n d))) m)

abbrev pub unassign_owned : Bytes → Bytes → Option Bytes → Table → Result Reply × Table
unassign_owned k owner none m = (ok (flag false), m)
unassign_owned k owner (some v) m =
    if equal v owner then (ok (flag true), assign k none m) else (ok (flag false), m)

unfoldable pub spec_step : Command → Table → Result Reply × Table
spec_step (get k) m = (ok (found (m k)), m)
spec_step (set k v ttl) m = (ok done, assign k (some v) m)
spec_step (add k v ttl) m = assign_absent k v (m k) m
spec_step (increment k d ttl) m = count k d (counter (m k)) m
spec_step (decrement k d ttl) m = count k (neg64 d) (counter (m k)) m
spec_step (delete k) m = (ok done, assign k none m)
spec_step (delete_many ks) m = (ok done, assign_none ks m)
spec_step flush m = (ok done, λ j. none)
spec_step (lock_acquire k o ttl) m = assign_absent k o (m k) m
spec_step (lock_release k o) m = unassign_owned k o (m k) m

unfoldable pub spec_run : List Command → Table → List (Result Reply) × Table
spec_run [] m = ([], m)
spec_run (c ∷ cs) m =
    let rest = spec_run cs (spec_step c m).1 in ((spec_step c m).0 ∷ rest.0, rest.1)
