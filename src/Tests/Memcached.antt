-- ===== src/Tests/Memcached.antt =====
-- driver/memcachedcache/store.go at concrete inputs, over connections that read what a list tells.
use cache.Prelude.{
  ℕ, if◌then◌else◌, get_or, ◌==◌, ◌+◌, ◌-◌, ◌≡◌, refl, arith, Option, none, some, List, [], ◌∷◌,
  Bytes, codes, pos, drop, equal, has_prefix,
}
use cache.Store.{Result, ok, err, text}
use cache.Decimal.{parse_int}
use cache.Store.Contract.{Command, found, number, get, set, increment, lock_release, run, exec}
use cache.Memcached.Pools.{Network, MemcachedStore, Pooled, W, Mc, acquire, using}
use cache.Memcached.Peers.{acquire-IsGiven}
use cache.Memcached.{memcached_store, empty_pools}
use cache.Memcached.Balance.{CountsOpen, IsBalanced}
use cache.Memcached.Runs.{run-IsBalanced}

-- The open connections, and what the reads give: nothing is a reset of the connection.
abbrev Peer : Type 0
Peer = ℕ × List (Option Bytes)

abbrev next : List (Option Bytes) → Result Bytes
next [] = err (text "connection reset")
next (none ∷ reads) = err (text "connection reset")
next (some b ∷ reads) = ok b

abbrev network : Network
network = record {
  State = Peer;
  Conn = Unit;
  dial = λ addr p. (ok tt, (p.0 + 1, p.1));
  write = λ c b p. (ok tt, p);
  read_string = λ c p. (next p.1, (p.0, drop 1 p.1));
  read_full = λ c n p. (next p.1, (p.0, drop 1 p.1));
  close = λ c p. (p.0 - 1, p.1);
}

abbrev opens : Peer → ℕ
opens p = p.0

counts : CountsOpen network opens
counts = record {
  dial-lem = λ addr p. omega arith;
  write-lem = λ c b p. refl;
  read_string-lem = λ c p. refl;
  read_full-lem = λ c n p. refl;
  close-lem = λ c p. refl;
}

abbrev settings : MemcachedStore
settings = record {
  addrs = codes "a" ∷ codes "b" ∷ [];
  ttl = pos 5;
  prefix = codes "app";
  turns = 2;
}

abbrev began : List (Option Bytes) → Pooled Peer Unit
began reads = record { net = (0, reads); pools = empty_pools settings.addrs; rr = 0 }

-- A value with a line end, then the set and the second turn of a counter, then a reset.
abbrev reads : List (Option Bytes)
reads =
    some (codes "VALUE app:k 0 3\r\n")
    ∷ some (codes "x\ny")
    ∷ some (codes "\r\n")
    ∷ some (codes "END\r\n")
    ∷ some (codes "NOT_FOUND\r\n")
    ∷ some (codes "STORED\r\n")
    ∷ some (codes "7\r\n")
    ∷ some (codes "TOUCHED\r\n")
    ∷ []

abbrev script : List Command
script =
    get (codes "k")
    ∷ increment (codes "n") (pos 7) (pos 5)
    ∷ lock_release (codes "l") (codes "me")
    ∷ set (codes "k") (codes "v") (pos 5)
    ∷ []

began-IsBalanced : IsBalanced network opens settings counts 0 (began reads)
began-IsBalanced = record { balance = refl; fits = (omega arith, (omega arith, tt)) }

run-IsBalanced_example :
    IsBalanced network opens settings counts 0
      (run (memcached_store network settings) script (began reads)).1
run-IsBalanced_example =
    run-IsBalanced network opens settings counts script (began reads) began-IsBalanced

-- The value is read by its length, and a reset closes the connection.
run_test :
    (run (memcached_store network settings) script (began reads)).0
    ≡ ok (found (some (codes "x\ny")))
      ∷ ok (number (pos 7))
      ∷ err (text "connection reset")
      ∷ err (text "connection reset")
      ∷ []
unfolding run memcached_store using exec equal parse_int has_prefix
run_test = refl

-- A network on which only the second address can be dialled.
abbrev half : Network
half = record network {
  dial = λ addr p.
      if get_or addr 0 0 == b'b' then (ok tt, (p.0 + 1, p.1)) else (err (text "refused"), p);
}

abbrev half_began : W half settings
half_began = record { net = (0, []); pools = empty_pools settings.addrs; rr = 2 }

acquire-IsGiven_example : (mc : Mc half settings) × ((acquire half settings half_began).0 ≡ ok mc)
acquire-IsGiven_example = acquire-IsGiven half settings 1 (λ p. (tt, refl)) (omega arith) half_began
