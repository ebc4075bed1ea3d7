-- ===== src/Tests/Fixtures.antt =====
-- Concrete parameters: an engine in the place of go-cache, and codecs in the place of gzip and
-- AES-GCM.
use cache.Prelude.{
  ℕ, zero, suc, ◌+◌, ◌≡◌, refl, ap, subst, true, ◌||◌, Option, none, some, [], ◌∷◌, ◌++◌, map,
  arith, Bytes, codes, has_prefix, contains, equal, length, take, drop, ltb, ◌==◌, ℤ, pos, pos_part,
  Map, lookup, put, without, lookup-put, lookup-without, take-append, drop-append, if◌then◌else◌,
  equal_refl,
}
use cache.Memory.{World, memory_store}
use cache.Store.{Store, Result, ok, err, Act}
use cache.Memory.Backend.{Engine, EngineLaws, Expires, Object}
use cache.Store.Timed.{alive}
use cache.Shaping.Value.{Gzip, GzipLaws}
use cache.Shaping.Envelope.{Aead, AeadLaws, Crypto}
use cache.Shaping.Stores.{CryptoLaws, FullReads}

abbrev Items : Type 0
Items = Map (Object × ℕ)

abbrev live : ℕ → Option (Object × ℕ) → Option Object
live now none = none
live now (some (o, end)) = if ltb end now then none else some o

abbrev get : Bytes → ℕ → Items → Option Object
get k now c = live now (lookup k c)

abbrev set : Bytes → Object → ℤ → ℕ → Items → Items
set k o d now c = put k (o, now + pos_part d) c

abbrev exists_text : Bytes → Bytes
exists_text k = codes "Item " ++ (k ++ codes " already exists")

abbrev add_to : Option Object → Bytes → Object → ℤ → ℕ → Items → Option Bytes × Items
add_to none k o d now c = (none, set k o d now c)
add_to (some p) k o d now c = (some (exists_text k), c)

abbrev pub engine : Engine
engine = record {
  State = Items;
  new = λ d i. [];
  get = get;
  set = set;
  add = λ k o d now c. add_to (get k now c) k o d now c;
  delete = without;
  flush = λ c. [];
  items = λ now. map (λ e. (e.0, e.1.0, pos e.1.1));
}

-- A text contains what it ends in.
contains-append : (s c t : Bytes) → contains c t ≡ true → contains (s ++ c) t ≡ true
unfolding contains
contains-append [] c t h = h
contains-append (x ∷ s) c t h = ground (arith, contains-append s c t h)

says_exists : (k : Bytes) → contains (exists_text k) (codes "already exists") ≡ true
unfolding contains has_prefix
says_exists k =
    contains-append (codes "Item ") (k ++ codes " already exists") (codes "already exists")
      (contains-append k (codes " already exists") (codes "already exists") refl)

pub engine_laws : EngineLaws engine
unfolding lookup
engine_laws = record {
  get-new = λ d i j now. refl;
  get-set = λ k j o d now c h. ground (arith, lookup-put k j (o, now + pos_part d) c);
  add-absent = λ k o d now c h. ground arith;
  add-present = λ k o p d now c h. (exists_text k, ground arith, says_exists k);
  get-delete = λ k j now c. ground (arith, lookup-without k j c);
  get-flush = λ j now. λ c. refl;
}

abbrev pub written : Items → Bytes → Option (Object × ℕ)
written c k = lookup k c

pub engine_expires : Expires engine written
unfolding lookup
engine_expires = record {
  get-stored = λ k now c. seen now (lookup k c);
  stored-set = λ k j o d now c h fits. lookup-put k j (o, now + pos_part d) c;
  stored-delete = λ k j c. lookup-without k j c;
  stored-flush = λ j c. refl;
}
  where
    seen : (now : ℕ) (e : Option (Object × ℕ)) → live now e ≡ alive now e
    seen now none = refl
    seen now (some (o, end)) = refl

abbrev pub gzip : Gzip
gzip = record {
  compress = λ v. ok (31 ∷ v);
  opens = λ p. has_prefix p (31 ∷ []);
  read_all = λ p limit. some (elim limit [ none ↦ drop 1 p | some n ↦ take n (drop 1 p) ]);
}

pub gzip_laws : GzipLaws gzip
unfolding has_prefix
gzip_laws = record {
  opens-compress = λ v p h. ground arith;
  read_all-compress = λ v p h. ground arith;
  read_all-limit = λ v p n h. ground arith;
}

abbrev pub aead : Aead
aead = record {
  nonce_size = 12;
  seal = λ n p. n ++ p;
  unseal = λ n c. if equal (take (length n) c) n then some (drop (length n) c) else none;
}

pub aead_laws : AeadLaws aead
aead_laws = record {
  unseal-seal = λ n p h. ground (arith, take-append n p, drop-append n p, equal_refl n);
  gcm_nonce = refl;
}

abbrev pub crypto : Crypto
crypto = record {
  Cipher = Bytes;
  new_cipher =
      λ key. if length key == 16 || length key == 24 || length key == 32 then some key else none;
  new_gcm = λ c. ok aead;
}

pub crypto_laws : CryptoLaws crypto
crypto_laws key c a made sealed = subst AeadLaws (ap made_by sealed) aead_laws
  where
    made_by : Result Aead → Aead
    made_by (ok x) = x
    made_by (err e) = aead

abbrev pub zeros : ℕ → Bytes
zeros zero = []
zeros (suc n) = 0 ∷ zeros n

abbrev pub read_zeros : {W : Type 0} → ℕ → Act W Bytes
read_zeros n w = (ok (zeros n), w)

pub length-zeros : (n : ℕ) → length (zeros n) ≡ n
length-zeros zero = refl
length-zeros (suc n) = omega (arith, length-zeros n)

pub full_reads : {W : Type 0} → FullReads {W = W} read_zeros
full_reads n w x h = ground (arith, length-zeros n)

-- The store of an empty process cache, at second 1000.
abbrev pub start : World engine
start = record { state = []; now = 1000 }

abbrev pub base : Store (World engine)
base = memory_store engine (pos 60)
