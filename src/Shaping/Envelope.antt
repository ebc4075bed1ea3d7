-- ===== src/Shaping/Envelope.antt =====
-- encrypt and decrypt of cachecore/shaping.go: the AES-GCM envelope.
use cache.Prelude.{
  ℕ, ◌+◌, ◌-◌, ◌%◌, ◌≡◌, not, ◌||◌, Option, none, some, ◌∷◌, ◌++◌, Bytes, codes, length, take, drop,
  get_or, ltb, ◌==◌, if◌then◌else◌,
}
use cache.Store.{Result, ok, err, decrypt_failed, Act, pure, ◌>>=◌}
use cache.Shaping.Value.{is_marked}

-- crypto/cipher.AEAD, with no additional data.
pub record Aead : Type 0 where
  pub nonce_size : ℕ
  pub seal : Bytes → Bytes → Bytes
  pub unseal : Bytes → Bytes → Option Bytes

-- A sealed text opens under its own nonce, and the nonce has the size that the cipher names, which
-- for GCM is 12.
pub record AeadLaws (a : Aead) : Type 0 where
  pub unseal-seal : (n p : Bytes) → length n ≡ a.nonce_size → a.unseal n (a.seal n p) ≡ some p
  pub gcm_nonce : a.nonce_size ≡ 12

-- aes.NewCipher and cipher.NewGCM.
pub record Crypto : Type 1 where
  pub Cipher : Type 0
  pub new_cipher : Bytes → Option Cipher
  pub new_gcm : Cipher → Result Aead

abbrev pub encryption_magic : Bytes
encryption_magic = codes "ENC1"

-- io.ReadFull(rand.Reader, …) of a number of bytes is the parameter `read_random`.
module _ {W : Type 0} (read_random : ℕ → Act W Bytes) (aead : Aead) where
  unfoldable pub encrypt : Bytes → Act W Bytes
  encrypt plain = do
    nonce ← read_random aead.nonce_size
    pure (encryption_magic ++ (length nonce % 256) ∷ (nonce ++ aead.seal nonce plain))

abbrev opened : Option Bytes → Result Bytes
opened none = err decrypt_failed
opened (some plain) = ok plain

unfoldable pub decrypt : Aead → Bytes → Result Bytes
unfolding is_marked
decrypt aead body =
    if not (is_marked encryption_magic body)
    then ok body
    else let nonce_len = get_or body (length encryption_magic) 0 in
      let offset = length encryption_magic + 1 in
      if not (nonce_len == aead.nonce_size) || ltb (length body - offset) nonce_len
      then err decrypt_failed
      else opened (aead.unseal (take nonce_len (drop offset body)) (drop (offset + nonce_len) body))
