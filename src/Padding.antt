-- ===== src/Padding.antt =====
-- PKCS7Padding and PKCS7UnPadding of util/encrypt.go, with the key check of AESCBCEncrypt and
-- AESCBCDecrypt. The cipher of crypto/aes and the base64 text are parameters.
use juno_agent.Base.{
  ℕ, zero, suc, ◌+◌, ◌-◌, ◌%◌, ◌^◌, ◌<◌, ◌≤◌, Option, none, some, false, [], ◌∷◌, ◌++◌, ◌≡◌, refl,
  ap, sym, ◌∙◌, if◌then◌else◌, arith, length, replicate, take, ltb, ◌==◌, not, length-append,
  length-replicate, take-append,
}
use native.Mathlib.Nat.{mod-add-mod, mod_self}
use juno_agent.Base.Text.{Bytes}
use juno_agent.Base.Outcome.{Outcome, ok, err, panics, ◌>>=◌}

-- byte(padding) keeps the low eight bits.
unfoldable pub pkcs7_padding : Bytes → ℕ → Bytes
pkcs7_padding text size =
    let padding = size - length text % size in text ++ replicate padding (padding % 2 ^ 8)

-- The last byte, if there is one.
abbrev pub last_byte : Bytes → Option ℕ
last_byte [] = none
last_byte (c ∷ []) = some c
last_byte (c ∷ d ∷ s) = last_byte (d ∷ s)

-- The slice is out of range when there is no last byte or it is larger than the length.
unfoldable pub pkcs7_unpadding : Bytes → Option Bytes
pkcs7_unpadding data_ = elim (last_byte data_) [
  | none ↦ none
  | some n ↦ if ltb (length data_) n then none else some (take (length data_ - n) data_)
]

last_byte-replicate : (s : Bytes) (n b : ℕ) → last_byte (s ++ replicate (suc n) b) ≡ some b
last_byte-replicate [] zero b = refl
last_byte-replicate [] (suc n) b = last_byte-replicate [] n b
last_byte-replicate (c ∷ []) n b = last_byte-replicate [] n b
last_byte-replicate (c ∷ d ∷ s) n b = last_byte-replicate (d ∷ s) n b

unpadding_of : (s : Bytes) (p : ℕ) → 1 ≤ p → pkcs7_unpadding (s ++ replicate p p) ≡ some s
unfolding pkcs7_unpadding
unpadding_of s zero h = absurd (omega arith)
unpadding_of s (suc n) h =
    rw (pkcs7_unpadding, last_byte-replicate s n (suc n), long)
      (ap (λ k. some (take k (s ++ replicate (suc n) (suc n)))) short
        ∙ ap some (take-append s (replicate (suc n) (suc n))))
  where
    whole : length (s ++ replicate (suc n) (suc n)) ≡ length s + suc n
    whole =
        length-append s (replicate (suc n) (suc n))
        ∙ ap (λ k. length s + k) (length-replicate (suc n) (suc n))

    long : ltb (length (s ++ replicate (suc n) (suc n))) (suc n) ≡ false
    long = ground (arith, whole)

    short : length (s ++ replicate (suc n) (suc n)) - suc n ≡ length s
    short = omega (arith, whole)

remainder_high : (n k : ℕ) → 1 ≤ k → n % k < k
remainder_high n k h = omega arith

filled : (n k : ℕ) → 1 ≤ k → (n + (k - n % k)) % k ≡ 0
filled n k h =
    sym (mod-add-mod n k (k - n % k))
    ∙ ap (λ m. m % k) (omega (arith, remainder_high n k h))
    ∙ mod_self k

-- Padding to blocks of a size from 1 to 255 is undone, whatever the text, and fills whole blocks.
pub pkcs7_unpadding-pkcs7_padding :
    (s : Bytes) (size : ℕ)
    → 1 ≤ size
    → size < 2 ^ 8
    → (pkcs7_unpadding (pkcs7_padding s size) ≡ some s) × (length (pkcs7_padding s size) % size ≡ 0)
unfolding pkcs7_padding
pkcs7_unpadding-pkcs7_padding s size low high = (
  rw fits (unpadding_of s _ (omega (arith, remainder_high (length s) size low))),
  ap (λ n. n % size)
        (length-append s _ ∙ ap (λ n. length s + n) (length-replicate (size - length s % size) _))
      ∙ filled (length s) size low,
)
  where
    fits : (size - length s % size) % 2 ^ 8 ≡ size - length s % size
    fits = omega arith

-- What AESCBCEncrypt and AESCBCDecrypt call: the block mode of a key, and base64 text. Decoding gives
-- what it decoded before an error.
pub record Crypto : Type 0 where
  pub block_size : ℕ
  pub encrypt_blocks : Bytes → Bytes → Bytes
  pub decrypt_blocks : Bytes → Bytes → Bytes
  pub encode : Bytes → Bytes
  pub decode : Bytes → Bytes

pub data CryptoError : Type 0 where
  key_length : CryptoError

unfoldable pub aes_cbc_encrypt : Crypto → Bytes → Bytes → Outcome CryptoError Bytes
aes_cbc_encrypt lib orig key =
    if length key == 32
    then ok (lib.encode (lib.encrypt_blocks key (pkcs7_padding orig lib.block_size)))
    else err key_length

-- CryptBlocks panics at a text that is not of whole blocks, and the slice of the padding out of range.
unfoldable pub aes_cbc_decrypt : Crypto → Bytes → Bytes → Outcome CryptoError Bytes
aes_cbc_decrypt lib crypted key =
    let data_ = lib.decode crypted in
    if not (length key == 32)
    then err key_length
    else if not (length data_ % lib.block_size == 0)
    then panics
    else elim (pkcs7_unpadding (lib.decrypt_blocks key data_)) [ none ↦ panics | some s ↦ ok s ]

-- What is documented of the cipher and of base64: on whole blocks, decryption undoes encryption under
-- the same key and lengths stay; a text that was encoded is decoded.
pub record IsCrypto (lib : Crypto) : Type 0 where
  pub block_low : 1 ≤ lib.block_size
  pub block_high : lib.block_size < 2 ^ 8
  pub decrypts :
      (k s : Bytes)
      → length s % lib.block_size ≡ 0
      → lib.decrypt_blocks k (lib.encrypt_blocks k s) ≡ s
  pub keeps_length : (k s : Bytes) → length (lib.encrypt_blocks k s) ≡ length s
  pub decodes : (s : Bytes) → lib.decode (lib.encode s) ≡ s

-- With a key of 32 bytes every text is encrypted, and decrypted back under the same key.
pub aes_cbc_decrypt-aes_cbc_encrypt :
    (lib : Crypto) (s key : Bytes)
    → IsCrypto lib
    → length key ≡ 32
    → (aes_cbc_encrypt lib s key >>= λ t. aes_cbc_decrypt lib t key) ≡ ok s
unfolding aes_cbc_encrypt aes_cbc_decrypt
aes_cbc_decrypt-aes_cbc_encrypt lib s key laws e =
    rw (e, laws.decodes, whole, laws.decrypts key padded (filled_blocks.1), filled_blocks.0) refl
  where
    padded : Bytes
    padded = pkcs7_padding s lib.block_size

    filled_blocks : (pkcs7_unpadding padded ≡ some s) × (length padded % lib.block_size ≡ 0)
    filled_blocks = pkcs7_unpadding-pkcs7_padding s lib.block_size laws.block_low laws.block_high

    whole : length (lib.encrypt_blocks key padded) % lib.block_size ≡ 0
    whole = ap (λ n. n % lib.block_size) (laws.keeps_length key padded) ∙ filled_blocks.1
