-- ===== src/Api/Download.antt =====
-- What the reply to a request for a file holds.
use juno_agent.Base.{◌≡◌, ◌≢◌, refl, ◌⊎◌, inl, inr, length, ◌==◌, ==_iff, Bool-cases, [], arith}
use juno_agent.Base.Text.{Bytes}
use juno_agent.Base.Outcome.{ok, >>=-eq-ok}
use juno_agent.Padding.{
  Crypto, IsCrypto, aes_cbc_encrypt, aes_cbc_decrypt, aes_cbc_decrypt-aes_cbc_encrypt,
}
use juno_agent.Api.{
  FileSystem, file_text, read_file_text, encrypt_api_resp, read_file, bound, reply200,
}

module _ (F : FileSystem) (lib : Crypto) (secret name content : Bytes) where
  -- A file that is read is answered with success: under a secret of 32 bytes with a text that decrypts
  -- to its content, under any other secret with an empty text.
  pub read_file-aes_cbc_decrypt :
      IsCrypto lib
      → read_file_text F name ≡ file_text content
      → ((cipher : Bytes) × (read_file F lib secret (bound name) ≡ reply200 cipher)
          × (aes_cbc_decrypt lib cipher secret ≡ ok content))
        ⊎ ((length secret ≢ 32) × (read_file F lib secret (bound name) ≡ reply200 []))
  unfolding read_file encrypt_api_resp aes_cbc_encrypt
  read_file-aes_cbc_decrypt laws h = elim (Bool-cases (length secret == 32)) [
    | inl t ↦
        let (cipher, e, d) =
          >>=-eq-ok (aes_cbc_encrypt lib content secret) _
            (aes_cbc_decrypt-aes_cbc_encrypt lib content secret laws ((==_iff _ _).0 t)) in
        inl (cipher, rw (read_file, h, encrypt_api_resp, e) refl, d)
    | inr t ↦ inr (ground (arith, t), rw (read_file, h, encrypt_api_resp, aes_cbc_encrypt, t) refl)
  ]
