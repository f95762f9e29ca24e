-- ===== src/Encryption/SignedUrl.antt =====
-- resourcey/filestore/signed_url.py: the tokens that stand for the right to read one object, without
-- the address that they are put in.
use resourcey.Prelude.{
  ℕ, ◌+◌, ◌*◌, ◌/◌, ◌≤◌, String, ◌≡◌, refl, Bool, true, false, Option, none, some, [], ◌∷◌, leb,
  str_eq, if◌then◌else◌, arith,
}
use resourcey.Prelude.Int.{ℤ, pos, negsuc}
use resourcey.Failure.{Result, ok, err, value_error, type_error, key_error, invalid_input, ◌>>=◌}
use resourcey.Cursors.{Json, missing, boolean, number, quoted}
use resourcey.Encryption.{
  Claims, put, get_claim, Jwe, EncryptionService, get_decryption_key, second, stamped_claims,
  create_jwe_token, decrypt_jwe_token, decrypt_jwe_token-create_jwe_token,
}

-- Cutting a moment to its second.
not_yet : (n now : ℕ) → now + second ≤ n → leb (n / second * second) now ≡ false
not_yet n now h = (let f : now + 1 ≤ n / 1000000 * 1000000 = omega (arith, h) in ground (arith, f))

by_now : (n now : ℕ) → n ≤ now → leb (n / second * second) now ≡ true
by_now n now h = (let f : n / 1000000 * 1000000 ≤ now = omega (arith, h) in ground (arith, f))

pub record PresignedUrl (Token : Type 0) : Type 0 where
  pub token : Token
  pub expires_at : ℕ

-- Whether a moment is at or past a number of seconds.
abbrev pub is_past : ℕ → ℤ → Bool
is_past now (pos n) = leb (n * second) now
is_past now (negsuc n) = true

module _ {Token : Type 0} (jwe : Jwe Token) where
  -- `mint_signed_url`; the clock is read again for `expires_at`.
  unfoldable pub mint_signed_url : EncryptionService → String → ℕ → ℕ → ℕ → PresignedUrl Token
  unfolding create_jwe_token
  mint_signed_url service key expires_in_seconds now later = record {
    token = create_jwe_token jwe service (("k", quoted key) ∷ []) (some expires_in_seconds) now;
    expires_at = later + expires_in_seconds * second;
  }

  -- `float(exp)`, and the comparison with it.
  abbrev pub float_of : Json → Result ℤ
  float_of missing = err type_error
  float_of (boolean true) = ok (pos 1)
  float_of (boolean false) = ok (pos 0)
  float_of (number n) = ok n
  float_of (quoted text) = jwe.seconds_of text

  abbrev pub expiry_of : Option Json → Result ℤ
  expiry_of none = err invalid_input
  expiry_of (some missing) = err invalid_input
  expiry_of (some exp) = float_of exp

  -- `_reject_expired`.
  unfoldable pub reject_expired : Claims → ℕ → Result {0} Unit
  unfolding get_claim
  reject_expired claims now = expiry_of (get_claim "exp" claims) >>= λ exp.
      if is_past now exp then err invalid_input else ok tt

  abbrev pub key_claim : Option Json → Result String
  key_claim (some (quoted key)) = if str_eq key "" then err invalid_input else ok key
  key_claim other = err invalid_input

  -- Errors of the codec become invalid input.
  abbrev pub codec_error : Result Claims → Result Claims
  codec_error (err value_error) = err invalid_input
  codec_error (err type_error) = err invalid_input
  codec_error (err key_error) = err invalid_input
  codec_error result = result

  unfoldable pub verify_signed_url : EncryptionService → Token → ℕ → Result String
  unfolding decrypt_jwe_token reject_expired get_claim
  verify_signed_url service token now = do
    claims ← codec_error (decrypt_jwe_token jwe service token)
    unexpired ← reject_expired claims now
    key_claim (get_claim "k" claims)

  -- A token of a key whose expiry is at a whole second.
  verify_signed_url-expiry :
      (maker reader : EncryptionService) (key : String) (expires_in_seconds minted now : ℕ)
      → str_eq maker.key_id "" ≡ false
      → get_decryption_key reader maker.key_id ≡ ok maker.key_value
      → str_eq key "" ≡ false
      → (b : Bool) → leb ((minted + expires_in_seconds * second) / second * second) now ≡ b
      → verify_signed_url reader
          (create_jwe_token jwe maker (("k", quoted key) ∷ []) (some expires_in_seconds) minted)
          now
        ≡ (if b then err invalid_input else ok key)
  unfolding verify_signed_url reject_expired get_claim stamped_claims put
  verify_signed_url-expiry maker reader key expires_in_seconds minted now identified held named true
        late =
      rw
        (
          decrypt_jwe_token-create_jwe_token jwe maker reader (("k", quoted key) ∷ [])
              (some expires_in_seconds) minted identified held,
          late,
        )
        refl
  verify_signed_url-expiry maker reader key expires_in_seconds minted now identified held named
        false late =
      rw
        (
          decrypt_jwe_token-create_jwe_token jwe maker reader (("k", quoted key) ∷ [])
              (some expires_in_seconds) minted identified held,
          late,
          named,
        )
        refl

  -- A signed address for a key that is not empty, read by any service that holds the key it was
  -- sealed with and whose id is not empty, gives the object's key until one second before its
  -- lifetime has passed, and is refused as invalid input from the end of its lifetime on.
  pub verify_signed_url-mint_signed_url :
      (maker reader : EncryptionService) (key : String) (expires_in_seconds minted later now : ℕ)
      → str_eq maker.key_id "" ≡ false
      → get_decryption_key reader maker.key_id ≡ ok maker.key_value
      → str_eq key "" ≡ false
      → (now + second ≤ minted + expires_in_seconds * second
          → verify_signed_url reader
              (mint_signed_url maker key expires_in_seconds minted later).token
              now
            ≡ ok key)
        × (minted + expires_in_seconds * second ≤ now
            → verify_signed_url reader
                (mint_signed_url maker key expires_in_seconds minted later).token
                now
              ≡ err invalid_input)
  unfolding mint_signed_url
  verify_signed_url-mint_signed_url maker reader key expires_in_seconds minted later now identified
        held named =
      (
        (λ early.
            verify_signed_url-expiry maker reader key expires_in_seconds minted now identified held
              named false (not_yet (minted + expires_in_seconds * second) now early)),
        λ late.
            verify_signed_url-expiry maker reader key expires_in_seconds minted now identified held
              named true (by_now (minted + expires_in_seconds * second) now late),
      )
