-- ===== src/Encryption.antt =====
-- resourcey/encryption/encryption_service.py: tokens of claims, under keys that rotate. The clock
-- counts microseconds; the format of a token and the cipher belong to the libraries.
pub mod SignedUrl
use resourcey.Prelude.{
  ℕ, zero, true, false, ◌+◌, ◌*◌, ◌/◌, String, ◌≡◌, refl, ap, ◌∙◌, Option, none, some, List, [],
  ◌∷◌, str_eq, if◌then◌else◌,
}
use resourcey.Prelude.Int.{ℤ, pos}
use resourcey.Failure.{Result, ok, err, value_error, ◌>>=◌}
use resourcey.Cursors.{Json, missing, boolean, number, quoted}

-- A dictionary of claims.
abbrev pub Claims : Type 0
Claims = List (String × Json)

unfoldable pub put : String → Json → Claims → Claims
put name value [] = (name, value) ∷ []
put name value ((n, v) ∷ claims) =
    let rest = put name value claims in if str_eq n name then (n, value) ∷ claims else (n, v) ∷ rest

unfoldable pub get_claim : String → Claims → Option Json
get_claim name [] = none
get_claim name ((n, v) ∷ claims) =
    let rest = get_claim name claims in if str_eq n name then some v else rest

-- A token has a header in the open, and opens with the secret that it was sealed with. What stands
-- in a token belongs to the library: `header_of` is its first segment, decoded as base64 and JSON,
-- or nothing where a text is no token of five segments; `seconds_of` is `float` of a text, and
-- `printed` is `str`.
pub record Jwe (Token : Type 0) : Type 0 where
  pub encrypt_compact : Claims → String → Claims → Token
  pub header_of : Token → Option Claims
  pub printed : Json → String
  pub decrypt_compact : String → Token → Result Claims
  pub seconds_of : String → Result ℤ
  pub header_of-encrypt_compact :
      (header : Claims) (secret : String) (claims : Claims)
      → header_of (encrypt_compact header secret claims) ≡ some header
  pub decrypt_compact-encrypt_compact :
      (header : Claims) (secret : String) (claims : Claims)
      → decrypt_compact secret (encrypt_compact header secret claims) ≡ ok claims

-- The key that new tokens are sealed with, and every key that opens one.
pub record EncryptionService : Type 0 where
  pub key_id : String
  pub key_value : String
  pub decryption_keys : List (String × String)

unfoldable pub secret_of : String → List (String × String) → Result String
secret_of id [] = err value_error
secret_of id ((k, secret) ∷ keys) = elim (secret_of id keys) [
  | ok later ↦ ok later
  | err e ↦ if str_eq k id then ok secret else err e
]

-- `_get_decryption_key`.
unfoldable pub get_decryption_key : EncryptionService → String → Result String
unfolding secret_of
get_decryption_key service id = secret_of id service.decryption_keys

-- The header of a token, which names its key.
abbrev pub protected_header : String → Claims
protected_header id = ("alg", quoted "dir") ∷ ("enc", quoted "A256GCM") ∷ ("kid", quoted id) ∷ []

abbrev pub second : ℕ
second = 1000000

-- `int(moment.timestamp())`.
abbrev pub timestamp : ℕ → Json
timestamp moment = number (pos (moment / second))

module _ {Token : Type 0} (jwe : Jwe Token) where
  -- A key id that is absent or falsy is an error.
  unfoldable pub named_key : Option Json → Result String
  named_key none = err value_error
  named_key (some missing) = err value_error
  named_key (some (boolean false)) = err value_error
  named_key (some (boolean true)) = ok (jwe.printed (boolean true))
  named_key (some (number (pos zero))) = err value_error
  named_key (some (number n)) = ok (jwe.printed (number n))
  named_key (some (quoted id)) = if str_eq id "" then err value_error else ok id

  -- `_jwe_kid`.
  unfoldable pub kid_of : Option Claims → Result String
  unfolding named_key get_claim
  kid_of none = err value_error
  kid_of (some header) = named_key (get_claim "kid" header)

  unfoldable pub jwe_kid : Token → Result String
  unfolding kid_of
  jwe_kid token = kid_of (jwe.header_of token)

  -- The claims of a token that is made now.
  unfoldable pub stamped_claims : Claims → Option ℕ → ℕ → Claims
  unfolding put
  stamped_claims payload none now = put "iat" (timestamp now) payload
  stamped_claims payload (some seconds) now =
      put "exp" (timestamp (now + seconds * second)) (put "iat" (timestamp now) payload)

  unfoldable pub create_jwe_token : EncryptionService → Claims → Option ℕ → ℕ → Token
  unfolding stamped_claims
  create_jwe_token service payload expires_in now =
      jwe.encrypt_compact (protected_header service.key_id) service.key_value
        (stamped_claims payload expires_in now)

  unfoldable pub decrypt_jwe_token : EncryptionService → Token → Result Claims
  unfolding get_decryption_key jwe_kid
  decrypt_jwe_token service token = do
    id ← jwe_kid token
    secret ← get_decryption_key service id
    jwe.decrypt_compact secret token

  jwe_kid-encrypt_compact :
      (id secret : String) (claims : Claims)
      → str_eq id "" ≡ false
      → jwe_kid (jwe.encrypt_compact (protected_header id) secret claims) ≡ ok id
  unfolding jwe_kid kid_of named_key get_claim
  jwe_kid-encrypt_compact id secret claims identified =
      ap kid_of (jwe.header_of-encrypt_compact (protected_header id) secret claims)
      ∙ rw identified refl

  -- A token that was sealed with a key, whose id is not empty, is opened by every service that holds the key.
  pub decrypt_jwe_token-create_jwe_token :
      (maker reader : EncryptionService) (payload : Claims) (expires_in : Option ℕ) (now : ℕ)
      → str_eq maker.key_id "" ≡ false
      → get_decryption_key reader maker.key_id ≡ ok maker.key_value
      → decrypt_jwe_token reader (create_jwe_token maker payload expires_in now)
        ≡ ok (stamped_claims payload expires_in now)
  unfolding decrypt_jwe_token create_jwe_token
  decrypt_jwe_token-create_jwe_token maker reader payload expires_in now identified held =
      rw
        (
          jwe_kid-encrypt_compact maker.key_id maker.key_value
              (stamped_claims payload expires_in now) identified,
          held,
        )
        (jwe.decrypt_compact-encrypt_compact (protected_header maker.key_id) maker.key_value
          (stamped_claims payload expires_in now))
