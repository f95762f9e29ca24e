-- ===== src/Examples/Capabilities.antt =====
-- A token that was made under an older key, read after a rotation.
use resourcey.Prelude.{
  ◌+◌, ◌*◌, ◌≤◌, some, String, ◌≡◌, refl, [], ◌∷◌, str_eq, str_eq_iff, if◌then◌else◌,
}
use resourcey.Failure.{Result, ok, err, value_error, invalid_input}
use resourcey.Encryption.{Claims, Jwe, EncryptionService, secret_of, get_decryption_key, second}
use resourcey.Encryption.SignedUrl.{
  mint_signed_url, verify_signed_url, verify_signed_url-mint_signed_url,
}

-- A token in the open: its header, the secret and the claims.
abbrev Open : Type 0
Open = Claims × String × Claims

opens :
    (header : Claims) (secret : String) (claims : Claims)
    → ◌≡◌ {A = Result Claims}
        (if str_eq secret secret then ok claims else err value_error)
        (ok claims)
opens header secret claims = rw ((str_eq_iff secret secret).1 refl) refl

abbrev plain_tokens : Jwe Open
plain_tokens = record {
  encrypt_compact = λ header secret claims. (header, secret, claims);
  header_of = λ t. some t.0;
  printed = λ j. "";
  decrypt_compact = λ secret t. if str_eq secret t.1 then ok t.2 else err value_error;
  seconds_of = λ t. err value_error;
  header_of-encrypt_compact = λ header secret claims. refl;
  decrypt_compact-encrypt_compact = opens;
}

abbrev before_rotation : EncryptionService
before_rotation = record { key_id = "old"; key_value = "s1"; decryption_keys = ("old", "s1") ∷ [] }

abbrev after_rotation : EncryptionService
after_rotation = record {
  key_id = "new";
  key_value = "s2";
  decryption_keys = ("old", "s1") ∷ ("new", "s2") ∷ [];
}

verify_signed_url-mint_signed_url_example :
    (30000000 + second ≤ 10500000 + 60 * second
      → verify_signed_url plain_tokens after_rotation
          (mint_signed_url plain_tokens before_rotation "report.pdf" 60 10500000 10500001).token
          30000000
        ≡ ok "report.pdf")
    × (10500000 + 60 * second ≤ 30000000
        → verify_signed_url plain_tokens after_rotation
            (mint_signed_url plain_tokens before_rotation "report.pdf" 60 10500000 10500001).token
            30000000
          ≡ err invalid_input)
unfolding get_decryption_key secret_of
verify_signed_url-mint_signed_url_example =
    verify_signed_url-mint_signed_url plain_tokens before_rotation after_rotation "report.pdf" 60
      10500000 10500001 30000000 refl refl refl
