-- ===== src/Examples/Leases.antt =====
-- Two processes that refresh one stale token.
use resourcey.Prelude.{ℕ, ◌≤◌, String, refl, none, some, [], ◌∷◌, arith}
use resourcey.Failure.{ok}
use resourcey.Auth.OauthTokens.{StoredToken, Pair, Cipher}
use resourcey.Auth.OauthTokens.Lease.{wins, wins_once}

abbrev in_the_open : Cipher
in_the_open = record {
  encrypt_value = λ t. t;
  decrypt_value = λ t. ok t;
  decrypt_value-encrypt_value = λ t. refl;
}

abbrev token_until : String → ℕ → StoredToken
token_until access expires = record {
  access_token = access;
  refresh_token = some "r";
  expires_at = expires;
  refresh_expires_at = none;
  scope = none;
}

-- A token that expires at 100, under a lease that ran until 90.
abbrev stale : Pair
stale = some (record {
  access_cipher = "a";
  refresh_cipher = some "r";
  row_expires_at = 100;
  row_refresh_expires_at = none;
  row_scope = none;
  lease_owner = some "crashed";
  lease_until = some 90;
})

wins_once_example : wins 30 (("a", 95) ∷ ("b", 96) ∷ ("c", 120) ∷ []) stale ≤ 1
wins_once_example =
    wins_once 30 95 (("a", 95) ∷ ("b", 96) ∷ ("c", 120) ∷ []) stale
      ((omega arith, omega arith), ((omega arith, omega arith), ((omega arith, omega arith), tt)))
