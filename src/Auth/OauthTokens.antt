-- ===== src/Auth/OauthTokens.antt =====
-- resourcey/auth/auth_oauth_token.py: the stored token pair of one principal and client, and its
-- refresh under a lease. Every statement names the pair, so a state is its row, or none. The
-- provider, the clock and what other processes do meanwhile are arguments.
pub mod Lease
use resourcey.Prelude.{
  ℕ, ◌+◌, String, ◌≡◌, Bool, true, false, ◌||◌, Option, none, some, List, [], ◌∷◌, take, ltb,
  if◌then◌else◌,
}
use resourcey.Failure.{Result, ok, err, invalid_input, ◌>>=◌}

-- The pair in the open, without its principal and client.
pub record StoredToken : Type 0 where
  pub access_token : String
  pub refresh_token : Option String
  pub expires_at : ℕ
  pub refresh_expires_at : Option ℕ
  pub scope : Option String

-- The row: the tokens are encrypted.
pub record TokenRow : Type 0 where
  pub access_cipher : String
  pub refresh_cipher : Option String
  pub row_expires_at : ℕ
  pub row_refresh_expires_at : Option ℕ
  pub row_scope : Option String
  pub lease_owner : Option String
  pub lease_until : Option ℕ

abbrev pub Pair : Type 0
Pair = Option TokenRow

-- The encryption of values, which opens what it sealed.
pub record Cipher : Type 0 where
  pub encrypt_value : String → String
  pub decrypt_value : String → Result String
  pub decrypt_value-encrypt_value : (t : String) → decrypt_value (encrypt_value t) ≡ ok t

-- The condition of `_claim`: NULL is not before any time.
abbrev pub is_unleased : Option String → Option ℕ → ℕ → Bool
is_unleased none until now = true
is_unleased (some owner) none now = false
is_unleased (some owner) (some until) now = ltb until now

abbrev pub leased_by : String → ℕ → TokenRow → TokenRow
leased_by owner until row = record row { lease_owner = some owner; lease_until = some until }

-- `_claim`: whether the lease was won, and the row.
unfoldable pub claim_lease : String → ℕ → ℕ → Pair → (Bool × Pair)
claim_lease owner lease_seconds now none = (false, none)
claim_lease owner lease_seconds now (some row) =
    if is_unleased row.lease_owner row.lease_until now
    then (true, some (leased_by owner (now + lease_seconds) row))
    else (false, some row)

abbrev pub poll_attempts : ℕ
poll_attempts = 40

module _ (c : Cipher) where
  abbrev pub encrypted : Option String → Option String
  encrypted none = none
  encrypted (some t) = some (c.encrypt_value t)

  abbrev pub decrypted : Option String → Result (Option String)
  decrypted none = ok none
  decrypted (some t) = c.decrypt_value t >>= λ plain. ok (some plain)

  -- `store`, which clears the lease, whether it inserts the row or replaces it.
  unfoldable pub store : StoredToken → Pair → Pair
  store token existing = some (record {
    access_cipher = c.encrypt_value token.access_token;
    refresh_cipher = encrypted token.refresh_token;
    row_expires_at = token.expires_at;
    row_refresh_expires_at = token.refresh_expires_at;
    row_scope = token.scope;
    lease_owner = none;
    lease_until = none;
  })

  -- `_decrypt_row`.
  unfoldable pub decrypt_row : TokenRow → Result StoredToken
  decrypt_row row = c.decrypt_value row.access_cipher >>= λ access.
      decrypted row.refresh_cipher >>= λ refresh. ok (record {
        access_token = access;
        refresh_token = refresh;
        expires_at = row.row_expires_at;
        refresh_expires_at = row.row_refresh_expires_at;
        scope = row.row_scope;
      })

  unfoldable pub get_token : Pair → Result (Option StoredToken)
  unfolding decrypt_row
  get_token none = ok none
  get_token (some row) = decrypt_row row >>= λ token. ok (some token)

  -- `revoke`.
  abbrev pub revoke : Pair → Pair
  revoke existing = none

  -- `_await_fresh`, over the times of its polls and the rows that they find.
  unfoldable pub await_fresh : List (ℕ × Pair) → Result StoredToken
  unfolding decrypt_row
  await_fresh [] = err invalid_input
  await_fresh ((now, none) ∷ polls) = err invalid_input
  await_fresh ((now, some row) ∷ polls) =
      let rest = await_fresh polls in
      decrypt_row row >>= λ token. if ltb now token.expires_at then ok token else rest

  -- The end of `refresh` for the winner of the lease: `meanwhile` is what others did to the row
  -- during the provider's call.
  abbrev pub settled : Result StoredToken → Pair → (Result StoredToken × Pair)
  settled (err e) meanwhile = (err invalid_input, revoke meanwhile)
  settled (ok refreshed) meanwhile = (ok refreshed, store refreshed meanwhile)

  -- `refresh`, as the statements of one session: whether they are committed or rolled back when
  -- the session ends is not in it.
  unfoldable pub refresh :
      String
      → ℕ
      → ℕ
      → ℕ
      → ℕ
      → (Option String → Result StoredToken)
      → (Pair → Pair)
      → List (ℕ × Pair)
      → Pair
      → (Result StoredToken × Pair)
  unfolding get_token claim_lease await_fresh store
  refresh owner lease_seconds skew now claimed_at provider meanwhile polls pair =
      elim (get_token pair) [
        | err e ↦ (err e, pair)
        | ok none ↦ (err invalid_input, pair)
        | ok (some current) ↦
            let (won, leased) = claim_lease owner lease_seconds claimed_at pair in
            if ltb (now + skew) current.expires_at
            then (ok current, pair)
            else if won
            then settled (provider current.refresh_token) (meanwhile leased)
            else (await_fresh (take poll_attempts polls), pair)
      ]
