-- ===== src/Auth/OauthTokens/Lease.antt =====
-- The refresh lease of resourcey/auth/auth_oauth_token.py: who wins it, and what the winner leaves.
use resourcey.Prelude.{
  ℕ, suc, ◌+◌, ◌≤◌, ◌≡◌, refl, ap, ◌∙◌, subst, String, Bool, true, false, Option, none, some, List,
  [], ◌∷◌, All, ltb, if◌then◌else◌, ◌⊎◌, inl, inr, arith, Bool-cases,
}
use resourcey.Failure.{Result, ok, err, invalid_input}
use resourcey.Auth.OauthTokens.{
  StoredToken, TokenRow, Pair, Cipher, is_unleased, leased_by, claim_lease, encrypted, decrypted,
  store, decrypt_row, get_token, refresh, settled,
}

-- How many of the claims win, by their owners and times, one after the other.
abbrev counted : Bool → ℕ → ℕ
counted true n = suc n
counted false n = n

unfoldable pub wins : ℕ → List (String × ℕ) → Pair → ℕ
unfolding claim_lease
wins lease_seconds [] pair = 0
wins lease_seconds ((owner, now) ∷ claims) pair =
    counted (claim_lease owner lease_seconds now pair).0
      (wins lease_seconds claims (claim_lease owner lease_seconds now pair).1)

-- A row whose lease runs at all of the times, or no row.
abbrev IsHeld : ℕ → Pair → Type 0
IsHeld limit none = Unit
IsHeld limit (some row) =
    (owner : String) × (until : ℕ) × (row.lease_owner ≡ some owner)
    × (row.lease_until ≡ some until)
    × (limit ≤ until)

-- The outcome of a claim, by whether the row is free.
abbrev outcome : String → ℕ → TokenRow → Bool → (Bool × Pair)
outcome owner until row free =
    if free then (true, some (leased_by owner until row)) else (false, some row)

held-refused :
    (owner : String) (lease_seconds now limit : ℕ) (pair : Pair)
    → IsHeld limit pair
    → now ≤ limit
    → claim_lease owner lease_seconds now pair ≡ (false, pair)
unfolding claim_lease
held-refused owner lease_seconds now limit none held early = refl
held-refused owner lease_seconds now limit (some row) (holder, until, e, f, g) early =
    (let late : ltb until now ≡ false = ground (arith, early, g) in
      let closed : is_unleased row.lease_owner row.lease_until now ≡ false =
        ap (λ o. is_unleased o row.lease_until now) e
        ∙ ap (λ u. is_unleased (some holder) u now) f
        ∙ late in
      ap (outcome owner (now + lease_seconds) row) closed)

wins-held :
    (lease_seconds limit : ℕ) (claims : List (String × ℕ)) (pair : Pair)
    → IsHeld limit pair
    → All (λ a. a.1 ≤ limit) claims
    → wins lease_seconds claims pair ≡ 0
unfolding wins
wins-held lease_seconds limit [] pair held early = refl
wins-held lease_seconds limit ((owner, now) ∷ claims) pair held (early, later) =
    ap (λ r. counted r.0 (wins lease_seconds claims r.1))
      (held-refused owner lease_seconds now limit pair held early)
    ∙ wins-held lease_seconds limit claims pair held later

-- A claim is refused and leaves the row, or is won and holds it for the length of the lease.
claim_lease-cases :
    (owner : String) (lease_seconds now : ℕ) (pair : Pair)
    → (claim_lease owner lease_seconds now pair ≡ (false, pair))
      ⊎ ((leased : Pair) × (claim_lease owner lease_seconds now pair ≡ (true, leased))
          × IsHeld (now + lease_seconds) leased)
unfolding claim_lease
claim_lease-cases owner lease_seconds now none = inl refl
claim_lease-cases owner lease_seconds now (some row) =
    elim (Bool-cases (is_unleased row.lease_owner row.lease_until now)) [
      | inl e ↦ inr (
        some (leased_by owner (now + lease_seconds) row),
        ap (outcome owner (now + lease_seconds) row) e,
        (owner, now + lease_seconds, refl, refl, omega arith),
      )
      | inr e ↦ inl (ap (outcome owner (now + lease_seconds) row) e)
    ]

-- The later claims of a window fall into the lease of an earlier one.
reaches :
    (lease_seconds start now : ℕ) (claims : List (String × ℕ))
    → start ≤ now
    → All (λ a. (start ≤ a.1) × (a.1 ≤ start + lease_seconds)) claims
    → All (λ a. a.1 ≤ now + lease_seconds) claims
reaches lease_seconds start now [] after within = tt
reaches lease_seconds start now (a ∷ claims) after ((low, high), within) =
    (omega (arith, high, after), reaches lease_seconds start now claims after within)

-- Of any claims of a pair's refresh lease, by any processes and from any row, whose times lie
-- within one length of the lease, at most one wins.
pub wins_once :
    (lease_seconds start : ℕ) (claims : List (String × ℕ)) (pair : Pair)
    → All (λ a. (start ≤ a.1) × (a.1 ≤ start + lease_seconds)) claims
    → wins lease_seconds claims pair ≤ 1
unfolding wins
wins_once lease_seconds start [] pair within = omega arith
wins_once lease_seconds start ((owner, now) ∷ claims) pair ((after, before), within) =
    elim (claim_lease-cases owner lease_seconds now pair) [
      | inl refused ↦
          (let step : wins lease_seconds ((owner, now) ∷ claims) pair
                ≡ wins lease_seconds claims pair =
              ap (λ r. counted r.0 (wins lease_seconds claims r.1)) refused in
            omega (arith, step, wins_once lease_seconds start claims pair within))
      | inr (leased, won, held) ↦
          (let step : wins lease_seconds ((owner, now) ∷ claims) pair
                ≡ suc (wins lease_seconds claims leased) =
              ap (λ r. counted r.0 (wins lease_seconds claims r.1)) won in
            let none_later : wins lease_seconds claims leased ≡ 0 =
              wins-held lease_seconds (now + lease_seconds) claims leased held
                (reaches lease_seconds start now claims after within) in
            omega (arith, step, none_later))
    ]

module _ (c : Cipher) where
  decrypted-encrypted : (o : Option String) → decrypted c (encrypted c o) ≡ ok o
  decrypted-encrypted none = refl
  decrypted-encrypted (some t) = rw (c.decrypt_value-encrypt_value t) refl

  get_token-store :
      (token : StoredToken) (existing : Pair)
      → get_token c (store c token existing) ≡ ok (some token)
  unfolding get_token store decrypt_row
  get_token-store token existing =
      rw (c.decrypt_value-encrypt_value token.access_token, decrypted-encrypted token.refresh_token)
        refl

  -- What the winner of the lease returns and leaves.
  abbrev pub IsSettled : Result StoredToken → (Result StoredToken × Pair) → Type 0
  IsSettled (ok token) result =
      (result.0 ≡ ok token)
      × (get_token c result.1 ≡ ok (some token))
      × ((owner : String) (lease_seconds now : ℕ)
          → (claim_lease owner lease_seconds now result.1).0 ≡ true)
  IsSettled (err e) result = (result.0 ≡ err invalid_input) × (result.1 ≡ none)

  store-free :
      (token : StoredToken) (existing : Pair) (owner : String) (lease_seconds now : ℕ)
      → (claim_lease owner lease_seconds now (store c token existing)).0 ≡ true
  unfolding claim_lease store
  store-free token existing owner lease_seconds now = refl

  settled-IsSettled :
      (answer : Result StoredToken) (meanwhile : Pair)
      → IsSettled answer (settled c answer meanwhile)
  settled-IsSettled (err e) meanwhile = (refl, refl)
  settled-IsSettled (ok token) meanwhile =
      (refl, get_token-store token meanwhile, store-free token meanwhile)

  -- Within the session, whose end is the caller's, for a stored token that opens and a lease that
  -- can be won: a token that outlives the skew is
  -- returned as it is; else, whatever others do to the row during the provider's call, a provider
  -- that answers leaves its token stored, returned and free of a lease, and one that raises leaves
  -- no row and an error of invalid input.
  refresh_lem :
      (owner : String) (lease_seconds skew now claimed_at : ℕ)
      (provider : Option String → Result StoredToken) (meanwhile : Pair → Pair)
      (polls : List (ℕ × Pair)) (pair : Pair) (current : StoredToken)
      → get_token c pair ≡ ok (some current)
      → (claim_lease owner lease_seconds claimed_at pair).0 ≡ true
      → (ltb (now + skew) current.expires_at ≡ true
          → refresh c owner lease_seconds skew now claimed_at provider meanwhile polls pair
            ≡ (ok current, pair))
        × (ltb (now + skew) current.expires_at ≡ false
            → IsSettled
                (provider current.refresh_token)
                (refresh c owner lease_seconds skew now claimed_at provider meanwhile polls pair))
  unfolding refresh
  refresh_lem owner lease_seconds skew now claimed_at provider meanwhile polls pair current found
        won =
      (
        (λ fresh. rw (refresh, found, fresh) refl),
        λ stale.
            subst (IsSettled (provider current.refresh_token))
              (rw (refresh, found, stale, won) refl)
              (settled-IsSettled (provider current.refresh_token)
                (meanwhile (claim_lease owner lease_seconds claimed_at pair).1)),
      )
