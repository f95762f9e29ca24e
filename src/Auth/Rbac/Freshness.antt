-- ===== src/Auth/Rbac/Freshness.antt =====
-- How old the policies are that the resolver of resourcey/auth/auth_rbac_resolver.py answers.
use resourcey.Prelude.{
  ℕ, ◌+◌, ◌≤◌, ◌<◌, ◌≡◌, refl, ap, subst, String, Bool, true, false, not, ◌&&◌, Option, none, some,
  List, [], ◌∷◌, ◌++◌, Has, All, All-keep, leb, ◌==◌, ==_iff, str_eq, str_eq_iff, ◌⊎◌, inl, inr,
  Bool-cases, arith, if◌then◌else◌,
}
use resourcey.Auth.Policy.{Policy}
use resourcey.Auth.Rbac.{
  RbacStore, Resolution, is_for, find_resolution, drop_resolution, unexpired, cached_resolution,
  store_cached, Moments, granted, resolved, resolve, covers, invalidate,
}

-- A resolution asks the store before it is kept.
abbrev pub IsOrdered : Moments → Type 0
IsOrdered m = (m.groups_read ≤ m.kept) × (m.policies_read ≤ m.kept)

or_given : Resolution → Option Resolution → Resolution
or_given d none = d
or_given d (some r) = r

some_injective : {q r : Resolution} → some q ≡ some r → q ≡ r
unfolding or_given
some_injective {q} e = ap (or_given q) e

both_hold : (a b : Bool) → a && b ≡ true → (a ≡ true) × (b ≡ true)
both_hold true b e = (refl, e)
both_hold false b e = cc

is_for-same :
    (u : ℕ) (path : String) (r : Resolution)
    → is_for u path r ≡ true
    → (r.principal_id ≡ u) × (r.path ≡ path)
is_for-same u path r e =
    (let (same_user, same_path) = both_hold (r.principal_id == u) (str_eq r.path path) e in
      ((==_iff r.principal_id u).0 same_user, (str_eq_iff r.path path).0 same_path))

module _ (ttl : ℕ) (world : ℕ → RbacStore) where
  -- An entry holds what the store granted in one of the past resolutions, which was kept `ttl` before it expires.
  abbrev pub IsGranted : List Moments → Resolution → Type 0
  IsGranted past r =
      (m : Moments) × Has m past
      × IsOrdered m
      × (r.policies ≡ granted world m r.principal_id r.path)
      × (r.expiry ≡ m.kept + ttl)

  -- What happens to the cache: resolutions and invalidations, at any times.
  pub data Step : List Resolution → List Resolution → Type 0 where
    resolves :
        (m : Moments) (who : Option ℕ) (path : String) (cache : List Resolution)
        → IsOrdered m
        → Step cache (resolve (some ttl) world m who path cache).1
    invalidates :
        (who : Option ℕ) (resource : Option String) (cache : List Resolution)
        → Step cache (invalidate who resource cache)

  -- The resolutions that a step adds to the past ones.
  abbrev pub recorded : {cache cache' : List Resolution} → Step cache cache' → List Moments
  recorded (resolves m who path _ ordered) = m ∷ []
  recorded (invalidates who resource _) = []

  -- What a sequence of steps makes of an empty cache, with the resolutions that happened.
  pub data Steps : List Moments → List Resolution → Type 0 where
    start : Steps [] []
    further :
        (past : List Moments) (cache cache' : List Resolution) (step : Step cache cache')
        → Steps past cache
        → Steps (recorded step ++ past) cache'

  -- Policies that the store grants in this resolution, or granted in one of the past ones, which
  -- was kept less than `ttl` before the cache was looked into.
  abbrev pub IsRecent : List Moments → Moments → ℕ → String → List Policy → Type 0
  IsRecent past m u path policies =
      (policies ≡ granted world m u path)
      ⊎ ((m' : Moments) × Has m' past
          × IsOrdered m'
          × (m.looked_up < m'.kept + ttl)
          × (policies ≡ granted world m' u path))

  later-IsGranted :
      (m : Moments) (past : List Moments) (cache : List Resolution)
      → All (IsGranted past) cache
      → All (IsGranted (m ∷ past)) cache
  later-IsGranted m past [] h = tt
  later-IsGranted m past (r ∷ rs) ((m', happened, ordered, grants, expires), h) =
      ((m', inr happened, ordered, grants, expires), later-IsGranted m past rs h)

  find_resolution-IsGranted :
      (past : List Moments) (u : ℕ) (path : String) (cache : List Resolution) (r : Resolution)
      → All (IsGranted past) cache
      → find_resolution u path cache ≡ some r
      → IsGranted past r × (r.principal_id ≡ u) × (r.path ≡ path)
  unfolding find_resolution
  find_resolution-IsGranted past u path [] r h e = cc
  find_resolution-IsGranted past u path (q ∷ qs) r (g, gs) e = elim (Bool-cases (is_for u path q)) [
    | inl f ↦
        subst (λ z. IsGranted past z × (z.principal_id ≡ u) × (z.path ≡ path))
          (some_injective
            (subst (λ b. (if b then some q else find_resolution u path qs) ≡ some r) f e))
          (g, (is_for-same u path q f).0, (is_for-same u path q f).1)
    | inr f ↦
        find_resolution-IsGranted past u path qs r gs
          (subst (λ b. (if b then some q else find_resolution u path qs) ≡ some r) f e)
  ]

  drop_resolution-IsGranted :
      (past : List Moments) (u : ℕ) (path : String) (cache : List Resolution)
      → All (IsGranted past) cache
      → All (IsGranted past) (drop_resolution u path cache)
  unfolding drop_resolution
  drop_resolution-IsGranted past u path cache h =
      All-keep (IsGranted past) (λ r. not (is_for u path r)) cache h

  -- Both parts of a resolution: what it answers, and what it leaves in the cache.
  abbrev Sound : List Moments → Moments → ℕ → String → List Policy × List Resolution → Type 0
  Sound past m u path (policies, cache) =
      IsRecent past m u path policies × All (IsGranted (m ∷ past)) cache

  resolved-miss :
      (past : List Moments) (m : Moments) (u : ℕ) (path : String) (cache : List Resolution)
      → IsOrdered m
      → All (IsGranted past) cache
      → Sound past m u path (resolved (some ttl) world m u path (none, cache))
  unfolding store_cached
  resolved-miss past m u path cache ordered h = (
    inl refl,
    (
      (m, inl refl, ordered, refl, refl),
      later-IsGranted m past _ (drop_resolution-IsGranted past u path cache h),
    ),
  )

  resolved-found :
      (past : List Moments) (m : Moments) (u : ℕ) (path : String) (cache : List Resolution)
      (found : Option Resolution)
      → find_resolution u path cache ≡ found
      → IsOrdered m
      → All (IsGranted past) cache
      → Sound past m u path
          (resolved (some ttl) world m u path (unexpired m.looked_up u path cache found))
  resolved-found past m u path cache none e ordered h = resolved-miss past m u path cache ordered h
  resolved-found past m u path cache (some r) e ordered h =
      elim (Bool-cases (leb r.expiry m.looked_up)) [
        | inl f ↦ rw f (
            resolved-miss past m u path (drop_resolution u path cache) ordered
              (drop_resolution-IsGranted past u path cache h))
        | inr f ↦ rw f (
            let ((m', happened, ordered', grants, expires), same_user, same_path) =
              find_resolution-IsGranted past u path cache r h e in
            (
              inr (
                m',
                happened,
                ordered',
                ground (arith, f, expires),
                subst (λ v. r.policies ≡ granted world m' v path) same_user
                    (subst (λ q. r.policies ≡ granted world m' r.principal_id q) same_path grants),
              ),
              later-IsGranted m past cache h,
            ))
      ]

  resolve-Sound :
      (past : List Moments) (m : Moments) (u : ℕ) (path : String) (cache : List Resolution)
      → IsOrdered m
      → All (IsGranted past) cache
      → Sound past m u path (resolve (some ttl) world m (some u) path cache)
  unfolding resolve cached_resolution
  resolve-Sound past m u path cache ordered h =
      resolved-found past m u path cache (find_resolution u path cache) refl ordered h

  Step-IsGranted :
      (past : List Moments) (cache cache' : List Resolution) (step : Step cache cache')
      → All (IsGranted past) cache
      → All (IsGranted (recorded step ++ past)) cache'
  unfolding resolve invalidate
  Step-IsGranted past cache cache' (resolves m (some u) path _ ordered) h =
      (resolve-Sound past m u path cache ordered h).1
  Step-IsGranted past cache cache' (resolves m none path _ ordered) h =
      later-IsGranted m past cache h
  Step-IsGranted past cache cache' (invalidates who resource _) h =
      All-keep (IsGranted past) (λ r. not (covers who resource r.principal_id r.path)) cache h

  Steps-IsGranted :
      (past : List Moments) (cache : List Resolution)
      → Steps past cache
      → All (IsGranted past) cache
  Steps-IsGranted _ _ start = tt
  Steps-IsGranted _ _ (further past cache cache' step before) =
      Step-IsGranted past cache cache' step (Steps-IsGranted past cache before)

  -- From an empty cache, after any resolutions and invalidations, a principal's resolution answers
  -- what the store grants in this resolution, or what it granted in one of those resolutions, kept
  -- less than the time to live before the cache was looked into. Each resolution reads the store
  -- before it is kept.
  pub resolve-IsRecent :
      (past : List Moments) (cache : List Resolution) (m : Moments) (u : ℕ) (path : String)
      → Steps past cache
      → IsOrdered m
      → IsRecent past m u path (resolve (some ttl) world m (some u) path cache).0
  resolve-IsRecent past cache m u path steps ordered =
      (resolve-Sound past m u path cache ordered (Steps-IsGranted past cache steps)).0

  find_resolution-invalidate :
      (who : Option ℕ) (resource : Option String) (u : ℕ) (path : String) (cache : List Resolution)
      → covers who resource u path ≡ true
      → find_resolution u path (invalidate who resource cache) ≡ none
  unfolding find_resolution invalidate
  find_resolution-invalidate who resource u path [] h = refl
  find_resolution-invalidate who resource u path (r ∷ rs) h =
      elim (Bool-cases (covers who resource r.principal_id r.path)) [
        | inl e ↦ rw e (find_resolution-invalidate who resource u path rs h)
        | inr e ↦ elim (Bool-cases (is_for u path r)) [
          | inl f ↦
              (let (same_user, same_path) = is_for-same u path r f in
                cc (
                  e,
                  h,
                  ap (λ v. covers who resource v r.path) same_user,
                  ap (covers who resource u) same_path,
                ))
          | inr f ↦ rw (e, f) (find_resolution-invalidate who resource u path rs h)
        ]
      ]

  -- After an invalidation that covers a principal and a path, their next resolution answers what
  -- the store grants in it, whatever the cache held.
  pub resolve-invalidate :
      (who : Option ℕ) (resource : Option String) (m : Moments) (u : ℕ) (path : String)
      (cache : List Resolution)
      → covers who resource u path ≡ true
      → (resolve (some ttl) world m (some u) path (invalidate who resource cache)).0
        ≡ granted world m u path
  unfolding resolve cached_resolution
  resolve-invalidate who resource m u path cache h =
      rw (find_resolution-invalidate who resource u path cache h) refl
