-- ===== src/Auth/Rbac.antt =====
-- resourcey/auth/auth_rbac_resolver.py: the policies that stored groups and roles grant, with the
-- cache of resolutions. Times are readings of the resolver's clock.
pub mod Freshness
use resourcey.Prelude.{
  ℕ, ◌+◌, String, Bool, true, false, not, ◌&&◌, Option, none, some, List, [], ◌∷◌, map, keep, ltb,
  leb, ◌==◌, str_eq, if◌then◌else◌,
}
use resourcey.Auth.Policy.{Policy, bind_member_groups}

-- `RbacStore`: what the tables hold at one moment.
pub record RbacStore : Type 0 where
  pub groups_for : ℕ → List ℕ
  pub policies_for : ℕ → String → List Policy

-- A cached resolution: the principal, the path, the policies and the expiry.
pub record Resolution : Type 0 where
  pub principal_id : ℕ
  pub path : String
  pub policies : List Policy
  pub expiry : ℕ

abbrev pub is_for : ℕ → String → Resolution → Bool
is_for u path r = r.principal_id == u && str_eq r.path path

-- The dictionary of resolutions.
unfoldable pub find_resolution : ℕ → String → List Resolution → Option Resolution
find_resolution u path [] = none
find_resolution u path (r ∷ rs) =
    let later = find_resolution u path rs in if is_for u path r then some r else later

unfoldable pub drop_resolution : ℕ → String → List Resolution → List Resolution
drop_resolution u path cache = keep (λ r. not (is_for u path r)) cache

abbrev pub unexpired :
    ℕ → ℕ → String → List Resolution → Option Resolution → Option (List Policy) × List Resolution
unexpired now u path cache none = (none, cache)
unexpired now u path cache (some r) =
    if leb r.expiry now then (none, drop_resolution u path cache) else (some r.policies, cache)

-- `_cached`: an entry that has expired is dropped.
unfoldable pub cached_resolution :
    Option ℕ → ℕ → ℕ → String → List Resolution → Option (List Policy) × List Resolution
unfolding find_resolution drop_resolution
cached_resolution none now u path cache = (none, cache)
cached_resolution (some ttl) now u path cache =
    unexpired now u path cache (find_resolution u path cache)

-- `_store_cached`.
unfoldable pub store_cached :
    Option ℕ → ℕ → ℕ → String → List Policy → List Resolution → List Resolution
unfolding drop_resolution
store_cached none now u path policies cache = cache
store_cached (some ttl) now u path policies cache =
    record { principal_id = u; path = path; policies = policies; expiry = now + ttl }
    ∷ drop_resolution u path cache

-- When a resolution looks into the cache, asks the store for groups and for policies, and is kept.
pub record Moments : Type 0 where
  pub looked_up : ℕ
  pub groups_read : ℕ
  pub policies_read : ℕ
  pub kept : ℕ

-- What the store grants, as it changes over time.
unfoldable pub granted : (ℕ → RbacStore) → Moments → ℕ → String → List Policy
unfolding bind_member_groups
granted world m u path =
    map (λ policy. bind_member_groups policy ((world m.groups_read).groups_for u))
      ((world m.policies_read).policies_for u path)

abbrev pub resolved :
    Option ℕ
    → (ℕ → RbacStore)
    → Moments
    → ℕ
    → String
    → Option (List Policy) × List Resolution
    → List Policy × List Resolution
resolved ttl world m u path (some policies, cache) = (policies, cache)
resolved ttl world m u path (none, cache) =
    (granted world m u path, store_cached ttl m.kept u path (granted world m u path) cache)

-- `resolve`: an anonymous principal has no policies.
unfoldable pub resolve :
    Option ℕ
    → (ℕ → RbacStore)
    → Moments
    → Option ℕ
    → String
    → List Resolution
    → List Policy × List Resolution
unfolding cached_resolution store_cached granted
resolve ttl world m none path cache = ([], cache)
resolve ttl world m (some u) path cache =
    resolved ttl world m u path (cached_resolution ttl m.looked_up u path cache)

abbrev pub covers : Option ℕ → Option String → ℕ → String → Bool
covers none none u path = true
covers (some v) none u path = u == v
covers none (some q) u path = str_eq path q
covers (some v) (some q) u path = u == v && str_eq path q

-- `invalidate`.
unfoldable pub invalidate : Option ℕ → Option String → List Resolution → List Resolution
invalidate who resource cache = keep (λ r. not (covers who resource r.principal_id r.path)) cache
