-- ===== src/Auth/Policy/Scope.antt =====
-- What the policies of resourcey/auth/auth_policy.py admit, said without filters, and that their
-- filters match exactly that.
use resourcey.Prelude.{
  ℕ, String, ◌≡◌, Bool, true, false, ◌||◌, List, [], ◌∷◌, Option, none, some, arith, if◌then◌else◌,
}
use resourcey.Value.{one, uid, Row, value_eq, is_among, attribute}
use resourcey.Failure.{ok}
use resourcey.Filter.{Filter, Casing, row, matches}
use resourcey.Filter.Build.{in_filter}
use resourcey.Action.{Requested, as_action}
use resourcey.Auth.Policy.{
  Policy, allow_all, deny_all, read_only, owner, group_member, acl, is_read_like, is_create,
  shares_group, to_search_filter,
}

-- A row belongs to a caller when its owner field holds the caller's id.
abbrev owns : Option ℕ → String → Row → Bool
owns none field r = false
owns (some u) field r = value_eq (attribute field r) (one (uid u))

abbrev is_known : Option ℕ → Bool
is_known none = false
is_known (some u) = true

-- Whether a policy lets a caller perform an action on a row.
unfoldable pub admits : Policy → Option ℕ → Requested → Row → Bool
admits allow_all u a r = true
admits deny_all u a r = false
admits read_only u a r = is_read_like (as_action a)
admits (owner field) u a r = if is_create (as_action a) then is_known u else owns u field r
admits (group_member targets groups on_match on_mismatch on_create) u a r =
    let created = admits on_create u a r in
    let matched = admits on_match u a r in
    let mismatched = admits on_mismatch u a r in
    if is_create (as_action a)
    then created
    else if shares_group groups targets
    then matched
    else mismatched
admits (acl ids field on_create) u a r =
    let created = admits on_create u a r in
    if is_create (as_action a) then created else is_among (attribute field r) ids

-- The union: some policy admits.
abbrev pub any_admits : List Policy → Option ℕ → Requested → Row → Bool
any_admits [] u a r = false
any_admits (p ∷ ps) u a r = admits p u a r || any_admits ps u a r

module _ ⦃c : Casing⦄ where
  -- The filter that a policy reduces to evaluates without error on every row and matches exactly
  -- the rows that the policy admits, said without filters.
  pub to_search_filter-matches :
      (p : Policy) (u : Option ℕ) (a : Requested) (r : Row) (f : Filter)
      → to_search_filter p u a ≡ ok f
      → matches f (row r) ≡ ok (admits p u a r)
  unfolding to_search_filter admits matches in_filter is_among
  to_search_filter-matches allow_all u a r f h = ground arith
  to_search_filter-matches deny_all u a r f h = ground arith
  to_search_filter-matches read_only u a r f h = ground arith
  to_search_filter-matches (owner field) u a r f h = ground arith
  to_search_filter-matches (group_member targets groups m n k) u a r f h = ground (
    arith,
    to_search_filter-matches m u a r f,
    to_search_filter-matches n u a r f,
    to_search_filter-matches k u a r f,
  )
  to_search_filter-matches (acl [] field k) u a r f h =
      ground (arith, to_search_filter-matches k u a r f)
  to_search_filter-matches (acl (i ∷ is) field k) u a r f h =
      ground (arith, to_search_filter-matches k u a r f)
