-- ===== src/Auth/Policy.antt =====
-- resourcey/auth/auth_policy.py: the built-in policies and their reduction to a filter.
pub mod Scope
use resourcey.Prelude.{
  ℕ, String, Bool, true, false, not, ◌||◌, ◌&&◌, List, [], ◌∷◌, Option, none, some, ◌==◌,
  if◌then◌else◌,
}
use resourcey.Value.{Value, one, uid}
use resourcey.Failure.{Result, ok, err, ◌>>=◌}
use resourcey.Filter.{Filter, all, no_match, at, eq}
use resourcey.Filter.Build.{in_filter}
use resourcey.Action.{
  Action, Requested, member, as_action, create, read, update, delete, search, count, batch_read,
}

pub data Policy : Type 0 where
  allow_all deny_all read_only : Policy
  owner : (owner_field : String) → Policy
  -- the target groups, the groups bound by the resolver, and the three outcomes
  group_member :
      (group_ids member_groups : List ℕ) (on_match on_mismatch on_create : Policy) → Policy
  acl : (ids : List Value) (id_field : String) (on_create : Policy) → Policy

-- `action in _READ_LIKE_ACTIONS`; a string equals the member that it names.
unfoldable pub is_read_like : Requested → Bool
is_read_like (member read) = true
is_read_like (member search) = true
is_read_like (member count) = true
is_read_like (member batch_read) = true
is_read_like _ = false

unfoldable pub is_create : Requested → Bool
is_create (member create) = true
is_create _ = false

abbrev pub has_group : ℕ → List ℕ → Bool
has_group g [] = false
has_group g (h ∷ hs) = g == h || has_group g hs

-- `not member_groups.isdisjoint(group_ids)`.
unfoldable pub shares_group : List ℕ → List ℕ → Bool
shares_group [] hs = false
shares_group (g ∷ gs) hs = has_group g hs || shares_group gs hs

abbrev owned_by : String → Option ℕ → Bool → Filter
owned_by field none creating = no_match
owned_by field (some u) creating = if creating then all else at field (eq (one (uid u)))

abbrev listed : List Value → String → Result Filter
listed [] field = ok no_match
listed (i ∷ is) field = do ids ← in_filter (i ∷ is); ok (at field ids)

-- `Policy.to_search_filter`, for a caller and an action. An `Acl` past the cap raises.
unfoldable pub to_search_filter : Policy → Option ℕ → Requested → Result Filter
unfolding is_read_like is_create shares_group
to_search_filter allow_all u a = ok all
to_search_filter deny_all u a = ok no_match
to_search_filter read_only u a = ok (if is_read_like (as_action a) then all else no_match)
to_search_filter (owner field) u a = ok (owned_by field u (is_create (as_action a)))
to_search_filter (group_member targets groups on_match on_mismatch on_create) u a =
    let created = to_search_filter on_create u a in
    let matched = to_search_filter on_match u a in
    let mismatched = to_search_filter on_mismatch u a in
    if is_create (as_action a)
    then created
    else if shares_group groups targets
    then matched
    else mismatched
to_search_filter (acl ids field on_create) u a =
    let created = to_search_filter on_create u a in
    if is_create (as_action a) then created else listed ids field

-- `bind_member_groups`: only a membership policy is changed.
unfoldable pub bind_member_groups : Policy → List ℕ → Policy
bind_member_groups (group_member targets groups on_match on_mismatch on_create) bound =
    group_member targets bound on_match on_mismatch on_create
bind_member_groups p bound = p
