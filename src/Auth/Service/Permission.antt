-- ===== src/Auth/Service/Permission.antt =====
-- `_permission_filter` of resourcey/auth/auth_authorized_service.py is the union of the policies.
use resourcey.Prelude.{ℕ, ◌≡◌, true, Option, none, some, List, [], ◌∷◌, arith}
use resourcey.Value.{Row}
use resourcey.Failure.{ok, >>=-eq-ok}
use resourcey.Filter.{Filter, Casing, row, matches, any_match, all_match}
use resourcey.Filter.Build.{of_list, or_}
use resourcey.Filter.Laws.{or_-matches, and_-true}
use resourcey.Action.{Requested}
use resourcey.Auth.Policy.{Policy, to_search_filter}
use resourcey.Auth.Policy.Scope.{any_admits, to_search_filter-matches}
use resourcey.Auth.Service.{Authorized, reductions, permission_filter, combine}
use resourcey.Service.Contract.{Satisfies}

module _ ⦃c : Casing⦄ where
  any_match-reductions :
      (ps : List Policy) (u : Option ℕ) (a : Requested) (r : Row) (fs : List Filter)
      → reductions ps u a ≡ ok fs
      → any_match (of_list fs) (row r) ≡ ok (any_admits ps u a r)
  unfolding reductions any_match
  any_match-reductions [] u a r fs h = ground arith
  any_match-reductions (p ∷ ps) u a r fs h =
      let (f, reduced, h') = >>=-eq-ok (to_search_filter p u a) _ h in
      let (gs, others, e) = >>=-eq-ok (reductions ps u a) _ h' in
      ground
        (arith, to_search_filter-matches p u a r f reduced, any_match-reductions ps u a r gs others)

  -- A permission filter that can be built evaluates without error on every row and matches exactly
  -- the rows that some policy of the caller admits for the action.
  pub permission_filter-matches :
      (w : Authorized) (a : Requested) (r : Row) (f : Filter)
      → permission_filter w a ≡ ok f
      → matches f (row r) ≡ ok (any_admits w.policies w.user_id a r)
  unfolding permission_filter
  permission_filter-matches w a r f h =
      let (fs, reduced, e) = >>=-eq-ok (reductions w.policies w.user_id a) _ h in
      let same : or_ fs ≡ f = cc in
      rw (← same)
        (or_-matches fs (row r) _ (any_match-reductions w.policies w.user_id a r fs reduced))

  all_match-pair :
      (f g : Filter) (r : Row)
      → all_match (of_list (f ∷ g ∷ [])) (row r) ≡ ok true
      → (matches f (row r) ≡ ok true) × (matches g (row r) ≡ ok true)
  unfolding all_match
  all_match-pair f g r h = ground arith

  -- What satisfies the folded condition satisfies the policy filter and the caller's condition.
  Satisfies-combine :
      (f : Filter) (condition : Option Filter) (r : Row)
      → Satisfies (some (combine f condition)) r
      → (matches f (row r) ≡ ok true) × Satisfies condition r
  Satisfies-combine f none r h = (h, tt)
  Satisfies-combine f (some g) r h = all_match-pair f g r (and_-true (f ∷ g ∷ []) (row r) h)

  -- What the folded condition accepts is admitted by a policy and accepted by the caller.
  pub admitted :
      (w : Authorized) (a : Requested) (f : Filter) (condition : Option Filter) (old : Row)
      → permission_filter w a ≡ ok f
      → Satisfies (some (combine f condition)) old
      → (any_admits w.policies w.user_id a old ≡ true) × Satisfies condition old
  admitted w a f condition old p h =
      let (hit, own) = Satisfies-combine f condition old h in
      (ground (arith, permission_filter-matches w a old f p), own)
