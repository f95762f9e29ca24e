-- ===== src/Auth/Service.antt =====
-- resourcey/auth/auth_authorized_service.py: the wrapper that folds the caller's policies into
-- every action of an inner service.
pub mod Permission
pub mod Reads
pub mod Writes
pub mod Batch
use resourcey.Prelude.{
  ℕ, String, Bool, true, false, not, ◌||◌, Option, none, some, List, [], ◌∷◌, map, str_eq,
  if◌then◌else◌,
}
use resourcey.Value.{Value, one, null, Row, attribute}
use resourcey.Failure.{
  Failure, Result, ok, err, not_found, forbidden, config_error, key_error, ◌>>=◌,
}
use resourcey.Filter.{Filter, no_match, Casing, row, matches}
use resourcey.Filter.Build.{and_, or_}
use resourcey.Action.{Action, Requested, member, named}
use resourcey.Action
use resourcey.Auth.Policy.{Policy, to_search_filter}
use resourcey.Service.{Service, SortOrder, Page, Edit, create, update, delete}

-- The attributes of the wrapper that its actions read.
pub record Authorized : Type 0 where
  pub policies : List Policy
  pub user_id : Option ℕ
  pub id_field : String
  pub resource_name : String
  pub custom_actions : List String
  pub response_private : Bool

unfoldable pub reductions : List Policy → Option ℕ → Requested → Result (List Filter)
reductions [] u a = ok []
reductions (p ∷ ps) u a = do f ← to_search_filter p u a; fs ← reductions ps u a; ok (f ∷ fs)

-- `_permission_filter`.
unfoldable pub permission_filter : Authorized → Requested → Result Filter
unfolding reductions
permission_filter w a = do fs ← reductions w.policies w.user_id a; ok (or_ fs)

abbrev pub is_no_match : Filter → Bool
is_no_match no_match = true
is_no_match f = false

-- `_combine`.
abbrev pub combine : Filter → Option Filter → Filter
combine f none = f
combine f (some g) = and_ (f ∷ g ∷ [])

abbrev pub is_declared : String → List String → Bool
is_declared a [] = false
is_declared a (b ∷ bs) = str_eq b a || is_declared a bs

-- A result of the inner service that a miss turns into an exception.
abbrev pub or_not_found {ℓ} : {S : Type ℓ} → Value → Result (Option Row) × S → Result Row × S
or_not_found i (ok (some r), s) = (ok r, s)
or_not_found i (ok none, s) = (err (not_found i), s)
or_not_found i (err e, s) = (err e, s)

abbrev pub or_missing {ℓ} : {S : Type ℓ} → Value → Result Bool × S → Result Bool × S
or_missing i (ok true, s) = (ok true, s)
or_missing i (ok false, s) = (err (not_found i), s)
or_missing i (err e, s) = (err e, s)

abbrev pub with_filter {ℓ} :
    {S A : Type ℓ} → Result Filter → S → (Filter → Result A × S) → Result A × S
with_filter (ok f) s act = act f
with_filter (err e) s act = (err e, s)

module _ ⦃c : Casing⦄ {S : Type 0} (inner : Service S) (w : Authorized) where
  -- The row if the filter matches it, else the exception of an absent row.
  in_scope : Value → Filter → Option Row → Result Row
  in_scope i f none = err (not_found i)
  in_scope i f (some r) = do hit ← matches f (row r); if hit then ok r else err (not_found i)

  unfoldable pub authorized_create : Row → S → Result Row × S
  authorized_create payload s = with_filter (permission_filter w (member Action.create)) s λ f.
      if is_no_match f
      then (err (forbidden w.resource_name "create"), s)
      else inner.do_create payload s

  unfoldable pub authorized_read : Value → S → Result Row
  unfolding in_scope
  authorized_read i s = do
    result ← inner.do_read i s
    f ← permission_filter w (member Action.read)
    in_scope i f result

  unfoldable pub authorized_update : Row → Option Filter → S → Result Row × S
  authorized_update payload condition s =
      with_filter (permission_filter w (member Action.update)) s λ f.
        or_not_found (attribute w.id_field payload)
          (inner.do_update payload (some (combine f condition)) s)

  unfoldable pub authorized_delete : Value → Option Filter → S → Result Bool × S
  authorized_delete i condition s =
      with_filter (permission_filter w (member Action.delete)) s
        λ f. or_missing i (inner.do_delete i (some (combine f condition)) s)

  pub authorized_search : Option Filter → Option SortOrder → Option String → ℕ → S → Result Page
  authorized_search filter order cursor limit s = do
    perm ← permission_filter w (member Action.search)
    inner.do_search (some (combine perm filter)) order cursor limit s

  pub authorized_count : Option Filter → S → Result ℕ
  authorized_count filter s = do
    perm ← permission_filter w (member Action.count)
    inner.do_count (some (combine perm filter)) s

  visible : Filter → List (Option Row) → Result (List (Option Row))
  visible f [] = ok []
  visible f (none ∷ rs) = do rest ← visible f rs; ok (none ∷ rest)
  visible f (some r ∷ rs) = do
    hit ← matches f (row r)
    rest ← visible f rs
    ok ((if hit then some r else none) ∷ rest)

  unfoldable pub authorized_batch_read : List Value → S → Result (List (Option Row))
  unfolding visible
  authorized_batch_read ids s = do
    results ← inner.do_batch_read ids s
    f ← permission_filter w (member Action.batch_read)
    visible f results

  -- `authorize`: the check of a custom action on one row.
  pub authorize : String → Value → S → Result Row
  unfolding in_scope
  authorize action i s =
      if is_declared action w.custom_actions
      then (do
        result ← inner.do_read i s
        f ← permission_filter w (named action)
        in_scope i f result)
      else err config_error
