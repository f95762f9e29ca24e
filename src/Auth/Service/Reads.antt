-- ===== src/Auth/Service/Reads.antt =====
-- The reading actions of resourcey/auth/auth_authorized_service.py show only rows in scope.
use resourcey.Prelude.{
  String, ◌≡◌, refl, Bool, Option, none, some, List, [], ◌∷◌, arith, map, if◌then◌else◌, ℕ, ◌&&◌,
  true,
}
use resourcey.Value.{Value, Row}
use resourcey.Failure.{Result, ok, err, not_found, config_error}
use resourcey.Filter.{Filter, Casing, all_match, matches, row}
use resourcey.Filter.Laws.{and_-matches}
use resourcey.Service.{SortOrder, Service}
use resourcey.Auth.Service.{
  combine, authorized_search, authorized_count, Authorized, permission_filter, in_scope,
  authorized_read, visible, authorized_batch_read, is_declared, authorize,
}
use resourcey.Action.{Requested, member, named}
use resourcey.Action
use resourcey.Auth.Policy.Scope.{any_admits}
use resourcey.Auth.Service.Permission.{permission_filter-matches}

abbrev pub allowed : Authorized → Requested → Row → Bool
allowed w a r = any_admits w.policies w.user_id a r

-- What a caller may see of a row that may be absent.
abbrev pub shown : Authorized → Requested → Option Row → Option Row
shown w a none = none
shown w a (some r) = if allowed w a r then some r else none

abbrev pub found : Value → Option Row → Result Row
found i none = err (not_found i)
found i (some r) = ok r

-- What the caller's own filter says of a row; no filter accepts every row.
abbrev pub verdict : ⦃c : Casing⦄ → Option Filter → Row → Result Bool
verdict none r = ok true
verdict (some g) r = matches g (row r)

module _ ⦃c : Casing⦄ {S : Type 0} (inner : Service S) (w : Authorized) where
  in_scope_lem :
      (a : Requested) (i : Value) (f : Filter) (o : Option Row)
      → permission_filter w a ≡ ok f
      → in_scope inner w i f o ≡ found i (shown w a o)
  unfolding in_scope
  in_scope_lem a i f none h = refl
  in_scope_lem a i f (some r) h = ground (arith, permission_filter-matches w a r f h)

  -- Where the inner read succeeds and the permission filter can be built, a read returns the row
  -- exactly if it is there and some policy admits reading it, and else the error of an absent row.
  pub authorized_read_lem :
      (i : Value) (s : S) (o : Option Row) (f : Filter)
      → inner.do_read i s ≡ ok o
      → permission_filter w (member Action.read) ≡ ok f
      → authorized_read inner w i s ≡ found i (shown w (member Action.read) o)
  unfolding authorized_read
  authorized_read_lem i s o f h p = rw (h, p) (in_scope_lem (member Action.read) i f o p)

  -- Where the inner read succeeds and the permission filter can be built, a custom action is
  -- refused as a configuration error unless the resource declares it, and is granted on exactly
  -- the rows that some policy admits for that very action.
  pub authorize_lem :
      (action : String) (i : Value) (s : S) (o : Option Row) (f : Filter)
      → inner.do_read i s ≡ ok o
      → permission_filter w (named action) ≡ ok f
      → authorize inner w action i s ≡ (
          if is_declared action w.custom_actions
          then found i (shown w (named action) o)
          else err config_error)
  unfolding authorize
  authorize_lem action i s o f h p = rw (h, p, in_scope_lem (named action) i f o p)

  visible_lem :
      (a : Requested) (f : Filter) (rs : List (Option Row))
      → permission_filter w a ≡ ok f
      → visible inner w f rs ≡ ok (map (shown w a) rs)
  unfolding visible
  visible_lem a f [] h = refl
  visible_lem a f (none ∷ rs) h = ground (arith, visible_lem a f rs h)
  visible_lem a f (some r ∷ rs) h =
      ground (arith, visible_lem a f rs h, permission_filter-matches w a r f h)

  -- Where the inner batch read succeeds and the permission filter can be built, a batch read hides
  -- each row out of scope at its own position and changes nothing else.
  pub authorized_batch_read_lem :
      (ids : List Value) (s : S) (rs : List (Option Row)) (f : Filter)
      → inner.do_batch_read ids s ≡ ok rs
      → permission_filter w (member Action.batch_read) ≡ ok f
      → authorized_batch_read inner w ids s ≡ ok (map (shown w (member Action.batch_read)) rs)
  unfolding authorized_batch_read
  authorized_batch_read_lem ids s rs f h p =
      rw (h, p) (visible_lem (member Action.batch_read) f rs p)

  both_values :
      (f g : Filter) (r : Row) (a b : Bool)
      → matches f (row r) ≡ ok a
      → matches g (row r) ≡ ok b
      → matches (combine f (some g)) (row r) ≡ ok (a && b)
  unfolding all_match
  both_values f g r a b e h = and_-matches (f ∷ g ∷ []) (row r) (a && b) (ground arith)

  combine-matches :
      (f : Filter) (filter : Option Filter) (r : Row) (a b : Bool)
      → matches f (row r) ≡ ok a
      → verdict filter r ≡ ok b
      → matches (combine f filter) (row r) ≡ ok (a && b)
  combine-matches f none r a b e h = ground arith
  combine-matches f (some g) r a b e h = both_values f g r a b e h

  -- Where the permission filters for searching and counting can be built, a search and a count
  -- hand the inner service a filter that, on a row of which the caller's own filter says something
  -- without error, holds exactly if some policy admits that action on the row and the caller's
  -- filter holds.
  pub authorized_search_lem :
      (filter : Option Filter) (order : Option SortOrder) (cursor : Option String) (limit : ℕ)
      (s : S) (f g : Filter) (r : Row) (b : Bool)
      → permission_filter w (member Action.search) ≡ ok f
      → permission_filter w (member Action.count) ≡ ok g
      → verdict filter r ≡ ok b
      → (authorized_search inner w filter order cursor limit s
          ≡ inner.do_search (some (combine f filter)) order cursor limit s)
        × (matches (combine f filter) (row r) ≡ ok (allowed w (member Action.search) r && b))
        × (authorized_count inner w filter s ≡ inner.do_count (some (combine g filter)) s)
        × (matches (combine g filter) (row r) ≡ ok (allowed w (member Action.count) r && b))
  unfolding authorized_search authorized_count
  authorized_search_lem filter order cursor limit s f g r b p q h = (
    rw p refl,
    combine-matches f filter r _ b (permission_filter-matches w (member Action.search) r f p) h,
    rw q refl,
    combine-matches g filter r _ b (permission_filter-matches w (member Action.count) r g q) h,
  )
