-- ===== src/Auth/Service/Writes.antt =====
-- The writing actions of resourcey/auth/auth_authorized_service.py write only rows in scope, and
-- tell a caller no more about a row out of scope than about an absent one.
use resourcey.Prelude.{
  ℕ, ◌≡◌, refl, sym, ◌∙◌, ◌⊎◌, Bool, true, false, Option, none, some, List, [], ◌∷◌, arith,
  if◌then◌else◌,
}
use mathlib.Core.Bool.{false≢true}
use resourcey.Value.{Value, Row, attribute}
use resourcey.Failure.{Result, ok, err, not_found, forbidden, >>=-eq-ok}
use resourcey.Filter.{Filter, all, no_match, Casing, matches}
use resourcey.Filter.Build.{of_list, flatten_disj, flatten_disjs, or_children, or_}
use resourcey.Action.{Requested, member, as_action}
use resourcey.Action
use resourcey.Auth.Policy.{
  Policy, allow_all, deny_all, read_only, owner, group_member, acl, is_create, is_read_like,
  to_search_filter,
}
use resourcey.Auth.Policy.Scope.{any_admits}
use resourcey.Service.{Service}
use resourcey.Service.Contract.{Contract, Satisfies}
use resourcey.Auth.Service.{
  Authorized, reductions, permission_filter, combine, authorized_create, authorized_update,
  authorized_delete, with_filter, or_not_found, or_missing,
}
use resourcey.Auth.Service.Permission.{permission_filter-matches, admitted}

abbrev pub IsConstant : Filter → Type 0
IsConstant f = (f ≡ all) ⊎ (f ≡ no_match)

abbrev pub creating : Requested
creating = member Action.create

-- For `create` every built-in policy grants all or nothing.
to_search_filter-IsConstant :
    (p : Policy) (u : Option ℕ) (f : Filter) → to_search_filter p u creating ≡ ok f → IsConstant f
unfolding to_search_filter as_action is_create is_read_like
to_search_filter-IsConstant allow_all u f h = ground arith
to_search_filter-IsConstant deny_all u f h = ground arith
to_search_filter-IsConstant read_only u f h = ground arith
to_search_filter-IsConstant (owner field) u f h = ground arith
to_search_filter-IsConstant (group_member targets groups m n k) u f h =
    to_search_filter-IsConstant k u f h
to_search_filter-IsConstant (acl ids field k) u f h = to_search_filter-IsConstant k u f h

or_children-IsConstant :
    (ps : List Policy) (u : Option ℕ) (fs : List Filter)
    → reductions ps u creating ≡ ok fs
    → (or_children (flatten_disjs (of_list fs)) ≡ none)
      ⊎ (or_children (flatten_disjs (of_list fs)) ≡ some [])
unfolding reductions or_children flatten_disj
or_children-IsConstant [] u fs h = ground arith
or_children-IsConstant (p ∷ ps) u fs h =
    let (f, reduced, h') = >>=-eq-ok (to_search_filter p u creating) _ h in
    let (gs, others, e) = >>=-eq-ok (reductions ps u creating) _ h' in
    ground (arith, to_search_filter-IsConstant p u f reduced, or_children-IsConstant ps u gs others)

pub permission_filter-IsConstant :
    (w : Authorized) (f : Filter) → permission_filter w creating ≡ ok f → IsConstant f
unfolding permission_filter or_
permission_filter-IsConstant w f h =
    let (fs, reduced, e) = >>=-eq-ok (reductions w.policies w.user_id creating) _ h in
    ground (arith, or_children-IsConstant w.policies w.user_id fs reduced)

module _ ⦃c : Casing⦄ {S : Type 0} (inner : Service S) (w : Authorized) where
  -- A create is passed on unchanged exactly if some policy of the caller admits creating, and is
  -- otherwise forbidden with nothing written, wherever the permission filter can be built.
  pub authorized_create_lem :
      (payload : Row) (s : S) (f : Filter)
      → permission_filter w creating ≡ ok f
      → authorized_create inner w payload s ≡ (
          if any_admits w.policies w.user_id creating payload
          then inner.do_create payload s
          else (err (forbidden w.resource_name "create"), s))
  unfolding authorized_create matches
  authorized_create_lem payload s f h =
      ground (
        arith,
        permission_filter-IsConstant w f h,
        permission_filter-matches w creating payload f h,
      )

  with_filter-eq-ok :
      {A : Type 0} (pf : Result Filter) (s s' : S) (act : Filter → Result A × S) (a : A)
      → with_filter pf s act ≡ (ok a, s')
      → (f : Filter) × (pf ≡ ok f) × (act f ≡ (ok a, s'))
  with_filter-eq-ok (ok f) s s' act a h = (f, refl, h)
  with_filter-eq-ok (err e) s s' act a h = ground arith

  or_not_found-eq-ok :
      (i : Value) (x : Result (Option Row) × S) (r : Row) (s' : S)
      → or_not_found i x ≡ (ok r, s')
      → x ≡ (ok (some r), s')
  or_not_found-eq-ok i (ok (some q), s) r s' h = ground arith
  or_not_found-eq-ok i (ok none, s) r s' h = ground arith
  or_not_found-eq-ok i (err e, s) r s' h = ground arith

  or_missing-eq-ok :
      (i : Value) (x : Result Bool × S) (b : Bool) (s' : S)
      → or_missing i x ≡ (ok b, s')
      → x ≡ (ok true, s')
  or_missing-eq-ok i (ok true, s) b s' h = ground arith
  or_missing-eq-ok i (ok false, s) b s' h = ground arith
  or_missing-eq-ok i (err e, s) b s' h = ground arith

  module _ (find : Value → S → Option Row) (k : Contract inner w.id_field find) where
    -- Over an inner service that keeps the contract, an update that succeeds wrote a stored row
    -- with the payload's id that some policy of the caller admits updating and that satisfies the
    -- caller's own condition.
    pub authorized_update-in_scope :
        (payload : Row) (condition : Option Filter) (s s' : S) (r : Row)
        → authorized_update inner w payload condition s ≡ (ok r, s')
        → (old : Row) × (find (attribute w.id_field payload) s ≡ some old)
          × (any_admits w.policies w.user_id (member Action.update) old ≡ true)
          × Satisfies condition old
    unfolding authorized_update
    authorized_update-in_scope payload condition s s' r h =
        let (f, p, e) = with_filter-eq-ok _ s s' _ r h in
        let hit = or_not_found-eq-ok (attribute w.id_field payload) _ r s' e in
        let (old, stored, accepted) =
          k.update_hit payload (some (combine f condition)) s s' r hit in
        let (scope, own) = admitted w (member Action.update) f condition old p accepted in
        (old, stored, scope, own)

    -- Over an inner service that keeps the contract, a delete that succeeds removed a stored row
    -- with that id that some policy of the caller admits deleting and that satisfies the caller's
    -- own condition.
    pub authorized_delete-in_scope :
        (i : Value) (condition : Option Filter) (s s' : S) (b : Bool)
        → authorized_delete inner w i condition s ≡ (ok b, s')
        → (old : Row) × (find i s ≡ some old)
          × (any_admits w.policies w.user_id (member Action.delete) old ≡ true)
          × Satisfies condition old
    unfolding authorized_delete
    authorized_delete-in_scope i condition s s' b h =
        let (f, p, e) = with_filter-eq-ok _ s s' _ b h in
        let hit = or_missing-eq-ok i _ b s' e in
        let (old, stored, accepted) = k.delete_hit i (some (combine f condition)) s s' hit in
        let (scope, own) = admitted w (member Action.delete) f condition old p accepted in
        (old, stored, scope, own)

    -- An update of a row that no policy admits, or of an id that is not stored, has one and the
    -- same outcome wherever the inner service keeps the contract and does not raise: the error of
    -- an absent row, and a storage that is as it was.
    pub authorized_update-hidden :
        (payload : Row) (condition : Option Filter) (s s' : S) (f : Filter) (out : Option Row)
        → permission_filter w (member Action.update) ≡ ok f
        → inner.do_update payload (some (combine f condition)) s ≡ (ok out, s')
        → ((old : Row)
            → find (attribute w.id_field payload) s ≡ some old
            → any_admits w.policies w.user_id (member Action.update) old ≡ false)
        → authorized_update inner w payload condition s
          ≡ (err (not_found (attribute w.id_field payload)), s)
    unfolding authorized_update
    authorized_update-hidden payload condition s s' f none p e hidden =
        let same = k.update_miss payload (some (combine f condition)) s s' e in rw (p, e, same)
    authorized_update-hidden payload condition s s' f (some r) p e hidden =
        let (old, stored, accepted) = k.update_hit payload (some (combine f condition)) s s' r e in
        let (scope, own) = admitted w (member Action.update) f condition old p accepted in
        absurd (false≢true (sym (hidden old stored) ∙ scope))
