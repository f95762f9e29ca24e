-- ===== src/Auth/Service/Batch.antt =====
-- `apply_edits` of resourcey/auth/auth_authorized_service.py: each edit is gated on its own action,
-- the permitted ones go to the inner service in one batch, and the results are laid out again. The
-- reductions are pure, so the cache of `_action_filter` is a repeated call here.
pub mod Layout
pub mod Gated
use resourcey.Prelude.{
  ◌≡◌, refl, sym, ◌∙◌, ap, suc, Bool, true, false, Option, none, some, List, [], ◌∷◌, arith, length,
  if◌then◌else◌, ◌⊎◌, Bool-cases, inl, inr,
}
use resourcey.Value.{Value, one, null, Row, attribute}
use resourcey.Failure.{Result, ok, err, stop_iteration, ◌>>=◌, >>=-eq-ok}
use resourcey.Filter.{Casing, matches}
use resourcey.Action.{Requested, member}
use resourcey.Action
use resourcey.Auth.Policy.Scope.{any_admits}
use resourcey.Service.{Service, Edit, create, update, delete}
use resourcey.Service.Contract.{Contract, Satisfies}
use resourcey.Auth.Service.{Authorized, permission_filter, combine, is_no_match}
use resourcey.Auth.Service.Permission.{permission_filter-matches, admitted}
use resourcey.Auth.Service.Writes.{permission_filter-IsConstant}

abbrev is_absent : Value → Bool
is_absent (one null) = true
is_absent v = false

-- The edit that the inner service is given, or `none` where the caller may not make it.
unfoldable pub gate : Authorized → Edit → Result (Option Edit)
gate w (create r) = do
  f ← permission_filter w (member Action.create)
  ok (if is_no_match f then none else some (create r))
gate w (update r condition) = if is_absent (attribute w.id_field r) then ok none else do
  f ← permission_filter w (member Action.update)
  ok (some (update r (some (combine f condition))))
gate w (delete i condition) = if is_absent i then ok none else do
  f ← permission_filter w (member Action.delete)
  ok (some (delete i (some (combine f condition))))

unfoldable pub gates : Authorized → List Edit → Result (List (Option Edit))
unfolding gate
gates w [] = ok []
gates w (e ∷ es) = do g ← gate w e; gs ← gates w es; ok (g ∷ gs)

unfoldable pub permitted : List (Option Edit) → List Edit
permitted [] = []
permitted (none ∷ gs) = permitted gs
permitted (some e ∷ gs) = e ∷ permitted gs

-- `[next(edited) if allowed else None for allowed in flags]`.
unfoldable pub lay_out : List (Option Edit) → List (Option Row) → Result (List (Option Row))
lay_out [] rs = ok []
lay_out (none ∷ gs) rs = do rest ← lay_out gs rs; ok (none ∷ rest)
lay_out (some e ∷ gs) [] = err stop_iteration
lay_out (some e ∷ gs) (r ∷ rs) = do rest ← lay_out gs rs; ok (r ∷ rest)

pub blanks : List (Option Edit) → List (Option Row)
blanks [] = []
blanks (g ∷ gs) = none ∷ blanks gs

module _ {S : Type 0} (inner : Service S) where
  lay_out_results :
      List (Option Edit) → Result (List (Option Row)) × S → Result (List (Option Row)) × S
  lay_out_results gs (ok rs, s) = (lay_out gs rs, s)
  lay_out_results gs (err e, s) = (err e, s)

  send : List (Option Edit) → List Edit → S → Result (List (Option Row)) × S
  unfolding blanks lay_out_results
  send gs [] s = (ok (blanks gs), s)
  send gs (e ∷ es) s = lay_out_results gs (inner.do_apply_edits (e ∷ es) s)

  apply_gated : Result (List (Option Edit)) → S → Result (List (Option Row)) × S
  unfolding send permitted
  apply_gated (err e) s = (err e, s)
  apply_gated (ok gs) s = send gs (permitted gs) s

  unfoldable pub authorized_apply_edits :
      Authorized → List Edit → S → Result (List (Option Row)) × S
  unfolding apply_gated gates
  authorized_apply_edits w edits s = apply_gated (gates w edits) s
