-- ===== src/Examples/Access.antt =====
-- The access theorems for the owner of a stored document and for a stranger.
use resourcey.Prelude.{
  ℕ, true, false, Option, none, some, List, [], ◌∷◌, ◌≡◌, ◌⊎◌, refl, subst, length, if◌then◌else◌,
  ◌&&◌,
}
use resourcey.Value.{Value, Row, null, one, uid, attribute, value_eq, scalar_eq, text}
use resourcey.Failure.{ok, err, forbidden}
use resourcey.Filter.{Filter, row, matches, at, eq}
use resourcey.Filter.Build.{or_, flatten_disj, or_children}
use resourcey.Auth.Service.{
  combine, authorized_search, authorized_count, Authorized, permission_filter, reductions,
  authorized_create, authorized_read, authorized_update, authorized_delete,
}
use resourcey.Auth.Service.Reads.{authorized_search_lem, allowed, authorized_read_lem, shown, found}
use resourcey.Action.{Requested, member, named, as_action, action_value}
use resourcey.Action
use resourcey.Auth.Policy.{
  Policy, owner, group_member, allow_all, deny_all, to_search_filter, is_create,
}
use resourcey.Auth.Policy.Scope.{admits, any_admits}
use resourcey.Service.{Edit, update, delete}
use resourcey.Service.Contract.{Satisfies}
use resourcey.Auth.Service.Permission.{permission_filter-matches}
use resourcey.Auth.Service.Writes.{
  creating, authorized_create_lem, authorized_update-in_scope, authorized_delete-in_scope,
}
use resourcey.Auth.Service.Batch.{gate, gates, permitted, lay_out, authorized_apply_edits}
use resourcey.Auth.Service.Batch.Layout.{picked, Blank}
use resourcey.Auth.Service.Batch.Gated.{AllScoped, authorized_apply_edits_lem}
use resourcey.Examples.Rows.{plain, document, renamed}
use resourcey.Examples.Cell.{cell_service, cell-Contract, find_cell, apply, edit_cell}

abbrev caller : ℕ → Authorized
caller u = record {
  policies = owner "owner_id" ∷ [];
  user_id = some u;
  id_field = "id";
  resource_name = "documents";
  custom_actions = "publish" ∷ [];
  response_private = true;
}

abbrev the_owner : Authorized
the_owner = caller 42

abbrev stranger : Authorized
stranger = caller 1

abbrev by_title : Filter
by_title = at "title" (eq (one (text "plan")))

abbrev document_id : Value
document_id = one (uid 7)

abbrev team : Policy
team = group_member (5 ∷ 6 ∷ []) (6 ∷ []) (owner "owner_id") deny_all allow_all

abbrev owner_filter : ℕ → Filter
owner_filter u = at "owner_id" (eq (one (uid u)))

permission_filter-matches_example :
    matches ⦃c = plain⦄ (owner_filter 42) (row document)
    ≡ ok (any_admits (the_owner.policies) (some 42) (member Action.read) document)
unfolding permission_filter reductions to_search_filter as_action is_create or_ flatten_disj
    or_children
permission_filter-matches_example =
    permission_filter-matches ⦃c = plain⦄ the_owner (member Action.read) document (owner_filter 42)
      refl

authorized_read_lem_example :
    authorized_read ⦃c = plain⦄ cell_service stranger document_id (some document)
    ≡ found document_id (shown stranger (member Action.read) (some document))
unfolding permission_filter reductions to_search_filter as_action is_create or_ flatten_disj
    or_children cell_service find_cell value_eq scalar_eq attribute
authorized_read_lem_example =
    authorized_read_lem ⦃c = plain⦄ cell_service stranger document_id (some document)
      (some document) (owner_filter 1) refl refl

authorized_create_lem_example :
    authorized_create ⦃c = plain⦄ cell_service the_owner document none ≡ (
      if any_admits (the_owner.policies) (some 42) creating document
      then cell_service.do_create document none
      else (err (forbidden "documents" "create"), none))
unfolding permission_filter reductions to_search_filter as_action is_create or_ flatten_disj
    or_children
authorized_create_lem_example =
    authorized_create_lem ⦃c = plain⦄ cell_service the_owner document none Filter.all refl

authorized_update-in_scope_example :
    (old : Row) × (find_cell (attribute "id" renamed) (some document) ≡ some old)
    × (any_admits (the_owner.policies) (some 42) (member Action.update) old ≡ true)
    × Satisfies ⦃c = plain⦄ none old
unfolding authorized_update permission_filter reductions to_search_filter as_action is_create or_
    flatten_disj or_children matches cell_service find_cell value_eq scalar_eq attribute
authorized_update-in_scope_example =
    authorized_update-in_scope ⦃c = plain⦄ cell_service the_owner find_cell cell-Contract renamed
      none (some document) (some renamed) renamed refl

authorized_delete-in_scope_example :
    (old : Row) × (find_cell document_id (some document) ≡ some old)
    × (any_admits (the_owner.policies) (some 42) (member Action.delete) old ≡ true)
    × Satisfies ⦃c = plain⦄ none old
unfolding authorized_delete permission_filter reductions to_search_filter as_action is_create or_
    flatten_disj or_children matches cell_service find_cell value_eq scalar_eq attribute
authorized_delete-in_scope_example =
    authorized_delete-in_scope ⦃c = plain⦄ cell_service the_owner find_cell cell-Contract
      document_id none (some document) none true refl

abbrev UnlessNone : Option Row → Type 0
UnlessNone none = Unit
UnlessNone (some old) = any_admits (stranger.policies) (some 1) (member Action.update) old ≡ false

-- The stored document is not admitted for a stranger.
not_admitted :
    (old : Row)
    → find_cell (attribute "id" renamed) (some document) ≡ some old
    → any_admits (stranger.policies) (some 1) (member Action.update) old ≡ false
unfolding admits find_cell value_eq scalar_eq attribute as_action is_create
not_admitted old h = subst (λ o. UnlessNone o) h refl

-- The second edit names no row.
abbrev edits : List Edit
edits = update renamed none ∷ delete (one null) none ∷ []

authorized_apply_edits_lem_example :
    (gs : List (Option Edit)) × (gates the_owner edits ≡ ok gs)
    × AllScoped ⦃c = plain⦄ the_owner edits gs
    × (length (some renamed ∷ none ∷ []) ≡ length edits)
    × Blank gs (some renamed ∷ none ∷ [])
    × ((permitted gs ≡ []) × (some renamed ≡ some document)
        ⊎ (apply (permitted gs) (some document)
            ≡ (ok (picked gs (some renamed ∷ none ∷ [])), some renamed)))
unfolding cell_service authorized_apply_edits gates gate permitted lay_out permission_filter
    reductions to_search_filter as_action is_create or_ flatten_disj or_children matches apply
    edit_cell find_cell value_eq scalar_eq attribute
authorized_apply_edits_lem_example =
    authorized_apply_edits_lem ⦃c = plain⦄ the_owner cell_service find_cell cell-Contract edits
      (some document) (some renamed) (some renamed ∷ none ∷ []) refl

authorized_search_lem_example :
    (authorized_search ⦃c = plain⦄ cell_service the_owner
        (some by_title)
        none
        none
        20
        (some document)
      ≡ cell_service.do_search
          (some (combine (owner_filter 42) (some by_title)))
          none
          none
          20
          (some document))
    × (matches ⦃c = plain⦄ (combine (owner_filter 42) (some by_title)) (row document)
        ≡ ok (allowed the_owner (member Action.search) document && true))
    × (authorized_count ⦃c = plain⦄ cell_service the_owner (some by_title) (some document)
        ≡ cell_service.do_count (some (combine (owner_filter 42) (some by_title))) (some document))
    × (matches ⦃c = plain⦄ (combine (owner_filter 42) (some by_title)) (row document)
        ≡ ok (allowed the_owner (member Action.count) document && true))
unfolding permission_filter reductions to_search_filter as_action is_create or_ flatten_disj
    or_children matches value_eq scalar_eq attribute
authorized_search_lem_example =
    authorized_search_lem ⦃c = plain⦄ cell_service the_owner (some by_title) none none 20
      (some document) (owner_filter 42) (owner_filter 42) document true refl refl refl
