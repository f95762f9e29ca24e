-- ===== src/View/Exposed.antt =====
-- Which batches get past the service of a view (resourcey/view/view_service.py).
use resourcey.Prelude.{◌≡◌, refl, ap, Bool, true, false, ◌⊎◌, inl, inr, List, [], ◌∷◌, arith}
use resourcey.Failure.{ok, err, invalid_input}
use resourcey.Action.{Action, has_action}
use resourcey.Service.{Edit, Service}
use resourcey.View.{action_of, check_edits, if_checked, view_service}

module _ (exposed : List Action) where
  abbrev pub IsExposed : Edit → Type 0
  IsExposed edit = has_action (action_of edit) exposed ≡ true

  abbrev pub AllExposed : List Edit → Type 0
  AllExposed [] = Unit
  AllExposed (edit ∷ edits) = IsExposed edit × AllExposed edits

  -- What the loop over the edits says of a batch.
  abbrev Checked : List Edit → Type 0
  Checked edits =
      (AllExposed edits × (check_edits exposed edits ≡ ok tt))
      ⊎ (¬ AllExposed edits × (check_edits exposed edits ≡ err invalid_input))

  first_edit :
      (b : Bool) (edit : Edit) (edits : List Edit)
      → has_action (action_of edit) exposed ≡ b
      → Checked edits
      → Checked (edit ∷ edits)
  unfolding check_edits
  first_edit false edit edits e rest = inr (λ all. ground arith, ground arith)
  first_edit true edit edits e (inl (all, passes)) = inl ((e, all), ground arith)
  first_edit true edit edits e (inr (hidden, raises)) = inr (λ all. hidden all.1, ground arith)

  check_edits_lem : (edits : List Edit) → Checked edits
  unfolding check_edits
  check_edits_lem [] = inl (tt, refl)
  check_edits_lem (edit ∷ edits) = first_edit _ edit edits refl (check_edits_lem edits)

module _ {S : Type 0} (inner : Service S) (exposed : List Action) where
  -- Whatever the inner service, a batch reaches it through a view only if the view exposes the
  -- action of every edit, and then with the inner service's answer; any other batch is invalid
  -- input and changes nothing.
  pub view_apply_edits_lem :
      (edits : List Edit) (s : S)
      → (AllExposed exposed edits
          × ((view_service inner exposed).do_apply_edits edits s ≡ inner.do_apply_edits edits s))
        ⊎ (¬ AllExposed exposed edits
            × ((view_service inner exposed).do_apply_edits edits s ≡ (err invalid_input, s)))
  view_apply_edits_lem edits s = elim (check_edits_lem exposed edits) [
    | inl (all, e) ↦ inl (all, ap (λ c. if_checked c s (inner.do_apply_edits edits s)) e)
    | inr (hidden, e) ↦ inr (hidden, ap (λ c. if_checked c s (inner.do_apply_edits edits s)) e)
  ]
