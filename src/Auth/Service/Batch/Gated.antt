-- ===== src/Auth/Service/Batch/Gated.antt =====
-- What a batch hands on, and what it answers (resourcey/auth/auth_authorized_service.py,
-- `apply_edits`).
use resourcey.Prelude.{
  ◌≡◌, refl, sym, ◌∙◌, ap, true, false, Option, none, some, List, [], ◌∷◌, arith, length, ◌⊎◌,
  Bool-cases, inl, inr,
}
use resourcey.Value.{Value, Row, attribute}
use resourcey.Failure.{Result, ok, err, >>=-eq-ok}
use resourcey.Filter.{Casing, matches}
use resourcey.Action.{Requested, member}
use resourcey.Action
use resourcey.Auth.Policy.Scope.{any_admits}
use resourcey.Service.{Service, Edit, create, update, delete}
use resourcey.Service.Contract.{Contract, Satisfies}
use resourcey.Auth.Service.{Authorized, permission_filter, combine}
use resourcey.Auth.Service.Permission.{permission_filter-matches, admitted}
use resourcey.Auth.Service.Writes.{permission_filter-IsConstant}
use resourcey.Auth.Service.Batch.{
  is_absent, gate, gates, permitted, blanks, lay_out_results, send, apply_gated,
  authorized_apply_edits,
}
use resourcey.Auth.Service.Batch.Layout.{
  picked, Blank, lay_out_lem, length-gates, length-Blank, blanks-Blank,
}

-- What the edit handed on may touch: the same edit, whose target, where it is written, is in the
-- scope of the edit's own action and satisfies the caller's own condition.
abbrev Scoped : ⦃c : Casing⦄ → Authorized → Edit → Edit → Type 0
Scoped w (create r) (create q) =
    (r ≡ q) × (any_admits w.policies w.user_id (member Action.create) r ≡ true)
Scoped w (update r condition) (update q folded) =
    (r ≡ q)
    × ((old : Row)
        → Satisfies folded old
        → (any_admits w.policies w.user_id (member Action.update) old ≡ true)
          × Satisfies condition old)
Scoped w (delete i condition) (delete j folded) =
    (i ≡ j)
    × ((old : Row)
        → Satisfies folded old
        → (any_admits w.policies w.user_id (member Action.delete) old ≡ true)
          × Satisfies condition old)
Scoped w _ _ = ⊥

-- An edit that is held back: a create that no policy admits, or an edit that names no row.
abbrev Refused : ⦃c : Casing⦄ → Authorized → Edit → Type 0
Refused w (create r) = any_admits w.policies w.user_id (member Action.create) r ≡ false
Refused w (update r condition) = is_absent (attribute w.id_field r) ≡ true
Refused w (delete i condition) = is_absent i ≡ true

-- Each permitted edit beside the caller's edit at its position.
abbrev pub AllScoped : ⦃c : Casing⦄ → Authorized → List Edit → List (Option Edit) → Type 0
AllScoped w [] [] = Unit
AllScoped w (e ∷ es) (none ∷ gs) = Refused w e × AllScoped w es gs
AllScoped w (e ∷ es) (some g ∷ gs) = Scoped w e g × AllScoped w es gs
AllScoped w _ _ = ⊥

module _ ⦃c : Casing⦄ (w : Authorized) where
  gate-Scoped : (e g : Edit) → gate w e ≡ ok (some g) → Scoped w e g
  unfolding gate matches
  gate-Scoped (create r) g h =
      let (f, p, e) = >>=-eq-ok (permission_filter w (member Action.create)) _ h in
      let same : g ≡ create r = ground arith in
      rw same (
        refl,
        ground (
          arith,
          permission_filter-IsConstant w f p,
          permission_filter-matches w (member Action.create) r f p,
        ),
      )
  gate-Scoped (update r condition) g h = elim (Bool-cases (is_absent (attribute w.id_field r))) [
    | inl absent ↦ cc (rw absent at h)
    | inr present ↦
        let (f, p, e) =
          >>=-eq-ok (permission_filter w (member Action.update)) _ (rw present at h) in
        let same : g ≡ update r (some (combine f condition)) = ground arith in
        rw same (refl, λ old. admitted w (member Action.update) f condition old p)
  ]
  gate-Scoped (delete i condition) g h = elim (Bool-cases (is_absent i)) [
    | inl absent ↦ cc (rw absent at h)
    | inr present ↦
        let (f, p, e) =
          >>=-eq-ok (permission_filter w (member Action.delete)) _ (rw present at h) in
        let same : g ≡ delete i (some (combine f condition)) = ground arith in
        rw same (refl, λ old. admitted w (member Action.delete) f condition old p)
  ]

  gate-Refused : (e : Edit) → gate w e ≡ ok none → Refused w e
  unfolding gate matches
  gate-Refused (create r) h =
      let (f, p, e) = >>=-eq-ok (permission_filter w (member Action.create)) _ h in
      ground (
        arith,
        permission_filter-IsConstant w f p,
        permission_filter-matches w (member Action.create) r f p,
      )
  gate-Refused (update r condition) h = elim (Bool-cases (is_absent (attribute w.id_field r))) [
    | inl absent ↦ absent
    | inr present ↦
        let (f, p, e) =
          >>=-eq-ok (permission_filter w (member Action.update)) _ (rw present at h) in
        ground arith
  ]
  gate-Refused (delete i condition) h = elim (Bool-cases (is_absent i)) [
    | inl absent ↦ absent
    | inr present ↦
        let (f, p, e) =
          >>=-eq-ok (permission_filter w (member Action.delete)) _ (rw present at h) in
        ground arith
  ]

  gates-AllScoped :
      (es : List Edit) (gs : List (Option Edit)) → gates w es ≡ ok gs → AllScoped w es gs
  unfolding gates
  gates-AllScoped [] gs h = let same : gs ≡ [] = ground arith in rw same tt
  gates-AllScoped (e ∷ es) gs h =
      let (g, gated, h') = >>=-eq-ok (gate w e) _ h in
      let (rest, later, last) = >>=-eq-ok (gates w es) _ h' in
      let same : gs ≡ g ∷ rest = ground arith in
      rw same (first g rest gated (gates-AllScoped es rest later))
    where
      first :
          (g : Option Edit) (rest : List (Option Edit))
          → gate w e ≡ ok g
          → AllScoped w es rest
          → AllScoped w (e ∷ es) (g ∷ rest)
      first none rest k later = (gate-Refused e k, later)
      first (some g) rest k later = (gate-Scoped e g k, later)

  module _ {S : Type 0} (inner : Service S) (find : Value → S → Option Row)
      (k : Contract inner w.id_field find) where
    lay_out_results-eq-ok :
        (gs : List (Option Edit)) (x : Result (List (Option Row)) × S) (s' : S)
        (out : List (Option Row))
        → ((rs : List (Option Row)) (t : S) → x ≡ (ok rs, t) → length rs ≡ length (permitted gs))
        → lay_out_results inner gs x ≡ (ok out, s')
        → Blank gs out × (x ≡ (ok (picked gs out), s'))
    unfolding lay_out_results
    lay_out_results-eq-ok gs (err e, t) s' out n h = ground arith
    lay_out_results-eq-ok gs (ok rs, t) s' out n h =
        let (laid, e, p, b) = lay_out_lem gs rs (n rs t refl) in
        let same : out ≡ laid = ground (arith, e) in rw same (b, ground (arith, p, e))

    send-eq-ok :
        (gs : List (Option Edit)) (ps : List Edit) (s s' : S) (out : List (Option Row))
        → permitted gs ≡ ps
        → send inner gs ps s ≡ (ok out, s')
        → Blank gs out
          × ((permitted gs ≡ []) × (s' ≡ s)
              ⊎ (inner.do_apply_edits (permitted gs) s ≡ (ok (picked gs out), s')))
    unfolding send
    send-eq-ok gs [] s s' out e h =
        let same : out ≡ blanks gs = ground arith in
        (rw same (blanks-Blank gs e).1, inl (e, ground arith))
    send-eq-ok gs (p ∷ ps) s s' out e h =
        let (b, done) =
          lay_out_results-eq-ok gs (inner.do_apply_edits (p ∷ ps) s) s' out
            (λ rs t x. k.aligned (p ∷ ps) s t rs x ∙ ap (λ (l : List Edit). length l) (sym e)) h in
        (b, inr (rw e done))

    -- A batch of edits that succeeds over an inner service that keeps the contract was gated edit
    -- by edit: a create is handed on if a policy admits it, an update or a delete if it names a
    -- row, scoped by the policies for its own action and by the caller's own condition; the others
    -- are held back. The results align with the edits, `None` stands at every position held back,
    -- and nothing is written where nothing was handed on.
    pub authorized_apply_edits_lem :
        (es : List Edit) (s s' : S) (out : List (Option Row))
        → authorized_apply_edits inner w es s ≡ (ok out, s')
        → (gs : List (Option Edit)) × (gates w es ≡ ok gs)
          × AllScoped w es gs
          × (length out ≡ length es)
          × Blank gs out
          × ((permitted gs ≡ []) × (s' ≡ s)
              ⊎ (inner.do_apply_edits (permitted gs) s ≡ (ok (picked gs out), s')))
    unfolding authorized_apply_edits apply_gated
    authorized_apply_edits_lem es s s' out h = go (gates w es) refl h
      where
        go :
            (gr : Result (List (Option Edit)))
            → gates w es ≡ gr
            → apply_gated inner gr s ≡ (ok out, s')
            → (gs : List (Option Edit)) × (gates w es ≡ ok gs)
              × AllScoped w es gs
              × (length out ≡ length es)
              × Blank gs out
              × ((permitted gs ≡ []) × (s' ≡ s)
                  ⊎ (inner.do_apply_edits (permitted gs) s ≡ (ok (picked gs out), s')))
        go (err e) g h = ground arith
        go (ok gs) g h =
            let (b, done) = send-eq-ok gs (permitted gs) s s' out refl h in
            (
              gs,
              g,
              gates-AllScoped es gs g,
              sym (length-Blank gs out b) ∙ length-gates w es gs g,
              b,
              done,
            )
