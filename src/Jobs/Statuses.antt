-- ===== src/Jobs/Statuses.antt =====
-- The statuses of jobs as conditions read them (resourcey/jobs/jobs_model.py).
use resourcey.Prelude.{
  str_eq, ◌≡◌, refl, sym, ap, ◌∙◌, ◌&&◌, ◌++◌, List, Bool, true, false, not, Option, none, some, [],
  ◌∷◌, arith,
}
use resourcey.Value.{attribute, value_eq, scalar_eq}
use mathlib.Core.Option
use resourcey.Failure.{Result, ok, >>=-eq-ok, ok-injective, ◌>>=◌}
use resourcey.Filter.{
  Filter, Filters, conj, cons, Casing, row, Subject, matches, all_match, any_match, inverted,
  or_else,
}
use resourcey.Filter.Build.{and_, attr, of_list, conj_of, and_children, flatten_conj}
use resourcey.Sql.{Database, both_of}
use resourcey.Sql.Convert.{Printing, condition, conditions, conjunction}
use resourcey.Sql.Convert.Total.{is_bound}
use resourcey.Sql.Convert.Sound.{Fits, condition-matches}
use resourcey.Filter.Laws.{and_-true}
use resourcey.Jobs.{
  JobStatus, pending, scheduled, running, completed, error, cancelled, status_text, Job, job_row,
  status_is, terminal_guard, folded, job_columns, selected,
}

-- `TERMINAL_STATUSES`.
abbrev pub is_terminal : JobStatus → Bool
is_terminal completed = true
is_terminal error = true
is_terminal cancelled = true
is_terminal _ = false

abbrev pub same_status : JobStatus → JobStatus → Bool
same_status pending pending = true
same_status scheduled scheduled = true
same_status running running = true
same_status completed completed = true
same_status error error = true
same_status cancelled cancelled = true
same_status _ _ = false

pub same_status-eq : (s t : JobStatus) → same_status s t ≡ true → s ≡ t
same_status-eq pending t h = ground arith
same_status-eq scheduled t h = ground arith
same_status-eq running t h = ground arith
same_status-eq completed t h = ground arith
same_status-eq error t h = ground arith
same_status-eq cancelled t h = ground arith

same_text : (s t : JobStatus) → str_eq (status_text s) (status_text t) ≡ same_status s t
same_text pending t =
    elim t as (λ t. str_eq (status_text pending) (status_text t) ≡ same_status pending t) [
      | pending ↦ refl
      | scheduled ↦ refl
      | running ↦ refl
      | completed ↦ refl
      | error ↦ refl
      | cancelled ↦ refl
    ]
same_text scheduled t =
    elim t as (λ t. str_eq (status_text scheduled) (status_text t) ≡ same_status scheduled t) [
      | pending ↦ refl
      | scheduled ↦ refl
      | running ↦ refl
      | completed ↦ refl
      | error ↦ refl
      | cancelled ↦ refl
    ]
same_text running t =
    elim t as (λ t. str_eq (status_text running) (status_text t) ≡ same_status running t) [
      | pending ↦ refl
      | scheduled ↦ refl
      | running ↦ refl
      | completed ↦ refl
      | error ↦ refl
      | cancelled ↦ refl
    ]
same_text completed t =
    elim t as (λ t. str_eq (status_text completed) (status_text t) ≡ same_status completed t) [
      | pending ↦ refl
      | scheduled ↦ refl
      | running ↦ refl
      | completed ↦ refl
      | error ↦ refl
      | cancelled ↦ refl
    ]
same_text error t =
    elim t as (λ t. str_eq (status_text error) (status_text t) ≡ same_status error t) [
      | pending ↦ refl
      | scheduled ↦ refl
      | running ↦ refl
      | completed ↦ refl
      | error ↦ refl
      | cancelled ↦ refl
    ]
same_text cancelled t =
    elim t as (λ t. str_eq (status_text cancelled) (status_text t) ≡ same_status cancelled t) [
      | pending ↦ refl
      | scheduled ↦ refl
      | running ↦ refl
      | completed ↦ refl
      | error ↦ refl
      | cancelled ↦ refl
    ]

both_held : (a b : Bool) → a && b ≡ true → a ≡ true
both_held true b e = refl
both_held false b e = cc

module _ ⦃c : Casing⦄ where
  pub status_is-matches :
      (s : JobStatus) (j : Job)
      → matches (status_is s) (row (job_row j)) ≡ ok (same_status j.status s)
  unfolding matches attr value_eq scalar_eq attribute
  status_is-matches s j = ap (λ b. ok b) (same_text j.status s)

  pub terminal_guard-matches :
      (j : Job) → matches terminal_guard (row (job_row j)) ≡ ok (not (is_terminal j.status))
  unfolding terminal_guard matches all_match any_match value_eq scalar_eq attribute
  terminal_guard-matches j =
      elim j.status
        as (λ st.
          inverted (
            or_else (ok (str_eq (status_text st) "COMPLETED")) (
              or_else (ok (str_eq (status_text st) "ERROR"))
                (or_else (ok (str_eq (status_text st) "CANCELLED")) (ok false))))
          ≡ ok (not (is_terminal st))) [
            | pending ↦ refl
            | scheduled ↦ refl
            | running ↦ refl
            | completed ↦ refl
            | error ↦ refl
            | cancelled ↦ refl
          ]

  both_match :
      (f g : Filter) (s : Subject)
      → all_match (of_list (f ∷ g ∷ [])) s ≡ ok true
      → (matches f s ≡ ok true) × (matches g s ≡ ok true)
  unfolding all_match
  both_match f g s h = ground arith

  pub both_accept :
      (f g : Filter) (s : Subject)
      → matches (and_ (f ∷ g ∷ [])) s ≡ ok true
      → (matches f s ≡ ok true) × (matches g s ≡ ok true)
  both_accept f g s h = both_match f g s (and_-true (f ∷ g ∷ []) s h)

module _ ⦃c : Casing⦄ ⦃p : Printing⦄ ⦃db : Database⦄ where
  -- What the database makes of a condition on a row.
  abbrev pub accepts : Filter → Job → Result Bool
  accepts f j = condition job_columns none false f >>= λ k. ok (selected k j)

  pub accepts-matches :
      (f : Filter) (j : Job) (b : Bool)
      → is_bound job_columns false f ≡ true
      → Fits none (job_row j) f
      → matches f (row (job_row j)) ≡ ok b
      → accepts f j ≡ ok b
  accepts-matches f j b named fits m =
      let (k, k', e, e', held, failed) =
        condition-matches db (job_row j) job_columns f b named fits m in
      rw e (ap ok held)

  -- The first of a conjunction that is accepted is accepted.
  first-accepts :
      (f : Filter) (fs : Filters) (j : Job)
      → accepts (conj (cons f fs)) j ≡ ok true
      → accepts f j ≡ ok true
  unfolding condition
  first-accepts f fs j h =
      let (k, e, w) = >>=-eq-ok (condition job_columns none false (conj (cons f fs))) _ h in
      let (cs, e', w') = >>=-eq-ok (conditions job_columns none false (cons f fs)) _ e in
      let (k₁, e₁, w₁) = >>=-eq-ok (condition job_columns none false f) _ e' in
      let (ks, e₂, w₂) = >>=-eq-ok (conditions job_columns none false fs) _ w₁ in
      let whole : selected k₁ j && db.selects (both_of ks) (job_row j) ≡ true =
        sym (db.selects-both k₁ ks (job_row j))
        ∙ ap (λ q. selected (conjunction q) j) (ok-injective w₂)
        ∙ ap (λ q. selected q j) (ok-injective w')
        ∙ ok-injective w in
      rw e₁ (ap ok (both_held _ _ whole))

  abbrev of_guard : Option (List Filter) → Filter
  of_guard rest = conj_of (Option.map (λ fs. terminal_guard ∷ fs) rest)

  guard-first :
      (rest : Option (List Filter)) (j : Job)
      → accepts (of_guard rest) j ≡ ok true
      → accepts terminal_guard j ≡ ok true
  unfolding condition
  guard-first none j h = cc (ok-injective h, db.selects-never (job_row j))
  guard-first (some []) j h = h
  guard-first (some (f ∷ fs)) j h = first-accepts terminal_guard (of_list (f ∷ fs)) j h

  pub terminal_guard-accepts :
      (j : Job) → accepts terminal_guard j ≡ ok (not (is_terminal j.status))
  unfolding is_bound terminal_guard attribute
  terminal_guard-accepts j =
      accepts-matches terminal_guard j (not (is_terminal j.status)) refl (tt, (tt, (tt, tt)))
        (terminal_guard-matches j)

  nonterminal : (j : Job) → accepts terminal_guard j ≡ ok true → is_terminal j.status ≡ false
  nonterminal j h = grind (arith, terminal_guard-accepts j)

  -- The condition folded with the guard accepts only a row that is not terminal.
  pub guarded :
      (condition : Option Filter) (j : Job)
      → accepts (folded condition) j ≡ ok true
      → is_terminal j.status ≡ false
  unfolding and_ and_children flatten_conj terminal_guard
  guarded none j h = nonterminal j h
  guarded (some f) j h = nonterminal j (guard-first (and_children (flatten_conj f ++ [])) j h)
