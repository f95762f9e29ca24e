-- ===== src/Triggers/Fired.antt =====
-- What a sequence of calls of the triggered service (resourcey/triggers/triggered_service.py) fires,
-- described from the calls and their answers alone.
use resourcey.Prelude.{
  ℕ, String, ◌≡◌, refl, sym, ap, ◌∙◌, Bool, Option, none, some, List, [], ◌∷◌, ◌++◌,
}
use mathlib.Core.List.{append_assoc, append-nil}
use resourcey.Value.{Value, Row}
use resourcey.Failure.{Result, ok, err}
use resourcey.Filter.{Filter}
use resourcey.Service.{SortOrder, Page, Edit, create, update, delete, Service}
use resourcey.Triggers.{Trigger, Firing, firings, then_fire, triggered}

-- A call of a service, and what it answered.
pub data Call : Type 0 where
  write : Edit → Call
  batch : List Edit → Call
  reads : Value → Call
  searches : Option Filter → Option SortOrder → Option String → ℕ → Call
  counts : Option Filter → Call
  batch_reads : List Value → Call

pub data Answer : Type 0 where
  created : Result Row → Answer
  updated : Result (Option Row) → Answer
  deleted : Result Bool → Answer
  applied : Result (List (Option Row)) → Answer
  found : Result (Option Row) → Answer
  paged : Result Page → Answer
  counted : Result ℕ → Answer
  looked_up : Result (List (Option Row)) → Answer

abbrev answered : {A S : Type 0} → (Result A → Answer) → Result A × S → Answer × S
answered wrap (result, s) = (wrap result, s)

abbrev pub perform : {S : Type 0} → Service S → Call → S → Answer × S
perform service (write (create payload)) s = answered created (service.do_create payload s)
perform service (write (update payload condition)) s =
    answered updated (service.do_update payload condition s)
perform service (write (delete id condition)) s =
    answered deleted (service.do_delete id condition s)
perform service (batch edits) s = answered applied (service.do_apply_edits edits s)
perform service (reads id) s = (found (service.do_read id s), s)
perform service (searches filter sort cursor limit) s =
    (paged (service.do_search filter sort cursor limit s), s)
perform service (counts filter) s = (counted (service.do_count filter s), s)
perform service (batch_reads ids) s = (looked_up (service.do_batch_read ids s), s)

-- The answers of a sequence of calls, and the state that they leave.
abbrev pub perform_all : {S : Type 0} → Service S → List Call → S → List Answer × S
perform_all service [] s = ([], s)
perform_all service (call ∷ calls) s =
    let (answer, s') = perform service call s in
    let (answers, s'') = perform_all service calls s' in (answer ∷ answers, s'')

-- The edits of a write that returned, with their results, or none.
abbrev pub outcome_of : Call → Answer → Option (List Edit × List (Option Row))
outcome_of (write (create payload)) (created (ok row)) = some (create payload ∷ [], some row ∷ [])
outcome_of (write (update payload condition)) (updated (ok row)) =
    some (update payload condition ∷ [], row ∷ [])
outcome_of (write (delete id condition)) (deleted (ok gone)) =
    some (delete id condition ∷ [], none ∷ [])
outcome_of (batch edits) (applied (ok results)) = some (edits, results)
outcome_of call answer = none

module _ (triggers : List Trigger) where
  abbrev pub fired_by : Option (List Edit × List (Option Row)) → List Firing
  fired_by none = []
  fired_by (some (edits, results)) = firings triggers edits results

  abbrev pub fired_by_all : List Call → List Answer → List Firing
  fired_by_all (call ∷ calls) (answer ∷ answers) =
      fired_by (outcome_of call answer) ++ fired_by_all calls answers
  fired_by_all calls answers = []

module _ {S : Type 0} (inner : Service S) (triggers : List Trigger) where
  abbrev with_log : Answer × S → List Firing → Answer × (S × List Firing)
  with_log (answer, s) fired = (answer, (s, fired))

  abbrev Performs : Call → S → List Firing → Type 0
  Performs call s fired =
      perform (triggered inner triggers) call (s, fired)
      ≡ with_log (perform inner call s)
          (fired ++ fired_by triggers (outcome_of call (perform inner call s).0))

  -- One write, by what the inner service answered.
  then_fire-logged :
      {A : Type 0} (wrap : Result A → Answer) (call : Call) (edits : List Edit)
      (results : A → List (Option Row)) (answer : Result A × S) (fired : List Firing)
      → ((a : A) → outcome_of call (wrap (ok a)) ≡ some (edits, results a))
      → ((e : _) → outcome_of call (wrap (err e)) ≡ none)
      → answered wrap (then_fire inner triggers edits results answer fired)
        ≡ with_log
            (answered wrap answer)
            (fired ++ fired_by triggers (outcome_of call (wrap answer.0)))
  then_fire-logged wrap call edits results (ok a, s) fired returned raised =
      ap (λ o. (wrap (ok a), (s, fired ++ fired_by triggers o))) (sym (returned a))
  then_fire-logged wrap call edits results (err e, s) fired returned raised =
      ap (λ xs. (wrap (err e), (s, xs))) (sym (append-nil fired))
      ∙ ap (λ o. (wrap (err e), (s, fired ++ fired_by triggers o))) (sym (raised e))

  perform-Performs : (call : Call) (s : S) (fired : List Firing) → Performs call s fired
  perform-Performs (write (create payload)) s fired =
      then_fire-logged created (write (create payload)) (create payload ∷ []) (λ row. some row ∷ [])
        (inner.do_create payload s) fired (λ a. refl) (λ e. refl)
  perform-Performs (write (update payload condition)) s fired =
      then_fire-logged updated (write (update payload condition)) (update payload condition ∷ [])
        (λ row. row ∷ []) (inner.do_update payload condition s) fired (λ a. refl) (λ e. refl)
  perform-Performs (write (delete id condition)) s fired =
      then_fire-logged deleted (write (delete id condition)) (delete id condition ∷ [])
        (λ gone. none ∷ []) (inner.do_delete id condition s) fired (λ a. refl) (λ e. refl)
  perform-Performs (batch edits) s fired =
      then_fire-logged applied (batch edits) edits (λ results. results)
        (inner.do_apply_edits edits s) fired (λ a. refl) (λ e. refl)
  perform-Performs (reads id) s fired =
      ap (λ xs. (found (inner.do_read id s), (s, xs))) (sym (append-nil fired))
  perform-Performs (searches filter sort cursor limit) s fired =
      ap (λ xs. (paged (inner.do_search filter sort cursor limit s), (s, xs)))
        (sym (append-nil fired))
  perform-Performs (counts filter) s fired =
      ap (λ xs. (counted (inner.do_count filter s), (s, xs))) (sym (append-nil fired))
  perform-Performs (batch_reads ids) s fired =
      ap (λ xs. (looked_up (inner.do_batch_read ids s), (s, xs))) (sym (append-nil fired))

  -- Over any inner service, any sequence of reads, writes and batches of the triggered service
  -- gives the answers and leaves the storage that the same calls of the inner service do, and
  -- starts, for each write that returned and for no other call, each trigger once, in order, with
  -- the edits of the write and their results.
  pub perform_all-triggered :
      (calls : List Call) (s : S) (fired : List Firing)
      → perform_all (triggered inner triggers) calls (s, fired) ≡ (
        (perform_all inner calls s).0,
        (
          (perform_all inner calls s).1,
          fired ++ fired_by_all triggers calls (perform_all inner calls s).0,
        ),
      )
  perform_all-triggered [] s fired = ap (λ xs. ([], (s, xs))) (sym (append-nil fired))
  perform_all-triggered (call ∷ calls) s fired =
      let answer = (perform inner call s).0 in
      let s' = (perform inner call s).1 in
      let more = fired_by triggers (outcome_of call answer) in
      let rest = perform_all inner calls s' in
      ap
        (λ r. (
          r.0 ∷ (perform_all (triggered inner triggers) calls r.1).0,
          (perform_all (triggered inner triggers) calls r.1).1,
        ))
        (perform-Performs call s fired)
      ∙ ap (λ r. (answer ∷ r.0, r.1)) (perform_all-triggered calls s' (fired ++ more))
      ∙ ap (λ xs. (answer ∷ rest.0, (rest.1, xs)))
          (append_assoc fired more (fired_by_all triggers calls rest.0))
