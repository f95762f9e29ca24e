-- ===== src/Service/Contract.antt =====
-- What resourcey/core/service.py promises of every implementation of `Service`, as the wrappers
-- rely on it.
use resourcey.Prelude.{String, ◌≡◌, true, false, Option, none, some, List, length}
use resourcey.Value.{Value, Row, attribute}
use resourcey.Failure.{ok}
use resourcey.Filter.{Filter, Casing, row, matches}
use resourcey.Service.{Service, Edit}

module _ ⦃c : Casing⦄ where
  -- The stored row satisfies the condition of a write.
  abbrev pub Satisfies : Option Filter → Row → Type 0
  Satisfies none r = Unit
  Satisfies (some f) r = matches f (row r) ≡ ok true

  -- A write applies only to a stored row that satisfies its condition, and the result `None` or
  -- `False` means that nothing was written; the results of a batch align with its edits.
  pub record Contract {S : Type 0} (svc : Service S) (id_field : String)
      (find : Value → S → Option Row) : Type 0 where
    pub update_hit :
        (p : Row) (f : Option Filter) (s s' : S) (r : Row)
        → svc.do_update p f s ≡ (ok (some r), s')
        → (old : Row) × (find (attribute id_field p) s ≡ some old) × Satisfies f old
    pub update_miss :
        (p : Row) (f : Option Filter) (s s' : S) → svc.do_update p f s ≡ (ok none, s') → s' ≡ s
    pub delete_hit :
        (i : Value) (f : Option Filter) (s s' : S)
        → svc.do_delete i f s ≡ (ok true, s')
        → (old : Row) × (find i s ≡ some old) × Satisfies f old
    pub delete_miss :
        (i : Value) (f : Option Filter) (s s' : S) → svc.do_delete i f s ≡ (ok false, s') → s' ≡ s
    pub aligned :
        (es : List Edit) (s s' : S) (rs : List (Option Row))
        → svc.do_apply_edits es s ≡ (ok rs, s')
        → length rs ≡ length es
