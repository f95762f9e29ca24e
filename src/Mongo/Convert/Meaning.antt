-- ===== src/Mongo/Convert/Meaning.antt =====
-- What each leaf of resourcey/mongo/mongo_filter_converter.py finds, and which filters it converts.
use resourcey.Prelude.{
  String, ◌≡◌, refl, sym, ap, ◌∙◌, subst, Bool, true, false, not, Option, none, some, List, [], ◌∷◌,
  map, All, is_some, str_eq, Bool-cases, inl, inr,
}
use resourcey.Value.{
  Value, null, bool, int, text, uid, stamp, one, many, Row, attribute, value_eq, value_lt, value_le,
  is_among,
}
use resourcey.Failure.{Result, ok, ok-injective}
use resourcey.Filter.{
  Filter, all, no_match, conj, disj, negate, at, eq, gt, ge, lt, le, contains, among, Filters, nil,
  cons, Casing, mem_contains,
}
use resourcey.Filter.Answers.{flipped, IsText}
use resourcey.Sql.{IsKnown}
use resourcey.Sql.Convert.{Printing}
use resourcey.Sql.Convert.Total.{
  has_column, is_bound, are_bound, Outcome, then-Outcome, map-Outcome,
}
use resourcey.Mongo.Regex.{escaped, literal_of-escaped}
use resourcey.Mongo.{Query, IsAlike, Collection, holds}
use resourcey.Mongo.Convert.{
  Identifiers, encode, chosen, bound, field_for, eq_positive, gt_positive, ge_positive, lt_positive,
  le_positive, in_positive, contains_positive, condition, conditions,
}
use resourcey.Mongo.Convert.Encoding.{
  encode-IsAlike, value_eq-encode, orders-encode, AllAlike-encode, is_among-encode, encode-IsKnown,
}

-- The attributes that a resource's documents are queried by.
abbrev pub attributes : List (String × String) → List String
attributes [] = []
attributes ((n, m) ∷ fs) = n ∷ attributes fs

field_for-Outcome :
    (fs : List (String × String)) (n : String)
    → Outcome (has_column (attributes fs) n) (field_for fs n)
unfolding field_for
field_for-Outcome [] n = refl
field_for-Outcome ((q, m) ∷ fs) n = elim (Bool-cases (str_eq q n)) [
  | inl e ↦ rw e (m, refl)
  | inr e ↦ rw e (field_for-Outcome fs n)
]

bound-Outcome :
    (col : Option String) (neg : Bool) (leaf : String → Query)
    → Outcome (is_some col) (bound col neg leaf)
bound-Outcome none neg leaf = refl
bound-Outcome (some m) neg leaf = (some (chosen neg (leaf m)), refl)

module _ ⦃i : Identifiers⦄ ⦃p : Printing⦄ where
  mutual
    unfolding condition is_bound

    outcome :
        (fs : List (String × String)) (col : Option String) (neg : Bool) (f : Filter)
        → Outcome (is_bound (attributes fs) (is_some col) f) (condition fs col neg f)
    outcome fs col neg all = (_, refl)
    outcome fs col neg no_match = (_, refl)
    outcome fs col neg (negate f) = outcome fs col (not neg) f
    outcome fs col neg (conj gs) =
        map-Outcome (conditions fs col neg gs) _ (are_bound (attributes fs) (is_some col) gs)
          (outcomes fs col neg gs)
    outcome fs col neg (disj gs) =
        map-Outcome (conditions fs col neg gs) _ (are_bound (attributes fs) (is_some col) gs)
          (outcomes fs col neg gs)
    outcome fs col neg (at n f) =
        then-Outcome (field_for fs n) _ (has_column (attributes fs) n)
          (is_bound (attributes fs) true f) (field_for-Outcome fs n)
          (λ m e. outcome fs (some m) neg f)
    outcome fs col neg (eq v) = bound-Outcome col neg _
    outcome fs col neg (gt v) = bound-Outcome col neg _
    outcome fs col neg (ge v) = bound-Outcome col neg _
    outcome fs col neg (lt v) = bound-Outcome col neg _
    outcome fs col neg (le v) = bound-Outcome col neg _
    outcome fs col neg (contains v) = bound-Outcome col neg _
    outcome fs col neg (among vs) = bound-Outcome col neg _

    outcomes :
        (fs : List (String × String)) (col : Option String) (neg : Bool) (gs : Filters)
        → Outcome (are_bound (attributes fs) (is_some col) gs) (conditions fs col neg gs)
    outcomes fs col neg nil = (_, refl)
    outcomes fs col neg (cons f gs) =
        then-Outcome (condition fs col neg f) _ (is_bound (attributes fs) (is_some col) f)
          (are_bound (attributes fs) (is_some col) gs) (outcome fs col neg f)
          (λ q e.
            map-Outcome (conditions fs col neg gs) _ (are_bound (attributes fs) (is_some col) gs)
              (outcomes fs col neg gs))

  -- The converter returns a query for every filter whose attributes are fields and whose tests of
  -- values stand below one, and raises `UnsupportedFilterError` for every other, in both polarities.
  pub condition-Outcome :
      (fs : List (String × String)) (neg : Bool) (f : Filter)
      → Outcome (is_bound (attributes fs) false f) (condition fs none neg f)
  condition-Outcome fs neg f = outcome fs none neg f

module _ ⦃c : Casing⦄ ⦃i : Identifiers⦄ ⦃p : Printing⦄ (co : Collection) (d : Row) where
  -- A leaf, or its `$nor`.
  pub holds-chosen :
      (neg : Bool) {positive : Query} {b b' : Bool} {k : Option Query}
      → ◌≡◌ {A = Result (Option Query)} (ok (some (chosen neg positive))) (ok k)
      → co.finds positive d ≡ b'
      → ◌≡◌ {A = Result Bool} (ok b') (ok b)
      → holds co k d ≡ flipped neg b
  holds-chosen true {positive} e found same =
      ap (λ k. holds co k d) (sym (ok-injective e))
      ∙ co.finds-none_of positive d
      ∙ ap not (found ∙ ok-injective same)
  holds-chosen false {positive} e found same =
      ap (λ k. holds co k d) (sym (ok-injective e)) ∙ found ∙ ok-injective same

  -- The leaves on a document whose field stores the value `w`.
  module _ (m : String) (w : Value) (stores : attribute m d ≡ encode w) where
    pub eq-finds : (v : Value) → IsAlike w v → co.finds (eq_positive v m) d ≡ value_eq w v
    unfolding eq_positive
    eq-finds v alike =
        co.finds-eq m (encode v) d
          (subst (λ x. IsAlike x (encode v)) (sym stores) (encode-IsAlike alike))
        ∙ ap (λ x. value_eq x (encode v)) stores
        ∙ value_eq-encode alike

    -- The four comparisons, where Python's has an answer.
    pub comparisons-find :
        (v : Value) {b : Bool}
        → IsKnown v
        → IsAlike w v
        → (value_lt v w ≡ some b → co.finds (gt_positive v m) d ≡ b)
          × (value_le v w ≡ some b → co.finds (ge_positive v m) d ≡ b)
          × (value_lt w v ≡ some b → co.finds (lt_positive v m) d ≡ b)
          × (value_le w v ≡ some b → co.finds (le_positive v m) d ≡ b)
    unfolding gt_positive ge_positive lt_positive le_positive
    comparisons-find v {b} known alike =
        (let answers =
            co.finds-compared m (encode v) d b (encode-IsKnown v known)
              (subst (λ x. IsAlike x (encode v)) (sym stores) (encode-IsAlike alike)) in
          let orders = orders-encode alike in
          (
            (λ e. answers.0 (ap (λ x. value_lt (encode v) x) stores ∙ orders.0 ∙ e)),
            (λ e. answers.1 (ap (λ x. value_le (encode v) x) stores ∙ orders.1 ∙ e)),
            (λ e. answers.2 (ap (λ x. value_lt x (encode v)) stores ∙ orders.2 ∙ e)),
            λ e. answers.3 (ap (λ x. value_le x (encode v)) stores ∙ orders.3 ∙ e),
          ))

    pub in-finds :
        (vs : List Value) → All (IsAlike w) vs → co.finds (in_positive vs m) d ≡ is_among w vs
    unfolding in_positive
    in-finds vs alike =
        co.finds-in m (map encode vs) d
          (subst (λ x. All (IsAlike x) (map encode vs)) (sym stores) (AllAlike-encode w vs alike))
        ∙ ap (λ x. is_among x (map encode vs)) stores
        ∙ is_among-encode w vs alike

  pub contains-finds :
      (m : String) (t : String) (w : Value)
      → attribute m d ≡ encode w
      → IsText w
      → co.finds (contains_positive (one (text t)) m) d ≡ mem_contains w (one (text t))
  unfolding contains_positive mem_contains encode
  contains-finds m t (one null) stores is_text = co.finds-regex_null m (escaped t) d stores
  contains-finds m t (one (text s)) stores is_text =
      co.finds-regex m (escaped t) t s d (literal_of-escaped t) stores
  contains-finds m t (one (bool b)) stores is_text = absurd is_text
  contains-finds m t (one (int b)) stores is_text = absurd is_text
  contains-finds m t (one (uid b)) stores is_text = absurd is_text
  contains-finds m t (one (stamp b)) stores is_text = absurd is_text
  contains-finds m t (many b) stores is_text = absurd is_text
