-- ===== src/Mongo/Convert/Junctions.antt =====
-- The junctions of resourcey/mongo/mongo_filter_converter.py find what the conjunction or the
-- disjunction of their children finds.
use resourcey.Prelude.{
  and_true, or_false, or_true, ◌≡◌, refl, sym, ap, ◌∙◌, Bool, true, false, not, ◌&&◌, ◌||◌, Option,
  none, some, List, [], ◌∷◌, if◌then◌else◌, Bool-cases, inl, inr,
}
use resourcey.Value.{Row}
use resourcey.Filter.{Casing}
use resourcey.Mongo.{Query, empty, all_of, any_of, Queries, end, also, Collection, holds}
use resourcey.Mongo.Convert.{
  match_none, present, conjunction, has_none, disjunction, and_rule, or_rule, conjunction_of,
  disjunction_of,
}

module _ ⦃c : Casing⦄ (co : Collection) (d : Row) where
  abbrev pub all_hold : List (Option Query) → Bool
  all_hold [] = true
  all_hold (q ∷ qs) = holds co q d && all_hold qs

  abbrev pub any_holds : List (Option Query) → Bool
  any_holds [] = false
  any_holds (q ∷ qs) = holds co q d || any_holds qs

  pub finds-match_none : co.finds match_none d ≡ false
  finds-match_none = co.finds-none_of empty d ∙ ap not (co.finds-empty d)

  abbrev find_all : Queries → Bool
  find_all end = true
  find_all (also q qs) = co.finds q d && find_all qs

  abbrev find_any : Queries → Bool
  find_any end = false
  find_any (also q qs) = co.finds q d || find_any qs

  finds-all_of : (q : Query) (qs : Queries) → co.finds (all_of (also q qs)) d ≡ find_all (also q qs)
  finds-all_of q end = co.finds-all_one q d ∙ sym (and_true (co.finds q d))
  finds-all_of q (also q' qs) =
      co.finds-all q q' qs d ∙ ap (λ b. co.finds q d && b) (finds-all_of q' qs)

  finds-any_of : (q : Query) (qs : Queries) → co.finds (any_of (also q qs)) d ≡ find_any (also q qs)
  finds-any_of q end = co.finds-any_one q d ∙ sym (or_false (co.finds q d))
  finds-any_of q (also q' qs) =
      co.finds-any q q' qs d ∙ ap (λ b. co.finds q d || b) (finds-any_of q' qs)

  conjunction_of_lem : (qs : Queries) → holds co (conjunction_of qs) d ≡ find_all qs
  conjunction_of_lem end = refl
  conjunction_of_lem (also q end) = sym (and_true (co.finds q d))
  conjunction_of_lem (also q (also q' qs)) = finds-all_of q (also q' qs)

  disjunction_of_lem : (qs : Queries) → holds co (disjunction_of qs) d ≡ find_any qs
  disjunction_of_lem end = finds-match_none
  disjunction_of_lem (also q end) = sym (or_false (co.finds q d))
  disjunction_of_lem (also q (also q' qs)) = finds-any_of q (also q' qs)

  find_all-present : (qs : List (Option Query)) → find_all (present qs) ≡ all_hold qs
  find_all-present [] = refl
  find_all-present (none ∷ qs) = find_all-present qs
  find_all-present (some q ∷ qs) = ap (λ b. co.finds q d && b) (find_all-present qs)

  find_any-present :
      (qs : List (Option Query)) → has_none qs ≡ false → find_any (present qs) ≡ any_holds qs
  find_any-present [] e = refl
  find_any-present (none ∷ qs) e = cc
  find_any-present (some q ∷ qs) e = ap (λ b. co.finds q d || b) (find_any-present qs e)

  any_holds-has_none : (qs : List (Option Query)) → has_none qs ≡ true → any_holds qs ≡ true
  any_holds-has_none [] e = cc
  any_holds-has_none (none ∷ qs) e = refl
  any_holds-has_none (some q ∷ qs) e =
      ap (λ b. co.finds q d || b) (any_holds-has_none qs e) ∙ or_true (co.finds q d)

  pub holds-conjunction : (qs : List (Option Query)) → holds co (conjunction qs) d ≡ all_hold qs
  unfolding conjunction
  holds-conjunction qs = conjunction_of_lem (present qs) ∙ find_all-present qs

  pub holds-disjunction : (qs : List (Option Query)) → holds co (disjunction qs) d ≡ any_holds qs
  unfolding disjunction
  holds-disjunction qs = elim (Bool-cases (has_none qs)) [
    | inl e ↦ rw e (sym (any_holds-has_none qs e))
    | inr e ↦ rw e (disjunction_of_lem (present qs) ∙ find_any-present qs e)
  ]

  -- Under negation a conjunction is the disjunction of its children's complements, and a
  -- disjunction their conjunction.
  pub holds-and_rule :
      (neg : Bool) (qs : List (Option Query))
      → holds co (and_rule neg qs) d ≡ (if neg then any_holds qs else all_hold qs)
  unfolding and_rule
  holds-and_rule true [] = finds-match_none
  holds-and_rule true (q ∷ qs) = holds-disjunction (q ∷ qs)
  holds-and_rule false qs = holds-conjunction qs

  pub holds-or_rule :
      (neg : Bool) (qs : List (Option Query))
      → holds co (or_rule neg qs) d ≡ (if neg then all_hold qs else any_holds qs)
  unfolding or_rule
  holds-or_rule true [] = refl
  holds-or_rule true (q ∷ qs) = holds-conjunction (q ∷ qs)
  holds-or_rule false qs = holds-disjunction qs
