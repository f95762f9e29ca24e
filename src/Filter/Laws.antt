-- ===== src/Filter/Laws.antt =====
-- What the factories of resourcey/util/search_filter.py keep: the value of every filter whose
-- evaluation raises no error.
use mathlib.Core.Option
use resourcey.Prelude.{
  String, ◌≡◌, refl, sym, ◌∙◌, ap, ap₂, Bool, true, false, Option, none, some, List, [], ◌∷◌, ◌++◌,
  arith,
}
use resourcey.Failure.{Result, ok}
use resourcey.Filter.{
  Filter, all, no_match, conj, disj, negate, Filters, nil, cons, Casing, Subject, val, get, matches,
  all_match, any_match, and_then, or_else, inverted,
}
use resourcey.Filter.Build.{
  of_list, flatten_conj, flatten_conjs, flatten_disj, flatten_disjs, and_children, or_children,
  and_, or_, not_, attr, conj_of, disj_of,
}

module _ ⦃c : Casing⦄ where
  all_match-append :
      (xs ys : List Filter) (s : Subject)
      → all_match (of_list (xs ++ ys)) s
        ≡ and_then (all_match (of_list xs) s) (all_match (of_list ys) s)
  unfolding matches
  all_match-append [] ys s = refl
  all_match-append (x ∷ xs) ys s = ground (arith, all_match-append xs ys s)

  any_match-append :
      (xs ys : List Filter) (s : Subject)
      → any_match (of_list (xs ++ ys)) s
        ≡ or_else (any_match (of_list xs) s) (any_match (of_list ys) s)
  unfolding matches
  any_match-append [] ys s = refl
  any_match-append (x ∷ xs) ys s = ground (arith, any_match-append xs ys s)

  all_match-single : (f : Filter) (s : Subject) → all_match (of_list (f ∷ [])) s ≡ matches f s
  unfolding all_match
  all_match-single f s = ground arith

  any_match-single : (f : Filter) (s : Subject) → any_match (of_list (f ∷ [])) s ≡ matches f s
  unfolding any_match
  any_match-single f s = ground arith

  mutual
    unfolding matches flatten_conj

    flatten_conj-matches :
        (f : Filter) (s : Subject) → all_match (of_list (flatten_conj f)) s ≡ matches f s
    flatten_conj-matches (conj fs) s = flatten_conjs-matches fs s
    flatten_conj-matches f s = ground arith

    flatten_conjs-matches :
        (fs : Filters) (s : Subject) → all_match (of_list (flatten_conjs fs)) s ≡ all_match fs s
    flatten_conjs-matches nil s = refl
    flatten_conjs-matches (cons f fs) s =
        all_match-append (flatten_conj f) (flatten_conjs fs) s
        ∙ ap₂ and_then (flatten_conj-matches f s) (flatten_conjs-matches fs s)

  mutual
    unfolding matches flatten_disj

    flatten_disj-matches :
        (f : Filter) (s : Subject) → any_match (of_list (flatten_disj f)) s ≡ matches f s
    flatten_disj-matches (disj fs) s = flatten_disjs-matches fs s
    flatten_disj-matches f s = ground arith

    flatten_disjs-matches :
        (fs : Filters) (s : Subject) → any_match (of_list (flatten_disjs fs)) s ≡ any_match fs s
    flatten_disjs-matches nil s = refl
    flatten_disjs-matches (cons f fs) s =
        any_match-append (flatten_disj f) (flatten_disjs fs) s
        ∙ ap₂ or_else (flatten_disj-matches f s) (flatten_disjs-matches fs s)

  -- The loop keeps the value of the conjunction; where it returns early the value is false.
  abbrev Kept : Option (List Filter) → Result Bool → Subject → Type 0
  Kept none r s = (b : Bool) → r ≡ ok b → b ≡ false
  Kept (some gs) r s = r ≡ all_match (of_list gs) s

  Kept-child :
      (f : Filter) (o : Option (List Filter)) (r : Result Bool) (s : Subject)
      → Kept o r s
      → Kept (Option.map (λ fs. f ∷ fs) o) (and_then (matches f s) r) s
  unfolding all_match
  Kept-child f none r s h = λ b e. ground (arith, h b)
  Kept-child f (some gs) r s h = ap (and_then (matches f s)) h

  and_children-Kept :
      (fs : List Filter) (s : Subject) → Kept (and_children fs) (all_match (of_list fs) s) s
  unfolding and_children matches
  and_children-Kept [] s = refl
  and_children-Kept (no_match ∷ fs) s = λ b h. ground arith
  and_children-Kept (all ∷ fs) s = and_children-Kept fs s
  and_children-Kept (f ∷ fs) s = Kept-child f (and_children fs) _ s (and_children-Kept fs s)

  conj_of-Kept :
      (o : Option (List Filter)) (r : Result Bool) (s : Subject) (b : Bool)
      → Kept o r s
      → r ≡ ok b
      → matches (conj_of o) s ≡ ok b
  unfolding matches
  conj_of-Kept none r s b h e = ground (arith, h b e)
  conj_of-Kept (some []) r s b h e = ground arith
  conj_of-Kept (some (f ∷ [])) r s b h e = sym (all_match-single f s) ∙ sym h ∙ e
  conj_of-Kept (some (f ∷ g ∷ fs)) r s b h e = sym h ∙ e

  -- `and_` of filters has the value of the plain conjunction of its arguments, tried in order,
  -- wherever that raises no error.
  pub and_-matches :
      (fs : List Filter) (s : Subject) (b : Bool)
      → all_match (of_list fs) s ≡ ok b
      → matches (and_ fs) s ≡ ok b
  unfolding and_
  and_-matches fs s b h =
      conj_of-Kept _ _ s b (and_children-Kept (flatten_conjs (of_list fs)) s)
        (flatten_conjs-matches (of_list fs) s ∙ h)

  conj_of-true :
      (o : Option (List Filter)) (r : Result Bool) (s : Subject)
      → Kept o r s
      → matches (conj_of o) s ≡ ok true
      → r ≡ ok true
  unfolding matches
  conj_of-true none r s h e = cc
  conj_of-true (some []) r s h e = h
  conj_of-true (some (f ∷ [])) r s h e = h ∙ all_match-single f s ∙ e
  conj_of-true (some (f ∷ g ∷ fs)) r s h e = h ∙ e

  -- A row that `and_` of filters accepts is accepted by every argument.
  pub and_-true :
      (fs : List Filter) (s : Subject)
      → matches (and_ fs) s ≡ ok true
      → all_match (of_list fs) s ≡ ok true
  unfolding and_
  and_-true fs s e =
      sym (flatten_conjs-matches (of_list fs) s)
      ∙ conj_of-true _ _ s (and_children-Kept (flatten_conjs (of_list fs)) s) e

  abbrev Joined : Option (List Filter) → Result Bool → Subject → Type 0
  Joined none r s = (b : Bool) → r ≡ ok b → b ≡ true
  Joined (some gs) r s = r ≡ any_match (of_list gs) s

  Joined-child :
      (f : Filter) (o : Option (List Filter)) (r : Result Bool) (s : Subject)
      → Joined o r s
      → Joined (Option.map (λ fs. f ∷ fs) o) (or_else (matches f s) r) s
  unfolding any_match
  Joined-child f none r s h = λ b e. ground (arith, h b)
  Joined-child f (some gs) r s h = ap (or_else (matches f s)) h

  or_children-Joined :
      (fs : List Filter) (s : Subject) → Joined (or_children fs) (any_match (of_list fs) s) s
  unfolding or_children matches
  or_children-Joined [] s = refl
  or_children-Joined (all ∷ fs) s = λ b h. ground arith
  or_children-Joined (no_match ∷ fs) s = or_children-Joined fs s
  or_children-Joined (f ∷ fs) s = Joined-child f (or_children fs) _ s (or_children-Joined fs s)

  disj_of-Joined :
      (o : Option (List Filter)) (r : Result Bool) (s : Subject) (b : Bool)
      → Joined o r s
      → r ≡ ok b
      → matches (disj_of o) s ≡ ok b
  unfolding matches
  disj_of-Joined none r s b h e = ground (arith, h b e)
  disj_of-Joined (some []) r s b h e = ground arith
  disj_of-Joined (some (f ∷ [])) r s b h e = sym (any_match-single f s) ∙ sym h ∙ e
  disj_of-Joined (some (f ∷ g ∷ fs)) r s b h e = sym h ∙ e

  -- `or_` of filters has the value of the plain disjunction of its arguments, tried in order,
  -- wherever that raises no error.
  pub or_-matches :
      (fs : List Filter) (s : Subject) (b : Bool)
      → any_match (of_list fs) s ≡ ok b
      → matches (or_ fs) s ≡ ok b
  unfolding or_
  or_-matches fs s b h =
      disj_of-Joined _ _ s b (or_children-Joined (flatten_disjs (of_list fs)) s)
        (flatten_disjs-matches (of_list fs) s ∙ h)

  double_negation : (r : Result Bool) → inverted (inverted r) ≡ r
  double_negation r = ground arith

  -- `not_` inverts a filter and `attr` applies it to the attribute, errors included.
  pub not_-attr-matches :
      (f : Filter) (name : String) (s : Subject)
      → (matches (not_ f) s ≡ inverted (matches f s))
        × (matches (attr name f) s ≡ matches f (val (get name s)))
  unfolding not_ attr matches
  not_-attr-matches (negate f) name s = (sym (double_negation (matches f s)), refl)
  not_-attr-matches f name s = (refl, refl)
