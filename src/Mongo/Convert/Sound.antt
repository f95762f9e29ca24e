-- ===== src/Mongo/Convert/Sound.antt =====
-- The queries of resourcey/mongo/mongo_filter_converter.py find what the filter matches, and their
-- complements what it does not, missing fields included.
use resourcey.Prelude.{
  String, ◌≡◌, refl, sym, ap, ◌∙◌, subst, Bool, true, false, not, Option, none, some, List, ◌∷◌,
  All, inl, inr, if◌then◌else◌,
}
use resourcey.Value.{
  null, bool, int, text, uid, stamp, one, many, Row, attribute, value_lt, value_le,
}
use resourcey.Failure.{Result, ok, >>=-eq-ok, ok-injective}
use resourcey.Filter.{
  Filter, all, no_match, conj, disj, negate, at, eq, gt, ge, lt, le, contains, among, Filters, nil,
  cons, Casing, matches, all_match, any_match, row,
}
use resourcey.Filter.Answers.{
  flipped, IsText, subject, compared-eq-ok, flipped-not, inverted-eq-ok, and_then-cases,
  or_else-cases,
}
use resourcey.Sql.{IsKnown}
use resourcey.Sql.Convert.{Printing}
use resourcey.Sql.Convert.Total.{is_bound, Outcome}
use resourcey.Mongo.{Query, IsAlike, Collection, holds}
use resourcey.Mongo.Convert.{match_none, Identifiers, encode, field_for, condition, conditions}
use resourcey.Mongo.Convert.Junctions.{
  all_hold, any_holds, finds-match_none, holds-and_rule, holds-or_rule,
}
use resourcey.Mongo.Convert.Meaning.{
  attributes, condition-Outcome, holds-chosen, eq-finds, comparisons-find, in-finds, contains-finds,
}

-- A filter that fits the stored fields: no attribute of an attribute, comparisons of values of one
-- type, and a substring is a text and sought in a text.
abbrev mutual
  pub Fits : Option String → Row → Filter → Type 0
  Fits col r (conj fs) = AllFit col r fs
  Fits col r (disj fs) = AllFit col r fs
  Fits col r (negate f) = Fits col r f
  Fits none r (at n f) = Fits (some n) r f
  Fits (some m) r (at n f) = ⊥
  Fits (some n) r (contains (one (text t))) = IsText (attribute n r)
  Fits col r (contains v) = ⊥
  Fits (some n) r (among vs) = All (IsAlike (attribute n r)) vs
  Fits (some n) r (eq v) = IsAlike (attribute n r) v
  Fits (some n) r (gt v) = IsKnown v × IsAlike (attribute n r) v
  Fits (some n) r (ge v) = IsKnown v × IsAlike (attribute n r) v
  Fits (some n) r (lt v) = IsKnown v × IsAlike (attribute n r) v
  Fits (some n) r (le v) = IsKnown v × IsAlike (attribute n r) v
  Fits col r f = Unit

  pub AllFit : Option String → Row → Filters → Type 0
  AllFit col r nil = Unit
  AllFit col r (cons f fs) = Fits col r f × AllFit col r fs

module _ ⦃c : Casing⦄ ⦃i : Identifiers⦄ ⦃p : Printing⦄ (co : Collection)
    (fields : List (String × String)) (r d : Row) where
  -- A document that stores a DTO: each queried attribute, encoded, in its field.
  abbrev pub Stores : Type 0
  Stores = (n m : String) → field_for fields n ≡ ok m → attribute m d ≡ encode (attribute n r)

  -- The field that is bound stores the attribute that a filter is applied to.
  abbrev Binds : Option String → Option String → Type 0
  Binds none none = Unit
  Binds (some m) (some n) = attribute m d ≡ encode (attribute n r)
  Binds m n = ⊥

  -- What the children of a conjunction, and of a disjunction, are to find.
  abbrev AllFind : Bool → Bool → List (Option Query) → Type 0
  AllFind neg b qs = (if neg then any_holds co d qs else all_hold co d qs) ≡ flipped neg b

  abbrev AnyFind : Bool → Bool → List (Option Query) → Type 0
  AnyFind neg b qs = (if neg then all_hold co d qs else any_holds co d qs) ≡ flipped neg b

  also-AllFind :
      (neg b : Bool) (q : Option Query) (qs : List (Option Query))
      → holds co q d ≡ flipped neg true
      → AllFind neg b qs
      → AllFind neg b (q ∷ qs)
  also-AllFind true b q qs held rest = rw held rest
  also-AllFind false b q qs held rest = rw held rest

  stop-AllFind :
      (neg : Bool) (q : Option Query) (qs : List (Option Query))
      → holds co q d ≡ flipped neg false
      → AllFind neg false (q ∷ qs)
  stop-AllFind true q qs failed = rw failed refl
  stop-AllFind false q qs failed = rw failed refl

  also-AnyFind :
      (neg b : Bool) (q : Option Query) (qs : List (Option Query))
      → holds co q d ≡ flipped neg false
      → AnyFind neg b qs
      → AnyFind neg b (q ∷ qs)
  also-AnyFind true b q qs failed rest = rw failed rest
  also-AnyFind false b q qs failed rest = rw failed rest

  stop-AnyFind :
      (neg : Bool) (q : Option Query) (qs : List (Option Query))
      → holds co q d ≡ flipped neg true
      → AnyFind neg true (q ∷ qs)
  stop-AnyFind true q qs held = rw held refl
  stop-AnyFind false q qs held = rw held refl

  constant-finds :
      (neg : Bool) (q q' : Option Query) {k : Option Query} (b' : Bool) {b : Bool}
      → ◌≡◌ {A = Result (Option Query)} (ok (if neg then q' else q)) (ok k)
      → (holds co q d ≡ b') × (holds co q' d ≡ not b')
      → ◌≡◌ {A = Result Bool} (ok b') (ok b)
      → holds co k d ≡ flipped neg b
  constant-finds true q q' b' e answers same =
      ap (λ x. holds co x d) (sym (ok-injective e)) ∙ answers.1 ∙ ap not (ok-injective same)
  constant-finds false q q' b' e answers same =
      ap (λ x. holds co x d) (sym (ok-injective e)) ∙ answers.0 ∙ ok-injective same

  module _ (stores : Stores) where
    mutual
      unfolding condition matches

      finds-matches :
          (col at_field : Option String) (neg : Bool) (f : Filter) {k : Option Query} {b : Bool}
          → Binds at_field col
          → Fits col r f
          → condition fields at_field neg f ≡ ok k
          → matches f (subject col r) ≡ ok b
          → holds co k d ≡ flipped neg b
      finds-matches col at_field neg all bind fits e m =
          constant-finds neg none (some match_none) true e (refl, finds-match_none co d) m
      finds-matches col at_field neg no_match bind fits e m =
          constant-finds neg (some match_none) none false e (finds-match_none co d, refl) m
      finds-matches col at_field neg (negate f) {b} bind fits e m =
          finds-matches col at_field (not neg) f bind fits e
            (inverted-eq-ok (matches f (subject col r)) m)
          ∙ flipped-not neg b
      finds-matches col at_field neg (conj fs) {b} bind fits e m =
          (let found = >>=-eq-ok (conditions fields at_field neg fs) _ e in
            ap (λ k. holds co k d) (sym (ok-injective found.2))
            ∙ holds-and_rule co d neg found.0
            ∙ all_match-AllFind col at_field neg fs bind fits found.1 m)
      finds-matches col at_field neg (disj fs) {b} bind fits e m =
          (let found = >>=-eq-ok (conditions fields at_field neg fs) _ e in
            ap (λ k. holds co k d) (sym (ok-injective found.2))
            ∙ holds-or_rule co d neg found.0
            ∙ any_match-AnyFind col at_field neg fs bind fits found.1 m)
      finds-matches (some n') at_field neg (at n f) bind fits e m = absurd fits
      finds-matches none (some m') neg (at n f) bind fits e m = absurd bind
      finds-matches none none neg (at n f) bind fits e m =
          (let found = >>=-eq-ok (field_for fields n) _ e in
            finds-matches (some n) (some found.0) neg f (stores n found.0 found.1) fits found.2 m)
      finds-matches none none neg (eq v) bind fits e m = cc
      finds-matches none (some m') neg f bind fits e m = absurd bind
      finds-matches (some n) none neg f bind fits e m = absurd bind
      finds-matches (some n) (some q) neg (eq v) bind fits e m =
          holds-chosen co d neg e (eq-finds co d q (attribute n r) bind v fits) m
      finds-matches none none neg (gt v) bind fits e m = cc
      finds-matches (some n) (some q) neg (gt v) {b} bind fits e m =
          holds-chosen co d neg {b' = b} e
            ((comparisons-find co d q (attribute n r) bind v fits.0 fits.1).0
              (compared-eq-ok (value_lt v (attribute n r)) m))
            refl
      finds-matches none none neg (ge v) bind fits e m = cc
      finds-matches (some n) (some q) neg (ge v) {b} bind fits e m =
          holds-chosen co d neg {b' = b} e
            ((comparisons-find co d q (attribute n r) bind v fits.0 fits.1).1
              (compared-eq-ok (value_le v (attribute n r)) m))
            refl
      finds-matches none none neg (lt v) bind fits e m = cc
      finds-matches (some n) (some q) neg (lt v) {b} bind fits e m =
          holds-chosen co d neg {b' = b} e
            ((comparisons-find co d q (attribute n r) bind v fits.0 fits.1).2
              (compared-eq-ok (value_lt (attribute n r) v) m))
            refl
      finds-matches none none neg (le v) bind fits e m = cc
      finds-matches (some n) (some q) neg (le v) {b} bind fits e m =
          holds-chosen co d neg {b' = b} e
            ((comparisons-find co d q (attribute n r) bind v fits.0 fits.1).3
              (compared-eq-ok (value_le (attribute n r) v) m))
            refl
      finds-matches none none neg (contains v) bind fits e m = cc
      finds-matches (some n) (some q) neg (contains (one (text t))) bind fits e m =
          holds-chosen co d neg e (contains-finds co d q t (attribute n r) bind fits) m
      finds-matches (some n) (some q) neg (contains (one null)) bind fits e m = absurd fits
      finds-matches (some n) (some q) neg (contains (one (bool b'))) bind fits e m = absurd fits
      finds-matches (some n) (some q) neg (contains (one (int z))) bind fits e m = absurd fits
      finds-matches (some n) (some q) neg (contains (one (uid u))) bind fits e m = absurd fits
      finds-matches (some n) (some q) neg (contains (one (stamp u))) bind fits e m = absurd fits
      finds-matches (some n) (some q) neg (contains (many vs)) bind fits e m = absurd fits
      finds-matches none none neg (among vs) bind fits e m = cc
      finds-matches (some n) (some q) neg (among vs) bind fits e m =
          holds-chosen co d neg e (in-finds co d q (attribute n r) bind vs fits) m

      all_match-AllFind :
          (col at_field : Option String) (neg : Bool) (fs : Filters) {qs : List (Option Query)}
          {b : Bool}
          → Binds at_field col
          → AllFit col r fs
          → conditions fields at_field neg fs ≡ ok qs
          → all_match fs (subject col r) ≡ ok b
          → AllFind neg b qs
      all_match-AllFind col at_field true nil {qs} {b} bind fits e m =
          ap (any_holds co d) (sym (ok-injective e)) ∙ ap not (ok-injective m)
      all_match-AllFind col at_field false nil {qs} {b} bind fits e m =
          ap (all_hold co d) (sym (ok-injective e)) ∙ ok-injective m
      all_match-AllFind col at_field neg (cons f fs) {qs} {b} bind fits e m =
          (let first = >>=-eq-ok (condition fields at_field neg f) _ e in
            let others = >>=-eq-ok (conditions fields at_field neg fs) _ first.2 in
            subst (AllFind neg b) (ok-injective others.2)
              (elim (and_then-cases (matches f (subject col r)) (all_match fs (subject col r)) m) [
                | inl (held, rest) ↦
                    also-AllFind neg b first.0 others.0
                      (finds-matches col at_field neg f bind fits.0 first.1 held)
                      (all_match-AllFind col at_field neg fs bind fits.1 others.1 rest)
                | inr (failed, decided) ↦
                    subst (λ b'. AllFind neg b' (first.0 ∷ others.0)) (sym decided)
                      (stop-AllFind neg first.0 others.0
                        (finds-matches col at_field neg f bind fits.0 first.1 failed))
              ]))

      any_match-AnyFind :
          (col at_field : Option String) (neg : Bool) (fs : Filters) {qs : List (Option Query)}
          {b : Bool}
          → Binds at_field col
          → AllFit col r fs
          → conditions fields at_field neg fs ≡ ok qs
          → any_match fs (subject col r) ≡ ok b
          → AnyFind neg b qs
      any_match-AnyFind col at_field true nil {qs} {b} bind fits e m =
          ap (all_hold co d) (sym (ok-injective e)) ∙ ap not (ok-injective m)
      any_match-AnyFind col at_field false nil {qs} {b} bind fits e m =
          ap (any_holds co d) (sym (ok-injective e)) ∙ ok-injective m
      any_match-AnyFind col at_field neg (cons f fs) {qs} {b} bind fits e m =
          (let first = >>=-eq-ok (condition fields at_field neg f) _ e in
            let others = >>=-eq-ok (conditions fields at_field neg fs) _ first.2 in
            subst (AnyFind neg b) (ok-injective others.2)
              (elim (or_else-cases (matches f (subject col r)) (any_match fs (subject col r)) m) [
                | inl (failed, rest) ↦
                    also-AnyFind neg b first.0 others.0
                      (finds-matches col at_field neg f bind fits.0 first.1 failed)
                      (any_match-AnyFind col at_field neg fs bind fits.1 others.1 rest)
                | inr (held, decided) ↦
                    subst (λ b'. AnyFind neg b' (first.0 ∷ others.0)) (sym decided)
                      (stop-AnyFind neg first.0 others.0
                        (finds-matches col at_field neg f bind fits.0 first.1 held))
              ]))

  pub query-matches :
      (f : Filter) (b : Bool)
      → is_bound (attributes fields) false f ≡ true
      → Stores
      → Fits none r f
      → matches f (row r) ≡ ok b
      → (k k' : Option Query) × (condition fields none false f ≡ ok k)
        × (condition fields none true f ≡ ok k')
        × (holds co k d ≡ b)
        × (holds co k' d ≡ not b)
  query-matches f b named stores fits e =
      (let kept : Outcome true (condition fields none false f) =
          subst (λ x. Outcome x (condition fields none false f)) named
            (condition-Outcome fields false f) in
        let dropped : Outcome true (condition fields none true f) =
          subst (λ x. Outcome x (condition fields none true f)) named
            (condition-Outcome fields true f) in
        (
          kept.0,
          dropped.0,
          kept.1,
          dropped.1,
          finds-matches stores none none false f tt fits kept.1 e,
          finds-matches stores none none true f tt fits dropped.1 e,
        ))
