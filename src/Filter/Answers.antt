-- ===== src/Filter/Answers.antt =====
-- What `matches` of resourcey/util/search_filter.py answers, as the converters of both backends
-- have to reproduce it: under negation, through `all` and `any`, and where a comparison may raise.
use resourcey.Prelude.{
  String, ◌≡◌, refl, sym, ap, ◌∙◌, Bool, true, false, not, Option, none, some, ◌⊎◌, inl, inr,
}
use resourcey.Value.{Value, null, text, one, Row, attribute}
use resourcey.Failure.{Result, ok, err, ok-injective}
use resourcey.Filter.{Casing, Subject, row, val, and_then, or_else, inverted, compared}

-- What a subject's answer is under a negation.
abbrev pub flipped : Bool → Bool → Bool
flipped true b = not b
flipped false b = b

-- A substring is sought in a text, or in NULL.
abbrev pub IsText : Value → Type 0
IsText (one null) = Unit
IsText (one (text t)) = Unit
IsText v = ⊥

pub not-not : (b : Bool) → b ≡ not (not b)
not-not true = refl
not-not false = refl

-- What a filter is applied to, under the column that is bound.
abbrev pub subject : Option String → Row → Subject
subject none r = row r
subject (some n) r = val (attribute n r)

pub compared-eq-ok : (o : Option Bool) {b : Bool} → compared o ≡ ok b → o ≡ some b
compared-eq-ok none e = cc
compared-eq-ok (some b) e = ap some (ok-injective e)

pub flipped-not : (neg b : Bool) → flipped (not neg) (not b) ≡ flipped neg b
flipped-not true true = refl
flipped-not true false = refl
flipped-not false true = refl
flipped-not false false = refl

module _ ⦃c : Casing⦄ where
  pub inverted-eq-ok :
      (answer : Result Bool) {b : Bool} → inverted answer ≡ ok b → answer ≡ ok (not b)
  inverted-eq-ok (err e) eq' = cc
  inverted-eq-ok (ok a) {b} eq' = ap ok (not-not a ∙ ap not (ok-injective eq'))

  -- `all` and `any` stop at the first child that decides.
  pub and_then-cases :
      (first rest : Result Bool) {b : Bool}
      → and_then first rest ≡ ok b
      → ((first ≡ ok true) × (rest ≡ ok b)) ⊎ ((first ≡ ok false) × (b ≡ false))
  and_then-cases (err e) rest eq' = cc
  and_then-cases (ok true) rest eq' = inl (refl, eq')
  and_then-cases (ok false) rest eq' = inr (refl, sym (ok-injective eq'))

  pub or_else-cases :
      (first rest : Result Bool) {b : Bool}
      → or_else first rest ≡ ok b
      → ((first ≡ ok false) × (rest ≡ ok b)) ⊎ ((first ≡ ok true) × (b ≡ true))
  or_else-cases (err e) rest eq' = cc
  or_else-cases (ok true) rest eq' = inr (refl, sym (ok-injective eq'))
  or_else-cases (ok false) rest eq' = inl (refl, eq')
