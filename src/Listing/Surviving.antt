-- ===== src/Listing/Surviving.antt =====
-- The rows that a filter keeps in resourcey/list/list_service.py, where it raises on none.
use resourcey.Prelude.{
  ◌≡◌, refl, Bool, Option, none, some, List, [], ◌∷◌, All, keep, Bool-cases, inl, inr,
}
use resourcey.Failure.{Result, ok}
use resourcey.Listing.{filtered, surviving, survivors}

module _ {T : Type 0} where
  -- A filter answers on each row what a test does.
  abbrev pub Answers : Option (T → Result Bool) → Option (T → Bool) → List T → Type 0
  Answers none none items = Unit
  Answers (some f) (some test) items = All (λ m. f m ≡ ok (test m)) items
  Answers _ _ items = ⊥

  survivors-keep :
      (f : T → Result Bool) (test : T → Bool) (items : List T)
      → All (λ m. f m ≡ ok (test m)) items
      → survivors f items ≡ ok (keep test items)
  unfolding survivors
  survivors-keep f test [] answers = refl
  survivors-keep f test (m ∷ ms) (answer, answers) = elim (Bool-cases (test m)) [
    | inl e ↦ rw (answer, survivors-keep f test ms answers, e) refl
    | inr e ↦ rw (answer, survivors-keep f test ms answers, e) refl
  ]

  pub surviving-filtered :
      (filter : Option (T → Result Bool)) (test : Option (T → Bool)) (items : List T)
      → Answers filter test items
      → surviving filter items ≡ ok (filtered test items)
  unfolding surviving
  surviving-filtered none none items answers = refl
  surviving-filtered none (some test) items answers = absurd answers
  surviving-filtered (some f) none items answers = absurd answers
  surviving-filtered (some f) (some test) items answers = survivors-keep f test items answers

  pub All-items : {P : T → Type 0} (items : List T) → ((m : T) → P m) → All P items
  All-items [] h = tt
  All-items (m ∷ ms) h = (h m, All-items ms h)
