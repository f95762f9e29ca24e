-- ===== src/Listing/Lookup.antt =====
-- `batch_read` of resourcey/list/list_service.py on lists that answer alike for every id.
use resourcey.Prelude.{
  ◌≡◌, ◌≢◌, refl, sym, ap, ap₂, ◌∙◌, subst, Option, none, some, List, [], ◌∷◌, Has, All, All-Has,
  Option-cases, if-cases, inl, inr, if◌then◌else◌,
}
use resourcey.Listing
use resourcey.Listing.{Ordered, Schema, last_with}
use resourcey.Listing.Sort.{HasDistinctIds}

module _ {T V : Type 0} ⦃v : Ordered V⦄ (d : Schema T V) where
  or_given : T → Option T → T
  or_given y none = y
  or_given y (some x) = x

  -- What is found under an id is a row with the id, and is found where there is one.
  last_with-Has :
      (i : V) (rows : List T) (m : T) → last_with d i rows ≡ some m → Has m rows × (d.get_id m ≡ i)
  unfolding last_with or_given
  last_with-Has i [] m e = cc
  last_with-Has i (x ∷ xs) m e = elim (Option-cases (last_with d i xs)) [
    | inl f ↦
        (let step : last_with d i (x ∷ xs) ≡ (if v.eqb (d.get_id x) i then some x else none) =
            rw f refl in
          elim (if-cases (v.eqb (d.get_id x) i) (some x) none (sym step ∙ e)) [
            | inl (same, g) ↦
                (let whole = ap (or_given x) g in
                  (
                    inl whole,
                    subst (λ y. d.get_id y ≡ i) whole ((v.eqb_iff (d.get_id x) i).0 same),
                  ))
            | inr (other, g) ↦ cc
          ])
    | inr (n, f) ↦
        (let step : last_with d i (x ∷ xs) ≡ last_with d i xs = rw f refl in
          let (member, at_i) = last_with-Has i xs m (sym step ∙ e) in (inr member, at_i))
  ]

  Has-last_with :
      (i : V) (rows : List T) (m : T)
      → Has m rows
      → d.get_id m ≡ i
      → (n : T) × (last_with d i rows ≡ some n)
  unfolding last_with
  Has-last_with i [] m member e = absurd member
  Has-last_with i (x ∷ xs) m member e = elim (Option-cases (last_with d i xs)) [
    | inr (n, f) ↦ (n, rw f refl)
    | inl f ↦ elim member [
      | inl same ↦ (x, rw (f, (v.eqb_iff (d.get_id x) i).1 (ap d.get_id same ∙ e)) refl)
      | inr later ↦ (let (n, g) = Has-last_with i xs m later e in cc (f, g))
    ]
  ]

  same_id-same :
      (rows : List T) (m n : T)
      → HasDistinctIds d rows
      → Has m rows
      → Has n rows
      → d.get_id m ≡ d.get_id n
      → m ≡ n
  same_id-same [] m n distinct h k e = absurd h
  same_id-same (x ∷ xs) m n (other, distinct) (inl f) (inl g) e = sym f ∙ g
  same_id-same (x ∷ xs) m n (other, distinct) (inl f) (inr g) e =
      absurd (All-Has (λ y. d.get_id x ≢ d.get_id y) xs n other g (ap d.get_id f ∙ e))
  same_id-same (x ∷ xs) m n (other, distinct) (inr f) (inl g) e =
      absurd (All-Has (λ y. d.get_id x ≢ d.get_id y) xs m other f (ap d.get_id g ∙ sym e))
  same_id-same (x ∷ xs) m n (other, distinct) (inr f) (inr g) e = same_id-same xs m n distinct f g e

  -- Two lists of rows of different ids answer alike for an id whose row both or neither have.
  pub last_with-alike :
      (i : V) (found rows : List T)
      → HasDistinctIds d rows
      → ((m : T) → Has m found → Has m rows)
      → ((m : T) → Has m rows → d.get_id m ≡ i → Has m found)
      → last_with d i found ≡ last_with d i rows
  last_with-alike i found rows distinct into back = elim (Option-cases (last_with d i found)) [
    | inr (m, e) ↦
        (let (member, at_i) = last_with-Has i found m e in
          let (n, f) = Has-last_with i rows m (into m member) at_i in
          let (member', at_i') = last_with-Has i rows n f in
          e
          ∙ ap some (same_id-same rows m n distinct (into m member) member' (at_i ∙ sym at_i'))
          ∙ sym f)
    | inl e ↦ elim (Option-cases (last_with d i rows)) [
      | inl f ↦ e ∙ sym f
      | inr (n, f) ↦
          (let (member, at_i) = last_with-Has i rows n f in
            let (m, g) = Has-last_with i found n (back n member at_i) at_i in cc (e, g))
    ]
  ]

  pub looked_up-alike :
      (found rows : List T) (is : List V)
      → All (λ i. last_with d i found ≡ last_with d i rows) is
      → Listing.batch_read d found is ≡ Listing.batch_read d rows is
  unfolding Listing.batch_read
  looked_up-alike found rows [] alike = refl
  looked_up-alike found rows (i ∷ is) (same, alike) =
      ap₂ (λ x xs. x ∷ xs) same (looked_up-alike found rows is alike)

  pub All-of_Has : {P : V → Type 0} (is : List V) → ((i : V) → Has i is → P i) → All P is
  All-of_Has [] h = tt
  All-of_Has (i ∷ is) h = (h i (inl refl), All-of_Has is (λ j member. h j (inr member)))
