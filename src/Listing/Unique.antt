-- ===== src/Listing/Unique.antt =====
-- The strict order of the rows of resourcey/list/list_service.py determines a list by its entries.
use resourcey.Prelude.{
  All-keep, ◌≡◌, ◌≢◌, refl, sym, ap, ap₂, subst, Bool, true, false, List, [], ◌∷◌, All, All-Has,
  Has, keep, ◌↔◌, inl, inr, Bool-cases, Option, none, some,
}
use resourcey.Service.{SortOrder}
use resourcey.Listing.{
  Ordered, Schema, insert_sorted, sorted, id_precedes, key_precedes, order, filtered,
}
use resourcey.Listing.Sort.{Strict, HasDistinctIds, All-insert_sorted, All-sorted}

module _ {T : Type 0} (precedes : T → T → Bool) where
  Has-insert_sorted :
      (x : T) (ys : List T) (a : T) → Has a (insert_sorted precedes x ys) ↔ Has a (x ∷ ys)
  unfolding insert_sorted
  Has-insert_sorted x [] a = ((λ h. h), λ h. h)
  Has-insert_sorted x (y ∷ ys) a = elim (Bool-cases (precedes y x)) [
    | inr e ↦ rw e ((λ h. h), λ h. h)
    | inl e ↦ rw e (
      (λ h. elim h [
        | inl same ↦ inr (inl same)
        | inr member ↦ elim ((Has-insert_sorted x ys a).0 member) [
          | inl same ↦ inl same
          | inr later ↦ inr (inr later)
        ]
      ]),
      λ h. elim h [
        | inl same ↦ inr ((Has-insert_sorted x ys a).1 (inl same))
        | inr member ↦ elim member [
          | inl same ↦ inl same
          | inr later ↦ inr ((Has-insert_sorted x ys a).1 (inr later))
        ]
      ],
    )
  ]

  pub Has-sorted : (xs : List T) (a : T) → Has a (sorted precedes xs) ↔ Has a xs
  unfolding sorted
  Has-sorted [] a = ((λ h. h), λ h. h)
  Has-sorted (x ∷ xs) a = (
    (λ h. elim ((Has-insert_sorted x (sorted precedes xs) a).0 h) [
      | inl same ↦ inl same
      | inr later ↦ inr ((Has-sorted xs a).0 later)
    ]),
    λ h.
        (Has-insert_sorted x (sorted precedes xs) a).1
          (elim h [ inl same ↦ inl same | inr later ↦ inr ((Has-sorted xs a).1 later) ]),
  )

module _ {T : Type 0} (before : T → T → Bool) (irreflexive : (a : T) → before a a ≡ false)
    (transitive : (a b c : T) → before a b ≡ true → before b c ≡ true → before a c ≡ true) where
  head_same :
      (x y : T) (xs ys : List T)
      → Strict before (x ∷ xs)
      → Strict before (y ∷ ys)
      → Has x (y ∷ ys)
      → Has y (x ∷ xs)
      → x ≡ y
  head_same x y xs ys o o' (inl e) h = sym e
  head_same x y xs ys o o' (inr later) (inl e) = e
  head_same x y xs ys o o' (inr later) (inr later') =
      (let back = All-Has (λ z. before y z ≡ true) ys x o'.0 later in
        let forth = All-Has (λ z. before x z ≡ true) xs y o.0 later' in
        cc (transitive x y x forth back, irreflexive x))

  tail_Has :
      (x : T) (xs ys : List T) (a : T)
      → All (λ z. before x z ≡ true) xs
      → Has a xs
      → Has a (x ∷ ys)
      → Has a ys
  tail_Has x xs ys a after member (inr later) = later
  tail_Has x xs ys a after member (inl e) =
      (let past = All-Has (λ z. before x z ≡ true) xs a after member in
        cc (past, irreflexive x, ap (before x) e))

  pub Strict-unique :
      (xs ys : List T)
      → Strict before xs
      → Strict before ys
      → ((a : T) → Has a xs ↔ Has a ys)
      → xs ≡ ys
  Strict-unique [] [] o o' same = refl
  Strict-unique [] (y ∷ ys) o o' same = absurd ((same y).1 (inl refl))
  Strict-unique (x ∷ xs) [] o o' same = absurd ((same x).0 (inl refl))
  Strict-unique (x ∷ xs) (y ∷ ys) o o' same =
      (let e = head_same x y xs ys o o' ((same x).0 (inl refl)) ((same y).1 (inl refl)) in
        ap₂ ◌∷◌ e (
          Strict-unique xs ys o.1 o'.1 (λ a. (
            (λ h.
                tail_Has x xs ys a o.0 h
                  (subst (λ z. Has a (z ∷ ys)) (sym e) ((same a).0 (inr h)))),
            λ h. tail_Has y ys xs a o'.0 h (subst (λ z. Has a (z ∷ xs)) e ((same a).1 (inr h))),
          ))))

  pub Strict-keep : (p : T → Bool) (xs : List T) → Strict before xs → Strict before (keep p xs)
  Strict-keep p [] o = tt
  Strict-keep p (x ∷ xs) (o, os) = elim (Bool-cases (p x)) [
    | inl e ↦ rw e (All-keep (λ y. before x y ≡ true) p xs o, Strict-keep p xs os)
    | inr e ↦ rw e (Strict-keep p xs os)
  ]

module _ {T V : Type 0} ⦃v : Ordered V⦄ (d : Schema T V) where
  pub Has-order : (s : Option SortOrder) (xs : List T) (a : T) → Has a (order d s xs) ↔ Has a xs
  unfolding order
  Has-order none xs a = Has-sorted (id_precedes d) xs a
  Has-order (some o) xs a = (
    (λ h. (Has-sorted (id_precedes d) xs a).0 ((Has-sorted (key_precedes d o) _ a).0 h)),
    λ h. (Has-sorted (key_precedes d o) _ a).1 ((Has-sorted (id_precedes d) xs a).1 h),
  )

  keep-HasDistinctIds :
      (p : T → Bool) (xs : List T) → HasDistinctIds d xs → HasDistinctIds d (keep p xs)
  keep-HasDistinctIds p [] h = tt
  keep-HasDistinctIds p (x ∷ xs) (h, k) = elim (Bool-cases (p x)) [
    | inl e ↦ rw e (All-keep _ p xs h, keep-HasDistinctIds p xs k)
    | inr e ↦ rw e (keep-HasDistinctIds p xs k)
  ]

  pub filtered-HasDistinctIds :
      (filter : Option (T → Bool)) (xs : List T)
      → HasDistinctIds d xs
      → HasDistinctIds d (filtered filter xs)
  filtered-HasDistinctIds none xs h = h
  filtered-HasDistinctIds (some p) xs h = keep-HasDistinctIds p xs h

  insert_sorted-HasDistinctIds :
      (precedes : T → T → Bool) (x : T) (ys : List T)
      → All (λ y. d.get_id x ≢ d.get_id y) ys
      → HasDistinctIds d ys
      → HasDistinctIds d (insert_sorted precedes x ys)
  unfolding insert_sorted
  insert_sorted-HasDistinctIds precedes x [] h k = (tt, tt)
  insert_sorted-HasDistinctIds precedes x (y ∷ ys) (h, hs) (k, ks) =
      elim (Bool-cases (precedes y x)) [
        | inl e ↦ rw e (
          All-insert_sorted precedes (λ z. d.get_id y ≢ d.get_id z) x ys (λ same. h (sym same)) k,
          insert_sorted-HasDistinctIds precedes x ys hs ks,
        )
        | inr e ↦ rw e ((h, hs), (k, ks))
      ]

  sorted-HasDistinctIds :
      (precedes : T → T → Bool) (xs : List T)
      → HasDistinctIds d xs
      → HasDistinctIds d (sorted precedes xs)
  unfolding sorted
  sorted-HasDistinctIds precedes [] h = tt
  sorted-HasDistinctIds precedes (x ∷ xs) (h, k) =
      insert_sorted-HasDistinctIds precedes x (sorted precedes xs)
        (All-sorted precedes (λ y. d.get_id x ≢ d.get_id y) xs h)
        (sorted-HasDistinctIds precedes xs k)

  pub order-HasDistinctIds :
      (s : Option SortOrder) (xs : List T) → HasDistinctIds d xs → HasDistinctIds d (order d s xs)
  unfolding order
  order-HasDistinctIds none xs h = sorted-HasDistinctIds (id_precedes d) xs h
  order-HasDistinctIds (some o) xs h =
      sorted-HasDistinctIds (key_precedes d o) _ (sorted-HasDistinctIds (id_precedes d) xs h)
