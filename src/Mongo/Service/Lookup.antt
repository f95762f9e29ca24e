-- ===== src/Mongo/Service/Lookup.antt =====
-- `batch_read` of resourcey/mongo/mongo_service.py against that of resourcey/list/list_service.py:
-- fetching no more documents than different ids loses none.
use resourcey.Prelude.{
  ℕ, zero, suc, ◌≤◌, ◌≡◌, ◌≢◌, refl, sym, ap, ◌∙◌, subst, Bool, true, false, not, ◌||◌, some, List,
  [], ◌∷◌, length, take, keep, Has, Has-keep, All, Bool-cases, inl, ◌⊎◌, inr, arith,
}
use resourcey.Value.{one, attribute, value_eq, scalar_eq, is_among}
use resourcey.Filter.{Casing}
use resourcey.Listing
use resourcey.Listing.{Ordered, Schema}
use resourcey.Listing.Sort.{HasDistinctIds}
use resourcey.Listing.Lookup.{last_with-alike, looked_up-alike, All-of_Has}
use resourcey.Sql.Convert.{Printing}
use resourcey.Sql.Keyset.{Stored, key}
use resourcey.Sql.Service.Lookup.{stored_ids, is_among-stored}
use resourcey.Mongo.{field_in, IsAlike, Collection}
use resourcey.Mongo.Convert.{Identifiers}
use resourcey.Mongo.Service
use resourcey.Mongo.Service.{Driver, MongoResource, fromkeys}

take_all : {T : Type 0} (n : ℕ) (xs : List T) → length xs ≤ n → take n xs ≡ xs
take_all zero [] h = refl
take_all zero (x ∷ xs) h = absurd (omega (arith, h))
take_all (suc n) [] h = refl
take_all (suc n) (x ∷ xs) h = ap (λ ys. x ∷ ys) (take_all n xs (omega (arith, h)))

or-cases : (a b : Bool) → a || b ≡ true → (a ≡ true) ⊎ (b ≡ true)
or-cases true b e = inl refl
or-cases false b e = inr e

module _ {V : Type 0} ⦃v : Ordered V⦄ where
  abbrev others : V → List V → List V
  others i is = keep (λ j. not (v.eqb i j)) is

  Has-fromkeys : (i : V) (is : List V) → Has i is → Has i (fromkeys is)
  unfolding fromkeys
  Has-fromkeys i [] member = absurd member
  Has-fromkeys i (j ∷ js) (inl same) = inl same
  Has-fromkeys i (j ∷ js) (inr later) = elim (Bool-cases (v.eqb j i)) [
    | inl e ↦ inl ((v.eqb_iff j i).0 e)
    | inr e ↦
        inr
          ((Has-keep (λ k. not (v.eqb j k)) (fromkeys js) i).1 (Has-fromkeys i js later, ap not e))
  ]

  others-shorter :
      (i : V) (is : List V)
      → (length (others i is) ≤ length is) × (Has i is → suc (length (others i is)) ≤ length is)
  others-shorter i [] = (omega arith, λ member. absurd member)
  others-shorter i (j ∷ js) = elim (Bool-cases (v.eqb i j)) [
    | inl e ↦
        rw e (
          (omega (arith, (others-shorter i js).0)),
          λ member. omega (arith, (others-shorter i js).0),
        )
    | inr e ↦ rw e (
      (omega (arith, (others-shorter i js).0)),
      λ member. elim member [
        | inl same ↦ cc (e, (v.eqb_iff i j).1 (sym same))
        | inr later ↦ omega (arith, (others-shorter i js).1 later)
      ],
    )
  ]

module _ {T V : Type 0} ⦃v : Ordered V⦄ (d : Schema T V) where
  -- The later rows have other ids than the first.
  others-All :
      (x : T) (us : List V) (xs : List T)
      → All (λ y. d.get_id x ≢ d.get_id y) xs
      → All (λ m. Has (d.get_id m) us) xs
      → All (λ m. Has (d.get_id m) (others (d.get_id x) us)) xs
  others-All x us [] other h = tt
  others-All x us (y ∷ ys) (different, other) (member, members) = (
    (Has-keep (λ j. not (v.eqb (d.get_id x) j)) us (d.get_id y)).1 (
      member,
      (elim (Bool-cases (v.eqb (d.get_id x) (d.get_id y))) [
        | inl e ↦ absurd (different ((v.eqb_iff (d.get_id x) (d.get_id y)).0 e))
        | inr e ↦ ap not e
      ]),
    ),
    others-All x us ys other members,
  )

  -- Rows of different ids are no more than the ids that they are taken from.
  length-HasDistinctIds :
      (xs : List T) (us : List V)
      → HasDistinctIds d xs
      → All (λ m. Has (d.get_id m) us) xs
      → length xs ≤ length us
  length-HasDistinctIds [] us distinct h = omega arith
  length-HasDistinctIds (x ∷ xs) us (other, distinct) (member, members) =
      (let rest =
          length-HasDistinctIds xs (others (d.get_id x) us) distinct
            (others-All x us xs other members) in
        let fewer = (others-shorter (d.get_id x) us).1 member in omega (arith, rest, fewer))

module _ {V : Type 0} ⦃v : Ordered V⦄ where
  fromkeys-Has : (j : V) (ids : List V) → Has j (fromkeys ids) → Has j ids
  unfolding fromkeys
  fromkeys-Has j [] member = absurd member
  fromkeys-Has j (i ∷ is) (inl same) = inl same
  fromkeys-Has j (i ∷ is) (inr later) =
      inr (fromkeys-Has j is ((Has-keep (λ k. not (v.eqb i k)) (fromkeys is) j).0 later).0)

module _ {V : Type 0} ⦃v : Ordered V⦄ (st : Stored V) where
  Has-is_among :
      (i : V) (ids : List V) → is_among (one (st.stored i)) (stored_ids st ids) ≡ true → Has i ids
  unfolding is_among value_eq
  Has-is_among i [] e = cc
  Has-is_among i (j ∷ js) e =
      elim (or-cases (scalar_eq (st.stored i) (st.stored j))
        (is_among (one (st.stored i)) (stored_ids st js)) e) [
          | inl f ↦ inl (sym ((v.eqb_iff i j).0 (sym (st.eq-stored i j) ∙ f)))
          | inr f ↦ inr (Has-is_among i js f)
        ]

  All-of_members :
      {T : Type 0} {P : T → Type 0} (xs : List T) → ((m : T) → Has m xs → P m) → All P xs
  All-of_members [] h = tt
  All-of_members (x ∷ xs) h = (h x (inl refl), All-of_members xs (λ m member. h m (inr member)))

module _ {T V : Type 0} ⦃v : Ordered V⦄ ⦃c : Casing⦄ ⦃i : Identifiers⦄ ⦃p : Printing⦄
    {co : Collection} {d : Schema T V} {st : Stored V} {resource : MongoResource}
    (driver : Driver co d st resource) where
  stored_ids-IsAlike :
      (j : V) (ids : List V)
      → ((k : V) → Has k ids → IsAlike (key st (some j)) (key st (some k)))
      → All (IsAlike (one (st.stored j))) (stored_ids st ids)
  stored_ids-IsAlike j [] alike = tt
  stored_ids-IsAlike j (k ∷ ks) alike =
      (alike k (inl refl), stored_ids-IsAlike j ks (λ l member. alike l (inr member)))

  -- The ids that are asked for are of the type of the documents' ids.
  abbrev pub AskTyped : List V → Type 0
  AskTyped ids =
      (m : T) (j : V) → Has j ids → IsAlike (key st (some (d.get_id m))) (key st (some j))

  -- The query of the ids.
  finds-stored_ids :
      (ids : List V) (m : T)
      → AskTyped ids
      → co.finds (field_in "_id" (stored_ids st ids)) (driver.document_of m)
        ≡ is_among (one (st.stored (d.get_id m))) (stored_ids st ids)
  finds-stored_ids ids m alike =
      (let at_id : attribute "_id" (driver.document_of m) ≡ one (st.stored (d.get_id m)) =
          driver.id-document_of m in
        co.finds-in "_id" (stored_ids st ids) (driver.document_of m) (
          subst (λ w. All (IsAlike w) (stored_ids st ids)) (sym at_id)
            (stored_ids-IsAlike (d.get_id m) ids (alike m)))
        ∙ ap (λ w. is_among w (stored_ids st ids)) at_id)

  -- Over documents of different ids, and for ids of their type, `batch_read` of the Mongo service,
  -- which fetches at most as many documents as there are different ids, is that of the list
  -- service: for each id in turn its row, or `None`.
  pub mongo_batch_read-list_batch_read :
      (documents : List T) (ids : List V)
      → HasDistinctIds d documents
      → AskTyped ids
      → Service.batch_read driver documents ids ≡ Listing.batch_read d documents ids
  unfolding Service.batch_read Listing.batch_read
  mongo_batch_read-list_batch_read documents [] distinct alike = refl
  mongo_batch_read-list_batch_read documents (i ∷ is) distinct alike =
      (let unique = fromkeys (i ∷ is) in
        let typed : AskTyped unique = λ m j member. alike m j (fromkeys-Has j (i ∷ is) member) in
        let q = some (field_in "_id" (stored_ids st unique)) in
        let whole = driver.find q [] documents in
        let fits : length whole ≤ length unique =
          length-HasDistinctIds d whole unique (driver.find-HasDistinctIds q [] documents distinct)
            (All-of_members st whole (λ m member. Has-is_among st (d.get_id m) unique (
              sym (finds-stored_ids unique m typed)
              ∙ ((driver.find-Has q [] documents m).0 member).1))) in
        let fetched : driver.to_list (length unique) q [] documents ≡ whole =
          driver.to_list_lem (length unique) q [] documents ∙ take_all (length unique) whole fits in
        ap (λ found. Listing.batch_read d found (i ∷ is)) fetched
        ∙ looked_up-alike d whole documents (i ∷ is) (
            All-of_Has d (i ∷ is) (λ j asked.
              last_with-alike d j whole documents distinct
                (λ m member. ((driver.find-Has q [] documents m).0 member).0)
                (λ m member at_j. (driver.find-Has q [] documents m).1 (
                  member,
                  finds-stored_ids unique m typed
                      ∙ is_among-stored st (d.get_id m) unique (
                          Has-fromkeys (d.get_id m) (i ∷ is)
                            (subst (λ k. Has k (i ∷ is)) (sym at_j) asked)),
                )))))
