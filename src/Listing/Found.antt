-- ===== src/Listing/Found.antt =====
-- What a backend returns for a search, against resourcey/list/list_service.py: rows in the same order,
-- of which the filter and the cursor choose the same, are the list service's, and so is the page that
-- is cut from one row more than its limit.
use resourcey.Prelude.{
  ℕ, zero, suc, ◌+◌, ◌≡◌, ◌≢◌, ◌↔◌, refl, sym, ap, ap₂, ◌∙◌, String, Bool, true, false, ◌&&◌,
  Option, none, some, List, [], ◌∷◌, length, take, last, ltb, keep, Has, Has-keep, All,
  if◌then◌else◌, Bool-cases, inl, inr, arith,
}
use resourcey.Service.{SortOrder}
use resourcey.Listing.{
  Ordered, Schema, Codec, ListPage, cursor_at, order, filtered, last_cursor, page_of, id_precedes,
}
use resourcey.Listing.Sort.{
  HasDistinctIds, Strict, before, before_trans, before_irrefl, order-Strict,
}
use resourcey.Listing.Unique.{Strict-unique, Strict-keep, filtered-HasDistinctIds, Has-order}

and_first : (a b : Bool) → a && b ≡ true → a ≡ true
and_first true b e = refl
and_first false b e = cc

and_second : (a : Bool) {b : Bool} → a && b ≡ true → b ≡ true
and_second true e = e
and_second false e = cc

pub add_one : (n : ℕ) → n + 1 ≡ suc n
add_one n = omega arith

-- A page that is cut from one row more than its limit.
take-take : {T : Type 0} (n : ℕ) (xs : List T) → take n (take (suc n) xs) ≡ take n xs
take-take zero xs = refl
take-take (suc n) [] = refl
take-take (suc n) (x ∷ xs) = ap (λ ys. x ∷ ys) (take-take n xs)

length-take-more :
    {T : Type 0} (n : ℕ) (xs : List T) → ltb n (length (take (suc n) xs)) ≡ ltb n (length xs)
length-take-more zero [] = refl
length-take-more zero (x ∷ xs) = ground arith
length-take-more (suc n) [] = refl
length-take-more (suc n) (x ∷ xs) = grind (arith, length-take-more n xs)

-- No row stands before an earlier one.
abbrev pub IsSortedBy : {T : Type 0} → (T → T → Bool) → List T → Type 0
IsSortedBy precedes [] = Unit
IsSortedBy precedes (x ∷ xs) = All (λ y. precedes y x ≡ false) xs × IsSortedBy precedes xs

-- Whether an optional filter accepts a row.
abbrev pub accepted : {T : Type 0} → Option (T → Bool) → T → Bool
accepted none m = true
accepted (some test) m = test m

module _ {T : Type 0} where
  Has-filtered :
      (test : Option (T → Bool)) (rows : List T) (m : T)
      → Has m (filtered test rows) ↔ (Has m rows × (accepted test m ≡ true))
  Has-filtered none rows m = ((λ h. (h, refl)), λ h. h.0)
  Has-filtered (some test) rows m = Has-keep test rows m

  pub keep_all : (xs : List T) → keep (λ m. true) xs ≡ xs
  keep_all [] = refl
  keep_all (x ∷ xs) = ap (λ ys. x ∷ ys) (keep_all xs)

  pub keep-filtered :
      (test : Option (T → Bool)) (rows : List T) (kept : T → Bool)
      → ((m : T) → kept m ≡ accepted test m)
      → keep kept rows ≡ filtered test rows
  keep-filtered none [] kept agree = refl
  keep-filtered none (x ∷ xs) kept agree =
      rw (agree x) (ap (λ ys. x ∷ ys) (keep-filtered none xs kept agree))
  keep-filtered (some test) [] kept agree = refl
  keep-filtered (some test) (x ∷ xs) kept agree =
      ap₂ (λ b ys. if b then x ∷ ys else ys) (agree x) (keep-filtered (some test) xs kept agree)

module _ {T V : Type 0} ⦃v : Ordered V⦄ (d : Schema T V) where
  id_total :
      (a b : T) → d.get_id a ≢ d.get_id b → id_precedes d b a ≡ false → id_precedes d a b ≡ true
  id_total a b other h = elim (Bool-cases (id_precedes d a b)) [
    | inl e ↦ e
    | inr e ↦ absurd (other (v.lt_total _ _ e h))
  ]

  before_total :
      (s : Option SortOrder) (a b : T)
      → d.get_id a ≢ d.get_id b
      → before d s b a ≡ false
      → before d s a b ≡ true
  unfolding before
  before_total none a b other h = id_total a b other h
  before_total (some o) a b other h = elim (Bool-cases (id_precedes d b a)) [
    | inl e ↦ ground (arith, e, h)
    | inr e ↦ (let f = id_total a b other e in ground (arith, e, f, h))
  ]

  module _ (s : Option SortOrder) (precedes : T → T → Bool)
      (agree : (a b : T) → precedes a b ≡ before d s a b) where
    sorted_after :
        (x : T) (xs : List T)
        → All (λ y. d.get_id x ≢ d.get_id y) xs
        → All (λ y. precedes y x ≡ false) xs
        → All (λ y. before d s x y ≡ true) xs
    sorted_after x [] other h = tt
    sorted_after x (y ∷ ys) (other, others) (h, hs) =
        (before_total s x y other (sym (agree y x) ∙ h), sorted_after x ys others hs)

    -- Rows of different ids that a backend sorted stand in the list service's strict order.
    pub IsSortedBy-Strict :
        (xs : List T) → HasDistinctIds d xs → IsSortedBy precedes xs → Strict (before d s) xs
    IsSortedBy-Strict [] distinct h = tt
    IsSortedBy-Strict (x ∷ xs) (other, distinct) (h, hs) =
        (sorted_after x xs other h, IsSortedBy-Strict xs distinct hs)

    before_asym : (a b : T) → before d s a b ≡ true → before d s b a ≡ false
    before_asym a b h = elim (Bool-cases (before d s b a)) [
      | inl e ↦ cc (before_trans d s a b a h e, before_irrefl d s a)
      | inr e ↦ e
    ]

    none_before :
        (x : T) (xs : List T)
        → All (λ y. before d s x y ≡ true) xs
        → All (λ y. precedes y x ≡ false) xs
    none_before x [] h = tt
    none_before x (y ∷ ys) (h, hs) = (agree y x ∙ before_asym x y h, none_before x ys hs)

    pub Strict-IsSortedBy : (xs : List T) → Strict (before d s) xs → IsSortedBy precedes xs
    Strict-IsSortedBy [] h = tt
    Strict-IsSortedBy (x ∷ xs) (h, hs) = (none_before x xs h, Strict-IsSortedBy xs hs)

  -- Rows in the strict order, chosen by the filter and the cursor, are those the list service keeps.
  pub found-order :
      (s : Option SortOrder) (rows : List T) (test : Option (T → Bool)) (after : T → Bool)
      → HasDistinctIds d rows
      → (found : List T) → Strict (before d s) found
      → (selects : T → Bool) → ((m : T) → selects m ≡ accepted test m && after m)
      → ((m : T) → Has m found ↔ (Has m rows × (selects m ≡ true)))
      → found ≡ keep after (order d s (filtered test rows))
  found-order s rows test after distinct found strict selects agree members =
      Strict-unique (before d s) (before_irrefl d s) (before_trans d s) _ _ strict
        (Strict-keep (before d s) (before_irrefl d s) (before_trans d s) after _
          (order-Strict d s (filtered test rows) (filtered-HasDistinctIds d test rows distinct)))
        (λ m. (
          (λ h.
              (let (there, chosen) = (members m).0 h in
                let both = sym (agree m) ∙ chosen in
                (Has-keep after (order d s (filtered test rows)) m).1 (
                  (Has-order d s (filtered test rows) m).1
                      ((Has-filtered test rows m).1 (there, and_first (accepted test m) _ both)),
                  and_second (accepted test m) both,
                ))),
          λ h.
              (let (ordered, follows') = (Has-keep after (order d s (filtered test rows)) m).0 h in
                let (there, chosen) =
                  (Has-filtered test rows m).0 ((Has-order d s (filtered test rows) m).0 ordered) in
                (members m).1 (there, agree m ∙ ap₂ ◌&&◌ chosen follows')),
        ))

  -- The page of a backend: what it found, cut to the limit, with the cursor of its last row.
  module _ (codec : Codec V) where
    abbrev pub cursor_after : Option SortOrder → Option T → Option String
    cursor_after s none = none
    cursor_after s (some m) = some (codec.encode (cursor_at d s m))

    abbrev pub cut_page : Option SortOrder → ℕ → List T → ListPage T
    cut_page s limit found = record {
      items = take limit found;
      limit = limit;
      next_cursor =
          if ltb limit (length found) then cursor_after s (last (take limit found)) else none;
    }

    cursor_after-last :
        (s : Option SortOrder) (ms : List T) → cursor_after s (last ms) ≡ last_cursor d codec s ms
    unfolding last_cursor
    cursor_after-last s [] = refl
    cursor_after-last s (m ∷ []) = refl
    cursor_after-last s (m ∷ n ∷ ms) = cursor_after-last s (n ∷ ms)

    pub cut_page-page_of :
        (s : Option SortOrder) (limit : ℕ) (found : List T)
        → cut_page s limit (take (suc limit) found) ≡ page_of d codec s limit found
    unfolding page_of
    cut_page-page_of s limit found =
        rw
          (
            take-take limit found,
            length-take-more limit found,
            cursor_after-last s (take limit found),
          )
          refl
