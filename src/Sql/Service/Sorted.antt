-- ===== src/Sql/Service/Sorted.antt =====
-- Rows that the ORDER BY of resourcey/sql/sort_converter.py sorts stand in the order of
-- resourcey/list/list_service.py.
use resourcey.Prelude.{
  ◌≡◌, refl, ap, ap₂, ◌∙◌, not, ◌&&◌, ◌||◌, Option, none, some, List, [], ◌∷◌, if◌then◌else◌,
  Bool-cases, inl, inr, arith,
}
use resourcey.Service.{SortOrder}
use resourcey.Listing.{Ordered, Schema, key_precedes, id_precedes}
use resourcey.Listing.Sort.{HasDistinctIds, Strict, before}
use resourcey.Listing.Found.{IsSortedBy-Strict, Strict-IsSortedBy}
use resourcey.Sql.Service
use resourcey.Sql.Service.{
  Engine, SqlResource, Term, asc, asc_nulls_first, desc_nulls_last, order_terms, terms_for,
  terms_precede, IsSorted, all_hold, where_clause, last, apply_filters, cursor_predicate,
  page_of_found, next_cursor,
}

-- What a DTO's identifier and sort attribute give for ORDER BY.
module _ {T V : Type 0} ⦃v : Ordered V⦄ (d : Schema T V) where
  by_id : (a b : T) → terms_precede d (asc d.id_field ∷ []) a b ≡ id_precedes d a b
  by_id a b = rw (d.get-id_field a, d.get-id_field b) (ground arith)

  term_key :
      (o : SortOrder) (a b : T)
      → Service.term_precedes d
          (if o.descending
            then desc_nulls_last o.sort_attribute
            else asc_nulls_first o.sort_attribute)
          a
          b
        ≡ key_precedes d o a b
  term_key o a b = elim (Bool-cases o.descending) [ inl e ↦ rw e refl | inr e ↦ rw e refl ]

  pub terms-before :
      (s : Option SortOrder) (a b : T)
      → terms_precede d (terms_for d.id_field s) a b ≡ before d s a b
  unfolding before
  terms-before none a b = by_id a b
  terms-before (some o) a b =
      ap₂ (λ x y. x || (not y && terms_precede d (asc d.id_field ∷ []) a b)) (term_key o a b)
        (term_key o b a)
      ∙ ap (λ z. key_precedes d o a b || (not (key_precedes d o b a) && z)) (by_id a b)

  pub IsSorted-Strict :
      (s : Option SortOrder) (xs : List T)
      → HasDistinctIds d xs
      → IsSorted d (terms_for d.id_field s) xs
      → Strict (before d s) xs
  IsSorted-Strict s xs = IsSortedBy-Strict d s _ (terms-before s) xs

  -- Conversely the strict order is sorted for SQL.
  pub Strict-IsSorted :
      (s : Option SortOrder) (xs : List T)
      → Strict (before d s) xs
      → IsSorted d (terms_for d.id_field s) xs
  Strict-IsSorted s xs = Strict-IsSortedBy d s _ (terms-before s) xs
