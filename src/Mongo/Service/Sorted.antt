-- ===== src/Mongo/Service/Sorted.antt =====
-- The orders that resourcey/mongo/mongo_sort_converter.py asks for, against those of
-- resourcey/list/list_service.py.
use resourcey.Prelude.{
  ◌≡◌, refl, ap, ap₂, ◌∙◌, subst, String, Bool, true, false, not, ◌&&◌, ◌||◌, Option, none, some,
  List, [], ◌∷◌, if◌then◌else◌, str_eq, str_eq_iff, Bool-cases, inl, inr, arith,
}
use resourcey.Failure.{ok}
use resourcey.Service.{SortOrder}
use resourcey.Filter.{Casing}
use resourcey.Listing.{Ordered, Schema, same_flag, key_precedes, id_precedes}
use resourcey.Listing.Sort.{before}
use resourcey.Sql.Convert.{Printing}
use resourcey.Sql.Convert.Total.{has_column}
use resourcey.Sql.Keyset.{Stored}
use resourcey.Mongo.{Collection}
use resourcey.Mongo.Convert.{Identifiers}
use resourcey.Mongo.Service.{
  Driver, MongoResource, mongo_field_for, fields_for, sort_field_for, sort_spec, Direction, up,
  down, SortSpec, spec_precedes, entry_precedes, NamesOnce, ending_by_id,
}

pub second_held : (a b : Bool) → not a || not b ≡ false → b ≡ true
second_held a true e = refl
second_held true false e = cc
second_held false false e = cc

pub same_flag-true : (b : Bool) → same_flag b true ≡ true → b ≡ true
same_flag-true true e = refl
same_flag-true false e = cc

mongo_field_for-id : (n : String) → mongo_field_for n n ≡ "_id"
unfolding mongo_field_for
mongo_field_for-id n = rw ((str_eq_iff n n).1 refl) refl

sort_field_for-sortable :
    (id_field : String) (ns : List String) (n : String)
    → has_column ns n ≡ true
    → sort_field_for (fields_for id_field ns) n ≡ ok (mongo_field_for id_field n)
unfolding sort_field_for fields_for
sort_field_for-sortable id_field [] n e = cc
sort_field_for-sortable id_field (q ∷ qs) n e = elim (Bool-cases (str_eq q n)) [
  | inl f ↦ rw f (ap (λ x. ok (mongo_field_for id_field x)) ((str_eq_iff q n).0 f))
  | inr f ↦ rw f (
      sort_field_for-sortable id_field qs n
        (subst (λ b. (if b then true else has_column qs n) ≡ true) f e))
]

module _ {T V : Type 0} ⦃v : Ordered V⦄ ⦃c : Casing⦄ ⦃i : Identifiers⦄ ⦃p : Printing⦄
    {co : Collection} {d : Schema T V} {st : Stored V} {resource : MongoResource}
    (driver : Driver co d st resource) where
  -- The sort that is asked for is by sortable fields, of which the id is one, and not by the id.
  abbrev pub IsSortable : Option SortOrder → Type 0
  IsSortable none = Unit
  IsSortable (some o) =
      (has_column resource.sortable o.sort_attribute ≡ true)
      × (has_column resource.sortable d.id_field ≡ true)
      × (str_eq (mongo_field_for d.id_field o.sort_attribute) "_id" ≡ false)

  -- The specification of a sort.
  abbrev pub first_entry : Option SortOrder → Option (String × Direction)
  first_entry none = none
  first_entry (some o) =
      some (mongo_field_for d.id_field o.sort_attribute, if o.descending then down else up)

  abbrev pub spec_for : Option SortOrder → SortSpec
  spec_for s = ending_by_id (first_entry s)

  pub sort_spec-IsSortable :
      (s : Option SortOrder)
      → IsSortable s
      → sort_spec d.id_field resource.sortable s ≡ ok (spec_for s)
  unfolding sort_spec
  sort_spec-IsSortable none sortable = refl
  sort_spec-IsSortable (some o) (named, id_named, other) =
      rw
        (
          sort_field_for-sortable d.id_field resource.sortable o.sort_attribute named,
          sort_field_for-sortable d.id_field resource.sortable d.id_field id_named,
          mongo_field_for-id d.id_field,
        )
        refl

  pub spec_for-NamesOnce : (s : Option SortOrder) → IsSortable s → NamesOnce (spec_for s)
  spec_for-NamesOnce none sortable = (tt, tt)
  spec_for-NamesOnce (some o) (named, id_named, other) = ((other, tt), (tt, tt))

  -- The ids are stored as the DTOs have them.
  abbrev pub KeepsIds : Type 0
  KeepsIds = (m : T) → driver.raw_id m ≡ d.get_id m

  by_id :
      KeepsIds
      → (a b : T) → spec_precedes driver.field_key (("_id", up) ∷ []) a b ≡ id_precedes d a b
  by_id kept a b = rw (driver.field_key-id a, driver.field_key-id b, kept a, kept b) (ground arith)

  by_key :
      (o : SortOrder) (a b : T)
      → has_column resource.sortable o.sort_attribute ≡ true
      → entry_precedes driver.field_key
          (mongo_field_for d.id_field o.sort_attribute, if o.descending then down else up)
          a
          b
        ≡ key_precedes d o a b
  by_key o a b named = elim (Bool-cases o.descending) [
    | inl e ↦
        rw
          (
            e,
            driver.field_key-sortable o.sort_attribute a named,
            driver.field_key-sortable o.sort_attribute b named,
          )
          refl
    | inr e ↦
        rw
          (
            e,
            driver.field_key-sortable o.sort_attribute a named,
            driver.field_key-sortable o.sort_attribute b named,
          )
          refl
  ]

  -- Mongo's order is the list service's.
  pub spec-before :
      (s : Option SortOrder)
      → IsSortable s
      → KeepsIds
      → (a b : T) → spec_precedes driver.field_key (spec_for s) a b ≡ before d s a b
  unfolding before
  spec-before none sortable kept a b = by_id kept a b
  spec-before (some o) (named, id_named, other) kept a b =
      ap₂ (λ x y. x || (not y && spec_precedes driver.field_key (("_id", up) ∷ []) a b))
        (by_key o a b named) (by_key o b a named)
      ∙ ap (λ z. key_precedes d o a b || (not (key_precedes d o b a) && z)) (by_id kept a b)
