-- ===== src/Mongo/Service/Filtered.antt =====
-- The queries that resourcey/mongo/mongo_service.py makes of filters, and the documents they count.
use resourcey.Prelude.{
  and_true, ◌≡◌, refl, sym, ap, ◌∙◌, subst, Bool, true, false, ◌&&◌, Option, none, some, List,
  length,
}
use resourcey.Failure.{Result, ok, ok-injective}
use resourcey.Filter.{Filter, Casing, matches, row}
use resourcey.Listing
use resourcey.Listing.{
  Ordered, Schema, Codec, Cursor, ListPage, attribute_of, is_ascending, same_field, same_flag,
  order, filtered, after_cursor, decode_for, page_of, follows, key_precedes, id_precedes, cursor_at,
}
use mathlib.Core.Option
use resourcey.Listing.Surviving.{Answers, All-items, surviving-filtered}
use resourcey.Listing.Found.{accepted, keep-filtered}
use resourcey.Sql.Convert.{Printing}
use resourcey.Sql.Convert.Total.{is_bound, Outcome}
use resourcey.Sql.Keyset.{Stored}
use resourcey.Mongo.{Query, end, Collection, holds}
use resourcey.Mongo.Convert.{Identifiers, condition}
use resourcey.Mongo.Convert.Meaning.{attributes, condition-Outcome}
use resourcey.Mongo.Convert.Sound.{Fits, Stores, query-matches}
use resourcey.Mongo.Service
use resourcey.Mongo.Service.{
  Driver, MongoResource, mongo_field_for, fields_for, sort_field_for, sort_spec, Direction, up,
  down, SortSpec, spec_precedes, entry_precedes, NamesOnce, ending_by_id, merge_query, Pushed,
  pushed, filter_query, cursor_predicate, next_cursor, page_of_query,
}

module _ {T V : Type 0} ⦃v : Ordered V⦄ ⦃c : Casing⦄ ⦃i : Identifiers⦄ ⦃p : Printing⦄
    {co : Collection} {d : Schema T V} {st : Stored V} {resource : MongoResource}
    (driver : Driver co d st resource) where
  pub holds-merge_query :
      (base extra : Option Query) (m : T)
      → holds co (merge_query base extra) (driver.document_of m)
        ≡ holds co base (driver.document_of m) && holds co extra (driver.document_of m)
  unfolding merge_query
  holds-merge_query none extra m = refl
  holds-merge_query (some q) none m = sym (and_true (co.finds q (driver.document_of m)))
  holds-merge_query (some q) (some q') m =
      co.finds-all q q' end (driver.document_of m)
      ∙ ap (λ b. co.finds q (driver.document_of m) && b)
          (co.finds-all_one q' (driver.document_of m))

  -- A filter that converts and does not raise on a document, with the test that it is.
  abbrev pub Describes : Option Filter → Option (T → Bool) → Type 0
  Describes none none = Unit
  Describes (some f) (some test) =
      (is_bound (attributes (fields_for d.id_field resource.queryable)) false f ≡ true)
      × ((m : T)
          → Fits none (driver.dto_of m) f × (matches f (row (driver.dto_of m)) ≡ ok (test m)))
  Describes _ _ = ⊥

  -- The documents store the attributes that they are queried by.
  abbrev pub StoresAll : Type 0
  StoresAll =
      (m : T)
      → Stores co (fields_for d.id_field resource.queryable) (driver.dto_of m)
          (driver.document_of m)

  -- What the list service evaluates on the DTOs.
  abbrev pub in_memory : Option Filter → Option (T → Result Bool)
  in_memory filter = Option.map (λ f m. matches f (row (driver.dto_of m))) filter

  pub Describes-Answers :
      (filter : Option Filter) (test : Option (T → Bool)) (documents : List T)
      → Describes filter test
      → Answers (in_memory filter) test documents
  Describes-Answers none none documents h = tt
  Describes-Answers none (some test) documents h = absurd h
  Describes-Answers (some f) none documents h = absurd h
  Describes-Answers (some f) (some test) documents (named, h) = All-items documents (λ m. (h m).1)

  filter_query-some :
      (f : Filter) (q : Option Query)
      → condition (fields_for d.id_field resource.queryable) none false f ≡ ok q
      → filter_query driver (some f) ≡ ok (pushed q)
  unfolding filter_query
  filter_query-some f q e = rw (e, filter_query) refl

  pub filter_query-Describes :
      (filter : Option Filter) (test : Option (T → Bool))
      → StoresAll
      → Describes filter test
      → (q : Option Query) × (filter_query driver filter ≡ ok (pushed q))
        × ((m : T) → holds co q (driver.document_of m) ≡ accepted test m)
  unfolding filter_query
  filter_query-Describes none none stores h = (none, refl, λ m. refl)
  filter_query-Describes none (some test) stores h = absurd h
  filter_query-Describes (some f) none stores h = absurd h
  filter_query-Describes (some f) (some test) stores (named, h) =
      (let fs = fields_for d.id_field resource.queryable in
        let (q, e) : Outcome true (condition fs none false f) =
          subst (λ x. Outcome x (condition fs none false f)) named (condition-Outcome fs false f) in
        (
          q,
          filter_query-some f q e,
          λ m.
              (let (k, k', e', e'', yes', no') =
                  query-matches co fs (driver.dto_of m) (driver.document_of m) f (test m) named
                    (stores m) (h m).0 (h m).1 in
                ap (λ x. holds co x (driver.document_of m)) (ok-injective (sym e ∙ e')) ∙ yes'),
        ))

  -- For a filter that names queryable fields only, fits them and does not raise on a document,
  -- `count` of the Mongo service is that of the list service on the same DTOs.
  pub mongo_count-list_count :
      (documents : List T) (filter : Option Filter) (test : Option (T → Bool))
      → StoresAll
      → Describes filter test
      → Service.count driver documents filter ≡ Listing.count d documents (in_memory filter)
  unfolding Service.count Listing.count
  mongo_count-list_count documents filter test stores described =
      (let (q, converted, keeps) = filter_query-Describes filter test stores described in
        rw
          (
            converted,
            surviving-filtered (in_memory filter) test documents
                (Describes-Answers filter test documents described),
          )
          (ap ok (
            driver.count_documents_lem q documents
            ∙ ap length
                (keep-filtered test documents (λ m. holds co q (driver.document_of m)) keeps))))
