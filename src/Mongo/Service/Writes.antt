-- ===== src/Mongo/Service/Writes.antt =====
-- The query of a conditional write (`_write_query` of resourcey/mongo/mongo_service.py).
use resourcey.Prelude.{◌≡◌, refl, subst, false, none, some, Bool-cases, inl, inr}
use resourcey.Failure.{err, unsupported_filter}
use resourcey.Filter.{Filter, Casing}
use resourcey.Listing.{Ordered, Schema}
use resourcey.Sql.Convert.{Printing}
use resourcey.Sql.Convert.Total.{is_bound, Outcome}
use resourcey.Sql.Keyset.{Stored}
use resourcey.Mongo.{Collection}
use resourcey.Mongo.Convert.{Identifiers, condition}
use resourcey.Mongo.Convert.Meaning.{attributes, condition-Outcome}
use resourcey.Mongo.Service.{
  Driver, MongoResource, fields_for, filter_query, condition_query, write_query,
}

module _ {T V : Type 0} ⦃v : Ordered V⦄ ⦃c : Casing⦄ ⦃i : Identifiers⦄ ⦃p : Printing⦄
    {co : Collection} {d : Schema T V} {st : Stored V} {resource : MongoResource}
    (driver : Driver co d st resource) where
  -- A condition whose attributes cannot be named makes a conditional write raise before it queries.
  pub write_query-unconvertible :
      (id : V) (f : Filter)
      → is_bound (attributes (fields_for d.id_field resource.queryable)) false f ≡ false
      → write_query driver id (some f) ≡ err unsupported_filter
  unfolding write_query
  write_query-unconvertible id f unnamed =
      (let fs = fields_for d.id_field resource.queryable in
        let e : condition fs none false f ≡ err unsupported_filter =
          subst (λ x. Outcome x (condition fs none false f)) unnamed
            (condition-Outcome fs false f) in
        elim (Bool-cases resource.allow_filter_iteration) [
          | inl allowed ↦ rw (write_query, condition_query, filter_query, e, allowed) refl
          | inr refused ↦ rw (write_query, condition_query, filter_query, e, refused) refl
        ])
