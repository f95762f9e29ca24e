-- ===== src/Examples/Mongo.antt =====
-- The theorems on the Mongo backend at concrete filters, documents and cursors.
use resourcey.Prelude.{arith, ◌≡◌, refl, Bool, false, not, ◌==◌, ltb, some, [], ◌∷◌}
use resourcey.Prelude.Int.{pos}
use resourcey.Value.{one, int, attribute}
use resourcey.Filter.{Filter, conj, cons, nil, negate, at, eq, gt}
use resourcey.Listing
use resourcey.Listing.{after_cursor_item}
use resourcey.Listing.Sort.{HasDistinctIds}
use resourcey.Sql.Keyset.{key}
use resourcey.Mongo.{ints}
use resourcey.Mongo.Keyset.{keyset_query, keyset_query-id_descending}
use resourcey.Mongo.Service
use resourcey.Mongo.Service.Lookup.{mongo_batch_read-list_batch_read}
use resourcey.Examples.Rows.{plain}
use resourcey.Examples.Documents.{collection, tallies}
use resourcey.Examples.Driver.{scored, driver, stored_as}
use resourcey.Examples.Paged.{numbers, Entry, rows}
use resourcey.Examples.Queries.{printing}
use resourcey.Examples.Tables.{integers}

distinct_rows : HasDistinctIds scored rows
distinct_rows =
    ((λ e. omega (arith, e), (λ e. omega (arith, e), tt)), ((λ e. omega (arith, e), tt), (tt, tt)))

-- Entries after the first.
abbrev later : Filter
later = at "id" (gt (one (int (pos 1))))

-- Those of them that have another score than 4.
abbrev others : Filter
others = conj (cons later (cons (negate (at "score" (eq (one (int (pos 4)))))) nil))

abbrev is_later : Entry → Bool
is_later (i, score) = ltb 1 i

keyset_query-id_descending_example :
    collection.finds
      (keyset_query "_id"
        (key ⦃v = numbers⦄ integers (some 2))
        (key ⦃v = numbers⦄ integers (some 2))
        false)
      (stored_as (3, some 10))
    ≡ not (3 == 2)
unfolding attribute
keyset_query-id_descending_example =
    keyset_query-id_descending ⦃v = numbers⦄ ⦃c = plain⦄ collection integers
      (stored_as (3, some 10)) (some 3) 3 refl 2 (ints (pos 3) (pos 2))

mongo_batch_read-list_batch_read_example :
    Service.batch_read ⦃v = numbers⦄ ⦃c = plain⦄ ⦃i = tallies⦄ ⦃p = printing⦄ driver rows
      (2 ∷ 9 ∷ 2 ∷ [])
    ≡ Listing.batch_read scored rows (2 ∷ 9 ∷ 2 ∷ [])
mongo_batch_read-list_batch_read_example =
    mongo_batch_read-list_batch_read ⦃v = numbers⦄ ⦃c = plain⦄ ⦃i = tallies⦄ ⦃p = printing⦄ driver
      rows (2 ∷ 9 ∷ 2 ∷ []) distinct_rows (λ m j member. ints (pos m.0) (pos j))
