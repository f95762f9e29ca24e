-- ===== src/Examples/Driver.antt =====
-- A Mongo collection of entries: an identifier and a score that may be missing.
use resourcey.Prelude.{
  ℕ, ◌≡◌, ◌↔◌, ◌∙◌, refl, sym, ap, subst, String, Bool, true, false, not, ◌&&◌, ◌||◌, Option, none,
  some, List, [], ◌∷◌, length, take, keep, Has, Has-keep, str_eq, str_eq_iff, if-cases, Bool-cases,
  inl, inr, if◌then◌else◌, arith,
}
use resourcey.Prelude.Int.{pos}
use resourcey.Value.{int, one, Row, attribute}
use resourcey.Service.{SortOrder}
use resourcey.Listing.{Schema, key_lt, order, id_precedes}
use resourcey.Listing.Sort.{HasDistinctIds, order-Strict, before}
use resourcey.Listing.Found.{IsSortedBy, Strict-IsSortedBy}
use resourcey.Listing.Unique.{Has-order, order-HasDistinctIds, filtered-HasDistinctIds}
use resourcey.Sql.Convert.Total.{has_column}
use resourcey.Sql.Keyset.{key}
use resourcey.Mongo.{Query, holds}
use resourcey.Mongo.Convert.{encode, field_for}
use resourcey.Mongo.Service.Filtered.{StoresAll}
use resourcey.Failure.{ok, ok-injective}
use resourcey.Examples.Queries.{printing}
use resourcey.Mongo.Service.{
  Driver, MongoResource, mongo_field_for, fields_for, Direction, up, down, SortSpec, spec_precedes,
  NamesOnce, ending_by_id,
}
use resourcey.Examples.Rows.{plain}
use resourcey.Examples.Paged.{numbers, Entry}
use resourcey.Examples.Tables.{integers, score_value, score_key}
use resourcey.Examples.Documents.{tallies, collection}

-- The entries under their names, and the documents that store them.
abbrev pub named : String → Entry → Option ℕ
named name (i, score) =
    if str_eq name "id" then some i else if str_eq name "score" then score else none

abbrev pub scored : Schema Entry ℕ
scored = record {
  id_field = "id";
  get = named;
  get_id = λ m. m.0;
  reported = λ i. one (int (pos i));
  get-id_field = λ m. refl;
}

abbrev pub stored_key : String → Entry → Option ℕ
stored_key f (i, score) =
    if str_eq "_id" f then some i else if str_eq "score" f then score else none

abbrev pub stored_as : Entry → Row
stored_as (i, score) = ("_id", one (int (pos i))) ∷ ("score", score_value score) ∷ []

abbrev pub dto : Entry → Row
dto (i, score) = ("id", one (int (pos i))) ∷ ("score", score_value score) ∷ []

pub stored_as-key :
    (f : String) (m : Entry)
    → attribute f (stored_as m) ≡ key ⦃v = numbers⦄ integers (stored_key f m)
unfolding attribute
stored_as-key f (i, score) = elim (Bool-cases (str_eq "_id" f)) [
  | inl e ↦ rw e refl
  | inr e ↦ elim (Bool-cases (str_eq "score" f)) [
    | inl g ↦ rw (e, g) (score_key score)
    | inr g ↦ rw (e, g) refl
  ]
]

abbrev pub collected : MongoResource
collected = record {
  queryable = "id" ∷ "score" ∷ [];
  sortable = "score" ∷ "id" ∷ [];
  allow_filter_iteration = true;
}

pub stored_key-sortable :
    (n : String) (m : Entry)
    → has_column ("score" ∷ "id" ∷ []) n ≡ true
    → stored_key (mongo_field_for "id" n) m ≡ named n m
unfolding mongo_field_for
stored_key-sortable n (i, score) e = elim (if-cases (str_eq "score" n) true _ e) [
  | inl (same, f) ↦
      subst (λ q. stored_key (mongo_field_for "id" q) (i, score) ≡ named q (i, score))
        ((str_eq_iff "score" n).0 same) refl
  | inr (other, f) ↦ elim (if-cases (str_eq "id" n) true false f) [
    | inl (same, g) ↦
        subst (λ q. stored_key (mongo_field_for "id" q) (i, score) ≡ named q (i, score))
          ((str_eq_iff "id" n).0 same) refl
    | inr (other', g) ↦ cc
  ]
]

-- The order that a specification asks for: by the score, or by the id.
abbrev pub order_by : SortSpec → Option SortOrder
order_by ((f, dir) ∷ ts) =
    if str_eq "score" f
    then some
        (record { sort_attribute = "score"; descending = elim dir [ up ↦ false | down ↦ true ] })
    else none
order_by [] = none

id_spec :
    (a b : Entry)
    → spec_precedes ⦃v = numbers⦄ stored_key (("_id", up) ∷ []) a b ≡ id_precedes scored a b
id_spec a b = ground arith

score_spec :
    (dir : Direction) (a b : Entry)
    → spec_precedes ⦃v = numbers⦄ stored_key (("score", dir) ∷ ("_id", up) ∷ []) a b
      ≡ before scored (order_by (("score", dir) ∷ ("_id", up) ∷ [])) a b
unfolding before
score_spec up a b = ap (λ z. key_lt a.1 b.1 || (not (key_lt b.1 a.1) && z)) (id_spec a b)
score_spec down a b = ap (λ z. key_lt b.1 a.1 || (not (key_lt a.1 b.1) && z)) (id_spec a b)

unstored :
    (f : String) (m : Entry)
    → str_eq "_id" f ≡ false
    → str_eq "score" f ≡ false
    → stored_key f m ≡ none
unstored f (i, score) e g = rw (e, g) refl

other_spec :
    (f : String) (dir : Direction) (a b : Entry)
    → str_eq "_id" f ≡ false
    → str_eq "score" f ≡ false
    → spec_precedes ⦃v = numbers⦄ stored_key ((f, dir) ∷ ("_id", up) ∷ []) a b
      ≡ id_precedes scored a b
other_spec f up a b e g = rw (unstored f a e g, unstored f b e g) (id_spec a b)
other_spec f down a b e g = rw (unstored f a e g, unstored f b e g) (id_spec a b)

apart : (f : String) → str_eq f "_id" ≡ false → str_eq "_id" f ≡ false
apart f e = elim (Bool-cases (str_eq "_id" f)) [
  | inl g ↦ cc (e, (str_eq_iff f "_id").1 (sym ((str_eq_iff "_id" f).0 g)))
  | inr g ↦ g
]

pub spec-before :
    (first : Option (String × Direction))
    → NamesOnce (ending_by_id first)
    → (a b : Entry)
    → spec_precedes ⦃v = numbers⦄ stored_key (ending_by_id first) a b
      ≡ before scored (order_by (ending_by_id first)) a b
unfolding before
spec-before none once a b = id_spec a b
spec-before (some (f, dir)) ((e, tt), once) a b = elim (Bool-cases (str_eq "score" f)) [
  | inl g ↦
      subst
        (λ q.
          spec_precedes ⦃v = numbers⦄ stored_key ((q, dir) ∷ ("_id", up) ∷ []) a b
          ≡ before scored (order_by ((q, dir) ∷ ("_id", up) ∷ [])) a b)
        ((str_eq_iff "score" f).0 g) (score_spec dir a b)
  | inr g ↦ rw g (other_spec f dir a b (apart f e) g)
]

abbrev pub matching : Option Query → Entry → Bool
matching q m = holds collection q (stored_as m)

abbrev pub find : Option Query → SortSpec → List Entry → List Entry
find q ts ms = order scored (order_by ts) (keep (matching q) ms)

pub find-Has :
    (q : Option Query) (ts : SortSpec) (ms : List Entry) (m : Entry)
    → Has m (find q ts ms) ↔ (Has m ms × (matching q m ≡ true))
find-Has q ts ms m = (
  (λ h. (Has-keep (matching q) ms m).0 ((Has-order scored (order_by ts) _ m).0 h)),
  λ h. (Has-order scored (order_by ts) _ m).1 ((Has-keep (matching q) ms m).1 h),
)

pub find-HasDistinctIds :
    (q : Option Query) (ts : SortSpec) (ms : List Entry)
    → HasDistinctIds scored ms
    → HasDistinctIds scored (find q ts ms)
find-HasDistinctIds q ts ms h =
    order-HasDistinctIds scored (order_by ts) _
      (filtered-HasDistinctIds scored (some (matching q)) ms h)

pub find-IsSorted :
    (q : Option Query) (first : Option (String × Direction)) (ms : List Entry)
    → HasDistinctIds scored ms
    → NamesOnce (ending_by_id first)
    → IsSortedBy
        (spec_precedes ⦃v = numbers⦄ stored_key (ending_by_id first))
        (find q (ending_by_id first) ms)
find-IsSorted q first ms distinct once =
    Strict-IsSortedBy scored (order_by (ending_by_id first)) _ (spec-before first once) _ (
      order-Strict scored (order_by (ending_by_id first)) _
        (filtered-HasDistinctIds scored (some (matching q)) ms distinct))

pub stored_sortable :
    (n : String) (m : Entry)
    → has_column ("score" ∷ "id" ∷ []) n ≡ true
    → attribute (mongo_field_for "id" n) (stored_as m) ≡ key ⦃v = numbers⦄ integers (named n m)
stored_sortable n m e =
    stored_as-key (mongo_field_for "id" n) m
    ∙ ap (key ⦃v = numbers⦄ integers) (stored_key-sortable n m e)

abbrev pub driver : Driver ⦃v = numbers⦄ ⦃c = plain⦄ collection scored integers collected
driver = record {
  dto_of = dto;
  document_of = stored_as;
  field_key = stored_key;
  id-document_of = λ m. stored_as-key "_id" m;
  sortable-document_of = stored_sortable;
  raw_id = λ m. m.0;
  field_key-id = λ m. refl;
  field_key-sortable = stored_key-sortable;
  find = find;
  find-Has = find-Has;
  find-HasDistinctIds = find-HasDistinctIds;
  find-IsSorted = find-IsSorted;
  to_list = λ n q ts ms. take n (find q ts ms);
  to_list_lem = λ n q ts ms. refl;
  count_documents = λ q ms. length (keep (matching q) ms);
  count_documents_lem = λ q ms. refl;
}

stored_score : (o : Option ℕ) → score_value o ≡ encode ⦃i = tallies⦄ (score_value o)
unfolding encode
stored_score none = refl
stored_score (some n) = refl

pub driver-Stores : StoresAll ⦃v = numbers⦄ ⦃c = plain⦄ ⦃i = tallies⦄ ⦃p = printing⦄ driver
unfolding field_for fields_for mongo_field_for attribute encode
driver-Stores (i, score) n m e = elim (if-cases (str_eq "id" n) (ok "_id") _ e) [
  | inl (same, f) ↦
      subst
        (λ q.
          attribute q (stored_as (i, score)) ≡ encode ⦃i = tallies⦄ (attribute n (dto (i, score))))
        (ok-injective f)
        (subst (λ q. one (int (pos i)) ≡ encode ⦃i = tallies⦄ (attribute q (dto (i, score))))
          ((str_eq_iff "id" n).0 same) refl)
  | inr (other, f) ↦ elim (if-cases (str_eq "score" n) (ok "score") _ f) [
    | inl (same, g) ↦
        subst
          (λ q.
            attribute q (stored_as (i, score))
            ≡ encode ⦃i = tallies⦄ (attribute n (dto (i, score))))
          (ok-injective g)
          (subst (λ q. score_value score ≡ encode ⦃i = tallies⦄ (attribute q (dto (i, score))))
            ((str_eq_iff "score" n).0 same) (stored_score score))
    | inr (other', g) ↦ cc
  ]
]
