-- ===== src/Examples/Tables.antt =====
-- A table of entries: an identifier and a score that may be missing.
use resourcey.Prelude.{
  ℕ, ◌≡◌, ◌↔◌, refl, subst, String, Bool, true, false, Option, none, some, List, [], ◌∷◌, length,
  take, keep, Has, Has-keep, str_eq, str_eq_iff, if-cases, inl, inr, Bool-cases, ltb, ◌==◌,
}
use resourcey.Prelude.Int.{pos}
use resourcey.Value.{Value, null, int, one, Row, attribute, scalar_lt, scalar_eq}
use resourcey.Service.{SortOrder}
use resourcey.Listing.{order}
use resourcey.Listing.Sort.{HasDistinctIds, order-Strict}
use resourcey.Listing.Unique.{Has-order, order-HasDistinctIds, filtered-HasDistinctIds}
use resourcey.Sql.{Cond, Alike}
use resourcey.Sql.Keyset.{Stored, key}
use resourcey.Sql.Convert.Total.{has_column}
use resourcey.Sql.Service.{
  Engine, SqlResource, Term, asc_nulls_first, desc_nulls_last, terms_for, IsSorted, all_hold,
}
use resourcey.Sql.Service.Sorted.{Strict-IsSorted}
use resourcey.Examples.Rows.{plain}
use resourcey.Examples.Database.{database}
use resourcey.Examples.Paged.{numbers, Entry, entries}

-- The ordering that a list of terms asks for.
abbrev pub order_of : List Term → Option SortOrder
order_of (asc_nulls_first n ∷ ts) = some (record { sort_attribute = n; descending = false })
order_of (desc_nulls_last n ∷ ts) = some (record { sort_attribute = n; descending = true })
order_of ts = none

pub order_of-terms_for : (n : String) (s : Option SortOrder) → order_of (terms_for n s) ≡ s
order_of-terms_for n none = refl
order_of-terms_for n (some o) = elim (Bool-cases o.descending) [
  | inl e ↦ rw e refl
  | inr e ↦ rw e refl
]

pub lt_lem : (a b : ℕ) → scalar_lt (int (pos a)) (int (pos b)) ≡ some (ltb a b)
unfolding scalar_lt
lt_lem a b = refl

pub eq_lem : (a b : ℕ) → scalar_eq (int (pos a)) (int (pos b)) ≡ (a == b)
unfolding scalar_eq
eq_lem a b = refl

pub lt_typed :
    (a b : ℕ)
    → Alike (one (int (pos a))) (one (int (pos b)))
    → scalar_lt (int (pos a)) (int (pos b)) ≡ some (ltb a b)
lt_typed a b alike = lt_lem a b

abbrev pub integers : Stored ℕ ⦃v = numbers⦄
integers = record {
  stored = λ n. int (pos n);
  stored-IsKnown = λ n. tt;
  stored-ordered = λ n. refl;
  lt-stored = lt_typed;
  eq-stored = eq_lem;
}

abbrev pub resource : SqlResource
resource = record {
  columns = "id" ∷ "score" ∷ [];
  sortable = "score" ∷ [];
  allow_filter_iteration = false;
}

abbrev pub score_value : Option ℕ → Value
score_value none = one null
score_value (some n) = one (int (pos n))

abbrev pub row_of : Entry → Row
row_of (i, score) = ("id", one (int (pos i))) ∷ ("score", score_value score) ∷ []

pub score_key : (o : Option ℕ) → score_value o ≡ key ⦃v = numbers⦄ integers o
score_key none = refl
score_key (some n) = refl

pub sortable_row :
    (n : String) (m : Entry)
    → has_column ("score" ∷ []) n ≡ true
    → attribute n (row_of m) ≡ key ⦃v = numbers⦄ integers (entries.get n m)
unfolding attribute
sortable_row n (i, score) e = elim (if-cases (str_eq "score" n) true false e) [
  | inl (same, f) ↦
      subst
        (λ q.
          attribute q (row_of (i, score)) ≡ key ⦃v = numbers⦄ integers (entries.get q (i, score)))
        ((str_eq_iff "score" n).0 same) (score_key score)
  | inr (other, f) ↦ cc
]

pub id_row : (m : Entry) → attribute "id" (row_of m) ≡ key ⦃v = numbers⦄ integers (some m.0)
unfolding attribute
id_row (i, score) = refl

abbrev pub holding : List Cond → Entry → Bool
holding ws m = all_hold (λ k n. database.selects k (row_of n)) ws m

abbrev pub query : List Cond → List Term → List Entry → List Entry
query ws ts ms = order entries (order_of ts) (keep (holding ws) ms)

pub query-Has :
    (ws : List Cond) (ts : List Term) (ms : List Entry) (m : Entry)
    → Has m (query ws ts ms) ↔ (Has m ms × (holding ws m ≡ true))
query-Has ws ts ms m = (
  (λ h. (Has-keep (holding ws) ms m).0 ((Has-order entries (order_of ts) _ m).0 h)),
  λ h. (Has-order entries (order_of ts) _ m).1 ((Has-keep (holding ws) ms m).1 h),
)

pub query-HasDistinctIds :
    (ws : List Cond) (ts : List Term) (ms : List Entry)
    → HasDistinctIds entries ms
    → HasDistinctIds entries (query ws ts ms)
query-HasDistinctIds ws ts ms h =
    order-HasDistinctIds entries (order_of ts) _
      (filtered-HasDistinctIds entries (some (holding ws)) ms h)

pub query-IsSorted :
    (ws : List Cond) (s : Option SortOrder) (ms : List Entry)
    → HasDistinctIds entries ms
    → IsSorted entries (terms_for "id" s) (query ws (terms_for "id" s) ms)
query-IsSorted ws s ms h = rw (order_of-terms_for "id" s) (
    Strict-IsSorted entries s _
      (order-Strict entries s _ (filtered-HasDistinctIds entries (some (holding ws)) ms h)))

abbrev pub engine : Engine ⦃v = numbers⦄ ⦃c = plain⦄ database entries integers resource
engine = record {
  row_of = row_of;
  id-row_of = id_row;
  sortable-row_of = sortable_row;
  query = query;
  query-Has = query-Has;
  query-HasDistinctIds = query-HasDistinctIds;
  query-IsSorted = query-IsSorted;
  query_limited = λ n ws ts ms. take n (query ws ts ms);
  query_limited_lem = λ n ws ts ms. refl;
  count_where = λ ws ms. length (keep (holding ws) ms);
  count_where_lem = λ ws ms. refl;
}
