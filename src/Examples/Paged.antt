-- ===== src/Examples/Paged.antt =====
-- The paging theorems for three numbered rows with a score.
use resourcey.Prelude.{
  ℕ, Bool, String, true, false, Option, some, List, [], ◌∷◌, ◌≡◌, refl, arith, ltb, ◌==◌, ==_iff,
  str_eq, if◌then◌else◌,
}
use resourcey.Value.{one, uid}
use resourcey.Failure.{Result, ok}
use resourcey.Service.{SortOrder}
use resourcey.Listing.{Ordered, Schema}
use resourcey.Listing.Sort.{HasDistinctIds}

pub ltb_irrefl : (a : ℕ) → ltb a a ≡ false
ltb_irrefl a = ground arith

pub ltb_trans : (a b c : ℕ) → ltb a b ≡ true → ltb b c ≡ true → ltb a c ≡ true
ltb_trans a b c h k = ground arith

pub ltb_total : (a b : ℕ) → ltb a b ≡ false → ltb b a ≡ false → a ≡ b
ltb_total a b h k = ground arith

instance abbrev pub numbers : Ordered ℕ
numbers = record {
  lt = ltb;
  eqb = λ a b. a == b;
  eqb_iff = ==_iff;
  lt_irrefl = ltb_irrefl;
  lt_trans = ltb_trans;
  lt_total = ltb_total;
}

-- An identifier and a score that may be missing.
abbrev pub Entry : Type 0
Entry = ℕ × Option ℕ

abbrev pub entry_get : String → Entry → Option ℕ
entry_get name (i, score) = if str_eq name "id" then some i else score

abbrev pub entries : Schema Entry ℕ
entries = record {
  id_field = "id";
  get = entry_get;
  get_id = λ m. m.0;
  reported = λ i. one (uid i);
  get-id_field = λ m. refl;
}

abbrev pub rows : List Entry
rows = (3, some 10) ∷ (1, some 20) ∷ (2, some 10) ∷ []

abbrev pub score_order : SortOrder
score_order = record { sort_attribute = "score"; descending = false }

abbrev pub by_score : Option SortOrder
by_score = some score_order

pub rows_distinct : HasDistinctIds entries rows
rows_distinct =
    ((λ e. omega (arith, e), (λ e. omega (arith, e), tt)), ((λ e. omega (arith, e), tt), (tt, tt)))

abbrev accepts : Entry → Bool
accepts (i, score) = ltb 1 i

abbrev over_one : Entry → Result Bool
over_one m = ok (accepts m)
