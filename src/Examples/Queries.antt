-- ===== src/Examples/Queries.antt =====
-- The theorems on the SQL backend at concrete filters, rows and cursors.
use resourcey.Prelude.{◌≡◌, refl, Bool, true, false, not, none, List, [], ◌∷◌, ltb, String}
use resourcey.Prelude.Int.{pos}
use resourcey.Value.{one, text, uid, int, scalar_eq, value_eq, attribute}
use resourcey.Text.{occurs_in, has_prefix}
use resourcey.Failure.{ok}
use resourcey.Filter.{Filter, conj, cons, nil, negate, at, eq, gt, contains, matches, mem_contains}
use resourcey.Listing
use resourcey.Listing.{after_cursor_item}
use resourcey.Sql.{Cond}
use resourcey.Sql.Convert.{Printing, condition}
use resourcey.Sql.Convert.Total.{Converts, is_bound, is_ordered, condition-Converts}
use resourcey.Sql.Convert.Sound.{condition-matches}
use resourcey.Sql.Service
use resourcey.Examples.Rows.{plain, document}
use resourcey.Examples.Database.{database}
use resourcey.Examples.Paged.{Entry}

instance abbrev pub printing : Printing
printing = record { str = λ v. "?" }

-- Plans that are not somebody else's.
abbrev plans : Filter
plans = conj (
    cons (at "title" (contains (one (text "la"))))
      (cons (negate (at "owner_id" (eq (one (uid 1))))) nil))

abbrev document_columns : List String
document_columns = "id" ∷ "owner_id" ∷ "title" ∷ []

condition-Converts_example :
    Converts
      (is_bound document_columns false plans)
      (is_ordered plans)
      (condition ⦃p = printing⦄ document_columns none true plans)
condition-Converts_example = condition-Converts ⦃p = printing⦄ document_columns true plans

condition-matches_example :
    (k k' : Cond) × (condition ⦃p = printing⦄ document_columns none false plans ≡ ok k)
    × (condition ⦃p = printing⦄ document_columns none true plans ≡ ok k')
    × (database.selects k document ≡ true)
    × (database.selects k' document ≡ not true)
unfolding is_bound matches value_eq scalar_eq attribute mem_contains occurs_in has_prefix
condition-matches_example =
    condition-matches ⦃c = plain⦄ ⦃p = printing⦄ database document document_columns plans true refl
      (((refl, (refl, tt)), (refl, (refl, (refl, (refl, tt))))), (tt, tt)) refl

abbrev over_five : Filter
over_five = at "id" (gt (one (int (pos 1))))

abbrev over_one : Entry → Bool
over_one (i, score) = ltb 1 i
