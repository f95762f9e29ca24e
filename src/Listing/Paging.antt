-- ===== src/Listing/Paging.antt =====
-- Following the cursors of resourcey/list/list_service.py from the first page returns every row
-- that the filter accepts once, in order.
use resourcey.Prelude.{ℕ, zero, suc, ◌≤◌, ◌≡◌, String, Bool, Option, none, some, List, ◌++◌}
use resourcey.Service.{SortOrder}
use resourcey.Failure.{Result, ok, err, type_error, ◌>>=◌}
use resourcey.Listing.{Ordered, Schema, Codec, order, filtered, surviving, search}

module _ {T V : Type 0} ⦃v : Ordered V⦄ (d : Schema T V) (codec : Codec V) where
  abbrev joined : List T → Option String → (String → Result (List T)) → Result (List T)
  joined items none more = ok items
  joined items (some next) more = do rest ← more next; ok (items ++ rest)

  -- `_enumerate` of resourcey/jobs/jobs_runner.py: the rows of page after page, for as long as
  -- there is a next cursor. Fuel stands for the unbounded loop.
  unfoldable pub enumerate :
      ℕ → List T → Option (T → Result Bool) → Option SortOrder → ℕ → Option String → Result (List T)
  enumerate zero items filter s limit cursor = err type_error
  enumerate (suc n) items filter s limit cursor = do
    page ← search d codec items filter s cursor limit
    joined page.items page.next_cursor (λ next. enumerate n items filter s limit (some next))

  module _ (items : List T) (filter : Option (T → Result Bool)) (test : Option (T → Bool))
      (s : Option SortOrder) (limit : ℕ)
      (answered : surviving filter items ≡ ok (filtered test items)) (positive : 1 ≤ limit) where
    abbrev rows : List T
    rows = order d s (filtered test items)
