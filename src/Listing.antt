-- ===== src/Listing.antt =====
-- resourcey/list/list_service.py: filtering, ordering and keyset paging of a list in memory. The
-- items are DTOs `T` whose attributes and ids are values `V` of one ordered type; a filter is its
-- `matches`, which may raise, and the cursor codec and the order of values are interfaces.
pub mod Sort
pub mod Surviving
pub mod Seek
pub mod After
pub mod Found
pub mod Lookup
pub mod Unique
pub mod Paging
pub mod Compare
use resourcey.Prelude.{
  ℕ, zero, suc, ◌<◌, ◌≡◌, ◌↔◌, String, Bool, true, false, not, ◌&&◌, ◌||◌, Option, none, some, List,
  [], ◌∷◌, ◌++◌, length, take, keep, ltb, str_eq, if◌then◌else◌,
}
use resourcey.Value.{Value}
use resourcey.Failure.{Result, ok, err, invalid_input, not_found, ◌>>=◌}
use resourcey.Service.{SortOrder}

-- The comparisons that Python makes of two values of a comparable type.
pub record Ordered (V : Type 0) : Type 0 where
  pub lt : V → V → Bool
  pub eqb : V → V → Bool
  pub eqb_iff : (a b : V) → (eqb a b ≡ true) ↔ (a ≡ b)
  pub lt_irrefl : (a : V) → lt a a ≡ false
  pub lt_trans : (a b c : V) → lt a b ≡ true → lt b c ≡ true → lt a c ≡ true
  pub lt_total : (a b : V) → lt a b ≡ false → lt b a ≡ false → a ≡ b

-- `getattr` on a DTO; the identifier is one of the attributes, and is set. `reported` is the id as
-- an error shows it.
pub record Schema (T V : Type 0) : Type 0 where
  pub id_field : String
  pub get : String → T → Option V
  pub get_id : T → V
  pub reported : V → Value
  pub get-id_field : (m : T) → get id_field m ≡ some (get_id m)

-- What a cursor carries: the sort field, the direction, the sort key and the id of a row.
pub record Cursor (V : Type 0) : Type 0 where
  pub sort_field : Option String
  pub ascending : Bool
  pub sort_key : Option V
  pub id_value : V

-- The codec of cursors (resourcey/util/cursor.py); `none` is a malformed or tampered cursor.
pub record Codec (V : Type 0) : Type 0 where
  pub encode : Cursor V → String
  pub decode : String → Option (Cursor V)
  pub decode-encode : (c : Cursor V) → decode (encode c) ≡ some c

pub record ListPage (T : Type 0) : Type 0 where
  pub items : List T
  pub limit : ℕ
  pub next_cursor : Option String

-- `sorted` is a stable sort: an item stays in front of those that it does not follow.
module _ {T : Type 0} (precedes : T → T → Bool) where
  unfoldable pub insert_sorted : T → List T → List T
  insert_sorted x [] = x ∷ []
  insert_sorted x (y ∷ ys) =
      let rest = insert_sorted x ys in if precedes y x then y ∷ rest else x ∷ y ∷ ys

  unfoldable pub sorted : List T → List T
  unfolding insert_sorted
  sorted [] = []
  sorted (x ∷ xs) = insert_sorted x (sorted xs)

abbrev pub attribute_of : Option SortOrder → Option String
attribute_of none = none
attribute_of (some o) = some o.sort_attribute

abbrev pub is_ascending : Option SortOrder → Bool
is_ascending none = true
is_ascending (some o) = not o.descending

abbrev pub same_field : Option String → Option String → Bool
same_field none none = true
same_field (some a) (some b) = str_eq a b
same_field _ _ = false

abbrev pub same_flag : Bool → Bool → Bool
same_flag true b = b
same_flag false b = not b

module _ {V : Type 0} ⦃v : Ordered V⦄ where
  -- `_ascending_key`: `None` comes before every value.
  abbrev pub key_lt : Option V → Option V → Bool
  key_lt none none = false
  key_lt none (some b) = true
  key_lt (some a) none = false
  key_lt (some a) (some b) = v.lt a b

  -- `_after_cursor_item`: by direction, the cursor's key and the row's key.
  unfoldable pub after_cursor_item : Bool → Option V → V → Option V → V → Bool
  after_cursor_item true none cursor_id none i = v.lt cursor_id i
  after_cursor_item true none cursor_id (some k) i = true
  after_cursor_item true (some c) cursor_id none i = false
  after_cursor_item true (some c) cursor_id (some k) i = v.lt c k || v.eqb k c && v.lt cursor_id i
  after_cursor_item false none cursor_id none i = v.lt cursor_id i
  after_cursor_item false none cursor_id (some k) i = false
  after_cursor_item false (some c) cursor_id none i = true
  after_cursor_item false (some c) cursor_id (some k) i = v.lt k c || v.eqb k c && v.lt cursor_id i

-- The comprehension over `search_filter.matches`, which may raise on a row; `None` keeps every row.
unfoldable pub survivors : {T : Type 0} → (T → Result Bool) → List T → Result (List T)
survivors f [] = ok []
survivors f (m ∷ ms) =
    f m >>= λ survives. survivors f ms >>= λ rest. ok (if survives then m ∷ rest else rest)

unfoldable pub surviving : {T : Type 0} → Option (T → Result Bool) → List T → Result (List T)
unfolding survivors
surviving none models = ok models
surviving (some f) models = survivors f models

-- The rows that an optional test accepts.
abbrev pub filtered : {T : Type 0} → Option (T → Bool) → List T → List T
filtered none models = models
filtered (some matches) models = keep matches models

module _ {T V : Type 0} ⦃v : Ordered V⦄ (d : Schema T V) where
  abbrev pub id_precedes : T → T → Bool
  id_precedes a b = v.lt (d.get_id a) (d.get_id b)

  abbrev pub key_precedes : SortOrder → T → T → Bool
  key_precedes o a b =
      if o.descending
      then key_lt (d.get o.sort_attribute b) (d.get o.sort_attribute a)
      else key_lt (d.get o.sort_attribute a) (d.get o.sort_attribute b)

  -- `_order`: by id, and then by the attribute.
  unfoldable pub order : Option SortOrder → List T → List T
  unfolding sorted
  order none models = sorted id_precedes models
  order (some o) models = sorted (key_precedes o) (sorted id_precedes models)

  abbrev pub is_id_order : Option SortOrder → Bool
  is_id_order none = true
  is_id_order (some o) = str_eq o.sort_attribute d.id_field

  -- The sort key of a row in `_next_cursor`: its id where there is no attribute.
  abbrev pub key_of : Option SortOrder → T → Option V
  key_of none m = some (d.get_id m)
  key_of (some o) m = d.get o.sort_attribute m

  -- Whether a row stands after the cursor row, in `_after_cursor`.
  abbrev pub follows : Option SortOrder → Cursor V → T → Bool
  follows s c m =
      if is_id_order s
      then (if c.ascending then v.lt c.id_value (d.get_id m) else v.lt (d.get_id m) c.id_value)
      else after_cursor_item c.ascending c.sort_key c.id_value (key_of s m) (d.get_id m)

  abbrev pub cursor_at : Option SortOrder → T → Cursor V
  cursor_at s m = record {
    sort_field = attribute_of s;
    ascending = is_ascending s;
    sort_key = key_of s m;
    id_value = d.get_id m;
  }

  module _ (codec : Codec V) where
    -- `_decode`: a cursor that does not open, or was built for another sort, is invalid input.
    unfoldable pub decode_for : Option SortOrder → String → Result (Cursor V)
    decode_for s text = elim (codec.decode text) [
      | none ↦ err invalid_input
      | some c ↦
          if not (same_field c.sort_field (attribute_of s))
            || not (same_flag c.ascending (is_ascending s))
          then err invalid_input
          else ok c
    ]

    unfoldable pub after_cursor : Option SortOrder → Option String → List T → Result (List T)
    unfolding decode_for
    after_cursor s none models = ok models
    after_cursor s (some text) models = do c ← decode_for s text; ok (keep (follows s c) models)

    unfoldable pub last_cursor : Option SortOrder → List T → Option String
    last_cursor s [] = none
    last_cursor s (m ∷ []) = some (codec.encode (cursor_at s m))
    last_cursor s (m ∷ n ∷ ms) = last_cursor s (n ∷ ms)

    unfoldable pub page_of : Option SortOrder → ℕ → List T → ListPage T
    unfolding last_cursor
    page_of s limit models = record {
      items = take limit models;
      limit = limit;
      next_cursor = if ltb limit (length models) then last_cursor s (take limit models) else none;
    }

    -- `search` of an entered service.
    unfoldable pub search :
        List T
        → Option (T → Result Bool)
        → Option SortOrder
        → Option String
        → ℕ
        → Result (ListPage T)
    unfolding order after_cursor page_of surviving
    search items filter s cursor limit = do
      matching ← surviving filter items
      models ← after_cursor s cursor (order s matching)
      ok (page_of s limit models)

  unfoldable pub count : List T → Option (T → Result Bool) → Result ℕ
  unfolding surviving
  count items filter = surviving filter items >>= λ matching. ok (length matching)

  unfoldable pub read : List T → V → Result T
  read [] i = err (not_found (d.reported i))
  read (m ∷ ms) i = let rest = read ms i in if v.eqb (d.get_id m) i then ok m else rest

  -- `by_id.get(i)`; of two rows with one id the dictionary holds the later.
  unfoldable pub last_with : V → List T → Option T
  last_with i [] = none
  last_with i (m ∷ ms) = elim (last_with i ms) [
    | some n ↦ some n
    | none ↦ if v.eqb (d.get_id m) i then some m else none
  ]

  unfoldable pub batch_read : List T → List V → List (Option T)
  unfolding last_with
  batch_read items [] = []
  batch_read items (i ∷ is) = last_with i items ∷ batch_read items is
