-- ===== src/Tasks/Cron/Parse.antt =====
-- resourcey/tasks/cron.py: parsing an expression. Digits are the ASCII ones.
pub mod Bounds
use Prim.Native.String.{[]}
use resourcey.Prelude.{
  ℕ, zero, suc, ◌+◌, ◌-◌, String, Bool, true, false, not, ◌&&◌, ◌||◌, Option, none, some, List, ◌∷◌,
  ◌++◌, ltb, leb, ◌==◌, str_eq, if◌then◌else◌, is_some,
}
use resourcey.Prelude.Int.{ℤ, pos, negsuc}
use resourcey.Failure.{Result, ok, err, value_error, ◌>>=◌}
use resourcey.Text.{strip, split, words, partition, has_prefix, parse_int, parse_digits}
use resourcey.Filter.{Casing}
use resourcey.Tasks.Cron.{CronSchedule}

-- What a field accepts; `is_dow` is `names is _DOW_NAMES`.
pub record FieldKind : Type 0 where
  pub lo : ℕ
  pub hi : ℕ
  pub names : List (String × ℕ)
  pub is_dow : Bool

abbrev pub month_names : List (String × ℕ)
month_names =
    ("jan", 1)
    ∷ ("feb", 2)
    ∷ ("mar", 3)
    ∷ ("apr", 4)
    ∷ ("may", 5)
    ∷ ("jun", 6)
    ∷ ("jul", 7)
    ∷ ("aug", 8)
    ∷ ("sep", 9)
    ∷ ("oct", 10)
    ∷ ("nov", 11)
    ∷ ("dec", 12)
    ∷ List.[]

abbrev pub dow_names : List (String × ℕ)
dow_names =
    ("sun", 0)
    ∷ ("mon", 1)
    ∷ ("tue", 2)
    ∷ ("wed", 3)
    ∷ ("thu", 4)
    ∷ ("fri", 5)
    ∷ ("sat", 6)
    ∷ List.[]

-- `bounds` of `parse_cron`, field by field.
abbrev pub minute_kind : FieldKind
minute_kind = record { lo = 0; hi = 59; names = List.[]; is_dow = false }

abbrev pub hour_kind : FieldKind
hour_kind = record { lo = 0; hi = 23; names = List.[]; is_dow = false }

abbrev pub day_kind : FieldKind
day_kind = record { lo = 1; hi = 31; names = List.[]; is_dow = false }

abbrev pub month_kind : FieldKind
month_kind = record { lo = 1; hi = 12; names = month_names; is_dow = false }

abbrev pub weekday_kind : FieldKind
weekday_kind = record { lo = 0; hi = 6; names = dow_names; is_dow = true }

abbrev shorthands : List (String × String)
shorthands =
    ("@yearly", "0 0 1 1 *")
    ∷ ("@annually", "0 0 1 1 *")
    ∷ ("@monthly", "0 0 1 * *")
    ∷ ("@weekly", "0 0 * * 0")
    ∷ ("@daily", "0 0 * * *")
    ∷ ("@midnight", "0 0 * * *")
    ∷ ("@hourly", "0 * * * *")
    ∷ List.[]

unfoldable pub named : {A : Type 0} → String → List (String × A) → Option A
named key List.[] = none
named key ((k, v) ∷ table) = if str_eq k key then some v else named key table

-- A resolved number, with 7 as Sunday, against the bounds of the field.
unfoldable pub in_bounds : FieldKind → ℤ → Result ℕ
in_bounds f (negsuc n) = err value_error
in_bounds f (pos n) =
    let value = if f.is_dow && n == 7 then 0 else n in
    if ltb value f.lo || ltb f.hi value then err value_error else ok value

unfoldable pub parsed_value : FieldKind → Option ℤ → Result ℕ
unfolding in_bounds
parsed_value f none = err value_error
parsed_value f (some v) = in_bounds f v

-- `range(start, end + 1, step)` in at most the given number of values.
unfoldable pub range_values : ℕ → ℕ → ℕ → ℕ → List ℕ
range_values zero start end step = List.[]
range_values (suc n) start end step =
    let rest = range_values n (start + step) end step in
    if leb start end then start ∷ rest else List.[]

unfoldable pub range : ℕ → ℕ → ℕ → List ℕ
unfolding range_values
range start end step = range_values (end + 1 - start) start end step

module _ ⦃c : Casing⦄ where
  -- `_resolve`.
  unfoldable pub resolve : FieldKind → String → Result ℕ
  unfolding named parsed_value
  resolve f token =
      let key = c.lower (strip token) in
      elim (named key f.names) [ some n ↦ ok n | none ↦ parsed_value f (parse_int key) ]

  -- The two ends of a range with a dash; they must be in order.
  unfoldable pub span_of : FieldKind → String × String → Result (ℕ × ℕ)
  unfolding resolve
  span_of f (start_text, end_text) = do
    start ← resolve f start_text
    end ← resolve f end_text
    if ltb end start then err value_error else ok (start, end)

  unfoldable pub fixed_value : FieldKind → String → Bool → Result (ℕ × ℕ)
  unfolding resolve
  fixed_value f base stepped = do
    value ← resolve f base
    if stepped then err value_error else ok (value, value)

  -- The first and the last value of an item.
  unfoldable pub bounds_of : FieldKind → String → Bool → Result (ℕ × ℕ)
  unfolding span_of fixed_value
  bounds_of f base stepped =
      if str_eq base "*" then ok (f.lo, f.hi) else elim (partition b'-' base) [
        | some ends ↦ span_of f ends
        | none ↦ fixed_value f base stepped
      ]

  unfoldable pub stepped_values : FieldKind → String → ℕ → Bool → Result (List ℕ)
  unfolding bounds_of
  stepped_values f base step stepped = do
    ends ← bounds_of f base stepped
    ok (range ends.0 ends.1 step)

  unfoldable pub with_step : FieldKind → String → Option ℕ → Result (List ℕ)
  unfolding stepped_values
  with_step f base none = err value_error
  with_step f base (some step) =
      if ltb step 1 then err value_error else stepped_values f base step true

  -- The pieces of an item at "/", as the expression `_ITEM_RE` takes them.
  unfoldable pub item_of : FieldKind → List String → Result (List ℕ)
  unfolding with_step stepped_values
  item_of f (base ∷ List.[]) =
      if str_eq base "" then err value_error else stepped_values f base 1 false
  item_of f (base ∷ step_text ∷ List.[]) =
      if str_eq base "" then err value_error else with_step f base (parse_digits step_text)
  item_of f _ = err value_error

  unfoldable pub items_of : FieldKind → List String → Result (List ℕ)
  unfolding item_of
  items_of f List.[] = ok List.[]
  items_of f (item ∷ items) = do
    values ← item_of f (split b'/' item)
    rest ← items_of f items
    ok (values ++ rest)

  -- `_parse_field`: the values that one field selects.
  unfoldable pub parse_field : FieldKind → String → Result (List ℕ)
  unfolding items_of
  parse_field f spec = items_of f (split b',' spec)

  -- The shorthand for an expression, or the expression; an unknown "@" word is refused.
  unfoldable pub resolved : String → Result String
  unfolding named has_prefix
  resolved text =
      let plain = if has_prefix "@" text then c.lower text else text in
      let full : String = elim (named (c.lower text) shorthands) [ some e ↦ e | none ↦ plain ] in
      if has_prefix "@" full then err value_error else ok full

  unfoldable pub fields : List String → Result CronSchedule
  unfolding parse_field
  fields (m ∷ h ∷ d ∷ mo ∷ w ∷ List.[]) = do
    minutes ← parse_field minute_kind m
    hours ← parse_field hour_kind h
    days ← parse_field day_kind d
    months ← parse_field month_kind mo
    weekdays ← parse_field weekday_kind w
    ok (record {
      minutes = minutes;
      hours = hours;
      days = days;
      months = months;
      weekdays = weekdays;
      day_restricted = not (str_eq d "*");
      weekday_restricted = not (str_eq w "*");
    })
  fields _ = err value_error

  unfoldable pub parse_cron : String → Result CronSchedule
  unfolding strip resolved words fields
  parse_cron expression =
      let text = strip expression in
      if str_eq text "" then err value_error else do full ← resolved text; fields (words full)
