-- ===== src/Tasks/Cron/Parse/Bounds.antt =====
-- What resourcey/tasks/cron.py accepts: every value of a parsed field lies in the field's bounds,
-- and a range selects the values that it names.
use native.Mathlib.Decide.{dec_lt}
use native.Mathlib.Nat.{mod-eq_of_lt, mod-eq-sub-mod, zero-mod}
use resourcey.Prelude.{
  ℕ, zero, suc, ◌+◌, ◌-◌, ◌%◌, ◌≤◌, ◌<◌, ◌≡◌, ◌↔◌, ◌⊎◌, sym, ap, ◌∙◌, String, Bool, true, false,
  Option, some, List, ◌∷◌, ◌++◌, All, All-append, arith, Bool-cases, Option-cases, inl, inr, leb,
  ◌==◌, str_eq,
}
use resourcey.Prelude.Int.{ℤ}
use resourcey.Failure.{ok, >>=-eq-ok, ok-injective}
use resourcey.Text.{strip, split, words, partition, parse_int, parse_digits}
use resourcey.Filter.{Casing}
use resourcey.Tasks.Cron.{CronSchedule, member_of}
use resourcey.Tasks.Cron.Parse.{
  FieldKind, named, parsed_value, range_values, range, resolve, span_of, fixed_value, bounds_of,
  stepped_values, with_step, item_of, items_of, parse_field, minute_kind, hour_kind, day_kind,
  month_kind, weekday_kind, resolved, fields, parse_cron,
}

abbrev pub Within : ℕ → ℕ → ℕ → Type 0
Within lo hi n = (lo ≤ n) × (n ≤ hi)

-- The names of a field stand for values in its bounds.
abbrev pub NamesFit : FieldKind → Type 0
NamesFit f = All (λ e. Within f.lo f.hi e.1) f.names

named-All :
    {A : Type 0} (P : A → Type 0) (key : String) (table : List (String × A)) (v : A)
    → All (λ e. P e.1) table
    → named key table ≡ some v
    → P v
unfolding named
named-All P key List.[] v h e = cc
named-All P key ((k, w) ∷ table) v (hw, h) e = elim (Bool-cases (str_eq k key)) [
  | inl same ↦ let eq : w ≡ v = ground arith in rw (← eq) hw
  | inr other ↦ named-All P key table v h (ground arith)
]

range_values-Within :
    (n lo start end step : ℕ) → lo ≤ start → All (Within lo end) (range_values n start end step)
unfolding range_values
range_values-Within zero lo start end step h = tt
range_values-Within (suc n) lo start end step h = elim (Bool-cases (leb start end)) [
  | inl e ↦ rw e ((h, ground arith), range_values-Within n lo (start + step) end step (omega arith))
  | inr e ↦ rw e tt
]

All-Within :
    (lo hi a b : ℕ) (xs : List ℕ) → lo ≤ a → b ≤ hi → All (Within a b) xs → All (Within lo hi) xs
All-Within lo hi a b List.[] p q h = tt
All-Within lo hi a b (x ∷ xs) p q (w, h) = (omega arith, All-Within lo hi a b xs p q h)

module _ ⦃c : Casing⦄ (f : FieldKind) (fit : NamesFit f) where
  parsed_value-Within : (o : Option ℤ) (v : ℕ) → parsed_value f o ≡ ok v → Within f.lo f.hi v
  unfolding parsed_value
  parsed_value-Within o v h = ground arith

  resolve-Within : (token : String) (v : ℕ) → resolve f token ≡ ok v → Within f.lo f.hi v
  unfolding resolve
  resolve-Within token v h = elim (Option-cases (named (c.lower (strip token)) f.names)) [
    | inl e ↦ parsed_value-Within (parse_int (c.lower (strip token))) v (ground arith)
    | inr (n, e) ↦
        let same : n ≡ v = ground arith in
        rw (← same) (named-All (Within f.lo f.hi) _ f.names n fit e)
  ]

  -- The ends of an item are in the bounds and in order.
  abbrev Ends : ℕ × ℕ → Type 0
  Ends e = (f.lo ≤ e.0) × (e.1 ≤ f.hi)

  span_of-Ends : (t : String × String) (e : ℕ × ℕ) → span_of f t ≡ ok e → Ends e
  unfolding span_of
  span_of-Ends (a, b) e h =
      let (start, s, h') = >>=-eq-ok (resolve f a) _ h in
      let (end, t, h'') = >>=-eq-ok (resolve f b) _ h' in
      ground (arith, resolve-Within a start s, resolve-Within b end t)

  fixed_value-Ends : (base : String) (b : Bool) (e : ℕ × ℕ) → fixed_value f base b ≡ ok e → Ends e
  unfolding fixed_value
  fixed_value-Ends base b e h =
      let (v, s, h') = >>=-eq-ok (resolve f base) _ h in ground (arith, resolve-Within base v s)

  bounds_of-Ends : (base : String) (b : Bool) (e : ℕ × ℕ) → bounds_of f base b ≡ ok e → Ends e
  unfolding bounds_of
  bounds_of-Ends base b e h = elim (Bool-cases (str_eq base "*")) [
    | inl star ↦ ground arith
    | inr other ↦ elim (Option-cases (partition b'-' base)) [
      | inl e' ↦ fixed_value-Ends base b e (ground arith)
      | inr (ends, e') ↦ span_of-Ends ends e (ground arith)
    ]
  ]

  stepped_values-Within :
      (base : String) (step : ℕ) (b : Bool) (vs : List ℕ)
      → stepped_values f base step b ≡ ok vs
      → All (Within f.lo f.hi) vs
  unfolding stepped_values range
  stepped_values-Within base step b vs h =
      let (e, s, h') = >>=-eq-ok (bounds_of f base b) _ h in
      let (low, high) = bounds_of-Ends base b e s in
      let same : range e.0 e.1 step ≡ vs = ground arith in
      rw (← same) (
        All-Within f.lo f.hi e.0 e.1 _ low high
          (range_values-Within (e.1 + 1 - e.0) e.0 e.0 e.1 step (omega arith)))

  item_of-Within :
      (pieces : List String) (vs : List ℕ) → item_of f pieces ≡ ok vs → All (Within f.lo f.hi) vs
  unfolding item_of with_step
  item_of-Within List.[] vs h = cc
  item_of-Within (base ∷ List.[]) vs h = stepped_values-Within base 1 false vs (ground arith)
  item_of-Within (base ∷ t ∷ List.[]) vs h = elim (Option-cases (parse_digits t)) [
    | inl e ↦ ground arith
    | inr (step, e) ↦ stepped_values-Within base step true vs (ground arith)
  ]
  item_of-Within (base ∷ t ∷ u ∷ rest) vs h = cc

  items_of-Within :
      (items : List String) (vs : List ℕ) → items_of f items ≡ ok vs → All (Within f.lo f.hi) vs
  unfolding items_of
  items_of-Within List.[] vs h = let same : List.[] ≡ vs = ground arith in rw (← same) tt
  items_of-Within (item ∷ items) vs h =
      let (values, s, h') = >>=-eq-ok (item_of f (split b'/' item)) _ h in
      let (rest, t, h'') = >>=-eq-ok (items_of f items) _ h' in
      let same : values ++ rest ≡ vs = ground arith in
      rw (← same) (
        All-append (Within f.lo f.hi) values rest (item_of-Within (split b'/' item) values s)
          (items_of-Within items rest t))

  -- Every value of a parsed field lies in the bounds of the field, whatever its text, if the names
  -- of the field do.
  pub parse_field-Within :
      (spec : String) (vs : List ℕ) → parse_field f spec ≡ ok vs → All (Within f.lo f.hi) vs
  unfolding parse_field
  parse_field-Within spec vs h = items_of-Within (split b',' spec) vs h

-- A schedule whose sets hold only values of their fields.
pub record IsSchedule (s : CronSchedule) : Type 0 where
  pub minutes : All (Within 0 59) s.minutes
  pub hours : All (Within 0 23) s.hours
  pub days : All (Within 1 31) s.days
  pub months : All (Within 1 12) s.months
  pub weekdays : All (Within 0 6) s.weekdays

module _ ⦃c : Casing⦄ where
  fields-IsSchedule : (parts : List String) (s : CronSchedule) → fields parts ≡ ok s → IsSchedule s
  unfolding fields
  fields-IsSchedule List.[] s h = cc
  fields-IsSchedule (a ∷ List.[]) s h = cc
  fields-IsSchedule (a ∷ b ∷ List.[]) s h = cc
  fields-IsSchedule (a ∷ b ∷ d ∷ List.[]) s h = cc
  fields-IsSchedule (a ∷ b ∷ d ∷ e ∷ List.[]) s h = cc
  fields-IsSchedule (m ∷ h ∷ d ∷ mo ∷ w ∷ List.[]) s eq =
      let (ms, p1, q1) = >>=-eq-ok (parse_field minute_kind m) _ eq in
      let (hs, p2, q2) = >>=-eq-ok (parse_field hour_kind h) _ q1 in
      let (ds, p3, q3) = >>=-eq-ok (parse_field day_kind d) _ q2 in
      let (mos, p4, q4) = >>=-eq-ok (parse_field month_kind mo) _ q3 in
      let (ws, p5, q5) = >>=-eq-ok (parse_field weekday_kind w) _ q4 in
      let same = ok-injective q5 in
      rw (← same) (record {
        minutes = parse_field-Within minute_kind tt m ms p1;
        hours = parse_field-Within hour_kind tt h hs p2;
        days = parse_field-Within day_kind tt d ds p3;
        months = parse_field-Within month_kind (omega arith) mo mos p4;
        weekdays = parse_field-Within weekday_kind (omega arith) w ws p5;
      })
  fields-IsSchedule (a ∷ b ∷ d ∷ e ∷ f ∷ g ∷ rest) s h = cc

  -- A schedule that parses, whatever the expression, holds only minutes 0-59, hours 0-23, days
  -- 1-31, months 1-12 and weekdays 0-6.
  pub parse_cron-IsSchedule :
      (expression : String) (s : CronSchedule) → parse_cron expression ≡ ok s → IsSchedule s
  unfolding parse_cron
  parse_cron-IsSchedule expression s h = elim (Bool-cases (str_eq (strip expression) "")) [
    | inl e ↦ cc (rw e at h)
    | inr e ↦
        let (full, _, parsed) = >>=-eq-ok (resolved (strip expression)) _ (rw e at h) in
        fields-IsSchedule (words full) s parsed
  ]

-- Being a multiple of the step away is being the start, or the same from the next value on.
module _ (start step x : ℕ) (p : 1 ≤ step) where
  offset-cases :
      start ≤ x
      → (x - start) % step ≡ 0
      → (x ≡ start) ⊎ ((start + step ≤ x) × ((x - (start + step)) % step ≡ 0))
  offset-cases h e = elim (dec_lt (x - start) step) [
    | yes near ↦ inl (omega (arith, mod-eq_of_lt near))
    | no far ↦
        let later : step ≤ x - start = omega arith in
        let same : x - start - step ≡ x - (start + step) = omega arith in
        inr (omega arith, ap (λ (k : ℕ). k % step) (sym same) ∙ sym (mod-eq-sub-mod later) ∙ e)
  ]

  offset-next : start + step ≤ x → (x - (start + step)) % step ≡ 0 → (x - start) % step ≡ 0
  offset-next h e =
      let later : step ≤ x - start = omega arith in
      let same : x - start - step ≡ x - (start + step) = omega arith in
      mod-eq-sub-mod later ∙ ap (λ (k : ℕ). k % step) same ∙ e

range_values_iff :
    (n start end step x : ℕ)
    → 1 ≤ step
    → end < start + n
    → (member_of x (range_values n start end step) ≡ true)
      ↔ ((start ≤ x) × (x ≤ end) × ((x - start) % step ≡ 0))
unfolding range_values member_of
range_values_iff zero start end step x p h = ground arith
range_values_iff (suc n) start end step x p h = elim (Bool-cases (leb start end)) [
  | inr e ↦ rw e (ground arith)
  | inl e ↦
      let (to, from) = range_values_iff n (start + step) end step x p (omega arith) in
      rw e (
        λ m. elim (Bool-cases (x == start)) [
          | inl same ↦
              let at_start : x - start ≡ 0 = ground arith in
              (ground arith, ground arith, ap (λ (k : ℕ). k % step) at_start ∙ zero-mod step)
          | inr other ↦
              let (lo, hi, z) = to (rw other at m) in
              (omega arith, hi, offset-next start step x p lo z)
        ],
        λ (lo, hi, z). elim (offset-cases start step x p lo z) [
          | inl same ↦ ground arith
          | inr (later, z') ↦ ground (arith, from (later, hi, z'))
        ],
      )
]

-- For a positive step, the values of a range with a step are exactly those from its start to its
-- end that are a multiple of the step away from the start.
pub range_iff :
    (start end step x : ℕ)
    → 1 ≤ step
    → (member_of x (range start end step) ≡ true)
      ↔ ((start ≤ x) × (x ≤ end) × ((x - start) % step ≡ 0))
unfolding range
range_iff start end step x p = range_values_iff (end + 1 - start) start end step x p (omega arith)
