-- ===== src/Sql/Convert/Meaning.antt =====
-- What each of the default rules of resourcey/sql/filter_converter.py selects.
use resourcey.Filter.Answers.{flipped, not-not}
use resourcey.Prelude.{
  or_false, String, ◌≡◌, refl, sym, ap, ◌∙◌, Bool, true, false, not, ◌||◌, some, List, [], ◌∷◌, All,
  inl, inr,
}
use resourcey.Value.{
  Value, Scalar, null, bool, int, text, uid, stamp, one, many, Row, attribute, value_eq, value_lt,
  value_le, is_among,
}
use resourcey.Value.Order.{le-flip, le-flip_right}
use resourcey.Filter.{Casing, mem_contains}
use resourcey.Sql.Like.{IsAscii, contains_pattern, parts-contains_pattern}
use resourcey.Sql.{
  Cond, is_null, col_gt, col_ge, col_lt, col_le, ilike, not_ilike, col_in, col_not_in, both_of,
  any_of, Conds, end, also, Alike, IsKnown, is_set, Database,
}
use resourcey.Sql.Convert.{
  either, chosen, eq_positive, eq_negated, in_positive, in_negated, conjunction, disjunction,
}
use resourcey.Sql.Convert.Nulls.{
  set_or_null, value_eq-null, is_among-null, null_orders, is_set-test,
}

pub not_many : (w : Value) (vs : List Scalar) → Alike w (many vs) → ⊥
not_many (one null) vs alike = alike
not_many (one (bool b)) vs alike = alike
not_many (one (int b)) vs alike = alike
not_many (one (text b)) vs alike = alike
not_many (one (uid b)) vs alike = alike
not_many (one (stamp b)) vs alike = alike
not_many (many b) vs alike = alike

-- A text column that holds an ASCII text, or NULL.
abbrev pub IsAsciiText : Value → Type 0
IsAsciiText (one null) = Unit
IsAsciiText (one (text t)) = IsAscii t
IsAsciiText v = ⊥

module _ ⦃c : Casing⦄ (db : Database) where
  -- The two polarities of a rule, with the answer they must have.
  abbrev pub Answers : Row → Cond → Cond → Bool → Type 0
  Answers r positive negated b = (db.selects positive r ≡ b) × (db.selects negated r ≡ not b)

  pub chosen-Answers :
      (neg : Bool) {r : Row} {positive negated : Cond} {b : Bool}
      → Answers r positive negated b
      → db.selects (chosen neg positive negated) r ≡ flipped neg b
  chosen-Answers true (held, failed) = failed
  chosen-Answers false (held, failed) = held

  selects-either :
      (a b : Cond) (r : Row)
      → db.selects (either a b) r ≡ db.selects a r || (db.selects b r || false)
  selects-either a b r =
      rw (db.selects-any a (also b end) r, db.selects-any b end r, db.selects-any_end r) refl

  -- The complement of a comparison also has the rows where the column is NULL.
  null_or_compared :
      {r : Row} {n : String} {positive opposite : Cond} {b : Bool}
      → is_set (attribute n r) ≡ true
      → Answers r positive opposite b
      → Answers r positive (either (is_null n) opposite) b
  null_or_compared {r} {n} {positive} {opposite} {b} set (held, failed) = (
    held,
    selects-either (is_null n) opposite r
        ∙ rw (db.selects-is_null n r, set, failed) (or_false (not b)),
  )

  pub eq-Answers :
      (n : String) (v : Value) (r : Row)
      → Alike (attribute n r) v
      → Answers r (eq_positive n v) (eq_negated n v) (value_eq (attribute n r) v)
  eq-Answers n (one null) r alike = (
    db.selects-is_null n r ∙ sym (value_eq-null (attribute n r)),
    db.selects-is_not_null n r
        ∙ rw (value_eq-null (attribute n r)) (not-not (is_set (attribute n r))),
  )
  eq-Answers n (one (bool b)) r alike = db.selects-eq n (one (bool b)) r tt alike
  eq-Answers n (one (int i)) r alike = db.selects-eq n (one (int i)) r tt alike
  eq-Answers n (one (text t)) r alike = db.selects-eq n (one (text t)) r tt alike
  eq-Answers n (one (uid u)) r alike = db.selects-eq n (one (uid u)) r tt alike
  eq-Answers n (one (stamp t)) r alike = db.selects-eq n (one (stamp t)) r tt alike
  eq-Answers n (many vs) r alike = absurd (not_many (attribute n r) vs alike)

  pub gt-Answers :
      (n : String) (s : Scalar) (r : Row) {b : Bool}
      → Alike (attribute n r) (one s)
      → value_lt (one s) (attribute n r) ≡ some b
      → Answers r (col_gt n (one s)) (either (is_null n) (col_le n (one s))) b
  gt-Answers n s r {b} alike e =
      null_or_compared
        (is_set-test (λ w. value_lt (one s) w) (attribute n r) (null_orders (one s)).0 e)
        (db.selects-gt n s r b alike e)

  pub lt-Answers :
      (n : String) (s : Scalar) (r : Row) {b : Bool}
      → Alike (attribute n r) (one s)
      → value_lt (attribute n r) (one s) ≡ some b
      → Answers r (col_lt n (one s)) (either (is_null n) (col_ge n (one s))) b
  lt-Answers n s r {b} alike e =
      null_or_compared
        (is_set-test (λ w. value_lt w (one s)) (attribute n r) (null_orders (one s)).1 e)
        (db.selects-lt n s r b alike e)

  pub ge-Answers :
      (n : String) (s : Scalar) (r : Row) {b : Bool}
      → Alike (attribute n r) (one s)
      → value_le (one s) (attribute n r) ≡ some b
      → Answers r (col_ge n (one s)) (either (is_null n) (col_lt n (one s))) b
  ge-Answers n s r {b} alike e =
      null_or_compared
        (is_set-test (λ w. value_le (one s) w) (attribute n r) (null_orders (one s)).2 e)
        (let flip = db.selects-lt n s r (not b) alike (le-flip s (attribute n r) e) in
          (flip.1 ∙ sym (not-not b), flip.0))

  pub le-Answers :
      (n : String) (s : Scalar) (r : Row) {b : Bool}
      → Alike (attribute n r) (one s)
      → value_le (attribute n r) (one s) ≡ some b
      → Answers r (col_le n (one s)) (either (is_null n) (col_gt n (one s))) b
  le-Answers n s r {b} alike e =
      null_or_compared
        (is_set-test (λ w. value_le w (one s)) (attribute n r) (null_orders (one s)).3 e)
        (let flip = db.selects-gt n s r (not b) alike (le-flip_right (attribute n r) s e) in
          (flip.1 ∙ sym (not-not b), flip.0))

  -- A set with no NULL in it, and its complement, which has the rows where the column is NULL.
  in_set-Answers :
      (n : String) (v : Value) (vs : List Value) (r : Row)
      → All IsKnown (v ∷ vs)
      → All (Alike (attribute n r)) (v ∷ vs)
      → Answers r
          (col_in n (v ∷ vs))
          (either (is_null n) (col_not_in n (v ∷ vs)))
          (is_among (attribute n r) (v ∷ vs))
  in_set-Answers n v vs r sets scalar = (
    (db.selects-in n v vs r sets scalar).0,
    selects-either (is_null n) (col_not_in n (v ∷ vs)) r ∙ elim (set_or_null (attribute n r)) [
      | inl e ↦
          (let missing : is_among (attribute n r) (v ∷ vs) ≡ false =
              ap (λ w. is_among w (v ∷ vs)) e ∙ is_among-null (v ∷ vs) sets in
            rw (missing, db.selects-is_null n r, e) refl)
      | inr set ↦
          rw (db.selects-is_null n r, set, (db.selects-in n v vs r sets scalar).1 set)
            (or_false (not (is_among (attribute n r) (v ∷ vs))))
    ],
  )

  pub in-Answers :
      (n : String) (vs : List Value) (r : Row)
      → All IsKnown vs
      → All (Alike (attribute n r)) vs
      → Answers r (in_positive n vs) (in_negated n vs) (is_among (attribute n r) vs)
  unfolding is_among
  in-Answers n [] r sets scalar = (db.selects-never r, db.selects-always r)
  in-Answers n (v ∷ vs) r sets scalar = in_set-Answers n v vs r sets scalar

  contains_text-Answers :
      (n : String) (t : String) (r : Row) (w : Value)
      → attribute n r ≡ w
      → IsAscii t
      → IsAsciiText w
      → Answers r
          (ilike n (contains_pattern t))
          (either (is_null n) (not_ilike n (contains_pattern t)))
          (mem_contains w (one (text t)))
  unfolding mem_contains
  contains_text-Answers n t r (one null) e needle is_text = (
    (db.selects-ilike_null n (contains_pattern t) r e).0,
    selects-either (is_null n) (not_ilike n (contains_pattern t)) r
        ∙ rw (db.selects-is_null n r, e) refl,
  )
  contains_text-Answers n t r (one (text s)) e needle is_text =
      null_or_compared (ap is_set e)
        (db.selects-ilike n (contains_pattern t) t s r (parts-contains_pattern t) e needle is_text)
  contains_text-Answers n t r (one (bool b)) e needle is_text = absurd is_text
  contains_text-Answers n t r (one (int b)) e needle is_text = absurd is_text
  contains_text-Answers n t r (one (uid b)) e needle is_text = absurd is_text
  contains_text-Answers n t r (one (stamp b)) e needle is_text = absurd is_text
  contains_text-Answers n t r (many b) e needle is_text = absurd is_text

  pub contains-Answers :
      (n : String) (t : String) (r : Row)
      → IsAscii t
      → IsAsciiText (attribute n r)
      → Answers r
          (ilike n (contains_pattern t))
          (either (is_null n) (not_ilike n (contains_pattern t)))
          (mem_contains (attribute n r) (one (text t)))
  contains-Answers n t r needle is_text =
      contains_text-Answers n t r (attribute n r) refl needle is_text

  -- The empty junctions are the constants.
  pub selects-conjunction :
      (cs : Conds) (r : Row) → db.selects (conjunction cs) r ≡ db.selects (both_of cs) r
  selects-conjunction end r = db.selects-always r ∙ sym (db.selects-both_end r)
  selects-conjunction (also c cs) r = refl

  pub selects-disjunction :
      (cs : Conds) (r : Row) → db.selects (disjunction cs) r ≡ db.selects (any_of cs) r
  selects-disjunction end r = db.selects-never r ∙ sym (db.selects-any_end r)
  selects-disjunction (also c cs) r = refl
