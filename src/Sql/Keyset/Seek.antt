-- ===== src/Sql/Keyset/Seek.antt =====
-- The condition of resourcey/sql/cursor.py selects the rows that `_after_cursor_item` of
-- resourcey/list/list_service.py keeps.
use resourcey.Prelude.{
  and_true, or_false, String, ◌≡◌, refl, ap, ◌∙◌, Bool, true, false, not, ◌&&◌, ◌||◌, Option, none,
  some, str_eq, if◌then◌else◌, arith, is_some, Bool-cases, inl, inr,
}
use resourcey.Value.{Value, one, Row, attribute, value_eq, value_lt}
use resourcey.Filter.{Casing}
use resourcey.Sql.Convert.Nulls.{Alike-sym, is_set-IsKnown, null_eq-value}
use resourcey.Listing.{Ordered, after_cursor_item}
use resourcey.Listing.After.{
  is_after, is_before, is_at, from_null_up, from_null_down, from_key_up, from_key_down,
}
use resourcey.Sql.{
  Cond, is_null, is_not_null, col_eq, col_gt, col_lt, also, end, is_set, Alike, Database,
}
use resourcey.Sql.Keyset.{keyset_predicate, both_conditions, either_condition, Stored, key}

module _ {V : Type 0} ⦃v : Ordered V⦄ ⦃c : Casing⦄ (db : Database) (st : Stored V) where
  selects-both_conditions :
      (a b : Cond) (r : Row) → db.selects (both_conditions a b) r ≡ db.selects a r && db.selects b r
  selects-both_conditions a b r =
      rw (db.selects-both a (also b end) r, db.selects-both b end r, db.selects-both_end r)
        (ap (λ x. db.selects a r && x) (and_true (db.selects b r)))

  selects-either_condition :
      (a b : Cond) (r : Row)
      → db.selects (either_condition a b) r ≡ db.selects a r || db.selects b r
  selects-either_condition a b r =
      rw (db.selects-any a (also b end) r, db.selects-any b end r, db.selects-any_end r)
        (ap (λ x. db.selects a r || x) (or_false (db.selects b r)))

  is_set-stored : (a : V) → is_set (one (st.stored a)) ≡ true
  is_set-stored a = is_set-IsKnown (one (st.stored a)) (st.stored-IsKnown a)

  -- The comparisons of a column that holds a value.
  selects-col_gt :
      (n : String) (a b : V) (r : Row)
      → Alike (one (st.stored b)) (one (st.stored a))
      → attribute n r ≡ one (st.stored b)
      → db.selects (col_gt n (one (st.stored a))) r ≡ v.lt a b
  unfolding value_lt
  selects-col_gt n a b r alike e =
      (db.selects-gt n (st.stored a) r (v.lt a b) (rw e alike) (
        ap (value_lt (one (st.stored a))) e
        ∙ st.lt-stored a b (Alike-sym (st.stored b) (st.stored a) alike))).0

  selects-col_lt :
      (n : String) (a b : V) (r : Row)
      → Alike (one (st.stored b)) (one (st.stored a))
      → attribute n r ≡ one (st.stored b)
      → db.selects (col_lt n (one (st.stored a))) r ≡ v.lt b a
  unfolding value_lt
  selects-col_lt n a b r alike e =
      (db.selects-lt n (st.stored a) r (v.lt b a) (rw e alike)
        (ap (λ w. value_lt w (one (st.stored a))) e ∙ st.lt-stored b a alike)).0

  selects-col_eq :
      (n : String) (a b : V) (r : Row)
      → Alike (one (st.stored b)) (one (st.stored a))
      → attribute n r ≡ one (st.stored b)
      → db.selects (col_eq n (one (st.stored a))) r ≡ v.eqb b a
  unfolding value_eq
  selects-col_eq n a b r alike e =
      (db.selects-eq n (one (st.stored a)) r (st.stored-IsKnown a) (rw e alike)).0
      ∙ ap (λ w. value_eq w (one (st.stored a))) e
      ∙ st.eq-stored b a

  -- A key that is NULL, and one that is not, in the column that is sorted by.
  selects-key_null :
      (n : String) (k : Option V) (r : Row)
      → attribute n r ≡ key st k
      → (db.selects (is_null n) r ≡ not (is_some k)) × (db.selects (is_not_null n) r ≡ is_some k)
  selects-key_null n none r e =
      (db.selects-is_null n r ∙ rw e refl, db.selects-is_not_null n r ∙ rw e refl)
  selects-key_null n (some a) r e = (
    db.selects-is_null n r ∙ rw (e, is_set-stored a) refl,
    db.selects-is_not_null n r ∙ rw (e, is_set-stored a) refl,
  )

  selects-key_compared :
      (n : String) (a : V) (k : Option V) (r : Row)
      → Alike (key st k) (one (st.stored a))
      → attribute n r ≡ key st k
      → (db.selects (col_gt n (key st (some a))) r ≡ is_after a k)
        × (db.selects (col_lt n (key st (some a))) r ≡ is_before a k)
        × (db.selects (col_eq n (key st (some a))) r ≡ is_at a k)
  selects-key_compared n a none r alike e = (
    (db.selects-null n (one (st.stored a)) r e).0,
    (db.selects-null n (one (st.stored a)) r e).1,
    (db.selects-eq n (one (st.stored a)) r (st.stored-IsKnown a) (rw e alike)).0
        ∙ ap (λ w. value_eq w (one (st.stored a))) e
        ∙ null_eq-value (one (st.stored a)) (st.stored-IsKnown a),
  )
  selects-key_compared n a (some b) r alike e = (
    selects-col_gt n a b r alike e,
    selects-col_lt n a b r alike e,
    selects-col_eq n a b r alike e,
  )

  -- What the branches come to, as tests of the row's key and id.
  not_past_itself :
      (ascending : Bool) (cursor_id i : V)
      → (if ascending then v.lt cursor_id i else v.lt i cursor_id)
        ≡ after_cursor_item ascending (some cursor_id) cursor_id (some i) i
  unfolding after_cursor_item
  not_past_itself true cursor_id i = ground arith
  not_past_itself false cursor_id i =
      grind (arith, v.eqb_iff i cursor_id, v.lt_irrefl cursor_id, v.lt_irrefl i)

  module _ (sort_column id_column : String) (r : Row) (k : Option V) (i : V)
      (sorted_by : attribute sort_column r ≡ key st k)
      (identified : attribute id_column r ≡ key st (some i)) where
    -- The walk by the id itself, whatever the key.
    pub id_walk :
        (cursor_key : Value) (cursor_id : V) (ascending : Bool)
        → str_eq sort_column id_column ≡ true
        → k ≡ some i
        → Alike (key st (some i)) (key st (some cursor_id))
        → db.selects
            (keyset_predicate sort_column id_column cursor_key (key st (some cursor_id)) ascending)
            r
          ≡ (if ascending then v.lt cursor_id i else v.lt i cursor_id)
    unfolding keyset_predicate
    id_walk cursor_key cursor_id true e own alike =
        rw e (selects-col_gt sort_column cursor_id i r alike (sorted_by ∙ ap (key st) own))
    id_walk cursor_key cursor_id false e own alike =
        rw e (selects-col_lt sort_column cursor_id i r alike (sorted_by ∙ ap (key st) own))

    pub other_walk :
        (cursor_key : Option V) (cursor_id : V) (ascending : Bool)
        → str_eq sort_column id_column ≡ false
        → Alike (key st k) (key st cursor_key)
        → Alike (key st (some i)) (key st (some cursor_id))
        → db.selects
            (keyset_predicate sort_column id_column
              (key st cursor_key)
              (key st (some cursor_id))
              ascending)
            r
          ≡ after_cursor_item ascending cursor_key cursor_id k i
    unfolding keyset_predicate after_cursor_item
    other_walk none cursor_id true e alike alike_id =
        rw
          (
            e,
            selects-either_condition (is_not_null sort_column)
                (both_conditions (is_null sort_column) (col_gt id_column (key st (some cursor_id))))
                r,
            selects-both_conditions (is_null sort_column)
                (col_gt id_column (key st (some cursor_id))) r,
            (selects-key_null sort_column k r sorted_by).0,
            (selects-key_null sort_column k r sorted_by).1,
            selects-col_gt id_column cursor_id i r alike_id identified,
          )
          (from_null_up cursor_id k i)
    other_walk none cursor_id false e alike alike_id =
        rw
          (
            e,
            selects-both_conditions (is_null sort_column)
                (col_gt id_column (key st (some cursor_id))) r,
            (selects-key_null sort_column k r sorted_by).0,
            selects-col_gt id_column cursor_id i r alike_id identified,
          )
          (from_null_down cursor_id k i)
    other_walk (some a) cursor_id true e alike alike_id =
        rw
          (
            e,
            is_set-stored a,
            selects-either_condition (col_gt sort_column (key st (some a)))
                (both_conditions (col_eq sort_column (key st (some a)))
                  (col_gt id_column (key st (some cursor_id))))
                r,
            selects-both_conditions (col_eq sort_column (key st (some a)))
                (col_gt id_column (key st (some cursor_id))) r,
            (selects-key_compared sort_column a k r alike sorted_by).0,
            (selects-key_compared sort_column a k r alike sorted_by).2,
            selects-col_gt id_column cursor_id i r alike_id identified,
          )
          (from_key_up a cursor_id k i)
    other_walk (some a) cursor_id false e alike alike_id =
        rw
          (
            e,
            is_set-stored a,
            db.selects-any (col_lt sort_column (key st (some a))) _ r,
            selects-either_condition
                (both_conditions (col_eq sort_column (key st (some a)))
                  (col_gt id_column (key st (some cursor_id))))
                (is_null sort_column) r,
            selects-both_conditions (col_eq sort_column (key st (some a)))
                (col_gt id_column (key st (some cursor_id))) r,
            (selects-key_compared sort_column a k r alike sorted_by).1,
            (selects-key_compared sort_column a k r alike sorted_by).2,
            (selects-key_null sort_column k r sorted_by).0,
            selects-col_gt id_column cursor_id i r alike_id identified,
          )
          (from_key_down a cursor_id k i)

  -- For a row whose sort key and id are stored in the columns, the condition that seeks past a
  -- cursor selects the row exactly when `_after_cursor_item` of the list service keeps it, in both
  -- directions and with missing keys; where the sort is by the id, the keys are the ids.
  pub selects-keyset_predicate :
      (sort_column id_column : String) (r : Row) (k : Option V) (i : V) (cursor_key : Option V)
      (cursor_id : V) (ascending : Bool)
      → attribute sort_column r ≡ key st k
      → attribute id_column r ≡ key st (some i)
      → Alike (key st k) (key st cursor_key)
      → Alike (key st (some i)) (key st (some cursor_id))
      → (str_eq sort_column id_column ≡ true → (k ≡ some i) × (cursor_key ≡ some cursor_id))
      → db.selects
          (keyset_predicate sort_column id_column
            (key st cursor_key)
            (key st (some cursor_id))
            ascending)
          r
        ≡ after_cursor_item ascending cursor_key cursor_id k i
  selects-keyset_predicate sort_column id_column r k i cursor_key cursor_id ascending sorted_by
        identified alike alike_id own =
      elim (Bool-cases (str_eq sort_column id_column)) [
        | inl e ↦
            (let (at_id, from_id) = own e in
              id_walk sort_column id_column r k i sorted_by identified (key st cursor_key) cursor_id
                ascending e at_id alike_id
              ∙ rw (from_id, at_id) (not_past_itself ascending cursor_id i))
        | inr e ↦
            other_walk sort_column id_column r k i sorted_by identified cursor_key cursor_id
              ascending e alike alike_id
      ]
