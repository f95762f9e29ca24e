-- ===== src/Mongo/Keyset.antt =====
-- `_keyset_query` of resourcey/mongo/mongo_service.py: the query that seeks past the document of a
-- cursor, against the test of the list service (`_after_cursor_item` of
-- resourcey/list/list_service.py).
use resourcey.Prelude.{
  String, ◌≡◌, refl, sym, ap, ap₂, ◌∙◌, subst, Bool, true, false, not, ◌&&◌, ◌||◌, Option, none,
  some, str_eq, if◌then◌else◌, is_some, arith,
}
use resourcey.Value.{Value, null, one, Row, attribute, value_eq, value_lt}
use resourcey.Filter.{Casing}
use resourcey.Listing.{Ordered, after_cursor_item}
use resourcey.Listing.After.{
  is_after, is_before, is_at, from_null_up, from_null_down, from_key_up, from_key_down,
}
use resourcey.Sql.{is_set}
use resourcey.Sql.Convert.Nulls.{Alike-sym, is_set-IsKnown, null_eq-value, value_eq-null}
use resourcey.Sql.Keyset.{Stored, key}
use resourcey.Mongo.{
  Query, field_eq, field_ne, field_gt, field_lt, fields, any_of, also, end, IsAlike, IsAlike-Alike,
  null_any, any_null, Collection,
}

-- A dictionary of two keys, the second of which is `_id`: of one key twice it keeps the later value.
unfoldable pub with_id : String → Query → Query → Query
with_id field condition id_condition =
    if str_eq field "_id" then id_condition else fields condition id_condition

abbrev either : Query → Query → Query
either a b = any_of (also a (also b end))

unfoldable pub keyset_query : String → Value → Value → Bool → Query
unfolding with_id
keyset_query field cursor_key cursor_id ascending =
    if ascending
    then (if is_set cursor_key
        then either (field_gt field cursor_key)
            (with_id field (field_eq field cursor_key) (field_gt "_id" cursor_id))
        else either (field_ne field (one null))
            (with_id field (field_eq field (one null)) (field_gt "_id" cursor_id)))
    else if is_set cursor_key
    then any_of (
        also (field_lt field cursor_key) (
          also (with_id field (field_eq field cursor_key) (field_gt "_id" cursor_id))
            (also (field_eq field (one null)) end)))
    else with_id field (field_eq field (one null)) (field_gt "_id" cursor_id)

module _ {V : Type 0} ⦃v : Ordered V⦄ ⦃c : Casing⦄ (co : Collection) (st : Stored V) where
  finds-either : (a b : Query) (d : Row) → co.finds (either a b) d ≡ co.finds a d || co.finds b d
  finds-either a b d = co.finds-any a b end d ∙ ap (λ x. co.finds a d || x) (co.finds-any_one b d)

  is_set-stored : (a : V) → is_set (one (st.stored a)) ≡ true
  is_set-stored a = is_set-IsKnown (one (st.stored a)) (st.stored-IsKnown a)

  -- The comparisons of a field that holds a value.
  pub finds-value :
      (n : String) (a b : V) (d : Row)
      → IsAlike (one (st.stored b)) (one (st.stored a))
      → attribute n d ≡ one (st.stored b)
      → (co.finds (field_gt n (one (st.stored a))) d ≡ v.lt a b)
        × (co.finds (field_lt n (one (st.stored a))) d ≡ v.lt b a)
        × (co.finds (field_eq n (one (st.stored a))) d ≡ v.eqb b a)
  unfolding value_lt value_eq
  finds-value n a b d alike e =
      (let same : IsAlike (attribute n d) (one (st.stored a)) =
          subst (λ w. IsAlike w (one (st.stored a))) (sym e) alike in
        let compared =
          λ (x : Bool). co.finds-compared n (one (st.stored a)) d x (st.stored-IsKnown a) same in
        (
          (compared (v.lt a b)).0 (
              ap (value_lt (one (st.stored a))) e
              ∙ st.lt-stored a b (Alike-sym (st.stored b) (st.stored a) (IsAlike-Alike alike))),
          (compared (v.lt b a)).2
              (ap (λ w. value_lt w (one (st.stored a))) e ∙ st.lt-stored b a (IsAlike-Alike alike)),
          co.finds-eq n (one (st.stored a)) d same
              ∙ ap (λ w. value_eq w (one (st.stored a))) e
              ∙ st.eq-stored b a,
        ))

  -- A field that may be null.
  finds-key :
      (n : String) (a : V) (k : Option V) (d : Row)
      → IsAlike (key st k) (key st (some a))
      → attribute n d ≡ key st k
      → (co.finds (field_gt n (key st (some a))) d ≡ is_after a k)
        × (co.finds (field_lt n (key st (some a))) d ≡ is_before a k)
        × (co.finds (field_eq n (key st (some a))) d ≡ is_at a k)
  finds-key n a (some b) d alike e = finds-value n a b d alike e
  finds-key n a none d alike e = (
    (co.finds-null n (one (st.stored a)) d (st.stored-IsKnown a) e).0,
    (co.finds-null n (one (st.stored a)) d (st.stored-IsKnown a) e).1,
    co.finds-eq n (one (st.stored a)) d
          (subst (λ w. IsAlike w (one (st.stored a))) (sym e) (null_any (st.stored a)))
        ∙ ap (λ w. value_eq w (one (st.stored a))) e
        ∙ null_eq-value (one (st.stored a)) (st.stored-IsKnown a),
  )

  key-IsAlike : (k : Option V) → IsAlike (key st k) (one null)
  key-IsAlike none = any_null null
  key-IsAlike (some a) = any_null (st.stored a)

  is_set-key : (k : Option V) → is_set (key st k) ≡ is_some k
  is_set-key none = refl
  is_set-key (some a) = is_set-stored a

  finds-key_null :
      (n : String) (k : Option V) (d : Row)
      → attribute n d ≡ key st k
      → (co.finds (field_eq n (one null)) d ≡ not (is_some k))
        × (co.finds (field_ne n (one null)) d ≡ is_some k)
  finds-key_null n k d e = (
    co.finds-eq n (one null) d (subst (λ w. IsAlike w (one null)) (sym e) (key-IsAlike k))
        ∙ value_eq-null (attribute n d)
        ∙ ap not (ap is_set e ∙ is_set-key k),
    co.finds-ne_null n d ∙ ap is_set e ∙ is_set-key k,
  )

  module _ (d : Row) (k : Option V) (i : V) (identified : attribute "_id" d ≡ key st (some i)) where
    -- The second disjunct, by another field than the id.
    finds-with_id :
        (field : String) (condition : Query) (cursor_id : V)
        → IsAlike (key st (some i)) (key st (some cursor_id))
        → str_eq field "_id" ≡ false
        → co.finds (with_id field condition (field_gt "_id" (key st (some cursor_id)))) d
          ≡ co.finds condition d && v.lt cursor_id i
    unfolding with_id
    finds-with_id field condition cursor_id same_id other = rw other (
        co.finds-fields condition (field_gt "_id" (key st (some cursor_id))) d
        ∙ ap (λ x. co.finds condition d && x)
            (finds-value "_id" cursor_id i d same_id identified).0)

    -- For a document that stores a sort key in another field than its id, the query that seeks
    -- past a cursor finds the document exactly when `_after_cursor_item` of the list service keeps
    -- it, in both directions and with missing keys.
    pub finds-keyset_query :
        (field : String) (cursor_key : Option V) (cursor_id : V) (ascending : Bool)
        → IsAlike (key st k) (key st cursor_key)
        → IsAlike (key st (some i)) (key st (some cursor_id))
        → str_eq field "_id" ≡ false
        → attribute field d ≡ key st k
        → co.finds (keyset_query field (key st cursor_key) (key st (some cursor_id)) ascending) d
          ≡ after_cursor_item ascending cursor_key cursor_id k i
    unfolding keyset_query
    finds-keyset_query field none cursor_id true same same_id other sorted_by =
        finds-either _ _ d
        ∙ ap₂ ◌||◌ (finds-key_null field k d sorted_by).1 (
            finds-with_id field _ cursor_id same_id other
            ∙ ap (λ x. x && v.lt cursor_id i) (finds-key_null field k d sorted_by).0)
        ∙ from_null_up cursor_id k i
    finds-keyset_query field none cursor_id false same same_id other sorted_by =
        finds-with_id field _ cursor_id same_id other
        ∙ ap (λ x. x && v.lt cursor_id i) (finds-key_null field k d sorted_by).0
        ∙ from_null_down cursor_id k i
    finds-keyset_query field (some a) cursor_id true same same_id other sorted_by =
        rw (is_set-stored a) (
          finds-either _ _ d
          ∙ ap₂ ◌||◌ (finds-key field a k d same sorted_by).0 (
              finds-with_id field _ cursor_id same_id other
              ∙ ap (λ x. x && v.lt cursor_id i) (finds-key field a k d same sorted_by).2)
          ∙ from_key_up a cursor_id k i)
    finds-keyset_query field (some a) cursor_id false same same_id other sorted_by =
        rw (is_set-stored a) (
          co.finds-any _ _ _ d
          ∙ ap₂ ◌||◌ (finds-key field a k d same sorted_by).1 (
              finds-either _ _ d
              ∙ ap₂ ◌||◌
                  (finds-with_id field _ cursor_id same_id other
                    ∙ ap (λ x. x && v.lt cursor_id i) (finds-key field a k d same sorted_by).2)
                  (finds-key_null field k d sorted_by).0)
          ∙ from_key_down a cursor_id k i)

    on_either_side :
        (cursor_id : V) → v.lt i cursor_id || (v.lt cursor_id i || false) ≡ not (v.eqb i cursor_id)
    on_either_side cursor_id =
        grind (
          arith,
          v.eqb_iff i cursor_id,
          v.lt_irrefl i,
          v.lt_irrefl cursor_id,
          v.lt_total i cursor_id,
        )

    -- In a descending sort by the id, the query that seeks past a cursor finds every document but
    -- the cursor's own, those of earlier pages included.
    pub keyset_query-id_descending :
        (cursor_id : V)
        → IsAlike (key st (some i)) (key st (some cursor_id))
        → co.finds (keyset_query "_id" (key st (some cursor_id)) (key st (some cursor_id)) false) d
          ≡ not (v.eqb i cursor_id)
    unfolding keyset_query with_id
    keyset_query-id_descending cursor_id same_id = rw (is_set-stored cursor_id) (
        co.finds-any _ _ _ d
        ∙ ap₂ ◌||◌ (finds-value "_id" cursor_id i d same_id identified).1 (
            finds-either _ _ d
            ∙ ap₂ ◌||◌ (finds-value "_id" cursor_id i d same_id identified).0
                (finds-key_null "_id" (some i) d identified).0)
        ∙ on_either_side cursor_id)
