-- ===== src/Sql/Service/Lookup.antt =====
-- `batch_read` of resourcey/sql/sql_service.py against that of resourcey/list/list_service.py.
use resourcey.Prelude.{
  and_true, or_true, ◌≡◌, refl, sym, ap, ◌∙◌, subst, true, ◌||◌, List, [], ◌∷◌, map, Has, All, inl,
  inr,
}
use resourcey.Value.{Value, one, value_eq, scalar_eq, is_among}
use resourcey.Filter.{Casing}
use resourcey.Listing
use resourcey.Listing.{Ordered, Schema, last_with}
use resourcey.Listing.Lookup.{last_with-alike, looked_up-alike, All-of_Has}
use resourcey.Listing.Sort.{HasDistinctIds}
use resourcey.Sql.{col_in, IsKnown, Alike, Database}
use resourcey.Sql.Convert.{Printing}
use resourcey.Sql.Keyset.{Stored}
use resourcey.Sql.Service
use resourcey.Sql.Service.{Engine, SqlResource}

module _ {V : Type 0} ⦃v : Ordered V⦄ (st : Stored V) where
  abbrev pub stored_ids : List V → List Value
  stored_ids ids = map (λ i. one (st.stored i)) ids

  pub stored-AllKnown : (ids : List V) → All IsKnown (stored_ids ids)
  stored-AllKnown [] = tt
  stored-AllKnown (i ∷ is) = (st.stored-IsKnown i, stored-AllKnown is)

  pub is_among-stored :
      (i : V) (ids : List V) → Has i ids → is_among (one (st.stored i)) (stored_ids ids) ≡ true
  unfolding is_among value_eq
  is_among-stored i [] member = absurd member
  is_among-stored i (j ∷ js) (inl same) = rw (st.eq-stored i j, (v.eqb_iff i j).1 (sym same)) refl
  is_among-stored i (j ∷ js) (inr later) =
      ap (λ b. scalar_eq (st.stored i) (st.stored j) || b) (is_among-stored i js later) ∙ or_true _

module _ {T V : Type 0} ⦃v : Ordered V⦄ ⦃c : Casing⦄ ⦃p : Printing⦄ {db : Database} {d : Schema T V}
    {st : Stored V} {resource : SqlResource} (engine : Engine db d st resource) where
  -- The condition of the ids selects the rows that have one of them.
  selects-stored_ids :
      (ids : List V) (m : T)
      → All (Alike (one (st.stored (d.get_id m)))) (stored_ids st ids)
      → Has (d.get_id m) ids
      → db.selects (col_in d.id_field (stored_ids st ids)) (engine.row_of m) ≡ true
  selects-stored_ids [] m alike member = absurd member
  selects-stored_ids (i ∷ is) m alike member =
      (db.selects-in d.id_field (one (st.stored i)) (stored_ids st is) (engine.row_of m)
        (stored-AllKnown st (i ∷ is))
        (subst (λ w. All (Alike w) (stored_ids st (i ∷ is))) (sym (engine.id-row_of m)) alike)).0
      ∙ ap (λ w. is_among w (stored_ids st (i ∷ is))) (engine.id-row_of m)
      ∙ is_among-stored st (d.get_id m) (i ∷ is) member

  -- Over rows of different ids, which are of one type with the ids asked for, `batch_read` of the SQL service is that of the list service: for
  -- each id in turn its row, or `None`, in whatever order the database returns the rows.
  sql_batch_read-list_batch_read :
      (rows : List T) (ids : List V)
      → HasDistinctIds d rows
      → ((m : T) → All (Alike (one (st.stored (d.get_id m)))) (stored_ids st ids))
      → Service.batch_read engine rows ids ≡ Listing.batch_read d rows ids
  unfolding Service.batch_read
  sql_batch_read-list_batch_read rows ids distinct alike =
      looked_up-alike d (engine.query (col_in d.id_field (stored_ids st ids) ∷ []) [] rows) rows ids
        (All-of_Has d ids (λ i asked.
          last_with-alike d i _ rows distinct
            (λ m member.
              ((engine.query-Has (col_in d.id_field (stored_ids st ids) ∷ []) [] rows m).0
                member).0)
            (λ m member at_i.
              (engine.query-Has (col_in d.id_field (stored_ids st ids) ∷ []) [] rows m).1 (
                member,
                and_true _
                    ∙ selects-stored_ids ids m (alike m) (subst (λ j. Has j ids) (sym at_i) asked),
              ))))
