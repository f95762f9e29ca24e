-- ===== src/Listing/Seek.antt =====
-- The cursor of resourcey/list/list_service.py keeps exactly the rows behind its row.
use mathlib.Core.Bool.{false≢true}
use mathlib.Core.Path.{fun_ext}
use resourcey.Prelude.{
  ◌≡◌, refl, sym, ◌∙◌, ap, String, Bool, true, false, not, ◌&&◌, ◌||◌, Option, none, some, List, [],
  ◌∷◌, ◌++◌, All, arith, Bool-cases, inl, inr, if◌then◌else◌, str_eq, str_eq_iff, keep,
}
use resourcey.Service.{SortOrder}
use resourcey.Failure.{ok}
use resourcey.Listing.{
  Ordered, Schema, Codec, key_lt, after_cursor_item, id_precedes, follows, cursor_at, attribute_of,
  is_ascending, same_field, same_flag, decode_for, after_cursor,
}
use resourcey.Listing.Sort.{Strict, before, before_irrefl, before_trans}

All-middle :
    {A : Type 0} (P : A → Type 0) (xs : List A) (c : A) (ys : List A) → All P (xs ++ c ∷ ys) → P c
All-middle P [] c ys h = h.0
All-middle P (x ∷ xs) c ys h = All-middle P xs c ys h.1

module _ {V : Type 0} ⦃v : Ordered V⦄ where
  eqb_total : (a b : V) → v.lt a b ≡ false → v.eqb b a ≡ not (v.lt b a)
  eqb_total a b h = elim (Bool-cases (v.lt b a)) [
    | inl e ↦ rw e (elim (Bool-cases (v.eqb b a)) [
      | inl f ↦
          let same : b ≡ a = (v.eqb_iff b a).0 f in
          absurd (false≢true (sym (v.lt_irrefl a) ∙ rw same at e))
      | inr f ↦ f
    ])
    | inr e ↦ rw (e, (v.eqb_iff b a).1 (v.lt_total b a e h))
  ]

  eqb_total' : (a b : V) → v.lt b a ≡ false → v.eqb b a ≡ not (v.lt a b)
  eqb_total' a b h = elim (Bool-cases (v.lt a b)) [
    | inl e ↦ rw e (elim (Bool-cases (v.eqb b a)) [
      | inl f ↦
          let same : b ≡ a = (v.eqb_iff b a).0 f in
          absurd (false≢true (sym (v.lt_irrefl a) ∙ rw same at e))
      | inr f ↦ f
    ])
    | inr e ↦ rw (e, (v.eqb_iff b a).1 (v.lt_total b a h e))
  ]

  -- The test of a row by its key and id is the order of rows.
  after_cursor_item-ascending :
      (kc km : Option V) (ic im : V)
      → after_cursor_item true kc ic km im ≡ (key_lt kc km || not (key_lt km kc) && v.lt ic im)
  unfolding after_cursor_item
  after_cursor_item-ascending none none ic im = refl
  after_cursor_item-ascending none (some k) ic im = refl
  after_cursor_item-ascending (some c) none ic im = refl
  after_cursor_item-ascending (some c) (some k) ic im = ground (arith, eqb_total c k)

  after_cursor_item-descending :
      (kc km : Option V) (ic im : V)
      → after_cursor_item false kc ic km im ≡ (key_lt km kc || not (key_lt kc km) && v.lt ic im)
  unfolding after_cursor_item
  after_cursor_item-descending none none ic im = refl
  after_cursor_item-descending none (some k) ic im = refl
  after_cursor_item-descending (some c) none ic im = refl
  after_cursor_item-descending (some c) (some k) ic im = ground (arith, eqb_total' c k)

module _ {T V : Type 0} ⦃v : Ordered V⦄ (d : Schema T V) where
  -- What stands behind a row is not before it.
  not_before : (s : Option SortOrder) (x c : T) → before d s x c ≡ true → before d s c x ≡ false
  not_before s x c h = elim (Bool-cases (before d s c x)) [
    | inl e ↦ absurd (false≢true (sym (before_irrefl d s x) ∙ before_trans d s x c x h e))
    | inr e ↦ e
  ]

  follows-eq-before :
      (s : Option SortOrder) (c m : T) → follows d s (cursor_at d s c) m ≡ before d s c m
  unfolding before
  follows-eq-before none c m = refl
  follows-eq-before (some o) c m = elim (Bool-cases (str_eq o.sort_attribute d.id_field)) [
    | inl e ↦ rw e (by_id e)
    | inr e ↦ rw e by_key
  ]
    where
      by_id :
          str_eq o.sort_attribute d.id_field ≡ true
          → (if not o.descending
              then v.lt (d.get_id c) (d.get_id m)
              else v.lt (d.get_id m) (d.get_id c))
            ≡ before d (some o) c m
      by_id e =
          let same = (str_eq_iff o.sort_attribute d.id_field).0 e in
          let at_c : d.get o.sort_attribute c ≡ some (d.get_id c) = rw same (d.get-id_field c) in
          let at_m : d.get o.sort_attribute m ≡ some (d.get_id m) = rw same (d.get-id_field m) in
          rw (at_c, at_m) (ground arith)

      by_key :
          after_cursor_item
            (not o.descending)
            (d.get o.sort_attribute c)
            (d.get_id c)
            (d.get o.sort_attribute m)
            (d.get_id m)
          ≡ before d (some o) c m
      by_key = directed o.descending
        where
          directed :
              (down : Bool)
              → after_cursor_item
                  (not down)
                  (d.get o.sort_attribute c)
                  (d.get_id c)
                  (d.get o.sort_attribute m)
                  (d.get_id m)
                ≡ ((if down
                      then key_lt (d.get o.sort_attribute m) (d.get o.sort_attribute c)
                      else key_lt (d.get o.sort_attribute c) (d.get o.sort_attribute m))
                    || not (
                        if down
                        then key_lt (d.get o.sort_attribute c) (d.get o.sort_attribute m)
                        else key_lt (d.get o.sort_attribute m) (d.get o.sort_attribute c))
                      && id_precedes d c m)
          directed true = after_cursor_item-descending _ _ _ _
          directed false = after_cursor_item-ascending _ _ _ _

  keep-All : (p : T → Bool) (ys : List T) → All (λ y. p y ≡ true) ys → keep p ys ≡ ys
  keep-All p [] h = refl
  keep-All p (y ∷ ys) (h, k) = rw (h, keep-All p ys k)

  keep-before :
      (s : Option SortOrder) (xs : List T) (c : T) (ys : List T)
      → Strict (before d s) (xs ++ c ∷ ys)
      → keep (before d s c) (xs ++ c ∷ ys) ≡ ys
  keep-before s [] c ys (h, k) = rw (before_irrefl d s c) (keep-All (before d s c) ys h)
  keep-before s (x ∷ xs) c ys (h, k) =
      rw (not_before s x c (All-middle (λ y. before d s x y ≡ true) xs c ys h))
        (keep-before s xs c ys k)

  module _ (codec : Codec V) where
    same_field_refl : (o : Option String) → same_field o o ≡ true
    same_field_refl none = refl
    same_field_refl (some s) = (str_eq_iff s s).1 refl

    same_flag_refl : (b : Bool) → same_flag b b ≡ true
    same_flag_refl true = refl
    same_flag_refl false = refl

    decode_for_lem :
        (s : Option SortOrder) (c : T)
        → decode_for d codec s (codec.encode (cursor_at d s c)) ≡ ok (cursor_at d s c)
    unfolding decode_for
    decode_for_lem s c = ground (
      arith,
      codec.decode-encode (cursor_at d s c),
      same_field_refl (attribute_of s),
      same_flag_refl (is_ascending s),
    )

    -- In rows in strict order, the cursor of a row keeps exactly the rows that stand behind it.
    pub after_cursor_lem :
        (s : Option SortOrder) (xs : List T) (c : T) (ys : List T)
        → Strict (before d s) (xs ++ c ∷ ys)
        → after_cursor d codec s (some (codec.encode (cursor_at d s c))) (xs ++ c ∷ ys) ≡ ok ys
    unfolding after_cursor
    after_cursor_lem s xs c ys h = rw decode_for_lem (
        ap (λ (l : List T). ok l)
          (ap (λ (p : T → Bool). keep p (xs ++ c ∷ ys)) (fun_ext (follows-eq-before s c))
            ∙ keep-before s xs c ys h))
