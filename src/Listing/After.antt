-- ===== src/Listing/After.antt =====
-- `_after_cursor_item` of resourcey/list/list_service.py as the backends spell it: the comparisons of
-- a row's key and id that its branches come to.
use resourcey.Prelude.{
  ◌≡◌, refl, Bool, true, false, not, ◌&&◌, ◌||◌, Option, none, some, is_some, arith,
}
use resourcey.Listing.{Ordered, after_cursor_item}

module _ {V : Type 0} ⦃v : Ordered V⦄ where
  abbrev pub is_after : V → Option V → Bool
  is_after a none = false
  is_after a (some b) = v.lt a b

  abbrev pub is_before : V → Option V → Bool
  is_before a none = false
  is_before a (some b) = v.lt b a

  abbrev pub is_at : V → Option V → Bool
  is_at a none = false
  is_at a (some b) = v.eqb b a

  pub from_null_up :
      (cursor_id : V) (k : Option V) (i : V)
      → is_some k || (not (is_some k) && v.lt cursor_id i)
        ≡ after_cursor_item true none cursor_id k i
  unfolding after_cursor_item
  from_null_up cursor_id none i = refl
  from_null_up cursor_id (some b) i = refl

  pub from_null_down :
      (cursor_id : V) (k : Option V) (i : V)
      → not (is_some k) && v.lt cursor_id i ≡ after_cursor_item false none cursor_id k i
  unfolding after_cursor_item
  from_null_down cursor_id none i = refl
  from_null_down cursor_id (some b) i = refl

  pub from_key_up :
      (a cursor_id : V) (k : Option V) (i : V)
      → is_after a k || (is_at a k && v.lt cursor_id i)
        ≡ after_cursor_item true (some a) cursor_id k i
  unfolding after_cursor_item
  from_key_up a cursor_id none i = refl
  from_key_up a cursor_id (some b) i = refl

  pub from_key_down :
      (a cursor_id : V) (k : Option V) (i : V)
      → is_before a k || ((is_at a k && v.lt cursor_id i) || not (is_some k))
        ≡ after_cursor_item false (some a) cursor_id k i
  unfolding after_cursor_item
  from_key_down a cursor_id none i = refl
  from_key_down a cursor_id (some b) i = ground arith
