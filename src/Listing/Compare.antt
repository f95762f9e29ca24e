-- ===== src/Listing/Compare.antt =====
-- `AttrSortOrder.compare` of resourcey/util/sort_order.py, against the order that the list service
-- sorts by.
use resourcey.Prelude.{◌≡◌, refl, Bool, true, false, Option, none, some, if◌then◌else◌, arith}
use resourcey.Service.{SortOrder}
use resourcey.Listing.{Ordered, Schema, key_lt, key_precedes}

pub data CompareResult : Type 0 where
  less greater same : CompareResult

-- `_reverse`.
abbrev reverse : CompareResult → CompareResult
reverse less = greater
reverse greater = less
reverse same = same

module _ {V : Type 0} ⦃v : Ordered V⦄ where
  -- `_sorts_first`: `None` sorts first.
  unfoldable pub sorts_first : Option V → Option V → Bool
  sorts_first none none = false
  sorts_first none (some r) = true
  sorts_first (some l) none = false
  sorts_first (some l) (some r) = v.lt l r

  abbrev equal_keys : Option V → Option V → Bool
  equal_keys none none = true
  equal_keys (some l) (some r) = v.eqb l r
  equal_keys _ _ = false

  unfoldable pub compare_keys : Bool → Option V → Option V → CompareResult
  unfolding sorts_first
  compare_keys descending left right =
      if equal_keys left right
      then same
      else let result = if sorts_first left right then less else greater in
        if descending then reverse result else result

  compare_keys_lem :
      (descending : Bool) (l r : Option V)
      → compare_keys descending l r ≡ (
          if (if descending then key_lt r l else key_lt l r)
          then less
          else if (if descending then key_lt l r else key_lt r l)
          then greater
          else same)
  unfolding compare_keys sorts_first
  compare_keys_lem true none none = refl
  compare_keys_lem false none none = refl
  compare_keys_lem true none (some r) = refl
  compare_keys_lem false none (some r) = refl
  compare_keys_lem true (some l) none = refl
  compare_keys_lem false (some l) none = refl
  compare_keys_lem d (some l) (some r) =
      grind (arith, v.eqb_iff l r, v.lt_irrefl l, v.lt_irrefl r, v.lt_total l r, v.lt_trans l r l)

module _ {T V : Type 0} ⦃v : Ordered V⦄ (d : Schema T V) where
  unfoldable pub compare : SortOrder → T → T → CompareResult
  unfolding compare_keys
  compare o a b = compare_keys o.descending (d.get o.sort_attribute a) (d.get o.sort_attribute b)

  -- `compare` of an attribute order is less, greater or same exactly as the list service's sort by
  -- that order puts the first row before the second, the second before the first, or neither.
  pub compare-key_precedes :
      (o : SortOrder) (a b : T)
      → compare o a b
        ≡ (if key_precedes d o a b then less else if key_precedes d o b a then greater else same)
  unfolding compare
  compare-key_precedes o a b =
      compare_keys_lem o.descending (d.get o.sort_attribute a) (d.get o.sort_attribute b)
