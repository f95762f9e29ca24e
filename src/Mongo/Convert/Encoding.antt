-- ===== src/Mongo/Convert/Encoding.antt =====
-- Values as a Mongo collection stores them (`_encode` of resourcey/mongo/mongo_filter_converter.py):
-- encoded values compare as the values do.
use resourcey.Prelude.{◌≡◌, refl, ap, ap₂, ◌||◌, some, List, [], ◌∷◌, map, All}
use resourcey.Value.{
  Value, null, bool, int, text, uid, stamp, one, many, value_eq, value_lt, value_le, is_among,
  scalar_eq, scalar_lt, or_equal,
}
use resourcey.Sql.{IsKnown}
use resourcey.Mongo.{IsAlike, null_any, any_null, bools, ints, texts, uids, stamps}
use resourcey.Mongo.Convert.{Identifiers, encode}

module _ ⦃i : Identifiers⦄ where
  pub encode-IsAlike : {w v : Value} → IsAlike w v → IsAlike (encode w) (encode v)
  unfolding encode
  encode-IsAlike (null_any null) = null_any null
  encode-IsAlike (null_any (bool b)) = null_any (bool b)
  encode-IsAlike (null_any (int n)) = null_any (int n)
  encode-IsAlike (null_any (text t)) = null_any (text t)
  encode-IsAlike (null_any (uid u)) = null_any (text (i.uuid_text u))
  encode-IsAlike (null_any (stamp t)) = null_any (stamp t)
  encode-IsAlike (any_null null) = any_null null
  encode-IsAlike (any_null (bool b)) = any_null (bool b)
  encode-IsAlike (any_null (int n)) = any_null (int n)
  encode-IsAlike (any_null (text t)) = any_null (text t)
  encode-IsAlike (any_null (uid u)) = any_null (text (i.uuid_text u))
  encode-IsAlike (any_null (stamp t)) = any_null (stamp t)
  encode-IsAlike (bools a b) = bools a b
  encode-IsAlike (ints a b) = ints a b
  encode-IsAlike (texts s t) = texts s t
  encode-IsAlike (uids a b) = texts (i.uuid_text a) (i.uuid_text b)
  encode-IsAlike (stamps a b e f) = stamps a b e f

  pub value_eq-encode : {w v : Value} → IsAlike w v → value_eq (encode w) (encode v) ≡ value_eq w v
  unfolding encode value_eq scalar_eq
  value_eq-encode (null_any null) = refl
  value_eq-encode (null_any (bool b)) = refl
  value_eq-encode (null_any (int n)) = refl
  value_eq-encode (null_any (text t)) = refl
  value_eq-encode (null_any (uid u)) = refl
  value_eq-encode (null_any (stamp t)) = refl
  value_eq-encode (any_null null) = refl
  value_eq-encode (any_null (bool b)) = refl
  value_eq-encode (any_null (int n)) = refl
  value_eq-encode (any_null (text t)) = refl
  value_eq-encode (any_null (uid u)) = refl
  value_eq-encode (any_null (stamp t)) = refl
  value_eq-encode (bools a b) = refl
  value_eq-encode (ints a b) = refl
  value_eq-encode (texts s t) = refl
  value_eq-encode (uids a b) = i.eq-uuid_text a b
  value_eq-encode (stamps a b e f) = refl

  -- The order of two values, from either side.
  pub orders-encode :
      {w v : Value}
      → IsAlike w v
      → (value_lt (encode v) (encode w) ≡ value_lt v w)
        × (value_le (encode v) (encode w) ≡ value_le v w)
        × (value_lt (encode w) (encode v) ≡ value_lt w v)
        × (value_le (encode w) (encode v) ≡ value_le w v)
  unfolding encode value_lt value_le scalar_lt scalar_eq or_equal
  orders-encode (null_any null) = (refl, refl, refl, refl)
  orders-encode (null_any (bool b)) = (refl, refl, refl, refl)
  orders-encode (null_any (int n)) = (refl, refl, refl, refl)
  orders-encode (null_any (text t)) = (refl, refl, refl, refl)
  orders-encode (null_any (uid u)) = (refl, refl, refl, refl)
  orders-encode (null_any (stamp t)) = (refl, refl, refl, refl)
  orders-encode (any_null null) = (refl, refl, refl, refl)
  orders-encode (any_null (bool b)) = (refl, refl, refl, refl)
  orders-encode (any_null (int n)) = (refl, refl, refl, refl)
  orders-encode (any_null (text t)) = (refl, refl, refl, refl)
  orders-encode (any_null (uid u)) = (refl, refl, refl, refl)
  orders-encode (any_null (stamp t)) = (refl, refl, refl, refl)
  orders-encode (bools a b) = (refl, refl, refl, refl)
  orders-encode (ints a b) = (refl, refl, refl, refl)
  orders-encode (texts s t) = (refl, refl, refl, refl)
  orders-encode (uids a b) = (
    ap some (i.lt-uuid_text b a),
    ap some (ap₂ ◌||◌ (i.eq-uuid_text b a) (i.lt-uuid_text b a)),
    ap some (i.lt-uuid_text a b),
    ap some (ap₂ ◌||◌ (i.eq-uuid_text a b) (i.lt-uuid_text a b)),
  )
  orders-encode (stamps a b e f) = (refl, refl, refl, refl)

  pub AllAlike-encode :
      (w : Value) (vs : List Value) → All (IsAlike w) vs → All (IsAlike (encode w)) (map encode vs)
  AllAlike-encode w [] alike = tt
  AllAlike-encode w (v ∷ vs) (alike, rest) = (encode-IsAlike alike, AllAlike-encode w vs rest)

  pub is_among-encode :
      (w : Value) (vs : List Value)
      → All (IsAlike w) vs
      → is_among (encode w) (map encode vs) ≡ is_among w vs
  unfolding is_among
  is_among-encode w [] alike = refl
  is_among-encode w (v ∷ vs) (alike, rest) =
      ap₂ ◌||◌ (value_eq-encode alike) (is_among-encode w vs rest)

  pub encode-IsKnown : (v : Value) → IsKnown v → IsKnown (encode v)
  unfolding encode
  encode-IsKnown (one null) known = absurd known
  encode-IsKnown (one (bool b)) known = tt
  encode-IsKnown (one (int n)) known = tt
  encode-IsKnown (one (text t)) known = tt
  encode-IsKnown (one (uid u)) known = tt
  encode-IsKnown (one (stamp t)) known = tt
  encode-IsKnown (many vs) known = absurd known
