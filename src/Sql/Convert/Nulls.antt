-- ===== src/Sql/Convert/Nulls.antt =====
-- Python's `None` and SQL's NULL: equal to itself only, in no set of values, and not ordered.
use resourcey.Prelude.{
  ◌≡◌, refl, ap, Bool, true, false, not, Option, none, some, List, [], ◌∷◌, All, ◌⊎◌, inl, inr,
}
use resourcey.Value.{
  Value, Scalar, null, bool, int, text, uid, stamp, one, many, value_eq, value_lt, value_le,
  is_among, scalar_eq, scalar_lt,
}
use resourcey.Sql.{Alike, IsKnown, is_set}

pub set_or_null : (w : Value) → (w ≡ one null) ⊎ (is_set w ≡ true)
set_or_null (one null) = inl refl
set_or_null (one (bool b)) = inr refl
set_or_null (one (int n)) = inr refl
set_or_null (one (text t)) = inr refl
set_or_null (one (uid n)) = inr refl
set_or_null (one (stamp n)) = inr refl
set_or_null (many vs) = inr refl

pub value_eq-null : (w : Value) → value_eq w (one null) ≡ not (is_set w)
unfolding value_eq scalar_eq
value_eq-null (one null) = refl
value_eq-null (one (bool true)) = refl
value_eq-null (one (bool false)) = refl
value_eq-null (one (int n)) = refl
value_eq-null (one (text t)) = refl
value_eq-null (one (uid n)) = refl
value_eq-null (one (stamp n)) = refl
value_eq-null (many vs) = refl

pub null_eq-value : (w : Value) → IsKnown w → value_eq (one null) w ≡ false
unfolding value_eq scalar_eq
null_eq-value (one null) set = absurd set
null_eq-value (one (bool true)) set = refl
null_eq-value (one (bool false)) set = refl
null_eq-value (one (int n)) set = refl
null_eq-value (one (text t)) set = refl
null_eq-value (one (uid n)) set = refl
null_eq-value (one (stamp n)) set = refl
null_eq-value (many vs) set = absurd set

pub is_among-null : (vs : List Value) → All IsKnown vs → is_among (one null) vs ≡ false
unfolding is_among
is_among-null [] set = refl
is_among-null (v ∷ vs) (set, sets) = rw (null_eq-value v set) (is_among-null vs sets)

-- NULL and a value are not ordered.
pub null_orders :
    (v : Value)
    → (value_lt v (one null) ≡ none)
      × (value_lt (one null) v ≡ none)
      × (value_le v (one null) ≡ none)
      × (value_le (one null) v ≡ none)
unfolding value_lt value_le scalar_lt
null_orders (one null) = (refl, refl, refl, refl)
null_orders (one (bool true)) = (refl, refl, refl, refl)
null_orders (one (bool false)) = (refl, refl, refl, refl)
null_orders (one (int n)) = (refl, refl, refl, refl)
null_orders (one (text t)) = (refl, refl, refl, refl)
null_orders (one (uid n)) = (refl, refl, refl, refl)
null_orders (one (stamp n)) = (refl, refl, refl, refl)
null_orders (many vs) = (refl, refl, refl, refl)

-- A comparison that has an answer is not with NULL.
pub is_set-test :
    (test : Value → Option Bool) (w : Value) {b : Bool}
    → test (one null) ≡ none
    → test w ≡ some b
    → is_set w ≡ true
is_set-test test w at_null answer = elim (set_or_null w) [
  | inl e ↦ cc (at_null, answer, ap test e)
  | inr set ↦ set
]

pub is_set-IsKnown : (w : Value) → IsKnown w → is_set w ≡ true
is_set-IsKnown (one null) known = absurd known
is_set-IsKnown (one (bool b)) known = refl
is_set-IsKnown (one (int n)) known = refl
is_set-IsKnown (one (text t)) known = refl
is_set-IsKnown (one (uid n)) known = refl
is_set-IsKnown (one (stamp n)) known = refl
is_set-IsKnown (many vs) known = absurd known

-- One type is a symmetric matter.
pub Alike-sym : (s t : Scalar) → Alike (one s) (one t) → Alike (one t) (one s)
Alike-sym null null alike = tt
Alike-sym null (bool b) alike = tt
Alike-sym null (int b) alike = tt
Alike-sym null (text b) alike = tt
Alike-sym null (uid b) alike = tt
Alike-sym null (stamp b) alike = tt
Alike-sym (bool a) null alike = tt
Alike-sym (bool a) (bool b) alike = tt
Alike-sym (bool a) (int b) alike = absurd alike
Alike-sym (bool a) (text b) alike = absurd alike
Alike-sym (bool a) (uid b) alike = absurd alike
Alike-sym (bool a) (stamp b) alike = absurd alike
Alike-sym (int a) null alike = tt
Alike-sym (int a) (bool b) alike = absurd alike
Alike-sym (int a) (int b) alike = tt
Alike-sym (int a) (text b) alike = absurd alike
Alike-sym (int a) (uid b) alike = absurd alike
Alike-sym (int a) (stamp b) alike = absurd alike
Alike-sym (text a) null alike = tt
Alike-sym (text a) (bool b) alike = absurd alike
Alike-sym (text a) (int b) alike = absurd alike
Alike-sym (text a) (text b) alike = tt
Alike-sym (text a) (uid b) alike = absurd alike
Alike-sym (text a) (stamp b) alike = absurd alike
Alike-sym (uid a) null alike = tt
Alike-sym (uid a) (bool b) alike = absurd alike
Alike-sym (uid a) (int b) alike = absurd alike
Alike-sym (uid a) (text b) alike = absurd alike
Alike-sym (uid a) (uid b) alike = tt
Alike-sym (uid a) (stamp b) alike = absurd alike
Alike-sym (stamp a) null alike = tt
Alike-sym (stamp a) (bool b) alike = absurd alike
Alike-sym (stamp a) (int b) alike = absurd alike
Alike-sym (stamp a) (text b) alike = absurd alike
Alike-sym (stamp a) (uid b) alike = absurd alike
Alike-sym (stamp a) (stamp b) alike = tt
