-- ===== src/Value/Order.antt =====
-- The comparisons of resourcey/util/search_filter.py on values: `a <= b` answers as `b < a` does,
-- inverted.
use Prim.Native.Char.{code}
use Prim.Native.String.{[], ◌∷◌}
use resourcey.Prelude.{
  ℕ, String, ◌≡◌, refl, sym, ap, ◌∙◌, ap₂, subst, ◌≢◌, Bool, false, not, ◌||◌, Option, none, some,
  arith, ltb, ◌==◌, ==_iff, str_eq, str_eq_iff, Bool-cases, inl, inr,
}
use package.text.Mathlib.TextEquality.{Char-path}
use resourcey.Prelude.Int.{ℤ, pos, negsuc, eqb_ℤ, ltb_ℤ}
use resourcey.Text.{text_lt}
use resourcey.Value.{
  Scalar, null, bool, int, text, uid, stamp, Value, one, many, as_number, both, or_equal, scalar_eq,
  scalar_lt, value_lt, value_le,
}

int-flip : (a b : ℤ) → ltb_ℤ b a ≡ not (eqb_ℤ a b || ltb_ℤ a b)
int-flip (pos a) (pos b) = ground arith
int-flip (pos a) (negsuc b) = refl
int-flip (negsuc a) (pos b) = refl
int-flip (negsuc a) (negsuc b) = ground arith

nat_flip : (p q : ℕ) → ltb q p ≡ not (p == q || ltb p q)
nat_flip p q = ground arith

bool_of : Option Bool → Bool
bool_of none = false
bool_of (some a) = a

some-injective : {a b : Bool} → some a ≡ some b → a ≡ b
unfolding bool_of
some-injective e = ap bool_of e

text_lt_irrefl : (s : String) → text_lt s s ≡ false
unfolding text_lt
text_lt_irrefl [] = refl
text_lt_irrefl (c ∷ s) = rw ((==_iff (code c) (code c)).1 refl) (text_lt_irrefl s)

text_lt-other : (s t : String) → s ≢ t → text_lt t s ≡ not (text_lt s t)
unfolding text_lt
text_lt-other [] [] other = absurd (other refl)
text_lt-other [] (d ∷ t) other = refl
text_lt-other (c ∷ s) [] other = refl
text_lt-other (c ∷ s) (d ∷ t) other = elim (Bool-cases (code c == code d)) [
  | inl e ↦
      rw (e, (==_iff (code d) (code c)).1 (sym ((==_iff (code c) (code d)).0 e)))
        (text_lt-other s t
          (λ same. other (ap₂ ◌∷◌ (Char-path c d ((==_iff (code c) (code d)).0 e)) same)))
  | inr e ↦
      (let f : (code d == code c) ≡ false = ground (arith, e) in rw (e, f) (ground (arith, e)))
]

text-flip : (s t : String) → text_lt t s ≡ not (str_eq s t || text_lt s t)
text-flip s t = elim (Bool-cases (str_eq s t)) [
  | inl e ↦ rw e (subst (λ u. text_lt u s ≡ false) ((str_eq_iff s t).0 e) (text_lt_irrefl s))
  | inr e ↦ rw e (text_lt-other s t (λ same. cc ((str_eq_iff s t).1 same, e)))
]

number-flip :
    (a b : Option ℤ) {c : Bool}
    → or_equal (both eqb_ℤ a b false) (both (λ x y. some (ltb_ℤ x y)) a b none) ≡ some c
    → both (λ x y. some (ltb_ℤ x y)) b a none ≡ some (not c)
unfolding or_equal
number-flip none b e = cc
number-flip (some x) none e = cc
number-flip (some x) (some y) e = ap some (int-flip x y ∙ ap not (some-injective e))

nat-flip : (p q : ℕ) {c : Bool} → some (p == q || ltb p q) ≡ some c → some (ltb q p) ≡ some (not c)
nat-flip p q e = ap some (nat_flip p q ∙ ap not (some-injective e))

scalar-flip :
    (a b : Scalar) {c : Bool}
    → or_equal (scalar_eq a b) (scalar_lt a b) ≡ some c
    → scalar_lt b a ≡ some (not c)
unfolding scalar_eq scalar_lt or_equal
scalar-flip null null e = number-flip (as_number null) (as_number null) e
scalar-flip null (bool q) e = number-flip (as_number null) (as_number (bool q)) e
scalar-flip null (int q) e = number-flip (as_number null) (as_number (int q)) e
scalar-flip null (text q) e = number-flip (as_number null) (as_number (text q)) e
scalar-flip null (uid q) e = number-flip (as_number null) (as_number (uid q)) e
scalar-flip null (stamp q) e = number-flip (as_number null) (as_number (stamp q)) e
scalar-flip (bool p) null e = number-flip (as_number (bool p)) (as_number null) e
scalar-flip (bool p) (bool q) e = number-flip (as_number (bool p)) (as_number (bool q)) e
scalar-flip (bool p) (int q) e = number-flip (as_number (bool p)) (as_number (int q)) e
scalar-flip (bool p) (text q) e = number-flip (as_number (bool p)) (as_number (text q)) e
scalar-flip (bool p) (uid q) e = number-flip (as_number (bool p)) (as_number (uid q)) e
scalar-flip (bool p) (stamp q) e = number-flip (as_number (bool p)) (as_number (stamp q)) e
scalar-flip (int p) null e = number-flip (as_number (int p)) (as_number null) e
scalar-flip (int p) (bool q) e = number-flip (as_number (int p)) (as_number (bool q)) e
scalar-flip (int p) (int q) e = number-flip (as_number (int p)) (as_number (int q)) e
scalar-flip (int p) (text q) e = number-flip (as_number (int p)) (as_number (text q)) e
scalar-flip (int p) (uid q) e = number-flip (as_number (int p)) (as_number (uid q)) e
scalar-flip (int p) (stamp q) e = number-flip (as_number (int p)) (as_number (stamp q)) e
scalar-flip (text p) null e = number-flip (as_number (text p)) (as_number null) e
scalar-flip (text p) (bool q) e = number-flip (as_number (text p)) (as_number (bool q)) e
scalar-flip (text p) (int q) e = number-flip (as_number (text p)) (as_number (int q)) e
scalar-flip (text p) (text q) e = ap some (text-flip p q ∙ ap not (some-injective e))
scalar-flip (text p) (uid q) e = number-flip (as_number (text p)) (as_number (uid q)) e
scalar-flip (text p) (stamp q) e = number-flip (as_number (text p)) (as_number (stamp q)) e
scalar-flip (uid p) null e = number-flip (as_number (uid p)) (as_number null) e
scalar-flip (uid p) (bool q) e = number-flip (as_number (uid p)) (as_number (bool q)) e
scalar-flip (uid p) (int q) e = number-flip (as_number (uid p)) (as_number (int q)) e
scalar-flip (uid p) (text q) e = number-flip (as_number (uid p)) (as_number (text q)) e
scalar-flip (uid p) (uid q) e = nat-flip p q e
scalar-flip (uid p) (stamp q) e = number-flip (as_number (uid p)) (as_number (stamp q)) e
scalar-flip (stamp p) null e = number-flip (as_number (stamp p)) (as_number null) e
scalar-flip (stamp p) (bool q) e = number-flip (as_number (stamp p)) (as_number (bool q)) e
scalar-flip (stamp p) (int q) e = number-flip (as_number (stamp p)) (as_number (int q)) e
scalar-flip (stamp p) (text q) e = number-flip (as_number (stamp p)) (as_number (text q)) e
scalar-flip (stamp p) (uid q) e = number-flip (as_number (stamp p)) (as_number (uid q)) e
scalar-flip (stamp p) (stamp q) e = nat-flip p q e

-- `a <= b` is the opposite of `b < a`, where a scalar is compared.
pub le-flip :
    (s : Scalar) (w : Value) {c : Bool}
    → value_le (one s) w ≡ some c
    → value_lt w (one s) ≡ some (not c)
unfolding value_le value_lt
le-flip s (one t) e = scalar-flip s t e
le-flip s (many ts) e = cc

pub le-flip_right :
    (w : Value) (s : Scalar) {c : Bool}
    → value_le w (one s) ≡ some c
    → value_lt (one s) w ≡ some (not c)
unfolding value_le value_lt
le-flip_right (one t) s e = scalar-flip t s e
le-flip_right (many ts) s e = cc
