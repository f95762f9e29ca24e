-- ===== src/Examples/Documents.antt =====
-- A collection of entries that evaluates queries on documents.
use Prim.Native.String as text_chars
use resourcey.Prelude.{
  ℕ, zero, suc, ◌≡◌, refl, sym, ap, ◌∙◌, String, Bool, true, false, not, ◌&&◌, ◌||◌, Option, none,
  some, str_eq, str_eq_iff, Bool-cases, inl, inr, ltb, ◌==◌, ==_iff, and_true, or_false, arith,
}
use resourcey.Value.{Value, null, text, one, Row, attribute, value_eq, value_lt, value_le, is_among}
use resourcey.Text.{occurs_in, text_lt}
use resourcey.Sql.{is_set}
use resourcey.Sql.Convert.Nulls.{null_orders, value_eq-null}
use resourcey.Filter.Answers.{not-not}
use resourcey.Mongo.{
  Query, empty, field_eq, field_ne, field_gt, field_ge, field_lt, field_le, field_regex, field_in,
  fields, all_of, any_of, none_of, Queries, end, also, Collection,
}
use resourcey.Mongo.Regex.{literal_of}
use resourcey.Mongo.Convert.{Identifiers}
use resourcey.Examples.Rows.{plain}
use resourcey.Examples.Database
use resourcey.Examples.Paged.{numbers}

-- Identifiers in unary.
unfoldable pub tally : ℕ → String
tally zero = ""
tally (suc n) = text_chars.◌∷◌ "a" (tally n)

pub tally-lt : (a b : ℕ) → text_lt (tally a) (tally b) ≡ ltb a b
unfolding tally text_lt
tally-lt zero zero = refl
tally-lt zero (suc b) = ground arith
tally-lt (suc a) zero = ground arith
tally-lt (suc a) (suc b) = tally-lt a b ∙ ground arith

same_tally : (a b : ℕ) → str_eq (tally a) (tally b) ≡ true → (ltb a b ≡ false) × (ltb b a ≡ false)
same_tally a b e =
    (let same = (str_eq_iff (tally a) (tally b)).0 e in
      (
        sym (tally-lt a b) ∙ ap (λ s. text_lt s (tally b)) same ∙ tally-lt b b ∙ ground arith,
        sym (tally-lt b a) ∙ ap (text_lt (tally b)) same ∙ tally-lt b b ∙ ground arith,
      ))

pub tally-eq : (a b : ℕ) → str_eq (tally a) (tally b) ≡ (a == b)
tally-eq a b = elim (Bool-cases (str_eq (tally a) (tally b))) [
  | inl e ↦ e ∙ (let h = same_tally a b e in ground (arith, h))
  | inr e ↦ elim (Bool-cases (a == b)) [
    | inl f ↦ cc ((str_eq_iff (tally a) (tally b)).1 (ap tally ((==_iff a b).0 f)))
    | inr f ↦ e ∙ sym f
  ]
]

instance abbrev pub tallies : Identifiers
tallies = record { uuid_text = tally; eq-uuid_text = tally-eq; lt-uuid_text = tally-lt }

-- A regular expression is sought in a text when it is a literal.
abbrev pub found_in : Option String → Value → Bool
found_in (some needle) (one (text stored)) = occurs_in (plain.lower needle) (plain.lower stored)
found_in p v = false

mutual
  unfolding value_eq value_lt value_le is_among attribute literal_of

  pub eval : Query → Row → Bool
  eval empty d = true
  eval (field_eq n v) d = value_eq (attribute n d) v
  eval (field_ne n v) d = not (value_eq (attribute n d) v)
  eval (field_gt n v) d = Database.holds (value_lt v (attribute n d))
  eval (field_ge n v) d = Database.holds (value_le v (attribute n d))
  eval (field_lt n v) d = Database.holds (value_lt (attribute n d) v)
  eval (field_le n v) d = Database.holds (value_le (attribute n d) v)
  eval (field_regex n p) d = found_in (literal_of false p) (attribute n d)
  eval (field_in n vs) d = is_among (attribute n d) vs
  eval (fields a b) d = eval a d && eval b d
  eval (all_of qs) d = eval_all qs d
  eval (any_of qs) d = eval_any qs d
  eval (none_of qs) d = not (eval_any qs d)

  eval_all : Queries → Row → Bool
  eval_all end d = true
  eval_all (also q qs) d = eval q d && eval_all qs d

  eval_any : Queries → Row → Bool
  eval_any end d = false
  eval_any (also q qs) d = eval q d || eval_any qs d

pub found_in-null : (o : Option String) → found_in o (one null) ≡ false
found_in-null none = refl
found_in-null (some s) = refl

pub eval-ne_null : (n : String) (d : Row) → eval (field_ne n (one null)) d ≡ is_set (attribute n d)
unfolding eval
eval-ne_null n d = ap not (value_eq-null (attribute n d)) ∙ sym (not-not (is_set (attribute n d)))

pub eval-null :
    (n : String) (v : Value) (d : Row)
    → attribute n d ≡ one null
    → (eval (field_gt n v) d ≡ false) × (eval (field_lt n v) d ≡ false)
unfolding eval
eval-null n v d e =
    (rw e (ap Database.holds (null_orders v).0), rw e (ap Database.holds (null_orders v).1))

abbrev pub collection : Collection ⦃c = plain⦄
unfolding eval
collection = record {
  finds = eval;
  finds-empty = λ d. refl;
  finds-eq = λ n v d alike. refl;
  finds-ne_null = eval-ne_null;
  finds-compared = λ n v d b known alike. (
    (λ e. ap Database.holds e),
    (λ e. ap Database.holds e),
    (λ e. ap Database.holds e),
    λ e. ap Database.holds e,
  );
  finds-null = λ n v d known e. eval-null n v d e;
  finds-regex = λ n p needle t d reads e. rw (reads, e) refl;
  finds-regex_null = λ n p d e. rw e (found_in-null (literal_of false p));
  finds-in = λ n vs d alike. refl;
  finds-fields = λ a b d. refl;
  finds-all_one = λ q d. and_true (eval q d);
  finds-all = λ q q' qs d. refl;
  finds-any_one = λ q d. or_false (eval q d);
  finds-any = λ q q' qs d. refl;
  finds-none_of = λ q d. ap not (or_false (eval q d));
}
