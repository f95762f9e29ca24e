-- ===== src/Examples/Database.antt =====
-- A database that evaluates the conditions on rows.
use resourcey.Prelude.{
  String, ◌≡◌, refl, ap, Bool, true, false, not, ◌&&◌, ◌||◌, Option, none, some,
}
use resourcey.Value.{Value, null, text, one, Row, attribute, value_eq, value_lt, is_among}
use resourcey.Text.{occurs_in}
use resourcey.Sql.Like.{Pattern, literal, wild, parts_from}
use resourcey.Sql.{
  Cond, always, never, is_null, is_not_null, col_eq, col_gt, col_ge, col_lt, col_le,
  is_distinct_from, ilike, not_ilike, col_in, col_not_in, both_of, any_of, Conds, end, also, is_set,
  Database,
}
use resourcey.Sql.Convert.Nulls.{null_orders}
use resourcey.Examples.Rows.{plain}

abbrev pub holds : Option Bool → Bool
holds none = false
holds (some b) = b

abbrev pub fails : Option Bool → Bool
fails none = false
fails (some b) = not b

-- A pattern is sought when it has the form of a substring test.
abbrev pub sought : Pattern → Value → (Bool → Bool) → Bool
sought (wild s true (wild needle true (literal t))) (one (text stored)) answer =
    answer (occurs_in (plain.lower needle) (plain.lower stored))
sought p v answer = false

unfoldable mutual
  unfolding value_eq value_lt is_among attribute parts_from

  pub eval : Cond → Row → Bool
  eval always r = true
  eval never r = false
  eval (is_null n) r = not (is_set (attribute n r))
  eval (is_not_null n) r = is_set (attribute n r)
  eval (col_eq n v) r = value_eq (attribute n r) v
  eval (is_distinct_from n v) r = not (value_eq (attribute n r) v)
  eval (col_gt n v) r = holds (value_lt v (attribute n r))
  eval (col_le n v) r = fails (value_lt v (attribute n r))
  eval (col_lt n v) r = holds (value_lt (attribute n r) v)
  eval (col_ge n v) r = fails (value_lt (attribute n r) v)
  eval (ilike n p) r = sought (parts_from false p) (attribute n r) (λ b. b)
  eval (not_ilike n p) r = sought (parts_from false p) (attribute n r) not
  eval (col_in n vs) r = is_among (attribute n r) vs
  eval (col_not_in n vs) r = not (is_among (attribute n r) vs)
  eval (both_of cs) r = eval_both cs r
  eval (any_of cs) r = eval_any cs r

  pub eval_both : Conds → Row → Bool
  eval_both end r = true
  eval_both (also c cs) r = eval c r && eval_both cs r

  pub eval_any : Conds → Row → Bool
  eval_any end r = false
  eval_any (also c cs) r = eval c r || eval_any cs r

pub sought-null : (p : Pattern) (answer : Bool → Bool) → sought p (one null) answer ≡ false
sought-null (wild s true (wild needle true (literal t))) answer = refl
sought-null (wild s true (wild needle true (wild t x q))) answer = refl
sought-null (wild s true (wild needle false q)) answer = refl
sought-null (wild s true (literal t)) answer = refl
sought-null (wild s false q) answer = refl
sought-null (literal t) answer = refl

pub eval-null :
    (n : String) (v : Value) (r : Row)
    → attribute n r ≡ one null
    → (eval (col_gt n v) r ≡ false) × (eval (col_lt n v) r ≡ false)
unfolding eval
eval-null n v r e = (rw e (ap holds (null_orders v).0), rw e (ap holds (null_orders v).1))

abbrev pub database : Database ⦃c = plain⦄
unfolding eval
database = record {
  selects = eval;
  selects-always = λ r. refl;
  selects-never = λ r. refl;
  selects-is_null = λ n r. refl;
  selects-is_not_null = λ n r. refl;
  selects-eq = λ n v r known alike. (refl, refl);
  selects-gt = λ n s r b alike e. (ap holds e, ap fails e);
  selects-lt = λ n s r b alike e. (ap holds e, ap fails e);
  selects-null = λ n v r e. eval-null n v r e;
  selects-ilike =
      λ n p needle t r parts e plain_needle plain_text. (rw (parts, e) refl, rw (parts, e) refl);
  selects-ilike_null = λ n p r e. (
    rw e (sought-null (parts_from false p) (λ b. b)),
    rw e (sought-null (parts_from false p) not),
  );
  selects-in = λ n v vs r known scalar. (refl, λ set. refl);
  selects-both_end = λ r. refl;
  selects-both = λ a as' r. refl;
  selects-any_end = λ r. refl;
  selects-any = λ a as' r. refl;
}
