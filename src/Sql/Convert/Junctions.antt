-- ===== src/Sql/Convert/Junctions.antt =====
-- The junctions and leaves that resourcey/sql/filter_converter.py builds, against the children that
-- `all` and `any` try in memory.
use resourcey.Filter.Answers.{flipped}
use resourcey.Prelude.{
  String, ◌≡◌, refl, sym, ap, ◌∙◌, Bool, true, false, not, List, [], ◌∷◌, inl, inr, str_eq,
  if-cases,
}
use resourcey.Value.{Row}
use resourcey.Failure.{Result, ok, ok-injective}
use resourcey.Filter.{Casing}
use resourcey.Sql.{Cond, both_of, any_of, Conds, also, Database}
use resourcey.Sql.Convert.Meaning.{chosen-Answers, selects-conjunction, selects-disjunction}
use resourcey.Sql.Convert.{column_for, chosen, conjunction, disjunction}

pub column_for-same :
    (cols : List String) (n : String) {m : String} → column_for cols n ≡ ok m → m ≡ n
unfolding column_for
column_for-same [] n e = cc
column_for-same (q ∷ qs) n {m} e = elim (if-cases (str_eq q n) (ok n) (column_for qs n) e) [
  | inl (same, found) ↦ sym (ok-injective found)
  | inr (other, found) ↦ column_for-same qs n found
]

module _ ⦃c : Casing⦄ (db : Database) (r : Row) where
  -- A rule that was chosen for a bound column.
  pub leaf-selects :
      (neg : Bool) {positive negated k : Cond} {b b' : Bool}
      → ◌≡◌ {A = Result Cond} (ok (chosen neg positive negated)) (ok k)
      → (db.selects positive r ≡ b') × (db.selects negated r ≡ not b')
      → ◌≡◌ {A = Result Bool} (ok b') (ok b)
      → db.selects k r ≡ flipped neg b
  leaf-selects neg {b} {b'} e answers same =
      ap (λ k. db.selects k r) (sym (ok-injective e))
      ∙ chosen-Answers db neg {b = b'} answers
      ∙ ap (flipped neg) (ok-injective same)

  abbrev pub AllSelect : Bool → Bool → Conds → Type 0
  AllSelect neg b ks = db.selects (chosen neg (both_of ks) (any_of ks)) r ≡ flipped neg b

  abbrev pub AnySelect : Bool → Bool → Conds → Type 0
  AnySelect neg b ks = db.selects (chosen neg (any_of ks) (both_of ks)) r ≡ flipped neg b

  pub junction-all :
      (neg b : Bool) (ks : Conds)
      → AllSelect neg b ks
      → db.selects (chosen neg (conjunction ks) (disjunction ks)) r ≡ flipped neg b
  junction-all true b ks e = selects-disjunction db ks r ∙ e
  junction-all false b ks e = selects-conjunction db ks r ∙ e

  pub junction-any :
      (neg b : Bool) (ks : Conds)
      → AnySelect neg b ks
      → db.selects (chosen neg (disjunction ks) (conjunction ks)) r ≡ flipped neg b
  junction-any true b ks e = selects-conjunction db ks r ∙ e
  junction-any false b ks e = selects-disjunction db ks r ∙ e

  -- A child that holds leaves the answer to the rest of a conjunction, and one that fails decides.
  pub also-AllSelect :
      (neg b : Bool) (k : Cond) (ks : Conds)
      → db.selects k r ≡ flipped neg true
      → AllSelect neg b ks
      → AllSelect neg b (also k ks)
  also-AllSelect true b k ks held rest = db.selects-any k ks r ∙ rw held rest
  also-AllSelect false b k ks held rest = db.selects-both k ks r ∙ rw held rest

  pub stop-AllSelect :
      (neg : Bool) (k : Cond) (ks : Conds)
      → db.selects k r ≡ flipped neg false
      → AllSelect neg false (also k ks)
  stop-AllSelect true k ks failed = db.selects-any k ks r ∙ rw failed refl
  stop-AllSelect false k ks failed = db.selects-both k ks r ∙ rw failed refl

  pub also-AnySelect :
      (neg b : Bool) (k : Cond) (ks : Conds)
      → db.selects k r ≡ flipped neg false
      → AnySelect neg b ks
      → AnySelect neg b (also k ks)
  also-AnySelect true b k ks failed rest = db.selects-both k ks r ∙ rw failed rest
  also-AnySelect false b k ks failed rest = db.selects-any k ks r ∙ rw failed rest

  pub stop-AnySelect :
      (neg : Bool) (k : Cond) (ks : Conds)
      → db.selects k r ≡ flipped neg true
      → AnySelect neg true (also k ks)
  stop-AnySelect true k ks held = db.selects-both k ks r ∙ rw held refl
  stop-AnySelect false k ks held = db.selects-any k ks r ∙ rw held refl
