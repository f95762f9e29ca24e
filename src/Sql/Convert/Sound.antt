-- ===== src/Sql/Convert/Sound.antt =====
-- The expressions of resourcey/sql/filter_converter.py select what the filter matches, and their
-- complements what it does not, NULLs included.
use resourcey.Filter.Answers.{
  flipped, compared-eq-ok, flipped-not, inverted-eq-ok, and_then-cases, or_else-cases, subject,
}
use resourcey.Prelude.{
  String, ◌≡◌, refl, sym, ap, ◌∙◌, subst, Bool, true, false, not, Option, none, some, List, All,
  inl, inr,
}
use resourcey.Value.{
  Value, null, bool, int, text, uid, stamp, one, many, Row, attribute, value_lt, value_le,
}
use resourcey.Failure.{ok, >>=-eq-ok, ok-injective}
use resourcey.Filter.{
  Filter, all, no_match, conj, disj, negate, at, eq, gt, ge, lt, le, contains, among, Filters, nil,
  cons, Casing, row, matches, all_match, any_match,
}
use resourcey.Sql.{Cond, Conds, also, IsKnown, Alike, Database}
use resourcey.Sql.Like.{IsAscii}
use resourcey.Sql.Convert.Meaning.{
  chosen-Answers, eq-Answers, gt-Answers, ge-Answers, lt-Answers, le-Answers, in-Answers,
  contains-Answers, IsAsciiText, not_many,
}
use resourcey.Sql.Convert.Total.{is_bound, is_ordered, are_ordered, is_orderable, convertible}
use resourcey.Sql.Convert.{Printing, condition, conditions, column_for}
use resourcey.Sql.Convert.Junctions.{
  column_for-same, leaf-selects, junction-all, junction-any, also-AllSelect, stop-AllSelect,
  also-AnySelect, stop-AnySelect, AllSelect, AnySelect,
}

-- Against a column of its own type; a test that names no column is left to the converter.
abbrev pub AlikeAt : Option String → Row → Value → Type 0
AlikeAt none r v = Unit
AlikeAt (some n) r v = Alike (attribute n r) v

-- An order of a column and a value of its type, which is not a Boolean.
abbrev pub OrderedAt : Option String → Row → Value → Type 0
OrderedAt col r v = (is_orderable v ≡ true) × AlikeAt col r v

-- A filter that fits the columns: no attribute of an attribute, comparisons with values of the
-- column's type, by an order with neither NULL nor a Boolean, no NULL in a set of values, and a
-- substring is an ASCII text and sought in a column of such.
abbrev mutual
  pub Fits : Option String → Row → Filter → Type 0
  Fits col r (conj fs) = AllFit col r fs
  Fits col r (disj fs) = AllFit col r fs
  Fits col r (negate f) = Fits col r f
  Fits none r (at n f) = Fits (some n) r f
  Fits (some m) r (at n f) = ⊥
  Fits (some n) r (contains (one (text t))) = IsAscii t × IsAsciiText (attribute n r)
  Fits col r (contains v) = ⊥
  Fits (some n) r (among vs) = All IsKnown vs × All (Alike (attribute n r)) vs
  Fits (some n) r (eq v) = Alike (attribute n r) v
  Fits col r (gt v) = OrderedAt col r v
  Fits col r (ge v) = OrderedAt col r v
  Fits col r (lt v) = OrderedAt col r v
  Fits col r (le v) = OrderedAt col r v
  Fits col r f = Unit

  pub AllFit : Option String → Row → Filters → Type 0
  AllFit col r nil = Unit
  AllFit col r (cons f fs) = Fits col r f × AllFit col r fs

module _ ⦃c : Casing⦄ ⦃p : Printing⦄ (db : Database) (r : Row) where
  -- The expression of a filter, or of its complement, on a row.
  mutual
    unfolding condition matches

    selects-matches :
        (cols : List String) (col : Option String) (neg : Bool) (f : Filter) {k : Cond} {b : Bool}
        → Fits col r f
        → condition cols col neg f ≡ ok k
        → matches f (subject col r) ≡ ok b
        → db.selects k r ≡ flipped neg b
    selects-matches cols col neg all fits e m =
        leaf-selects db r neg e (db.selects-always r, db.selects-never r) m
    selects-matches cols col neg no_match fits e m =
        leaf-selects db r neg e (db.selects-never r, db.selects-always r) m
    selects-matches cols col neg (negate f) {b} fits e m =
        selects-matches cols col (not neg) f fits e (inverted-eq-ok (matches f (subject col r)) m)
        ∙ flipped-not neg b
    selects-matches cols col neg (conj fs) {b} fits e m =
        (let found = >>=-eq-ok (conditions cols col neg fs) _ e in
          ap (λ k. db.selects k r) (sym (ok-injective found.2))
          ∙ junction-all db r neg b found.0 (all_match-AllSelect cols col neg fs fits found.1 m))
    selects-matches cols col neg (disj fs) {b} fits e m =
        (let found = >>=-eq-ok (conditions cols col neg fs) _ e in
          ap (λ k. db.selects k r) (sym (ok-injective found.2))
          ∙ junction-any db r neg b found.0 (any_match-AnySelect cols col neg fs fits found.1 m))
    selects-matches cols (some m) neg (at n f) fits e m' = absurd fits
    selects-matches cols none neg (at n f) {k} fits e m =
        (let found = >>=-eq-ok (column_for cols n) _ e in
          selects-matches cols (some n) neg f fits
            (subst (λ q. condition cols (some q) neg f ≡ ok k) (column_for-same cols n found.1)
              found.2)
            m)
    selects-matches cols none neg (eq v) fits e m = cc
    selects-matches cols (some n) neg (eq v) fits e m =
        leaf-selects db r neg e (eq-Answers db n v r fits) m
    selects-matches cols none neg (gt v) fits e m = cc
    selects-matches cols (some n) neg (gt (many vs)) fits e m =
        absurd (not_many (attribute n r) vs fits.1)
    selects-matches cols (some n) neg (gt (one null)) fits e m = cc
    selects-matches cols (some n) neg (gt (one (bool b'))) fits e m = cc
    selects-matches cols (some n) neg (gt (one (int i))) {b} fits e m =
        leaf-selects db r neg {b' = b} e
          (gt-Answers db n (int i) r fits.1
            (compared-eq-ok (value_lt (one (int i)) (attribute n r)) m))
          refl
    selects-matches cols (some n) neg (gt (one (text t))) {b} fits e m =
        leaf-selects db r neg {b' = b} e
          (gt-Answers db n (text t) r fits.1
            (compared-eq-ok (value_lt (one (text t)) (attribute n r)) m))
          refl
    selects-matches cols (some n) neg (gt (one (uid u))) {b} fits e m =
        leaf-selects db r neg {b' = b} e
          (gt-Answers db n (uid u) r fits.1
            (compared-eq-ok (value_lt (one (uid u)) (attribute n r)) m))
          refl
    selects-matches cols (some n) neg (gt (one (stamp t))) {b} fits e m =
        leaf-selects db r neg {b' = b} e
          (gt-Answers db n (stamp t) r fits.1
            (compared-eq-ok (value_lt (one (stamp t)) (attribute n r)) m))
          refl
    selects-matches cols none neg (ge v) fits e m = cc
    selects-matches cols (some n) neg (ge (many vs)) fits e m =
        absurd (not_many (attribute n r) vs fits.1)
    selects-matches cols (some n) neg (ge (one null)) fits e m = cc
    selects-matches cols (some n) neg (ge (one (bool b'))) fits e m = cc
    selects-matches cols (some n) neg (ge (one (int i))) {b} fits e m =
        leaf-selects db r neg {b' = b} e
          (ge-Answers db n (int i) r fits.1
            (compared-eq-ok (value_le (one (int i)) (attribute n r)) m))
          refl
    selects-matches cols (some n) neg (ge (one (text t))) {b} fits e m =
        leaf-selects db r neg {b' = b} e
          (ge-Answers db n (text t) r fits.1
            (compared-eq-ok (value_le (one (text t)) (attribute n r)) m))
          refl
    selects-matches cols (some n) neg (ge (one (uid u))) {b} fits e m =
        leaf-selects db r neg {b' = b} e
          (ge-Answers db n (uid u) r fits.1
            (compared-eq-ok (value_le (one (uid u)) (attribute n r)) m))
          refl
    selects-matches cols (some n) neg (ge (one (stamp t))) {b} fits e m =
        leaf-selects db r neg {b' = b} e
          (ge-Answers db n (stamp t) r fits.1
            (compared-eq-ok (value_le (one (stamp t)) (attribute n r)) m))
          refl
    selects-matches cols none neg (lt v) fits e m = cc
    selects-matches cols (some n) neg (lt (many vs)) fits e m =
        absurd (not_many (attribute n r) vs fits.1)
    selects-matches cols (some n) neg (lt (one null)) fits e m = cc
    selects-matches cols (some n) neg (lt (one (bool b'))) fits e m = cc
    selects-matches cols (some n) neg (lt (one (int i))) {b} fits e m =
        leaf-selects db r neg {b' = b} e
          (lt-Answers db n (int i) r fits.1
            (compared-eq-ok (value_lt (attribute n r) (one (int i))) m))
          refl
    selects-matches cols (some n) neg (lt (one (text t))) {b} fits e m =
        leaf-selects db r neg {b' = b} e
          (lt-Answers db n (text t) r fits.1
            (compared-eq-ok (value_lt (attribute n r) (one (text t))) m))
          refl
    selects-matches cols (some n) neg (lt (one (uid u))) {b} fits e m =
        leaf-selects db r neg {b' = b} e
          (lt-Answers db n (uid u) r fits.1
            (compared-eq-ok (value_lt (attribute n r) (one (uid u))) m))
          refl
    selects-matches cols (some n) neg (lt (one (stamp t))) {b} fits e m =
        leaf-selects db r neg {b' = b} e
          (lt-Answers db n (stamp t) r fits.1
            (compared-eq-ok (value_lt (attribute n r) (one (stamp t))) m))
          refl
    selects-matches cols none neg (le v) fits e m = cc
    selects-matches cols (some n) neg (le (many vs)) fits e m =
        absurd (not_many (attribute n r) vs fits.1)
    selects-matches cols (some n) neg (le (one null)) fits e m = cc
    selects-matches cols (some n) neg (le (one (bool b'))) fits e m = cc
    selects-matches cols (some n) neg (le (one (int i))) {b} fits e m =
        leaf-selects db r neg {b' = b} e
          (le-Answers db n (int i) r fits.1
            (compared-eq-ok (value_le (attribute n r) (one (int i))) m))
          refl
    selects-matches cols (some n) neg (le (one (text t))) {b} fits e m =
        leaf-selects db r neg {b' = b} e
          (le-Answers db n (text t) r fits.1
            (compared-eq-ok (value_le (attribute n r) (one (text t))) m))
          refl
    selects-matches cols (some n) neg (le (one (uid u))) {b} fits e m =
        leaf-selects db r neg {b' = b} e
          (le-Answers db n (uid u) r fits.1
            (compared-eq-ok (value_le (attribute n r) (one (uid u))) m))
          refl
    selects-matches cols (some n) neg (le (one (stamp t))) {b} fits e m =
        leaf-selects db r neg {b' = b} e
          (le-Answers db n (stamp t) r fits.1
            (compared-eq-ok (value_le (attribute n r) (one (stamp t))) m))
          refl
    selects-matches cols none neg (contains v) fits e m = cc
    selects-matches cols (some n) neg (contains (one (text t))) fits e m =
        leaf-selects db r neg e (contains-Answers db n t r fits.0 fits.1) m
    selects-matches cols (some n) neg (contains (one null)) fits e m = absurd fits
    selects-matches cols (some n) neg (contains (one (bool b'))) fits e m = absurd fits
    selects-matches cols (some n) neg (contains (one (int i))) fits e m = absurd fits
    selects-matches cols (some n) neg (contains (one (uid u))) fits e m = absurd fits
    selects-matches cols (some n) neg (contains (one (stamp u))) fits e m = absurd fits
    selects-matches cols (some n) neg (contains (many vs)) fits e m = absurd fits
    selects-matches cols none neg (among vs) fits e m = cc
    selects-matches cols (some n) neg (among vs) fits e m =
        leaf-selects db r neg e (in-Answers db n vs r fits.0 fits.1) m

    all_match-AllSelect :
        (cols : List String) (col : Option String) (neg : Bool) (fs : Filters) {ks : Conds}
        {b : Bool}
        → AllFit col r fs
        → conditions cols col neg fs ≡ ok ks
        → all_match fs (subject col r) ≡ ok b
        → AllSelect db r neg b ks
    all_match-AllSelect cols col neg nil {ks} {b} fits e m =
        subst (λ b'. AllSelect db r neg b' ks) (ok-injective m)
          (subst (AllSelect db r neg true) (ok-injective e)
            (chosen-Answers db neg (db.selects-both_end r, db.selects-any_end r)))
    all_match-AllSelect cols col neg (cons f fs) {ks} {b} fits e m =
        (let first = >>=-eq-ok (condition cols col neg f) _ e in
          let others = >>=-eq-ok (conditions cols col neg fs) _ first.2 in
          subst (AllSelect db r neg b) (ok-injective others.2)
            (elim (and_then-cases (matches f (subject col r)) (all_match fs (subject col r)) m) [
              | inl (held, rest) ↦
                  also-AllSelect db r neg b first.0 others.0
                    (selects-matches cols col neg f fits.0 first.1 held)
                    (all_match-AllSelect cols col neg fs fits.1 others.1 rest)
              | inr (failed, decided) ↦
                  subst (λ b'. AllSelect db r neg b' (also first.0 others.0)) (sym decided)
                    (stop-AllSelect db r neg first.0 others.0
                      (selects-matches cols col neg f fits.0 first.1 failed))
            ]))

    any_match-AnySelect :
        (cols : List String) (col : Option String) (neg : Bool) (fs : Filters) {ks : Conds}
        {b : Bool}
        → AllFit col r fs
        → conditions cols col neg fs ≡ ok ks
        → any_match fs (subject col r) ≡ ok b
        → AnySelect db r neg b ks
    any_match-AnySelect cols col neg nil {ks} {b} fits e m =
        subst (λ b'. AnySelect db r neg b' ks) (ok-injective m)
          (subst (AnySelect db r neg false) (ok-injective e)
            (chosen-Answers db neg (db.selects-any_end r, db.selects-both_end r)))
    any_match-AnySelect cols col neg (cons f fs) {ks} {b} fits e m =
        (let first = >>=-eq-ok (condition cols col neg f) _ e in
          let others = >>=-eq-ok (conditions cols col neg fs) _ first.2 in
          subst (AnySelect db r neg b) (ok-injective others.2)
            (elim (or_else-cases (matches f (subject col r)) (any_match fs (subject col r)) m) [
              | inl (failed, rest) ↦
                  also-AnySelect db r neg b first.0 others.0
                    (selects-matches cols col neg f fits.0 first.1 failed)
                    (any_match-AnySelect cols col neg fs fits.1 others.1 rest)
              | inr (held, decided) ↦
                  subst (λ b'. AnySelect db r neg b' (also first.0 others.0)) (sym decided)
                    (stop-AnySelect db r neg first.0 others.0
                      (selects-matches cols col neg f fits.0 first.1 held))
            ]))

  mutual
    unfolding is_ordered

    Fits-is_ordered : (col : Option String) (f : Filter) → Fits col r f → is_ordered f ≡ true
    Fits-is_ordered col all fits = refl
    Fits-is_ordered col no_match fits = refl
    Fits-is_ordered col (conj fs) fits = AllFit-are_ordered col fs fits
    Fits-is_ordered col (disj fs) fits = AllFit-are_ordered col fs fits
    Fits-is_ordered col (negate f) fits = Fits-is_ordered col f fits
    Fits-is_ordered none (at n f) fits = Fits-is_ordered (some n) f fits
    Fits-is_ordered (some m) (at n f) fits = absurd fits
    Fits-is_ordered col (contains v) fits = refl
    Fits-is_ordered col (among vs) fits = refl
    Fits-is_ordered col (eq v) fits = refl
    Fits-is_ordered col (gt v) fits = fits.0
    Fits-is_ordered col (ge v) fits = fits.0
    Fits-is_ordered col (lt v) fits = fits.0
    Fits-is_ordered col (le v) fits = fits.0

    AllFit-are_ordered :
        (col : Option String) (fs : Filters) → AllFit col r fs → are_ordered fs ≡ true
    AllFit-are_ordered col nil fits = refl
    AllFit-are_ordered col (cons f fs) fits =
        rw (Fits-is_ordered col f fits.0) (AllFit-are_ordered col fs fits.1)

  -- For a filter that names columns only and fits them - values of the column's type, orders with
  -- neither NULL nor a Boolean, sets without NULL, ASCII substrings - with an answer in memory on
  -- a row, the converter returns a condition and a complement, and the database selects the row by
  -- the condition exactly when the filter matches it and by the complement exactly when it does
  -- not, NULLs included.
  pub condition-matches :
      (cols : List String) (f : Filter) (b : Bool)
      → is_bound cols false f ≡ true
      → Fits none r f
      → matches f (row r) ≡ ok b
      → (k k' : Cond) × (condition cols none false f ≡ ok k)
        × (condition cols none true f ≡ ok k')
        × (db.selects k r ≡ b)
        × (db.selects k' r ≡ not b)
  condition-matches cols f b named fits e =
      (let kept = convertible cols false f named (Fits-is_ordered none f fits) in
        let dropped = convertible cols true f named (Fits-is_ordered none f fits) in
        (
          kept.0,
          dropped.0,
          kept.1,
          dropped.1,
          selects-matches cols none false f fits kept.1 e,
          selects-matches cols none true f fits dropped.1 e,
        ))
