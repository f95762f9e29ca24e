-- ===== src/Examples/Cell.antt =====
-- A service over a storage of one row, which keeps the contract of resourcey/core/service.py.
use resourcey.Prelude.{
  Bool, true, false, Option, none, some, List, [], ◌∷◌, ◌≡◌, refl, length, if◌then◌else◌, arith,
}
use resourcey.Value.{Value, Row, attribute, value_eq}
use resourcey.Failure.{Result, ok, err, type_error}
use resourcey.Filter.{Filter, row, matches}
use resourcey.Service.{Service, Edit, create, update, delete}
use resourcey.Service.Contract.{Contract, Satisfies}
use resourcey.Examples.Rows.{plain}

abbrev pub Cell : Type 0
Cell = Option Row

abbrev only_if : Bool → Row → Option Row
only_if b r = if b then some r else none

unfoldable pub find_cell : Value → Cell → Option Row
unfolding value_eq attribute
find_cell i none = none
find_cell i (some r) = only_if (value_eq (attribute "id" r) i) r

abbrev accepted : Option Filter → Row → Result Bool
accepted none r = ok true
accepted (some f) r = matches f (row r)

abbrev written : Result Bool → Row → Cell → Result (Option Row) × Cell
written (ok true) p s = (ok (some p), some p)
written (ok false) p s = (ok none, s)
written (err e) p s = (err e, s)

abbrev removed : Result Bool → Cell → Result Bool × Cell
removed (ok true) s = (ok true, none)
removed (ok false) s = (ok false, s)
removed (err e) s = (err e, s)

abbrev written_to : Option Row → Row → Option Filter → Cell → Result (Option Row) × Cell
written_to none p f s = (ok none, s)
written_to (some old) p f s = written (accepted f old) p s

abbrev removed_from : Option Row → Option Filter → Cell → Result Bool × Cell
removed_from none f s = (ok false, s)
removed_from (some old) f s = removed (accepted f old) s

abbrev no_row : Result Bool × Cell → Result (Option Row) × Cell
no_row (ok b, s) = (ok none, s)
no_row (err e, s) = (err e, s)

unfoldable pub edit_cell : Edit → Cell → Result (Option Row) × Cell
unfolding find_cell
edit_cell (create r) s = (ok (some r), some r)
edit_cell (update r f) s = written_to (find_cell (attribute "id" r) s) r f s
edit_cell (delete i f) s = no_row (removed_from (find_cell i s) f s)

abbrev after :
    Result (Option Row) → Result (List (Option Row)) × Cell → Result (List (Option Row)) × Cell
after (ok o) (ok rs, t) = (ok (o ∷ rs), t)
after (ok o) (err e, t) = (err e, t)
after (err e) (x, t) = (err e, t)

unfoldable pub apply : List Edit → Cell → Result (List (Option Row)) × Cell
unfolding edit_cell
apply [] s = (ok [], s)
apply (e ∷ es) s = after ((edit_cell e s).0) (apply es ((edit_cell e s).1))

unfoldable pub read_all : List Value → Cell → List (Option Row)
unfolding find_cell
read_all [] s = []
read_all (i ∷ is) s = find_cell i s ∷ read_all is s

unfoldable pub cell_service : Service Cell
unfolding find_cell apply read_all
cell_service = record {
  do_create = λ r s. (ok r, some r);
  do_read = λ i s. ok (find_cell i s);
  do_update = λ p f s. written_to (find_cell (attribute "id" p) s) p f s;
  do_delete = λ i f s. removed_from (find_cell i s) f s;
  do_search = λ f o cursor limit s. err type_error;
  do_count = λ f s. err type_error;
  do_batch_read = λ is s. ok (read_all is s);
  do_apply_edits = λ es s. apply es s;
}

hit_accepted :
    (o : Option Row) (p r : Row) (f : Option Filter) (s s' : Cell)
    → written_to o p f s ≡ (ok (some r), s')
    → (old : Row) × (o ≡ some old) × Satisfies f old
hit_accepted none p r f s s' h = ground arith
hit_accepted (some old) p r none s s' h = (old, refl, tt)
hit_accepted (some old) p r (some f) s s' h = (old, refl, ground arith)

miss_same :
    (o : Option Row) (p : Row) (f : Option Filter) (s s' : Cell)
    → written_to o p f s ≡ (ok none, s')
    → s' ≡ s
miss_same none p f s s' h = ground arith
miss_same (some old) p f s s' h = ground arith

removed_accepted :
    (o : Option Row) (f : Option Filter) (s s' : Cell)
    → removed_from o f s ≡ (ok true, s')
    → (old : Row) × (o ≡ some old) × Satisfies f old
removed_accepted none f s s' h = ground arith
removed_accepted (some old) none s s' h = (old, refl, tt)
removed_accepted (some old) (some f) s s' h = (old, refl, ground arith)

kept_same :
    (o : Option Row) (f : Option Filter) (s s' : Cell)
    → removed_from o f s ≡ (ok false, s')
    → s' ≡ s
kept_same none f s s' h = ground arith
kept_same (some old) f s s' h = ground arith

after-ok :
    (x : Result (Option Row)) (y : Result (List (Option Row)) × Cell) (rs : List (Option Row))
    (s' : Cell)
    → after x y ≡ (ok rs, s')
    → (o : Option Row) × (tail : List (Option Row)) × (y ≡ (ok tail, s')) × (rs ≡ o ∷ tail)
after-ok (ok o) (ok tail, t) rs s' h = (o, tail, ground arith, ground arith)
after-ok (ok o) (err e, t) rs s' h = ground arith
after-ok (err e) (x, t) rs s' h = ground arith

apply-length :
    (es : List Edit) (s s' : Cell) (rs : List (Option Row))
    → apply es s ≡ (ok rs, s')
    → length rs ≡ length es
unfolding apply
apply-length [] s s' rs h = ground arith
apply-length (e ∷ es) s s' rs h =
    let (o, tail, y, q) = after-ok _ (apply es ((edit_cell e s).1)) rs s' h in
    grind (arith, apply-length es ((edit_cell e s).1) s' tail y)

pub cell-Contract : Contract cell_service "id" find_cell
unfolding cell_service
cell-Contract = record {
  update_hit = λ p f s s' r h. hit_accepted (find_cell (attribute "id" p) s) p r f s s' h;
  update_miss = λ p f s s' h. miss_same (find_cell (attribute "id" p) s) p f s s' h;
  delete_hit = λ i f s s' h. removed_accepted (find_cell i s) f s s' h;
  delete_miss = λ i f s s' h. kept_same (find_cell i s) f s s' h;
  aligned = λ es s s' rs h. apply-length es s s' rs h;
}
