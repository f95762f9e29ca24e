-- ===== src/Listing/Sort.antt =====
-- The order that resourcey/list/list_service.py gives its rows is strict and total when their ids
-- differ, and holds every row once.
use mathlib.Core.List.{Perm}
use mathlib.Core.List.Perm
use resourcey.Prelude.{
  ◌≡◌, ◌≢◌, refl, ◌∙◌, ap, Bool, true, false, not, ◌&&◌, ◌||◌, Option, none, some, List, [], ◌∷◌,
  All, suc, length, arith, ◌⊎◌, Bool-cases, inl, inr, if◌then◌else◌,
}
use resourcey.Service.{SortOrder}
use resourcey.Listing.{
  Ordered, Schema, insert_sorted, sorted, key_lt, id_precedes, key_precedes, order,
}

-- Every row stands before all the later ones.
abbrev pub Strict {ℓ} : {T : Type ℓ} → (T → T → Bool) → List T → Type 0
Strict before [] = Unit
Strict before (x ∷ xs) = All (λ y. before x y ≡ true) xs × Strict before xs

module _ {T : Type 0} (precedes : T → T → Bool) where
  insert_sorted-perm : (x : T) (ys : List T) → Perm (insert_sorted precedes x ys) (x ∷ ys)
  unfolding insert_sorted
  insert_sorted-perm x [] = Perm.refl (x ∷ [])
  insert_sorted-perm x (y ∷ ys) = elim (Bool-cases (precedes y x)) [
    | inl e ↦ rw e (Perm.trans (Perm.cons y (insert_sorted-perm x ys)) (Perm.swap x y ys))
    | inr e ↦ rw e (Perm.refl (x ∷ y ∷ ys))
  ]

  pub sorted-perm : (xs : List T) → Perm (sorted precedes xs) xs
  unfolding sorted
  sorted-perm [] = Perm.refl []
  sorted-perm (x ∷ xs) =
      Perm.trans (insert_sorted-perm x (sorted precedes xs)) (Perm.cons x (sorted-perm xs))

  pub All-insert_sorted :
      (P : T → Type 0) (x : T) (ys : List T) → P x → All P ys → All P (insert_sorted precedes x ys)
  unfolding insert_sorted
  All-insert_sorted P x [] p h = (p, tt)
  All-insert_sorted P x (y ∷ ys) p (q, h) = elim (Bool-cases (precedes y x)) [
    | inl e ↦ rw e (q, All-insert_sorted P x ys p h)
    | inr e ↦ rw e (p, (q, h))
  ]

  pub All-sorted : (P : T → Type 0) (xs : List T) → All P xs → All P (sorted precedes xs)
  unfolding sorted
  All-sorted P [] h = tt
  All-sorted P (x ∷ xs) (p, h) = All-insert_sorted P x (sorted precedes xs) p (All-sorted P xs h)

  -- Inserting by `precedes` puts `x` and `y` in the order `before`.
  abbrev Fits : (T → T → Bool) → T → T → Type 0
  Fits before x y =
      (precedes y x ≡ true → before y x ≡ true) × (precedes y x ≡ false → before x y ≡ true)

  -- Each row fits those that stand behind it.
  abbrev Compatible : (T → T → Bool) → List T → Type 0
  Compatible before [] = Unit
  Compatible before (x ∷ xs) = All (Fits before x) xs × Compatible before xs

  module _ (before : T → T → Bool)
      (before_trans : (a b c : T) → before a b ≡ true → before b c ≡ true → before a c ≡ true) where
    All-before :
        (x y : T) (zs : List T)
        → before x y ≡ true
        → All (λ z. before y z ≡ true) zs
        → All (λ z. before x z ≡ true) zs
    All-before x y [] h k = tt
    All-before x y (z ∷ zs) h (p, k) = (before_trans x y z h p, All-before x y zs h k)

    insert_sorted-Strict :
        (x : T) (ys : List T)
        → All (Fits before x) ys
        → Strict before ys
        → Strict before (insert_sorted precedes x ys)
    unfolding insert_sorted
    insert_sorted-Strict x [] f h = (tt, tt)
    insert_sorted-Strict x (y ∷ ys) ((fit, fit'), f) (h, k) = elim (Bool-cases (precedes y x)) [
      | inl e ↦
          rw e (
            All-insert_sorted (λ z. before y z ≡ true) x ys (fit e) h,
            insert_sorted-Strict x ys f k,
          )
      | inr e ↦ rw e ((fit' e, All-before x y ys (fit' e) h), (h, k))
    ]

    sorted-Strict : (xs : List T) → Compatible before xs → Strict before (sorted precedes xs)
    unfolding sorted
    sorted-Strict [] h = tt
    sorted-Strict (x ∷ xs) (f, h) =
        insert_sorted-Strict x (sorted precedes xs) (All-sorted (Fits before x) xs f)
          (sorted-Strict xs h)

module _ {V : Type 0} ⦃v : Ordered V⦄ where
  key_lt_trans : (a b c : Option V) → key_lt a b ≡ true → key_lt b c ≡ true → key_lt a c ≡ true
  key_lt_trans none none c h k = cc
  key_lt_trans none (some b) none h k = cc
  key_lt_trans none (some b) (some c) h k = refl
  key_lt_trans (some a) none c h k = cc
  key_lt_trans (some a) (some b) none h k = cc
  key_lt_trans (some a) (some b) (some c) h k = v.lt_trans a b c h k

  pub key_lt_total : (a b : Option V) → key_lt a b ≡ false → key_lt b a ≡ false → a ≡ b
  key_lt_total none none h k = refl
  key_lt_total none (some b) h k = cc
  key_lt_total (some a) none h k = cc
  key_lt_total (some a) (some b) h k = ap some (v.lt_total a b h k)

  key_lt_irrefl : (a : Option V) → key_lt a a ≡ false
  key_lt_irrefl none = refl
  key_lt_irrefl (some a) = v.lt_irrefl a

  -- What stands between two ordered keys is after the first or before the second.
  key_lt_weak : (a b c : Option V) → key_lt a b ≡ true → (key_lt a c ≡ true) ⊎ (key_lt c b ≡ true)
  key_lt_weak a b c h = elim (Bool-cases (key_lt a c)) [
    | inl e ↦ inl e
    | inr e ↦ elim (Bool-cases (key_lt c a)) [
      | inl f ↦ inr (key_lt_trans c a b f h)
      | inr f ↦ inr (rw (← key_lt_total a c e f) h)
    ]
  ]

-- The laws of a comparison by key, in either direction.
record IsWeakOrder {T : Type 0} (p : T → T → Bool) : Type 0 where
  irrefl : (a : T) → p a a ≡ false
  trans : (a b c : T) → p a b ≡ true → p b c ≡ true → p a c ≡ true
  weak : (a b c : T) → p a b ≡ true → (p a c ≡ true) ⊎ (p c b ≡ true)

abbrev either_swap {ℓ κ} : {A : Type ℓ} {B : Type κ} → A ⊎ B → B ⊎ A
either_swap (inl a) = inr a
either_swap (inr b) = inl b

module _ {T : Type 0} (p q : T → T → Bool) (wp : IsWeakOrder p) where
  -- First by `p`, and by `q` where `p` does not decide.
  abbrev lexicographic : T → T → Bool
  lexicographic a b = p a b || not (p b a) && q a b

  lexicographic_trans :
      ((a b c : T) → q a b ≡ true → q b c ≡ true → q a c ≡ true)
      → (a b c : T) → lexicographic a b ≡ true
      → lexicographic b c ≡ true
      → lexicographic a c ≡ true
  lexicographic_trans q_trans a b c h k = ground (
    arith,
    wp.weak a b c,
    wp.weak b c a,
    wp.weak c a b,
    wp.trans b c b,
    wp.irrefl b,
    q_trans a b c,
  )

module _ {T V : Type 0} ⦃v : Ordered V⦄ (d : Schema T V) where
  key_precedes-IsWeakOrder : (o : SortOrder) → IsWeakOrder (key_precedes d o)
  key_precedes-IsWeakOrder o = directed o.descending
    where
      key : T → Option V
      key m = d.get o.sort_attribute m

      directed :
          (down : Bool)
          → IsWeakOrder (λ a b. if down then key_lt (key b) (key a) else key_lt (key a) (key b))
      directed true = record {
        irrefl = λ a. key_lt_irrefl (key a);
        trans = λ a b c h k. key_lt_trans (key c) (key b) (key a) k h;
        weak = λ a b c h. either_swap (key_lt_weak (key b) (key a) (key c) h);
      }
      directed false = record {
        irrefl = λ a. key_lt_irrefl (key a);
        trans = λ a b c h k. key_lt_trans (key a) (key b) (key c) h k;
        weak = λ a b c h. key_lt_weak (key a) (key b) (key c) h;
      }

  -- The order of rows: by the sort key in its direction, and by ascending id where it is equal.
  unfoldable pub before : Option SortOrder → T → T → Bool
  before none a b = id_precedes d a b
  before (some o) a b = key_precedes d o a b || not (key_precedes d o b a) && id_precedes d a b

  pub before_trans :
      (s : Option SortOrder) (a b c : T)
      → before s a b ≡ true
      → before s b c ≡ true
      → before s a c ≡ true
  unfolding before
  before_trans none a b c h k = v.lt_trans _ _ _ h k
  before_trans (some o) a b c h k =
      lexicographic_trans (key_precedes d o) (id_precedes d) (key_precedes-IsWeakOrder o)
        (λ x y z. v.lt_trans _ _ _) a b c h k

  pub before_irrefl : (s : Option SortOrder) (a : T) → before s a a ≡ false
  unfolding before
  before_irrefl none a = v.lt_irrefl (d.get_id a)
  before_irrefl (some o) a = rw ((key_precedes-IsWeakOrder o).irrefl a, v.lt_irrefl (d.get_id a))

  -- Rows with pairwise different ids.
  abbrev pub HasDistinctIds : List T → Type 0
  HasDistinctIds [] = Unit
  HasDistinctIds (x ∷ xs) = All (λ y. d.get_id x ≢ d.get_id y) xs × HasDistinctIds xs

  id_Fits :
      (x : T) (ys : List T)
      → All (λ y. d.get_id x ≢ d.get_id y) ys
      → All (Fits (id_precedes d) (id_precedes d) x) ys
  id_Fits x [] h = tt
  id_Fits x (y ∷ ys) (h, k) = (
    (
      (λ e. e),
      λ e. elim (Bool-cases (id_precedes d x y)) [
        | inl f ↦ f
        | inr f ↦ absurd (h (v.lt_total _ _ f e))
      ],
    ),
    id_Fits x ys k,
  )

  id_Compatible : (xs : List T) → HasDistinctIds xs → Compatible (id_precedes d) (id_precedes d) xs
  id_Compatible [] h = tt
  id_Compatible (x ∷ xs) (h, k) = (id_Fits x xs h, id_Compatible xs k)

  key_Fits :
      (o : SortOrder) (x : T) (ys : List T)
      → All (λ y. id_precedes d x y ≡ true) ys
      → All (Fits (key_precedes d o) (before (some o)) x) ys
  unfolding before
  key_Fits o x [] h = tt
  key_Fits o x (y ∷ ys) (h, k) = (((λ e. ground arith), (λ e. ground arith)), key_Fits o x ys k)

  key_Compatible :
      (o : SortOrder) (xs : List T)
      → Strict (id_precedes d) xs
      → Compatible (key_precedes d o) (before (some o)) xs
  key_Compatible o [] h = tt
  key_Compatible o (x ∷ xs) (h, k) = (key_Fits o x xs h, key_Compatible o xs k)

  id_sorted-Strict :
      (xs : List T) → HasDistinctIds xs → Strict (id_precedes d) (sorted (id_precedes d) xs)
  id_sorted-Strict xs h =
      sorted-Strict (id_precedes d) (id_precedes d) (λ a b c. v.lt_trans _ _ _) xs
        (id_Compatible xs h)

  -- Of rows with different ids, the order puts each strictly before all the later ones: by the
  -- sort key in the direction that is asked for, and by ascending id where the keys are equal.
  pub order-Strict :
      (s : Option SortOrder) (xs : List T) → HasDistinctIds xs → Strict (before s) (order d s xs)
  unfolding order before
  order-Strict none xs h = id_sorted-Strict xs h
  order-Strict (some o) xs h =
      sorted-Strict (key_precedes d o) (before (some o)) (before_trans (some o))
        (sorted (id_precedes d) xs) (key_Compatible o _ (id_sorted-Strict xs h))

  -- The order holds every row as often as its argument does.
  pub order-perm : (s : Option SortOrder) (xs : List T) → Perm (order d s xs) xs
  unfolding order
  order-perm none xs = sorted-perm (id_precedes d) xs
  order-perm (some o) xs =
      Perm.trans (sorted-perm (key_precedes d o) _) (sorted-perm (id_precedes d) xs)

  length-insert_sorted :
      (p : T → T → Bool) (x : T) (ys : List T) → length (insert_sorted p x ys) ≡ suc (length ys)
  unfolding insert_sorted
  length-insert_sorted p x [] = refl
  length-insert_sorted p x (y ∷ ys) = ground (arith, length-insert_sorted p x ys)

  length-sorted : (p : T → T → Bool) (xs : List T) → length (sorted p xs) ≡ length xs
  unfolding sorted
  length-sorted p [] = refl
  length-sorted p (x ∷ xs) = length-insert_sorted p x (sorted p xs) ∙ ap suc (length-sorted p xs)

  pub length-order : (s : Option SortOrder) (xs : List T) → length (order d s xs) ≡ length xs
  unfolding order
  length-order none xs = length-sorted (id_precedes d) xs
  length-order (some o) xs = length-sorted (key_precedes d o) _ ∙ length-sorted (id_precedes d) xs
