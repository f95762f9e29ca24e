-- ===== src/Auth/Service/Batch/Layout.antt =====
-- How the results of a batch are laid out beside its edits
-- (resourcey/auth/auth_authorized_service.py, `apply_edits`).
use resourcey.Prelude.{◌≡◌, refl, ap, suc, Option, none, some, List, [], ◌∷◌, arith, length}
use resourcey.Value.{Row}
use resourcey.Failure.{ok, >>=-eq-ok}
use resourcey.Service.{Edit}
use resourcey.Auth.Service.{Authorized}
use resourcey.Auth.Service.Batch.{gate, gates, permitted, lay_out, blanks}

-- The results at the permitted positions, in order.
abbrev pub picked : List (Option Edit) → List (Option Row) → List (Option Row)
picked [] rs = []
picked (g ∷ gs) [] = []
picked (none ∷ gs) (r ∷ rs) = picked gs rs
picked (some e ∷ gs) (r ∷ rs) = r ∷ picked gs rs

-- Every other position holds `None`.
abbrev pub Blank : List (Option Edit) → List (Option Row) → Type 0
Blank [] rs = rs ≡ []
Blank (g ∷ gs) [] = ⊥
Blank (none ∷ gs) (r ∷ rs) = (r ≡ none) × Blank gs rs
Blank (some e ∷ gs) (r ∷ rs) = Blank gs rs

pub lay_out_lem :
    (gs : List (Option Edit)) (rs : List (Option Row))
    → length rs ≡ length (permitted gs)
    → (out : List (Option Row)) × (lay_out gs rs ≡ ok out) × (picked gs out ≡ rs) × Blank gs out
unfolding lay_out permitted
lay_out_lem [] [] h = ([], refl, refl, refl)
lay_out_lem [] (r ∷ rs) h = absurd (omega arith)
lay_out_lem (none ∷ gs) rs h =
    let (out, e, p, b) = lay_out_lem gs rs h in (none ∷ out, rw e, p, (refl, b))
lay_out_lem (some e ∷ gs) [] h = absurd (omega arith)
lay_out_lem (some g ∷ gs) (r ∷ rs) h =
    let (out, e, p, b) = lay_out_lem gs rs (omega arith) in
    (r ∷ out, rw e, ap (λ (xs : List (Option Row)). r ∷ xs) p, b)

pub length-gates :
    (w : Authorized) (es : List Edit) (gs : List (Option Edit))
    → gates w es ≡ ok gs
    → length gs ≡ length es
unfolding gates
length-gates w [] gs h = ground arith
length-gates w (e ∷ es) gs h =
    let (g, _, h') = >>=-eq-ok (gate w e) _ h in
    let (rest, later, last) = >>=-eq-ok (gates w es) _ h' in
    ground (arith, length-gates w es rest later)

pub length-Blank :
    (gs : List (Option Edit)) (rs : List (Option Row)) → Blank gs rs → length gs ≡ length rs
length-Blank [] rs h = rw h refl
length-Blank (g ∷ gs) [] h = absurd h
length-Blank (none ∷ gs) (r ∷ rs) h = ap suc (length-Blank gs rs h.1)
length-Blank (some e ∷ gs) (r ∷ rs) h = ap suc (length-Blank gs rs h)

pub blanks-Blank :
    (gs : List (Option Edit))
    → permitted gs ≡ []
    → (picked gs (blanks gs) ≡ []) × Blank gs (blanks gs)
unfolding blanks permitted
blanks-Blank [] h = (refl, refl)
blanks-Blank (none ∷ gs) h = let (p, b) = blanks-Blank gs h in (p, (refl, b))
blanks-Blank (some e ∷ gs) h = cc
