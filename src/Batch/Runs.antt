-- ===== src/Batch/Runs.antt =====
-- The runs of resourcey/http/batch_routes.py: the order of the edits is the caller's, and the
-- results stand where their edits do.
use resourcey.Prelude.{
  ℕ, ltb, true, zero, suc, ◌≤◌, ◌≡◌, ◌≢◌, refl, sym, ap, subst, String, Option, List, [], ◌∷◌, ◌++◌,
  map, length, All, str_eq, str_eq_iff, Bool-cases, inl, inr, arith,
}
use resourcey.Value.{Row}
use resourcey.Failure.{Result, Failure, ok, err, value_error, ◌>>=◌}
use resourcey.Batch.{
  Item, Body, edit_kind, project_edit_result, result_body, Targets, run_of, result_bodies,
  with_bodies, apply_run, extended, then_rest, apply_batch,
}

-- A run is the longest part at the front that is of one resource.
abbrev pub IsOther : String → List Item → Type 0
IsOther name [] = Unit
IsOther name (i ∷ is) = i.resource ≢ name

-- A run and the rest make up the edits: the run is of the one resource, and the rest starts with
-- another.
pub run_of_lem :
    (name : String) (is : List Item)
    → ((run_of name is).0 ++ (run_of name is).1 ≡ is)
      × All (λ i. i.resource ≡ name) (run_of name is).0
      × IsOther name (run_of name is).1
unfolding run_of
run_of_lem name [] = (refl, tt, tt)
run_of_lem name (i ∷ is) = elim (Bool-cases (str_eq i.resource name)) [
  | inl e ↦
      (let (whole, same, other) = run_of_lem name is in
        rw e (ap (λ l. i ∷ l) whole, ((str_eq_iff i.resource name).0 e, same), other))
  | inr e ↦ rw e (refl, tt, (λ same. cc (e, (str_eq_iff i.resource name).1 same)))
]

run_of-shorter : (name : String) (is : List Item) → length (run_of name is).1 ≤ length is
unfolding run_of
run_of-shorter name [] = omega arith
run_of-shorter name (i ∷ is) = elim (Bool-cases (str_eq i.resource name)) [
  | inl e ↦ (let h = run_of-shorter name is in rw e (omega (arith, h)))
  | inr e ↦ rw e (omega arith)
]

rest-shorter : (i : Item) (is : List Item) → length (run_of i.resource (i ∷ is)).1 ≤ length is
unfolding run_of
rest-shorter i is = rw ((str_eq_iff i.resource i.resource).1 refl) (run_of-shorter i.resource is)

module _ {W : Type 0} (t : Targets W) where
  -- The bodies of a run, place by place: the resource and the kind of the edit, and its own result
  -- as it is shown.
  abbrev pub AreBodies : String → List Item → List (Option Row) → List Body → Type 0
  AreBodies name [] [] [] = Unit
  AreBodies name (i ∷ is) (r ∷ rs) (b ∷ bs) =
      (b.resource ≡ i.resource)
      × (b.kind ≡ edit_kind i.edit)
      × (b.result ≡ project_edit_result t name i.edit r)
      × AreBodies name is rs bs
  AreBodies name _ _ _ = ⊥

  -- A run at the front, and the edits of another resource behind it.
  pub record IsRun (name : String) (run later : List Item) : Type 0 where
    pub begun : ltb 0 (length run) ≡ true
    pub of_one : All (λ i. i.resource ≡ name) run
    pub longest : IsOther name later

  -- What a batch does, run by run: the service of the resource gets the edits of the run as one
  -- batch, in their order, in the storage that the runs before it left; the first run that raises,
  -- or whose results are not one for each edit, ends the batch.
  pub data Runs : List Item → W → Result (List Body) × W → Type 0 where
    nothing : {w : W} → Runs [] w (ok [], w)
    returned :
        {name : String} {run later : List Item} {w w' w'' : W} {rs : List (Option Row)}
        (bodies rest : List Body)
        → IsRun name run later
        → (t.service name).do_apply_edits (map (λ i. i.edit) run) w ≡ (ok rs, w')
        → AreBodies name run rs bodies
        → Runs later w' (ok rest, w'')
        → Runs (run ++ later) w (ok (bodies ++ rest), w'')
    later_raised :
        {name : String} {run later : List Item} {w w' w'' : W} {rs : List (Option Row)}
        {e : Failure}
        → IsRun name run later
        → (t.service name).do_apply_edits (map (λ i. i.edit) run) w ≡ (ok rs, w')
        → length rs ≡ length run
        → Runs later w' (err e, w'')
        → Runs (run ++ later) w (err e, w'')
    raised :
        {name : String} {run later : List Item} {w w' : W} {e : Failure}
        → IsRun name run later
        → (t.service name).do_apply_edits (map (λ i. i.edit) run) w ≡ (err e, w')
        → Runs (run ++ later) w (err e, w')
    misaligned :
        {name : String} {run later : List Item} {w w' : W} {rs : List (Option Row)}
        → IsRun name run later
        → (t.service name).do_apply_edits (map (λ i. i.edit) run) w ≡ (ok rs, w')
        → length rs ≢ length run
        → Runs (run ++ later) w (err value_error, w')

  -- The results of a run become its bodies, or their number is wrong.
  abbrev Zipped : String → List Item → List (Option Row) → Result (List Body) → Type 0
  Zipped name run rs (ok bodies) = (length rs ≡ length run) × AreBodies name run rs bodies
  Zipped name run rs (err e) = (e ≡ value_error) × (length rs ≢ length run)

  then-Zipped :
      (name : String) (i : Item) (is : List Item) (r : Option Row) (rs : List (Option Row))
      (rest : Result (List Body))
      → i.resource ≡ name
      → Zipped name is rs rest
      → Zipped name (i ∷ is) (r ∷ rs) (rest >>= λ bodies. ok (result_body t name i.edit r ∷ bodies))
  then-Zipped name i is r rs (ok bodies) same (even, are) =
      (ap suc even, (sym same, refl, refl, are))
  then-Zipped name i is r rs (err e) same (wrong, uneven) =
      (wrong, λ even. uneven (omega (arith, even)))

  result_bodies-Zipped :
      (name : String) (run : List Item) (rs : List (Option Row))
      → All (λ i. i.resource ≡ name) run
      → Zipped name run rs (result_bodies t name run rs)
  unfolding result_bodies
  result_bodies-Zipped name [] [] same = (refl, tt)
  result_bodies-Zipped name [] (r ∷ rs) same = (refl, λ even. omega (arith, even))
  result_bodies-Zipped name (i ∷ is) [] same = (refl, λ even. omega (arith, even))
  result_bodies-Zipped name (i ∷ is) (r ∷ rs) (same, others) =
      then-Zipped name i is r rs (result_bodies t name is rs) same
        (result_bodies-Zipped name is rs others)

  extended-Runs :
      (name : String) (run later : List Item) (w w' : W) (rs : List (Option Row))
      (bodies : List Body) (after : Result (List Body) × W)
      → IsRun name run later
      → (t.service name).do_apply_edits (map (λ i. i.edit) run) w ≡ (ok rs, w')
      → length rs ≡ length run
      → AreBodies name run rs bodies
      → Runs later w' after
      → Runs (run ++ later) w (extended t bodies after)
  extended-Runs name run later w w' rs bodies (ok rest, w'') is_run answered even are after =
      returned bodies rest is_run answered are after
  extended-Runs name run later w w' rs bodies (err e, w'') is_run answered even are after =
      later_raised is_run answered even after

  bodies-Runs :
      (name : String) (run later : List Item) (w w' : W) (rs : List (Option Row))
      (zipped : Result (List Body)) (rest : W → Result (List Body) × W)
      → IsRun name run later
      → (t.service name).do_apply_edits (map (λ i. i.edit) run) w ≡ (ok rs, w')
      → Zipped name run rs zipped
      → Runs later w' (rest w')
      → Runs (run ++ later) w (then_rest t (zipped, w') rest)
  bodies-Runs name run later w w' rs (err e) rest is_run answered (wrong, uneven) after =
      subst (λ e. Runs (run ++ later) w (err e, w')) (sym wrong) (misaligned is_run answered uneven)
  bodies-Runs name run later w w' rs (ok bodies) rest is_run answered (even, are) after =
      extended-Runs name run later w w' rs bodies (rest w') is_run answered even are after

  run-Runs :
      (name : String) (run later : List Item) (w : W) (answer : Result (List (Option Row)) × W)
      (rest : W → Result (List Body) × W)
      → IsRun name run later
      → (t.service name).do_apply_edits (map (λ i. i.edit) run) w ≡ answer
      → ((w' : W) → Runs later w' (rest w'))
      → Runs (run ++ later) w (then_rest t (with_bodies t name run answer) rest)
  run-Runs name run later w (err e, w') rest is_run answered after = raised is_run answered
  run-Runs name run later w (ok rs, w') rest is_run answered after =
      bodies-Runs name run later w w' rs (result_bodies t name run rs) rest is_run answered
        (result_bodies-Zipped name run rs is_run.of_one) (after w')

  run_of-begun : (i : Item) (is : List Item) → ltb 0 (length (run_of i.resource (i ∷ is)).0) ≡ true
  unfolding run_of
  run_of-begun i is = rw ((str_eq_iff i.resource i.resource).1 refl) (ground arith)

  -- With a round for each edit, a batch does what its runs do, each the longest of one resource:
  -- in order, each by one batch of its service in the storage that the runs before it left; its
  -- results are one body for each edit, in the caller's order, under the resource and the kind of
  -- the edit and with that edit's own result; the first run that raises, or whose results are not
  -- one for each edit, ends the batch.
  pub apply_batch-Runs :
      (n : ℕ) (is : List Item) (w : W) → length is ≤ n → Runs is w (apply_batch t n is w)
  unfolding apply_batch apply_run
  apply_batch-Runs n [] w h = nothing
  apply_batch-Runs zero (i ∷ is) w h = absurd (omega (arith, h))
  apply_batch-Runs (suc n) (i ∷ is) w h =
      (let (whole, same, other) = run_of_lem i.resource (i ∷ is) in
        let shorter = rest-shorter i is in
        let is_run : IsRun i.resource (run_of i.resource (i ∷ is)).0
            (run_of i.resource (i ∷ is)).1 =
          record { begun = run_of-begun i is; of_one = same; longest = other } in
        subst (λ l. Runs l w (apply_batch t (suc n) (i ∷ is) w)) whole
          (run-Runs i.resource (run_of i.resource (i ∷ is)).0 (run_of i.resource (i ∷ is)).1 w _ _
            is_run refl
            (λ w'.
              apply_batch-Runs n (run_of i.resource (i ∷ is)).1 w' (omega (arith, shorter, h)))))
