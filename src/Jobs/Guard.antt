-- ===== src/Jobs/Guard.antt =====
-- The terminal-status rule of `JobsService` (resourcey/jobs/jobs_model.py).
use resourcey.Prelude.{
  ℕ, ◌≡◌, sym, ap, subst, Bool, true, false, Bool-cases, Option, none, some, Option-cases, [], ◌∷◌,
  ◌==◌, if◌then◌else◌, ◌⊎◌, inl, inr, if-cases, arith, ==_iff,
}
use resourcey.Failure.{ok, >>=-eq-ok, ok-injective, ◌>>=◌}
use resourcey.Filter.{Filter, Casing}
use resourcey.Sql.{Cond, Database}
use resourcey.Sql.Convert.{Printing, condition}
use resourcey.Jobs.{
  Job, Patch, patched, Store, load, update_where, update_rows, job_columns, selected, update,
  folded, write_one, kept_first,
}
use resourcey.Jobs.Statuses.{is_terminal, accepts, guarded}

module _ ⦃c : Casing⦄ ⦃p : Printing⦄ ⦃db : Database⦄ where
  -- What the first row contributes to a write.
  pub first_row :
      (f : Filter) (p : Patch) (i : ℕ) (j : Job) (js : Store) (out : Option Job × Store)
      → update_where f p i (j ∷ js) ≡ ok out
      → (((j.job_id == i) ≡ true)
          × ((hit : Bool) × (accepts f j ≡ ok hit) × (write_one hit p j js ≡ out)))
        ⊎ (((j.job_id == i) ≡ false)
            × ((o : Option Job × Store) × (update_where f p i js ≡ ok o) × (kept_first j o ≡ out)))
  unfolding update_where update_rows
  first_row f p i j js out h =
      let (k, e, w) = >>=-eq-ok (condition job_columns none false f) _ h in
      elim (if-cases (j.job_id == i) _ _ (ok-injective w)) [
        | inl (same, h₁) ↦ inl (same, (selected k j, ap (λ r. r >>= λ k. ok (selected k j)) e, h₁))
        | inr (other, h₁) ↦
            inr
              (other, (update_rows k p i js, ap (λ r. r >>= λ k. ok (update_rows k p i js)) e, h₁))
      ]

  -- A write to no rows.
  pub update_where-nil :
      (f : Filter) (p : Patch) (i : ℕ) (out : Option Job × Store)
      → update_where f p i [] ≡ ok out
      → out ≡ (none, [])
  unfolding update_where update_rows
  update_where-nil f p i out h =
      let (k, e, w) = >>=-eq-ok (condition job_columns none false f) _ h in sym (ok-injective w)

  -- A write answers `None` only where it wrote nothing.
  pub update_where-none :
      (f : Filter) (p : Patch) (i : ℕ) (store store' : Store)
      → update_where f p i store ≡ ok (none, store')
      → store' ≡ store
  update_where-none f p i [] store' h = ap (λ o. o.1) (update_where-nil f p i _ h)
  update_where-none f p i (j ∷ js) store' h = elim (first_row f p i j js _ h) [
    | inl (e, (true, m, w)) ↦ cc
    | inl (e, (false, m, w)) ↦ cc
    | inr (e, ((o, js'), m, w)) ↦ grind (arith, update_where-none f p i js js', m, w)
  ]

  -- What a write that answered a row has done.
  abbrev pub Wrote : Filter → Patch → ℕ → Job → Store → Store → Type 0
  Wrote f p i new store store' =
      (old : Job) × (load i store ≡ some old)
      × (accepts f old ≡ ok true)
      × (new ≡ patched p old)
      × (load i store' ≡ some new)
      × ((k : ℕ) → (i == k) ≡ false → load k store' ≡ load k store)

  pub update_where-some :
      (f : Filter) (p : Patch) (i : ℕ) (store store' : Store) (new : Job)
      → update_where f p i store ≡ ok (some new, store')
      → Wrote f p i new store store'
  unfolding load
  update_where-some f p i [] store' new h = cc (update_where-nil f p i _ h)
  update_where-some f p i (j ∷ js) store' new h = elim (first_row f p i j js _ h) [
    | inl (e, (true, m, w)) ↦ (j, grind arith, m, grind arith, grind arith, λ k ne. grind arith)
    | inl (e, (false, m, w)) ↦ cc
    | inr (e, ((o, js'), m, w)) ↦
        let (old, l, c, q, l', others) = update_where-some f p i js js' new (grind arith) in
        (old, grind arith, c, q, grind arith, λ k ne. grind (arith, others k ne))
  ]

  pub update_where-of :
      (p : Patch) (condition : Option Filter) (store : Store) (out : Option Job × Store)
      → update p condition store ≡ ok out
      → (i : ℕ) × (p.patch_id ≡ some i) × (update_where (folded condition) p i store ≡ ok out)
  unfolding update
  update_where-of p condition store out h = elim (Option-cases p.patch_id) [
    | inl e ↦ grind arith
    | inr (i, e) ↦ (i, e, grind arith)
  ]

  written_load :
      (i : ℕ) (new : Job) (store store' : Store)
      → load i store' ≡ some new
      → ((k : ℕ) → (i == k) ≡ false → load k store' ≡ load k store)
      → (k : ℕ) → load k store' ≡ (if i == k then some new else load k store)
  written_load i new store store' l others k = elim (Bool-cases (i == k)) [
    | inl e ↦
        let at : load k store' ≡ some new =
          subst (λ m. load m store' ≡ some new) ((==_iff i k).0 e) l in
        rw (e, at)
    | inr e ↦ rw (e, others k e)
  ]

  -- An update that answers a row found it under the payload's id, not terminal and accepted by the
  -- database under the condition folded with the guard; the row answered is the old one with the
  -- supplied fields written, it is stored under the id from then on, and every other row is as it
  -- was.
  pub update_lem :
      (p : Patch) (condition : Option Filter) (store store' : Store) (new : Job)
      → update p condition store ≡ ok (some new, store')
      → (i : ℕ) × (old : Job) × (p.patch_id ≡ some i)
        × (load i store ≡ some old)
        × (is_terminal old.status ≡ false)
        × (accepts (folded condition) old ≡ ok true)
        × (new ≡ patched p old)
        × ((k : ℕ) → load k store' ≡ (if i == k then some new else load k store))
  update_lem p condition store store' new h =
      let (i, e, w) = update_where-of p condition store (some new, store') h in
      let (old, l, m, q, l', others) =
        update_where-some (folded condition) p i store store' new w in
      (i, old, e, l, guarded condition old m, m, q, written_load i new store store' l' others)

  -- An update that answers `None` wrote nothing.
  pub update-none :
      (p : Patch) (condition : Option Filter) (store store' : Store)
      → update p condition store ≡ ok (none, store')
      → store' ≡ store
  update-none p condition store store' h =
      let (i, e, w) = update_where-of p condition store (none, store') h in
      update_where-none (folded condition) p i store store' w

  -- A write whose stored row fails the condition answers `None`.
  update_rows-refused :
      (k : Cond) (p : Patch) (i : ℕ) (store : Store) (old : Job)
      → load i store ≡ some old
      → selected k old ≡ false
      → update_rows k p i store ≡ (none, store)
  unfolding update_rows load
  update_rows-refused k p i [] old l m = cc
  update_rows-refused k p i (j ∷ js) old l m = elim (if-cases (j.job_id == i) _ _ l) [
    | inl (e, h) ↦ grind arith
    | inr (e, h) ↦ grind (arith, update_rows-refused k p i js old h m)
  ]

  update_where-refused :
      (f : Filter) (p : Patch) (i : ℕ) (store : Store) (old : Job)
      → load i store ≡ some old
      → accepts f old ≡ ok false
      → update_where f p i store ≡ ok (none, store)
  unfolding update_where
  update_where-refused f p i store old l m =
      let (k, converted, w) = >>=-eq-ok (condition job_columns none false f) _ m in
      rw converted (ap ok (update_rows-refused k p i store old l (ok-injective w)))

  pub update-refused :
      (p : Patch) (f : Filter) (i : ℕ) (store : Store) (old : Job)
      → p.patch_id ≡ some i
      → load i store ≡ some old
      → accepts (folded (some f)) old ≡ ok false
      → update p (some f) store ≡ ok (none, store)
  unfolding update
  update-refused p f i store old e l m =
      grind (arith, e, update_where-refused (folded (some f)) p i store old l m)

  -- A write whose stored row satisfies the condition is made.
  update_rows-applies :
      (k : Cond) (p : Patch) (i : ℕ) (store : Store) (old : Job)
      → load i store ≡ some old
      → selected k old ≡ true
      → (store' : Store) × (update_rows k p i store ≡ (some (patched p old), store'))
  unfolding update_rows load
  update_rows-applies k p i [] old l m = cc
  update_rows-applies k p i (j ∷ js) old l m = elim (if-cases (j.job_id == i) _ _ l) [
    | inl (e, h) ↦ (patched p j ∷ js, grind arith)
    | inr (e, h) ↦ let (js', w) = update_rows-applies k p i js old h m in (j ∷ js', grind arith)
  ]

  update_where-applies :
      (f : Filter) (p : Patch) (i : ℕ) (store : Store) (old : Job)
      → load i store ≡ some old
      → accepts f old ≡ ok true
      → (store' : Store) × (update_where f p i store ≡ ok (some (patched p old), store'))
  unfolding update_where
  update_where-applies f p i store old l m =
      let (k, converted, w) = >>=-eq-ok (condition job_columns none false f) _ m in
      let (store', written) = update_rows-applies k p i store old l (ok-injective w) in
      (
        store',
        subst (λ r. (r >>= λ k. ok (update_rows k p i store)) ≡ ok (some (patched p old), store'))
            (sym converted) (ap ok written),
      )

  pub update-applies :
      (p : Patch) (f : Filter) (i : ℕ) (store : Store) (old : Job)
      → p.patch_id ≡ some i
      → load i store ≡ some old
      → accepts (folded (some f)) old ≡ ok true
      → (store' : Store) × (update p (some f) store ≡ ok (some (patched p old), store'))
  unfolding update
  update-applies p f i store old e l m =
      let (store', w) = update_where-applies (folded (some f)) p i store old l m in
      (store', grind (arith, e, w))
