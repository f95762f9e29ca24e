-- ===== src/Jobs/Runner/Progress.antt =====
-- A pass of claims that nobody interferes with (`_claim_and_start` of
-- resourcey/jobs/jobs_runner.py).
use resourcey.Prelude.{
  ℕ, zero, suc, ◌+◌, ◌*◌, ◌≤◌, ◌≡◌, ◌⊎◌, refl, sym, subst, true, false, Bool-cases, Option, none,
  some, Option-cases, List, [], ◌∷◌, ◌++◌, All, length, length-append, ltb, ◌==◌, inl, inr, arith,
}
use resourcey.Failure.{ok}
use resourcey.Filter.{Filter, Casing}
use resourcey.Sql.{Database}
use resourcey.Sql.Convert.{Printing}
use resourcey.Jobs.{
  pending, Job, Patch, Store, load, update, update_where, status_is, folded, patched,
}
use resourcey.Jobs.Statuses.{same_status, same_status-eq}
use resourcey.Jobs.Guard.{first_row, update_where-of}
use resourcey.Jobs.Runner.{Runner, claim, claim_and_start, claim_patch, first_of, with_status}
use resourcey.Jobs.Runner.Claims.{claim-applies}

abbrev pub all_ids : Store → List ℕ
all_ids [] = []
all_ids (j ∷ js) = j.job_id ∷ all_ids js

-- The primary key of the table.
abbrev pub HasDistinctKeys : List ℕ → Type 0
HasDistinctKeys [] = Unit
HasDistinctKeys (i ∷ is) = All (λ k. (k == i) ≡ false) is × HasDistinctKeys is

first-pending :
    (s : Store) (j : Job) → first_of (with_status pending s) ≡ some j → j.status ≡ pending
first-pending [] j h = cc
first-pending (x ∷ s) j h = elim (Bool-cases (same_status x.status pending)) [
  | inl e ↦ grind (arith, same_status-eq x.status pending e)
  | inr e ↦ first-pending s j (rw e at h)
]

first-key :
    (P : ℕ → Type 0) (s : Store) (j : Job)
    → first_of (with_status pending s) ≡ some j
    → All P (all_ids s)
    → P j.job_id
first-key P [] j h a = cc
first-key P (x ∷ s) j h (a, as') = elim (Bool-cases (same_status x.status pending)) [
  | inl e ↦ let same : x ≡ j = grind arith in subst (λ k. P k.job_id) same a
  | inr e ↦ first-key P s j (rw e at h) as'
]

first-load :
    (s : Store) (j : Job)
    → HasDistinctKeys (all_ids s)
    → first_of (with_status pending s) ≡ some j
    → load j.job_id s ≡ some j
unfolding load
first-load [] j d h = cc
first-load (x ∷ s) j (a, d) h = elim (Bool-cases (same_status x.status pending)) [
  | inl e ↦ grind arith
  | inr e ↦
      let rest : first_of (with_status pending s) ≡ some j = rw e at h in
      let apart : (j.job_id == x.job_id) ≡ false =
        first-key (λ k. (k == x.job_id) ≡ false) s j rest a in
      grind (arith, first-load s j d rest)
]

module _ ⦃c : Casing⦄ ⦃p : Printing⦄ ⦃db : Database⦄ where
  all_ids-update_where :
      (f : Filter) (p : Patch) (i : ℕ) (s s' : Store) (o : Option Job)
      → update_where f p i s ≡ ok (o, s')
      → all_ids s' ≡ all_ids s
  unfolding update_where
  all_ids-update_where f p i [] s' o h = grind arith
  all_ids-update_where f p i (j ∷ js) s' o h = elim (first_row f p i j js _ h) [
    | inl (e, (true, m, w)) ↦ grind arith
    | inl (e, (false, m, w)) ↦ grind arith
    | inr (e, ((o', js'), m, w)) ↦ grind (arith, all_ids-update_where f p i js js' o' m, w)
  ]

  all_ids-update :
      (p : Patch) (f : Option Filter) (s s' : Store) (o : Option Job)
      → update p f s ≡ ok (o, s')
      → all_ids s' ≡ all_ids s
  all_ids-update p f s s' o h =
      let (i, e, w) = update_where-of p f s (o, s') h in
      all_ids-update_where (folded f) p i s s' o w

  -- The runner is at its capacity, or no pending job is left.
  abbrev pub Full : Runner → ℕ → List ℕ → Store → Type 0
  Full r in_flight ids s =
      (r.max_concurrent ≤ in_flight + length ids) ⊎ (with_status pending s ≡ [])

  first-none : (js : List Job) → first_of js ≡ none → js ≡ []
  first-none [] h = refl
  first-none (j ∷ js) h = cc

  claim-Full :
      (r : Runner) (now in_flight n : ℕ) (claimed : List ℕ) (s : Store)
      → HasDistinctKeys (all_ids s)
      → r.max_concurrent ≤ in_flight + length claimed + n
      → (ids : List ℕ) × (s' : Store) × (claim r now in_flight (λ n s. s) n claimed s
          ≡ ok (ids, s'))
        × Full r in_flight ids s'
  unfolding claim
  claim-Full r now in_flight zero claimed s d room = (claimed, s, refl, inl (omega arith))
  claim-Full r now in_flight (suc n) claimed s d room =
      elim (Bool-cases (ltb (in_flight + length claimed) r.max_concurrent)) [
        | inr e ↦ (claimed, s, rw e refl, inl (grind arith))
        | inl e ↦ elim (Option-cases (first_of (with_status pending s))) [
          | inl f ↦ (claimed, s, rw (e, f) refl, inr (first-none _ f))
          | inr (j, f) ↦
              let (t, w, started, mine, tries) =
                claim-applies r now j s j (first-load s j d f) (first-pending s j f) in
              let same : all_ids t ≡ all_ids s =
                all_ids-update (claim_patch r now j) (some (status_is pending)) s t
                  (some (patched (claim_patch r now j) j)) w in
              let more : length (claimed ++ (j.job_id ∷ [])) ≡ length claimed + 1 =
                length-append claimed (j.job_id ∷ []) in
              let (ids, s', q, full) =
                claim-Full r now in_flight n (claimed ++ (j.job_id ∷ [])) t
                  (subst (λ l. HasDistinctKeys l) (sym same) d) (omega (arith, more)) in
              (ids, s', rw (e, f, w) q, full)
        ]
      ]

  -- In a table of distinct ids that nobody else writes to, a pass of claims returns without error,
  -- and afterwards the runner is at its capacity or no pending job is left.
  pub claim_and_start-Full :
      (r : Runner) (now in_flight : ℕ) (s : Store)
      → HasDistinctKeys (all_ids s)
      → (ids : List ℕ) × (s' : Store) × (claim_and_start r now in_flight (λ n s. s) s
          ≡ ok (ids, s'))
        × Full r in_flight ids s'
  unfolding claim_and_start
  claim_and_start-Full r now in_flight s d =
      claim-Full r now in_flight (r.max_concurrent * 4) [] s d (omega arith)
