-- ===== src/Inbox/Jobs/Latest.antt =====
-- The job whose status is told is a latest one of the document's.
use lesspaper_ngl.Inbox.Jobs.{
  insert_job, is_candidate, job_at, latest_metadata_suggestion_job, sort_jobs,
}
use lesspaper_ngl.Prelude.{
  All, Bool, Bool-cases, In, In-filter, List, Option, String, [], ap, arith, false, filter,
  get_elem?, inl, inr, none, refl, some, true, ◌↔◌, ◌∙◌, ◌∷◌, ◌≡◌, ◌⊎◌,
}
use lesspaper_ngl.Types.Job.{Job}
use mathlib.Core.Path.{subst}

-- what the code relies on of the order of texts
pub record IsOrder (later : String → String → Bool) : Type 0 where
  pub asym : (a b : String) → later a b ≡ true → later b a ≡ false
  pub trans : (a b c : String) → later a b ≡ false → later b c ≡ false → later a c ≡ false

module _ (later : String → String → Bool) (order : IsOrder later) where
  irreflexive : (a : String) → later a a ≡ false
  irreflexive a = elim (Bool-cases (later a a)) [
    | inl after ↦ order.asym a a after
    | inr before ↦ before
  ]

  abbrev IsFirst : Job → List Job → Type 0
  IsFirst j jobs = All (λ k. later (job_at k) (job_at j) ≡ false) jobs

  abbrev IsSorted : List Job → Type 0
  IsSorted [] = Unit
  IsSorted (j ∷ jobs) = IsFirst j jobs × IsSorted jobs

  IsFirst-trans :
      (i j : Job) (jobs : List Job)
      → later (job_at j) (job_at i) ≡ false
      → IsFirst j jobs
      → IsFirst i jobs
  IsFirst-trans i j [] h f = tt
  IsFirst-trans i j (k ∷ jobs) h (f, fs) = (order.trans _ _ _ f h, IsFirst-trans i j jobs h fs)

  IsFirst-insert_job :
      (i j : Job) (jobs : List Job)
      → later (job_at j) (job_at i) ≡ false
      → IsFirst i jobs
      → IsFirst i (insert_job later j jobs)
  unfolding insert_job
  IsFirst-insert_job i j [] h f = (h, tt)
  IsFirst-insert_job i j (k ∷ jobs) h (f, fs) = elim (Bool-cases (later (job_at k) (job_at j))) [
    | inl after ↦ rw after (f, IsFirst-insert_job i j jobs h fs)
    | inr before ↦ rw before (h, (f, fs))
  ]

  insert_job-IsSorted :
      (j : Job) (jobs : List Job) → IsSorted jobs → IsSorted (insert_job later j jobs)
  unfolding insert_job
  insert_job-IsSorted j [] s = (tt, tt)
  insert_job-IsSorted j (k ∷ jobs) (f, s) = elim (Bool-cases (later (job_at k) (job_at j))) [
    | inl after ↦
        rw after
          (IsFirst-insert_job k j jobs (order.asym _ _ after) f, insert_job-IsSorted j jobs s)
    | inr before ↦ rw before ((before, IsFirst-trans j k jobs before f), (f, s))
  ]

  sort_jobs-IsSorted : (jobs : List Job) → IsSorted (sort_jobs later jobs)
  unfolding sort_jobs
  sort_jobs-IsSorted [] = tt
  sort_jobs-IsSorted (j ∷ jobs) =
      insert_job-IsSorted j (sort_jobs later jobs) (sort_jobs-IsSorted jobs)

  In-insert_job :
      (a j : Job) (jobs : List Job) → In a (insert_job later j jobs) ↔ ((a ≡ j) ⊎ In a jobs)
  unfolding insert_job
  In-insert_job a j [] = ground arith
  In-insert_job a j (k ∷ jobs) = ground (arith, In-insert_job a j jobs)

  In-sort_jobs : (a : Job) (jobs : List Job) → In a (sort_jobs later jobs) ↔ In a jobs
  unfolding sort_jobs
  In-sort_jobs a [] = (λ h. h, λ h. h)
  In-sort_jobs a (j ∷ jobs) =
      ground (arith, In-insert_job a j (sort_jobs later jobs), In-sort_jobs a jobs)

  IsFirst-In :
      (j k : Job) (jobs : List Job)
      → IsFirst j jobs
      → In k jobs
      → later (job_at k) (job_at j) ≡ false
  IsFirst-In j k [] f i = absurd i
  IsFirst-In j k (x ∷ jobs) (f, fs) (inl e) = ap (λ y. later (job_at y) (job_at j)) e ∙ f
  IsFirst-In j k (x ∷ jobs) (f, fs) (inr i) = IsFirst-In j k jobs fs i

  -- the first of a sorted list: the list is empty, or it is a member that none comes after
  abbrev IsHead : Option Job → List Job → Type 0
  IsHead none jobs = jobs ≡ []
  IsHead (some j) jobs = In j jobs × ((k : Job) → In k jobs → later (job_at k) (job_at j) ≡ false)

  get_elem?-IsHead : (jobs : List Job) → IsSorted jobs → IsHead (get_elem? jobs 0) jobs
  get_elem?-IsHead [] s = refl
  get_elem?-IsHead (j ∷ jobs) (f, s) = (
    inl refl,
    λ k. elim [
      | inl e ↦ ap (λ y. later (job_at y) (job_at j)) e ∙ irreflexive (job_at j)
      | inr i ↦ IsFirst-In j k jobs f i
    ],
  )

  -- The job that is taken for the latest request for suggestions of a document is one of its jobs of
  -- that type, and no other such job comes after it.
  latest_metadata_suggestion_job_lem :
      (jobs : List Job) (document_id : String) (j : Job)
      → latest_metadata_suggestion_job later jobs document_id ≡ some j
      → In j jobs
        × (is_candidate document_id j ≡ true)
        × ((k : Job)
            → In k jobs
            → is_candidate document_id k ≡ true
            → later (job_at k) (job_at j) ≡ false)
  unfolding latest_metadata_suggestion_job
  latest_metadata_suggestion_job_lem jobs document_id j e =
      let all_of = filter (is_candidate document_id) jobs in
      let (i, last) : IsHead (some j) (sort_jobs later all_of) =
        subst (λ o. IsHead o (sort_jobs later all_of)) e
          (get_elem?-IsHead (sort_jobs later all_of) (sort_jobs-IsSorted all_of)) in
      let (in_jobs, is_one) =
        (In-filter (is_candidate document_id) j jobs).0 ((In-sort_jobs j all_of).0 i) in
      (
        in_jobs,
        is_one,
        λ k m c.
            last k
              ((In-sort_jobs k all_of).1 ((In-filter (is_candidate document_id) k jobs).1 (m, c))),
      )
