-- ===== src/Indexing/Jobs/Writes.antt =====
-- The queries of index-job.repository.ts as changes of the table's rows.
use ai_powered_github_pr_rev.Prelude.ListLaws.{find_holds}
use ai_powered_github_pr_rev.Prelude.{
  ℕ, String, ◌≡◌, refl, false, Option, some, List, [], ◌∷◌, ◌++◌, any, find, arith,
}
use ai_powered_github_pr_rev.Prelude.Equality.{◌==◌, text_equality}
use ai_powered_github_pr_rev.Database.{Prisma, change}
use ai_powered_github_pr_rev.Database.Rows.{any-find, find-change}
use ai_powered_github_pr_rev.Indexing.Store.{IndexJob, IndexStore, done}
use ai_powered_github_pr_rev.Indexing.Jobs.{
  CreateIndexJobInput, new_job, update_job, create_index_job,
}

abbrev pub job_of : String → List IndexJob → Option IndexJob
job_of id jobs = find (λ job. job.id == id) jobs

abbrev pub change_job : String → (IndexJob → IndexJob) → List IndexJob → List IndexJob
change_job id data' jobs = change (λ job. job.id == id) data' jobs

-- The changed row is the one that is found again.
pub job_of-change_job :
    (id : String) (data' : IndexJob → IndexJob) (jobs : List IndexJob) (job : IndexJob)
    → ((j : IndexJob) → (data' j).id ≡ j.id)
    → job_of id jobs ≡ some job
    → job_of id (change_job id data' jobs) ≡ some (data' job)
job_of-change_job id data' jobs job same h =
    rw
      (
        find-change (λ j. j.id == id) (λ j. j.id == id) data' (λ j. ground (arith, same j)) jobs,
        h,
        find_holds (λ j. j.id == id) jobs job h,
      )
      refl

module _ (db : Prisma) where
  pub update_job_lem :
      (id : String) (data' : IndexJob → IndexJob) (s : IndexStore) (job : IndexJob)
      → job_of id s.jobs ≡ some job
      → update_job db id data' s ≡ (record s { jobs = change_job id data' s.jobs }, done tt)
  unfolding update_job
  update_job_lem id data' s job h =
      rw
        (
          db.update_lem IndexJob (λ j. j.id == id) data' s.jobs,
          any-find (λ j. j.id == id) s.jobs job h,
        )
        refl

  pub create_index_job_lem :
      (now : ℕ) (fresh : String) (input : CreateIndexJobInput) (s : IndexStore)
      → any (λ j. j.id == (new_job now fresh input).id) s.jobs ≡ false
      → create_index_job db now fresh input s ≡ (
        record s { jobs = s.jobs ++ new_job now fresh input ∷ [] },
        done (new_job now fresh input),
      )
  unfolding create_index_job
  create_index_job_lem now fresh input s new =
      rw
        (
          db.create_lem IndexJob (λ j. j.id == (new_job now fresh input).id)
              (new_job now fresh input) s.jobs,
          new,
        )
        refl
