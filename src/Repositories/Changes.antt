-- ===== src/Repositories/Changes.antt =====
-- The repository updates as equations on the store.
use ai_powered_github_pr_rev.Prelude.{◌≡◌, Bool, arith, count}
use ai_powered_github_pr_rev.Database.{Prisma, change}
use ai_powered_github_pr_rev.Store.{Repository, Store, ok}
use ai_powered_github_pr_rev.Repositories.{update_repositories}

pub update_repositories_lem :
    (db : Prisma) (test : Repository → Bool) (data' : Repository → Repository) (s : Store)
    → update_repositories db test data' s ≡ (
      record s { repositories = change test data' s.repositories },
      ok (count test s.repositories),
    )
unfolding update_repositories
update_repositories_lem db test data' s = ground (
  arith,
  db.update_many_lem Repository test data' s.repositories,
  db.update_count_lem Repository test s.repositories,
)
