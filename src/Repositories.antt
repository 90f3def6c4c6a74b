-- ===== src/Repositories.antt =====
-- The writes and reads of apps/api/src/modules/repositories/repository.repository.ts,
-- installation.repository.ts and of apps/api/src/modules/webhooks/pull-request.repository.ts that
-- webhook handling and the repository service call.
pub mod Changes
pub mod Transitions
use ai_powered_github_pr_rev.Prelude.{
  ℕ, String, Bool, true, false, not, ◌&&◌, Option, none, some, List, [], ◌∷◌, find, nat_beq,
}
use ai_powered_github_pr_rev.Prelude.Equality.{◌==◌, text_equality, integer_equality}
use ai_powered_github_pr_rev.Prelude.Int.{ℤ}
use ai_powered_github_pr_rev.Json.{Json}
use ai_powered_github_pr_rev.Database.{Prisma}
use ai_powered_github_pr_rev.Store.{
  ConnectionStatus, active, disconnected, access_lost, is_active, is_access_lost, is_disconnected,
  Project, Repository, GithubInstallation, PullRequest, Store, M, pure,
}
use ai_powered_github_pr_rev.Webhook.Router.{WebhookTenantTarget}

pub record RepositoryName : Type 0 where
  pub owner : String
  pub name : String
  pub full_name : String
  pub html_url : String

pub record InstallationMetadata : Type 0 where
  pub installation_id : ℤ
  pub account_login : String
  pub account_type : String
  pub suspended_at : Option ℕ

abbrev pub with_status : ConnectionStatus → Repository → Repository
with_status status row = record row { connection_status = status }

-- `project: { deletedAt: null }`, a test on the row's project.
abbrev pub project_of : List Project → Repository → Option Project
project_of projects row = find (λ p. p.id == row.project_id) projects

abbrev pub is_live : Option Project → Bool
is_live none = false
is_live (some p) = elim p.deleted_at [ none ↦ true | some _ ↦ false ]

abbrev pub is_connected : List Project → ℤ → Repository → Bool
is_connected projects github_repo_id row =
    row.github_repo_id == github_repo_id
    && not (is_disconnected row.connection_status)
    && is_live (project_of projects row)

abbrev pub to_tenant : Repository → Project → WebhookTenantTarget
to_tenant row project = record {
  repository_id = row.id;
  project_id = row.project_id;
  installation_id = row.installation_id;
  full_name = row.full_name;
  project_settings = project.settings;
  project_deleted_at = project.deleted_at;
}

-- The rows with their projects. A row has a project: the column is a foreign key.
abbrev pub add_tenant :
    Option Project → Repository → List WebhookTenantTarget → List WebhookTenantTarget
add_tenant none row rest = rest
add_tenant (some project) row rest = to_tenant row project ∷ rest

abbrev pub to_tenants : List Project → List Repository → List WebhookTenantTarget
to_tenants projects [] = []
to_tenants projects (row ∷ rows) =
    add_tenant (project_of projects row) row (to_tenants projects rows)

module _ (db : Prisma) where
  -- `prisma.repository.updateMany`, which returns the number of rows that it changed.
  unfoldable pub update_repositories : (Repository → Bool) → (Repository → Repository) → M ℕ
  update_repositories test data' s =
      pure (db.update_count Repository test s.repositories)
        (record s { repositories = db.update_many Repository test data' s.repositories })

  unfoldable pub mark_disconnected : String → String → M ℕ
  mark_disconnected project_id repository_id =
      update_repositories
        (λ row.
          row.id == repository_id
          && row.project_id == project_id
          && not (is_disconnected row.connection_status))
        (with_status disconnected)

  unfoldable pub mark_access_lost : String → String → M ℕ
  mark_access_lost project_id repository_id =
      update_repositories
        (λ row.
          row.id == repository_id
          && row.project_id == project_id
          && is_active row.connection_status)
        (with_status access_lost)

  unfoldable pub mark_access_lost_by_installation : ℤ → M ℕ
  mark_access_lost_by_installation installation_id =
      update_repositories
        (λ row. row.installation_id == installation_id && is_active row.connection_status)
        (with_status access_lost)

  unfoldable pub restore_active_by_installation : ℤ → M ℕ
  restore_active_by_installation installation_id =
      update_repositories
        (λ row. row.installation_id == installation_id && is_access_lost row.connection_status)
        (with_status active)

  unfoldable pub mark_access_lost_by_github_repo_id : ℤ → M ℕ
  mark_access_lost_by_github_repo_id github_repo_id =
      update_repositories
        (λ row. row.github_repo_id == github_repo_id && is_active row.connection_status)
        (with_status access_lost)

  unfoldable pub restore_active_by_github_repo_id : ℤ → M ℕ
  restore_active_by_github_repo_id github_repo_id =
      update_repositories
        (λ row. row.github_repo_id == github_repo_id && is_access_lost row.connection_status)
        (with_status active)

  unfoldable pub rename_by_github_repo_id : ℤ → RepositoryName → M ℕ
  rename_by_github_repo_id github_repo_id next =
      update_repositories (λ row. row.github_repo_id == github_repo_id)
        λ row. record row {
          owner = next.owner;
          name = next.name;
          full_name = next.full_name;
          html_url = next.html_url;
        }

  unfoldable pub find_connected_by_github_repo_id : ℤ → Store → List WebhookTenantTarget
  find_connected_by_github_repo_id github_repo_id s =
      to_tenants s.projects
        (db.find_many Repository (is_connected s.projects github_repo_id) s.repositories)

  update_installations :
      (GithubInstallation → Bool) → (GithubInstallation → GithubInstallation) → M ℕ
  update_installations test data' s =
      pure (db.update_count GithubInstallation test s.installations)
        (record s { installations = db.update_many GithubInstallation test data' s.installations })

  -- `true` where exactly one row was updated.
  unfoldable pub update_installation_metadata_if_exists :
      InstallationMetadata → Store → Store × Bool
  update_installation_metadata_if_exists input s =
      let test : GithubInstallation → Bool = λ row. row.installation_id == input.installation_id in
      (
        record s {
          installations =
              db.update_many GithubInstallation test
                (λ row. record row {
                  account_login = input.account_login;
                  account_type = input.account_type;
                  suspended_at = input.suspended_at;
                })
                s.installations;
        },
        nat_beq (db.update_count GithubInstallation test s.installations) 1,
      )

  unfoldable pub set_installation_suspended_at : ℤ → Option ℕ → M ℕ
  unfolding update_installations
  set_installation_suspended_at installation_id suspended_at =
      update_installations (λ row. row.installation_id == installation_id)
        λ row. record row { suspended_at = suspended_at }

  unfoldable pub upsert_minimal : PullRequest → M (Unit {0})
  upsert_minimal input s = pure tt (record s {
    pull_requests =
        db.upsert PullRequest
          (λ row. row.repository_id == input.repository_id && row.number == input.number) input
          (λ row. record row {
            github_pr_id = input.github_pr_id;
            head_sha = input.head_sha;
            state = input.state;
            is_draft = input.is_draft;
          })
          s.pull_requests;
  })
