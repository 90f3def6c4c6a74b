-- ===== src/Webhook/Sync.antt =====
-- apps/api/src/modules/webhooks/installation-sync.ts
pub mod Laws
pub mod Suspension
pub mod Returns
use ai_powered_github_pr_rev.Prelude.{
  ℕ, String, Option, none, some, List, [], ◌∷◌, ◌+◌, if◌then◌else◌, ◌||◌,
}
use ai_powered_github_pr_rev.Prelude.Equality.{◌==◌, text_equality}
use ai_powered_github_pr_rev.Prelude.Int.{ℤ}
use ai_powered_github_pr_rev.Database.{Prisma}
use ai_powered_github_pr_rev.Store.{M, ◌>>=◌, pure}
use ai_powered_github_pr_rev.Repositories.{
  update_installation_metadata_if_exists, set_installation_suspended_at,
  mark_access_lost_by_installation, restore_active_by_installation,
  mark_access_lost_by_github_repo_id, restore_active_by_github_repo_id, rename_by_github_repo_id,
}
use ai_powered_github_pr_rev.Webhook.Payload.{
  RepositoryRef, InstallationEvent, InstallationRepositoriesEvent, RepositoryEvent,
}

pub data InstallationSyncReason : Type 0 where
  installation_created_updated installation_created_no_existing_row : InstallationSyncReason
  installation_deleted installation_suspended installation_unsuspended : InstallationSyncReason
  installation_repositories_added installation_repositories_removed : InstallationSyncReason
  repository_renamed repository_deleted repository_archived : InstallationSyncReason
  repository_unarchived unhandled_action : InstallationSyncReason

-- `?? []`
abbrev pub or_empty : Option (List RepositoryRef) → List RepositoryRef
or_empty none = []
or_empty (some refs) = refs

-- `new Date(text)`, milliseconds since the epoch; `none` where `getTime` is `NaN`.
module _ (db : Prisma) (parse_date : String → Option ℕ) where
  parse_suspended_at : Option String → Option ℕ
  parse_suspended_at none = none
  parse_suspended_at (some value) = parse_date value

  sync_created : InstallationEvent → M InstallationSyncReason
  unfolding parse_suspended_at
  sync_created payload s =
      let (s', updated) =
        update_installation_metadata_if_exists db
          (record {
            installation_id = payload.installation_id;
            account_login = payload.account_login;
            account_type = payload.account_type;
            suspended_at = parse_suspended_at payload.suspended_at;
          })
          s in
      pure (if updated then installation_created_updated else installation_created_no_existing_row)
        s'

  sync_deleted : ℤ → M InstallationSyncReason
  sync_deleted id = do _ ← mark_access_lost_by_installation db id; pure installation_deleted

  sync_suspend : ℕ → ℤ → M InstallationSyncReason
  sync_suspend now id = do
    _ ← set_installation_suspended_at db id (some now)
    _ ← mark_access_lost_by_installation db id
    pure installation_suspended

  sync_unsuspend : ℤ → M InstallationSyncReason
  sync_unsuspend id = do
    _ ← set_installation_suspended_at db id none
    _ ← restore_active_by_installation db id
    pure installation_unsuspended

  -- The clock is read by `suspend` alone.
  unfoldable pub sync_installation_event : ℕ → InstallationEvent → M InstallationSyncReason
  unfolding sync_created sync_deleted sync_suspend sync_unsuspend
  sync_installation_event now payload =
      if payload.action == "created"
      then sync_created payload
      else if payload.action == "deleted"
      then sync_deleted payload.installation_id
      else if payload.action == "suspend"
      then sync_suspend now payload.installation_id
      else if payload.action == "unsuspend"
      then sync_unsuspend payload.installation_id
      else pure unhandled_action

  -- The loop of `removed`, with the number of rows changed so far.
  remove_each : List RepositoryRef → ℕ → M ℕ
  remove_each [] affected = pure affected
  remove_each (repo ∷ repos) affected = do
    changed ← mark_access_lost_by_github_repo_id db repo.id
    remove_each repos (affected + changed)

  sync_removed : InstallationRepositoriesEvent → M InstallationSyncReason
  unfolding remove_each
  sync_removed payload = do
    _ ← remove_each (or_empty payload.repositories_removed) 0
    pure installation_repositories_removed

  unfoldable pub sync_installation_repositories_event :
      InstallationRepositoriesEvent → M InstallationSyncReason
  unfolding sync_removed
  sync_installation_repositories_event payload =
      if payload.action == "added"
      then pure installation_repositories_added
      else if payload.action == "removed"
      then sync_removed payload
      else pure unhandled_action

  sync_renamed : RepositoryRef → M InstallationSyncReason
  sync_renamed repo = do
    _ ← rename_by_github_repo_id db repo.id (record {
      owner = repo.owner_login;
      name = repo.name;
      full_name = repo.full_name;
      html_url = repo.html_url;
    })
    pure repository_renamed

  -- The one case of `deleted` and `archived`.
  sync_lost : RepositoryEvent → M InstallationSyncReason
  sync_lost payload = do
    _ ← mark_access_lost_by_github_repo_id db payload.repository.id
    pure (if payload.action == "deleted" then repository_deleted else repository_archived)

  sync_unarchived : ℤ → M InstallationSyncReason
  sync_unarchived id = do _ ← restore_active_by_github_repo_id db id; pure repository_unarchived

  unfoldable pub sync_repository_event : RepositoryEvent → M InstallationSyncReason
  unfolding sync_renamed sync_lost sync_unarchived
  sync_repository_event payload =
      if payload.action == "renamed"
      then sync_renamed payload.repository
      else if payload.action == "deleted" || payload.action == "archived"
      then sync_lost payload
      else if payload.action == "unarchived"
      then sync_unarchived payload.repository.id
      else pure unhandled_action
