-- ===== src/Webhook/Sync/Returns.antt =====
-- How the handlers of installation-sync.ts end, and which tables they may write.
use ai_powered_github_pr_rev.Prelude.{
  ℕ, String, ◌≡◌, refl, ◌∙◌, ap, Bool, Option, none, some, List, [], ◌∷◌, if◌then◌else◌, ◌||◌, ◌+◌,
  true, false,
}
use ai_powered_github_pr_rev.Prelude.Equality.{◌==◌, text_equality, integer_equality}
use ai_powered_github_pr_rev.Prelude.Int.{ℤ}
use ai_powered_github_pr_rev.Database.{Prisma}
use ai_powered_github_pr_rev.Store.{Repository, GithubInstallation, Store, ok, M, ◌>>=◌, pure, next}
use ai_powered_github_pr_rev.Repositories.{
  RepositoryName, update_repositories, set_installation_suspended_at,
  mark_access_lost_by_installation, restore_active_by_installation,
  mark_access_lost_by_github_repo_id, restore_active_by_github_repo_id, rename_by_github_repo_id,
  update_installation_metadata_if_exists,
}
use ai_powered_github_pr_rev.Webhook.Payload.{
  RepositoryRef, InstallationEvent, InstallationRepositoriesEvent, RepositoryEvent,
}
use ai_powered_github_pr_rev.Webhook.Sync.{
  installation_deleted, installation_suspended, installation_unsuspended,
  installation_repositories_removed, installation_repositories_added, repository_renamed,
  repository_unarchived, unhandled_action, sync_created, sync_deleted, sync_suspend, sync_unsuspend,
  sync_removed, sync_renamed, sync_lost, sync_unarchived, remove_each, sync_installation_event,
  sync_installation_repositories_event, sync_repository_event, or_empty,
}

-- The handler ends without an exception, and the tables other than these two are as they were.
abbrev pub Returns : {A : Type 0} → M A → Type 0
Returns {A} m =
    (s : Store)
    → (a : A) × (rows : List Repository) × (rows' : List GithubInstallation) × (m s
        ≡ (record s { repositories = rows; installations = rows' }, ok a))

pure-Returns : {A : Type 0} (a : A) → Returns (pure a)
pure-Returns a s = (a, s.repositories, s.installations, refl)

>>=-Returns :
    {A B : Type 0} (m : M A) (k : A → M B)
    → Returns m
    → ((a : A) → Returns (k a))
    → Returns (m >>= k)
>>=-Returns m k h h' s =
    let (a, rows, rows', e) = h s in
    let (b, next_rows, next_rows', e') =
      h' a (record s { repositories = rows; installations = rows' }) in
    (b, next_rows, next_rows', ap (next k) e ∙ e')

if-Returns :
    {A : Type 0} (b : Bool) (m m' : M A) → Returns m → Returns m' → Returns (if b then m else m')
if-Returns true m m' h h' = h
if-Returns false m m' h h' = h'

module _ (db : Prisma) where
  update-Returns :
      (test : Repository → Bool) (data' : Repository → Repository)
      → Returns (update_repositories db test data')
  unfolding update_repositories
  update-Returns test data' s = (_, _, s.installations, refl)

  rename-Returns : (id : ℤ) (name : RepositoryName) → Returns (rename_by_github_repo_id db id name)
  unfolding rename_by_github_repo_id
  rename-Returns id name = update-Returns _ _

  lost_by_installation-Returns : (id : ℤ) → Returns (mark_access_lost_by_installation db id)
  unfolding mark_access_lost_by_installation
  lost_by_installation-Returns id = update-Returns _ _

  restored_by_installation-Returns : (id : ℤ) → Returns (restore_active_by_installation db id)
  unfolding restore_active_by_installation
  restored_by_installation-Returns id = update-Returns _ _

  lost_by_repo-Returns : (id : ℤ) → Returns (mark_access_lost_by_github_repo_id db id)
  unfolding mark_access_lost_by_github_repo_id
  lost_by_repo-Returns id = update-Returns _ _

  restored_by_repo-Returns : (id : ℤ) → Returns (restore_active_by_github_repo_id db id)
  unfolding restore_active_by_github_repo_id
  restored_by_repo-Returns id = update-Returns _ _

  suspended_at-Returns : (id : ℤ) (at : Option ℕ) → Returns (set_installation_suspended_at db id at)
  unfolding set_installation_suspended_at
  suspended_at-Returns id at s = (_, s.repositories, _, refl)

  module _ (parse_date : String → Option ℕ) where
    remove_each-Returns :
        (repos : List RepositoryRef) (affected : ℕ)
        → Returns (remove_each db parse_date repos affected)
    unfolding remove_each
    remove_each-Returns [] affected = pure-Returns affected
    remove_each-Returns (repo ∷ repos) affected =
        >>=-Returns (mark_access_lost_by_github_repo_id db repo.id)
          (λ changed. remove_each db parse_date repos (affected + changed))
          (lost_by_repo-Returns repo.id) (λ changed. remove_each-Returns repos (affected + changed))

    created-Returns : (e : InstallationEvent) → Returns (sync_created db parse_date e)
    unfolding sync_created update_installation_metadata_if_exists
    created-Returns e s = (_, s.repositories, _, refl)

    suspend-Returns : (now : ℕ) (id : ℤ) → Returns (sync_suspend db parse_date now id)
    unfolding sync_suspend
    suspend-Returns now id =
        >>=-Returns (set_installation_suspended_at db id (some now)) _
          (suspended_at-Returns id (some now))
          (λ _.
            >>=-Returns (mark_access_lost_by_installation db id) _ (lost_by_installation-Returns id)
              (λ _. pure-Returns installation_suspended))

    unsuspend-Returns : (id : ℤ) → Returns (sync_unsuspend db parse_date id)
    unfolding sync_unsuspend
    unsuspend-Returns id =
        >>=-Returns (set_installation_suspended_at db id none) _ (suspended_at-Returns id none)
          (λ _.
            >>=-Returns (restore_active_by_installation db id) _
              (restored_by_installation-Returns id) (λ _. pure-Returns installation_unsuspended))

    deleted-Returns : (id : ℤ) → Returns (sync_deleted db parse_date id)
    unfolding sync_deleted
    deleted-Returns id =
        >>=-Returns (mark_access_lost_by_installation db id) _ (lost_by_installation-Returns id)
          (λ _. pure-Returns installation_deleted)

    removed-Returns : (r : InstallationRepositoriesEvent) → Returns (sync_removed db parse_date r)
    unfolding sync_removed
    removed-Returns r =
        >>=-Returns (remove_each db parse_date (or_empty r.repositories_removed) 0) _
          (remove_each-Returns (or_empty r.repositories_removed) 0)
          (λ _. pure-Returns installation_repositories_removed)

    pub sync_installation_event-Returns :
        (now : ℕ) (e : InstallationEvent) → Returns (sync_installation_event db parse_date now e)
    unfolding sync_installation_event
    sync_installation_event-Returns now e =
        if-Returns (e.action == "created") _ _ (created-Returns e) (
          if-Returns (e.action == "deleted") _ _ (deleted-Returns e.installation_id) (
            if-Returns (e.action == "suspend") _ _ (suspend-Returns now e.installation_id) (
              if-Returns (e.action == "unsuspend") _ _ (unsuspend-Returns e.installation_id)
                (pure-Returns unhandled_action))))

    pub sync_installation_repositories_event-Returns :
        (r : InstallationRepositoriesEvent)
        → Returns (sync_installation_repositories_event db parse_date r)
    unfolding sync_installation_repositories_event
    sync_installation_repositories_event-Returns r =
        if-Returns (r.action == "added") _ _ (pure-Returns installation_repositories_added) (
          if-Returns (r.action == "removed") _ _ (removed-Returns r)
            (pure-Returns unhandled_action))

    renamed-Returns : (repo : RepositoryRef) → Returns (sync_renamed db parse_date repo)
    unfolding sync_renamed
    renamed-Returns repo =
        >>=-Returns (rename_by_github_repo_id db repo.id _) _ (rename-Returns repo.id _)
          (λ _. pure-Returns repository_renamed)

    lost-Returns : (t : RepositoryEvent) → Returns (sync_lost db parse_date t)
    unfolding sync_lost
    lost-Returns t =
        >>=-Returns (mark_access_lost_by_github_repo_id db t.repository.id) _
          (lost_by_repo-Returns t.repository.id) (λ _. pure-Returns _)

    unarchived-Returns : (id : ℤ) → Returns (sync_unarchived db parse_date id)
    unfolding sync_unarchived
    unarchived-Returns id =
        >>=-Returns (restore_active_by_github_repo_id db id) _ (restored_by_repo-Returns id)
          (λ _. pure-Returns repository_unarchived)

    pub sync_repository_event-Returns :
        (t : RepositoryEvent) → Returns (sync_repository_event db parse_date t)
    unfolding sync_repository_event
    sync_repository_event-Returns t =
        if-Returns (t.action == "renamed") _ _ (renamed-Returns t.repository) (
          if-Returns (t.action == "deleted" || t.action == "archived") _ _ (lost-Returns t) (
            if-Returns (t.action == "unarchived") _ _ (unarchived-Returns t.repository.id)
              (pure-Returns unhandled_action)))
