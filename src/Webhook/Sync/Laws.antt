-- ===== src/Webhook/Sync/Laws.antt =====
-- The handlers of installation-sync.ts and the connected repositories.
use ai_powered_github_pr_rev.Prelude.{
  ℕ, String, ◌≡◌, refl, Bool, true, ◌∙◌, Option, none, some, List, [], ◌∷◌, map, arith, Bool-cases,
  inl, inr, ◌+◌, if◌then◌else◌,
}
use ai_powered_github_pr_rev.Prelude.Equality.{◌==◌, text_equality, integer_equality}
use ai_powered_github_pr_rev.Prelude.Int.{ℤ}
use ai_powered_github_pr_rev.Database.{Prisma, change}
use ai_powered_github_pr_rev.Store.{
  is_active, is_access_lost, is_disconnected, Repository, Store, ok, err, M, ◌>>=◌, next, Result,
  pure,
}
use ai_powered_github_pr_rev.Repositories.{
  RepositoryName, update_repositories, set_installation_suspended_at,
  mark_access_lost_by_installation, restore_active_by_installation,
  mark_access_lost_by_github_repo_id, restore_active_by_github_repo_id, rename_by_github_repo_id,
  update_installation_metadata_if_exists,
}
use ai_powered_github_pr_rev.Repositories.Changes.{update_repositories_lem}
use ai_powered_github_pr_rev.Webhook.Payload.{
  RepositoryRef, InstallationEvent, InstallationRepositoriesEvent, RepositoryEvent,
}
use ai_powered_github_pr_rev.Webhook.Sync.{
  installation_deleted, installation_suspended, installation_unsuspended,
  installation_repositories_removed, repository_renamed, repository_deleted, repository_archived,
  repository_unarchived, sync_created, sync_deleted, sync_suspend, sync_unsuspend, sync_removed,
  sync_renamed, sync_lost, sync_unarchived, remove_each, sync_installation_event,
  sync_installation_repositories_event, sync_repository_event, or_empty,
}

-- What no webhook may change of a repository: which row it is, whose it is, and whether the user
-- has disconnected it.
pub record Kept : Type 0 where
  pub id : String
  pub project_id : String
  pub installation_id : ℤ
  pub github_repo_id : ℤ
  pub is_disconnected' : Bool

abbrev pub kept : Repository → Kept
kept row = record {
  id = row.id;
  project_id = row.project_id;
  installation_id = row.installation_id;
  github_repo_id = row.github_repo_id;
  is_disconnected' = is_disconnected row.connection_status;
}

abbrev pub kept_of : Store → List Kept
kept_of s = map kept s.repositories

map-change :
    (test : Repository → Bool) (data' : Repository → Repository) (rows : List Repository)
    → ((row : Repository) → test row ≡ true → kept (data' row) ≡ kept row)
    → map kept (change test data' rows) ≡ map kept rows
map-change test data' [] h = refl
map-change test data' (row ∷ rows) h = elim (Bool-cases (test row)) [
  | inl e ↦ rw (e, h row e, map-change test data' rows h)
  | inr e ↦ rw (e, map-change test data' rows h)
]

-- A handler that keeps them, and keeping them in sequence.
abbrev Keeps : {A : Type 0} → M A → Type 0
Keeps m = (s : Store) → kept_of (m s).0 ≡ kept_of s

next-kept :
    {A B : Type 0} (k : A → M B) (r : Store × Result A)
    → ((a : A) → Keeps (k a))
    → kept_of (next k r).0 ≡ kept_of r.0
next-kept k (s, ok a) h = h a s
next-kept k (s, err e) h = refl

>>=-Keeps :
    {A B : Type 0} (m : M A) (k : A → M B) → Keeps m → ((a : A) → Keeps (k a)) → Keeps (m >>= k)
>>=-Keeps m k h h' s = next-kept k (m s) h' ∙ h s

pure-Keeps : {A B : Type 0} (m : M A) (b : B) → Keeps m → Keeps (m >>= λ _. pure b)
pure-Keeps m b h s = next-kept (λ _. pure b) (m s) (λ _ s'. refl) ∙ h s

module _ (db : Prisma) where
  update-Keeps :
      (test : Repository → Bool) (data' : Repository → Repository)
      → ((row : Repository) → test row ≡ true → kept (data' row) ≡ kept row)
      → Keeps (update_repositories db test data')
  update-Keeps test data' h s =
      rw (update_repositories_lem db test data' s) (map-change test data' s.repositories h)

  lost_by_installation-Keeps : (id : ℤ) → Keeps (mark_access_lost_by_installation db id)
  unfolding mark_access_lost_by_installation is_active is_disconnected
  lost_by_installation-Keeps id = update-Keeps _ _ (λ row h. ground arith)

  restore_by_installation-Keeps : (id : ℤ) → Keeps (restore_active_by_installation db id)
  unfolding restore_active_by_installation is_access_lost is_disconnected
  restore_by_installation-Keeps id = update-Keeps _ _ (λ row h. ground arith)

  lost_by_github_repo_id-Keeps : (id : ℤ) → Keeps (mark_access_lost_by_github_repo_id db id)
  unfolding mark_access_lost_by_github_repo_id is_active is_disconnected
  lost_by_github_repo_id-Keeps id = update-Keeps _ _ (λ row h. ground arith)

  restore_by_github_repo_id-Keeps : (id : ℤ) → Keeps (restore_active_by_github_repo_id db id)
  unfolding restore_active_by_github_repo_id is_access_lost is_disconnected
  restore_by_github_repo_id-Keeps id = update-Keeps _ _ (λ row h. ground arith)

  rename-Keeps : (id : ℤ) (next' : RepositoryName) → Keeps (rename_by_github_repo_id db id next')
  unfolding rename_by_github_repo_id
  rename-Keeps id next' = update-Keeps _ _ (λ row h. refl)

  suspended_at-Keeps : (id : ℤ) (at : Option ℕ) → Keeps (set_installation_suspended_at db id at)
  unfolding set_installation_suspended_at
  suspended_at-Keeps id at s = refl

  module _ (parse_date : String → Option ℕ) where
    remove_each-Keeps :
        (repos : List RepositoryRef) (affected : ℕ)
        → Keeps (remove_each db parse_date repos affected)
    unfolding remove_each
    remove_each-Keeps [] affected s = refl
    remove_each-Keeps (repo ∷ repos) affected s =
        >>=-Keeps (mark_access_lost_by_github_repo_id db repo.id)
          (λ changed. remove_each db parse_date repos (affected + changed))
          (lost_by_github_repo_id-Keeps repo.id)
          (λ changed. remove_each-Keeps repos (affected + changed)) s

    sync_created-Keeps : (payload : InstallationEvent) → Keeps (sync_created db parse_date payload)
    unfolding sync_created update_installation_metadata_if_exists
    sync_created-Keeps payload s = refl

    sync_deleted-Keeps : (id : ℤ) → Keeps (sync_deleted db parse_date id)
    unfolding sync_deleted
    sync_deleted-Keeps id s =
        pure-Keeps (mark_access_lost_by_installation db id) installation_deleted
          (lost_by_installation-Keeps id) s

    sync_suspend-Keeps : (now : ℕ) (id : ℤ) → Keeps (sync_suspend db parse_date now id)
    unfolding sync_suspend
    sync_suspend-Keeps now id s =
        let lost = mark_access_lost_by_installation db id in
        >>=-Keeps (set_installation_suspended_at db id (some now))
          (λ _. lost >>= λ _. pure installation_suspended) (suspended_at-Keeps id (some now))
          (λ _. pure-Keeps lost installation_suspended (lost_by_installation-Keeps id)) s

    sync_unsuspend-Keeps : (id : ℤ) → Keeps (sync_unsuspend db parse_date id)
    unfolding sync_unsuspend
    sync_unsuspend-Keeps id s =
        let restored = restore_active_by_installation db id in
        >>=-Keeps (set_installation_suspended_at db id none)
          (λ _. restored >>= λ _. pure installation_unsuspended) (suspended_at-Keeps id none)
          (λ _. pure-Keeps restored installation_unsuspended (restore_by_installation-Keeps id)) s

    sync_removed-Keeps :
        (payload : InstallationRepositoriesEvent) → Keeps (sync_removed db parse_date payload)
    unfolding sync_removed
    sync_removed-Keeps payload s =
        let repos = or_empty payload.repositories_removed in
        pure-Keeps (remove_each db parse_date repos 0) installation_repositories_removed
          (remove_each-Keeps repos 0) s

    sync_renamed-Keeps : (repo : RepositoryRef) → Keeps (sync_renamed db parse_date repo)
    unfolding sync_renamed
    sync_renamed-Keeps repo s =
        let name : RepositoryName = record {
          owner = repo.owner_login;
          name = repo.name;
          full_name = repo.full_name;
          html_url = repo.html_url;
        } in
        pure-Keeps (rename_by_github_repo_id db repo.id name) repository_renamed
          (rename-Keeps repo.id name) s

    sync_lost-Keeps : (payload : RepositoryEvent) → Keeps (sync_lost db parse_date payload)
    unfolding sync_lost
    sync_lost-Keeps payload s =
        pure-Keeps (mark_access_lost_by_github_repo_id db payload.repository.id)
          (if payload.action == "deleted" then repository_deleted else repository_archived)
          (lost_by_github_repo_id-Keeps payload.repository.id) s

    sync_unarchived-Keeps : (id : ℤ) → Keeps (sync_unarchived db parse_date id)
    unfolding sync_unarchived
    sync_unarchived-Keeps id s =
        pure-Keeps (restore_active_by_github_repo_id db id) repository_unarchived
          (restore_by_github_repo_id-Keeps id) s

    -- No webhook connects or disconnects a repository, adds or removes one, or changes whose it
    -- is, on any action of the three kinds of event.
    pub sync-kept :
        (now : ℕ) (e : InstallationEvent) (r : InstallationRepositoriesEvent) (t : RepositoryEvent)
        (s : Store)
        → (kept_of (sync_installation_event db parse_date now e s).0 ≡ kept_of s)
          × (kept_of (sync_installation_repositories_event db parse_date r s).0 ≡ kept_of s)
          × (kept_of (sync_repository_event db parse_date t s).0 ≡ kept_of s)
    unfolding sync_installation_event sync_installation_repositories_event sync_repository_event
    sync-kept now e r t s = (
      ground (
        arith,
        sync_created-Keeps e s,
        sync_deleted-Keeps e.installation_id s,
        sync_suspend-Keeps now e.installation_id s,
        sync_unsuspend-Keeps e.installation_id s,
      ),
      ground (arith, sync_removed-Keeps r s),
      ground (
        arith,
        sync_renamed-Keeps t.repository s,
        sync_lost-Keeps t s,
        sync_unarchived-Keeps t.repository.id s,
      ),
    )
