-- ===== src/Webhook/Allowlist.antt =====
-- apps/api/src/modules/webhooks/event-allowlist.ts
use ai_powered_github_pr_rev.Prelude.{String, Bool, List, [], ◌∷◌, any}
use ai_powered_github_pr_rev.Prelude.Equality.{◌==◌, text_equality}

abbrev pub review_triggering_actions : List String
review_triggering_actions = "opened" ∷ "reopened" ∷ "synchronize" ∷ "ready_for_review" ∷ []

abbrev pub pull_request_state_sync_actions : List String
pull_request_state_sync_actions = "closed" ∷ "converted_to_draft" ∷ []

abbrev pub pull_request_metadata_only_actions : List String
pull_request_metadata_only_actions = "edited" ∷ []

-- The keys of `WEBHOOK_EVENT_MATRIX`.
abbrev pub allowed_event_types : List String
allowed_event_types =
    "pull_request" ∷ "installation" ∷ "installation_repositories" ∷ "repository" ∷ "push" ∷ "ping"
    ∷ []

-- `Array.prototype.includes` and `Set.prototype.has`.
abbrev pub includes : List String → String → Bool
includes xs x = any (λ y. y == x) xs

unfoldable pub is_allowed_event : String → Bool
is_allowed_event event_type = includes allowed_event_types event_type

unfoldable pub is_review_triggering_action : String → Bool
is_review_triggering_action action = includes review_triggering_actions action
