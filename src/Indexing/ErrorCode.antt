-- ===== src/Indexing/ErrorCode.antt =====
-- `withCode` and `parseCode` of apps/worker/src/inngest/functions/repository-index.ts, with
-- `INDEX_ERROR_CODES` of packages/shared/src/indexing.ts.
pub mod Laws
use Prim.Native.Char.{Char, code}
use Prim.Native.String.{[] as empty, ◌∷◌ as push, ◌++◌ as append}
use ai_powered_github_pr_rev.Prelude.{
  String, Bool, true, false, ◌&&◌, Option, none, some, nat_beq, if◌then◌else◌,
}
use ai_powered_github_pr_rev.Prelude.Equality.{◌==◌, text_equality}

pub data IndexErrorCode : Type 0 where
  repo_not_found tarball_download_failed unsafe_archive repo_too_large access_revoked :
      IndexErrorCode

abbrev pub code_text : IndexErrorCode → String
code_text repo_not_found = "REPO_NOT_FOUND"
code_text tarball_download_failed = "TARBALL_DOWNLOAD_FAILED"
code_text unsafe_archive = "UNSAFE_ARCHIVE"
code_text repo_too_large = "REPO_TOO_LARGE"
code_text access_revoked = "ACCESS_REVOKED"

-- `IndexErrorCode | "UNKNOWN"`, and the text that it is stored as.
pub data ParsedCode : Type 0 where
  known : IndexErrorCode → ParsedCode
  unknown : ParsedCode

abbrev pub parsed_code_text : ParsedCode → String
parsed_code_text (known c) = code_text c
parsed_code_text unknown = "UNKNOWN"

pub record CodedMessage : Type 0 where
  pub code : ParsedCode
  pub message : String

unfoldable pub with_code : IndexErrorCode → String → String
with_code c message = append (code_text c) (append ": " message)

-- A text cut at the first ": " in it: `indexOf` and the two calls of `slice`.
pub record Cut : Type 0 where
  pub before : String
  pub after : String

unfoldable pub starts_with_space : String → Bool
starts_with_space empty = false
starts_with_space (push c s) = nat_beq (code c) 32

unfoldable pub after_first : String → String
after_first empty = empty
after_first (push c s) = s

unfoldable pub cut_later : Char → Option Cut → Option Cut
cut_later c none = none
cut_later c (some cut) = some (record cut { before = push c cut.before })

unfoldable pub cut_at_separator : String → Option Cut
unfolding starts_with_space after_first cut_later
cut_at_separator empty = none
cut_at_separator (push c s) =
    let rest = cut_later c (cut_at_separator s) in
    if nat_beq (code c) 58 && starts_with_space s
    then some (record { before = empty; after = after_first s })
    else rest

-- The member of `INDEX_ERROR_CODES` that a text is.
unfoldable pub known_code : String → Option IndexErrorCode
known_code text =
    if text == "REPO_NOT_FOUND"
    then some repo_not_found
    else if text == "TARBALL_DOWNLOAD_FAILED"
    then some tarball_download_failed
    else if text == "UNSAFE_ARCHIVE"
    then some unsafe_archive
    else if text == "REPO_TOO_LARGE"
    then some repo_too_large
    else if text == "ACCESS_REVOKED"
    then some access_revoked
    else none

parse_candidate : String → String → Option IndexErrorCode → CodedMessage
parse_candidate message rest none = record { code = unknown; message = message }
parse_candidate message rest (some c) = record { code = known c; message = rest }

parse_cut : String → Option Cut → CodedMessage
unfolding parse_candidate known_code
parse_cut message none = record { code = unknown; message = message }
parse_cut message (some cut) = parse_candidate message cut.after (known_code cut.before)

unfoldable pub parse_code : String → CodedMessage
unfolding parse_cut cut_at_separator
parse_code message = parse_cut message (cut_at_separator message)
