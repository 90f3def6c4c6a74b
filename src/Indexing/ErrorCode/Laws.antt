-- ===== src/Indexing/ErrorCode/Laws.antt =====
-- `parseCode` after `withCode` (repository-index.ts).
use Prim.Native.Char.{Char, code}
use Prim.Native.String.{[] as empty, ◌∷◌ as push, ◌++◌ as append}
use Prim.Native.String.append.{nil, cons}
use ai_powered_github_pr_rev.Prelude.{
  String, ◌≡◌, refl, Bool, true, not, ◌&&◌, some, nat_beq, arith,
}
use ai_powered_github_pr_rev.Indexing.ErrorCode.{
  IndexErrorCode, repo_not_found, tarball_download_failed, unsafe_archive, repo_too_large,
  access_revoked, code_text, known, with_code, cut_at_separator, starts_with_space, after_first,
  cut_later, parse_cut, parse_candidate, known_code, parse_code,
}

-- No colon in a text.
abbrev plain : String → Bool
plain empty = true
plain (push c s) = not (nat_beq (code c) 58) && plain s

append_nil : (t : String) → append empty t ≡ t
append_nil t = λ i. nil t i

append_cons : (c : Char) (s t : String) → append (push c s) t ≡ push c (append s t)
append_cons c s t = λ i. cons c s t i

separator : (m : String) → append ": " m ≡ push ":" (push " " m)
separator m = rw (append_cons ":" " " m, append_cons " " "" m, append_nil m) refl

cut-append :
    (p m : String)
    → plain p ≡ true
    → cut_at_separator (append p (append ": " m)) ≡ some (record { before = p; after = m })
unfolding cut_at_separator starts_with_space after_first cut_later
cut-append empty m h = rw (append_nil (append ": " m), separator m) refl
cut-append (push c s) m h = rw (append_cons c s (append ": " m)) (ground (arith, cut-append s m))

code_text-plain : (c : IndexErrorCode) → plain (code_text c) ≡ true
code_text-plain repo_not_found = refl
code_text-plain tarball_download_failed = refl
code_text-plain unsafe_archive = refl
code_text-plain repo_too_large = refl
code_text-plain access_revoked = refl

known_code-code_text : (c : IndexErrorCode) → known_code (code_text c) ≡ some c
unfolding known_code
known_code-code_text repo_not_found = refl
known_code-code_text tarball_download_failed = refl
known_code-code_text unsafe_archive = refl
known_code-code_text repo_too_large = refl
known_code-code_text access_revoked = refl

-- Parsing a message that was given a code returns that code and the message, also when the
-- message has the separator in it.
pub parse_code-with_code :
    (c : IndexErrorCode) (message : String)
    → parse_code (with_code c message) ≡ record { code = known c; message = message }
unfolding parse_code with_code parse_cut parse_candidate
parse_code-with_code c message =
    rw (cut-append (code_text c) message (code_text-plain c), known_code-code_text c) refl
