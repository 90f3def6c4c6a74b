-- ===== src/Tests/Archives.antt =====
-- An archive with a file, a link and a reserved name, and one with a path that leads out.
use Prim.Native.String.{◌++◌}
use ai_powered_github_pr_rev.Prelude.{◌≡◌, refl, String, Option, none, some, List, [], ◌∷◌}
use ai_powered_github_pr_rev.Prelude.Texts.{starts_with, strip_prefix}
use ai_powered_github_pr_rev.Indexing.Archive.{
  NodePath, Header, file, symlink, wrote_file, symlink_skipped, invalid_filename, ExtractionSummary,
  extraction_failed, unsafe_archive, archive_too_large, run_extraction, is_valid_relative_path,
  is_valid_path_segment, resolve_safe_path, strip_top_level_component, extract_entry,
  extract_entries, count_bytes,
}

abbrev below : String → Option String → String
below p none = p
below p (some rest) = rest

-- It leaves the paths as they are.
abbrev plain_path : NodePath
plain_path = record {
  resolve = λ root p. root ++ "/" ++ p;
  relative = λ root p. below p (strip_prefix (root ++ "/") p);
  is_absolute = λ p. starts_with p "/";
}

abbrev headers : List Header
headers =
    record { name = "app-c0ffee/src/a.ts"; type' = file; size = 10 }
    ∷ record { name = "app-c0ffee/link"; type' = symlink; size = 0 }
    ∷ record { name = "app-c0ffee/src/aux.ts"; type' = file; size = 5 }
    ∷ []

abbrev summary : ExtractionSummary
summary = record {
  total_bytes = 15;
  progress = record {
    entry_count = 3;
    files_written = 1;
    directories_written = 0;
    skipped =
        record { raw_path = "app-c0ffee/link"; reason = symlink_skipped }
        ∷ record { raw_path = "app-c0ffee/src/aux.ts"; reason = invalid_filename }
        ∷ [];
    written = wrote_file "/tmp/job/src/a.ts" ∷ [];
  };
}

over_the_count :
    run_extraction plain_path "/tmp/job" 20 2 (10 ∷ 5 ∷ []) headers
    ≡ extraction_failed archive_too_large
unfolding run_extraction extract_entries extract_entry count_bytes strip_top_level_component
    is_valid_relative_path is_valid_path_segment resolve_safe_path
over_the_count = refl

leads_out :
    run_extraction plain_path "/tmp/job" 20 3 []
      (record { name = "app-c0ffee/../x"; type' = file; size = 1 } ∷ [])
    ≡ extraction_failed unsafe_archive
unfolding run_extraction extract_entries extract_entry count_bytes strip_top_level_component
    is_valid_relative_path is_valid_path_segment resolve_safe_path
leads_out = refl
