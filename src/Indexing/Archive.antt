-- ===== src/Indexing/Archive.antt =====
-- apps/worker/src/indexing/fetcher/archive-extractor.ts: the names of archive entries, and the loop
-- over the entries. The tar library's entries and the unzipped chunks are arguments.
pub mod Safe
pub mod Limits
use Prim.Native.Char.{code}
use Prim.Native.String.{[] as empty, ◌∷◌ as push}
use ai_powered_github_pr_rev.Prelude.{
  ℕ, zero, suc, ◌+◌, ◌-◌, String, Bool, true, false, not, ◌&&◌, ◌||◌, Option, none, some, List, [],
  ◌∷◌, ◌++◌, if◌then◌else◌, ltb, leb, nat_beq, any, all,
}
use ai_powered_github_pr_rev.Prelude.Equality.{◌==◌, text_equality}
use ai_powered_github_pr_rev.Prelude.Texts.{starts_with, strip_prefix, Halves, cut_at, split_at}

-- Node's `path`.
pub record NodePath : Type 0 where
  pub resolve : String → String → String
  pub relative : String → String → String
  pub is_absolute : String → Bool

-- `CONTROL_CHARS`.
has_control_char : String → Bool
has_control_char empty = false
has_control_char (push c s) = ltb (code c) 32 || nat_beq (code c) 127 || has_control_char s

-- `WINDOWS_RESERVED_NAME`: one of these names in either case, alone or before a dot.
abbrev pub reserved_names : List String
reserved_names =
    "CON" ∷ "PRN" ∷ "AUX" ∷ "NUL" ∷ "COM1" ∷ "COM2" ∷ "COM3" ∷ "COM4" ∷ "COM5" ∷ "COM6" ∷ "COM7"
    ∷ "COM8" ∷ "COM9" ∷ "LPT1" ∷ "LPT2" ∷ "LPT3" ∷ "LPT4" ∷ "LPT5" ∷ "LPT6" ∷ "LPT7" ∷ "LPT8"
    ∷ "LPT9" ∷ []

abbrev pub upper : ℕ → ℕ
upper c = if leb 97 c && leb c 122 then c - 32 else c

same_letters : String → String → Bool
same_letters empty empty = true
same_letters empty (push d t) = false
same_letters (push c s) empty = false
same_letters (push c s) (push d t) = nat_beq (upper (code c)) (code d) && same_letters s t

abbrev pub before_dot : String → Option Halves → String
before_dot segment none = segment
before_dot segment (some h) = h.before

is_reserved : String → Bool
unfolding same_letters
is_reserved segment = any (same_letters (before_dot segment (cut_at 46 segment))) reserved_names

unfoldable pub is_valid_path_segment : String → Bool
unfolding has_control_char is_reserved
is_valid_path_segment segment =
    not (segment == "") && not (has_control_char segment) && not (is_reserved segment)

unfoldable pub is_valid_relative_path : String → Bool
unfolding is_valid_path_segment
is_valid_relative_path relative_path = all is_valid_path_segment (split_at 47 relative_path)

abbrev pub is_outside : NodePath → String → Bool
is_outside node relative_to_root =
    relative_to_root == "" || starts_with relative_to_root ".." || node.is_absolute relative_to_root

unfoldable pub resolve_safe_path : NodePath → String → String → Option String
resolve_safe_path node root relative_path =
    let resolved = node.resolve root relative_path in
    if is_outside node (node.relative root resolved) then none else some resolved

normalized : String → Option String → String
normalized entry_name none = entry_name
normalized entry_name (some rest) = rest

after_slash : Option Halves → Option String
after_slash none = none
after_slash (some h) = some h.after

unfoldable pub strip_top_level_component : String → Option String
unfolding normalized after_slash
strip_top_level_component entry_name =
    after_slash (cut_at 47 (normalized entry_name (strip_prefix "./" entry_name)))

-- The regular expression `^[a-zA-Z]:`.
has_drive_letter : String → Bool
has_drive_letter (push c (push colon s)) =
    ((leb 65 (code c) && leb (code c) 90) || (leb 97 (code c) && leb (code c) 122))
    && nat_beq (code colon) 58
has_drive_letter (push c empty) = false
has_drive_letter empty = false

pub data EntryType : Type 0 where
  file directory symlink link other : EntryType

pub record Header : Type 0 where
  pub name : String
  pub type' : EntryType
  pub size : ℕ

pub data ExtractionSkipReason : Type 0 where
  symlink_skipped hardlink_skipped unsupported_entry_type invalid_filename no_top_level_prefix :
      ExtractionSkipReason

pub record ExtractionSkip : Type 0 where
  pub raw_path : String
  pub reason : ExtractionSkipReason

-- `ArchiveTooLargeError` and `UnsafeArchiveError`.
pub data ExtractorError : Type 0 where
  archive_too_large unsafe_archive : ExtractorError

pub data Written : Type 0 where
  wrote_file made_directory : String → Written

-- The counters of the loop, and what it has written.
pub record Progress : Type 0 where
  pub entry_count : ℕ
  pub files_written : ℕ
  pub directories_written : ℕ
  pub skipped : List ExtractionSkip
  pub written : List Written

pub data Extracted : Type 0 where
  going : Progress → Extracted
  failed : ExtractorError → Extracted

abbrev pub skip : Header → ExtractionSkipReason → Progress → Extracted
skip header reason p =
    going
      (record p { skipped = p.skipped ++ record { raw_path = header.name; reason = reason } ∷ [] })

pub record ExtractionSummary : Type 0 where
  pub total_bytes : ℕ
  pub progress : Progress

pub data Extraction : Type 0 where
  extracted : ExtractionSummary → Extraction
  extraction_failed : ExtractorError → Extraction

-- `createByteCounter`: the bytes let through, or none when the limit was passed.
unfoldable pub count_bytes : ℕ → List ℕ → ℕ → Option ℕ
count_bytes max_total_bytes [] total = some total
count_bytes max_total_bytes (chunk ∷ chunks) total =
    let rest = count_bytes max_total_bytes chunks (total + chunk) in
    if ltb max_total_bytes (total + chunk) then none else rest

-- An error of the pipeline is thrown when the loop has ended.
finish : Option ℕ → Extracted → Extraction
finish bytes (failed e) = extraction_failed e
finish none (going p) = extraction_failed archive_too_large
finish (some total) (going p) = extracted (record { total_bytes = total; progress = p })

abbrev pub no_progress : Progress
no_progress = record {
  entry_count = 0;
  files_written = 0;
  directories_written = 0;
  skipped = [];
  written = [];
}

module _ (node : NodePath) (root : String) (max_total_bytes max_file_count : ℕ) where
  write_to : EntryType → String → Progress → Extracted
  write_to directory destination p = going (record p {
    directories_written = p.directories_written + 1;
    written = p.written ++ made_directory destination ∷ [];
  })
  write_to file destination p = going (record p {
    files_written = p.files_written + 1;
    written = p.written ++ wrote_file destination ∷ [];
  })
  write_to symlink destination p = going p
  write_to link destination p = going p
  write_to other destination p = going p

  at_destination : EntryType → Option String → Progress → Extracted
  unfolding write_to
  at_destination kind none p = failed unsafe_archive
  at_destination kind (some destination) p = write_to kind destination p

  writable : Header → String → Progress → Extracted
  unfolding at_destination
  writable header relative_path p =
      if is_valid_relative_path relative_path
      then at_destination header.type' (resolve_safe_path node root relative_path) p
      else skip header invalid_filename p

  by_type : Header → EntryType → String → Progress → Extracted
  unfolding writable
  by_type header symlink relative_path p = skip header symlink_skipped p
  by_type header link relative_path p = skip header hardlink_skipped p
  by_type header other relative_path p = skip header unsupported_entry_type p
  by_type header file relative_path p = writable header relative_path p
  by_type header directory relative_path p = writable header relative_path p

  at_relative : Header → Option String → Progress → Extracted
  unfolding by_type
  at_relative header none p = skip header no_top_level_prefix p
  at_relative header (some relative_path) p =
      if relative_path == "" then going p else by_type header header.type' relative_path p

  -- One round of the loop.
  unfoldable pub extract_entry : Header → Progress → Extracted
  unfolding at_relative has_drive_letter strip_top_level_component
  extract_entry header before =
      let p = record before { entry_count = before.entry_count + 1 } in
      if ltb max_file_count p.entry_count
      then failed archive_too_large
      else if ltb max_total_bytes header.size
      then failed archive_too_large
      else if node.is_absolute header.name || has_drive_letter header.name
      then failed unsafe_archive
      else at_relative header (strip_top_level_component header.name) p

  unfoldable pub extract_entries : List Header → Extracted → Extracted
  unfolding extract_entry
  extract_entries [] x = x
  extract_entries (header ∷ headers) (failed e) = failed e
  extract_entries (header ∷ headers) (going p) = extract_entries headers (extract_entry header p)

  unfoldable pub run_extraction : List ℕ → List Header → Extraction
  unfolding finish extract_entries count_bytes
  run_extraction chunks headers =
      finish (count_bytes max_total_bytes chunks 0) (extract_entries headers (going no_progress))
