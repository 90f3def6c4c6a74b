-- ===== src/Indexing/Archive/Safe.antt =====
-- What an extraction may write (archive-extractor.ts).
use ai_powered_github_pr_rev.Prelude.{
  ℕ, suc, ◌+◌, ◌≡◌, ◌≤◌, refl, sym, String, true, false, ◌||◌, Option, none, some, List, [], ◌∷◌,
  ◌++◌, ltb, arith, length, All, Bool-cases, inl, inr,
}
use ai_powered_github_pr_rev.Prelude.Equality.{◌==◌, text_equality}
use ai_powered_github_pr_rev.Prelude.ListLaws.{All-append}
use ai_powered_github_pr_rev.Indexing.Archive.{
  NodePath, is_valid_relative_path, is_outside, resolve_safe_path, strip_top_level_component,
  EntryType, file, directory, symlink, link, other, Header, Written, wrote_file, made_directory,
  Progress, Extracted, going, failed, skip, write_to, at_destination, writable, by_type,
  at_relative, extract_entry, has_drive_letter, ExtractionSkipReason, symlink_skipped,
  hardlink_skipped, unsupported_entry_type, invalid_filename, no_top_level_prefix,
}

abbrev pub destination_of : Written → String
destination_of (wrote_file d) = d
destination_of (made_directory d) = d

-- A place below the root that a valid relative path leads to.
pub record IsBelow (node : NodePath) (root destination : String) : Type 0 where
  pub relative_path : String
  pub valid : is_valid_relative_path relative_path ≡ true
  pub leads : destination ≡ node.resolve root relative_path
  pub inside : is_outside node (node.relative root destination) ≡ false

-- The state of the loop after some entries.
pub record IsSafe (node : NodePath) (root : String) (max_file_count entries : ℕ) (p : Progress)
    : Type 0 where
  pub below : All (λ w. IsBelow node root (destination_of w)) p.written
  pub all_counted : p.files_written + p.directories_written ≡ length p.written
  pub in_limit : p.entry_count ≤ max_file_count
  pub entries_counted : p.entry_count ≡ entries
  pub few : length p.written + length p.skipped ≤ p.entry_count

module _ (node : NodePath) (root : String) (max_total_bytes max_file_count n : ℕ) where
  -- The state when an entry has been counted, and may be written or skipped.
  record IsReady (p : Progress) : Type 0 where
    below : All (λ w. IsBelow node root (destination_of w)) p.written
    all_counted : p.files_written + p.directories_written ≡ length p.written
    in_limit : p.entry_count ≤ max_file_count
    entries_counted : p.entry_count ≡ suc n
    room : length p.written + length p.skipped + 1 ≤ p.entry_count

  unfoldable pub SafeOr : Extracted → Type 0
  SafeOr (failed e) = Unit
  SafeOr (going p) = IsSafe node root max_file_count (suc n) p

  length-snoc : {A : Type 0} (xs : List A) (x : A) → length (xs ++ x ∷ []) ≡ length xs + 1
  length-snoc [] x = omega arith
  length-snoc (y ∷ xs) x = omega (arith, length-snoc xs x)

  pass : (p : Progress) → IsReady p → SafeOr (going p)
  unfolding SafeOr
  pass p r = record {
    below = r.below;
    all_counted = r.all_counted;
    in_limit = r.in_limit;
    entries_counted = r.entries_counted;
    few = omega (arith, r.room);
  }

  skip-SafeOr :
      (header : Header) (reason : ExtractionSkipReason) (p : Progress)
      → IsReady p
      → SafeOr (skip header reason p)
  unfolding SafeOr
  skip-SafeOr header reason p r = record {
    below = r.below;
    all_counted = r.all_counted;
    in_limit = r.in_limit;
    entries_counted = r.entries_counted;
    few =
        omega (
          arith,
          r.room,
          length-snoc p.skipped (record { raw_path = header.name; reason = reason }),
        );
  }

  write_to-SafeOr :
      (kind : EntryType) (destination : String) (p : Progress)
      → IsReady p
      → IsBelow node root destination
      → SafeOr (write_to node root max_total_bytes max_file_count kind destination p)
  unfolding write_to SafeOr
  write_to-SafeOr file d p r b = record {
    below =
        All-append (λ w. IsBelow node root (destination_of w)) p.written (wrote_file d ∷ []) r.below
          (b, tt);
    all_counted = omega (arith, r.all_counted, length-snoc p.written (wrote_file d));
    in_limit = r.in_limit;
    entries_counted = r.entries_counted;
    few = omega (arith, r.room, length-snoc p.written (wrote_file d));
  }
  write_to-SafeOr directory d p r b = record {
    below =
        All-append (λ w. IsBelow node root (destination_of w)) p.written (made_directory d ∷ [])
          r.below (b, tt);
    all_counted = omega (arith, r.all_counted, length-snoc p.written (made_directory d));
    in_limit = r.in_limit;
    entries_counted = r.entries_counted;
    few = omega (arith, r.room, length-snoc p.written (made_directory d));
  }
  write_to-SafeOr symlink d p r b = pass p r
  write_to-SafeOr link d p r b = pass p r
  write_to-SafeOr other d p r b = pass p r

  at_destination-SafeOr :
      (kind : EntryType) (o : Option String) (p : Progress)
      → IsReady p
      → ((d : String) → o ≡ some d → IsBelow node root d)
      → SafeOr (at_destination node root max_total_bytes max_file_count kind o p)
  unfolding at_destination SafeOr
  at_destination-SafeOr kind none p r b = tt
  at_destination-SafeOr kind (some d) p r b = write_to-SafeOr kind d p r (b d refl)

  safe_path-IsBelow :
      (relative_path d : String)
      → is_valid_relative_path relative_path ≡ true
      → resolve_safe_path node root relative_path ≡ some d
      → IsBelow node root d
  unfolding resolve_safe_path
  safe_path-IsBelow relative_path d valid h =
      let facts : (node.resolve root relative_path ≡ d)
          × (is_outside node (node.relative root (node.resolve root relative_path)) ≡ false) =
        ground (arith, h) in
      record {
        relative_path = relative_path;
        valid = valid;
        leads = sym (facts.0);
        inside = rw (← facts.0) (facts.1);
      }

  writable-SafeOr :
      (header : Header) (relative_path : String) (p : Progress)
      → IsReady p
      → SafeOr (writable node root max_total_bytes max_file_count header relative_path p)
  unfolding writable
  writable-SafeOr header relative_path p r =
      elim (Bool-cases (is_valid_relative_path relative_path)) [
        | inl e ↦
            rw e
              (at_destination-SafeOr header.type' _ p r (λ d. safe_path-IsBelow relative_path d e))
        | inr e ↦ rw e (skip-SafeOr header invalid_filename p r)
      ]

  by_type-SafeOr :
      (header : Header) (kind : EntryType) (relative_path : String) (p : Progress)
      → IsReady p
      → SafeOr (by_type node root max_total_bytes max_file_count header kind relative_path p)
  unfolding by_type
  by_type-SafeOr header symlink q p r = skip-SafeOr header symlink_skipped p r
  by_type-SafeOr header link q p r = skip-SafeOr header hardlink_skipped p r
  by_type-SafeOr header other q p r = skip-SafeOr header unsupported_entry_type p r
  by_type-SafeOr header file q p r = writable-SafeOr header q p r
  by_type-SafeOr header directory q p r = writable-SafeOr header q p r

  at_relative-SafeOr :
      (header : Header) (o : Option String) (p : Progress)
      → IsReady p
      → SafeOr (at_relative node root max_total_bytes max_file_count header o p)
  unfolding at_relative
  at_relative-SafeOr header none p r = skip-SafeOr header no_top_level_prefix p r
  at_relative-SafeOr header (some q) p r = elim (Bool-cases (q == "")) [
    | inl e ↦ rw e (pass p r)
    | inr e ↦ rw e (by_type-SafeOr header header.type' q p r)
  ]

  pub extract_entry-SafeOr :
      (header : Header) (before : Progress)
      → IsSafe node root max_file_count n before
      → SafeOr (extract_entry node root max_total_bytes max_file_count header before)
  unfolding extract_entry SafeOr
  extract_entry-SafeOr header before safe =
      elim (Bool-cases (ltb max_file_count (before.entry_count + 1))) [
        | inl e ↦ rw e tt
        | inr e ↦ elim (Bool-cases (ltb max_total_bytes header.size)) [
          | inl f ↦ rw (e, f) tt
          | inr f ↦
              elim (Bool-cases (node.is_absolute header.name || has_drive_letter header.name)) [
                | inl g ↦ rw (e, f, g) tt
                | inr g ↦
                    rw (e, f, g)
                      (at_relative-SafeOr header (strip_top_level_component header.name)
                        (record before { entry_count = before.entry_count + 1 })
                        (record {
                          below = safe.below;
                          all_counted = safe.all_counted;
                          in_limit = ground (arith, e);
                          entries_counted = omega (arith, safe.entries_counted);
                          room = omega (arith, safe.few);
                        }))
              ]
        ]
      ]
