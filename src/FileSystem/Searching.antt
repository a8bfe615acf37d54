-- ===== src/FileSystem/Searching.antt =====
-- server/typescript/infrastructure/node-file-system.ts: what the searches find, whatever they skip and where they stop.
use vivi.Base.{
  ℕ, zero, suc, ◌≤◌, ◌≡◌, refl, sym, ap, ◌∙◌, Bool, true, false, not, Option, none, some, List, [],
  ◌∷◌, ◌++◌, arith, trim, is_empty, length, leb, ltb, take, Bool-cases, inl, inr, if◌then◌else◌,
}
use mathlib.Core.List.{append-nil, append_assoc}
use vivi.Base.Strings.{Text}
use vivi.Search.{TextSearchResult, search_file_payload}
use vivi.FileSystem.{NodeFileSystem, Disk, FileSearchResult, scan_directory, tree_files}
use vivi.FileSystem.Queries.{Bytes, payload_of, matches_in, is_searched, on_text_file, search_text}
use vivi.FileSystem.Walking.{run_until, walk_files-run_until}

take_full {ℓ} :
    {A : Type ℓ} (n : ℕ) (xs ys : List A) → n ≤ length xs → take n (xs ++ ys) ≡ take n xs
take_full zero xs ys h = refl
take_full (suc n) [] ys h = absurd (omega (arith, h))
take_full (suc n) (x ∷ xs) ys h = ap (x ∷◌) (take_full n xs ys (omega arith))

-- The files of the tree of the whole workspace, in order.
abbrev pub all_files : NodeFileSystem → Disk → List FileSearchResult
all_files o disk = tree_files (scan_directory o [] none none disk)

module _ (o : NodeFileSystem) (read : Text → Option Bytes) where
  -- What the callback adds for one file.
  abbrev pub matches_of : Text → ℕ → FileSearchResult → List TextSearchResult
  matches_of query matches_per_file file =
      if not (is_searched o read file)
      then []
      else matches_in o read query matches_per_file file (read file.path)

  abbrev pub all_matches : Text → ℕ → List FileSearchResult → List TextSearchResult
  all_matches query matches_per_file [] = []
  all_matches query matches_per_file (file ∷ files) =
      matches_of query matches_per_file file ++ all_matches query matches_per_file files

  module _ (query : Text) (limit matches_per_file : ℕ) where
    -- What one call of the callback does: it adds the matches and goes on, or it stops with enough of them.
    abbrev Outcome :
        List TextSearchResult → FileSearchResult → List TextSearchResult × Bool → Type 0
    Outcome results file (more, true) = more ≡ results ++ matches_of query matches_per_file file
    Outcome results file (more, false) =
        (limit ≤ length more)
        × ((rest : List TextSearchResult) × (results ++ matches_of query matches_per_file file
              ≡ more ++ rest))

    on_text_file-Outcome :
        (results : List TextSearchResult) (file : FileSearchResult)
        → Outcome results file (on_text_file o read query limit matches_per_file results file)
    unfolding on_text_file matches_in
    on_text_file-Outcome results file = elim (Bool-cases (leb limit (length results))) [
      | inl e ↦
          rw (on_text_file, e) (ground (arith, e), (matches_of query matches_per_file file, refl))
      | inr e ↦ by_kind e (not (is_searched o read file)) refl
    ]
      where
        kept :
            results ++ matches_of query matches_per_file file ≡ results
            → Outcome results file (results, true)
        kept e = sym e

        by_found :
            (more : List TextSearchResult)
            → results ++ matches_of query matches_per_file file ≡ more
            → (b : Bool) → ltb (length more) limit ≡ b
            → Outcome results file (more, b)
        by_found more e true k = sym e
        by_found more e false k = (ground (arith, k), ([], e ∙ sym (append-nil more)))

        by_bytes :
            leb limit (length results) ≡ false
            → not (is_searched o read file) ≡ false
            → (bytes : Option Bytes) → read file.path ≡ bytes
            → Outcome results file (on_text_file o read query limit matches_per_file results file)
        by_bytes e k none r =
            rw (on_text_file, e, k, r)
              (by_found results (rw (k, r) (append-nil results)) (ltb (length results) limit) refl)
        by_bytes e k (some bytes) r = elim (Bool-cases bytes.has_nul) [
          | inl n ↦ rw (on_text_file, e, k, r, n) (kept (rw (k, r, n) (append-nil results)))
          | inr n ↦
              rw (on_text_file, e, k, r, n)
                (by_found
                  (results
                    ++ search_file_payload o.to_lower_case (payload_of file bytes) query
                        matches_per_file)
                  (rw (k, r, n) refl)
                  (ltb
                    (length (
                      results
                      ++ search_file_payload o.to_lower_case (payload_of file bytes) query
                          matches_per_file))
                    limit)
                  refl)
        ]

        by_kind :
            leb limit (length results) ≡ false
            → (b : Bool) → not (is_searched o read file) ≡ b
            → Outcome results file (on_text_file o read query limit matches_per_file results file)
        by_kind e true k = rw (on_text_file, e, k) (kept (rw k (append-nil results)))
        by_kind e false k = by_bytes e k (read file.path) refl

    found-all_matches :
        (results : List TextSearchResult) (files : List FileSearchResult)
        → take limit (run_until (on_text_file o read query limit matches_per_file) results files).0
          ≡ take limit (results ++ all_matches query matches_per_file files)
    found-all_matches results [] = ap (take limit) (sym (append-nil results))
    found-all_matches results (file ∷ files) =
        after (on_text_file o read query limit matches_per_file results file)
          (on_text_file-Outcome results file) (λ more. found-all_matches more files)
      where
        after :
            (seen : List TextSearchResult × Bool)
            → Outcome results file seen
            → ((more : List TextSearchResult)
                → take limit
                    (run_until (on_text_file o read query limit matches_per_file) more files).0
                  ≡ take limit (more ++ all_matches query matches_per_file files))
            → take limit
                (let later =
                    run_until (on_text_file o read query limit matches_per_file) seen.0 files in
                  if seen.1 then later else (seen.0, false)).0
              ≡ take limit (
                  results
                  ++ (matches_of query matches_per_file file
                      ++ all_matches query matches_per_file files))
        after (more, true) e ih =
            ih more
            ∙ ap (take limit) (
                ap (◌++ all_matches query matches_per_file files) e
                ∙ append_assoc results (matches_of query matches_per_file file)
                    (all_matches query matches_per_file files))
        after (more, false) e ih = sym (
            ap (take limit) (
              sym (
                append_assoc results (matches_of query matches_per_file file)
                  (all_matches query matches_per_file files))
              ∙ ap (◌++ all_matches query matches_per_file files) e.1.1
              ∙ append_assoc more e.1.0 (all_matches query matches_per_file files))
            ∙ take_full limit more (e.1.0 ++ all_matches query matches_per_file files) e.0)

  -- The walk with its early end, as one list.
  pub search_text-run :
      (query : Text) (limit matches_per_file : ℕ) (disk : Disk)
      → search_text o read query limit matches_per_file disk ≡ (
          if is_empty (trim query)
          then []
          else take limit (all_matches (trim query) matches_per_file (all_files o disk)))
  unfolding search_text
  search_text-run query limit matches_per_file disk = elim (Bool-cases (is_empty (trim query))) [
    | inl e ↦ rw e refl
    | inr e ↦ rw e (
        ap (λ r. take limit r.0)
          (walk_files-run_until o (on_text_file o read (trim query) limit matches_per_file) [] none
            disk [])
        ∙ found-all_matches (trim query) limit matches_per_file [] (all_files o disk))
  ]
