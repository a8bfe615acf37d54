-- ===== src/FileSystem/Matches.antt =====
-- server/typescript/infrastructure/node-file-system.ts and server/typescript/domain/search.ts: a search for a text, against
-- the matching lines of all files.
use vivi.Base.{
  ℕ, ◌+◌, max, ◌&&◌, ◌||◌, Option, none, some, List, [], ◌∷◌, ◌++◌, trim, is_empty, length, leb,
  take, if◌then◌else◌,
}
use vivi.Base.Strings.{Text}
use vivi.Base.Lines.{split_lines}
use vivi.FsNode.{FilePayload}
use vivi.Search.{
  TextSearchResult, is_text_searchable_viewer_kind, index_of, excerpt_line, result_at,
}
use vivi.FileSystem.{NodeFileSystem, FileSearchResult}
use vivi.FileSystem.Queries.{Bytes, payload_of}

module _ (to_lower_case : Text → Text) (file : FilePayload) (needle : Text) where
  -- Every line that has the text in it, with its number and its excerpt.
  abbrev pub matching_lines : ℕ → List Text → List TextSearchResult
  matching_lines number [] = []
  matching_lines number (line ∷ lines) =
      let rest = matching_lines (number + 1) lines in
      elim (index_of needle (to_lower_case line)) [
        | none ↦ rest
        | some at ↦
            result_at file number (length needle) (excerpt_line line at (length needle)) ∷ rest
      ]

module _ (o : NodeFileSystem) (read : Text → Option Bytes) (query : Text) (most : ℕ) where
  -- The matches in what has been read of a file.
  abbrev pub matches_in_bytes : FileSearchResult → Option Bytes → List TextSearchResult
  matches_in_bytes file none = []
  matches_in_bytes file (some bytes) =
      if bytes.has_nul || is_empty (o.to_lower_case (trim query))
      then []
      else take (max 1 most) (
          matching_lines o.to_lower_case (payload_of file bytes) (o.to_lower_case (trim query)) 1
            (split_lines bytes.text))

  -- The matches in one file: none in one whose kind has no text, or that is too large, has a NUL or cannot be read, and else
  -- the first of its matching lines.
  abbrev pub file_matches : FileSearchResult → List TextSearchResult
  file_matches file =
      if is_text_searchable_viewer_kind file.viewer_kind && leb file.size o.max_file_size_bytes
      then matches_in_bytes file (read file.path)
      else []

  abbrev pub files_matches : List FileSearchResult → List TextSearchResult
  files_matches [] = []
  files_matches (file ∷ files) = file_matches file ++ files_matches files
