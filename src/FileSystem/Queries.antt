-- ===== src/FileSystem/Queries.antt =====
-- server/typescript/infrastructure/node-file-system.ts: searching for files by name, and for text in files. The comparison
-- by localeCompare and the content of files are parameters; texts are of the basic plane.
use vivi.Base.{
  ℕ, zero, suc, ◌+◌, Bool, true, false, not, ◌&&◌, ◌||◌, Option, none, some, List, [], ◌∷◌, ◌++◌,
  codes, trim, is_space, is_empty, filter, length, leb, ltb, eqb, take, if◌then◌else◌,
}
use vivi.Base.Strings.{Text}
use vivi.Base.Lines.{push}
use vivi.Base.Integers.{ℤ, pos, negsuc, sub_ℕ}
use vivi.Base.Sorting.{sort_by}
use vivi.FsNode.{FilePayload}
use vivi.Search.{TextSearchResult, is_text_searchable_viewer_kind, search_file_payload, index_of}
use vivi.FileSystem.{NodeFileSystem, Disk, FileSearchResult, walk_files}

-- `.split(/\s+/)`, where a run of spaces leaves empty parts, which `.filter(Boolean)` drops.
abbrev pub split_spaces : Text → List Text
split_spaces [] = [] ∷ []
split_spaces (c ∷ s) = let rest = split_spaces s in if is_space c then [] ∷ rest else push c rest

unfoldable pub terms_of : NodeFileSystem → Text → List Text
unfolding trim is_space
terms_of o query = filter (λ t. not (is_empty t)) (split_spaces (o.to_lower_case (trim query)))

abbrev pub after_unit : ℕ → Text → Text
after_unit c [] = []
after_unit c (d ∷ needle) = if eqb c d then needle else d ∷ needle

unfoldable pub is_subsequence : Text → Text → Bool
is_subsequence needle [] = false
is_subsequence needle (c ∷ haystack) =
    let rest = is_subsequence (after_unit c needle) haystack in
    if is_empty (after_unit c needle) then true else rest

-- The loop over the terms: the score so far is `gain` less `loss`.
unfoldable pub score_terms : Text → ℕ → ℕ → List Text → ℤ
unfolding index_of is_subsequence
score_terms pathname gain loss [] = sub_ℕ gain loss
score_terms pathname gain loss (term ∷ terms) = elim (index_of term pathname) [
  | some contiguous ↦ score_terms pathname (gain + 100) (loss + contiguous) terms
  | none ↦ elim (is_subsequence term pathname) [
    | true ↦ score_terms pathname (gain + 10) loss terms
    | false ↦ pos 0
  ]
]

unfoldable pub file_search_score : Text → List Text → ℤ
unfolding score_terms
file_search_score pathname [] = pos 1
file_search_score pathname (term ∷ terms) = score_terms pathname 0 0 (term ∷ terms)

-- `items.push(item); items.sort(compare); if (items.length > limit) items.length = limit`
unfoldable pub insert_ranked {ℓ} : {A : Type ℓ} → (A → A → Bool) → List A → A → ℕ → List A
unfolding sort_by
insert_ranked before items item limit = take limit (sort_by before (items ++ item ∷ []))

abbrev pub with_score : FileSearchResult → ℕ → FileSearchResult
with_score file n = record file { score = n }

-- The file with its score, if that is positive.
unfoldable pub scored : NodeFileSystem → List Text → FileSearchResult → Option FileSearchResult
unfolding file_search_score
scored o terms file = elim (file_search_score (o.to_lower_case file.path) terms) [
  | pos zero ↦ none
  | pos (suc n) ↦ some (with_score file (suc n))
  | negsuc n ↦ none
]

module _ (locale_before : Text → Text → Bool) where
  -- `b.score - a.score || a.path.localeCompare(b.path)` is negative.
  abbrev pub ranks_before : FileSearchResult → FileSearchResult → Bool
  ranks_before a b = ltb b.score a.score || (eqb a.score b.score && locale_before a.path b.path)

  abbrev pub path_before : FileSearchResult → FileSearchResult → Bool
  path_before a b = locale_before a.path b.path

  unfoldable pub ranked :
      ℕ → List FileSearchResult → Option FileSearchResult → List FileSearchResult
  unfolding insert_ranked
  ranked limit results none = results
  ranked limit results (some file) = insert_ranked ranks_before results file limit

  -- The loop over the files of the index.
  unfoldable pub rank_files :
      NodeFileSystem
      → List Text
      → ℕ
      → List FileSearchResult
      → List FileSearchResult
      → List FileSearchResult
  unfolding ranked scored
  rank_files o terms limit results [] = results
  rank_files o terms limit results (file ∷ files) =
      rank_files o terms limit (ranked limit results (scored o terms file)) files

  -- The callback without terms: the first files, by path.
  abbrev pub on_any_file :
      ℕ → List FileSearchResult → FileSearchResult → List FileSearchResult × Bool
  unfolding insert_ranked
  on_any_file limit results file =
      if leb limit (length results)
      then (results, false)
      else (insert_ranked path_before results (with_score file 1) limit, true)

abbrev pub on_index_file : List FileSearchResult → FileSearchResult → List FileSearchResult × Bool
on_index_file files file = (files ++ file ∷ [], true)

unfoldable pub read_file_index : NodeFileSystem → Disk → List FileSearchResult
unfolding walk_files
read_file_index o disk = (walk_files o on_index_file [] disk []).0

unfoldable pub search_files :
    (Text → Text → Bool) → NodeFileSystem → Text → ℕ → Disk → List FileSearchResult
unfolding terms_of rank_files read_file_index on_any_file
search_files locale_before o query limit disk = elim (terms_of o query) [
  | [] ↦ (walk_files o (on_any_file locale_before limit) [] disk []).0
  | term ∷ terms ↦ rank_files locale_before o (term ∷ terms) limit [] (read_file_index o disk)
]

-- The bytes of a file: whether one is 0, and what they are as a text.
pub record Bytes : Type 0 where
  pub has_nul : Bool
  pub text : Text

-- The etag, which the search does not read, is left empty.
abbrev pub payload_of : FileSearchResult → Bytes → FilePayload
payload_of file bytes = record {
  path = file.path;
  viewer_kind = file.viewer_kind;
  encoding = codes "utf8";
  content = bytes.text;
  etag = [];
  truncated = none;
}

module _ (o : NodeFileSystem) (read : Text → Option Bytes) where
  -- The matches in a file that has been read; a binary file has none.
  unfoldable pub matches_in : Text → ℕ → FileSearchResult → Option Bytes → List TextSearchResult
  unfolding search_file_payload
  matches_in query matches_per_file file none = []
  matches_in query matches_per_file file (some bytes) =
      if bytes.has_nul
      then []
      else search_file_payload o.to_lower_case (payload_of file bytes) query matches_per_file

  -- What the callback does with what it has read.
  abbrev pub add_matches :
      Text
      → ℕ
      → ℕ
      → List TextSearchResult
      → FileSearchResult
      → Option Bytes
      → List TextSearchResult × Bool
  unfolding search_file_payload
  add_matches query limit matches_per_file results file none = (results, ltb (length results) limit)
  add_matches query limit matches_per_file results file (some bytes) =
      if bytes.has_nul
      then (results, true)
      else (let more =
            results
            ++ search_file_payload o.to_lower_case (payload_of file bytes) query matches_per_file in
          (more, ltb (length more) limit))

  unfoldable pub is_searched : FileSearchResult → Bool
  unfolding is_text_searchable_viewer_kind
  is_searched file =
      is_text_searchable_viewer_kind file.viewer_kind && not (ltb o.max_file_size_bytes file.size)

  unfoldable pub on_text_file :
      Text → ℕ → ℕ → List TextSearchResult → FileSearchResult → List TextSearchResult × Bool
  unfolding add_matches is_searched
  on_text_file query limit matches_per_file results file =
      if leb limit (length results)
      then (results, false)
      else if not (is_searched file)
      then (results, true)
      else add_matches query limit matches_per_file results file (read file.path)

  unfoldable pub search_text : Text → ℕ → ℕ → Disk → List TextSearchResult
  unfolding walk_files on_text_file trim
  search_text query limit matches_per_file disk =
      if is_empty (trim query)
      then []
      else take limit (walk_files o (on_text_file (trim query) limit matches_per_file) [] disk []).0
