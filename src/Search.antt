-- ===== src/Search.antt =====
-- server/typescript/domain/search.ts: the matches of a query in the lines of a file. `toLowerCase` is a parameter.
pub mod Excerpts
mod Tests
use vivi.Base.{
  ℕ, suc, ◌+◌, ◌-◌, ◌/◌, min, max, Bool, true, false, not, ◌||◌, Option, none, some, List, [], ◌∷◌,
  ◌++◌, codes, ◌==◌, trim, is_empty, starts_with, flag, length, take, drop, leb, ltb, if◌then◌else◌,
}
use mathlib.Core.Option
use vivi.Base.Strings.{Text}
use vivi.Base.Lines.{split_lines}
use vivi.Base.Integers.{ℤ, pos, sub_ℕ}
use vivi.FsNode.{FilePayload}

pub record TextSearchResult : Type 0 where
  pub path : Text
  pub viewer_kind : Text
  pub line_number : ℕ
  pub line_text : Text
  pub match_start : ℤ
  pub match_length : ℕ

unfoldable pub is_text_searchable_viewer_kind : Text → Bool
is_text_searchable_viewer_kind kind =
    (kind == codes "markdown")
    || (kind == codes "html")
    || (kind == codes "code")
    || (kind == codes "text")
    || (kind == codes "json")
    || (kind == codes "mermaid")

-- `s.indexOf(needle)`, with `none` for -1.
unfoldable pub index_of : Text → Text → Option ℕ
index_of needle [] = if is_empty needle then some 0 else none
index_of needle (c ∷ s) =
    if starts_with (c ∷ s) needle then some 0 else Option.map suc (index_of needle s)

abbrev pub max_length : ℕ
max_length = 220

-- `Math.max(0, matchStart - Math.floor((maxLength - matchLength) / 2))`; for a longer match the context is negative.
abbrev pub raw_start : ℕ → ℕ → ℕ
raw_start match_start match_length =
    if leb match_length max_length
    then match_start - (max_length - match_length) / 2
    else match_start + (match_length - max_length + 1) / 2

abbrev pub excerpt_start : ℕ → ℕ → ℕ → ℕ
excerpt_start len match_start match_length =
    min (raw_start match_start match_length) (len - max_length)

pub record Excerpt : Type 0 where
  pub shown : Text
  pub shown_start : ℤ

abbrev pub dots_if : Bool → Text
dots_if true = codes "..."
dots_if false = []

-- The part of a long line from `start` to `end`.
abbrev pub excerpt_from : Text → ℕ → ℕ → Excerpt
excerpt_from line match_start start =
    let stop = min (length line) (start + max_length) in
    record {
      shown =
          dots_if (ltb 0 start)
          ++ (take (stop - start) (drop start line) ++ dots_if (ltb stop (length line)));
      shown_start = sub_ℕ (match_start + length (dots_if (ltb 0 start))) start;
    }

unfoldable pub excerpt_line : Text → ℕ → ℕ → Excerpt
excerpt_line line match_start match_length =
    if leb (length line) max_length
    then record { shown = line; shown_start = pos match_start }
    else excerpt_from line match_start (excerpt_start (length line) match_start match_length)

abbrev pub result_at : FilePayload → ℕ → ℕ → Excerpt → TextSearchResult
result_at file number match_length e = record {
  path = file.path;
  viewer_kind = file.viewer_kind;
  line_number = number;
  line_text = e.shown;
  match_start = e.shown_start;
  match_length = match_length;
}

module _ (to_lower_case : Text → Text) (file : FilePayload) (needle : Text) where
  -- The loop over the lines, from a line number on, with how many matches there are and how many may be.
  unfoldable pub match_lines : ℕ → ℕ → ℕ → List Text → List TextSearchResult
  unfolding index_of excerpt_line
  match_lines number found max_matches [] = []
  match_lines number found max_matches (line ∷ lines) =
      let without = match_lines (number + 1) found max_matches lines in
      let with_more = match_lines (number + 1) (found + 1) max_matches lines in
      elim (index_of needle (to_lower_case line)) [
        | none ↦ without
        | some at ↦
            result_at file number (length needle) (excerpt_line line at (length needle))
            ∷ (if leb max_matches (found + 1) then [] else with_more)
      ]

unfoldable pub search_file_payload : (Text → Text) → FilePayload → Text → ℕ → List TextSearchResult
unfolding match_lines is_text_searchable_viewer_kind split_lines
search_file_payload to_lower_case file query max_matches =
    let needle = to_lower_case (trim query) in
    if is_empty needle
      || not (file.encoding == codes "utf8")
      || flag file.truncated
      || not (is_text_searchable_viewer_kind file.viewer_kind)
    then []
    else match_lines to_lower_case file needle 1 0 max_matches (split_lines file.content)
