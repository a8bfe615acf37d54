-- ===== src/ViewerKind.antt =====
-- server/typescript/domain/viewer-kind.ts: the kind of viewer for a file, by its name. A kind is the string that names it;
-- `toLowerCase` is a parameter.
use vivi.Base.{List, [], ◌∷◌, map, codes, ◌==◌, contains, is_empty, last, eqb, if◌then◌else◌}
use Prim.Native.String.{String}
use vivi.Base.Strings.{Text}
use vivi.PathPolicy.{split_path}

abbrev texts : List String → List Text
texts = map codes

abbrev pub markdown_extensions : List Text
markdown_extensions = texts (".md" ∷ ".markdown" ∷ ".mdown" ∷ [])

abbrev pub html_extensions : List Text
html_extensions = texts (".html" ∷ ".htm" ∷ [])

abbrev pub image_extensions : List Text
image_extensions = texts (".png" ∷ ".jpg" ∷ ".jpeg" ∷ ".gif" ∷ ".webp" ∷ ".svg" ∷ [])

abbrev pub json_extensions : List Text
json_extensions = texts (".json" ∷ ".jsonc" ∷ [])

abbrev pub mermaid_extensions : List Text
mermaid_extensions = texts (".mmd" ∷ ".mermaid" ∷ [])

abbrev pub text_extensions : List Text
text_extensions = texts (".txt" ∷ ".log" ∷ ".csv" ∷ ".tsv" ∷ [])

abbrev pub binary_extensions : List Text
binary_extensions = texts (
    ".pdf" ∷ ".zip" ∷ ".gz" ∷ ".tgz" ∷ ".wasm" ∷ ".sqlite" ∷ ".db" ∷ ".bin" ∷ ".exe" ∷ ".dmg"
    ∷ ".mp3" ∷ ".mp4" ∷ ".mov" ∷ [])

abbrev pub code_basenames : List Text
code_basenames = texts ("dockerfile" ∷ [])

abbrev pub code_extensions : List Text
code_extensions = texts (
    ".js" ∷ ".jsx" ∷ ".ts" ∷ ".tsx" ∷ ".css" ∷ ".scss" ∷ ".go" ∷ ".rs" ∷ ".py" ∷ ".rb" ∷ ".java"
    ∷ ".kt" ∷ ".c" ∷ ".cpp" ∷ ".h" ∷ ".hpp" ∷ ".sh" ∷ ".zsh" ∷ ".bash" ∷ ".yml" ∷ ".yaml" ∷ ".toml"
    ∷ ".xml" ∷ ".sql" ∷ [])

-- `s.slice(s.lastIndexOf("."))`, and the empty text without a dot.
unfoldable pub from_last_dot : Text → Text
from_last_dot [] = []
from_last_dot (c ∷ s) =
    let rest = from_last_dot s in if is_empty rest then (if eqb c 46 then c ∷ s else []) else rest

abbrev pub last_segment : List Text → Text
last_segment [] = []
last_segment (s ∷ ss) = last s ss

-- The kind for the extension and the base name, in lower case.
abbrev pub kind_for : Text → Text → Text
kind_for extension basename =
    if contains markdown_extensions extension
    then codes "markdown"
    else if contains html_extensions extension
    then codes "html"
    else if contains image_extensions extension
    then codes "image"
    else if contains json_extensions extension
    then codes "json"
    else if contains mermaid_extensions extension
    then codes "mermaid"
    else if contains text_extensions extension
    then codes "text"
    else if contains binary_extensions extension
    then codes "binary"
    else if contains code_basenames basename
    then codes "code"
    else if contains code_extensions extension
    then codes "code"
    else codes "unsupported"

unfoldable pub classify_viewer : (Text → Text) → Text → Text
unfolding from_last_dot split_path ◌==◌
classify_viewer to_lower_case path =
    let lower = to_lower_case path in
    kind_for (from_last_dot lower) (last_segment (split_path lower))
