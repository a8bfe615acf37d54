-- ===== src/FileSystem/Reading.antt =====
-- server/typescript/infrastructure/node-file-system.ts: what a file is read as. The decoder of UTF-8, the hash, base64 and
-- what stat answers are parameters; a byte is a number, and texts are of the basic plane.
use vivi.Base.{
  ℕ, zero, suc, ◌*◌, max, Bool, true, false, not, ◌&&◌, ◌||◌, Option, none, some, List, [], ◌∷◌,
  ◌++◌, map, codes, ◌==◌, contains, is_some, length, take, ltb, eqb, show, if◌then◌else◌,
}
use vivi.Base.Strings.{Text}
use vivi.FsNode.{FilePayload}
use vivi.CommentFields.{Result, ok, err}
use vivi.PathPolicy.{PathValidationResult, ok, refused, has_nul}
use vivi.ViewerKind.{classify_viewer}
use vivi.FileSystem.{NodeFileSystem}

-- What stat says of a path: nothing for a path that is missing; a file has the time it was changed, as text, and its bytes.
pub data Stat : Type 0 where
  missing : Stat
  no_file : Stat
  file : Text → List ℕ → Stat

-- `TextDecoder`, which refuses what is not UTF-8, `sha256` in hexadecimal and base64.
pub record FileCodecs : Type 0 where
  pub decode : List ℕ → Option Text
  pub sha256 : List ℕ → Text
  pub base64 : List ℕ → Text

pub record ReadFile : Type 0 where
  pub payload : FilePayload
  pub size : ℕ
  pub mtime : Text
  pub mime_type : Option Text
  pub max_size_bytes : Option ℕ
  pub preview_bytes : Option ℕ

-- `content.subarray(3)` after a byte order mark.
unfoldable pub without_bom : List ℕ → List ℕ
without_bom (a ∷ b ∷ c ∷ bytes) =
    if eqb a 239 && eqb b 187 && eqb c 191 then bytes else a ∷ b ∷ c ∷ bytes
without_bom bytes = bytes

abbrev pub is_control : ℕ → Bool
is_control c = ltb c 32 && not (eqb c 10) && not (eqb c 13) && not (eqb c 9) && not (eqb c 12)

abbrev pub controls : Text → ℕ
controls [] = 0
controls (c ∷ s) = let rest = controls s in if is_control c then suc rest else rest

-- More than 2 of 100 characters are control characters.
unfoldable pub has_many_controls : Text → Bool
has_many_controls s = ltb (2 * length s) (controls s * 100)

-- The mime types by extension.
abbrev pub image_mime_type : Text → Option Text
image_mime_type extension =
    if extension == codes ".png"
    then some (codes "image/png")
    else if (extension == codes ".jpg") || (extension == codes ".jpeg")
    then some (codes "image/jpeg")
    else if extension == codes ".gif"
    then some (codes "image/gif")
    else if extension == codes ".webp"
    then some (codes "image/webp")
    else if extension == codes ".svg"
    then some (codes "image/svg+xml")
    else none

unfoldable pub mime_type_for : NodeFileSystem → Text → Text → Option Text
mime_type_for o path kind =
    if kind == codes "markdown"
    then some (codes "text/markdown; charset=utf-8")
    else if kind == codes "html"
    then some (codes "text/html; charset=utf-8")
    else if kind == codes "json"
    then some (codes "application/json; charset=utf-8")
    else if (kind == codes "code") || (kind == codes "text") || (kind == codes "mermaid")
    then some (codes "text/plain; charset=utf-8")
    else if kind == codes "binary"
    then some (codes "application/octet-stream")
    else image_mime_type (o.to_lower_case (o.extension path))

unfoldable pub supports_partial_text_preview : Text → Bool
supports_partial_text_preview kind =
    contains (map codes ("text" ∷ "code" ∷ "markdown" ∷ "json" ∷ "mermaid" ∷ [])) kind

abbrev pub few_controls : Option (Text × ℕ) → Option (Text × ℕ)
few_controls none = none
few_controls (some (text, n)) = if has_many_controls text then none else some (text, n)

module _ (c : FileCodecs) where
  -- The text of the first bytes; there is none of no bytes.
  abbrev pub decoded : List ℕ → ℕ → Option Text
  decoded content zero = some []
  decoded content (suc n) = c.decode (take (suc n) content)

  -- The loop that takes off bytes at the end until the rest is a text: the text with the number of its bytes.
  abbrev pub decode_prefix : Bool → List ℕ → ℕ → Option (Text × ℕ)
  decode_prefix allow content zero = some ([], 0)
  decode_prefix allow content (suc n) = elim (decoded content (suc n)) [
    | some text ↦ some (text, suc n)
    | none ↦ elim allow [ true ↦ decode_prefix allow content n | false ↦ none ]
  ]

  -- `none` for `{ ok: false }`.
  unfoldable pub safe_utf8_text : Bool → List ℕ → Option (Text × ℕ)
  unfolding without_bom has_many_controls
  safe_utf8_text allow_trailing_partial bytes =
      let content = without_bom bytes in
      if has_nul content
      then none
      else few_controls (decode_prefix allow_trailing_partial content (length content))

  unfoldable pub sniff_fallback_viewer_kind : List ℕ → Text
  unfolding safe_utf8_text
  sniff_fallback_viewer_kind bytes =
      if is_some (safe_utf8_text true bytes) then codes "text" else codes "binary"

  -- The kind by name, or for an unknown name by the bytes.
  abbrev pub sniffed : List ℕ → Text → Text
  sniffed bytes kind =
      if kind == codes "unsupported" then sniff_fallback_viewer_kind bytes else kind

  module _ (o : NodeFileSystem) where
    abbrev pub stat_etag : Text → ℕ → Text
    stat_etag mtime size = codes "mtime:" ++ mtime ++ codes ":size:" ++ show size

    -- A file that is too large, without its content.
    unfoldable pub unread_file : Text → Text → Text → ℕ → ReadFile
    unfolding mime_type_for
    unread_file path kind mtime size = record {
      payload = record {
        path = path;
        viewer_kind = kind;
        encoding = codes "none";
        content = [];
        etag = stat_etag mtime size;
        truncated = some true;
      };
      size = size;
      mtime = mtime;
      mime_type = mime_type_for o path kind;
      max_size_bytes = some o.max_file_size_bytes;
      preview_bytes = none;
    }

    abbrev pub preview : Text → Text → Text → ℕ → Option (Text × ℕ) → ReadFile
    preview path kind mtime size none = unread_file path (codes "binary") mtime size
    preview path kind mtime size (some (text, n)) = record {
      payload = record {
        path = path;
        viewer_kind = kind;
        encoding = codes "utf8";
        content = text;
        etag = stat_etag mtime size ++ codes ":preview:" ++ show n;
        truncated = some true;
      };
      size = size;
      mtime = mtime;
      mime_type = mime_type_for o path kind;
      max_size_bytes = some o.max_file_size_bytes;
      preview_bytes = some n;
    }

    -- A file that is too large, with its first bytes.
    unfoldable pub read_large : Text → Text → Text → ℕ → List ℕ → ReadFile
    unfolding supports_partial_text_preview safe_utf8_text
    read_large path kind mtime size bytes =
        if supports_partial_text_preview kind
        then preview path kind mtime size (safe_utf8_text true bytes)
        else unread_file path kind mtime size

    abbrev pub whole_file : Text → Text → Text → List ℕ → Text → Text → ReadFile
    whole_file path kind mtime bytes encoding content = record {
      payload = record {
        path = path;
        viewer_kind = kind;
        encoding = encoding;
        content = content;
        etag = codes "sha256:" ++ c.sha256 bytes;
        truncated = none;
      };
      size = length bytes;
      mtime = mtime;
      mime_type = mime_type_for o path kind;
      max_size_bytes = none;
      preview_bytes = none;
    }

    abbrev pub read_text : Text → Text → Text → List ℕ → Option (Text × ℕ) → ReadFile
    read_text path kind mtime bytes none =
        whole_file path (codes "binary") mtime bytes (codes "none") []
    read_text path kind mtime bytes (some (text, n)) =
        if kind == codes "binary"
        then whole_file path (codes "binary") mtime bytes (codes "none") []
        else whole_file path kind mtime bytes (codes "utf8") text

    abbrev pub read_small : Text → Text → Text → List ℕ → ReadFile
    read_small path kind mtime bytes =
        if kind == codes "image"
        then whole_file path kind mtime bytes (codes "base64") (c.base64 bytes)
        else read_text path kind mtime bytes (safe_utf8_text false bytes)

    unfoldable pub read_stat : Text → Stat → Result ReadFile
    unfolding sniff_fallback_viewer_kind
    read_stat path missing = err (codes "ENOENT")
    read_stat path no_file = err (codes "path is not a file")
    read_stat path (file mtime bytes) =
        let leading = take (max 1 o.max_file_size_bytes) bytes in
        let kind = classify_viewer o.to_lower_case path in
        if ltb o.max_file_size_bytes (length bytes)
        then ok (read_large path (sniffed leading kind) mtime (length bytes) leading)
        else ok (read_small path (sniffed bytes kind) mtime bytes)

    -- `readFilePayload` of a path as `resolveInsideRoot` has resolved it.
    unfoldable pub read_file_payload : (Text → Stat) → PathValidationResult → Result ReadFile
    unfolding read_stat
    read_file_payload stat (refused reason) = err reason
    read_file_payload stat (ok path) = read_stat path (stat path)
