-- ===== src/FileSystem/Contents.antt =====
-- server/typescript/infrastructure/node-file-system.ts: a file is read as what it holds, or as no text.
use vivi.Base.{
  ℕ, ◌≤◌, ◌<◌, max, ◌≡◌, ◌⊎◌, Bool, true, false, Option, none, some, List, [], codes, ◌==◌, length,
  take,
}
use vivi.Base.Strings.{Text}
use vivi.CommentFields.{ok}
use vivi.PathPolicy.{ok}
use vivi.ViewerKind.{classify_viewer}
use vivi.FileSystem.{NodeFileSystem}
use vivi.FileSystem.Resolving.{IsReadable}
use vivi.FileSystem.Reading.{
  Stat, file, FileCodecs, ReadFile, without_bom, sniffed, supports_partial_text_preview,
}
use vivi.FileSystem.Texts.{IsTextOf, NoText}

module _ (c : FileCodecs) where
  module _ (o : NodeFileSystem) where
    -- The file without its content.
    abbrev HasNone : ReadFile → Type 0
    HasNone r = (r.payload.encoding ≡ codes "none") × (r.payload.content ≡ [])

    -- A file that is too large, whose first bytes are `bytes`: of a kind with text it is the longest text that they begin with.
    abbrev HasPreview : Text → List ℕ → ReadFile → Type 0
    HasPreview kind bytes r =
        (r.payload.truncated ≡ some true)
        × (((supports_partial_text_preview kind ≡ false) × HasNone r)
            ⊎ ((supports_partial_text_preview kind ≡ true) × NoText c true bytes × HasNone r)
            ⊎ ((supports_partial_text_preview kind ≡ true)
                × (r.payload.encoding ≡ codes "utf8")
                × ((n : ℕ) × (r.preview_bytes ≡ some n) × IsTextOf c bytes r.payload.content n)))

    -- Any other file: an image is its bytes in base64, and no other file is; of any other kind but a binary one it is the text
    -- of all bytes, if there is one.
    abbrev HasWhole : Text → List ℕ → ReadFile → Type 0
    HasWhole kind bytes r =
        (r.payload.truncated ≡ none)
        × (((kind == codes "image") ≡ true)
              × (r.payload.encoding ≡ codes "base64")
              × (r.payload.content ≡ c.base64 bytes)
            ⊎ ((kind == codes "image") ≡ false)
              × (((kind == codes "binary") ≡ true) ⊎ NoText c false bytes)
              × HasNone r
            ⊎ ((kind == codes "image") ≡ false)
              × ((kind == codes "binary") ≡ false)
              × (r.payload.encoding ≡ codes "utf8")
              × IsTextOf c bytes r.payload.content (length (without_bom bytes)))

    -- The bytes that are read, and the kind of the file: by its name, or for an unknown one by those bytes.
    abbrev leading : List ℕ → List ℕ
    leading bytes = take (max 1 o.max_file_size_bytes) bytes

    abbrev kind_of : Text → List ℕ → Text
    kind_of path bytes = sniffed c bytes (classify_viewer o.to_lower_case path)

    abbrev pub IsFaithful : Text → List ℕ → ReadFile → Type 0
    IsFaithful path bytes r =
        (r.payload.path ≡ path)
        × ((o.max_file_size_bytes < length bytes)
              × HasPreview (kind_of path (leading bytes)) (leading bytes) r
            ⊎ (length bytes ≤ o.max_file_size_bytes) × HasWhole (kind_of path bytes) bytes r)

    -- What a request reads: a path that is readable, of a file, and that faithfully.
    abbrev pub IsRead :
        (Text → Text) → (Text → Option Text) → (Text → Stat) → Bool → ReadFile → Type 0
    IsRead relative_to_root real_path stat preview_image r =
        IsReadable o relative_to_root real_path preview_image r.payload.path
        × ((mtime : Text) × ((bytes : List ℕ) × (stat r.payload.path ≡ file mtime bytes)
              × IsFaithful r.payload.path bytes r))
