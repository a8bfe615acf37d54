-- ===== src/FileSystem/Resolving.antt =====
-- server/typescript/infrastructure/node-file-system.ts: which paths of a request are read. What path.relative and realpath
-- answer are parameters.
use vivi.Base.{
  ◌≡◌, refl, Bool, true, false, not, ◌&&◌, ◌||◌, Option, none, some, [], ◌∷◌, codes, ◌==◌,
  starts_with, eqb, is_empty, arith, if◌then◌else◌,
}
use mathlib.Core.Path.{subst}
use vivi.Base.Strings.{Text}
use vivi.PathPolicy.{
  PathValidationResult, ok, refused, normalize_relative_path, is_ignored_path, is_excluded,
}
use vivi.PathPolicy.Inside.{IsInside, normalize_relative_path-IsInside}
use vivi.ViewerKind.{classify_viewer}
use vivi.FileSystem.{NodeFileSystem, is_included, is_hidden_path}

-- A relative path that leads out of the directory it is relative to.
abbrev pub is_outward : Text → Bool
is_outward relative = starts_with relative (codes "..") || starts_with relative (codes "/")

-- The real path of a file, relative to that of the root; `none` for one that is missing.
abbrev pub real_path_is_inside_root : Option Text → Bool
real_path_is_inside_root none = true
real_path_is_inside_root (some relative) = is_empty relative || not (is_outward relative)

-- The first name of a path.
abbrev pub first_name : Text → Text
first_name [] = []
first_name (c ∷ s) = if eqb c 47 then [] else c ∷ first_name s

-- A relative path that does not begin with the step "..", and is not absolute.
abbrev pub StaysInside : Text → Type 0
StaysInside relative =
    ((first_name relative == codes "..") ≡ false) × (starts_with relative (codes "/") ≡ false)

-- The real path of what is there stays inside.
abbrev pub ReallyInside : Option Text → Type 0
ReallyInside none = Unit
ReallyInside (some relative) = StaysInside relative

no_step : (s : Text) → starts_with s (codes "..") ≡ false → (first_name s == codes "..") ≡ false
unfolding ◌==◌
no_step [] h = refl
no_step (a ∷ []) h = ground (arith, h)
no_step (a ∷ b ∷ s) h = ground (arith, h)

not_outward : (s : Text) → is_outward s ≡ false → StaysInside s
not_outward s h = (no_step s (ground (arith, h)), ground (arith, h))

really_inside : (s : Option Text) → real_path_is_inside_root s ≡ true → ReallyInside s
unfolding ◌==◌
really_inside none h = tt
really_inside (some []) h = (refl, refl)
really_inside (some (c ∷ s)) h = not_outward (c ∷ s) (ground (arith, h))

module _ (o : NodeFileSystem) (relative_to_root : Text → Text)
    (real_path : Text → Option Text) where
  abbrev pub is_outside_root : Text → Bool
  is_outside_root path =
      is_outward (relative_to_root path) || not (real_path_is_inside_root (real_path path))

  abbrev pub is_preview_image : Bool → Text → Bool
  is_preview_image preview_image path =
      preview_image && (classify_viewer o.to_lower_case path == codes "image")

  abbrev pub resolve_normalized : Bool → PathValidationResult → PathValidationResult
  resolve_normalized preview_image (refused reason) = refused reason
  resolve_normalized preview_image (ok path) =
      if is_empty path
      then refused (codes "file path is required")
      else if is_excluded o.exclude_patterns path
      then refused (codes "path is excluded")
      else if is_ignored_path o.ignored_names path
      then refused (codes "path is ignored")
      else if not (is_included o path) && not (is_preview_image preview_image path)
      then refused (codes "path is excluded")
      else if is_outside_root path
      then refused (codes "path escapes root")
      else ok path

  unfoldable pub resolve_inside_root : Text → Bool → PathValidationResult
  unfolding normalize_relative_path
  resolve_inside_root input preview_image =
      resolve_normalized preview_image (normalize_relative_path input)

  abbrev pub resolve_normalized_directory : Bool → PathValidationResult → PathValidationResult
  resolve_normalized_directory is_directory (refused reason) = refused reason
  resolve_normalized_directory is_directory (ok path) =
      if not (is_empty path) && is_excluded o.exclude_patterns path
      then refused (codes "path is excluded")
      else if not (is_empty path) && is_ignored_path o.ignored_names path
      then refused (codes "path is ignored")
      else if is_outside_root path
      then refused (codes "path escapes root")
      else if not is_directory
      then refused (codes "path is not a directory")
      else ok path

  -- `is_directory` is what stat says of a path.
  unfoldable pub resolve_directory_inside_root : (Text → Bool) → Text → PathValidationResult
  unfolding normalize_relative_path
  resolve_directory_inside_root is_directory input = elim (normalize_relative_path input) [
    | refused reason ↦ refused reason
    | ok path ↦ resolve_normalized_directory (is_directory path) (ok path)
  ]

  -- A path that may be read: names below the root, none of them hidden, of an extension that is shown or of a preview image,
  -- and really inside the root.
  pub record IsReadable (preview_image : Bool) (path : Text) : Type 0 where
    pub inside : IsInside path
    pub named : is_empty path ≡ false
    pub shown : is_hidden_path o path ≡ false
    pub included : (is_included o path || is_preview_image preview_image path) ≡ true
    pub lies : StaysInside (relative_to_root path)
    pub really_lies : ReallyInside (real_path path)

  guarded :
      (a b c d e : Bool) (r₁ r₂ r₃ r₄ r₅ p path : Text)
      → (if a
          then refused r₁
          else if b
          then refused r₂
          else if c
          then refused r₃
          else if d
          then refused r₄
          else if e
          then refused r₅
          else ok p)
        ≡ ok path
      → (a ≡ false) × (b ≡ false) × (c ≡ false) × (d ≡ false) × (e ≡ false) × (p ≡ path)
  guarded true b c d e r₁ r₂ r₃ r₄ r₅ p path h = cc
  guarded false true c d e r₁ r₂ r₃ r₄ r₅ p path h = cc
  guarded false false true d e r₁ r₂ r₃ r₄ r₅ p path h = cc
  guarded false false false true e r₁ r₂ r₃ r₄ r₅ p path h = cc
  guarded false false false false true r₁ r₂ r₃ r₄ r₅ p path h = cc
  guarded false false false false false r₁ r₂ r₃ r₄ r₅ p path h = (refl, refl, refl, refl, refl, cc)

  resolve_normalized-IsReadable :
      (preview_image : Bool) (p : PathValidationResult) (path : Text)
      → ((q : Text) → p ≡ ok q → IsInside q)
      → resolve_normalized preview_image p ≡ ok path
      → IsReadable preview_image path
  unfolding is_hidden_path
  resolve_normalized-IsReadable preview_image (refused reason) path inside h = cc
  resolve_normalized-IsReadable preview_image (ok p) path inside h =
      let g =
        guarded (is_empty p) (is_excluded o.exclude_patterns p) (is_ignored_path o.ignored_names p)
          (not (is_included o p) && not (is_preview_image preview_image p)) (is_outside_root p)
          (codes "file path is required") (codes "path is excluded") (codes "path is ignored")
          (codes "path is excluded") (codes "path escapes root") p path h in
      subst (IsReadable preview_image) g.5 record {
        inside = inside p refl;
        named = g.0;
        shown = ground (arith, g.1, g.2);
        included = ground (arith, g.3);
        lies = not_outward (relative_to_root p) (ground (arith, g.4));
        really_lies = really_inside (real_path p) (ground (arith, g.4));
      }

  pub resolve_inside_root-IsReadable :
      (input : Text) (preview_image : Bool) (path : Text)
      → resolve_inside_root input preview_image ≡ ok path
      → IsReadable preview_image path
  unfolding resolve_inside_root
  resolve_inside_root-IsReadable input preview_image path h =
      resolve_normalized-IsReadable preview_image (normalize_relative_path input) path
        (normalize_relative_path-IsInside input) h
