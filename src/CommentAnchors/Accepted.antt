-- ===== src/CommentAnchors/Accepted.antt =====
-- What an accepted anchor is.
use vivi.Base.{
  ℕ, ◌≤◌, ◌≡◌, refl, ◌∙◌, false, not, ◌&&◌, ◌||◌, ◌≢◌, eqb, Option, none, some, ◌==◌, ltb, leb,
  arith, inl, inr, Bool-cases,
}
use vivi.Base.Strings.{Text}
use vivi.Base.Json.{Json, null, number, Fields}
use vivi.CommentFields.{
  Ensures, returns, throws, Ensures-bind, Ensures-then, Ensures-guard, positive_int,
  optional_positive_int, is_reversed, max_safe_integer,
}
use vivi.CommentAnchors.{
  normalize_source_anchor, normalize_rendered_anchor, normalize_diff_anchor, normalize_anchor,
  anchor_on, with_rendered, on_side, line_range,
}
use vivi.Comments.{
  CommentSurface, source, rendered, diff, SourceAnchor, RenderedAnchor, DiffAnchor, CommentAnchor,
}

-- A line number that the checks let through.
abbrev pub IsLine : Option ℕ → Type 0
IsLine none = Unit {0}
IsLine (some n) = (1 ≤ n) × (n ≤ max_safe_integer)

positive_int-IsLine :
    (v : Option Json) (name : Text) → Ensures (λ n. IsLine (some n)) (positive_int v name)
unfolding positive_int
positive_int-IsLine none name = throws
positive_int-IsLine (some (number n)) name = elim (Bool-cases (leb 1 n && leb n max_safe_integer)) [
  | inl e ↦ rw e (returns (ground arith))
  | inr e ↦ rw e throws
]
positive_int-IsLine (some v) name = throws

optional_positive_int-IsLine :
    (v : Option Json) (name : Text) → Ensures IsLine (optional_positive_int v name)
unfolding optional_positive_int
optional_positive_int-IsLine none name = returns tt
optional_positive_int-IsLine (some null) name = returns tt
optional_positive_int-IsLine (some v) name =
    Ensures-bind (positive_int-IsLine (some v) name) (λ n p. returns p)

-- A source anchor names the comment's file, its lines are positive safe integers, and its end is not
-- before its start.
pub record IsSourceAnchor (path : Text) (a : SourceAnchor) : Type 0 where
  pub same_path : a.path ≡ path
  pub start : IsLine a.line_start
  pub finish : IsLine a.line_end
  pub ordered : is_reversed a.line_start a.line_end ≡ false

normalize_source_anchor-IsSourceAnchor :
    (input : Option Json) (path : Text) (hash : Option Text)
    → Ensures (IsSourceAnchor path) (normalize_source_anchor input path hash)
unfolding normalize_source_anchor
normalize_source_anchor-IsSourceAnchor input path hash = Ensures-then _ λ fs. Ensures-then _ λ p.
    Ensures-guard (not (p == path)) _ _ λ _. Ensures-bind (optional_positive_int-IsLine _ _) λ s hs.
      Ensures-bind (optional_positive_int-IsLine _ _) λ e he. Ensures-then _ λ _.
        Ensures-then _ λ _.
          Ensures-guard (is_reversed s e) _ _
            λ o. returns (record { same_path = refl; start = hs; finish = he; ordered = o })

-- A rendered anchor's lines are positive safe integers, and its end is not before its start.
pub record IsRenderedAnchor (a : RenderedAnchor) : Type 0 where
  pub start : IsLine a.source_line_start
  pub finish : IsLine a.source_line_end
  pub ordered : is_reversed a.source_line_start a.source_line_end ≡ false

normalize_rendered_anchor-IsRenderedAnchor :
    (input : Option Json) → Ensures IsRenderedAnchor (normalize_rendered_anchor input)
unfolding normalize_rendered_anchor
normalize_rendered_anchor-IsRenderedAnchor input = Ensures-then _ λ fs. Ensures-then _ λ name.
    Ensures-then _ λ kind. Ensures-bind (optional_positive_int-IsLine _ _) λ s hs.
      Ensures-bind (optional_positive_int-IsLine _ _) λ e he.
        Ensures-guard (is_reversed s e) _ _
          λ o. returns (record { start = hs; finish = he; ordered = o })

-- The lines on the side of the anchor.
abbrev pub IsRange : Option ℕ → Option ℕ → Type 0
IsRange (some s) (some e) = (1 ≤ s) × (s ≤ e)
IsRange _ _ = ⊥

-- A diff anchor names the comment's file, and on its side it has both lines, in order.
pub record IsDiffAnchor (path : Text) (a : DiffAnchor) : Type 0 where
  pub same_path : a.path ≡ path
  pub range :
      IsRange
        (on_side a.side a.old_line_start a.new_line_start)
        (on_side a.side a.old_line_end a.new_line_end)

line_range-IsRange : (s e : Option ℕ) → Ensures (λ _. IsRange s e) (line_range s e)
line_range-IsRange (some s) (some e) =
    Ensures-guard (eqb s 0 || eqb e 0 || ltb e s) _ _ λ h. returns (ground arith)
line_range-IsRange (some s) none = throws
line_range-IsRange none e = throws

normalize_diff_anchor-IsDiffAnchor :
    (input : Option Json) (path : Text)
    → Ensures (IsDiffAnchor path) (normalize_diff_anchor input path)
unfolding normalize_diff_anchor
normalize_diff_anchor-IsDiffAnchor input path = Ensures-then _ λ fs. Ensures-then _ λ name.
    Ensures-then _ λ side. Ensures-then _ λ p. Ensures-guard (not (p == path)) _ _ λ _.
      Ensures-then _ λ os. Ensures-then _ λ oe. Ensures-then _ λ ns. Ensures-then _ λ ne.
        Ensures-bind (line_range-IsRange (on_side side os ns) (on_side side oe ne))
          λ r h. returns (record { same_path = refl; range = h })

-- The canonical lines of an anchor are in order, on the source and on the rendered surface.
abbrev pub CanonicalInOrder : CommentAnchor → Type 0
CanonicalInOrder a =
    a.surface ≢ diff → is_reversed a.canonical.line_start a.canonical.line_end ≡ false

abbrev pub MatchesSurface :
    Text → CommentSurface → Option RenderedAnchor → Option DiffAnchor → Type 0
MatchesSurface path source none none = Unit {0}
MatchesSurface path rendered (some r) none = IsRenderedAnchor r
MatchesSurface path diff none (some d) = IsDiffAnchor path d
MatchesSurface path _ _ _ = ⊥

-- An accepted anchor names the comment's file, has exactly the part that its surface needs, in good
-- form, and its canonical lines are in order unless it lies on a diff.
pub record IsAnchor (path : Text) (a : CommentAnchor) : Type 0 where
  pub same_path : a.canonical.path ≡ path
  pub parts : MatchesSurface path a.surface a.rendered_anchor a.diff_anchor
  pub in_order : CanonicalInOrder a

with_rendered-order :
    (c : SourceAnchor) (r : RenderedAnchor)
    → is_reversed c.line_start c.line_end ≡ false
    → is_reversed r.source_line_start r.source_line_end ≡ false
    → (is_reversed (with_rendered c r).line_start (with_rendered c r).line_end ≡ false)
      × ((with_rendered c r).path ≡ c.path)
with_rendered-order c r h k = ground arith

anchor_on-IsAnchor :
    (s : CommentSurface) (fs : Fields) (path : Text) (c : SourceAnchor)
    → IsSourceAnchor path c
    → Ensures (IsAnchor path) (anchor_on s fs path c)
anchor_on-IsAnchor source fs path c h =
    returns (record { same_path = h.same_path; parts = tt; in_order = λ _. h.ordered })
anchor_on-IsAnchor rendered fs path c h =
    Ensures-bind (normalize_rendered_anchor-IsRenderedAnchor _) λ r k.
      let o = with_rendered-order c r h.ordered k.ordered in
      returns (record { same_path = o.1 ∙ h.same_path; parts = k; in_order = λ _. o.0 })
anchor_on-IsAnchor diff fs path c h =
    Ensures-bind (normalize_diff_anchor-IsDiffAnchor _ path) λ d k.
      returns (record { same_path = h.same_path; parts = k; in_order = λ ne. absurd (ne refl) })

pub normalize_anchor-Ensures :
    (input : Option Json) (path : Text) (hash : Option Text)
    → Ensures (IsAnchor path) (normalize_anchor input path hash)
unfolding normalize_anchor
normalize_anchor-Ensures input path hash = Ensures-then _ λ fs. Ensures-then _ λ surface.
    Ensures-bind (normalize_source_anchor-IsSourceAnchor _ path hash)
      λ c h. anchor_on-IsAnchor surface fs path c h
