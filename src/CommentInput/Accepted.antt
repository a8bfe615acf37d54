-- ===== src/CommentInput/Accepted.antt =====
-- What an accepted comment is.
use vivi.Base.{
  ◌≡◌, refl, false, not, ◌&&◌, Option, none, some, codes, ◌==◌, eq_iff, trim, is_empty, is_some,
  arith,
}
use vivi.Base.Strings.{Text}
use vivi.Base.Json.{Json, string, get}
use mathlib.Core.Path.{subst}
use vivi.CommentFields.{
  ok, Ensures, returns, throws, Ensures-bind, Ensures-then, Ensures-guard, Ensures-ok, string_field,
  is_string,
}
use vivi.CommentAnchors.Accepted.{IsAnchor, normalize_anchor-Ensures}
use vivi.Comments.{open_status}
use vivi.CommentInput.{CreateCommentInput, CommentOptions, normalize_comment_create_input}

-- A text that is trimmed from a field and not blank.
pub record IsTrimmed (s : Text) : Type 0 where
  pub raw : Text
  pub from_raw : s ≡ trim raw
  pub not_blank : is_empty s ≡ false

string_field-IsTrimmed : (v : Option Json) (name : Text) → Ensures IsTrimmed (string_field v name)
unfolding string_field
string_field-IsTrimmed (some (string s)) name =
    Ensures-guard (is_empty (trim s)) _ _
      λ h. returns (record { raw = s; from_raw = refl; not_blank = h })
string_field-IsTrimmed none name = throws
string_field-IsTrimmed (some v) name = throws

pub record IsComment (options : CommentOptions) (c : CreateCommentInput) : Type 0 where
  pub same_path : c.path ≡ options.resolved_path
  pub body : IsTrimmed c.body
  pub is_open : c.status ≡ open_status
  pub anchor : IsAnchor options.resolved_path c.anchor

create-Ensures :
    (input : Option Json) (options : CommentOptions)
    → Ensures (IsComment options) (normalize_comment_create_input input options)
unfolding normalize_comment_create_input
create-Ensures input options = Ensures-then _ λ fs. Ensures-then _ λ path.
    Ensures-guard (not (path == options.resolved_path)) _ _ λ same.
      Ensures-bind (string_field-IsTrimmed _ _) λ body hb.
        Ensures-bind (normalize_anchor-Ensures _ path options.file_hash) λ anchor ha.
          Ensures-guard
            (is_some (get fs (codes "status"))
              && not (is_string (get fs (codes "status")) (codes "open")))
            _ _
            λ _. Ensures-then _ λ kind. Ensures-then _ λ actor. Ensures-then _ λ from.
              let e : path ≡ options.resolved_path =
                (eq_iff path options.resolved_path).0 (ground arith) in
              returns (record {
                same_path = e;
                body = hb;
                is_open = refl;
                anchor = subst (λ p. IsAnchor p anchor) e ha;
              })

-- A comment that is accepted belongs to the resolved file, has a trimmed body that is not blank, is
-- open, and has an anchor in that file with the part that its surface needs, in good form; its
-- canonical lines are in order unless it lies on a diff.
pub normalize_comment_create_input-IsComment :
    (input : Option Json) (options : CommentOptions) (c : CreateCommentInput)
    → normalize_comment_create_input input options ≡ ok c
    → IsComment options c
normalize_comment_create_input-IsComment input options c h =
    Ensures-ok _ (create-Ensures input options) h
