-- ===== src/ChangeReview/Tests.antt =====
-- A status of git, and what is read of it.
use vivi.Base.{◌≡◌, refl, List, [], ◌∷◌, codes, text_lt}
use vivi.Base.Strings.{Text}
use vivi.Base.Sorting.{sort_by}
use vivi.ChangeReview.{GitChange, added, modified, plain_change, renamed_change, change_before}

abbrev status_entries : List Text
status_entries = codes "MM c.md" ∷ codes "RM new.md" ∷ codes "old.md" ∷ codes "?? a.md" ∷ []

abbrev changes : List GitChange
changes =
    plain_change (codes "c.md") modified
    ∷ renamed_change (codes "new.md") (codes "old.md")
    ∷ plain_change (codes "a.md") added
    ∷ []

abbrev sorted_changes : List GitChange
sorted_changes =
    plain_change (codes "a.md") added
    ∷ plain_change (codes "c.md") modified
    ∷ renamed_change (codes "new.md") (codes "old.md")
    ∷ []

sorts : sort_by (change_before text_lt) changes ≡ sorted_changes
unfolding sort_by text_lt
sorts = refl
