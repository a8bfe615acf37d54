-- ===== src/Search/Tests.antt =====
-- Examples for the search in a file.
use vivi.Base.{◌≡◌, refl, some, codes, arith}
use vivi.Search.{index_of, excerpt_line}
use vivi.Search.Excerpts.{Shows, excerpt_line-Shows}

excerpt_line-Shows_example : Shows (codes "one two") 4 3 (excerpt_line (codes "one two") 4 3)
excerpt_line-Shows_example = excerpt_line-Shows (codes "one two") 4 3 (omega arith) (omega arith)

finds : index_of (codes "two") (codes "one two") ≡ some 4
unfolding index_of
finds = refl
