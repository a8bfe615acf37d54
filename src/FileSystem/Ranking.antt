-- ===== src/FileSystem/Ranking.antt =====
-- server/typescript/infrastructure/node-file-system.ts: the files that a search by name finds, ranked.
use vivi.Base.{
  ℕ, zero, suc, ◌≡◌, refl, sym, ap, ◌∙◌, Bool, Option, none, some, List, [], ◌∷◌, ◌++◌, arith, take,
}
use mathlib.Core.List.{append-nil, append_assoc}
use vivi.Base.Strings.{Text}
use vivi.Base.Sorting.{IsOrder, sort_by, take-sort_by}
use vivi.FileSystem.{NodeFileSystem, Disk, FileSearchResult}
use vivi.FileSystem.Queries.{
  scored, ranks_before, ranked, rank_files, insert_ranked, on_index_file, read_file_index,
  search_files, terms_of,
}
use vivi.FileSystem.Walking.{run_until, walk_files-run_until}
use vivi.FileSystem.Searching.{all_files}

-- By score first and then by another order is an order.
ranks_before-IsOrder :
    (locale_before : Text → Text → Bool)
    → IsOrder locale_before
    → IsOrder (ranks_before locale_before)
ranks_before-IsOrder locale_before o = record {
  asym = λ x y h. ground (arith, o.asym x.path y.path);
  not_before_trans = λ x y z h k. ground (arith, o.not_before_trans x.path y.path z.path);
}

-- The files with a positive score, in order.
abbrev pub matching : NodeFileSystem → List Text → List FileSearchResult → List FileSearchResult
unfolding scored
matching o terms [] = []
matching o terms (file ∷ files) = elim (scored o terms file) [
  | none ↦ matching o terms files
  | some f ↦ f ∷ matching o terms files
]

indexed :
    (files more : List FileSearchResult) → (run_until on_index_file files more).0 ≡ files ++ more
indexed files [] = sym (append-nil files)
indexed files (file ∷ more) =
    indexed (files ++ file ∷ []) more ∙ append_assoc files (file ∷ []) more

read_file_index-all_files :
    (o : NodeFileSystem) (disk : Disk) → read_file_index o disk ≡ all_files o disk
unfolding read_file_index
read_file_index-all_files o disk =
    ap (λ r. r.0) (walk_files-run_until o on_index_file [] none disk [])
    ∙ indexed [] (all_files o disk)

module _ (locale_before : Text → Text → Bool) (locale : IsOrder locale_before) (o : NodeFileSystem)
    (terms : List Text) (limit : ℕ) where
  abbrev best : List FileSearchResult → List FileSearchResult
  best files = take limit (sort_by (ranks_before locale_before) files)

  rank_files-best :
      (done files : List FileSearchResult)
      → rank_files locale_before o terms limit (best done) files
        ≡ best (done ++ matching o terms files)
  unfolding rank_files
  rank_files-best done [] = ap best (sym (append-nil done))
  rank_files-best done (file ∷ files) =
      by_score (scored o terms file) refl (λ results. rank_files-best results files)
    where
      matching-none :
          scored o terms file ≡ none → matching o terms (file ∷ files) ≡ matching o terms files
      matching-none e = rw (matching, e) refl

      matching-some :
          {f : FileSearchResult}
          → scored o terms file ≡ some f
          → matching o terms (file ∷ files) ≡ f ∷ matching o terms files
      matching-some e = rw (matching, e) refl

      by_score :
          (found : Option FileSearchResult)
          → scored o terms file ≡ found
          → ((results : List FileSearchResult)
              → rank_files locale_before o terms limit (best results) files
                ≡ best (results ++ matching o terms files))
          → rank_files locale_before o terms limit (best done) (file ∷ files)
            ≡ best (done ++ matching o terms (file ∷ files))
      by_score none e ih =
          rw (rank_files, e, ranked) (ih done ∙ ap best (ap (done ++◌) (sym (matching-none e))))
      by_score (some f) e ih =
          rw (rank_files, e, ranked, insert_ranked)
            (ap (λ results. rank_files locale_before o terms limit results files)
                (take-sort_by (ranks_before locale_before)
                  (ranks_before-IsOrder locale_before locale) limit done f)
              ∙ ih (done ++ f ∷ [])
              ∙ ap best (
                  append_assoc done (f ∷ []) (matching o terms files)
                  ∙ ap (done ++◌) (sym (matching-some e))))

-- A search by name finds the best `limit` of the files that match, by score and then by path, although the files that are
-- read last push out the others one by one: pushing, sorting and cutting after each file is sorting all of them once.
pub search_files-best :
    (locale_before : Text → Text → Bool) (o : NodeFileSystem) (query : Text) (limit : ℕ)
    (disk : Disk) (term : Text) (terms : List Text)
    → IsOrder locale_before
    → terms_of o query ≡ term ∷ terms
    → search_files locale_before o query limit disk
      ≡ take limit
          (sort_by (ranks_before locale_before) (matching o (term ∷ terms) (all_files o disk)))
unfolding search_files sort_by
search_files-best locale_before o query limit disk term terms locale e =
    rw (search_files, e, read_file_index-all_files o disk)
      (ap (λ results. rank_files locale_before o (term ∷ terms) limit results (all_files o disk))
          (none_yet limit)
        ∙ rank_files-best locale_before locale o (term ∷ terms) limit [] (all_files o disk))
  where
    none_yet : (n : ℕ) → [] ≡ take n (sort_by (ranks_before locale_before) [])
    none_yet zero = refl
    none_yet (suc n) = refl
