-- ===== src/Examples/ReaderRuns.antt =====
-- A run of src/lib/processing/sort.ts.
use evirion_engineering_memo.Prelude.{◌≡◌, refl, List, [], ◌∷◌, codes, text_eq, arith}
use evirion_engineering_memo.Processing.{
  ProcessingRow, complete, paginate_processing_rows, collect_cursor_pages,
}
use evirion_engineering_memo.Processing.Collect.{Distinct, collect_cursor_pages-paginate}

abbrev rows : List ProcessingRow
rows =
    record { extraction_job_id = codes "j1"; shown = codes "x" }
    ∷ record { extraction_job_id = codes "j2"; shown = codes "y" }
    ∷ []

rows-Distinct : Distinct rows
unfolding text_eq
rows-Distinct = (refl, (refl, tt))

collect_cursor_pages-paginate_example :
    collect_cursor_pages (paginate_processing_rows rows) 1 ≡ complete rows
collect_cursor_pages-paginate_example =
    collect_cursor_pages-paginate rows 0 rows-Distinct (omega arith)
