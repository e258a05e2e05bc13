-- ===== src/Processing.antt =====
-- src/lib/processing/sort.ts: the page of rows that a cursor names, and the loop that follows the
-- cursors of a list to its end. A row is its extraction job and what it shows.
pub mod Collect
use evirion_engineering_memo.Prelude.{
  ℕ, zero, suc, ◌+◌, Bool, true, false, List, [], ◌∷◌, ◌++◌, Option, none, some, Text, text_eq, leb,
  length, take, drop, if◌then◌else◌,
}

-- PROCESSING_PAGE_SIZE, of src/lib/processing/query.ts
abbrev pub page_size : ℕ
page_size = 20

-- PROCESSING_COLLECT_PAGE_LIMIT
abbrev pub collect_page_limit : ℕ
collect_page_limit = 20

pub record ProcessingRow : Type 0 where
  pub extraction_job_id : Text
  pub shown : Text

pub record CursorPage : Type 0 where
  pub items : List ProcessingRow
  pub next_cursor : Option Text

abbrev pub shifted : ℕ → ℕ
shifted zero = 0
shifted (suc k) = suc (suc k)

-- `findIndex((row) => row.extractionJobId === after) + 1`, 0 where there is none.
unfoldable pub behind : Text → List ProcessingRow → ℕ
behind after [] = 0
behind after (row ∷ rows) =
    let rest = behind after rows in if text_eq row.extraction_job_id after then 1 else shifted rest

unfoldable pub start_of : List ProcessingRow → Option Text → ℕ
start_of items none = 0
start_of items (some after) = behind after items

-- `at(-1)?.extractionJobId ?? null`
unfoldable pub last_job : List ProcessingRow → Option Text
last_job [] = none
last_job (row ∷ []) = some row.extraction_job_id
last_job (row ∷ next ∷ rows) = last_job (next ∷ rows)

abbrev pub page_from : List ProcessingRow → ℕ → List ProcessingRow → CursorPage
page_from items start page_items = record {
  items = page_items;
  next_cursor =
      if leb (length items) (start + length page_items) then none else last_job page_items;
}

-- paginateProcessingRows
unfoldable pub paginate_processing_rows : List ProcessingRow → Option Text → CursorPage
paginate_processing_rows items after =
    page_from items (start_of items after) (take page_size (drop (start_of items after) items))

pub data Collected : Type 0 where
  complete : List ProcessingRow → Collected
  truncated : Collected

abbrev pub same_cursor : Text → Option Text → Bool
same_cursor next none = false
same_cursor next (some after) = text_eq next after

-- What follows a round: `rest` goes on from the next cursor.
abbrev pub after_round :
    List ProcessingRow → Option Text → Option Text → (Text → Collected) → Collected
after_round items after none rest = complete items
after_round items after (some next) rest = if same_cursor next after then truncated else rest next

-- The rounds of the loop, `items` being the rows so far.
unfoldable pub collect_rounds :
    (Option Text → CursorPage) → ℕ → List ProcessingRow → Option Text → Collected
collect_rounds fetch_page zero items after = truncated
collect_rounds fetch_page (suc rounds) items after =
    after_round (items ++ (fetch_page after).items) after (fetch_page after).next_cursor
      (λ next. collect_rounds fetch_page rounds (items ++ (fetch_page after).items) (some next))

-- collectCursorPages
abbrev pub collect_cursor_pages : (Option Text → CursorPage) → ℕ → Collected
collect_cursor_pages fetch_page limit = collect_rounds fetch_page limit [] none
