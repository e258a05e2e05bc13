-- ===== src/Examples/ErrorRuns.antt =====
-- Runs of src/lib/errors/console-errors.ts.
use evirion_engineering_memo.Prelude.{◌≡◌, ◌⊎◌, true, false, none, some, codes}
use evirion_engineering_memo.ConsoleApi.{ConsoleError}
use evirion_engineering_memo.Errors.{treatment_for_code, map_console_error}
use evirion_engineering_memo.Errors.Laws.{map_console_error-treated}

abbrev unlisted : ConsoleError
unlisted = record {
  code = codes "NEW_CODE";
  retryable = true;
  request_id = codes "q";
  current_version = none;
  current_sequence = none;
}

map_console_error-treated_example :
    (treatment_for_code (map_console_error unlisted).code
      ≡ some (map_console_error unlisted).treatment)
    × (((map_console_error unlisted).retryable ≡ false)
        ⊎ ((map_console_error unlisted).retryable ≡ true))
map_console_error-treated_example = map_console_error-treated unlisted
