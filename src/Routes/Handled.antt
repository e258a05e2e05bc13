-- ===== src/Routes/Handled.antt =====
-- Each handler of src/app/api calls the backend only for a request that is admitted.
use evirion_engineering_memo.Routes.Imports
use evirion_engineering_memo.Routes.Memory
use evirion_engineering_memo.Routes.Settings
use evirion_engineering_memo.Routes.Repositories
use evirion_engineering_memo.Routes.Policy
use evirion_engineering_memo.Routes.Sending
