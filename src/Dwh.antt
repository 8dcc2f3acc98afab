-- ===== src/Dwh.antt =====
-- The data warehouse: dwh/driver.go. BigQuery is an argument: what it answers to the text of a
-- query, an error or a cursor, where each step of the cursor gives a row or an error and the end of
-- the list is iterator.Done.
pub mod Usage
pub mod Query
use path_external_auth_serve.Base.{
  GoString, bytes, ℤ, format_int, GoMap, insert, Result, ok, err, wrap, List, [], ◌∷◌, ◌++◌,
}
use path_external_auth_serve.Base.Results.{◌>>=◌}

pub record MonthlyUsageRow : Type 0 where
  pub account_id : GoString
  pub total_relays : ℤ

abbrev pub Answer : Type 0
Answer = Result (List (Result MonthlyUsageRow))

-- `d.clientBQ.Query(query).Read(ctx)` and the iterator that it returns
abbrev pub BigQuery : Type 0
BigQuery = GoString → Answer

pub record Driver : Type 0 where
  pub client_bq : BigQuery
  pub project_id : GoString

unfoldable pub new_driver : Result BigQuery → GoString → Result Driver
new_driver client project_id = do
  client_bq ← wrap (bytes "failed to connect to bigQuery: ") client
  ok (record { client_bq = client_bq; project_id = project_id })

unfoldable pub get_monthly_usage_query : GoString → ℤ → GoString
get_monthly_usage_query project_id min_relay_threshold =
    bytes
      "\n\t\tSELECT\n\t\t\taccount_id,\n\t\t\tSUM(COALESCE(txs_cnt, 0) + COALESCE(errs_cnt, 0)) AS total_relays\n\t\tFROM\n\t\t\t`"
    ++ (project_id
        ++ (bytes
              ".API.relays`\n\t\tWHERE\n\t\t\tDATE(ts) >= DATE_TRUNC(CURRENT_DATE(), MONTH)\n\t\t\tAND DATE(ts) <= CURRENT_DATE()\n\t\t\tAND account_id IS NOT NULL\n\t\tGROUP BY\n\t\t\taccount_id\n\t\tHAVING\n\t\t\tSUM(COALESCE(txs_cnt, 0) + COALESCE(errs_cnt, 0)) >= "
            ++ (format_int min_relay_threshold
                ++ bytes "\n\t\tORDER BY\n\t\t\ttotal_relays DESC, account_id;\n\t")))

-- the loop over the iterator, over the map that it fills
unfoldable pub read_rows : List (Result MonthlyUsageRow) → GoMap ℤ → Result (GoMap ℤ)
read_rows [] results = ok results
read_rows (err message ∷ rest) results = err (bytes "failed to read query result: " ++ message)
read_rows (ok row ∷ rest) results = read_rows rest (insert row.account_id row.total_relays results)

unfoldable pub get_month_to_moment_usage : Driver → ℤ → Result (GoMap ℤ)
unfolding read_rows get_monthly_usage_query
get_month_to_moment_usage d min_relay_threshold = do
  rows ←
      wrap (bytes "failed to execute monthly usage query: ")
        (d.client_bq (get_monthly_usage_query d.project_id min_relay_threshold))
  read_rows rows []
