-- ===== src/Tests/Tables.antt =====
-- The queries at sample tables, and the decision about a sample request over them.
use path_external_auth_serve.Base.{
  err, returns, HaveSameMembers, bytes, pos, none, some, true, false, List, [], ◌∷◌, ok, lookup,
  find, string_eq, ◌≡◌, ◌↔◌, refl, map, GoMap, ℤ, HasDistinctKeys, GoString, Member, subst, sym,
  arith, if◌then◌else◌, leb_ℤ,
}
use path_external_auth_serve.Auth.Messages.{code_ok}
use path_external_auth_serve.Grove.{plan_free}
use path_external_auth_serve.Grove.Query.{Database, KeepsSchema, select_portal_apps_query}
use path_external_auth_serve.Grove.Query.Joined.{row_of, in_use, select_portal_apps_query-eq-map}
use path_external_auth_serve.Dwh.{MonthlyUsageRow, get_month_to_moment_usage}
use path_external_auth_serve.RateLimit.{
  free_monthly_relays, is_account_rate_limited, update_rate_limited_accounts_map,
}
use path_external_auth_serve.RateLimit.ByRelays.{IsDueForLimit, limited_after_update_iff}
use path_external_auth_serve.Dwh.Query.{RelaysRow, Month, monthly_usage_query}
use path_external_auth_serve.Dwh.Query.Totals.{
  relays_in_month, get_month_to_moment_usage-relays_in_month,
}
use path_external_auth_serve.Main.Decisions.Served.{driver_of_main}
use path_external_auth_serve.Store.{Store, Fetched, empty_store, refresh_loop}
use path_external_auth_serve.Auth.Handler.{check}
use path_external_auth_serve.Main.Decisions.OpenRows.{serving_handler}
use path_external_auth_serve.Main.Decisions.Refreshed.{
  refreshed, HasOpenApplication, refreshed_decides_by_tables,
}
use path_external_auth_serve.Tests.Samples.{floats, by_path, keyed_app}
use path_external_auth_serve.Tests.Decisions.{
  at_limit, ready, scanned, headers, elapsed, response, ops, by_path-NamesApp, rows, computing,
  usage_asked,
}

-- A free account with an application in use and one that was deleted.
abbrev db : Database
db = record {
  accounts =
      record { id = bytes "acc1"; plan_type = some plan_free; monthly_user_limit = none } ∷ [];
  portal_applications =
      record { id = bytes "old"; account_id = some (bytes "acc1"); deleted = true }
      ∷ record { id = bytes "app1"; account_id = some (bytes "acc1"); deleted = false }
      ∷ [];
  portal_application_settings =
      record {
        application_id = bytes "app1";
        secret_key = some (bytes "k3y");
        secret_key_required = some true;
      }
      ∷ [];
}

abbrev month : Month
month = record { first_day = 31; today = 40 }

-- A million relays on two days of the month, and one in the month before.
abbrev relays : List RelaysRow
relays =
    record {
      day = some 31;
      account_id = some (bytes "acc1");
      txs_cnt = some (pos 600_000);
      errs_cnt = none;
    }
    ∷ record {
      day = some 30;
      account_id = some (bytes "acc1");
      txs_cnt = some (pos 1);
      errs_cnt = none;
    }
    ∷ record {
      day = some 40;
      account_id = some (bytes "acc1");
      txs_cnt = some (pos 300_000);
      errs_cnt = some (pos 100_000);
    }
    ∷ record { day = some 35; account_id = none; txs_cnt = some (pos 5); errs_cnt = none }
    ∷ []

abbrev usage_rows : List MonthlyUsageRow
usage_rows = record { account_id = bytes "acc1"; total_relays = pos 1_000_000 } ∷ []

queried : select_portal_apps_query db ≡ rows
unfolding select_portal_apps_query string_eq bytes
queried = refl

counted : monthly_usage_query month free_monthly_relays relays ≡ usage_rows
unfolding monthly_usage_query string_eq bytes
counted = refl

db-KeepsSchema : KeepsSchema db
unfolding find string_eq bytes
db-KeepsSchema = record {
  accounts_key = (refl, tt);
  applications_key = (refl, (refl, tt));
  one_settings = (refl, tt);
}

select_portal_apps_query-eq-map_example : select_portal_apps_query db ≡ map (row_of db) (in_use db)
select_portal_apps_query-eq-map_example = select_portal_apps_query-eq-map db db-KeepsSchema

get_month_to_moment_usage-relays_in_month_example :
    (usages : GoMap ℤ) × (get_month_to_moment_usage
        (driver_of_main floats at_limit ready)
        free_monthly_relays
      ≡ ok usages)
    × HasDistinctKeys usages
    × ((a : GoString)
        → lookup a usages ≡ (
            if leb_ℤ free_monthly_relays (relays_in_month month a relays)
            then some (relays_in_month month a relays)
            else none))
get_month_to_moment_usage-relays_in_month_example =
    get_month_to_moment_usage-relays_in_month month free_monthly_relays relays
      (driver_of_main floats at_limit ready) usage_rows (usage_asked _)
      (λ row. subst (λ l. Member row usage_rows ↔ Member row l) (sym counted) (λ m. m, λ m. m))
      (omega arith)

rows_asked : HaveSameMembers rows (select_portal_apps_query db)
rows_asked row = subst (λ l. Member row rows ↔ Member row l) (sym queried) (λ m. m, λ m. m)

abbrev an_outage : List Fetched
an_outage = err (bytes "connection reset") ∷ []

-- A refresh between two outages, over a store that was empty.
abbrev after_outages : Store
after_outages = refreshed floats an_outage an_outage (at_limit.query tt) empty_store

refreshed_run : check (serving_handler after_outages []) elapsed by_path ≡ returns (response, ops)
unfolding computing refresh_loop
refreshed_run = refl

refreshed_decides_by_tables_example :
    (response.code ≡ code_ok) ↔ HasOpenApplication db [] (bytes "app1") headers
refreshed_decides_by_tables_example =
    refreshed_decides_by_tables floats an_outage an_outage (at_limit.query tt) empty_store db rows
      [] by_path headers (bytes "app1") elapsed response ops db-KeepsSchema scanned rows_asked
      (tt, tt) by_path-NamesApp refreshed_run

limited_after_update_iff_example :
    (is_account_rate_limited
        (update_rate_limited_accounts_map floats
          (λ a. some keyed_app)
          (get_month_to_moment_usage (driver_of_main floats at_limit ready) free_monthly_relays)
          []).0
        (bytes "acc1")
      ≡ true)
    ↔ IsDueForLimit
        (λ a. some keyed_app)
        (bytes "acc1")
        (relays_in_month month (bytes "acc1") relays)
limited_after_update_iff_example =
    limited_after_update_iff floats (λ a. some keyed_app) (driver_of_main floats at_limit ready)
      month relays usage_rows [] (bytes "acc1") (usage_asked _)
      (λ row. subst (λ l. Member row usage_rows ↔ Member row l) (sym counted) (λ m. m, λ m. m))
