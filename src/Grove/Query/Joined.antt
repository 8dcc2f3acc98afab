-- ===== src/Grove/Query/Joined.antt =====
-- What the query of postgres/grove/sqlc gives where the database keeps its schema.
use path_external_auth_serve.Base.{
  GoString, not, Option, none, some, List, [], ◌∷◌, map, matching, find, find-none, HaveDistinct,
  ◌≡◌, refl, sym, ap, ◌∙◌, arith, ◌==◌, string_Eq, string_eq_iff,
}
use path_external_auth_serve.Sql.{left_join, group_by, is_column}
use path_external_auth_serve.Sql.Laws.{
  of_option, matching-of_option, matching_never, find_never, left_join-find, matching-map,
  HaveDistinct-map, HaveDistinct-matching, matching_all, map-compose,
}
use path_external_auth_serve.Grove.{SelectPortalAppsRow}
use path_external_auth_serve.Grove.Query.{
  AccountsRow, PortalApplicationsRow, Database, KeepsSchema, is_same_group, WithSettings,
  on_application, on_account, is_in_use, selected, select_portal_apps_query,
}

matching-is_column :
    (column : Option GoString) (accounts : List AccountsRow)
    → HaveDistinct (λ a. a.id) accounts
    → matching (λ a. is_column column a.id) accounts
      ≡ of_option (find (λ a. is_column column a.id) accounts)
matching-is_column none accounts d =
    matching_never accounts ∙ ap of_option (sym (find_never accounts))
matching-is_column (some id) accounts d = matching-of_option (λ a. a.id) id accounts d

-- Rows of different applications are groups of their own.
group_by_distinct :
    (rows : List SelectPortalAppsRow)
    → HaveDistinct (λ r. r.id) rows
    → group_by is_same_group rows ≡ rows
unfolding group_by
group_by_distinct [] d = refl
group_by_distinct (row ∷ rows) (fresh, d) = rw (group_by_distinct rows d) (
    ap (◌∷◌ row) (
      matching_all (λ r. not (is_same_group row r)) rows
        (λ r m.
          let other = find-none (λ s. s.id == row.id) rows fresh r m in
          ground (arith, other, string_eq_iff row.id r.id, string_eq_iff r.id row.id))))

-- An application with its settings and its account, with NULL for what it does not have.
abbrev pub whole : Database → PortalApplicationsRow → WithSettings × Option AccountsRow
whole db app = (
  (app, find (on_application app) db.portal_application_settings),
  find (λ a. is_column app.account_id a.id) db.accounts,
)

abbrev pub row_of : Database → PortalApplicationsRow → SelectPortalAppsRow
row_of db app = selected (whole db app)

abbrev pub in_use : Database → List PortalApplicationsRow
in_use db = matching (λ app. not app.deleted) db.portal_applications

-- Where the database keeps its schema, the query gives one row for each application that is not
-- deleted, with the columns of its settings and of its account: the joins neither drop nor double an
-- application, and the grouping merges none.
pub select_portal_apps_query-eq-map :
    (db : Database) → KeepsSchema db → select_portal_apps_query db ≡ map (row_of db) (in_use db)
unfolding select_portal_apps_query
select_portal_apps_query-eq-map db keeps =
    let grouped = λ (joined : List (WithSettings × Option AccountsRow)).
      group_by is_same_group (map selected (matching is_in_use joined)) in
    let with_settings = λ (app : PortalApplicationsRow).
      let joined : WithSettings = (app, find (on_application app) db.portal_application_settings) in
      joined in
    let one_settings =
      left_join-find on_application db.portal_applications db.portal_application_settings
        (λ app. matching-of_option (λ s. s.application_id) app.id _ keeps.one_settings) in
    let one_account =
      left_join-find on_account (map with_settings db.portal_applications) db.accounts
        (λ joined. matching-is_column joined.0.account_id db.accounts keeps.accounts_key) in
    ap (λ t. grouped (left_join on_account t db.accounts)) one_settings
    ∙ ap grouped (one_account ∙ map-compose _ with_settings db.portal_applications)
    ∙ ap (λ t. group_by is_same_group (map selected t))
        (matching-map is_in_use (whole db) db.portal_applications)
    ∙ ap (group_by is_same_group) (map-compose selected (whole db) (in_use db))
    ∙ group_by_distinct (map (row_of db) (in_use db)) (
        HaveDistinct-map (λ r. r.id) (row_of db) (in_use db)
          (HaveDistinct-matching (λ app. app.id) (λ app. not app.deleted) db.portal_applications
            keeps.applications_key))
