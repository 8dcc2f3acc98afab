-- ===== src/Main/Decisions/Tables.antt =====
-- Which requests are let through, told from the tables of the portal's database and the table of
-- relays of the warehouse: the queries of postgres/grove/sqlc and dwh/driver.go in front of the
-- stores of main.go.
use path_external_auth_serve.Base.{
  GoString, Option, none, some, List, [], ◌∷◌, true, not, Member, here, there, HaveSameMembers,
  find, find_unique, Member-matching, Member-map, All-of_members, ◌≡◌, ◌↔◌, ◌⊎◌, inl, inr, refl,
  sym, ap, ◌∙◌, subst, ◌==◌, string_Eq, string_eq_iff, Bool-cases,
}
use path_external_auth_serve.PortalApp.{PortalAppId, AccountId}
use path_external_auth_serve.Grove.{SelectPortalAppsRow, text_or_zero, int_or_zero}
use path_external_auth_serve.Grove.Query.{
  AccountsRow, PortalApplicationsRow, Database, KeepsSchema, plan_of, limit_of,
  select_portal_apps_query,
}
use path_external_auth_serve.Grove.Query.Joined.{row_of, in_use, select_portal_apps_query-eq-map}
use path_external_auth_serve.Sql.{is_column}
use path_external_auth_serve.Sql.Laws.{find_never}
use path_external_auth_serve.Main.Decisions.Plans.{Accounts, AreJoined}
use path_external_auth_serve.Main.Decisions.RowApps.{last_with}

last_with_sound :
    (id : PortalAppId) (rows : List SelectPortalAppsRow) (found : Option SelectPortalAppsRow)
    (row : SelectPortalAppsRow)
    → last_with id rows found ≡ some row
    → (found ≡ some row) ⊎ (Member row rows × (row.id ≡ id))
last_with_sound id [] found row h = inl h
last_with_sound id (r ∷ rows) found row h = elim (Bool-cases (r.id == id)) [
  | inl same ↦ elim (last_with_sound id rows (some r) row (rw same at h)) [
    | inl e ↦
        let is_r : r ≡ row = cc e in
        inr (here (sym is_r), ap (λ x. x.id) (sym is_r) ∙ (string_eq_iff r.id id).0 same)
    | inr (m, e) ↦ inr (there m, e)
  ]
  | inr other ↦ elim (last_with_sound id rows found row (rw other at h)) [
    | inl e ↦ inl e
    | inr (m, e) ↦ inr (there m, e)
  ]
]

last_with_kept :
    (id : PortalAppId) (rows : List SelectPortalAppsRow) (row : SelectPortalAppsRow)
    → (last : SelectPortalAppsRow) × (last_with id rows (some row) ≡ some last)
last_with_kept id [] row = (row, refl)
last_with_kept id (r ∷ rows) row = elim (Bool-cases (r.id == id)) [
  | inl same ↦ rw same (last_with_kept id rows r)
  | inr other ↦ rw other (last_with_kept id rows row)
]

last_with_exists :
    (id : PortalAppId) (rows : List SelectPortalAppsRow) (found : Option SelectPortalAppsRow)
    (row : SelectPortalAppsRow)
    → Member row rows
    → row.id ≡ id
    → (last : SelectPortalAppsRow) × (last_with id rows found ≡ some last)
last_with_exists id [] found row m is_id = elim m [ ]
last_with_exists id (r ∷ rows) found row (here e) is_id =
    let same : (r.id == id) ≡ true = (string_eq_iff r.id id).1 (ap (λ x. x.id) (sym e) ∙ is_id) in
    rw same (last_with_kept id rows r)
last_with_exists id (r ∷ rows) found row (there m) is_id = last_with_exists id rows _ row m is_id

module _ (db : Database) where
  abbrev account_row : AccountId → Option AccountsRow
  account_row a = find (λ account. account.id == a) db.accounts

  -- The plans and the custom limits of the table of accounts, with the zero values for NULL and for an
  -- account that is not there.
  abbrev pub accounts_of : Accounts
  accounts_of = record {
    plan = λ a. text_or_zero (plan_of (account_row a));
    monthly_user_limit = λ a. int_or_zero (limit_of (account_row a));
  }

  joined_account :
      (column : Option GoString)
      → account_row [] ≡ none
      → find (λ a. is_column column a.id) db.accounts ≡ account_row (text_or_zero column)
  joined_account none no_empty = find_never db.accounts ∙ sym no_empty
  joined_account (some id) no_empty = refl

  module _ (keeps : KeepsSchema db) (rows : List SelectPortalAppsRow)
      (same : HaveSameMembers rows (select_portal_apps_query db)) where
    Member-row_iff :
        (row : SelectPortalAppsRow)
        → Member row rows
          ↔ ((app : PortalApplicationsRow) × Member app (in_use db) × (row ≡ row_of db app))
    Member-row_iff row =
        let is_map = select_portal_apps_query-eq-map db keeps in
        let mapped = Member-map (row_of db) row (in_use db) in
        (
          λ m. mapped.0 (subst (Member row) is_map ((same row).0 m)),
          λ m. (same row).1 (subst (Member row) (sym is_map) (mapped.1 m)),
        )

    pub rows_of_query-AreJoined : account_row [] ≡ none → AreJoined accounts_of rows
    rows_of_query-AreJoined no_empty = All-of_members _ rows (λ row m.
        let (app, _, e) = (Member-row_iff row).0 m in
        let joined = joined_account app.account_id no_empty in
        subst
          (λ r.
            (text_or_zero r.plan ≡ accounts_of.plan (text_or_zero r.account_id))
            × (int_or_zero r.monthly_user_limit
                ≡ accounts_of.monthly_user_limit (text_or_zero r.account_id)))
          (sym e)
          (ap (λ a. text_or_zero (plan_of a)) joined, ap (λ a. int_or_zero (limit_of a)) joined))

    application_unique :
        (app other : PortalApplicationsRow)
        → Member app (in_use db)
        → Member other (in_use db)
        → app.id ≡ other.id
        → app ≡ other
    application_unique app other m n e =
        let all = λ (x : PortalApplicationsRow).
          Member-matching (λ a. not a.deleted) x db.portal_applications in
        let first =
          find_unique (λ a. a.id) db.portal_applications keeps.applications_key ((all app).0 m).1 in
        let second =
          find_unique (λ a. a.id) db.portal_applications keeps.applications_key
            ((all other).0 n).1 in
        let as_other =
          subst (λ k. find (λ a. a.id == k) db.portal_applications ≡ some app) e first in
        cc (as_other, second)

    -- The last row with an ID is that of the application in use with the ID.
    pub last_row_iff :
        (id : PortalAppId) (row : SelectPortalAppsRow)
        → (last_with id rows none ≡ some row) ↔ (
            (app : PortalApplicationsRow) × Member app (in_use db)
            × (app.id ≡ id)
            × (row ≡ row_of db app))
    last_row_iff id row = (
      λ last. elim (last_with_sound id rows none row last) [
        | inl e ↦ cc e
        | inr (m, is_id) ↦
            let (app, used, e) = (Member-row_iff row).0 m in
            (app, used, ap (λ r. r.id) (sym e) ∙ is_id, e)
      ],
      λ (app, used, is_id, e).
          let member = (Member-row_iff row).1 (app, used, e) in
          let (last, found) = last_with_exists id rows none row member (ap (λ r. r.id) e ∙ is_id) in
          elim (last_with_sound id rows none last found) [
            | inl absent ↦ cc absent
            | inr (m, has_id) ↦
                let (other, other_used, e') = (Member-row_iff last).0 m in
                let same_app : app ≡ other =
                  application_unique app other used other_used
                    (is_id ∙ sym has_id ∙ ap (λ r. r.id) e') in
                found ∙ ap some (e' ∙ ap (row_of db) (sym same_app) ∙ sym e)
          ],
    )
