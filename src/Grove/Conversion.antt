-- ===== src/Grove/Conversion.antt =====
-- From the rows of the query to the map of portal apps: postgres/grove/portal_app.go and the query
-- of postgres/grove/sqlc.
use mathlib.Core.List.{append_assoc, append-nil}
use path_external_auth_serve.Base.{
  GoString, GoMap, lookup, insert, lookup-insert, insert-HasDistinctKeys, HasDistinctKeys, Result,
  ok, err, Option, none, some, List, [], ◌∷◌, ◌++◌, map, ◌≡◌, ◌↔◌, refl, sym, ap, ◌∙◌, arith,
  if◌then◌else◌, ◌==◌, string_Eq, string_eq_iff,
}
use path_external_auth_serve.PortalApp.{PortalAppId, PortalApp}
use path_external_auth_serve.Grove.{
  SelectPortalAppsRow, app_of_row, sqlc_portal_apps_to_portal_app_row, convert_to_portal_app,
  add_rows, sqlc_portal_apps_to_portal_apps, Cursor, scan_rows, select_portal_apps,
}

-- The app of the last row with the ID.
abbrev pub last_row : PortalAppId → List SelectPortalAppsRow → Option PortalApp → Option PortalApp
last_row id [] found = found
last_row id (row ∷ rows) found =
    last_row id rows (if row.id == id then some (app_of_row row) else found)

lookup-add_rows :
    (id : PortalAppId) (rows : List SelectPortalAppsRow) (apps : GoMap PortalApp)
    → lookup id (add_rows rows apps) ≡ last_row id rows (lookup id apps)
unfolding add_rows
lookup-add_rows id [] apps = refl
lookup-add_rows id (row ∷ rows) apps =
    lookup-add_rows id rows (insert row.id (app_of_row row) apps)
    ∙ ap (last_row id rows) (lookup-insert row.id id (app_of_row row) apps)

-- The map holds, under each ID, the app of the last row with that ID, and nothing else.
pub lookup-sqlc_portal_apps_to_portal_apps :
    (id : PortalAppId) (rows : List SelectPortalAppsRow)
    → lookup id (sqlc_portal_apps_to_portal_apps rows) ≡ last_row id rows none
unfolding sqlc_portal_apps_to_portal_apps lookup
lookup-sqlc_portal_apps_to_portal_apps id rows = lookup-add_rows id rows []

last_row_keyed :
    (id : PortalAppId) (rows : List SelectPortalAppsRow) (found : Option PortalApp)
    → ((app : PortalApp) → found ≡ some app → app.id ≡ id)
    → (app : PortalApp) → last_row id rows found ≡ some app
    → app.id ≡ id
unfolding convert_to_portal_app sqlc_portal_apps_to_portal_app_row
last_row_keyed id [] found keyed app h = keyed app h
last_row_keyed id (row ∷ rows) found keyed app h =
    last_row_keyed id rows _ (λ other e. ground (arith, keyed other, string_eq_iff row.id id)) app h

-- The app under an ID has that ID.
sqlc_portal_apps_to_portal_apps_keyed :
    (id : PortalAppId) (rows : List SelectPortalAppsRow) (app : PortalApp)
    → lookup id (sqlc_portal_apps_to_portal_apps rows) ≡ some app
    → app.id ≡ id
sqlc_portal_apps_to_portal_apps_keyed id rows app h =
    last_row_keyed id rows none (λ other e. cc e) app
      (sym (lookup-sqlc_portal_apps_to_portal_apps id rows) ∙ h)

add_rows-HasDistinctKeys :
    (rows : List SelectPortalAppsRow) (apps : GoMap PortalApp)
    → HasDistinctKeys apps
    → HasDistinctKeys (add_rows rows apps)
unfolding add_rows
add_rows-HasDistinctKeys [] apps d = d
add_rows-HasDistinctKeys (row ∷ rows) apps d =
    add_rows-HasDistinctKeys rows _ (insert-HasDistinctKeys row.id (app_of_row row) apps d)

pub sqlc_portal_apps_to_portal_apps-HasDistinctKeys :
    (rows : List SelectPortalAppsRow) → HasDistinctKeys (sqlc_portal_apps_to_portal_apps rows)
unfolding sqlc_portal_apps_to_portal_apps
sqlc_portal_apps_to_portal_apps-HasDistinctKeys rows = add_rows-HasDistinctKeys rows [] tt

scan_rows_ok :
    (scans : List (Result SelectPortalAppsRow)) (failure : Option GoString)
    (items rows : List SelectPortalAppsRow)
    → scan_rows scans failure items ≡ ok rows
    → (read : List SelectPortalAppsRow) × (scans ≡ map ok read)
      × (failure ≡ none)
      × (rows ≡ items ++ read)
unfolding scan_rows
scan_rows_ok [] none items rows h =
    ([], refl, refl, (let same : rows ≡ items = cc in same ∙ sym (append-nil items)))
scan_rows_ok [] (some m) items rows h = cc
scan_rows_ok (err m ∷ scans) failure items rows h = cc
scan_rows_ok (ok row ∷ scans) failure items rows h =
    let (read, e, f, g) = scan_rows_ok scans failure (items ++ row ∷ []) rows h in
    (row ∷ read, ap (◌∷◌ (ok row)) e, f, g ∙ append_assoc items (row ∷ []) read)

scan_rows-map :
    (read items : List SelectPortalAppsRow)
    → scan_rows (map ok read) none items ≡ ok (items ++ read)
unfolding scan_rows
scan_rows-map [] items = rw append-nil
scan_rows-map (row ∷ read) items =
    scan_rows-map read (items ++ row ∷ []) ∙ ap ok (append_assoc items (row ∷ []) read)

-- The query gives rows exactly when every row was scanned and the cursor ended without an error,
-- and then it gives all of them in order: a partial result is never returned.
pub select_portal_apps_iff :
    (cursor : Cursor) (rows : List SelectPortalAppsRow)
    → (select_portal_apps (ok cursor) ≡ ok rows)
      ↔ ((cursor.scans ≡ map ok rows) × (cursor.failure ≡ none))
unfolding select_portal_apps
select_portal_apps_iff cursor rows = (
  λ h.
      let (read, e, f, g) = scan_rows_ok cursor.scans cursor.failure [] rows h in
      (e ∙ ap (map ok) (sym g), f),
  λ h. rw (h.0, h.1) (scan_rows-map rows []),
)
