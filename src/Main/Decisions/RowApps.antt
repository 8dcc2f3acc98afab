-- ===== src/Main/Decisions/RowApps.antt =====
-- The apps of the rows of Postgres, and what a request says about them.
use path_external_auth_serve.Base.{
  pos, lookup, Option, none, some, List, [], ◌∷◌, true, ◌≡◌, ◌≢◌, ◌↔◌, refl, sym, ap, ◌∙◌, arith,
  if◌then◌else◌, ◌==◌, string_Eq, Bool-cases, inl, inr,
}
use path_external_auth_serve.PortalApp.{PortalAppId, PortalApp, Auth}
use path_external_auth_serve.Http.{Header, get}
use path_external_auth_serve.Grove.{
  SelectPortalAppsRow, text_or_zero, bool_or_zero, app_of_row, convert_to_portal_app,
  sqlc_portal_apps_to_portal_app_row, get_auth_details, sqlc_portal_apps_to_portal_apps,
}
use path_external_auth_serve.Grove.Conversion.{last_row, lookup-sqlc_portal_apps_to_portal_apps}
use path_external_auth_serve.RateLimit.{get_rate_limit}
use path_external_auth_serve.Auth.Names.{auth_header_key}
use path_external_auth_serve.Auth.Messages.{CheckRequest}
use path_external_auth_serve.Auth.Authorizer.Keys.{Presents}
use path_external_auth_serve.Auth.Handler.{convert_map_to_header}
use path_external_auth_serve.Auth.Handler.View.{NamesApp}

-- The last row with the ID.
abbrev pub last_with :
    PortalAppId → List SelectPortalAppsRow → Option SelectPortalAppsRow → Option SelectPortalAppsRow
last_with id [] found = found
last_with id (row ∷ rows) found = last_with id rows (if row.id == id then some row else found)

-- A row whose key is required and not empty wants it presented.
abbrev pub HasKeyPresented : SelectPortalAppsRow → Header → Type 0
HasKeyPresented row headers =
    bool_or_zero row.secret_key_required ≡ true
    → text_or_zero row.secret_key ≢ []
    → Presents (get headers auth_header_key) (text_or_zero row.secret_key)

abbrev pub app_of : Option SelectPortalAppsRow → Option PortalApp
app_of none = none
app_of (some row) = some (app_of_row row)

last_row-app_of :
    (id : PortalAppId) (rows : List SelectPortalAppsRow) (found : Option SelectPortalAppsRow)
    → last_row id rows (app_of found) ≡ app_of (last_with id rows found)
last_row-app_of id [] found = refl
last_row-app_of id (row ∷ rows) found = elim (Bool-cases (row.id == id)) [
  | inl same ↦ rw same (last_row-app_of id rows (some row))
  | inr differs ↦ rw differs (last_row-app_of id rows found)
]

pub names_unique :
    (req : CheckRequest) (headers headers' : Header) (id id' : PortalAppId)
    → NamesApp req headers id
    → NamesApp req headers' id'
    → (headers ≡ headers') × (id ≡ id')
names_unique req headers headers' id id' n m =
    let same_http : n.http ≡ m.http = cc (n.present, m.present) in
    let same_headers : headers ≡ headers' =
      n.converted ∙ ap (λ http. convert_map_to_header http.headers) same_http ∙ sym m.converted in
    let same_id : id ≡ id' = cc (n.named, m.named, same_http, same_headers) in
    (same_headers, same_id)

pub row_key-authorized :
    (row : SelectPortalAppsRow) (headers : Header)
    → ((auth : Auth)
        → (app_of_row row).auth ≡ some auth
        → auth.api_key ≢ []
        → Presents (get headers auth_header_key) auth.api_key)
      ↔ HasKeyPresented row headers
unfolding convert_to_portal_app sqlc_portal_apps_to_portal_app_row get_auth_details
row_key-authorized row headers = (
  λ presents required nonempty.
      presents (record { api_key = text_or_zero row.secret_key }) (rw required refl) nonempty,
  λ presented auth set key. elim (Bool-cases (bool_or_zero row.secret_key_required)) [
    | inl required ↦
        let same : auth.api_key ≡ text_or_zero row.secret_key = ground (arith, set, required) in
        rw same (presented required (rw same at key))
    | inr optional ↦ cc (rw optional at set)
  ],
)

pub lookup-last_with :
    (id : PortalAppId) (rows : List SelectPortalAppsRow)
    → lookup id (sqlc_portal_apps_to_portal_apps rows) ≡ app_of (last_with id rows none)
lookup-last_with id rows =
    lookup-sqlc_portal_apps_to_portal_apps id rows ∙ last_row-app_of id rows none

pub app_of-some :
    (found : Option SelectPortalAppsRow) (app : PortalApp)
    → app_of found ≡ some app
    → (row : SelectPortalAppsRow) × (found ≡ some row) × (app ≡ app_of_row row)
app_of-some none app h = cc h
app_of-some (some row) app h = (row, refl, cc h)

pub get_rate_limit_unconfigured :
    (app : PortalApp) → app.rate_limit ≡ none → get_rate_limit app ≡ pos 0
unfolding get_rate_limit
get_rate_limit_unconfigured app h = rw h refl
