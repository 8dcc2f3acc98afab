-- ===== src/Auth/Authorizer/Keys.antt =====
-- Which headers the authorization by API key accepts: auth/authorizer_api_key.go.
use path_external_auth_serve.Base.{
  GoString, length, take, drop, take-append-drop, take-append, drop-append, length-append, ltb,
  Bool, subst, Bool-cases, ◌&&◌, ◌++◌, ◌<◌, returns, none, some, [], ◌∷◌, ◌≡◌, ◌≢◌, ◌↔◌, ◌⊎◌, inl,
  inr, refl, sym, ap, ◌∙◌, arith, true, ◌==◌, string_Eq, string_eq_iff, string_eq_refl,
}
use path_external_auth_serve.PortalApp.{Auth, PortalApp}
use path_external_auth_serve.Http.{Header, get}
use path_external_auth_serve.Auth.Names.{auth_header_key, api_key_prefix, err_unauthorized}
use path_external_auth_serve.Auth.Authorizer.{strip_prefix, authorize_request}

-- The value is "Bearer " and something more.
abbrev pub IsBearer : GoString → Type 0
IsBearer v = (rest : GoString) × (rest ≢ []) × (v ≡ api_key_prefix ++ rest)

-- A value that presents the key: behind "Bearer ", or bare. A bare key that is itself "Bearer " and
-- something more is not recognized, since the code strips it.
pub data Presents (v key : GoString) : Type 0 where
  bearer : v ≡ api_key_prefix ++ key → Presents v key
  bare : v ≡ key → ¬ IsBearer v → Presents v key

length-pos : (s : GoString) → s ≢ [] → 0 < length s
length-pos [] h = absurd (h refl)
length-pos (c ∷ s) h = omega arith

ne-nil_of_length : (s : GoString) → 0 < length s → s ≢ []
ne-nil_of_length [] h = absurd (omega arith)
ne-nil_of_length (c ∷ s) h = λ e. cc e

-- the test of the code
abbrev is_bearer : GoString → Bool
is_bearer v =
    ltb (length api_key_prefix) (length v) && (take (length api_key_prefix) v == api_key_prefix)

is_bearer-append : (rest : GoString) → rest ≢ [] → is_bearer (api_key_prefix ++ rest) ≡ true
is_bearer-append rest h = ground (
  arith,
  take-append api_key_prefix rest,
  length-append api_key_prefix rest,
  length-pos rest h,
  string_eq_refl api_key_prefix,
)

is_bearer_of_IsBearer : (v : GoString) → IsBearer v → is_bearer v ≡ true
is_bearer_of_IsBearer v (rest, more, e) =
    subst (λ w. is_bearer w ≡ true) (sym e) (is_bearer-append rest more)

strip_prefix-append : (rest : GoString) → rest ≢ [] → strip_prefix (api_key_prefix ++ rest) ≡ rest
unfolding strip_prefix
strip_prefix-append rest h =
    ground (arith, drop-append api_key_prefix rest, is_bearer-append rest h)

-- Either the value is a bearer's and the rest is taken, or it is taken as it is.
strip_prefix_cases :
    (v : GoString)
    → ((strip_prefix v ≢ []) × (v ≡ api_key_prefix ++ strip_prefix v))
      ⊎ ((strip_prefix v ≡ v) × (¬ IsBearer v))
unfolding strip_prefix
strip_prefix_cases v =
    let n = length api_key_prefix in
    elim (Bool-cases (is_bearer v)) [
      | inl test ↦
          let longer : n < length v = ground (arith, test) in
          let front : take n v ≡ api_key_prefix =
            (string_eq_iff (take n v) api_key_prefix).0 (ground (arith, test)) in
          let whole : v ≡ api_key_prefix ++ drop n v =
            sym (take-append-drop n v) ∙ ap (λ s. s ++ drop n v) front in
          let more : 0 < length (drop n v) =
            omega (arith, ap length whole, length-append api_key_prefix (drop n v)) in
          inl (rw test (ne-nil_of_length (drop n v) more, whole))
      | inr test ↦ inr (rw test refl, λ b. cc (is_bearer_of_IsBearer v b, test))
    ]

strip_prefix-eq_iff : (v key : GoString) → key ≢ [] → (strip_prefix v ≡ key) ↔ Presents v key
strip_prefix-eq_iff v key h = (
  λ e. elim (strip_prefix_cases v) [
    | inl (_, whole) ↦ bearer (whole ∙ ap (λ s. api_key_prefix ++ s) e)
    | inr (same, plain) ↦ bare (sym same ∙ e) plain
  ],
  elim [
    | bearer e ↦ ap strip_prefix e ∙ strip_prefix-append key h
    | bare e plain ↦ elim (strip_prefix_cases v) [
      | inl (more, whole) ↦ absurd (plain (strip_prefix v, more, whole))
      | inr (same, _) ↦ same ∙ e
    ]
  ],
)

strip_prefix-nil : strip_prefix [] ≡ []
unfolding strip_prefix
strip_prefix-nil = ground arith

-- What the method answers for an app with a key.
authorize_request_cases :
    (headers : Header) (portal_app : PortalApp) (auth : Auth)
    → portal_app.auth ≡ some auth
    → auth.api_key ≢ []
    → ((strip_prefix (get headers auth_header_key) ≡ auth.api_key)
        × (authorize_request headers portal_app ≡ returns none))
      ⊎ ((strip_prefix (get headers auth_header_key) ≢ auth.api_key)
          × (authorize_request headers portal_app ≡ returns (some err_unauthorized)))
unfolding authorize_request
authorize_request_cases headers portal_app auth has_auth has_key =
    let v = get headers auth_header_key in
    ground (
      arith,
      has_key,
      strip_prefix-nil,
      string_eq_iff v [],
      string_eq_iff (strip_prefix v) auth.api_key,
    )

-- For an app with a key, a request is let through exactly when its Authorization header presents
-- that key, behind "Bearer " or bare; every other request is refused as unauthorized. It never
-- panics.
pub authorize_request_iff :
    (headers : Header) (portal_app : PortalApp) (auth : Auth)
    → portal_app.auth ≡ some auth
    → auth.api_key ≢ []
    → ((authorize_request headers portal_app ≡ returns none)
        ↔ Presents (get headers auth_header_key) auth.api_key)
      × ((authorize_request headers portal_app ≡ returns none)
          ⊎ (authorize_request headers portal_app ≡ returns (some err_unauthorized)))
authorize_request_iff headers portal_app auth has_auth has_key =
    let (presents, stripped) =
      strip_prefix-eq_iff (get headers auth_header_key) auth.api_key has_key in
    elim (authorize_request_cases headers portal_app auth has_auth has_key) [
      | inl (same, accepted) ↦ ((λ _. presents same, λ _. accepted), inl accepted)
      | inr (differs, refused) ↦
          ((λ e. cc (e, refused), λ p. absurd (differs (stripped p))), inr refused)
    ]
