-- ===== src/Metrics.antt =====
-- What the program reports to Prometheus: metrics/auth_metrics.go. The client library is not
-- modelled: each call of it is an operation, on a vector, with its labels in the source's order.
-- Floats are a parameter: a type, the conversion from integers and the verb %.2f.
pub mod Gauge
pub mod Sizes
pub mod Server
pub mod Health
use path_external_auth_serve.Base.{GoString, bytes, GoMap, ℤ, format_int, List, [], ◌∷◌, map}

pub record Floats : Type 1 where
  pub Float : Type 0
  pub of_int : ℤ → Float
  pub fixed2 : Float → GoString

pub data VecKind : Type 0 where
  counter gauge histogram : VecKind

-- prometheus.NewCounterVec, NewGaugeVec, NewHistogramVec
pub record MetricVec : Type 0 where
  pub kind : VecKind
  pub subsystem : GoString
  pub name : GoString
  pub label_names : List GoString

pub data MetricOp (F : Type 0) : Type 0 where
  register : MetricVec → MetricOp F
  inc : MetricVec → GoMap GoString → MetricOp F
  observe : MetricVec → GoMap GoString → F → MetricOp F
  set : MetricVec → GoMap GoString → F → MetricOp F

abbrev pub peas_process : GoString
peas_process = bytes "peas"

abbrev pub portal_app_store_source_type : GoString
portal_app_store_source_type = bytes "portal_app_store"

abbrev pub rate_limit_store_source_type : GoString
rate_limit_store_source_type = bytes "rate_limit_store"

abbrev pub postgres_error_type : GoString
postgres_error_type = bytes "postgres_error"

abbrev pub bigquery_error_type : GoString
bigquery_error_type = bytes "bigquery_error"

abbrev pub portal_apps_store_type : GoString
portal_apps_store_type = bytes "portal_apps"

abbrev pub accounts_store_type : GoString
accounts_store_type = bytes "accounts"

abbrev pub rate_limited_accounts_store_type : GoString
rate_limited_accounts_store_type = bytes "rate_limited_accounts"

abbrev pub accounts_over_monthly_limit_store_type : GoString
accounts_over_monthly_limit_store_type = bytes "accounts_over_monthly_limit"

abbrev pub auth_decision_authorized : GoString
auth_decision_authorized = bytes "authorized"

abbrev pub auth_decision_denied : GoString
auth_decision_denied = bytes "denied"

abbrev pub error_portal_app_not_found : GoString
error_portal_app_not_found = bytes "portal_app_not_found"

abbrev pub error_unauthorized : GoString
error_unauthorized = bytes "unauthorized"

abbrev pub error_rate_limited : GoString
error_rate_limited = bytes "rate_limited"

abbrev pub error_http_request_not_found : GoString
error_http_request_not_found = bytes "invalid_request_http_request_not_found"

abbrev pub error_path_not_provided : GoString
error_path_not_provided = bytes "invalid_request_path_not_provided"

abbrev pub error_no_portal_app_id : GoString
error_no_portal_app_id = bytes "invalid_request_no_portal_app_id"

abbrev pub auth_requests_total : MetricVec
auth_requests_total = record {
  kind = counter;
  subsystem = peas_process;
  name = bytes "auth_requests_total";
  label_names =
      bytes "portal_app_id" ∷ bytes "account_id" ∷ bytes "status" ∷ bytes "error_type" ∷ [];
}

abbrev pub auth_request_duration_seconds : MetricVec
auth_request_duration_seconds = record {
  kind = histogram;
  subsystem = peas_process;
  name = bytes "auth_request_duration_seconds";
  label_names = bytes "portal_app_id" ∷ bytes "status" ∷ [];
}

abbrev pub rate_limit_checks_total : MetricVec
rate_limit_checks_total = record {
  kind = counter;
  subsystem = peas_process;
  name = bytes "rate_limit_checks_total";
  label_names = bytes "account_id" ∷ bytes "plan_type" ∷ bytes "decision" ∷ [];
}

abbrev pub store_size_total : MetricVec
store_size_total = record {
  kind = gauge;
  subsystem = peas_process;
  name = bytes "store_size_total";
  label_names = bytes "store_type" ∷ [];
}

abbrev pub account_usage_total : MetricVec
account_usage_total = record {
  kind = gauge;
  subsystem = peas_process;
  name = bytes "account_usage_total";
  label_names = bytes "account_id" ∷ bytes "plan_type" ∷ bytes "rate_limit" ∷ [];
}

abbrev pub rate_limited_accounts_total : MetricVec
rate_limited_accounts_total = record {
  kind = gauge;
  subsystem = peas_process;
  name = bytes "rate_limited_accounts_total";
  label_names =
      bytes "account_id" ∷ bytes "plan_type" ∷ bytes "monthly_usage" ∷ bytes "rate_limit" ∷ [];
}

abbrev pub data_source_refresh_errors_total : MetricVec
data_source_refresh_errors_total = record {
  kind = counter;
  subsystem = peas_process;
  name = bytes "data_source_refresh_errors_total";
  label_names = bytes "source_type" ∷ bytes "error_type" ∷ [];
}

abbrev pub registered_vectors : List MetricVec
registered_vectors =
    auth_requests_total ∷ auth_request_duration_seconds ∷ rate_limit_checks_total ∷ store_size_total
    ∷ account_usage_total ∷ rate_limited_accounts_total ∷ data_source_refresh_errors_total ∷ []

-- `init`: each vector is registered once
unfoldable pub init_metrics : {F : Type 0} → List (MetricOp F)
init_metrics = map register registered_vectors

module _ {F : Type 0} where
  unfoldable pub record_auth_request :
      (portal_app_id account_id status error_type : GoString) → F → List (MetricOp F)
  record_auth_request portal_app_id account_id status error_type duration =
      inc auth_requests_total (
        (bytes "portal_app_id", portal_app_id)
        ∷ (bytes "account_id", account_id)
        ∷ (bytes "status", status)
        ∷ (bytes "error_type", error_type)
        ∷ [])
      ∷ observe auth_request_duration_seconds
          ((bytes "portal_app_id", portal_app_id) ∷ (bytes "status", status) ∷ []) duration
      ∷ []

  unfoldable pub record_rate_limit_check :
      (account_id plan_type decision : GoString) → List (MetricOp F)
  record_rate_limit_check account_id plan_type decision =
      inc rate_limit_checks_total (
        (bytes "account_id", account_id)
        ∷ (bytes "plan_type", plan_type)
        ∷ (bytes "decision", decision)
        ∷ [])
      ∷ []

  unfoldable pub update_store_size : GoString → F → List (MetricOp F)
  update_store_size store_type size =
      set store_size_total ((bytes "store_type", store_type) ∷ []) size ∷ []

  unfoldable pub record_data_source_refresh_error : GoString → GoString → List (MetricOp F)
  record_data_source_refresh_error source_type error_type =
      inc data_source_refresh_errors_total
        ((bytes "source_type", source_type) ∷ (bytes "error_type", error_type) ∷ [])
      ∷ []

  unfoldable pub update_account_usage :
      (account_id plan_type : GoString) → F → ℤ → List (MetricOp F)
  update_account_usage account_id plan_type monthly_usage rate_limit =
      set account_usage_total
        ((bytes "account_id", account_id)
          ∷ (bytes "plan_type", plan_type)
          ∷ (bytes "rate_limit", format_int rate_limit)
          ∷ [])
        monthly_usage
      ∷ []

unfoldable pub update_rate_limited_accounts :
    (floats : Floats) (account_id plan_type : GoString)
    → floats.Float
    → ℤ
    → List (MetricOp floats.Float)
update_rate_limited_accounts floats account_id plan_type monthly_usage rate_limit =
    set rate_limited_accounts_total
      ((bytes "account_id", account_id)
        ∷ (bytes "plan_type", plan_type)
        ∷ (bytes "monthly_usage", floats.fixed2 monthly_usage)
        ∷ (bytes "rate_limit", format_int rate_limit)
        ∷ [])
      monthly_usage
    ∷ []
