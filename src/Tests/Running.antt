-- ===== src/Tests/Running.antt =====
-- The running server at a sample sequence of steps.
use path_external_auth_serve.Base.{
  inl, inr, arith, bytes, string_eq, has_prefix, trim_prefix, split, lookup, insert, ℕ, ℤ, pos,
  GoMap, All, ok, returns, none, some, List, [], ◌∷◌, ◌++◌, ◌≡◌, refl, true,
}
use path_external_auth_serve.PortalApp.{PortalAppId, AccountId, PortalApp}
use path_external_auth_serve.Http.{Header, add, get}
use path_external_auth_serve.Metrics.{MetricOp, record_auth_request, record_rate_limit_check}
use path_external_auth_serve.Store.{
  get_portal_app, get_account_portal_app, set_store_data, set_portal_apps_by_account_id,
}
use path_external_auth_serve.RateLimit.{
  update_account, RateLimitedAccounts, is_account_rate_limited, update_rate_limited_accounts_map,
}
use path_external_auth_serve.Auth.Names.{account_rate_limit_message}
use path_external_auth_serve.Auth.Messages.{
  CheckResponse, denied_response, too_many_requests, get_http, get_denied_check_response, err_body,
}
use path_external_auth_serve.Auth.Extractor.{extract_portal_app_id}
use path_external_auth_serve.Auth.Authorizer.{authorize_request}
use path_external_auth_serve.Auth.Handler.{check}
use path_external_auth_serve.Auth.Handler.View.{NamesApp}
use path_external_auth_serve.System.{
  System, Transition, update_one, publish, then_step, boot, handler_at, Reaches, stay,
}
use path_external_auth_serve.System.Accounts.{IsCovered, steps-IsCovered}
use path_external_auth_serve.System.Limited.{IsOverLimit, limited_accounts_sound}
use path_external_auth_serve.System.Progress.{Publishes}
use path_external_auth_serve.System.Completeness.{update_limits_account}
use path_external_auth_serve.RateLimit.Limits.{Exceeds, free}
use path_external_auth_serve.System.Requests.{too_many_requests_sound}
use path_external_auth_serve.System.Sequential.{update_rate_limited_accounts_as_steps}
use path_external_auth_serve.Tests.Samples.{floats, keyed_app, two_apps, by_path}

abbrev usages : GoMap ℤ
usages = (bytes "acc1", pos 1_000_001) ∷ (bytes "acc2", pos 4_000_000) ∷ []

abbrev Reported : AccountId → ℤ → Type 0
Reported a usage = lookup a usages ≡ some usage

usages-Reported : All (λ entry. Reported entry.0 entry.1) usages
unfolding lookup bytes string_eq
usages-Reported = (refl, (refl, tt))

-- The server after its first update.
abbrev updated : System
updated = record (boot two_apps) {
  limited =
      (update_rate_limited_accounts_map floats (get_account_portal_app (boot two_apps).store)
        (ok usages) []).0;
  updating = none;
}

first_update : Reaches floats Reported (boot two_apps) updated
unfolding boot
first_update =
    update_rate_limited_accounts_as_steps floats Reported (boot two_apps) usages usages-Reported
      refl

-- What the tests below compute with.
computing : Unit {0}
unfolding boot set_store_data set_portal_apps_by_account_id get_account_portal_app get_portal_app
    update_rate_limited_accounts_map check get_http extract_portal_app_id authorize_request add get
    has_prefix trim_prefix split lookup insert bytes string_eq is_account_rate_limited
computing = tt

known : get_account_portal_app (boot two_apps).store (bytes "acc1") ≡ some keyed_app
unfolding computing
known = refl

steps-IsCovered_example : IsCovered updated
steps-IsCovered_example = steps-IsCovered floats Reported two_apps first_update

over : is_account_rate_limited updated.limited (bytes "acc1") ≡ true
unfolding computing
over = refl

limited_accounts_sound_example : IsOverLimit Reported updated (bytes "acc1")
limited_accounts_sound_example =
    limited_accounts_sound Reported floats two_apps (bytes "acc1") first_update over

abbrev denial : CheckResponse
denial = get_denied_check_response account_rate_limit_message too_many_requests

abbrev elapsed : ℕ
elapsed = 7

abbrev denial_ops : List (MetricOp ℕ)
denial_ops =
    record_rate_limit_check (bytes "acc1") (bytes "PLAN_FREE") (bytes "rate_limited")
    ++ record_auth_request (bytes "app1") (bytes "acc1") (bytes "denied") (bytes "rate_limited")
        elapsed

denial_run :
    check (handler_at (boot two_apps) updated) elapsed by_path ≡ returns (denial, denial_ops)
unfolding computing
denial_run = refl

is_denied :
    denial.http_response
    ≡ denied_response too_many_requests (err_body too_many_requests account_rate_limit_message)
unfolding get_denied_check_response
is_denied = refl

too_many_requests_sound_example :
    (headers : Header) × (id : PortalAppId) × (app : PortalApp) × NamesApp by_path headers id
    × (get_portal_app (boot two_apps).store id ≡ some app)
    × IsOverLimit Reported updated app.account_id
too_many_requests_sound_example =
    too_many_requests_sound floats Reported two_apps elapsed by_path denial denial_ops
      (stay (boot two_apps)) first_update denial_run is_denied

-- An update with one account left, after the visit of that account, and with its map published.
abbrev one_left : System
one_left = record (boot two_apps) {
  updating = some (record { left = (bytes "acc1", pos 1_000_001) ∷ []; new_accounts = [] });
}

abbrev new_map : RateLimitedAccounts
new_map =
    (update_account floats (bytes "acc1") (get_account_portal_app one_left.store (bytes "acc1"))
      (pos 1_000_001) []).0

abbrev visited : System
visited = record one_left { updating = some (record { left = []; new_accounts = new_map }) }

abbrev published : System
published = record visited { limited = new_map; updating = none }

visit : Transition floats Reported one_left visited
visit = update_one one_left (bytes "acc1") (pos 1_000_001) [] [] refl

abbrev to_visited : Reaches floats Reported one_left visited
to_visited = then_step (stay one_left) visit

abbrev publishing : Transition floats Reported visited published
publishing = publish visited new_map refl

keyed_app-Exceeds : Exceeds keyed_app (pos 1_000_001)
keyed_app-Exceeds = free (record { monthly_user_limit = pos 0 }) refl refl (omega arith)

left_for : lookup (bytes "acc1") ((bytes "acc1", pos 1_000_001) ∷ []) ≡ some (pos 1_000_001)
unfolding lookup bytes string_eq
left_for = refl

quiet : ¬ Publishes floats Reported to_visited
unfolding visit
quiet (inl never) = never
quiet (inr now) = cc now

update_limits_account_example : is_account_rate_limited published.limited (bytes "acc1") ≡ true
update_limits_account_example =
    update_limits_account floats Reported (bytes "acc1") keyed_app (pos 1_000_001) keyed_app-Exceeds
      (record { left = (bytes "acc1", pos 1_000_001) ∷ []; new_accounts = [] }) to_visited
      publishing refl left_for known quiet refl
