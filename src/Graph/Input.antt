-- ===== src/Graph/Input.antt =====
-- graph/helpers.go and the input types of graph/model/models_gen.go: what a mutation accepts.
use go_fibe.Base.{
  ℤ, pos, ltb_ℤ, ltb, ◌&&◌, ◌||◌, not, Bool, true, Option, none, some, if◌then◌else◌, ℕ,
}
use go_fibe.Base.Exec.{Result, ok, err}
use go_fibe.Strings.{
  GoString, str, ◌==◌, is_empty, len, slice_to, join, fields, trim_space, to_lower, to_upper,
}
use go_fibe.Models
use go_fibe.Config.{Config}
use go_fibe.Security.{UrlError, normalize_monitor_url}
use go_fibe.Net.{Net}
use go_fibe.App.{AppError, url, message}
use go_fibe.Jobs.{type_rebuild_rollups, type_clear_cache, type_prune_events, type_reseed_demo}

-- The input types; an absent field is `none`.
pub record MonitorInput : Type 0 where
  pub name : GoString
  pub url : GoString
  pub method : Option GoString
  pub expected_status : Option ℤ
  pub interval_seconds : Option ℤ
  pub enabled : Option Bool

pub record IncidentInput : Type 0 where
  pub monitor_id : Option GoString
  pub title : GoString
  pub severity : Option GoString

abbrev pub value_or {ℓ} : {A : Type ℓ} → Option A → A → A
value_or none fallback = fallback
value_or (some value) fallback = value

abbrev pub cut : GoString → ℕ → GoString
cut trimmed limit = if ltb limit (len trimmed) then slice_to trimmed limit else trimmed

unfoldable pub clean_required : GoString → ℕ → GoString
clean_required value limit = cut (join (fields (trim_space value)) (str " ")) limit

abbrev pub rest_of_input :
    GoString → GoString → GoString → ℤ → ℤ → Bool → Result AppError Models.MonitorInput
rest_of_input name u method expected_status interval_seconds enabled =
    if not (method == str "GET") && not (method == str "HEAD")
    then err (message (str "method is invalid"))
    else if ltb_ℤ expected_status (pos 100) || ltb_ℤ (pos 599) expected_status
    then err (message (str "expected status is invalid"))
    else if ltb_ℤ interval_seconds (pos 15) || ltb_ℤ (pos 86400) interval_seconds
    then err (message (str "interval seconds is invalid"))
    else ok (record {
      name = name;
      url = u;
      method = method;
      expected_status = expected_status;
      interval_seconds = interval_seconds;
      enabled = enabled;
    })

abbrev pub with_url :
    GoString → MonitorInput → Result UrlError GoString → Result AppError Models.MonitorInput
with_url name input (err e) = err (url e)
with_url name input (ok u) =
    rest_of_input name u (to_upper (value_or input.method (str "GET")))
      (value_or input.expected_status (pos 200)) (value_or input.interval_seconds (pos 60))
      (value_or input.enabled true)

unfoldable pub validate_monitor_input :
    Net → Config → MonitorInput → Result AppError Models.MonitorInput
validate_monitor_input net cfg input =
    let name = clean_required input.name 120 in
    if is_empty name
    then err (message (str "name is required"))
    else with_url name input (normalize_monitor_url net cfg input.url)

abbrev severity_of : GoString → IncidentInput → Result AppError Models.IncidentInput
severity_of title input =
    let severity = to_lower (value_or input.severity (str "minor")) in
    if not (severity == str "minor")
      && not (severity == str "major")
      && not (severity == str "critical")
    then err (message (str "severity is invalid"))
    else ok (record { monitor_id = input.monitor_id; title = title; severity = severity })

-- The checks that OpenIncident makes of its input.
unfoldable pub validate_incident_input : IncidentInput → Result AppError Models.IncidentInput
validate_incident_input input =
    let title = clean_required input.title 160 in
    if is_empty title then err (message (str "title is required")) else severity_of title input

unfoldable pub maintenance_job_type : GoString → GoString
maintenance_job_type name =
    if name == str "rebuild_rollups"
    then type_rebuild_rollups
    else if name == str "clear_cache"
    then type_clear_cache
    else if name == str "prune_events"
    then type_prune_events
    else if name == str "reseed_demo"
    then type_reseed_demo
    else type_clear_cache
