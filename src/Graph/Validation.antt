-- ===== src/Graph/Validation.antt =====
-- What the checks of graph/helpers.go let through.
use go_fibe.Base.{
  ℕ, ◌≤◌, ℤ, pos, ltb_ℤ, ◌≡◌, ◌≢◌, ◌↔◌, ◌⊎◌, ◌∙◌, refl, ap, sym, arith, Bool, true, false, ◌||◌, [],
  Bool-cases, inl, inr, ltb, negsuc,
}
use go_fibe.Base.Exec.{Result, ok, err}
use go_fibe.Strings.{GoString, str, is_empty, len, to_upper}
use go_fibe.Strings.Equality.{eq_iff}
use go_fibe.Strings.Cutting.{len-slice_to}
use go_fibe.Models
use go_fibe.Config.{Config}
use go_fibe.Security.{UrlError, normalize_monitor_url}
use go_fibe.Net.{Net}
use go_fibe.Maintenance.{exists}
use go_fibe.Graph.Input.{
  MonitorInput, validate_monitor_input, clean_required, cut, value_or, with_url, rest_of_input,
  maintenance_job_type,
}

-- A cleaned text has at most the given number of bytes.
pub clean_required_bound : (value : GoString) (limit : ℕ) → len (clean_required value limit) ≤ limit
unfolding clean_required
clean_required_bound value limit = bounded _
  where
    bounded : (s : GoString) → len (cut s limit) ≤ limit
    bounded s = elim (Bool-cases (ltb limit (len s))) [
      | inl long ↦ ground (arith, len-slice_to s limit)
      | inr short ↦ ground arith
    ]

-- Each maintenance task that exists is queued as the job of its own name.
maintenance_job_type_lem : (name : GoString) → exists name ≡ true → maintenance_job_type name ≡ name
unfolding exists maintenance_job_type
maintenance_job_type_lem name h = ground (
  arith,
  eq_iff name (str "rebuild_rollups"),
  eq_iff (str "rebuild_rollups") name,
  eq_iff name (str "clear_cache"),
  eq_iff (str "clear_cache") name,
  eq_iff name (str "prune_events"),
  eq_iff (str "prune_events") name,
  eq_iff name (str "reseed_demo"),
  eq_iff (str "reseed_demo") name,
)

abbrev Between : ℕ → ℕ → ℤ → Type 0
Between low high z = (n : ℕ) × (z ≡ pos n) × (low ≤ n) × (n ≤ high)

Between-iff :
    (low high : ℕ) (z : ℤ)
    → ((ltb_ℤ z (pos low) || ltb_ℤ (pos high) z) ≡ false) ↔ Between low high z
Between-iff low high (pos n) =
    (λ h. (n, refl, ground arith, ground arith), λ (m, e, l, r). ground arith)
Between-iff low high (negsuc n) = (λ h. ground arith, λ (m, e, l, r). ground arith)

-- What validateMonitorInput makes of an input.
pub record Accepts (net : Net) (cfg : Config) (input : MonitorInput) (m : Models.MonitorInput)
    : Type 0 where
  pub name_cleaned : m.name ≡ clean_required input.name 120
  pub named : m.name ≢ []
  pub url_normalized : normalize_monitor_url net cfg input.url ≡ ok m.url
  pub method_upper : m.method ≡ to_upper (value_or input.method (str "GET"))
  pub method_known : (m.method ≡ str "GET") ⊎ (m.method ≡ str "HEAD")
  pub status_given : m.expected_status ≡ value_or input.expected_status (pos 200)
  pub status_bound : Between 100 599 m.expected_status
  pub interval_given : m.interval_seconds ≡ value_or input.interval_seconds (pos 60)
  pub interval_bound : Between 15 86400 m.interval_seconds
  pub enabled_given : m.enabled ≡ value_or input.enabled true

module _ (name u method : GoString) (status interval : ℤ) (enabled : Bool) where
  abbrev checked : Models.MonitorInput
  checked = record {
    name = name;
    url = u;
    method = method;
    expected_status = status;
    interval_seconds = interval;
    enabled = enabled;
  }

  rest_iff :
      (m : Models.MonitorInput)
      → (rest_of_input name u method status interval enabled ≡ ok m) ↔ (
          ((method ≡ str "GET") ⊎ (method ≡ str "HEAD"))
          × Between 100 599 status
          × Between 15 86400 interval
          × (m ≡ checked))
  rest_iff m = (
    λ h. (
      ground (arith, eq_iff method (str "GET"), eq_iff method (str "HEAD")),
      (Between-iff 100 599 status).0 (ground arith),
      (Between-iff 15 86400 interval).0 (ground arith),
      ground arith,
    ),
    λ (known, s, i, same).
        let s' = (Between-iff 100 599 status).1 s in
        let i' = (Between-iff 15 86400 interval).1 i in
        ground (arith, known, s', i', same, eq_iff method (str "GET"), eq_iff method (str "HEAD")),
  )

module _ (net : Net) (cfg : Config) (input : MonitorInput) (m : Models.MonitorInput) where
  with_url_ok :
      (name : GoString) (r : Result UrlError GoString)
      → with_url name input r ≡ ok m
      → (u : GoString) × (r ≡ ok u) × (with_url name input (ok u) ≡ ok m)
  with_url_ok name (ok u) h = (u, refl, h)
  with_url_ok name (err e) h = cc

  -- validateMonitorInput accepts exactly the inputs within its bounds - a name that is not empty, a
  -- URL that NormalizeMonitorURL accepts, GET or HEAD, a status of 100 to 599, an interval of 15 to
  -- 86400 seconds - and returns them cleaned and with the defaults filled in.
  pub validate_monitor_input_iff :
      (validate_monitor_input net cfg input ≡ ok m) ↔ Accepts net cfg input m
  unfolding validate_monitor_input is_empty
  validate_monitor_input_iff = (sound, complete)
    where
      sound : validate_monitor_input net cfg input ≡ ok m → Accepts net cfg input m
      sound h =
          let (u, e, h') =
            with_url_ok (clean_required input.name 120) (normalize_monitor_url net cfg input.url)
              (ground arith) in
          let (known, s, i, same) = (rest_iff _ u _ _ _ _ m).0 h' in
          record {
            name_cleaned = ap (λ (r : Models.MonitorInput). r.name) same;
            named = ground arith;
            url_normalized = e ∙ ap (λ (r : Models.MonitorInput). ok r.url) (sym same);
            method_upper = ap (λ (r : Models.MonitorInput). r.method) same;
            method_known = ground arith;
            status_given = ap (λ (r : Models.MonitorInput). r.expected_status) same;
            status_bound = rw (ap (λ (r : Models.MonitorInput). r.expected_status) same) s;
            interval_given = ap (λ (r : Models.MonitorInput). r.interval_seconds) same;
            interval_bound = rw (ap (λ (r : Models.MonitorInput). r.interval_seconds) same) i;
            enabled_given = ap (λ (r : Models.MonitorInput). r.enabled) same;
          }

      complete : Accepts net cfg input m → validate_monitor_input net cfg input ≡ ok m
      complete v =
          let name = clean_required input.name 120 in
          let full : is_empty name ≡ false = ground (arith, v.named, v.name_cleaned) in
          let method = to_upper (value_or input.method (str "GET")) in
          let status = value_or input.expected_status (pos 200) in
          let interval = value_or input.interval_seconds (pos 60) in
          rw (full, v.url_normalized)
            ((rest_iff name m.url method status interval (value_or input.enabled true) m).1 (
              rw (sym v.method_upper) v.method_known,
              rw (sym v.status_given) v.status_bound,
              rw (sym v.interval_given) v.interval_bound,
              ground (
                arith, v.name_cleaned, v.method_upper, v.status_given, v.interval_given,
                v.enabled_given,
              ),
            ))
