-- ===== src/Db/Dashboard.antt =====
-- Dashboard of internal/db/store.go.
use go_fibe.Base.{
  ℕ, suc, ◌+◌, ℤ, pos_part, neg_part, Option, none, some, List, [], ◌∷◌, length, count,
}
use go_fibe.Base.Exec.{ok}
use go_fibe.Strings.{str, ◌==◌}
use go_fibe.Models.{Monitor, Average, Dashboard}
use go_fibe.Db.Schema.{Tables}
use go_fibe.Db.Engine.{Action, query}
use go_fibe.Db.Incidents.{is_open}

abbrev add_latency : Option ℤ → Average → Average
add_latency none avg = avg
add_latency (some n) avg = record {
  positive = pos_part n + avg.positive;
  negative = neg_part n + avg.negative;
  rows = suc avg.rows;
}

-- Of the rows whose latency is not NULL.
abbrev latencies : List Monitor → Average
latencies [] = record { positive = 0; negative = 0; rows = 0 }
latencies (m ∷ ms) = add_latency m.last_latency_ms (latencies ms)

-- AVG is NULL where it has no rows.
abbrev avg_of : Average → Option Average
avg_of avg = elim avg.rows [ ℕ.zero ↦ none | suc n ↦ some avg ]

abbrev pub dashboard_of : Tables → Dashboard
dashboard_of t = record {
  monitor_count = length t.monitors;
  up_count = count (λ (m : Monitor). m.last_status == str "up") t.monitors;
  down_count = count (λ (m : Monitor). m.last_status == str "down") t.monitors;
  open_incident_count = count is_open t.incidents;
  avg_latency_ms = avg_of (latencies t.monitors);
}

unfoldable pub dashboard : Action Dashboard
dashboard = query λ now t. ok (dashboard_of t, t)
