-- ===== src/Settlement/Service.antt =====
-- cmd/settlement-service: the periodic job of reconciliation.go, and the two routes of main.go.
use q_pay_flow.Base.{ℕ, ◌*◌, String, Bool, List, [], ◌∷◌, if◌then◌else◌, ◌==◌}
use q_pay_flow.Leader.{Elector, second}
use q_pay_flow.Settlement.Reconciliation.{AuditReport, run_audit}
use q_pay_flow.Schema.{Tables}

-- `NewReconciliationJob`: an interval that is not positive becomes thirty seconds.
abbrev pub job_interval : ℕ → ℕ
job_interval interval = if interval == 0 then 30 * second else interval

-- What an audit finds: the tables, and the calls that fail.
pub record Audited : Type 0 where
  pub tables : Tables
  pub query_down : Bool
  pub scan_down : Bool
  pub three_way_down : Bool

abbrev pub audit : Audited → AuditReport
audit a = run_audit a.query_down a.scan_down a.three_way_down a.tables

-- What wakes the loop of `Start`.
pub data Wake : Type 0 where
  done : Wake
  tick : Audited → Wake

abbrev pub periodic : List Wake → List AuditReport
periodic [] = []
periodic (done ∷ wakes) = []
periodic (tick a ∷ wakes) = audit a ∷ periodic wakes

-- `Start`: the reports that it logs. The first audit does not wait for the ticker.
unfoldable pub start : Audited → List Wake → List AuditReport
start at_once wakes = audit at_once ∷ periodic wakes

-- `GET /health`: the role that it tells, and the candidate's id.
abbrev pub health_role : Elector → String × String
health_role e = (if e.is_leader then "LEADER" else "FOLLOWER", e.instance_id)

-- `POST /reconcile/now`: 200 whatever the audit finds, and whether or not this candidate leads.
unfoldable pub reconcile_now : Audited → ℕ × AuditReport
reconcile_now a = (200, audit a)
