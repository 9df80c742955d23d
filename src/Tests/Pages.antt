-- ===== src/Tests/Pages.antt =====
-- The pages of apps/web/src on small inputs.
use morphia.Common.{◌+◌, ◌-◌, ◌*◌, ◌≤◌, ◌≡◌, false, none, some, [], ◌∷◌, length, arith}
use morphia.Types.{Finding, candidate, high}
use morphia.Web.AuditLog.{page_items, total_pages, min, page_size, next, set_category, initial}
use morphia.Web.AuditLog.Laws.{pages, clicks, IsOnPage, pages_lem, page_items_lem, clicks-IsOnPage}
use morphia.Web.Routes.{route}
use morphia.Web.Routes.Laws.{exposes, route-guarded}
use morphia.Web.Findings.{Page}
use morphia.Tests.Components.{audit_events}

pages_lem_example : pages (total_pages (length audit_events)) audit_events ≡ audit_events
pages_lem_example = pages_lem audit_events

one_page : 1 ≤ total_pages 2
unfolding total_pages
one_page = omega arith

page_items_lem_example :
    (length (page_items 1 audit_events) + ((1 - 1) * page_size)
      ≡ min (1 * page_size) (length audit_events))
    × (length (page_items 1 audit_events) ≤ page_size)
    × (min 1 (length audit_events) ≤ length (page_items 1 audit_events))
page_items_lem_example = page_items_lem audit_events 1 (omega arith) one_page

clicks-IsOnPage_example :
    IsOnPage audit_events (clicks audit_events (next ∷ set_category "system" ∷ next ∷ []) initial)
clicks-IsOnPage_example = clicks-IsOnPage audit_events (next ∷ set_category "system" ∷ next ∷ [])

route-guarded_example : exposes (route ("runs" ∷ "r1" ∷ [])) ≡ false
route-guarded_example = route-guarded ("runs" ∷ "r1" ∷ [])

abbrev finding : Finding
finding = record {
  id = "f1";
  project_id = "p1";
  title = "Missing header";
  observation = "";
  hypothesis = "";
  verification_method = "";
  actual_result = "";
  expected_result = "";
  affected_scope = "";
  security_impact = "";
  uncertainty = "";
  severity = high;
  suggested_severity = none;
  cwe_id = none;
  cvss_vector = none;
  remediation = "";
  disclosure_status = "";
  state = candidate;
  creator_id = "u1";
  reviewer_id = none;
  created_at = "2026-08-01T14:22:00Z";
  updated_at = "2026-08-01T14:22:00Z";
}

abbrev clicked_page : Page
clicked_page = record { state_filter = some candidate; selected_id = some "f1" }
