-- ===== src/Web/Settings.antt =====
-- apps/web/src/pages/Settings.tsx: the health of the services and the configuration that is no secret.
use morphia.Common.{
  String, false, Option, none, some, [], ◌∷◌, ◌++◌, show, ◌<>◌, ◌or_null◌, if◌then◌else◌,
}
use morphia.Common.View.{View, text, button}
use morphia.Types.System.{HealthState, health_ok, degraded, unknown, HealthCheck, SystemStatus}
use morphia.Web.ListStates.{Query, query_error}

-- `HEALTH_LABEL`
unfoldable pub health_label : HealthState → String
health_label health_ok = "Operational"
health_label degraded = "Degraded"
health_label unknown = "Unknown"

-- The only thing to ask for is another try.
pub data Click : Type 0 where
  refetch : Click

-- `ServiceCard`
unfoldable pub service_card :
    (name description : String) → HealthCheck → (extra : Option String) → View Click
unfolding health_label
service_card name description check extra =
    text name
    ∷ text (health_label check.status)
    ∷ text description
    ∷ text (extra or_null check.detail)
    ∷ []

-- `ConfigRow`
unfoldable pub config_row : (label value : String) → View Click
config_row label value = text label ∷ text value ∷ []

abbrev serving : (detail : String) → HealthCheck
serving detail = record { status = health_ok; detail = detail }

service_cards : (updated_at : String) → SystemStatus → View Click
unfolding service_card
service_cards updated_at s =
    service_card "API" "FastAPI process serving this page" (serving "serving")
      (some ("responded just now · request checked " <> updated_at))
    ++ (service_card "Database" "PostgreSQL system of record" s.database none
        ++ (service_card "Queue" "Redis job queue + heartbeats" s.redis none
            ++ (service_card "Worker" "Background execution (Redis heartbeat)" s.worker none
                ++ (service_card "Migrations" "Alembic schema revision" s.migration
                      (some ("revision " <> s.migration.detail))
                    ++ service_card "Provider" "Model provider for run steps" (serving s.provider)
                        (some (s.provider <> " · selection is process-wide, not per-run"))))))

config_rows : SystemStatus → View Click
unfolding config_row show
config_rows s =
    config_row "Environment" s.environment
    ++ (config_row "Version" s.version
        ++ (config_row "Storage backend" s.storage_backend
            ++ (config_row "Model provider" s.provider
                ++ (config_row "Session lifetime" (show s.session_lifetime_hours <> " hours")
                    ++ config_row "Debug mode" (if s.debug then "enabled" else "disabled")))))

posture : View Click
unfolding config_row
posture =
    config_row "Scope validation" "default-deny · API + worker"
    ++ (config_row "Approval gate" "human decision required"
        ++ (config_row "Self-approval" "justified + flagged in audit trail"
            ++ (config_row "Evidence integrity" "SHA-256 at capture"
                ++ (config_row "Upload validation" "size + type + signature"
                    ++ config_row "Audit trail" "append-only"))))

-- What is drawn of the status beside the title, and below it; `updated_at` and `checked_at` are as printed.
header : Option SystemStatus → View Click
header none = []
header (some s) = text ("v" <> s.version) ∷ text s.environment ∷ button "Refresh" false refetch ∷ []

status_view : (locale : String → String) (updated_at : String) → Option SystemStatus → View Click
unfolding service_cards config_rows posture
status_view locale updated_at none = []
status_view locale updated_at (some s) =
    service_cards updated_at s
    ++ ((text "Configuration"
          ∷ text "Non-secret values only. Secrets are environment-only and never exposed here."
          ∷ config_rows s)
        ++ ((text "Enforcement posture"
              ∷ text "Live controls, not documentation promises."
              ∷ posture)
            ++ text (
                "checked at "
                <> locale s.checked_at
                <> " · API keys, worker secrets, database credentials, and session secrets are never rendered.")
              ∷ []))

-- The page.
unfoldable pub view :
    (locale : String → String) (updated_at : String) → Query SystemStatus → View Click
unfolding header status_view query_error
view locale updated_at q =
    (text "System" ∷ text "Live service health and non-secret configuration" ∷ header q.data_of)
    ++ (query_error "Failed to load system status." refetch q.error
        ++ status_view locale updated_at q.data_of)
