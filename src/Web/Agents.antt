-- ===== src/Web/Agents.antt =====
-- apps/web/src/pages/Agents.tsx: the agent profiles that the client has, and the placeholder for changing one.
use morphia.Common.{String, false, Option, none, some, List, [], ◌∷◌, ◌++◌, length, show, ◌<>◌}
use morphia.Common.View.{View, text, button}
use morphia.Types.System.{AgentProfile, ApprovalLevel, no_approval, plan_only, action_level, full}

-- `DEFAULT_PROFILES`
unfoldable pub default_profiles : List AgentProfile
default_profiles =
    record {
      id = "project_planner";
      name = "Project Planner";
      purpose =
          "Decomposes a project's objectives into an ordered plan of engagements and runs, respecting scope boundaries.";
      allowed_tools = "read_scope" ∷ "read_engagements" ∷ "propose_plan" ∷ [];
      max_cost_usd = 2;
      approval_level = plan_only;
    }
    ∷ record {
      id = "scope_analyst";
      name = "Scope Analyst";
      purpose =
          "Validates that proposed targets fall within authorized scope rules before any active testing begins.";
      allowed_tools = "read_scope" ∷ "validate_target" ∷ "flag_out_of_scope" ∷ [];
      max_cost_usd = 1;
      approval_level = no_approval;
    }
    ∷ record {
      id = "passive_recon";
      name = "Passive Recon";
      purpose =
          "Performs non-intrusive reconnaissance — DNS enumeration, certificate transparency, public metadata gathering.";
      allowed_tools = "dns_lookup" ∷ "cert_search" ∷ "osint_search" ∷ "store_evidence" ∷ [];
      max_cost_usd = 5;
      approval_level = no_approval;
    }
    ∷ record {
      id = "active_scanner";
      name = "Active Scanner";
      purpose =
          "Runs authenticated and unauthenticated scans against in-scope assets. Requires action-level approval before executing.";
      allowed_tools = "port_scan" ∷ "vuln_scan" ∷ "http_probe" ∷ "store_evidence" ∷ [];
      max_cost_usd = 15;
      approval_level = action_level;
    }
    ∷ record {
      id = "exploit_researcher";
      name = "Exploit Researcher";
      purpose =
          "Investigates candidate findings for exploitability and drafts proof-of-concept steps. Highest-risk profile — requires full approval.";
      allowed_tools = "read_findings" ∷ "poc_sandbox" ∷ "store_evidence" ∷ "propose_finding" ∷ [];
      max_cost_usd = 25;
      approval_level = full;
    }
    ∷ record {
      id = "report_writer";
      name = "Report Writer";
      purpose =
          "Synthesizes verified findings and evidence into a structured report for a project.";
      allowed_tools = "read_findings" ∷ "read_evidence" ∷ "generate_report" ∷ [];
      max_cost_usd = 3;
      approval_level = plan_only;
    }
    ∷ []

-- `APPROVAL_LEVEL_LABEL`
approval_level_label : ApprovalLevel → String
approval_level_label no_approval = "No approval required"
approval_level_label plan_only = "Plan approval"
approval_level_label action_level = "Action-level approval"
approval_level_label full = "Full approval chain"

pub data Click : Type 0 where
  configure : AgentProfile → Click
  close : Click

-- `configuring`
unfoldable pub clicked : Click → Option AgentProfile → Option AgentProfile
clicked (configure p) configuring = some p
clicked close configuring = none

tool_texts : List String → View Click
tool_texts [] = []
tool_texts (t ∷ ts) = text t ∷ tool_texts ts

-- A card; a cost is printed with two decimals.
card : AgentProfile → View Click
unfolding approval_level_label tool_texts show
card p =
    (text p.name
      ∷ text (approval_level_label p.approval_level)
      ∷ text p.purpose
      ∷ text "Allowed Tools"
      ∷ text (show (length p.allowed_tools) <> " tools")
      ∷ text "Max Cost"
      ∷ text ("$" <> show p.max_cost_usd <> ".00")
      ∷ tool_texts p.allowed_tools)
    ++ button "Configure" false (configure p) ∷ []

cards : List AgentProfile → View Click
unfolding card
cards [] = []
cards (p ∷ ps) = card p ++ cards ps

-- `ConfigurePlaceholder`
placeholder : Option AgentProfile → View Click
placeholder none = []
placeholder (some p) =
    text ("Configure " <> p.name)
    ∷ text
        "Agent profile configuration is managed via server-side config files today. Editable in-app configuration (tool allowlists, cost caps, approval routing) is planned but not yet available."
    ∷ text
        "Coming soon: edit allowed tools, cost ceiling, and approval routing per profile directly from this dialog."
    ∷ button "Close" false close
    ∷ []

-- The page.
unfoldable pub view : Option AgentProfile → View Click
unfolding default_profiles cards placeholder
view configuring =
    (text "Agents"
      ∷ text "Config-driven agent profiles that govern what each run is permitted to do"
      ∷ text
          "Reference view. Agent profiles are defined in server-side config today; in-app management (GET /api/v1/agents) is on the roadmap."
      ∷ cards default_profiles)
    ++ placeholder configuring
