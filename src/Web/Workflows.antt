-- ===== src/Web/Workflows.antt =====
-- apps/web/src/pages/Workflows.tsx: the workflow templates, and the order in which a workflow's nodes are
-- drawn.
pub mod Laws
pub mod View
use morphia.Common.{
  ℕ, zero, suc, ◌+◌, String, Bool, true, false, not, Option, none, some, List, [], ◌∷◌, ◌++◌, any,
  filter, find, length, map, ◌==◌, ◌<|>◌, opt_map, if◌then◌else◌,
}
use morphia.Types.{
  WorkflowNode, WorkflowNodeType, entry, step, approval_gate, exit, Workflow, WorkflowStatus,
  active, draft,
}

is_type : WorkflowNodeType → WorkflowNodeType → Bool
is_type entry entry = true
is_type step step = true
is_type approval_gate approval_gate = true
is_type exit exit = true
is_type _ _ = false

node : String → WorkflowNodeType → String → List String → WorkflowNode
node id type name next = record { id = id; type = type; name = name; next = next }

-- `DEFAULT_WORKFLOWS`
unfoldable pub default_workflows : List Workflow
unfolding node
default_workflows =
    record {
      id = "standard_recon_to_report";
      name = "Standard Recon → Report";
      description =
          "Passive reconnaissance, scope-checked active scanning gated by approval, finding triage, and report generation.";
      version = 3;
      status = active;
      last_run_at = some "2026-08-01T14:22:00Z";
      created_at = "2026-05-12T09:00:00Z";
      nodes =
          node "entry" entry "Project Planning" ("passive_recon" ∷ [])
          ∷ node "passive_recon" step "Passive Recon" ("scope_check" ∷ [])
          ∷ node "scope_check" step "Scope Validation" ("plan_approval" ∷ [])
          ∷ node "plan_approval" approval_gate "Plan Approval" ("active_scan" ∷ [])
          ∷ node "active_scan" step "Active Scanning" ("action_approval" ∷ [])
          ∷ node "action_approval" approval_gate "Action Approval" ("triage" ∷ [])
          ∷ node "triage" step "Finding Triage" ("report" ∷ [])
          ∷ node "report" step "Report Generation" ("exit" ∷ [])
          ∷ node "exit" exit "Complete" []
          ∷ [];
    }
    ∷ record {
      id = "bug_bounty_triage";
      name = "Bug Bounty Triage";
      description =
          "Lightweight loop for continuous passive monitoring of bounty-program scope with human review before any active step.";
      version = 1;
      status = draft;
      last_run_at = none;
      created_at = "2026-07-20T11:00:00Z";
      nodes =
          node "entry" entry "Scope Sync" ("monitor" ∷ [])
          ∷ node "monitor" step "Passive Monitoring" ("review_gate" ∷ [])
          ∷ node "review_gate" approval_gate "Human Review" ("exit" ∷ [])
          ∷ node "exit" exit "Complete" []
          ∷ [];
    }
    ∷ []

-- `nodeById.get(id)`: of two nodes with one id, the later entry of the map stands.
unfoldable pub get_node : String → List WorkflowNode → Option WorkflowNode
get_node id [] = none
get_node id (n ∷ ns) = get_node id ns <|> (if n.id == id then some n else none)

-- `nodes.find((n) => n.type === "entry")`
unfoldable pub entry_node : List WorkflowNode → Option WorkflowNode
unfolding is_type
entry_node nodes = find (λ (n : WorkflowNode). is_type n.type entry) nodes

-- `visited.has(id)`
unfoldable pub seen : List String → String → Bool
seen visited id = any (λ v. v == id) visited

first_next : List WorkflowNode → List String → Option WorkflowNode
unfolding get_node
first_next nodes [] = none
first_next nodes (k ∷ ks) = get_node k nodes

unfoldable pub next_node : List WorkflowNode → WorkflowNode → Option WorkflowNode
unfolding first_next
next_node nodes n = first_next nodes n.next

-- What the loop has when it ends: `ordered` and `visited`.
pub record Walked : Type 0 where
  pub ordered : List WorkflowNode
  pub visited : List String

-- The node is put last, and its id among those visited.
unfoldable pub visit : WorkflowNode → Walked → Walked
visit n w = record { ordered = w.ordered ++ n ∷ []; visited = w.visited ++ n.id ∷ [] }

-- The `while` loop from the node `current` on, with fuel for its rounds; `none` where the fuel is used up.
unfoldable pub walk : ℕ → List WorkflowNode → Option WorkflowNode → Walked → Option Walked
unfolding seen next_node visit
walk fuel nodes none w = some w
walk zero nodes (some current) w = none
walk (suc fuel) nodes (some current) w = elim (seen w.visited current.id) [
  | true ↦ some w
  | false ↦ walk fuel nodes (next_node nodes current) (visit current w)
]

-- The nodes that the loop left out follow in the order of their declaration.
unfoldable pub append_rest : List WorkflowNode → Walked → List WorkflowNode
unfolding seen
append_rest nodes w = w.ordered ++ filter (λ (n : WorkflowNode). not (seen w.visited n.id)) nodes

-- `ordered` of `WorkflowGraph`, where its loop has one round more than there are nodes.
unfoldable pub linearize : List WorkflowNode → Option (List WorkflowNode)
unfolding entry_node walk append_rest
linearize nodes =
    opt_map (append_rest nodes)
      (walk (suc (length nodes)) nodes (entry_node nodes) (record { ordered = []; visited = [] }))

-- `stepCount` and `gateCount` of `WorkflowCard`
unfoldable pub step_count : Workflow → ℕ
unfolding is_type
step_count w = length (filter (λ (n : WorkflowNode). is_type n.type step) w.nodes)

unfoldable pub gate_count : Workflow → ℕ
unfolding is_type
gate_count w = length (filter (λ (n : WorkflowNode). is_type n.type approval_gate) w.nodes)
