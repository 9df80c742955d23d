-- ===== src/Web/RunDetail/Screen.antt =====
-- apps/web/src/pages/RunDetail.tsx: the whole page of a run, for what its queries hold.
use morphia.Common.{
  String, Bool, Option, List, [], ◌∷◌, ◌++◌, is_some, opt_map, ◌or_null◌, if◌then◌else◌,
}
use morphia.Common.View.{View, text, when, embed}
use morphia.Types.{Run, RunEvent, RunStep, Project, EvidenceArtifact}
use morphia.Web.Requests.{RunAction}
use morphia.Web.ListStates.{Query, error_state, message_of}
use morphia.Web.ApprovalGate
use morphia.Web.ApprovalGate.{Gate}
use morphia.Web.ExecutionGraph.View.{Click as GraphClick, view as graph_view}
use morphia.Web.RunDetail.{Page, header, controls, ended, is_approval_state}
use morphia.Web.RunDetail.Panels.{plan_panel, step_panel, evidence_panel, event_panel}

-- What the other queries hold, and the states of the page and of the components in it.
pub record Data : Type 0 where
  pub projects : List Project
  pub engagement_name : Option String
  pub events : List RunEvent
  pub steps : List RunStep
  pub evidence : List EvidenceArtifact

pub record State : Type 0 where
  pub page : Page
  pub is_acting : Bool
  pub gate : Gate
  pub selected_node : Option String

pub data Click : Type 0 where
  retry : Click
  in_graph : GraphClick → Click
  in_gate in_page : RunAction → Click

-- The page once the run is there.
unfoldable pub loaded :
    (locale : String → String) (is_wide : Bool) → Data → State → Run → View Click
unfolding is_approval_state header controls ended plan_panel step_panel evidence_panel event_panel
loaded locale is_wide d s run =
    embed in_page (header locale run d.projects d.engagement_name)
    ++ (text "EXECUTION GRAPH — OPERATION PIPELINE"
          ∷ embed in_graph (graph_view locale is_wide run d.events d.steps s.selected_node)
        ++ (when (is_approval_state run.state)
              (embed in_gate (ApprovalGate.view locale run d.engagement_name s.gate))
            ++ (embed in_page (controls s.is_acting run s.page)
                ++ (embed in_page (ended run)
                    ++ (embed in_page (plan_panel run)
                        ++ (embed in_page (step_panel d.steps)
                            ++ (embed in_page (evidence_panel run d.evidence)
                                ++ embed in_page (event_panel locale d.events))))))))

-- The page: nothing to read while it is loading, and an error also where no run came.
unfoldable pub view :
    (locale : String → String) (is_wide : Bool) → Query Run → Data → State → View Click
unfolding loaded error_state message_of
view locale is_wide q d s =
    if q.is_loading
    then []
    else if is_some q.error
    then error_state
        (opt_map (message_of "Failed to load run.") q.error or_null "Failed to load run.") retry
    else opt_map (loaded locale is_wide d s) q.data_of
      or_null error_state "Failed to load run." retry
