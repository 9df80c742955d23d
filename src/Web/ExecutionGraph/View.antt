-- ===== src/Web/ExecutionGraph/View.antt =====
-- apps/web/src/components/ExecutionGraph.tsx: what the component draws. A browser shows one of the two
-- lists of nodes, by the width of its window.
use morphia.Common.{
  String, Bool, false, Option, none, some, List, [], ◌∷◌, ◌++◌, find, is_empty, ◌==◌, ◌<>◌,
  if◌then◌else◌,
}
use morphia.Common.View.{View, text, button}
use morphia.Types.{Run, RunEvent, RunStep}
use morphia.Web.ExecutionGraph.{
  NodeState, pending, active, passed, blocked, failed, awaiting, completed, GraphNode,
}
use morphia.Web.ExecutionGraph.Stages.{derive_graph}

-- A click on a node, or on the button that closes its detail.
pub data Click : Type 0 where
  on_node : (id : String) → Click
  close : Click

-- `setSelected` of both: a click on the selected node clears the selection.
unfoldable pub clicked : Click → Option String → Option String
clicked close selected = none
clicked (on_node id) none = some id
clicked (on_node id) (some s) = if s == id then none else some id

-- `node.state.toUpperCase()`
state_name : NodeState → String
state_name pending = "PENDING"
state_name active = "ACTIVE"
state_name passed = "PASSED"
state_name blocked = "BLOCKED"
state_name failed = "FAILED"
state_name awaiting = "AWAITING"
state_name completed = "COMPLETED"

-- The badge of a node in the wide list.
badge : NodeState → String
badge awaiting = "ACTION REQUIRED"
badge blocked = "BLOCKED"
badge active = "ACTIVE"
badge _ = ""

unfoldable pub wide : List GraphNode → View Click
unfolding badge
wide [] = []
wide (n ∷ ns) = button (n.label <> n.sublabel <> badge n.state) false (on_node n.id) ∷ wide ns

unfoldable pub narrow : List GraphNode → View Click
unfolding state_name
narrow [] = []
narrow (n ∷ ns) =
    button (n.label <> n.sublabel <> state_name n.state) false (on_node n.id) ∷ narrow ns

-- `selectedNode`
unfoldable pub selected_node : Option String → List GraphNode → Option GraphNode
selected_node none ns = none
selected_node (some s) ns = find (λ (n : GraphNode). n.id == s) ns

by : Option String → String
by none = ""
by (some a) = if is_empty a then "" else "· " <> a

stamp : (locale : String → String) → Option String → Option String → View Click
unfolding by
stamp locale none actor = []
stamp locale (some t) actor = if is_empty t then [] else text (locale t <> " " <> by actor) ∷ []

-- The panel below the nodes.
unfoldable pub detail : (locale : String → String) → Option GraphNode → View Click
unfolding stamp
detail locale none = []
detail locale (some n) =
    (text (n.label <> " · " <> n.sublabel) ∷ text n.detail ∷ stamp locale n.timestamp n.actor)
    ++ button "Close" false close ∷ []

-- The component; `is_wide` says which of the lists is shown.
unfoldable pub view :
    (locale : String → String) (is_wide : Bool)
    → Run
    → List RunEvent
    → List RunStep
    → (selected : Option String) → View Click
unfolding wide narrow detail selected_node
view locale is_wide run events steps selected =
    let nodes : List GraphNode = derive_graph run events steps in
    (if is_wide then wide nodes else narrow nodes)
    ++ detail locale (selected_node selected nodes)
    ++ (text "passed" ∷ text "active" ∷ text "awaiting" ∷ text "blocked" ∷ text "pending" ∷ [])
