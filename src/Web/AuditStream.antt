-- ===== src/Web/AuditStream.antt =====
-- apps/web/src/components/AuditStream.tsx: the latest audit events, filtered by category.
pub mod Laws
use morphia.Common.{
  ℕ, String, Bool, true, false, Option, none, some, List, [], ◌∷◌, ◌++◌, any, filter, take, null?,
  length, map, find, prefix, starts_with, is_empty, not, show, opt_map, ◌==◌, ◌<>◌, ◌or_null◌,
  if◌then◌else◌,
}
use morphia.Common.View.{View, text, button, when}
use morphia.Types.{AuditEvent}

-- `CATEGORIES`, in the order of its entries
unfoldable pub categories : List (String × List String)
categories =
    (
      "authorization",
      "scope.modify" ∷ "auth.login" ∷ "auth.logout" ∷ "auth.failed" ∷ "role.change" ∷ [],
    )
    ∷ (
      "execution",
      "run.transition" ∷ "run.claimed" ∷ "run.scope_denied" ∷ "run.step_completed"
          ∷ "approval.approved" ∷ "approval.decide" ∷ [],
    )
    ∷ ("human", "approval.decide" ∷ "approval.approved" ∷ "run.transition" ∷ [])
    ∷ ("evidence", "evidence.upload" ∷ "evidence.verify" ∷ [])
    ∷ ("finding", "finding.create" ∷ "finding.verify" ∷ [])
    ∷ ("report", "report.generate" ∷ "report.export" ∷ [])
    ∷ ("system", "project.create" ∷ "engagement.create" ∷ "user.suspend" ∷ [])
    ∷ []

-- `types.includes(type)`
unfoldable pub lists : List String → String → Bool
lists types type = any (λ t. t == type) types

-- The loop of `eventCategory`.
unfoldable pub category_in : List (String × List String) → String → String
unfolding lists
category_in [] type = "system"
category_in ((cat, types) ∷ rest) type = if lists types type then cat else category_in rest type

-- `eventCategory`
unfoldable pub event_category : String → String
unfolding category_in categories
event_category type = category_in categories type

unfoldable pub dot_color : String → String
dot_color type =
    if starts_with type "auth."
    then "var(--text-muted)"
    else if starts_with type "scope."
    then "var(--deny)"
    else if starts_with type "run."
    then "var(--active)"
    else if starts_with type "approval."
    then "var(--attention)"
    else if starts_with type "evidence."
    then "var(--pass)"
    else if starts_with type "finding."
    then "#f97316"
    else if starts_with type "report."
    then "#a78bfa"
    else "var(--neutral)"

-- `filtered`
unfoldable pub filtered : List AuditEvent → (filter : String) (max_items : ℕ) → List AuditEvent
unfolding event_category
filtered events chosen max_items =
    if chosen == "all"
    then take max_items events
    else take max_items (filter (λ (e : AuditEvent). event_category e.event_type == chosen) events)

-- The filters that the buttons set.
unfoldable pub filters : List String
filters =
    "all" ∷ "authorization" ∷ "execution" ∷ "human" ∷ "evidence" ∷ "finding" ∷ "report" ∷ "system"
    ∷ []

filter_buttons : List String → View String
filter_buttons [] = []
filter_buttons (c ∷ cs) = button c false c ∷ filter_buttons cs

-- `x && <…>` for a text that may be missing or empty
given : (String → String) → Option String → View String
given f none = []
given f (some s) = when (not (is_empty s)) (text (f s) ∷ [])

event_rows : (locale : String → String) → List AuditEvent → View String
unfolding event_category given
event_rows locale [] = []
event_rows locale (ev ∷ evs) =
    (text (locale ev.created_at)
      ∷ text ev.event_type
      ∷ text (event_category ev.event_type)
      ∷ given (λ a. "actor " <> prefix 8 a) ev.actor_id)
    ++ text ev.action
      ∷ given (λ t. t <> " " <> (opt_map (prefix 8) ev.target_id or_null "")) ev.target_type
    ++ given (λ a. a) ev.ip_address
    ++ event_rows locale evs

-- The component; an action is the filter that a button sets.
unfoldable pub view :
    (locale : String → String) (title : String) (max_items : ℕ)
    → List AuditEvent
    → (filter : String) → View String
unfolding filtered filters filter_buttons event_rows show
view locale title max_items events chosen =
    if null? events
    then text "NO EVENTS YET — audit trail is append-only and begins at first auth or scope change"
      ∷ []
    else (text title ∷ text (show (length events) <> " events") ∷ filter_buttons filters)
      ++ event_rows locale (filtered events chosen max_items)
      ++ when (null? (filtered events chosen max_items))
          (text ("No events for filter “" <> chosen <> "”") ∷ [])

compact_rows : (time : String → String) → List AuditEvent → View String
compact_rows time [] = []
compact_rows time (ev ∷ evs) =
    text (time ev.created_at) ∷ text ev.event_type ∷ text ev.action ∷ compact_rows time evs

-- `CompactAuditStream`: the first six events, with no button.
unfoldable pub compact_view : (time : String → String) → List AuditEvent → View String
unfolding compact_rows
compact_view time events = compact_rows time (take 6 events)
