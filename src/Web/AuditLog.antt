-- ===== src/Web/AuditLog.antt =====
-- apps/web/src/pages/AuditLog.tsx: the audit log with its filters and pages.
pub mod Laws
use morphia.Common.{
  ℕ, zero, suc, ◌+◌, ◌-◌, ◌*◌, ◌/◌, String, Bool, true, false, not, ◌&&◌, ◌||◌, Option, none, some,
  List, [], ◌∷◌, ◌++◌, any, filter, take, length, null?, nat_eq, ltb, leb, is_empty, is_some,
  prefix, starts_with, show, opt_map, ◌==◌, ◌<>◌, ◌or_null◌, if◌then◌else◌,
}
use morphia.Common.View.{embed, View, text, button, input, when}
use morphia.Types.{AuditEvent}
use morphia.Web.AuditStream
use morphia.Web.ListStates.{Query, QueryError, is_not_implemented, query_error, empty_state}

-- `PAGE_SIZE`
abbrev pub page_size : ℕ
page_size = 25

-- `eventCategory` of this page
unfoldable pub event_category : String → String
event_category type =
    if any (λ t. t == type)
      ("scope.modify" ∷ "auth.login" ∷ "auth.logout" ∷ "auth.failed" ∷ "role.change" ∷ [])
    then "authorization"
    else if starts_with type "run." || starts_with type "approval."
    then "execution"
    else if starts_with type "evidence."
    then "evidence"
    else if starts_with type "finding."
    then "finding"
    else if starts_with type "report."
    then "report"
    else "system"

-- `AuditLog`
pub record Page : Type 0 where
  pub event_type_filter : String
  pub cat_filter : String
  pub page : ℕ

unfoldable pub initial : Page
initial = record { event_type_filter = "all"; cat_filter = "all"; page = 1 }

-- `filtered`
unfoldable pub filtered : List AuditEvent → Page → List AuditEvent
unfolding event_category
filtered events s =
    let typed : List AuditEvent =
      if s.event_type_filter == "all"
      then events
      else filter (λ (e : AuditEvent). e.event_type == s.event_type_filter) events in
    if s.cat_filter == "all"
    then typed
    else filter (λ (e : AuditEvent). event_category e.event_type == s.cat_filter) typed

abbrev pub max : ℕ → ℕ → ℕ
max a b = if leb a b then b else a

abbrev pub min : ℕ → ℕ → ℕ
min a b = if leb a b then a else b

-- `Math.max(1, Math.ceil(n / PAGE_SIZE))`
unfoldable pub total_pages : ℕ → ℕ
total_pages n = max 1 ((n + (page_size - 1)) / page_size)

abbrev pub drop {ℓ} : {A : Type ℓ} → ℕ → List A → List A
drop zero xs = xs
drop (suc n) [] = []
drop (suc n) (x ∷ xs) = drop n xs

-- `xs.slice(start, end)` where `start <= end`
unfoldable pub slice {ℓ} : {A : Type ℓ} → (start stop : ℕ) → List A → List A
slice start stop xs = take (stop - start) (drop start xs)

-- `pageItems`
unfoldable pub page_items : ℕ → List AuditEvent → List AuditEvent
unfolding slice
page_items page items = slice ((page - 1) * page_size) (page * page_size) items

-- What the selects and the buttons do.
pub data Click : Type 0 where
  set_category : String → Click
  set_event_type : String → Click
  previous next retry : Click
  in_stream : (filter : String) → Click

unfoldable pub clicked : List AuditEvent → Click → Page → Page
unfolding filtered total_pages
clicked events (set_category c) s = record s { cat_filter = c; page = 1 }
clicked events (set_event_type t) s = record s { event_type_filter = t; page = 1 }
clicked events previous s = record s { page = max 1 (s.page - 1) }
clicked events next s = record s {
  page = min (total_pages (length (filtered events s))) (s.page + 1);
}
clicked events retry s = s
clicked events (in_stream f) s = s

-- The text for who acted, and for the target.
actor_text : Option String → String
actor_text none = "system"
actor_text (some a) =
    if is_empty a then "system" else if starts_with a "worker:" then a else prefix 8 a

target_text : AuditEvent → String
target_text e = elim e.target_type [
  | none ↦ "—"
  | some t ↦ if is_empty t then "—" else t <> " · " <> (opt_map (prefix 8) e.target_id or_null "")
]

event_rows : (locale : String → String) → List AuditEvent → View Click
unfolding actor_text target_text
event_rows locale [] = []
event_rows locale (e ∷ es) =
    text (locale e.created_at)
    ∷ text e.event_type
    ∷ text (actor_text e.actor_id)
    ∷ text (target_text e)
    ∷ text e.action
    ∷ event_rows locale es

-- The table and the line below it, for a list that is not empty.
unfoldable pub table : (locale : String → String) → ℕ → List AuditEvent → View Click
unfolding event_rows page_items total_pages show
table locale page items =
    let n : ℕ = length items in
    (text "Timestamp"
      ∷ text "Event"
      ∷ text "Actor"
      ∷ text "Target"
      ∷ text "Action"
      ∷ event_rows locale (page_items page items))
    ++ (text (
          "Showing "
          <> show ((page - 1) * page_size + 1)
          <> "–"
          <> show (min (page * page_size) n)
          <> " of "
          <> show n)
        ∷ button "Previous" (nat_eq page 1) previous
        ∷ text ("Page " <> show page <> " of " <> show (total_pages n))
        ∷ button "Next" (nat_eq page (total_pages n)) next
        ∷ [])

-- The page; `stream_filter` is the state of the stream.
unfoldable pub view :
    (locale time : String → String) (stream_filter : String)
    → Query (List AuditEvent)
    → Page
    → View Click
unfolding table filtered is_not_implemented query_error empty_state AuditStream.view
view locale time stream_filter q s =
    let events : List AuditEvent = q.data_of or_null [] in
    let items : List AuditEvent = filtered events s in
    let settled : Bool = not q.is_loading && not (is_some q.error) in
    (text "GOVERNANCE — AUDIT LOG"
      ∷ text "Immutable, append-only record · every security-relevant action · read-only"
      ∷ input s.cat_filter
      ∷ input s.event_type_filter
      ∷ when (settled && not (null? events)) (
          embed in_stream
            (AuditStream.view time "Live stream — most recent" 8 events stream_filter)))
    ++ (when (not (is_not_implemented q.error))
          (query_error "Failed to load audit log." retry q.error)
        ++ (when (is_not_implemented q.error || (settled && null? items)) (
              empty_state "No audit events yet"
                "Every auth event, scope change, run transition, and approval decision is recorded here automatically. The trail is append-only."
                [])
            ++ when (settled && not (null? items)) (table locale s.page items)))
