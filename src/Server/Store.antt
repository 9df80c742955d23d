-- ===== src/Server/Store.antt =====
-- apps/api/app/models/runs.py and audit.py: the tables that the run routes read and write, as lists,
-- oldest row first, and what a route returns. Columns that the database fills by itself (the key of an
-- event, an approval or an audit row, and the time stamps) are left out. A column that holds the
-- value of a RunState holds the state itself here; `same-name` of RunState.antt says that no two
-- states have one value.
use morphia.Common.{
  ℕ, String, ◌≡◌, refl, ap, Bool, true, false, Option, List, [], ◌∷◌, ◌++◌, map, ◌==◌, find,
  if◌then◌else◌,
}
use morphia.Common.Json.{Fields}
use morphia.RunState.{RunState}

pub record User : Type 0 where
  pub id : String

pub record Project : Type 0 where
  pub id : String
  pub owner_id : String

pub record Engagement : Type 0 where
  pub id : String
  pub project_id : String
  pub status : String

pub record Run : Type 0 where
  pub id : String
  pub project_id : String
  pub state : RunState
  pub title : String
  pub engagement_id : Option String
  pub plan : Option Fields
  pub agent_profile : Option String
  pub failure_reason : String
  pub created_by : String

pub record RunEvent : Type 0 where
  pub run_id : String
  pub event_type : String
  pub from_state : Option RunState
  pub to_state : Option RunState
  pub actor_id : Option String
  pub payload : Option Fields

pub record ApprovalRequest : Type 0 where
  pub run_id : String
  pub approval_type : String
  pub status : String
  pub requested_by : String
  pub decided_by : Option String
  pub justification : String

pub record AuditEvent : Type 0 where
  pub event_type : String
  pub actor_id : Option String
  pub target_type : Option String
  pub target_id : Option String
  pub action : String
  pub metadata_json : Option Fields

-- `jobs` is the Redis list of queued run ids.
pub record Store : Type 0 where
  pub projects : List Project
  pub engagements : List Engagement
  pub runs : List Run
  pub events : List RunEvent
  pub approvals : List ApprovalRequest
  pub audit : List AuditEvent
  pub jobs : List String

-- A route returns a value and the new tables, or raises HTTPException. Every exception of these
-- routes is raised before the first write, so the tables are then as they were.
pub data Result {ℓ} (A : Type ℓ) : Type ℓ where
  ok : A → Result A
  http_exception : (status_code : ℕ) (detail : String) → Result A

infixl 5 ◌>>=◌ ◌>>◌
abbrev pub ◌>>=◌ {ℓ κ} : {T : Type ℓ} {U : Type κ} → Result T → (T → Result U) → Result U
http_exception status_code detail >>= next = http_exception status_code detail
ok value >>= next = next value

abbrev pub ◌>>◌ {κ} : {U : Type κ} → Result (Unit {0}) → Result U → Result U
http_exception status_code detail >> next = http_exception status_code detail
ok done >> next = next

-- `if test: raise HTTPException(status_code, detail)`
abbrev pub raise_if : Bool → ℕ → String → Result (Unit {0})
raise_if true c d = http_exception c d
raise_if false c d = ok tt

-- `select(Run).where(Run.id == run_id)`, `scalar_one_or_none`
unfoldable pub select_run : String → List Run → Option Run
select_run run_id rs = find (λ r. r.id == run_id) rs

unfoldable pub select_project : String → List Project → Option Project
select_project project_id ps = find (λ p. p.id == project_id) ps

-- Writing back the columns of a row that was changed.
unfoldable pub write_run : Run → List Run → List Run
write_run r rs = map (λ q. if q.id == r.id then r else q) rs

-- `_record_event`
unfoldable pub record_event :
    Run → String → Option RunState → Option RunState → Option String → Option Fields → Store → Store
record_event run event_type from_state to_state actor_id payload db = record db {
  events =
      db.events
      ++ record {
        run_id = run.id;
        event_type = event_type;
        from_state = from_state;
        to_state = to_state;
        actor_id = actor_id;
        payload = payload;
      }
        ∷ [];
}

-- A route that returns went through each of its parts.
pub >>=-eq-ok {ℓ κ} :
    {T : Type ℓ} {U : Type κ} (part : Result T) (next : T → Result U) {u : U}
    → (part >>= next) ≡ ok u
    → (value : T) × (part ≡ ok value) × (next value ≡ ok u)
>>=-eq-ok (http_exception status_code detail) next returned = cc
>>=-eq-ok (ok value) next returned = (value, refl, returned)

pub raise_if-eq-ok {ℓ} :
    {B : Type ℓ} (test : Bool) (c : ℕ) (d : String) (k : Result B) {b : B}
    → (raise_if test c d >> k) ≡ ok b
    → (test ≡ false) × (k ≡ ok b)
raise_if-eq-ok true c d k h = cc
raise_if-eq-ok false c d k h = (refl, h)

abbrev or_value {ℓ} : {A : Type ℓ} → A → Result A → A
or_value d (ok a) = a
or_value d (http_exception c e) = d

pub ok-injective {ℓ} : {A : Type ℓ} {a b : A} → ok a ≡ ok b → a ≡ b
ok-injective {a = a} e = ap (or_value a) e
