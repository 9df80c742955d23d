-- ===== src/Server/Plan.antt =====
-- apps/api/app/routers/worker.py: how `claim_run` reads the plan of a run, which is what a JSON text denotes.
use morphia.Common.{ℕ, zero, suc, String, Option, none, some, size, opt_bind, ◌or_null◌}
use morphia.Common.Json.{Json, Items, Fields, string, array, object, nil, cons, end, field, get}

-- `(run.plan or {}).get("steps", [])`
unfoldable pub plan_steps : Option Fields → Json
unfolding get
plan_steps plan = opt_bind plan (λ p. get p "steps") or_null array nil

abbrev pub count_items : Items → ℕ
count_items nil = 0
count_items (cons v vs) = suc (count_items vs)

abbrev pub count_fields : Fields → ℕ
count_fields end = 0
count_fields (field k v fs) = suc (count_fields fs)

-- `len(…)`, where it is no TypeError
unfoldable pub len : Json → Option ℕ
len (array vs) = some (count_items vs)
len (object fs) = some (count_fields fs)
len (string s) = some (size s)
len _ = none

abbrev pub nth_item : Items → ℕ → Option Json
nth_item nil n = none
nth_item (cons v vs) zero = some v
nth_item (cons v vs) (suc n) = nth_item vs n

abbrev pub as_object : Json → Option Fields
as_object (object fs) = some fs
as_object _ = none

-- `plan_steps[n]`, where it is there and has a method `get`
unfoldable pub step_def : Json → ℕ → Option Fields
step_def (array vs) n = opt_bind (nth_item vs n) as_object
step_def _ n = none

-- Python's `str` on what a JSON text denotes; `repr` is what it makes of anything that is not a text.
unfoldable pub str_of : (repr : Json → String) → Json → String
str_of repr (string s) = s
str_of repr v = repr v

-- `str(step_def.get(k, ""))`
unfoldable pub text_of : (repr : Json → String) → Fields → String → String
unfolding get str_of
text_of repr fs k = str_of repr (get fs k or_null string "")
