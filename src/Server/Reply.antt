-- ===== src/Server/Reply.antt =====
-- apps/api/app/routers/worker.py: what a route of the worker comes to.
use morphia.Common.{ℕ, String, Bool, true, false, Option, none, some}
use morphia.Server.Tables.{Tables}

-- A route returns, or raises; what it wrote is rolled back when it raises, unless it was committed before.
pub data Reply {ℓ} (A : Type ℓ) : Type ℓ where
  ok : A → Reply A
  http_exception : (status_code : ℕ) (detail : String) → Reply A
  committed_exception : (status_code : ℕ) (detail : String) → Tables → Reply A

infixl 5 ◌>>=◌ ◌>>◌
abbrev pub ◌>>=◌ {ℓ κ} : {A : Type ℓ} {B : Type κ} → Reply A → (A → Reply B) → Reply B
ok a >>= k = k a
http_exception c d >>= k = http_exception c d
committed_exception c d t >>= k = committed_exception c d t

abbrev pub ◌>>◌ {κ} : {B : Type κ} → Reply (Unit {0}) → Reply B → Reply B
ok a >> k = k
http_exception c d >> k = http_exception c d
committed_exception c d t >> k = committed_exception c d t

abbrev pub raise_if : Bool → ℕ → String → Reply (Unit {0})
raise_if true c d = http_exception c d
raise_if false c d = ok tt

abbrev pub value_or_500 {ℓ} : {A : Type ℓ} → Option A → Reply A
value_or_500 none = http_exception 500 "Internal Server Error"
value_or_500 (some a) = ok a
