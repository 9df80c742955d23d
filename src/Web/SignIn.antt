-- ===== src/Web/SignIn.antt =====
-- apps/web/src/pages/SignIn.tsx: the form that signs a user in or registers one.
pub mod Laws
use Prim.Native.Char.{code}
use morphia.Common.{
  ℕ, String, Bool, true, false, Option, none, some, List, [], ◌∷◌, ◌++◌, trim, nat_eq, is_empty,
  ◌or_else◌, if◌then◌else◌,
}
use morphia.Common.View.{View, text, button, input, when}
use morphia.Types.{User}
use morphia.Web.Api.{
  Reply, Outcome, Client, resolved, resolved_undefined, api_error, type_error, syntax_error,
  network_error,
}
use morphia.Web.Auth.{LoginResponse, login, register}
use morphia.Web.Requests.{failure}

pub data Mode : Type 0 where
  to_login to_register : Mode

-- The state of the form and the place of the router.
pub record Form : Type 0 where
  pub mode : Mode
  pub display_name : String
  pub email : String
  pub password : String
  pub error : String
  pub loading : Bool
  pub location : String

-- `s.split("@")[0]`
unfoldable pub before_at : String → String
before_at String.[] = ""
before_at (String.◌∷◌ c s) =
    let rest = before_at s in if nat_eq (code c) b'@' then "" else String.◌∷◌ c rest

-- The request that the form makes, or the two of them.
unfoldable pub send :
    {W : Type 0} → Reply User → Reply LoginResponse → Form → Client W → Outcome User × Client W
unfolding trim before_at
send register_reply login_reply f c = elim f.mode [
  | to_register ↦
      register f.email f.password (trim f.display_name or_else before_at f.email) register_reply
        login_reply c
  | to_login ↦ login f.email f.password login_reply c
]

-- The lines of `handleSubmit` after the await, `finally` included.
unfoldable pub submitted : {T : Type 0} → Outcome T → Form → Form
unfolding failure
submitted o f = elim (failure "Network error. Please try again." o) [
  | none ↦ record f { location = "/operations"; loading = false }
  | some message ↦ record f { error = message; loading = false }
]

-- `handleSubmit`
unfoldable pub handle_submit :
    {W : Type 0} → Reply User → Reply LoginResponse → Form → Client W → Form × Client W
unfolding send submitted
handle_submit register_reply login_reply f c =
    let (o, c') = send register_reply login_reply f c in
    (submitted o (record f { error = ""; loading = true }), c')

-- The button below the form.
unfoldable pub switch_mode : Form → Form
switch_mode f = record f { mode = other f.mode; error = "" }
  where
    other : Mode → Mode
    other to_login = to_register
    other to_register = to_login

pub data Click : Type 0 where
  submit switch : Click

is_register : Mode → Bool
is_register to_register = true
is_register to_login = false

-- The form.
unfoldable pub view : Form → View Click
unfolding is_register
view f =
    let registers : Bool = is_register f.mode in
    (text "MORPHIA"
      ∷ text "UNREALISTICALLY REAL"
      ∷ text (if registers then "Create your account" else "Sign in to continue")
      ∷ when (if is_empty f.error then false else true) (text f.error ∷ []))
    ++ when registers (text "Display name" ∷ input f.display_name ∷ [])
    ++ (text "Email"
        ∷ input f.email
        ∷ text "Password"
        ∷ input f.password
        ∷ button
            (if f.loading
              then (if registers then "Creating account..." else "Signing in...")
              else (if registers then "Create account" else "Sign in"))
            f.loading submit
        ∷ button
            (if registers then "Already have an account? Sign in" else "Need an account? Register")
            false switch
        ∷ text "Human-in-the-loop orchestration for authorized security research"
        ∷ [])
