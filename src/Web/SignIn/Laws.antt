-- ===== src/Web/SignIn/Laws.antt =====
-- apps/web/src/pages/SignIn.tsx: how a submission of the form ends.
use morphia.Common.{String, ◌≡◌, refl, ◌⊎◌, inl, inr, false, some, trim, ◌or_else◌}
use morphia.Types.{User}
use morphia.Web.Session.{set_current_user, get_current_user}
use morphia.Web.Api.{
  Reply, Outcome, resolved, resolved_undefined, api_error, type_error, syntax_error, network_error,
  Client,
}
use morphia.Web.Requests.{failure}
use morphia.Web.Auth.{LoginResponse, login, register, registered, signed_in, rethrow}
use morphia.Web.SignIn.{
  Mode, to_login, to_register, Form, before_at, send, submitted, handle_submit,
}

-- How a promise for a user ends whose fulfilment leaves the user in the session.
abbrev pub SignedIn : {W : Type 0} → Outcome User × Client W → Type 0
SignedIn (o, c) =
    ((u : User) × (o ≡ resolved u) × (get_current_user c.session ≡ some u))
    ⊎ ((message : String) × (failure "Network error. Please try again." o ≡ some message))

signed_in-SignedIn :
    {W : Type 0} (o : Outcome LoginResponse) (c : Client W) → SignedIn (signed_in o c)
unfolding signed_in rethrow failure get_current_user set_current_user
signed_in-SignedIn (resolved res) c = inl (res.user, refl, refl)
signed_in-SignedIn resolved_undefined c = inr (_, refl)
signed_in-SignedIn (api_error s d m) c = inr (_, refl)
signed_in-SignedIn type_error c = inr (_, refl)
signed_in-SignedIn syntax_error c = inr (_, refl)
signed_in-SignedIn network_error c = inr (_, refl)

login-SignedIn :
    {W : Type 0} (email password : String) (reply : Reply LoginResponse) (c : Client W)
    → SignedIn (login email password reply c)
unfolding login
login-SignedIn email password reply c = signed_in-SignedIn _ _

-- A registration that the server answers with no body cannot be told from one with a user.
registered-SignedIn :
    {W : Type 0} (o : Outcome User) (log_in : Client W → Outcome User × Client W) (c : Client W)
    → SignedIn (log_in c)
    → SignedIn (registered o log_in c)
unfolding registered failure
registered-SignedIn (resolved u) log_in c h = h
registered-SignedIn resolved_undefined log_in c h = h
registered-SignedIn (api_error s d m) log_in c h = inr (_, refl)
registered-SignedIn type_error log_in c h = inr (_, refl)
registered-SignedIn syntax_error log_in c h = inr (_, refl)
registered-SignedIn network_error log_in c h = inr (_, refl)

register-SignedIn :
    {W : Type 0} (email password display_name : String) (reply : Reply User)
    (login_reply : Reply LoginResponse) (c : Client W)
    → SignedIn (register email password display_name reply login_reply c)
unfolding register
register-SignedIn email password display_name reply login_reply c =
    registered-SignedIn _ (login email password login_reply) _
      (login-SignedIn email password login_reply _)

send-SignedIn :
    {W : Type 0} (reply : Reply User) (login_reply : Reply LoginResponse) (f : Form) (c : Client W)
    → SignedIn (send reply login_reply f c)
unfolding send
send-SignedIn {W} reply login_reply f c = by_mode f.mode
  where
    by_mode :
        (m : Mode)
        → SignedIn {W = W} (elim m [
          | to_register ↦
              register f.email f.password
                (trim f.display_name or_else before_at f.email)
                reply
                login_reply
                c
          | to_login ↦ login f.email f.password login_reply c
        ])
    by_mode to_login = login-SignedIn f.email f.password login_reply c
    by_mode to_register =
        register-SignedIn f.email f.password (trim f.display_name or_else before_at f.email) reply
          login_reply c

submitted_done :
    (o : Outcome User) (f : Form) {u : User}
    → o ≡ resolved u
    → submitted o f ≡ record f { location = "/operations"; loading = false }
unfolding submitted failure
submitted_done o f done = rw done refl

submitted_failed :
    (o : Outcome User) (f : Form) {message : String}
    → failure "Network error. Please try again." o ≡ some message
    → submitted o f ≡ record f { error = message; loading = false }
unfolding submitted
submitted_failed o f failed = rw (failed, submitted) refl

-- However its requests end, a submission ends: the button is free again, and either the router is at the
-- operations page with the user of the session signed in and no error shown, or the router stays where
-- it was and the form shows why.
pub handle_submit_lem :
    {W : Type 0} (reply : Reply User) (login_reply : Reply LoginResponse) (f : Form) (c : Client W)
    → let (f', c') = handle_submit reply login_reply f c in
      (f'.loading ≡ false)
      × (((f'.location ≡ "/operations")
            × (f'.error ≡ "")
            × ((u : User) × (get_current_user c'.session ≡ some u)))
          ⊎ ((f'.location ≡ f.location)
              × (failure "Network error. Please try again." (send reply login_reply f c).0
                  ≡ some f'.error)))
unfolding handle_submit
handle_submit_lem reply login_reply f c = elim (send-SignedIn reply login_reply f c) [
  | inl (u, done, known) ↦
      rw (submitted_done (send reply login_reply f c).0 _ done) (refl, inl (refl, refl, (u, known)))
  | inr (message, failed) ↦
      rw (submitted_failed (send reply login_reply f c).0 _ failed) (refl, inr (refl, failed))
]
