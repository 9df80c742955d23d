-- ===== src/Web/Session/Laws.antt =====
-- apps/web/src/lib/session.ts: what is kept in memory, what a reload brings back, and who hears of it.
use morphia.Common.{◌≡◌, refl, false, none, ◌++◌, arith}
use morphia.Web.Session.{Session, load, get_csrf_token, get_current_user, clear_session}

-- Clearing leaves neither token nor user in memory, nor a token for a later page where the storage can
-- be used; every listener is called once, in order.
pub clear_session_lem :
    (s : Session)
    → s.storage.disabled ≡ false
    → (get_csrf_token (clear_session s) ≡ none)
      × (get_current_user (clear_session s) ≡ none)
      × (get_csrf_token (load (clear_session s).storage) ≡ none)
      × ((clear_session s).notified ≡ s.notified ++ s.listeners)
unfolding clear_session get_csrf_token get_current_user load
clear_session_lem s usable = ground arith

-- In memory the same holds also where the storage cannot be used.
pub clear_session-memory :
    (s : Session)
    → (get_csrf_token (clear_session s) ≡ none) × (get_current_user (clear_session s) ≡ none)
unfolding clear_session get_csrf_token get_current_user
clear_session-memory s = (refl, refl)
