-- ===== src/Web/Session.antt =====
-- apps/web/src/lib/session.ts: the CSRF token and the signed-in user of a browser tab.
pub mod Laws
use morphia.Common.{
  String, Bool, true, false, not, ◌||◌, Option, none, some, List, [], ◌∷◌, ◌++◌, filter, is_empty,
  nat_eq, any, ℕ, if◌then◌else◌,
}
use morphia.Types.{User}

-- `window.sessionStorage` under the key "morphia.csrf". Every access throws where storage is disabled,
-- and a write does where it is full.
pub record Storage : Type 0 where
  pub item : Option String
  pub disabled : Bool
  pub full : Bool

-- The variables of the module. A listener is known by a number, and `notified` lists the listeners
-- that were called, the latest last.
pub record Session : Type 0 where
  pub csrf_token : Option String
  pub current_user : Option User
  pub listeners : List ℕ
  pub storage : Storage
  pub notified : List ℕ

-- `readStoredCsrf`
unfoldable pub read_stored_csrf : Storage → Option String
read_stored_csrf s = if s.disabled then none else s.item

-- The module as a page that was just loaded finds it.
unfoldable pub load : Storage → Session
unfolding read_stored_csrf
load storage = record {
  csrf_token = read_stored_csrf storage;
  current_user = none;
  listeners = [];
  storage = storage;
  notified = [];
}

unfoldable pub notify : Session → Session
notify s = record s { notified = s.notified ++ s.listeners }

unfoldable pub get_csrf_token : Session → Option String
get_csrf_token s = s.csrf_token

-- `setItem`, its exception caught
set_item : String → Storage → Storage
set_item token s = if s.disabled || s.full then s else record s { item = some token }

-- `removeItem`, its exception caught
remove_item : Storage → Storage
remove_item s = if s.disabled then s else record s { item = none }

-- A token that a condition takes for true: neither null nor empty.
abbrev pub is_token : Option String → Bool
is_token none = false
is_token (some t) = not (is_empty t)

store_token : Option String → Storage → Storage
unfolding set_item remove_item
store_token none s = remove_item s
store_token (some t) s = if is_empty t then remove_item s else set_item t s

unfoldable pub set_csrf_token : Option String → Session → Session
unfolding store_token notify
set_csrf_token token s =
    notify (record s { csrf_token = token; storage = store_token token s.storage })

unfoldable pub get_current_user : Session → Option User
get_current_user s = s.current_user

unfoldable pub set_current_user : Option User → Session → Session
unfolding notify
set_current_user user s = notify (record s { current_user = user })

unfoldable pub clear_session : Session → Session
unfolding remove_item notify
clear_session s =
    notify (record s { csrf_token = none; current_user = none; storage = remove_item s.storage })

-- `subscribe` adds to a set, and returns what `unsubscribe` does here.
unfoldable pub subscribe : ℕ → Session → Session
subscribe fn s = record s {
  listeners = if any (nat_eq fn) s.listeners then s.listeners else s.listeners ++ fn ∷ [];
}

unfoldable pub unsubscribe : ℕ → Session → Session
unsubscribe fn s = record s { listeners = filter (λ g. not (nat_eq fn g)) s.listeners }
