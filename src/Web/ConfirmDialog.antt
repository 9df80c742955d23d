-- ===== src/Web/ConfirmDialog.antt =====
-- apps/web/src/components/ConfirmDialog.tsx: the dialog that asks before an action. What stands in it is an
-- argument, and the browser's <dialog> reports Escape as its event "cancel".
use morphia.Common.{String, Bool, not, Option, none, some, [], ◌∷◌, ◌++◌, is_empty, if◌then◌else◌}
use morphia.Common.View.{View, text, button, when}

-- What the dialog asks of the component that holds it.
pub data Answer : Type 0 where
  confirm cancel : Answer

pub record Props : Type 0 where
  pub «open» : Bool
  pub title : String
  pub description : String
  pub confirm_label : String
  pub loading : Bool
  pub error : Option String

error_text : Option String → View Answer
error_text none = []
error_text (some e) = when (not (is_empty e)) (text e ∷ [])

-- The dialog with the children `inside`; it is closed, and shows nothing, unless `open`.
unfoldable pub dialog : Props → View Answer → View Answer
unfolding error_text
dialog p inside = when p.«open» (
    (text p.title ∷ when (not (is_empty p.description)) (text p.description ∷ []))
    ++ inside
    ++ error_text p.error
    ++ button "Cancel" p.loading cancel
      ∷ button (if p.loading then "Working…" else p.confirm_label) p.loading confirm
      ∷ [])

-- What Escape and a click beside the dialog ask for, also while it is loading.
unfoldable pub dismiss : Props → Option Answer
dismiss p = if p.«open» then some cancel else none
