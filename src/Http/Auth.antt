-- ===== src/Http/Auth.antt =====
-- frontend/public/module/auth.js: the stored login, and the end of a session. The storage is a function
-- from its keys; a key whose change throws keeps its value.
use web_ui.Base.{Bool, ◌&&◌, not, Option, none, some, List, [], ◌∷◌, null, if◌then◌else◌}
use web_ui.Base.Text.{Text, codes, same_text}
use web_ui.Ui.Link.{strip_base_path}

abbrev pub Storage : Type 0
Storage = Text → Option Text

abbrev pub login_keys : List Text
login_keys = codes "userID" ∷ codes "name" ∷ codes "email" ∷ []

module _ (throws : Text → Bool) where
  abbrev pub set_item : Text → Option Text → Storage → Storage
  set_item key value storage other =
      if same_text other key && not (throws key) then value else storage other

  unfoldable pub set_next : Text → Text → Storage → Storage
  set_next base_path next storage =
      if null next
      then storage
      else set_item (codes "next") (some (strip_base_path base_path next)) storage

  unfoldable pub remove_each : List Text → Storage → Storage
  remove_each [] storage = storage
  remove_each (key ∷ keys) storage = remove_each keys (set_item key none storage)

  -- What `logout` leaves in the storage.
  unfoldable pub logout_storage : Text → Text → Storage → Storage
  logout_storage base_path next storage = remove_each login_keys (set_next base_path next storage)

-- Where `logout` goes once its call is over: to the redirect of the server, if there is one and no path
-- to return to, or to the login.
unfoldable pub logout_location : Text → Text → Text → Text
logout_location logout_redirect login_url next =
    if not (null logout_redirect) && null next then logout_redirect else login_url

-- `userID`, where `atob` is a parameter that may throw.
unfoldable pub user_id : (Text → Option Text) → Storage → Option Text
user_id atob storage = decoded (storage (codes "userID"))
  where
    decoded : Option Text → Option Text
    decoded none = none
    decoded (some []) = some []
    decoded (some (c ∷ s)) = elim (atob (c ∷ s)) [ none ↦ some (c ∷ s) | some t ↦ some t ]
