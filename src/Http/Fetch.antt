-- ===== src/Http/Fetch.antt =====
-- frontend/public/co-fetch.js: requests and what their responses mean. Headers are a function from their
-- names, and a response's body that is read as JSON is part of the response.
use web_ui.Base.{
  ℕ, Bool, false, ◌&&◌, ◌||◌, not, Option, none, some, List, [], ◌∷◌, ◌++◌, map, filter, length,
  drop, null, is_some, if◌then◌else◌, leb, ◌==◌,
}
use web_ui.Base.Text.{Text, codes, split, starts_with, same_text}
use web_ui.Selector.Scan.{skip_run1, skip_word}

-- `\w`
unfoldable pub is_word_char : ℕ → Bool
is_word_char c =
    leb b'a' c && leb c b'z' || leb b'A' c && leb c b'Z' || leb b'0' c && leb c b'9' || c == b'_'

-- A pattern that goes on behind what it has matched; `none` is no match.
abbrev pub then_match : Option Text → (Text → Option Text) → Option Text
then_match none f = none
then_match (some s) f = f s

unfoldable pub is_service_proxy : Text → Text → Bool
is_service_proxy base_path url = is_some (
    then_match (skip_word (base_path ++ codes "api/kubernetes/api/v1/namespaces/") url) (λ s.
      then_match (skip_run1 is_word_char s) (λ t.
        then_match (skip_word (codes "/services/") t)
          (λ u. then_match (skip_run1 is_word_char u) (λ v. skip_word (codes "/proxy/") v)))))

-- The base path stands for itself in the patterns.
unfoldable pub should_logout : Text → Text → Bool
should_logout base_path url =
    starts_with url (base_path ++ codes "api/kubernetes/")
    && (not (starts_with url (base_path ++ codes "api/kubernetes/api/v1/proxy/"))
        && not (is_service_proxy base_path url))

-- `indexOf(t) >= 0`
unfoldable pub contains : Text → Text → Bool
contains [] t = null t
contains (c ∷ s) t = starts_with (c ∷ s) t || contains s t

pub record Json : Type 0 where
  pub message : Text
  pub cause : Option (Text × Text)
  pub error : Text

pub record Response : Type 0 where
  pub ok : Bool
  pub status : ℕ
  pub content_type : Text
  pub content_length : Option Text
  pub status_text : Text
  pub json : Json

-- What becomes of a response: it is passed on, or an error with a message is thrown.
pub data Outcome : Type 0 where
  accepted : Outcome
  failed : Text → Outcome

abbrev pub or_else_text : Text → Text → Text
or_else_text [] t = t
or_else_text (c ∷ s) t = c ∷ s

unfoldable pub reason_of : Response → Text
reason_of r =
    or_else_text (cause_text r.json.cause)
      (or_else_text r.json.message (or_else_text r.status_text r.json.error))
  where
    cause_text : Option (Text × Text) → Text
    cause_text none = []
    cause_text (some (message, field)) =
        codes "Error \"" ++ (message ++ (codes "\" for field \"" ++ (field ++ codes "\".")))

unfoldable pub outcome_of : Response → Outcome
outcome_of r =
    if r.ok
    then accepted
    else if null r.content_type || not (contains r.content_type (codes "json"))
    then failed r.status_text
    else if r.status == 403
    then failed (or_else_text r.json.message (codes "Access denied due to cluster policy."))
    else failed (reason_of r)

-- `validateStatus`: whether the user is logged out, and the outcome.
unfoldable pub validate_status : Text → Response → Text → Bool × Outcome
validate_status base_path r url =
    (not r.ok && (r.status == 401 && should_logout base_path url), outcome_of r)

abbrev pub cookie_prefix : Text
cookie_prefix = codes "csrf-token="

unfoldable pub last : List Text → Option Text
last [] = none
last (t ∷ []) = some t
last (t ∷ u ∷ ts) = last (u ∷ ts)

-- `getCSRFToken`, where `_.trim` is a parameter; without cookies it is the empty text.
unfoldable pub get_csrf_token : (Text → Text) → Text → Option Text
get_csrf_token lodash_trim [] = some []
get_csrf_token lodash_trim (c ∷ s) = last (
    map (λ t. drop (length cookie_prefix) t)
      (filter (λ t. starts_with t cookie_prefix) (map lodash_trim (split b';' (c ∷ s)))))

abbrev pub Headers : Type 0
Headers = Text → Option Text

abbrev pub set_header : Text → Option Text → Headers → Headers
set_header name value headers other = if same_text other name then value else headers other

-- `_.defaultsDeep`, on headers: the first wins.
abbrev pub defaults : Headers → Headers → Headers
defaults first second name = elim (first name) [ none ↦ second name | some v ↦ some v ]

abbrev pub no_headers : Headers
no_headers name = none

abbrev pub authorization : Text
authorization = codes "Authorization"

abbrev pub csrf_header : Text
csrf_header = codes "X-CSRFToken"

-- The headers that `coFetch` sends.
unfoldable pub co_fetch_headers : Option Text → Text → Headers → Headers
co_fetch_headers token url headers =
    let all_headers = set_header csrf_header token headers in
    if contains url (codes "://")
    then set_header csrf_header none (set_header authorization none all_headers)
    else all_headers

-- What can end a call, the first of which `Promise.race` takes.
pub data Settled : Type 0 where
  responded : Response → Settled
  rejected : Text → Settled
  timed_out : ℕ → Settled

pub data Result : Type 0 where
  response : Response → Result
  thrown : Text → Result
  timeout_error : ℕ → Result

unfoldable pub result_of : Outcome → Response → Result
result_of accepted r = response r
result_of (failed message) r = thrown message

abbrev pub settled_as : Text → Text → Settled → Bool × Result
settled_as base_path url (responded r) =
    ((validate_status base_path r url).0, result_of (validate_status base_path r url).1 r)
settled_as base_path url (rejected message) = (false, thrown message)
settled_as base_path url (timed_out ms) = (false, timeout_error ms)

-- Whether the user is logged out, which a late response still does, and the result, where `none` is a
-- call that is still pending.
unfoldable pub race : Text → Text → List Settled → Bool × Option Result
race base_path url [] = (false, none)
race base_path url (event ∷ later) = (
  (settled_as base_path url event).0 || (race base_path url later).0,
  some (settled_as base_path url event).1,
)

pub record Impersonation : Type 0 where
  pub kind : Text
  pub name : Text

abbrev pub group_headers : Impersonation → Headers → Headers
group_headers i headers =
    if same_text i.kind (codes "Group")
    then set_header (codes "Impersonate-Group") (some i.name) headers
    else headers

unfoldable pub impersonation_headers : Impersonation → Headers → Headers
impersonation_headers i headers =
    if (same_text i.kind (codes "User") || same_text i.kind (codes "Group")) && not (null i.name)
    then group_headers i (set_header (codes "Impersonate-User") (some i.name) headers)
    else headers

abbrev pub accept_json : Headers
accept_json = set_header (codes "Accept") (some (codes "application/json")) no_headers

-- The headers that `coFetchJSON` passes on; an impersonation that is not active has the empty kind.
unfoldable pub co_fetch_json_headers : Impersonation → Headers → Headers
co_fetch_json_headers i headers = defaults headers (impersonation_headers i accept_json)

pub data Method : Type 0 where
  get post put patch delete : Method

abbrev pub content_type_of : Method → Text
content_type_of patch = codes "application/json-patch+json;charset=UTF-8"
content_type_of _ = codes "application/json;charset=UTF-8"

-- The headers that `coFetchSendJSON` passes on.
unfoldable pub send_json_headers : Method → Headers → Headers
send_json_headers method headers =
    defaults (set_header (codes "Content-Type") (some (content_type_of method)) accept_json) headers

-- A call with the headers it sends, and its body, if it has one.
pub record Sent : Type 0 where
  pub method : Method
  pub headers : Headers
  pub body : Option Text

-- What the calls take of their surroundings.
pub record Session : Type 0 where
  pub token : Option Text
  pub impersonation : Impersonation

unfoldable pub co_fetch_json : Session → Text → Method → Headers → Option Text → Sent
co_fetch_json session url method headers body = record {
  method = method;
  headers =
      co_fetch_headers session.token url (co_fetch_json_headers session.impersonation headers);
  body = body;
}

unfoldable pub co_fetch_send_json : Session → Text → Method → Option Text → Headers → Sent
co_fetch_send_json session url method body headers =
    co_fetch_json session url method (send_json_headers method headers) body

unfoldable pub json_delete : Session → Text → Headers → Option Text → Sent
json_delete session url headers none = co_fetch_json session url delete headers none
json_delete session url headers (some body) =
    co_fetch_send_json session url delete (some body) headers

unfoldable pub json_post : Session → Text → Text → Headers → Sent
json_post session url body headers = co_fetch_send_json session url post (some body) headers

unfoldable pub json_put : Session → Text → Text → Headers → Sent
json_put session url body headers = co_fetch_send_json session url put (some body) headers

unfoldable pub json_patch : Session → Text → Text → Headers → Sent
json_patch session url body headers = co_fetch_send_json session url patch (some body) headers
