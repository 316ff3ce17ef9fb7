-- ===== src/Http/Tests.antt =====
-- Requests at concrete addresses.
use web_ui.Base.{◌≡◌, refl, true, false, none, some, [], ◌∷◌}
use web_ui.Base.Text.{Text, codes, split, split_from, starts_with, same_text, is_space}
use web_ui.Selector.Scan.{skip_run, skip_run1, skip_word}
use web_ui.Selector.Requirement.{trim, trim_start, trim_end}
use web_ui.Ui.Link.{strip_base_path}
use web_ui.Http.Fetch.{
  is_word_char, is_service_proxy, should_logout, contains, no_headers, authorization, csrf_header,
  co_fetch_headers, co_fetch_json_headers, impersonation_headers, set_header, Session, get,
  co_fetch_json, get_csrf_token, last, Response, validate_status, outcome_of, reason_of, race,
  timed_out, timeout_error, responded,
}
use web_ui.Http.Auth.{Storage, set_next, remove_each, logout_storage}
use web_ui.Http.Laws.{co_fetch_json_credentials}

session_tests : Unit {0}
unfolding split split_from starts_with same_text is_space skip_run skip_run1 skip_word trim
    trim_start trim_end strip_base_path is_word_char is_service_proxy should_logout contains
    co_fetch_headers co_fetch_json_headers impersonation_headers co_fetch_json get_csrf_token last
    validate_status outcome_of reason_of race set_next remove_each logout_storage
session_tests = tt

abbrev session : Session
session = record {
  token = some (codes "t");
  impersonation = record { kind = codes "Group"; name = codes "dev" };
}

abbrev remote : Text
remote = codes "https://h/a"

co_fetch_json_credentials_example :
    ((co_fetch_json session remote get
          (set_header authorization (some (codes "x")) no_headers)
          none).headers
        csrf_header
      ≡ none)
    × ((co_fetch_json session remote get
            (set_header authorization (some (codes "x")) no_headers)
            none).headers
          authorization
        ≡ none)
    × ((co_fetch_json session remote get
            (set_header authorization (some (codes "x")) no_headers)
            none).headers
          (codes "Accept")
        ≡ some (codes "application/json"))
unfolding session_tests
co_fetch_json_credentials_example =
    co_fetch_json_credentials session remote get
      (set_header authorization (some (codes "x")) no_headers) none (codes "Accept") refl refl

abbrev stored : Storage
stored key = some key

token : get_csrf_token trim (codes "a=b; csrf-token=x") ≡ some (codes "x")
unfolding session_tests
token = refl

abbrev denied : Response
denied = record {
  ok = false;
  status = 401;
  content_type = codes "text/plain";
  content_length = none;
  status_text = codes "Unauthorized";
  json = record { message = []; cause = none; error = [] };
}

late :
    race (codes "/") (codes "/api/kubernetes/version") (timed_out 20000 ∷ responded denied ∷ [])
    ≡ (true, some (timeout_error 20000))
unfolding session_tests
late = refl
