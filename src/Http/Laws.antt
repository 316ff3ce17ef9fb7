-- ===== src/Http/Laws.antt =====
-- What requests carry (frontend/public/co-fetch.js).
use web_ui.Base.{
  ◌≡◌, refl, ap, ◌∙◌, Bool, true, false, ◌&&◌, ◌||◌, not, Option, none, some, null, if◌then◌else◌,
  Bool-cases, inl, inr,
}
use web_ui.Base.Text.{Text, codes, same_text}
use web_ui.Http.Fetch.{
  contains, Headers, defaults, set_header, authorization, csrf_header, co_fetch_headers,
  co_fetch_json_headers, impersonation_headers, accept_json, Impersonation, Session, Method,
  co_fetch_json,
}

module _ (token : Option Text) (url : Text) (headers : Headers) where
  headers_csrf :
      co_fetch_headers token url headers csrf_header
      ≡ (if contains url (codes "://") then none else token)
  unfolding co_fetch_headers same_text
  headers_csrf = elim (Bool-cases (contains url (codes "://"))) [
    | inl e ↦ rw e refl
    | inr e ↦ rw e refl
  ]

  headers_authorization :
      co_fetch_headers token url headers authorization
      ≡ (if contains url (codes "://") then none else headers authorization)
  unfolding co_fetch_headers same_text
  headers_authorization = elim (Bool-cases (contains url (codes "://"))) [
    | inl e ↦ rw e refl
    | inr e ↦ rw e refl
  ]

  headers_other :
      (name : Text)
      → same_text name authorization ≡ false
      → same_text name csrf_header ≡ false
      → co_fetch_headers token url headers name ≡ headers name
  unfolding co_fetch_headers
  headers_other name a b = elim (Bool-cases (contains url (codes "://"))) [
    | inl e ↦ rw e (rw b (rw a refl))
    | inr e ↦ rw e (rw b refl)
  ]

no_authorization : (i : Impersonation) → impersonation_headers i accept_json authorization ≡ none
unfolding impersonation_headers same_text
no_authorization i =
    names (same_text i.kind (codes "User")) (same_text i.kind (codes "Group")) (null i.name)
  where
    names :
        (u g n : Bool)
        → (if (u || g) && not n
              then (if g
                  then set_header
                      (codes "Impersonate-Group")
                      (some i.name)
                      (set_header (codes "Impersonate-User") (some i.name) accept_json)
                  else set_header (codes "Impersonate-User") (some i.name) accept_json)
              else accept_json)
            authorization
          ≡ none
    names true true true = refl
    names true true false = refl
    names true false true = refl
    names true false false = refl
    names false true true = refl
    names false true false = refl
    names false false true = refl
    names false false false = refl

-- A value, or the one that stands in for it.
abbrev pub or_value : Option Text → Option Text → Option Text
or_value none d = d
or_value (some v) d = some v

defaults_lem : (a b : Headers) (name : Text) → defaults a b name ≡ or_value (a name) (b name)
defaults_lem a b name = cases (a name)
  where
    cases :
        (o : Option Text)
        → elim o as (λ x. Option Text) [ none ↦ b name | some v ↦ some v ] ≡ or_value o (b name)
    cases none = refl
    cases (some v) = refl

given_authorization :
    (i : Impersonation) (headers : Headers)
    → co_fetch_json_headers i headers authorization ≡ headers authorization
unfolding co_fetch_json_headers
given_authorization i headers =
    defaults_lem headers (impersonation_headers i accept_json) authorization
    ∙ ap (or_value (headers authorization)) (no_authorization i)
    ∙ alone (headers authorization)
  where
    alone : (o : Option Text) → or_value o none ≡ o
    alone none = refl
    alone (some v) = refl

-- Of the headers that a call makes up, an absolute address gets neither the authorization nor the
-- token, also if the caller gave them, and every other address gets the session's token and the
-- authorization that the caller gave; a header of any other name is the same for all addresses.
pub co_fetch_json_credentials :
    (session : Session) (url : Text) (method : Method) (headers : Headers) (body : Option Text)
    (name : Text)
    → same_text name authorization ≡ false
    → same_text name csrf_header ≡ false
    → ((co_fetch_json session url method headers body).headers csrf_header
        ≡ (if contains url (codes "://") then none else session.token))
      × ((co_fetch_json session url method headers body).headers authorization
          ≡ (if contains url (codes "://") then none else headers authorization))
      × ((co_fetch_json session url method headers body).headers name
          ≡ co_fetch_json_headers session.impersonation headers name)
unfolding co_fetch_json co_fetch_headers co_fetch_json_headers impersonation_headers same_text
co_fetch_json_credentials session url method headers body name a b = (
  headers_csrf session.token url given,
  headers_authorization session.token url given
      ∙ ap (λ o. if contains url (codes "://") then none else o)
          (given_authorization session.impersonation headers),
  headers_other session.token url given name a b,
)
  where
    given : Headers
    given = co_fetch_json_headers session.impersonation headers

group_headers_lem :
    (i : Impersonation)
    → i.kind ≡ codes "Group"
    → null i.name ≡ false
    → (impersonation_headers i accept_json (codes "Impersonate-User") ≡ some i.name)
      × (impersonation_headers i accept_json (codes "Impersonate-Group") ≡ some i.name)
unfolding impersonation_headers same_text
group_headers_lem i k n = (rw k (rw n refl), rw k (rw n refl))

-- A user who impersonates a group, of a name that is not empty, sends both headers, each with the name
-- unless the caller gave the header, to whatever address.
pub co_fetch_json_group :
    (session : Session) (url : Text) (method : Method) (headers : Headers) (body : Option Text)
    → session.impersonation.kind ≡ codes "Group"
    → null session.impersonation.name ≡ false
    → ((co_fetch_json session url method headers body).headers (codes "Impersonate-User")
        ≡ or_value (headers (codes "Impersonate-User")) (some session.impersonation.name))
      × ((co_fetch_json session url method headers body).headers (codes "Impersonate-Group")
          ≡ or_value (headers (codes "Impersonate-Group")) (some session.impersonation.name))
unfolding co_fetch_json co_fetch_json_headers same_text
co_fetch_json_group session url method headers body k n = (
  sent (codes "Impersonate-User") refl refl
      ∙ ap (or_value (headers (codes "Impersonate-User")))
          (group_headers_lem session.impersonation k n).0,
  sent (codes "Impersonate-Group") refl refl
      ∙ ap (or_value (headers (codes "Impersonate-Group")))
          (group_headers_lem session.impersonation k n).1,
)
  where
    sent :
        (name : Text)
        → same_text name authorization ≡ false
        → same_text name csrf_header ≡ false
        → (co_fetch_json session url method headers body).headers name
          ≡ or_value (headers name) (impersonation_headers session.impersonation accept_json name)
    sent name a b =
        headers_other session.token url (co_fetch_json_headers session.impersonation headers) name a
          b
        ∙ defaults_lem headers (impersonation_headers session.impersonation accept_json) name
