-- ===== src/Examples/Files.antt =====
-- web/routes/ at work: uploads, static files and the login of the web server.
use chatripper.Common.{
  ◌≡◌, ◌≢◌, ◌⊎◌, refl, Bool, true, false, Option, none, some, [], ◌∷◌, codes, Bytes, All, find,
  insert, bytes_key, bytes_eqb, split, is_empty, is_space, if◌then◌else◌,
}
use chatripper.Web.RateLimiter.{RateLimiter, check}
use chatripper.Web.SessionStore.{SessionEntry, create_session}
use chatripper.Web.Files.{
  Site, UploadRequest, created, served, invalid_filename, is_valid_name, has_dots, file_name,
  upload, get_file, get_static,
}
use chatripper.Web.Files.Names.{get_static-inside}
use chatripper.Web.Files.Stored.{is_stored, IsAccepted, upload_lem, upload-get_file}
use chatripper.Web.Login.{LoginRequest, LoginState, login, logged_in, session_ttl}
use chatripper.Web.Login.Answers.{entrant, is_success, login_lem}
use chatripper.Examples.Data.{sample_env, sample_world}

abbrev limiter : RateLimiter
limiter = record { table = []; max_requests = 3; window_seconds = 5 }

abbrev read : Bytes → Option Bytes
read path = if bytes_eqb path (codes "css/a.css") then some (codes "body {}") else none

static_served :
    (get_static read (codes "ip") (codes "css/a.css") 1000 1000 limiter).1
    ≡ served (codes "body {}")
unfolding get_static check find bytes_eqb
static_served = refl

get_static-inside_example :
    (read (codes "css/a.css") ≡ some (codes "body {}"))
    × All (λ part. part ≢ codes "..") (split b'/' (codes "css/a.css"))
get_static-inside_example =
    get_static-inside read (codes "ip") (codes "css/a.css") 1000 1000 limiter (codes "body {}")
      static_served

abbrev session : SessionEntry
session = record { username = codes "bob"; expires = 5000 }

abbrev site : Site
site = record {
  limiter = limiter;
  sessions = (codes "t", session) ∷ [];
  accounts_by_name = (codes "bob", 2) ∷ [];
  files = [];
}

abbrev request : UploadRequest
request = record {
  ip = codes "ip";
  token = codes "t";
  body = codes "hello";
  content_type = codes "text/plain";
  content_disposition = codes "attachment; filename=\"a..b\"";
  now = 1000;
  later = 1000;
  session_now = 1000;
  random = codes "r";
  uuid = codes "u";
}

abbrev can_open : Bytes → Bool
can_open name = true

uuid_valid : is_valid_name request.uuid ≡ true
unfolding is_valid_name
uuid_valid = refl

uploaded : (upload can_open request site).1 ≡ created (codes "a..b")
unfolding upload find bytes_eqb insert is_space
uploaded = refl

upload_lem_example :
    ((name : Bytes) × IsAccepted can_open request site name
      × ((upload can_open request site).1 ≡ created name)
      × ((upload can_open request site).0.files ≡ insert name request.body site.files))
    ⊎ ((is_stored (upload can_open request site).1 ≡ false)
        × ((upload can_open request site).0.files ≡ site.files))
upload_lem_example = upload_lem can_open request site uuid_valid

upload-get_file_example :
    (get_file (codes "a..b") (upload can_open request site).0
      ≡ (if has_dots (codes "a..b") then invalid_filename else served request.body))
    × ((other : Bytes)
        → file_name other ≢ codes "a..b"
        → get_file other (upload can_open request site).0 ≡ get_file other site)
upload-get_file_example = upload-get_file can_open request site (codes "a..b") uuid_valid uploaded

abbrev login_request : LoginRequest
login_request = record {
  ip = codes "ip";
  body = codes "pw";
  now = 1000;
  later = 1000;
  session_now = 1000;
  token = codes "t";
}

abbrev logins : LoginState
logins = record { limiter = limiter; sessions = [] }

-- A body that is no object, or one of these two members.
abbrev read_object : Bytes → Option (Bytes → Bytes)
read_object body =
    if is_empty body
    then none
    else some (λ key. if bytes_eqb key (codes "username") then codes "bob" else body)

login_lem_example :
    ((login sample_env read_object sample_world login_request logins).0.limiter
      ≡ (check (codes "ip") 1000 1000 limiter).0)
    × ((login sample_env read_object sample_world login_request logins).0.sessions
        ≡ elim (entrant sample_env sample_world read_object login_request logins) [
          | none ↦ []
          | some name ↦ create_session (codes "t") name session_ttl 1000 []
        ])
    × (is_success (login sample_env read_object sample_world login_request logins).1
        ≡ (elim (entrant sample_env sample_world read_object login_request logins) [
          | none ↦ false
          | some name ↦ true
        ]))
    × ((token : Bytes)
        → (login sample_env read_object sample_world login_request logins).1 ≡ logged_in token
        → token ≡ codes "t")
login_lem_example = login_lem sample_env sample_world read_object login_request logins
