-- ===== src/Web/Files.antt =====
-- web/routes/uploadroute.cpp and web/routes/static.cpp, with `sanitizePath` of web/routes/utils.h:
-- files that are put into the uploads folder and served from it. Clocks, the random name and the
-- file system's answers are arguments. `QFileInfo::filePath` gives the path as it was given, and
-- `fileName` what stands behind the last slash.
pub mod Names
pub mod Stored
use chatripper.Common.{
  ℕ, ◌+◌, ◌*◌, Bool, true, false, not, ◌&&◌, ◌||◌, nat_eqb, leb, ltb, Option, none, some, List, [],
  ◌∷◌, ◌++◌, Bytes, codes, length, drop, is_empty, contains, remove_all, Map, find, insert, nat_key,
  bytes_key, if◌then◌else◌, is_space,
}
use chatripper.Web.RateLimiter.{RateLimiter, RateLimitResult, allowed, denied, check}
use chatripper.Web.SessionStore.{WebSessionStore, get_user}

-- `safePath.contains("..")`
unfoldable pub has_dots : Bytes → Bool
has_dots [] = false
has_dots (a ∷ []) = false
has_dots (a ∷ b ∷ s) = (nat_eqb a b'.' && nat_eqb b b'.') || has_dots (b ∷ s)

-- The path, if it is accepted.
unfoldable pub sanitize_path : Bytes → Option Bytes
unfolding has_dots
sanitize_path path = if has_dots path then none else some path

unfoldable pub file_name : Bytes → Bytes
unfolding contains
file_name [] = []
file_name (c ∷ s) = let rest = file_name s in if contains (c ∷ s) b'/' then rest else c ∷ s

-- `[A-Za-z0-9._-]`
unfoldable is_name_char : ℕ → Bool
is_name_char c =
    (leb b'A' c && leb c b'Z')
    || (leb b'a' c && leb c b'z')
    || (leb b'0' c && leb c b'9')
    || nat_eqb c b'.'
    || nat_eqb c b'_'
    || nat_eqb c b'-'

-- `*$` from here on. `$` also matches before a line feed that ends the text.
unfoldable pub matches_rest : Bytes → Bool
unfolding is_name_char
matches_rest [] = true
matches_rest (c ∷ s) = (nat_eqb c 10 && is_empty s) || (is_name_char c && matches_rest s)

-- `^[A-Za-z0-9._-]+$`
unfoldable pub is_valid_name : Bytes → Bool
unfolding matches_rest
is_valid_name [] = false
is_valid_name (c ∷ s) = is_name_char c && matches_rest s

-- `safeFileName`; `uuid` is the random name.
unfoldable pub safe_file_name : Bytes → Bytes → Bytes
unfolding file_name is_valid_name
safe_file_name uuid filename =
    let base = file_name filename in if is_valid_name base then base else uuid

-- `QString::trimmed`, by `QChar::isSpace`.
unfoldable is_blank : ℕ → Bool
is_blank c =
    is_space c
    || nat_eqb c 0x85
    || nat_eqb c 0xa0
    || nat_eqb c 0x1680
    || (leb 0x2000 c && leb c 0x200a)
    || nat_eqb c 0x2028
    || nat_eqb c 0x2029
    || nat_eqb c 0x202f
    || nat_eqb c 0x205f
    || nat_eqb c 0x3000

unfoldable pub trim_start : Bytes → Bytes
unfolding is_blank
trim_start [] = []
trim_start (c ∷ s) = let rest = trim_start s in if is_blank c then rest else c ∷ s

unfoldable pub trim_end : Bytes → Bytes
unfolding is_blank
trim_end [] = []
trim_end (c ∷ s) = let rest = trim_end s in if is_blank c && is_empty rest then [] else c ∷ rest

-- `startsWith`
unfoldable pub has_prefix : Bytes → Bytes → Bool
has_prefix [] s = true
has_prefix (p ∷ ps) [] = false
has_prefix (p ∷ ps) (c ∷ s) = nat_eqb p c && has_prefix ps s

-- `contains(sep)`, and then `section(sep, 1)`: what stands behind the first separator.
unfoldable pub section_behind : Bytes → Bytes → Option Bytes
unfolding has_prefix
section_behind sep [] = none
section_behind sep (c ∷ s) =
    let later = section_behind sep s in
    if has_prefix sep (c ∷ s) then some (drop (length sep) (c ∷ s)) else later

-- The name under which an upload is stored; `random` and `uuid` are two random names.
unfoldable pub upload_name : Bytes → Bytes → Bytes → Bytes
unfolding section_behind trim_start trim_end remove_all safe_file_name
upload_name random uuid disposition = elim (section_behind (codes "filename=") disposition) [
  | none ↦ safe_file_name uuid random
  | some name ↦ safe_file_name uuid (remove_all (trim_start (trim_end name)) b'"')
]

abbrev pub max_upload_size : ℕ
max_upload_size = 5 * 1024 * 1024

abbrev accepted_types : List Bytes
accepted_types =
    codes "image/jpeg"
    ∷ codes "image/png"
    ∷ codes "image/gif"
    ∷ codes "video/mp4"
    ∷ codes "video/webm"
    ∷ codes "text/plain"
    ∷ []

-- `kAcceptedTypes.contains(contentType)`
unfoldable pub is_accepted : Bytes → Bool
unfolding contains
is_accepted content_type = contains accepted_types content_type

-- What the server keeps; `files` is the uploads folder.
pub record Site : Type 0 where
  pub limiter : RateLimiter
  pub sessions : WebSessionStore
  pub accounts_by_name : Map Bytes ℕ
  pub files : Map Bytes Bytes

pub record UploadRequest : Type 0 where
  pub ip : Bytes
  pub token : Bytes
  pub body : Bytes
  pub content_type : Bytes
  pub content_disposition : Bytes
  -- the readings of the clock: two of the limiter's, and the session's
  pub now : ℕ
  pub later : ℕ
  pub session_now : ℕ
  pub random : Bytes
  pub uuid : Bytes

pub data Response : Type 0 where
  too_many_requests unauthorized payload_too_large unsupported_media_type empty_body write_failed
        invalid_filename not_found :
      Response
  created : Bytes → Response
  served : Bytes → Response
  described : ℕ → Response

abbrev pub is_allowed : RateLimitResult → Bool
is_allowed allowed = true
is_allowed (denied t n) = false

module _ (can_open : Bytes → Bool) where
  -- The tests of the body, and the write.
  unfoldable pub store_upload : UploadRequest → Site → Site × Response
  unfolding has_prefix is_accepted upload_name
  store_upload r site =
      let name = upload_name r.random r.uuid r.content_disposition in
      if ltb max_upload_size (length r.body)
      then (site, payload_too_large)
      else if has_prefix (codes "multipart/form-data") r.content_type
      then (site, unsupported_media_type)
      else if not (is_accepted r.content_type)
      then (site, unsupported_media_type)
      else if is_empty r.body
      then (site, empty_body)
      else if not (can_open name)
      then (site, write_failed)
      else (record site { files = insert name r.body site.files }, created name)

  -- POST /api/1/file/upload
  unfoldable pub upload : UploadRequest → Site → Site × Response
  unfolding store_upload check get_user
  upload r site =
      let (limiter, result) = check r.ip r.now r.later site.limiter in
      let limited = record site { limiter = limiter } in
      if not (is_allowed result)
      then (limited, too_many_requests)
      else (let (sessions, user) =
            get_user site.accounts_by_name r.token r.session_now site.sessions in
          let known = record limited { sessions = sessions } in
          elim user [ none ↦ (known, unauthorized) | some a ↦ store_upload r known ])

-- GET /files/<arg>. A folder of that name is not found either.
unfoldable pub get_file : Bytes → Site → Response
unfolding sanitize_path file_name is_valid_name
get_file arg site = elim (sanitize_path arg) [
  | none ↦ invalid_filename
  | some path ↦
      (let name = file_name path in
        if not (is_valid_name name)
        then invalid_filename
        else elim (find name site.files) [ none ↦ not_found | some body ↦ served body ])
]

-- HEAD /files/<arg>; `folder_size` is the size of a folder of that name.
unfoldable head_file : (Bytes → Option ℕ) → Bytes → Site → Response
unfolding sanitize_path file_name
head_file folder_size arg site = elim (sanitize_path arg) [
  | none ↦ invalid_filename
  | some path ↦ elim (find (file_name path) site.files) [
    | some body ↦ described (length body)
    | none ↦ elim (folder_size (file_name path)) [ none ↦ not_found | some n ↦ described n ]
  ]
]

-- /static/<arg>: the path below the folder of static files, if there is a file; `read` reads it.
unfoldable pub get_static :
    (Bytes → Option Bytes) → Bytes → Bytes → ℕ → ℕ → RateLimiter → RateLimiter × Response
unfolding check sanitize_path
get_static read ip path now later limiter =
    let (after, result) = check ip now later limiter in
    if not (is_allowed result) then (after, too_many_requests) else elim (sanitize_path path) [
      | none ↦ (after, invalid_filename)
      | some safe ↦ (after, (elim (read safe) [ none ↦ not_found | some body ↦ served body ]))
    ]
