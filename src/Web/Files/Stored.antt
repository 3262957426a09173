-- ===== src/Web/Files/Stored.antt =====
-- web/routes/uploadroute.cpp: what an upload stores, and what is served of it.
use chatripper.Common.{
  ℕ, ◌≤◌, ◌≡◌, ◌≢◌, ◌⊎◌, refl, ap, ◌∙◌, sym, Bool, true, false, not, Option, none, some, Bytes,
  codes, length, is_empty, contains, remove_all, find, insert, find-insert, nat_key, bytes_key,
  bytes_eqb_iff, ltb, ltb_false→le, arith, if◌then◌else◌, inl, inr,
}
use chatripper.Web.RateLimiter.{RateLimitResult, allowed, denied, check}
use chatripper.Web.SessionStore.{get_user}
use chatripper.Web.Files.{
  has_dots, sanitize_path, file_name, is_valid_name, safe_file_name, upload_name, has_prefix,
  max_upload_size, is_accepted, Site, UploadRequest, Response, created, served, too_many_requests,
  unauthorized, payload_too_large, unsupported_media_type, empty_body, write_failed,
  invalid_filename, is_allowed, section_behind, trim_start, trim_end, store_upload, upload,
  get_file,
}
use chatripper.Web.Files.Names.{is_valid_name-no_slash, file_name-no_slash, safe_file_name-valid}

upload_name-valid :
    (random uuid disposition : Bytes)
    → is_valid_name uuid ≡ true
    → is_valid_name (upload_name random uuid disposition) ≡ true
unfolding upload_name
upload_name-valid random uuid disposition h =
    elim (section_behind (codes "filename=") disposition)
      as (λ o.
        is_valid_name (elim o as (λ _. Bytes) [
          | none ↦ safe_file_name uuid random
          | some name ↦ safe_file_name uuid (remove_all (trim_start (trim_end name)) b'"')
        ])
        ≡ true) [
          | none ↦ safe_file_name-valid uuid random h
          | some name ↦ safe_file_name-valid uuid (remove_all (trim_start (trim_end name)) b'"') h
        ]

-- The file is stored.
abbrev pub is_stored : Response → Bool
is_stored (created name) = true
is_stored _ = false

unstored :
    (result : Site × Response) (site : Site) (answer : Response)
    → is_stored answer ≡ false
    → result ≡ (site, answer)
    → (is_stored result.1 ≡ false) × (result.0 ≡ site)
unstored result site answer h k =
    (ap (λ (p : Site × Response). is_stored p.1) k ∙ h, ap (λ (p : Site × Response). p.0) k)

-- The tests of an upload in their order, and what passes them.
gates :
    (a b c d e : Bool) (site out : Site) (name : Bytes) (result : Site × Response)
    → result ≡ (
        if a
        then (site, payload_too_large)
        else if b
        then (site, unsupported_media_type)
        else if not c
        then (site, unsupported_media_type)
        else if d
        then (site, empty_body)
        else if not e
        then (site, write_failed)
        else (out, created name))
    → ((a ≡ false) × (d ≡ false) × (c ≡ true) × (result ≡ (out, created name)))
      ⊎ ((is_stored result.1 ≡ false) × (result.0 ≡ site))
gates true b c d e site out name result k = inr (unstored result site payload_too_large refl k)
gates false true c d e site out name result k =
    inr (unstored result site unsupported_media_type refl k)
gates false false false d e site out name result k =
    inr (unstored result site unsupported_media_type refl k)
gates false false true true e site out name result k = inr (unstored result site empty_body refl k)
gates false false true false false site out name result k =
    inr (unstored result site write_failed refl k)
gates false false true false true site out name result k = inl (refl, refl, refl, k)

-- What stands before them.
admitted :
    (answer : RateLimitResult) (user : Option ℕ) (limited known : Site)
    (inner result : Site × Response)
    → result ≡ (
        if not (is_allowed answer)
        then (limited, too_many_requests)
        else (elim user as (λ _. Site × Response) [
          | none ↦ (known, unauthorized)
          | some a ↦ inner
        ]))
    → ((answer ≡ allowed) × (user ≢ none) × (result ≡ inner))
      ⊎ ((is_stored result.1 ≡ false) × ((result.0 ≡ limited) ⊎ (result.0 ≡ known)))
admitted (denied t n) user limited known inner result k =
    let (a, s) = unstored result limited too_many_requests refl k in inr (a, inl s)
admitted allowed none limited known inner result k =
    let (a, s) = unstored result known unauthorized refl k in inr (a, inr s)
admitted allowed (some a) limited known inner result k = inl (refl, (λ e. cc), k)

get_file-found :
    (name body : Bytes) (after : Site)
    → is_valid_name name ≡ true
    → find name after.files ≡ some body
    → get_file name after ≡ (if has_dots name then invalid_filename else served body)
unfolding get_file sanitize_path
get_file-found name body after valid found =
    ground (arith, file_name-no_slash name (is_valid_name-no_slash name valid))

get_file-same :
    (other : Bytes) (after site : Site)
    → find (file_name other) after.files ≡ find (file_name other) site.files
    → get_file other after ≡ get_file other site
unfolding get_file sanitize_path
get_file-same other after site e = ground (arith, e)

module _ (can_open : Bytes → Bool) (r : UploadRequest) where
  -- The upload is stored under `name`: the client may ask, has a session, and the body is in bounds
  -- and of a type that is accepted.
  abbrev pub IsAccepted : Site → Bytes → Type 0
  IsAccepted site name =
      ((check r.ip r.now r.later site.limiter).1 ≡ allowed)
      × ((get_user site.accounts_by_name r.token r.session_now site.sessions).1 ≢ none)
      × (length r.body ≤ max_upload_size)
      × (is_empty r.body ≡ false)
      × (is_accepted r.content_type ≡ true)
      × (is_valid_name name ≡ true)
      × (contains name b'/' ≡ false)

  store_upload_lem :
      (site : Site)
      → ((length r.body ≤ max_upload_size)
          × (is_empty r.body ≡ false)
          × (is_accepted r.content_type ≡ true)
          × (let name = upload_name r.random r.uuid r.content_disposition in
              store_upload can_open r site
              ≡ (record site { files = insert name r.body site.files }, created name)))
        ⊎ ((is_stored (store_upload can_open r site).1 ≡ false)
            × ((store_upload can_open r site).0 ≡ site))
  unfolding store_upload
  store_upload_lem site =
      let name = upload_name r.random r.uuid r.content_disposition in
      elim (gates (ltb max_upload_size (length r.body))
        (has_prefix (codes "multipart/form-data") r.content_type) (is_accepted r.content_type)
        (is_empty r.body) (can_open name) site
        (record site { files = insert name r.body site.files }) name (store_upload can_open r site)
        refl) [
          | inl (size, body, kind, out) ↦
              inl (ltb_false→le max_upload_size (length r.body) size, body, kind, out)
          | inr kept ↦ inr kept
        ]

  -- An upload either passes every test and is stored under a name that has no slash in it, or it
  -- leaves the files as they were.
  pub upload_lem :
      (site : Site)
      → is_valid_name r.uuid ≡ true
      → ((name : Bytes) × IsAccepted site name
          × ((upload can_open r site).1 ≡ created name)
          × ((upload can_open r site).0.files ≡ insert name r.body site.files))
        ⊎ ((is_stored (upload can_open r site).1 ≡ false)
            × ((upload can_open r site).0.files ≡ site.files))
  unfolding upload
  upload_lem site valid =
      let (limiter, answer) = check r.ip r.now r.later site.limiter in
      let (sessions, user) = get_user site.accounts_by_name r.token r.session_now site.sessions in
      let limited = record site { limiter = limiter } in
      let known = record limited { sessions = sessions } in
      let name = upload_name r.random r.uuid r.content_disposition in
      let good = upload_name-valid r.random r.uuid r.content_disposition valid in
      let files = λ (s : Site). s.files in
      elim (admitted answer user limited known (store_upload can_open r known)
        (upload can_open r site) refl) [
          | inr (a, s) ↦ inr (a, (elim s [ inl e ↦ ap files e | inr e ↦ ap files e ]))
          | inl (ok, found, same) ↦ elim (store_upload_lem known) [
            | inr (a, s) ↦ inr (
              ap (λ (p : Site × Response). is_stored p.1) same ∙ a,
              ap (λ (p : Site × Response). p.0.files) same ∙ ap files s,
            )
            | inl (size, body, kind, out) ↦ inl (
              name,
              (ok, found, size, body, kind, good, is_valid_name-no_slash name good),
              ap (λ (p : Site × Response). p.1) (same ∙ out),
              ap (λ (p : Site × Response). p.0.files) (same ∙ out),
            )
          ]
        ]

  -- What is stored is then served, unless the name holds two dots in a row: that upload is
  -- answered with its address, at which it is never served. Every other name is served as before.
  pub upload-get_file :
      (site : Site) (name : Bytes)
      → is_valid_name r.uuid ≡ true
      → (upload can_open r site).1 ≡ created name
      → (get_file name (upload can_open r site).0
          ≡ (if has_dots name then invalid_filename else served r.body))
        × ((other : Bytes)
            → file_name other ≢ name
            → get_file other (upload can_open r site).0 ≡ get_file other site)
  upload-get_file site name valid h = elim (upload_lem site valid) [
    | inr (a, s) ↦ absurd (cc (sym a ∙ ap is_stored h))
    | inl (stored, (ok, found, size, body, kind, good, flat), named, files) ↦
        (let same : stored ≡ name = cc (sym named ∙ h) in
          let kept =
            λ (key : Bytes). ap (find key) files ∙ find-insert stored key r.body site.files in
          (
            get_file-found name r.body (upload can_open r site).0
                (ap is_valid_name (sym same) ∙ good)
                (kept name ∙ ground (arith, bytes_eqb_iff stored name)),
            λ other differs.
                get_file-same other (upload can_open r site).0 site
                  (kept (file_name other) ∙ ground (arith, bytes_eqb_iff stored (file_name other))),
          ))
  ]
