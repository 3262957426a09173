-- ===== src/Sql/Accounts/Once.antt =====
-- lib/sql.cpp, `account_get_or_create`: one account for each name.
use chatripper.Common.{
  ℕ, ◌≡◌, ◌≢◌, refl, sym, subst, ◌∙◌, true, false, some, List, [], ◌∷◌, Bytes, bytes_key,
  bytes_eqb_iff, find, find-insert, is_empty, arith, Option-cases, Bool-cases, inl, inr,
}
use chatripper.State.{World, is_null, or_null}
use chatripper.Env.{Env}
use chatripper.Core.Accounts.{account_from_db}
use chatripper.Sql.Database.{AccountRow, Database}
use chatripper.Sql.Accounts.{account_row, load_account, account_get_or_create}

account_row-username :
    (name : Bytes) (rows : List AccountRow) (r : AccountRow)
    → account_row name rows ≡ some r
    → r.username ≡ name
unfolding account_row
account_row-username name [] r h = ground arith
account_row-username name (s ∷ rows) r h =
    ground (arith, account_row-username name rows r, bytes_eqb_iff s.username name)

is_empty-false : (name : Bytes) → name ≢ [] → is_empty name ≡ false
is_empty-false [] h = absurd (h refl)
is_empty-false (c ∷ name) h = refl

module _ (env : Env) where
  -- The account from a row is in the cache under its name.
  account_from_db-found :
      (id : ℕ) (name password : Bytes) (w : World)
      → name ≢ []
      → w.next_account ≢ 0
      → or_null (find name w.accounts_lookup_name) ≡ 0
      → (find name (account_from_db env id name password w).1.accounts_lookup_name
          ≡ some (account_from_db env id name password w).0)
        × ((account_from_db env id name password w).0 ≢ 0)
  unfolding account_from_db
  account_from_db-found id name password w h k absent = ground (
    arith,
    find-insert name name w.next_account w.accounts_lookup_name,
    bytes_eqb_iff name name,
    is_empty-false name,
  )

  -- An account in the cache is taken.
  cached_lem :
      (hash : Bytes → Bytes) (id p : ℕ) (name other : Bytes) (w : World) (db : Database)
      → (find name w.accounts_lookup_name ≡ some p) × (p ≢ 0)
      → account_get_or_create env hash id name other w db ≡ (p, w, db)
  unfolding account_get_or_create
  cached_lem hash id p name other w db h =
      let live : is_null p ≡ false = ground (arith, h.1) in rw h.0 (rw live refl)

  -- What the first call gives is in the cache under its name.
  first_lem :
      (hash : Bytes → Bytes) (id : ℕ) (name password : Bytes) (w : World) (db : Database)
      → db.up ≡ true
      → env.text name ≡ name
      → name ≢ []
      → w.next_account ≢ 0
      → let (p, v, tables) = account_get_or_create env hash id name password w db in
        (find name v.accounts_lookup_name ≡ some p) × (p ≢ 0)
  unfolding account_get_or_create load_account
  first_lem hash id name password w db up plain h k =
      let text = env.text name in
      elim (Bool-cases (is_null (or_null (find name w.accounts_lookup_name)))) [
        | inr live ↦ rw live (ground (arith, live))
        | inl absent ↦
            let missing : or_null (find name w.accounts_lookup_name) ≡ 0 = ground arith in
            elim (Option-cases (account_row text db.accounts)) [
              | inl new ↦ rw absent (
                  rw up (
                    rw new
                      (account_from_db-found id name (hash (env.text password)) w h k missing)))
              | inr (r, found) ↦
                  let same = account_row-username text db.accounts r found ∙ plain in
                  rw absent (
                    rw up (
                      rw found (
                        subst
                          (λ n.
                            let made = account_from_db env r.id n r.password w in
                            (find name made.1.accounts_lookup_name ≡ some made.0) × (made.0 ≢ 0))
                          (sym same) (account_from_db-found r.id name r.password w h k missing))))
            ]
      ]

  -- `account_get_or_create` gives an account, and a second call for that name, with whatever password,
  -- gives the same one and changes neither the server nor the tables. The connection works, the
  -- name is proper UTF-8 and not empty, and the next pointer is not null.
  pub get_or_create-again :
      (hash : Bytes → Bytes) (id later : ℕ) (name password other : Bytes) (w : World)
      (db : Database)
      → db.up ≡ true
      → env.text name ≡ name
      → name ≢ []
      → w.next_account ≢ 0
      → let (p, v, tables) = account_get_or_create env hash id name password w db in
        (p ≢ 0) × (account_get_or_create env hash later name other v tables ≡ (p, v, tables))
  get_or_create-again hash id later name password other w db up plain h k =
      let (p, v, tables) = account_get_or_create env hash id name password w db in
      let first = first_lem hash id name password w db up plain h k in
      (first.1, cached_lem hash later p name other v tables first)
