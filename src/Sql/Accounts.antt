-- ===== src/Sql/Accounts.antt =====
-- lib/sql.cpp, the accounts. `hash` is bcrypt's `generateHash`; new ids are arguments.
pub mod Once
use chatripper.Common.{
  ℕ, ◌+◌, Bool, true, false, not, ◌&&◌, ◌||◌, Option, none, some, List, [], ◌∷◌, ◌++◌, length,
  Bytes, bytes_key, bytes_eqb, nat_key, Map, find, has_key, is_empty, if◌then◌else◌,
}
use chatripper.State.{World, is_null, or_null}
use chatripper.Env.{Env}
use chatripper.Core.Accounts.{account_from_db}
use chatripper.Sql.Database.{AccountRow, LoginRow, Database}
use chatripper.Sql.Pages.{read_pages}

-- `WHERE username = ?`
unfoldable pub account_row : Bytes → List AccountRow → Option AccountRow
account_row name [] = none
account_row name (r ∷ rs) =
    let later = account_row name rs in if bytes_eqb r.username name then some r else later

unfoldable account_exists : Bytes → World → Database → Bool
unfolding account_row
account_exists username w db =
    if has_key username w.accounts_lookup_name
    then true
    else if not db.up
    then false
    else elim (account_row username db.accounts) [ none ↦ false | some r ↦ true ]

pub data LoginResult : Type 0 where
  success account_not_found invalid_password database_error : LoginResult

module _ (env : Env) where
  unfoldable pub load_account : AccountRow → World → ℕ × World
  unfolding account_from_db
  load_account r w = account_from_db env r.id r.username r.password w

  -- The batches of `account_get_all` have 100 rows.
  unfoldable pub account_get_all : (ℕ → List AccountRow) → Database → World → List ℕ × World
  unfolding read_pages load_account
  account_get_all order db w =
      if not db.up then ([], w) else read_pages load_account (length db.accounts + 1) 100 0 order w

  -- A pointer, the world and the tables.
  unfoldable pub account_get_or_create :
      (Bytes → Bytes) → ℕ → Bytes → Bytes → World → Database → ℕ × World × Database
  unfolding account_row load_account
  account_get_or_create hash id username password w db =
      let cached = or_null (find username w.accounts_lookup_name) in
      let row : AccountRow = record {
        id = id;
        username = env.text username;
        password = hash (env.text password);
      } in
      let made = account_from_db env id username (hash (env.text password)) w in
      if not (is_null cached)
      then (cached, w, db)
      else if not db.up
      then (0, w, db)
      else elim (account_row (env.text username) db.accounts) [
        | some r ↦ (let (p, v) = load_account r w in (p, v, db))
        | none ↦ (made.0, made.1, record db { accounts = db.accounts ++ row ∷ [] })
      ]

  -- `insertAccount` records a login: the result, the account and the tables.
  unfoldable insert_account : ℕ → Bytes → Bytes → Bytes → Database → LoginResult × ℕ × Database
  unfolding account_row
  insert_account id username password ip db =
      if not db.up then (database_error, 0, db) else elim (account_row username db.accounts) [
        | none ↦ (account_not_found, 0, db)
        | some r ↦
            (let login : LoginRow = record { id = id; account_id = r.id; ip = ip } in
              if not (env.validate_password password r.password)
              then (invalid_password, 0, db)
              else (success, r.id, record db { logins = db.logins ++ login ∷ [] }))
      ]
