-- ===== src/Examples/Storage.antt =====
-- lib/sql.cpp at work, on small tables.
use chatripper.Common.{
  bytes_eqb, bytes_key, ◌==◌, ◌≡◌, ◌≢◌, refl, ℕ, ◌+◌, true, false, some, List, [], ◌∷◌, ◌++◌, arith,
  codes, find, Bytes,
}
use chatripper.State.{Metadata, Statement, to_account, ref_account}
use chatripper.Core.Metadata.{MetadataEvent, handle, ref_id}
use chatripper.Sql.Database.{has_account, has_server, AccountRow, Database, MetadataRow, Store}
use chatripper.Sql.Rows.{row_of}
use chatripper.Sql.Metadata.{metadata_subscribe, subscribe_bulk}
use chatripper.Sql.Sync.{InStep, run_all, handle-InStep}
use chatripper.Sql.Refused.{subscribe_lem}
use chatripper.Sql.Accounts.{account_get_or_create}
use chatripper.Sql.Accounts.Once.{get_or_create-again}
use chatripper.Core.Directory.Objects.{new_server}
use chatripper.Core.Directory.Filing.{empty_directory}
use chatripper.Sql.Preload.{Preload}
use chatripper.Sql.Servers.Free.{Calm, server_from_db-Free}
use chatripper.Sql.Servers.Once.{JoinsOnce, server_add_member_lem}
use chatripper.Core.Directory.{server_from_db}
use chatripper.Examples.Data.{sample_env, sample_world}

abbrev carol : AccountRow
carol = record { id = 13; username = codes "carol"; password = codes "pw" }

abbrev url_row : MetadataRow
url_row = record {
  id = 71;
  key = codes "url";
  value = codes "a.org";
  ref_id = 11;
  ref_type = ref_account;
}

abbrev tables : Database
tables = record {
  up = true;
  accounts = carol ∷ [];
  channels = [];
  servers = [];
  server_members = [];
  uploads = [];
  roles = [];
  account_roles = [];
  permissions = [];
  account_channels = [];
  logins = [];
  messages = [];
  metadata = url_row ∷ [];
  metadata_subs = [];
}

abbrev plain : Bytes → Bytes
plain s = s

subscribe_lem_example :
    (metadata_subscribe plain 5 11 (codes "url") 12 tables ≡ (false, tables))
    × ((subscribe_bulk plain (λ n. n) 11 (codes "url" ∷ []) 12 tables).1 ≡ tables)
subscribe_lem_example = subscribe_lem plain (λ n. n) 5 11 12 (codes "url") (codes "url" ∷ []) tables

get_or_create-again_example :
    let made =
      account_get_or_create sample_env plain 9 (codes "carol") (codes "x") sample_world tables in
    (made.0 ≢ 0)
    × (account_get_or_create sample_env plain 10 (codes "carol") (codes "y") made.1 made.2 ≡ made)
get_or_create-again_example =
    get_or_create-again sample_env plain 9 10 (codes "carol") (codes "x") (codes "y") sample_world
      tables refl refl (λ e. cc) (λ e. ground (arith, e))

-- The metadata of alice, whose id is 11.
abbrev mine : Metadata
mine = record {
  owner = to_account 1;
  kv = (codes "url", some (codes "a.org")) ∷ [];
  subscribers = [];
  statements = [];
}

abbrev request : MetadataEvent
request = record {
  account = 1;
  dest = 1;
  channel = 0;
  subcmd = codes "SET";
  args = codes "url" ∷ codes "b.org" ∷ [];
  metadata = [];
  error_code = [];
  error_target = [];
  error_key = [];
  subscriptions = [];
}

-- A driver that marks the bytes.
abbrev hex : Bytes → Bytes
hex s = codes "\\x" ++ s

set_is_no_clear : (codes "SET" == codes "CLEAR") ≡ false
unfolding bytes_eqb
set_is_no_clear = refl

mine-InStep : InStep plain hex sample_world mine tables
unfolding find row_of ref_id
mine-InStep k = ground arith

handle-InStep_example :
    let after = (handle plain plain sample_world request mine).1 in
    (calls : List Statement) × (after.statements ≡ mine.statements ++ calls)
    × InStep plain hex sample_world after (run_all plain hex (λ n. n) calls tables)
handle-InStep_example =
    handle-InStep plain plain hex sample_world (λ n. n) tables request mine refl set_is_no_clear
      mine-InStep

abbrev file : Preload
file = record {
  servers = codes "lobby" ∷ [];
  users = record { name = codes "dave"; password = codes "x"; server = codes "lobby" } ∷ [];
  channels =
      record {
        name = codes "news";
        owner = codes "dave";
        topic = codes "hi";
        server = codes "lobby";
        members = codes "dave" ∷ codes "nobody" ∷ [];
      }
      ∷ [];
}

abbrev before : Store
before = record {
  world = sample_world;
  directory = empty_directory;
  tables = tables;
  writer_waits = false;
}

abbrev numbered : Bytes → ℕ → ℕ
numbered name i = 100 + i

before-Calm : Calm before
unfolding new_server
before-Calm = (((λ e. ground (arith, e)), λ p. refl), refl)

-- A server with the id 7 is in the cache and in the tables; carol has the id 13.
abbrev hosting : Store
hosting = record before {
  directory = (server_from_db 7 (codes "lobby") 1 0 before.directory).1;
  tables = record tables {
    servers = record { id = 7; name = codes "lobby"; owner_id = 11; creation_date = 0 } ∷ [];
  };
}

carol_has_row : has_account 13 hosting.tables.accounts ≡ true
unfolding has_account
carol_has_row = refl

server_has_row : has_server 7 hosting.tables.servers ≡ true
unfolding has_server
server_has_row = refl

server_add_member_lem_example : (t : Store) × JoinsOnce 13 7 hosting t
server_add_member_lem_example =
    server_add_member_lem 13 7 hosting (λ e. ground (arith, e)) (λ e. ground (arith, e)) refl
      carol_has_row server_has_row
      (server_from_db-Free 7 (codes "lobby") 1 0 before.directory before-Calm.0, refl)
