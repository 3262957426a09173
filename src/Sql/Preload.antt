-- ===== src/Sql/Preload.antt =====
-- lib/sql.cpp, `preload_from_file`: accounts, servers and channels from a file, which is read and
-- parsed outside. `fresh` gives the ids that are made for the entry of a name.
pub mod Returns
use chatripper.Common.{
  ℕ, Bool, true, false, Option, none, some, List, [], ◌∷◌, Bytes, codes, bytes_key, Map, find,
  insert, has_key, if◌then◌else◌,
}
use chatripper.Common.Outcome.{Outcome, done, ◌>>=◌}
use chatripper.State.{is_null, or_null}
use chatripper.Env.{Env}
use chatripper.Core.Directory.{add_account, add_channel}
use chatripper.Sql.Accounts.{account_get_or_create}
use chatripper.Sql.Channels.{channel_get_or_create, channel_add_member}
use chatripper.Sql.Database.{via, Store}
use chatripper.Sql.Servers.{server_get_or_create, server_add_member}

pub record UserEntry : Type 0 where
  pub name : Bytes
  pub password : Bytes
  pub server : Bytes

pub record ChannelEntry : Type 0 where
  pub name : Bytes
  pub owner : Bytes
  pub topic : Bytes
  pub server : Bytes
  pub members : List Bytes

-- The file.
pub record Preload : Type 0 where
  pub servers : List Bytes
  pub users : List UserEntry
  pub channels : List ChannelEntry

-- `serversByName` or `accountsByName`, and the store.
abbrev Loaded : Type 0
Loaded = Map Bytes ℕ × Store

-- `server_add_member(...)`, and then `server->add_account(...)`.
unfoldable pub join_server : ℕ → ℕ → Store → Outcome (Bool × Store)
unfolding server_add_member add_account
join_server account server s =
    let account_uid = (s.world.account_at account).uid in
    let server_uid = (s.directory.servers.object_at server).uid in
    via account (via server (server_add_member account_uid server_uid s)) >>= λ added.
    via server (add_account added.1.world server account added.1.directory) >>= λ d.
    done (true, record added.1 { directory = d })

module _ (env : Env) (hash : Bytes → Bytes) (fresh : Bytes → ℕ → ℕ) (now : ℕ) where
  unfoldable pub account_for : Bytes → Bytes → Store → ℕ × Store
  unfolding account_get_or_create
  account_for name password s =
      let (p, w, tables) =
        account_get_or_create env hash (fresh name 0) name password s.world s.tables in
      (p, record s { world = w; tables = tables })

  unfoldable pub preload_servers : ℕ → List Bytes → Loaded → Outcome Loaded
  unfolding server_get_or_create join_server
  preload_servers admin [] l = done l
  preload_servers admin (name ∷ rest) (known, s) =
      server_get_or_create (fresh name) name admin now s >>= λ made.
      if is_null made.0
      then preload_servers admin rest (known, made.1)
      else join_server admin made.0 made.1 >>= λ joined.
          preload_servers admin rest (insert name made.0 known, joined.1)

  unfoldable pub preload_users : Map Bytes ℕ → List UserEntry → Loaded → Outcome Loaded
  unfolding account_for join_server
  preload_users servers [] l = done l
  preload_users servers (u ∷ rest) (known, s) =
      let (account, t) = account_for u.name u.password s in
      if is_null account
      then preload_users servers rest (known, t)
      else elim (find u.server servers) [
        | none ↦ preload_users servers rest (insert u.name account known, t)
        | some server ↦
            (join_server account server t >>= λ joined.
            preload_users servers rest (insert u.name account known, joined.1))
      ]

  -- `server` is null if there is none.
  unfoldable pub preload_members : Map Bytes ℕ → ℕ → ℕ → List Bytes → Store → Outcome (Bool × Store)
  unfolding channel_add_member add_account
  preload_members accounts channel server [] s = done (true, s)
  preload_members accounts channel server (name ∷ rest) s = elim (find name accounts) [
    | none ↦ preload_members accounts channel server rest s
    | some member ↦
        (let account_uid = (s.world.account_at member).uid in
          let channel_uid = (s.world.channel_at channel).uid in
          let stored = record s {
            tables = (channel_add_member account_uid channel_uid s.tables).1;
          } in
          let entered = via member (
            via channel (
              if is_null server
              then done stored.directory
              else add_account stored.world server member stored.directory)) in
          entered >>= λ d.
          preload_members accounts channel server rest (record stored { directory = d }))
  ]

  unfoldable pub preload_channels :
      Map Bytes ℕ → Map Bytes ℕ → List ChannelEntry → Store → Outcome (Bool × Store)
  unfolding channel_get_or_create add_channel preload_members
  preload_channels servers accounts [] s = done (true, s)
  preload_channels servers accounts (c ∷ rest) s =
      let owner = or_null (find c.owner accounts) in
      let server = or_null (find c.server servers) in
      let (channel, w, tables) =
        channel_get_or_create s.directory (fresh c.name 0) c.name c.topic owner server s.world
          s.tables in
      let made = record s { world = w; tables = tables } in
      if is_null channel
      then preload_channels servers accounts rest made
      else (if is_null server
          then done made.directory
          else add_channel w server channel made.directory)
        >>= λ d.
            preload_members accounts channel server c.members (record made { directory = d })
            >>= λ done_members. preload_channels servers accounts rest done_members.1

  unfoldable pub preload_from_file : Preload → Store → Outcome (Bool × Store)
  unfolding account_for preload_servers preload_users preload_channels
  preload_from_file file s =
      let (admin, start) = account_for (codes "admin") (codes "admin") s in
      if is_null admin
      then done (false, start)
      else preload_servers admin file.servers ([], start) >>= λ servers.
          preload_users servers.0 file.users (insert (codes "admin") admin [], servers.1)
          >>= λ users. preload_channels servers.0 users.0 file.channels users.1
