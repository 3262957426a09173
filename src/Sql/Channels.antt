-- ===== src/Sql/Channels.antt =====
-- lib/sql.cpp, the channels and their members, and the loading of both by ctx.cpp at the start.
pub mod Members
use chatripper.Common.{
  ℕ, ◌+◌, Bool, true, false, not, ◌&&◌, ◌||◌, nat_eqb, Option, none, some, List, [], ◌∷◌, ◌++◌,
  length, Bytes, codes, bytes_key, bytes_eqb, Map, find, insert, has_key, is_empty, if◌then◌else◌,
}
use chatripper.State.{World, is_null, or_null}
use chatripper.Env.{Env}
use chatripper.Core.Caches.{get_by_uid}
use chatripper.Core.Channels.{create_from_db, add_members}
use chatripper.Core.Directory.{Directory}
use chatripper.Core.Directory.Tables.{lookup}
use chatripper.Sql.Schema as Schema
use chatripper.Sql.Schema.{may_insert}
use chatripper.Sql.Database.{AccountRow, ChannelRow, Database}
use chatripper.Sql.Pages.{load_rows, read_pages}
use chatripper.Sql.Accounts.{load_account, account_get_all}

-- `WHERE name = ?`, the first row.
unfoldable channel_row : Bytes → List ChannelRow → Option ChannelRow
channel_row name [] = none
channel_row name (r ∷ rs) =
    let later = channel_row name rs in if bytes_eqb r.name name then some r else later

unfoldable channel_exists : Bytes → World → Database → Bool
unfolding channel_row
channel_exists name w db =
    if has_key name w.channels
    then true
    else if not db.up
    then false
    else elim (channel_row name db.channels) [ none ↦ false | some r ↦ true ]

-- An account stands beside a channel.
unfoldable pub is_member : ℕ → ℕ → List (ℕ × ℕ) → Bool
is_member a c [] = false
is_member a c ((b, d) ∷ rest) = (nat_eqb b a && nat_eqb d c) || is_member a c rest

-- `ON CONFLICT DO NOTHING`
unfoldable pub channel_add_member : ℕ → ℕ → Database → Bool × Database
unfolding is_member
channel_add_member a c db =
    if not db.up
    then (false, db)
    else if is_member a c db.account_channels
    then (true, db)
    else (true, record db { account_channels = db.account_channels ++ (a, c) ∷ [] })

unfoldable pub delete_member : ℕ → ℕ → List (ℕ × ℕ) → List (ℕ × ℕ)
delete_member a c [] = []
delete_member a c ((b, d) ∷ rest) =
    let left = delete_member a c rest in if nat_eqb b a && nat_eqb d c then left else (b, d) ∷ left

-- Whether a row went, and the tables.
unfoldable pub channel_remove_member : ℕ → ℕ → Database → Bool × Database
unfolding is_member delete_member
channel_remove_member a c db = if not db.up then (false, db) else (
  is_member a c db.account_channels,
  record db { account_channels = delete_member a c db.account_channels },
)

-- `insertChannel`
unfoldable insert_channel : Bytes → Database → Bool × Database
insert_channel name db =
    let row : ChannelRow = record {
      id = 0;
      server_id = 0;
      name = name;
      topic = [];
      owner_id = 0;
    } in
    if not (db.up && may_insert Schema.channels (codes "name" ∷ []))
    then (false, db)
    else (true, record db { channels = db.channels ++ row ∷ [] })

-- `accounts a INNER JOIN account_channels ac ON a.id = ac.account_id WHERE ac.channel_id = ?`
unfoldable member_rows : ℕ → List (ℕ × ℕ) → List AccountRow → List AccountRow
unfolding is_member
member_rows c pairs [] = []
member_rows c pairs (r ∷ rs) =
    let rest = member_rows c pairs rs in if is_member r.id c pairs then r ∷ rest else rest

-- `channels c INNER JOIN account_channels ac ON c.id = ac.channel_id WHERE ac.account_id = ?`
unfoldable joined_rows : ℕ → List (ℕ × ℕ) → List ChannelRow → List ChannelRow
unfolding is_member
joined_rows a pairs [] = []
joined_rows a pairs (r ∷ rs) =
    let rest = joined_rows a pairs rs in if is_member a r.id pairs then r ∷ rest else rest

module _ (d : Directory) where
  -- The owner and the server of the row, if they are known.
  unfoldable pub load_channel : ChannelRow → World → ℕ × World
  unfolding get_by_uid lookup create_from_db
  load_channel r w =
      let owner = if is_null r.owner_id then 0 else get_by_uid r.owner_id w in
      let server = if is_null r.server_id then 0 else lookup r.server_id d.servers in
      create_from_db r.id r.name r.topic owner server w

  unfoldable account_get_channels : ℕ → Database → World → List ℕ × World
  unfolding load_rows load_channel joined_rows
  account_get_channels a db w =
      if not db.up
      then ([], w)
      else load_rows load_channel (joined_rows a db.account_channels db.channels) w

  -- The batches have 100 rows.
  unfoldable pub channel_get_all : (ℕ → List ChannelRow) → Database → World → List ℕ × World
  unfolding read_pages load_channel
  channel_get_all order db w =
      if not db.up then ([], w) else read_pages load_channel (length db.channels + 1) 100 0 order w

  -- `server` is null if there is none, and so is `owner`.
  unfoldable pub channel_get_or_create :
      ℕ → Bytes → Bytes → ℕ → ℕ → World → Database → ℕ × World × Database
  unfolding channel_row load_channel create_from_db
  channel_get_or_create id name topic owner server w db =
      let cached = or_null (find name w.channels) in
      let row : ChannelRow = record {
        id = id;
        server_id = (d.servers.object_at server).uid;
        name = name;
        topic = topic;
        owner_id = if is_null owner then 0 else (w.account_at owner).uid;
      } in
      let made = create_from_db id name topic owner server w in
      if not (is_null cached)
      then (cached, w, db)
      else if not db.up
      then (0, w, db)
      else elim (channel_row name db.channels) [
        | some r ↦ (let (p, v) = load_channel r w in (p, v, db))
        | none ↦
            (if is_null server
              then (0, w, db)
              else (made.0, made.1, record db { channels = db.channels ++ row ∷ [] }))
      ]

  module _ (env : Env) where
    unfoldable channel_get_members : ℕ → Database → World → List ℕ × World
    unfolding load_rows load_account member_rows
    channel_get_members c db w =
        if is_null c
        then ([], w)
        else if not db.up
        then ([], w)
        else load_rows (load_account env) (member_rows c db.account_channels db.accounts) w

    -- The loop over the channels in the constructor of `Ctx`.
    unfoldable pub load_members : List ℕ → Database → World → World
    unfolding channel_get_members add_members
    load_members [] db w = w
    load_members (c ∷ cs) db w =
        let known = record w { channels = insert (w.channel_at c).name c w.channels } in
        let (members, v) = channel_get_members (w.channel_at c).uid db known in
        load_members cs db (add_members c members v)

    -- The initial loading.
    unfoldable start_up : (ℕ → List ChannelRow) → (ℕ → List AccountRow) → Database → World → World
    unfolding channel_get_all load_members account_get_all
    start_up channel_order account_order db w =
        let (channels, loaded) = channel_get_all channel_order db w in
        (account_get_all env account_order db (load_members channels db loaded)).1
