-- ===== src/Examples/Data.antt =====
-- The data of the tests: two accounts, three connections, one channel.
use chatripper.Common.{
  ℕ, Bool, true, false, Option, none, some, [], ◌∷◌, ◌-◌, ◌&&◌, leb, Bytes, codes, bytes_eqb,
  nat_eqb, if◌then◌else◌,
}
use chatripper.Common.Time.{ℤ, pos}
use chatripper.Bitflags.{Flags, no_flags}
use chatripper.State.{
  Account, Channel, Connection, Metadata, World, Message, to_channel, to_account, JoinEvent,
  RenameEvent, PartEvent, NickEvent,
}
use chatripper.Core.Metadata.{MetadataEvent}
use chatripper.Env.{Env, Plugin, AuthEvent, no_event}
use chatripper.Modes.Setup.{SetupTask}

abbrev quiet_plugin : Plugin
quiet_plugin = record {
  has_handler = λ e. false;
  on_join = λ e. (e, no_event);
  on_part = λ e. (e, no_event);
  on_message = λ t m. (m, no_event);
  on_rename = λ e. (e, no_event);
  on_nick = λ e. (e, no_event);
  on_auth = λ e. none;
  on_raw = λ line. (record { raw = line; cancelled = false }, true);
  on_tags = λ line tags. no_event;
}

abbrev is_ascii_letter : ℕ → Bool
is_ascii_letter c = leb 97 c && leb c 122

abbrev is_ascii_digit : ℕ → Bool
is_ascii_digit c = leb 48 c && leb c 57

-- One digit.
abbrev pub digit_to_int : Bytes → Option ℤ
digit_to_int (c ∷ []) = if is_ascii_digit c then some (pos (c - 48)) else none
digit_to_int s = none

abbrev pub sample_env : Env
sample_env = record {
  server_name = codes "irc.local";
  default_host = codes "host";
  server_password = codes "pw";
  motd = [];
  server_capabilities = codes "echo-message" ∷ codes "message-tags" ∷ [];
  isupport = [];
  concurrent_peers = 3;
  create_uuid = λ n. n;
  to_int = digit_to_int;
  from_base64 = λ s. s;
  is_letter = is_ascii_letter;
  is_number = is_ascii_digit;
  validate_password = bytes_eqb;
  plugin = quiet_plugin;
  text = λ s. s;
  upper = λ s. s;
  metadata_rows = λ ref. [];
  batch_ref = λ w. codes "b1";
}

abbrev pub alice : Account
alice = record {
  uid = 11;
  name = codes "alice";
  nick = codes "alice";
  password = codes "secret";
  host = codes "host";
  connections = 1 ∷ [];
  channels = (codes "lobby", 1) ∷ [];
}

abbrev pub bob : Account
bob = record {
  uid = 12;
  name = codes "bob";
  nick = codes "bob";
  password = codes "hunter2";
  host = codes "host";
  connections = 2 ∷ 3 ∷ [];
  channels = (codes "lobby", 1) ∷ [];
}

abbrev pub nobody : Account
nobody = record {
  uid = 0;
  name = [];
  nick = [];
  password = [];
  host = [];
  connections = [];
  channels = [];
}

abbrev pub lobby : Channel
lobby = record {
  uid = 21;
  name = codes "lobby";
  topic = [];
  key = [];
  server = 0;
  owner = 0;
  members = 1 ∷ 2 ∷ [];
  ban_masks = [];
  limit = 0;
  channel_modes = no_flags;
  write_locked = false;
}

abbrev pub open_connection : ℕ → Connection
open_connection account = record {
  setup_tasks = no_flags;
  capabilities = no_flags;
  user_modes = no_flags;
  logged_in = true;
  user = codes "u";
  realname = [];
  channels = (codes "lobby", 1) ∷ [];
  channel_members = (1, 1 ∷ 2 ∷ []) ∷ [];
  account = account;
  is_ready = true;
  user_already_exists = false;
  nick = [];
  pass_given = codes "pw";
  host = codes "host";
  uid = 31;
  closing = false;
}

-- A connection that has done its setup and waits to be made ready.
abbrev pub waiting_connection : Connection
waiting_connection = record (open_connection 0) {
  is_ready = false;
  logged_in = false;
  nick = codes "carol";
  channels = [];
  channel_members = [];
}

-- A connection that has not begun its setup.
abbrev new_flags : Flags SetupTask
new_flags = record { bits = 7 }

abbrev account_of : ℕ → Account
account_of p = if nat_eqb p 1 then alice else if nat_eqb p 2 then bob else nobody

abbrev connection_of : ℕ → Connection
connection_of c =
    if nat_eqb c 1
    then open_connection 1
    else if nat_eqb c 2
    then open_connection 2
    else if nat_eqb c 3
    then open_connection 2
    else if nat_eqb c 4
    then waiting_connection
    else record waiting_connection { setup_tasks = new_flags }

abbrev alice_metadata : Metadata
alice_metadata = record {
  owner = to_account 1;
  kv = (codes "url", some (codes "a.org")) ∷ [];
  subscribers = [];
  statements = [];
}

abbrev pub sample_world : World
sample_world = record {
  account_at = account_of;
  next_account = 3;
  channel_at = λ p. lobby;
  next_channel = 2;
  connection_at = connection_of;
  channels = (codes "lobby", 1) ∷ [];
  accounts = 1 ∷ 2 ∷ [];
  accounts_lookup_uuid = (11, 1) ∷ (12, 2) ∷ [];
  accounts_lookup_name = (codes "alice", 1) ∷ (codes "bob", 2) ∷ [];
  irc_nicks = (codes "alice", 1) ∷ (codes "bob", 2) ∷ [];
  client_cap_version = 0;
  account_metadata = (1, alice_metadata) ∷ [];
  channel_metadata = [];
  sent = [];
  posted = [];
  stored = [];
}

abbrev pub hello : Message
hello = record {
  account = 1;
  conn_id = 31;
  nick = codes "alice";
  user = codes "u";
  host = codes "host";
  text = codes "hi";
  raw = [];
  tags = [];
  target = to_channel 1;
  tag_msg = false;
}

abbrev pub bob_leaves : PartEvent
bob_leaves = record { channel = 1; account = 2; message = []; from_system = false }

abbrev pub carol_leaves : PartEvent
carol_leaves = record { channel = 1; account = 4; message = []; from_system = false }

abbrev pub bob_joins : JoinEvent
bob_joins = record { channel = 1; account = 2; from_system = false }

abbrev pub alice_sets_url : MetadataEvent
alice_sets_url = record {
  account = 1;
  dest = 1;
  channel = 0;
  subcmd = codes "SET";
  args = codes "url" ∷ codes "b.org" ∷ [];
  metadata = [];
  error_code = [];
  error_target = [];
  error_key = [];
  subscriptions = [];
}

abbrev pub lobby_renames : RenameEvent
lobby_renames = record {
  channel = 1;
  account = 1;
  old_name = codes "lobby";
  new_name = codes "hall";
  message = [];
}

abbrev pub alice_renames : NickEvent
alice_renames = record { account = 1; old_nick = codes "alice"; new_nick = codes "Ann" }

abbrev pub bob_logs_in : AuthEvent
bob_logs_in = record {
  username = codes "bob";
  password = codes "hunter2";
  cancelled = false;
  reason = [];
}
