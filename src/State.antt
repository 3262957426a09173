-- ===== src/State.antt =====
-- The objects of core/ and irc/, the caches of ctx.h, and what the program hands to the outside.
-- A shared pointer is a number, and 0 is the null pointer; the objects stand in three heaps. The
-- lists of members and of connections hold no null pointer.

use chatripper.Common.{
  ℕ, Bool, Option, none, some, List, [], ◌∷◌, ◌++◌, Bytes, Map, nat_key, bytes_key, nat_eqb,
  if◌then◌else◌, contains,
}
use chatripper.Bitflags.{Flags}
use chatripper.Caps.{ProtocolCapability}
use chatripper.Modes.User.{UserMode}
use chatripper.Modes.Channel.{ChannelMode}
use chatripper.Modes.Setup.{SetupTask}
use chatripper.Tags.{TagMap}

abbrev pub null : ℕ
null = 0

abbrev pub is_null : ℕ → Bool
is_null p = nat_eqb p 0

-- `value(key)` of a map of pointers: null if there is no entry.
abbrev pub or_null : Option ℕ → ℕ
or_null none = 0
or_null (some p) = p

-- core/account.h. A null `QUuid` is 0.
pub record Account : Type 0 where
  pub uid : ℕ
  pub name : Bytes
  pub nick : Bytes
  pub password : Bytes
  pub host : Bytes
  pub connections : List ℕ
  pub channels : Map Bytes ℕ

-- core/channel.h. `write_locked`: this thread holds `mtx_lock` for writing.
pub record Channel : Type 0 where
  pub uid : ℕ
  pub name : Bytes
  pub topic : Bytes
  pub key : Bytes
  pub server : ℕ
  pub owner : ℕ
  pub members : List ℕ
  pub ban_masks : List Bytes
  pub limit : ℕ
  pub channel_modes : Flags ChannelMode
  pub write_locked : Bool

-- irc/client_connection.h. `closing`: `forceDisconnect` was called.
pub record Connection : Type 0 where
  pub setup_tasks : Flags SetupTask
  pub capabilities : Flags ProtocolCapability
  pub user_modes : Flags UserMode
  pub logged_in : Bool
  pub user : Bytes
  pub realname : Bytes
  pub channels : Map Bytes ℕ
  pub channel_members : Map ℕ (List ℕ)
  pub account : ℕ
  pub is_ready : Bool
  pub user_already_exists : Bool
  pub nick : Bytes
  pub pass_given : Bytes
  pub host : Bytes
  pub uid : ℕ
  pub closing : Bool

-- core/qtypes.h, the fields that the program reads. A message goes to a channel or to an account.
pub data Target : Type 0 where
  to_channel to_account : ℕ → Target

pub record Message : Type 0 where
  pub account : ℕ
  pub conn_id : ℕ
  pub nick : Bytes
  pub user : Bytes
  pub host : Bytes
  pub text : Bytes
  pub raw : Bytes
  pub tags : TagMap
  pub target : Target
  pub tag_msg : Bool

pub record JoinEvent : Type 0 where
  pub channel : ℕ
  pub account : ℕ
  pub from_system : Bool

pub record PartEvent : Type 0 where
  pub channel : ℕ
  pub account : ℕ
  pub message : Bytes
  pub from_system : Bool

pub record RenameEvent : Type 0 where
  pub channel : ℕ
  pub account : ℕ
  pub old_name : Bytes
  pub new_name : Bytes
  pub message : Bytes

pub record NickEvent : Type 0 where
  pub account : ℕ
  pub old_nick : Bytes
  pub new_nick : Bytes

-- core/metadata.h. A `QVariant` holds a text, or nothing. `RefType` and the statements are those of
-- lib/sql.h.
abbrev pub Variant : Type 0
Variant = Option Bytes

pub data RefType : Type 0 where
  ref_account ref_channel : RefType

pub data Statement : Type 0 where
  metadata_upsert : Bytes → Bytes → ℕ → RefType → Statement
  metadata_remove : Bytes → ℕ → Statement
  metadata_subscribe_bulk metadata_unsubscribe_bulk : ℕ → List Bytes → ℕ → Statement

pub record Metadata : Type 0 where
  -- `m_account` or `m_channel`
  pub owner : Target
  pub kv : Map Bytes Variant
  pub subscribers : Map Bytes (List ℕ)
  -- the calls of `sql::`, in order
  pub statements : List Statement

-- A call posted to the event loop of a connection's thread (`Qt::QueuedConnection`).
pub data Call : Type 0 where
  call_part : ℕ → PartEvent → Call
  call_rename : ℕ → RenameEvent → Call
  call_nick : ℕ → NickEvent → Call

pub record World : Type 0 where
  pub account_at : ℕ → Account
  pub next_account : ℕ
  pub channel_at : ℕ → Channel
  pub next_channel : ℕ
  pub connection_at : ℕ → Connection
  -- ctx.h
  pub channels : Map Bytes ℕ
  pub accounts : List ℕ
  pub accounts_lookup_uuid : Map ℕ ℕ
  pub accounts_lookup_name : Map Bytes ℕ
  pub irc_nicks : Map Bytes ℕ
  -- the `static` variable of `handleCAP`, one for all connections
  pub client_cap_version : ℕ
  -- `m_metadata` of the accounts and of the channels; null if there is no entry
  pub account_metadata : Map ℕ Metadata
  pub channel_metadata : Map ℕ Metadata
  -- `sendData` of each connection, `invokeMethod`, and `sql::insert_message`, in order
  pub sent : List (ℕ × Bytes)
  pub posted : List Call
  pub stored : List Message

abbrev pub update {ℓ} : {A : Type ℓ} → (ℕ → A) → ℕ → A → ℕ → A
update f i a j = if nat_eqb i j then a else f j

abbrev pub set_account : ℕ → Account → World → World
set_account p a w = record w { account_at = update w.account_at p a }

abbrev pub set_channel : ℕ → Channel → World → World
set_channel p ch w = record w { channel_at = update w.channel_at p ch }

abbrev pub set_connection : ℕ → Connection → World → World
set_connection p c w = record w { connection_at = update w.connection_at p c }

-- `emit sendData(data)`
abbrev pub send_data : ℕ → Bytes → World → World
send_data c line w = record w { sent = w.sent ++ (c, line) ∷ [] }

abbrev pub post : Call → World → World
post call w = record w { posted = w.posted ++ call ∷ [] }

-- Insertion into a `QSet`.
unfoldable pub add_to_set : ℕ → List ℕ → List ℕ
add_to_set a xs = if contains xs a then xs else xs ++ a ∷ []

-- Insertion of the elements of a list, one after the other.
unfoldable pub add_all_to_set : List ℕ → List ℕ → List ℕ
unfolding add_to_set
add_all_to_set [] xs = xs
add_all_to_set (a ∷ rest) xs = add_all_to_set rest (add_to_set a xs)

-- `for (x : xs) w = f x w`
unfoldable pub for_each {ℓ} : {A : Type ℓ} → List A → (A → World → World) → World → World
for_each [] f w = w
for_each (x ∷ xs) f w = for_each xs f (f x w)
