-- ===== src/Env.antt =====
-- What the program takes from outside: Qt's conversions, the configuration, bcrypt, and the Python
-- modules of the operator. A module's handler may change the event that it is given; it is taken
-- not to change the state of the server by itself.
use chatripper.Common.{ℕ, Bool, Option, none, some, List, Bytes, Map}
use chatripper.Common.Time.{ℤ}
use chatripper.State.{JoinEvent, PartEvent, RenameEvent, NickEvent, Message, World, Variant}
use chatripper.Tags.{TagMap}

-- `QEnums::QIRCEvent`
pub data EventType : Type 0 where
  channel_join channel_part channel_msg private_msg tag_msg channel_rename nick_change
        auth_sasl_plain raw_msg verify_msg_tags peer_max_connections :
      EventType

-- The classes of the event objects.
pub data EventClass : Type 0 where
  join_event part_event message_event rename_event nick_event auth_event : EventClass

-- The `QVariant` that `SnakePit::event` returns: an event object of some class, with its
-- `cancelled()`, or anything else.
pub data Returned : Type 0 where
  returned : EventClass → Bool → Returned
  no_event : Returned

-- `result.canConvert<QSharedPointer<T>>()`, and then `cancelled()`.
unfoldable pub converted : EventClass → Returned → Option Bool
converted join_event (returned join_event b) = some b
converted part_event (returned part_event b) = some b
converted message_event (returned message_event b) = some b
converted rename_event (returned rename_event b) = some b
converted nick_event (returned nick_event b) = some b
converted auth_event (returned auth_event b) = some b
converted _ _ = none

-- `AuthUser`: user name, password, and what the handler decided.
pub record AuthEvent : Type 0 where
  pub username : Bytes
  pub password : Bytes
  pub cancelled : Bool
  pub reason : Bytes

-- `RawMessage`: the line, and what the handler decided.
pub record RawEvent : Type 0 where
  pub raw : Bytes
  pub cancelled : Bool

-- `SnakePit`: whether a module handles an event, and what the handlers make of an event object.
pub record Plugin : Type 0 where
  pub has_handler : EventType → Bool
  pub on_join : JoinEvent → JoinEvent × Returned
  pub on_part : PartEvent → PartEvent × Returned
  pub on_message : EventType → Message → Message × Returned
  pub on_rename : RenameEvent → RenameEvent × Returned
  pub on_nick : NickEvent → NickEvent × Returned
  -- the event afterwards, and whether the result is an event of this class
  pub on_raw : Bytes → RawEvent × Bool
  -- the line without its tags, and the tags
  pub on_tags : Bytes → TagMap → Returned
  -- the object returned, if the result is an event of this class
  pub on_auth : AuthEvent → Option AuthEvent

pub record Env : Type 0 where
  pub server_name : Bytes
  pub default_host : Bytes
  pub server_password : Bytes
  pub motd : Bytes
  pub server_capabilities : List Bytes
  pub isupport : Map Bytes Bytes
  pub concurrent_peers : ℕ
  -- `QUuid::createUuid`, for the object with this pointer
  pub create_uuid : ℕ → ℕ
  pub to_int : Bytes → Option ℤ
  pub from_base64 : Bytes → Bytes
  pub is_letter : ℕ → Bool
  pub is_number : ℕ → Bool
  pub validate_password : Bytes → Bytes → Bool
  pub plugin : Plugin
  -- `QString::fromUtf8` and `QString::toUpper`, in UTF-8
  pub text : Bytes → Bytes
  pub upper : Bytes → Bytes
  -- the rows that `sql::metadata_get` finds: key, value, and the account of a subscription
  pub metadata_rows : ℕ → List (Bytes × Variant × ℕ)
  -- `generateBatchRef`, a random text
  pub batch_ref : World → Bytes
