-- ===== src/Sql/Messages.antt =====
-- lib/sql.cpp, the messages.
use chatripper.Common.{
  ℕ, ◌+◌, ◌%◌, Bool, true, false, not, ◌&&◌, nat_eqb, List, [], ◌∷◌, ◌++◌, Bytes, codes, is_empty,
  if◌then◌else◌,
}
use chatripper.State.{Message}
use chatripper.Sql.Schema as Schema
use chatripper.Sql.Schema.{may_insert}
use chatripper.Sql.Database.{Database}

-- The columns behind the first two.
abbrev pub text_columns : List Bytes
text_columns =
    codes "channel_id"
    ∷ codes "text"
    ∷ codes "raw"
    ∷ codes "tags"
    ∷ codes "nick"
    ∷ codes "host"
    ∷ codes "username"
    ∷ codes "targets"
    ∷ codes "from_system"
    ∷ codes "tag_msg"
    ∷ []

-- One message, which is not null.
unfoldable pub insert_message : Message → Database → Bool × Database
insert_message m db =
    if not (db.up && may_insert Schema.messages (codes "id" ∷ codes "sender_id" ∷ text_columns))
    then (false, db)
    else (true, record db { messages = db.messages ++ m ∷ [] })

-- `flush`: an insertion that fails is passed over. What waits, and the table.
abbrev pub Waiting : Type 0
Waiting = List Message × List Message

unfoldable pub flush_messages : Bool → Waiting → Waiting
flush_messages may (pending, table) = ([], if may then table ++ pending else table)

unfoldable pub collect_messages : Bool → ℕ → List Message → Waiting → Waiting
unfolding flush_messages
collect_messages may count [] w = flush_messages may w
collect_messages may count (m ∷ ms) (pending, table) =
    let more : Waiting = (pending ++ m ∷ [], table) in
    collect_messages may (count + 1) ms
      (if nat_eqb ((count + 1) % 1000) 0 then flush_messages may more else more)

unfoldable pub insert_messages : List Message → Database → Database
unfolding collect_messages
insert_messages ms db =
    let may =
      db.up && may_insert Schema.messages (codes "id" ∷ codes "account_id" ∷ text_columns) in
    if is_empty ms
    then db
    else record db { messages = (collect_messages may 0 ms ([], db.messages)).1 }
