-- ===== src/Sql/Schema.antt =====
-- lib/sql.cpp, `create_schema`: the columns of each table and the constraints that an insertion meets.
use chatripper.Common.{
  Bool, true, false, ◌&&◌, ◌||◌, not, List, [], ◌∷◌, Bytes, codes, bytes_key, contains,
}

pub data Table : Type 0 where
  accounts servers server_members channels uploads roles account_channels account_roles permissions
        logins events messages metadata metadata_subs :
      Table

-- `required`: NOT NULL, or part of the primary key, and without a default.
pub record Column : Type 0 where
  pub name : Bytes
  required : Bool

abbrev required : Bytes → Column
required n = record { name = n; required = true }

abbrev optional : Bytes → Column
optional n = record { name = n; required = false }

unfoldable pub columns : Table → List Column
columns accounts =
    required (codes "id")
    ∷ required (codes "username")
    ∷ required (codes "password")
    ∷ optional (codes "creation_date")
    ∷ []
columns servers =
    required (codes "id")
    ∷ required (codes "name")
    ∷ required (codes "account_owner_id")
    ∷ optional (codes "creation_date")
    ∷ []
columns server_members =
    required (codes "account_id") ∷ required (codes "server_id") ∷ optional (codes "join_date") ∷ []
columns channels =
    required (codes "id")
    ∷ required (codes "server_id")
    ∷ required (codes "name")
    ∷ optional (codes "topic")
    ∷ optional (codes "account_owner_id")
    ∷ optional (codes "creation_date")
    ∷ []
columns uploads =
    required (codes "id")
    ∷ required (codes "account_owner_id")
    ∷ required (codes "path")
    ∷ required (codes "type")
    ∷ required (codes "variant")
    ∷ optional (codes "creation_date")
    ∷ []
columns roles =
    required (codes "id")
    ∷ required (codes "server_id")
    ∷ required (codes "name")
    ∷ optional (codes "icon")
    ∷ optional (codes "color")
    ∷ optional (codes "priority")
    ∷ optional (codes "creation_date")
    ∷ []
columns account_channels = required (codes "account_id") ∷ required (codes "channel_id") ∷ []
columns account_roles = required (codes "account_id") ∷ required (codes "role_id") ∷ []
columns permissions =
    required (codes "id") ∷ required (codes "role_id") ∷ optional (codes "permission_bits") ∷ []
columns logins =
    required (codes "id")
    ∷ required (codes "account_id")
    ∷ required (codes "ip")
    ∷ optional (codes "login_date")
    ∷ []
columns events =
    required (codes "id")
    ∷ required (codes "account_id")
    ∷ optional (codes "channel_id")
    ∷ optional (codes "recipient_id")
    ∷ required (codes "event_type")
    ∷ required (codes "data")
    ∷ optional (codes "reply_to")
    ∷ optional (codes "display_name")
    ∷ optional (codes "creation_date")
    ∷ []
columns messages =
    required (codes "id")
    ∷ required (codes "sender_id")
    ∷ optional (codes "channel_id")
    ∷ required (codes "text")
    ∷ optional (codes "raw")
    ∷ optional (codes "tags")
    ∷ optional (codes "nick")
    ∷ optional (codes "host")
    ∷ optional (codes "username")
    ∷ optional (codes "targets")
    ∷ optional (codes "from_system")
    ∷ optional (codes "tag_msg")
    ∷ optional (codes "creation_date")
    ∷ []
columns metadata =
    required (codes "id")
    ∷ required (codes "key")
    ∷ required (codes "value")
    ∷ required (codes "ref_id")
    ∷ required (codes "ref_type")
    ∷ optional (codes "created_at")
    ∷ optional (codes "modified_at")
    ∷ []
columns metadata_subs =
    required (codes "id") ∷ required (codes "metadata_id") ∷ required (codes "account_id") ∷ []

-- The primary key and the UNIQUE constraints.
unfoldable pub unique_sets : Table → List (List Bytes)
unique_sets accounts = (codes "id" ∷ []) ∷ (codes "username" ∷ []) ∷ []
unique_sets server_members = (codes "account_id" ∷ codes "server_id" ∷ []) ∷ []
unique_sets channels = (codes "id" ∷ []) ∷ (codes "server_id" ∷ codes "name" ∷ []) ∷ []
unique_sets roles = (codes "id" ∷ []) ∷ (codes "server_id" ∷ codes "name" ∷ []) ∷ []
unique_sets account_channels = (codes "account_id" ∷ codes "channel_id" ∷ []) ∷ []
unique_sets account_roles = (codes "account_id" ∷ codes "role_id" ∷ []) ∷ []
unique_sets metadata = (codes "id" ∷ []) ∷ (codes "ref_id" ∷ codes "key" ∷ []) ∷ []
unique_sets _ = (codes "id" ∷ []) ∷ []

unfoldable pub names_of : List Column → List Bytes
names_of [] = []
names_of (c ∷ cs) = c.name ∷ names_of cs

-- Every name of the first list stands in the second.
unfoldable pub all_in : List Bytes → List Bytes → Bool
unfolding contains
all_in [] there = true
all_in (n ∷ ns) there = contains there n && all_in ns there

unfoldable pub has_required : List Column → List Bytes → Bool
unfolding contains
has_required [] given = true
has_required (c ∷ cs) given = (not c.required || contains given c.name) && has_required cs given

-- `INSERT INTO table (given) VALUES ...` is refused if a column is not of the table, or if one that is required
-- is missing.
unfoldable pub may_insert : Table → List Bytes → Bool
unfolding columns names_of all_in has_required
may_insert table given =
    all_in given (names_of (columns table)) && has_required (columns table) given

unfoldable pub is_one_of : List Bytes → List (List Bytes) → Bool
unfolding all_in
is_one_of target [] = false
is_one_of target (s ∷ ss) = (all_in s target && all_in target s) || is_one_of target ss

-- `ON CONFLICT (target)` is refused unless a constraint of the table is on just these columns.
unfoldable pub may_conflict : Table → List Bytes → Bool
unfolding unique_sets is_one_of
may_conflict table target = is_one_of target (unique_sets table)
