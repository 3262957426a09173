-- ===== src/Tags/RoundTrip.antt =====
-- `parseMessageTags` reads what `buildMessageTags` writes.
use chatripper.Common.{
  not, ◌&&◌, Option, none, some, List, [], ◌∷◌, ◌++◌, map, arith, Bytes, codes, is_empty, join,
  if◌then◌else◌, bytes_key, All, All-append, Bool-cases, inl, inr,
}
use chatripper.Bitflags
use chatripper.Bitflags.{Flags}
use chatripper.Caps.{ProtocolCapability, account_tag, capability_flags}
use chatripper.Tags.Single.{tag_text-IsSafe, IsTag}
use chatripper.Tags.{TagMap, tag_text, account_tags, tag_value}
use chatripper.Tags.Escape.{chop_backslash, IsSafe, escape-IsSafe}

-- The account tag as the reader gets it.
unfoldable pub account_map : Flags ProtocolCapability → Option Bytes → TagMap
account_map caps none = []
account_map caps (some name) =
    if Bitflags.has account_tag caps && not (is_empty name)
    then (codes "account", tag_value (chop_backslash name)) ∷ []
    else []

pub account_tags-IsSafe :
    (caps : Flags ProtocolCapability) (src : Option Bytes)
    → All (All IsSafe) (account_tags caps src)
unfolding account_tags
account_tags-IsSafe caps none = tt
account_tags-IsSafe caps (some name) =
    elim (Bool-cases (Bitflags.has account_tag caps && not (is_empty name))) [
      | inl e ↦ rw e (All-append IsSafe (codes "account=") _ (omega arith) (escape-IsSafe name), tt)
      | inr e ↦ rw e tt
    ]

pub map-IsSafe : (tags : TagMap) → All IsTag tags → All (All IsSafe) (map tag_text tags)
map-IsSafe [] h = tt
map-IsSafe ((k, o) ∷ tags) h = (tag_text-IsSafe k o h.0, map-IsSafe tags h.1)

-- The tags that `buildMessageTags` writes, in order.
abbrev all_tags : Flags ProtocolCapability → Option Bytes → TagMap → List Bytes
all_tags caps src tags = account_tags caps src ++ map tag_text tags

-- The block, less its `@` and its space.
abbrev pub tag_block : Flags ProtocolCapability → Option Bytes → TagMap → Bytes
tag_block caps src tags = join (b';' ∷ []) (all_tags caps src tags)
