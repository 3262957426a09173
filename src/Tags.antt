-- ===== src/Tags.antt =====
-- irc/utils.cpp: IRCv3 message tags, written and read.
-- A `QString` is the list of its codes, and so is its UTF-8 text: `fromUtf8` and `toUtf8` are the
-- identity on the texts that the model ranges over.
pub mod Escape
pub mod Single
pub mod RoundTrip
pub mod Bounds
use chatripper.Common.{
  ℕ, zero, suc, ◌+◌, ◌-◌, Bool, true, false, not, ◌&&◌, Option, none, some, List, [], ◌∷◌, ◌++◌,
  map, Bytes, codes, Map, insert, truncate, take, drop, mid, is_empty, starts_with, index_of, split,
  join, nat_eqb, if◌then◌else◌, bytes_key,
}
use chatripper.Bitflags
use chatripper.Bitflags.{Flags}
use chatripper.Caps.{ProtocolCapability, message_tags, account_tag, capability_flags}

abbrev pub backslash : ℕ
backslash = b'\\'

-- What one round of the loop of `escapeTagValue` appends; `last` is `i == value.size() - 1`.
unfoldable pub escape_char : ℕ → Bool → Bytes
escape_char c last =
    if nat_eqb c b';'
    then backslash ∷ b':' ∷ []
    else if nat_eqb c 32
    then backslash ∷ b's' ∷ []
    else if nat_eqb c backslash
    then (if last then [] else backslash ∷ backslash ∷ [])
    else if nat_eqb c 13
    then backslash ∷ b'r' ∷ []
    else if nat_eqb c 10
    then backslash ∷ b'n' ∷ []
    else c ∷ []

unfoldable pub escape_tag_value : Bytes → Bytes
unfolding escape_char
escape_tag_value [] = []
escape_tag_value (c ∷ s) = escape_char c (is_empty s) ++ escape_tag_value s

-- The `switch` on the character behind a backslash.
unfoldable unescape_char : ℕ → ℕ
unescape_char c =
    if nat_eqb c b':'
    then b';'
    else if nat_eqb c b's'
    then 32
    else if nat_eqb c backslash
    then backslash
    else if nat_eqb c b'r'
    then 13
    else if nat_eqb c b'n'
    then 10
    else c

-- The loop that unescapes a value in `parseMessageTags`.
unfoldable pub unescape_tag_value : Bytes → Bytes
unfolding unescape_char
unescape_tag_value [] = []
unescape_tag_value (c ∷ []) = if nat_eqb c backslash then [] else c ∷ []
unescape_tag_value (c ∷ d ∷ s) = elim (nat_eqb c backslash) [
  | true ↦ unescape_char d ∷ unescape_tag_value s
  | false ↦ c ∷ unescape_tag_value (d ∷ s)
]

-- `QMap<QString, QVariant>`; `none` is the invalid `QVariant`, whose bytes are empty.
abbrev pub TagMap : Type 0
TagMap = Map Bytes (Option Bytes)

abbrev pub to_bytes : Option Bytes → Bytes
to_bytes none = []
to_bytes (some v) = v

unfoldable pub tag_text : Bytes × Option Bytes → Bytes
tag_text (key, value) =
    if is_empty (to_bytes value) then key else key ++ b'=' ∷ escape_tag_value (to_bytes value)

-- The account tag: `src` is the name of the sender's account, `none` if there is no account.
unfoldable pub account_tags : Flags ProtocolCapability → Option Bytes → List Bytes
account_tags caps none = []
account_tags caps (some name) =
    if Bitflags.has account_tag caps && not (is_empty name)
    then (codes "account=" ++ escape_tag_value name) ∷ []
    else []

abbrev max_tag_data : ℕ
max_tag_data = 4094

unfoldable pub build_message_tags : Flags ProtocolCapability → Option Bytes → TagMap → Bytes
unfolding account_tags tag_text
build_message_tags caps src tags =
    if not (Bitflags.has message_tags caps)
    then []
    else let all = account_tags caps src ++ map tag_text tags in
      if is_empty all
      then []
      else truncate (max_tag_data + 2) (b'@' ∷ (join (b';' ∷ []) all ++ 32 ∷ []))

-- Key and raw value of one tag.
unfoldable pub split_tag : Bytes → Bytes × Bytes
split_tag raw = elim (index_of b'=' raw) [
  | none ↦ (raw, [])
  | some eq ↦ (take eq raw, drop (eq + 1) raw)
]

abbrev pub tag_value : Bytes → Option Bytes
tag_value [] = none
tag_value (c ∷ s) = some (c ∷ s)

-- One round of the loop over the tags.
unfoldable pub add_tag : Bytes → TagMap → TagMap
unfolding split_tag
add_tag raw tags =
    if is_empty raw
    then tags
    else let (key, value) = split_tag raw in insert key (tag_value (unescape_tag_value value)) tags

unfoldable pub add_tags : List Bytes → TagMap → TagMap
add_tags [] tags = tags
add_tags (raw ∷ rest) tags = add_tags rest (add_tag raw tags)

-- The tags, and `tagsEndPos`: `none` is -1.
unfoldable pub parse_message_tags : Bytes → TagMap × Option ℕ
unfolding add_tags
parse_message_tags line =
    if not (starts_with b'@' line) then ([], none) else elim (index_of 32 line) [
      | none ↦ ([], none)
      | some space ↦ (add_tags (split b';' (mid 1 (space - 1) line)) [], some space)
    ]
