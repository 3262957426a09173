-- ===== src/Core/Caches.antt =====
-- ctx.cpp, the caches of accounts and of nicknames, and the lookups of core/account.cpp and
-- core/channel.cpp that read them.
pub mod Index
use chatripper.Common.{
  ℕ, Bool, true, false, Option, none, some, List, [], ◌∷◌, Bytes, is_empty, remove_all,
  if◌then◌else◌, Map, find, insert, remove, has_key, nat_key, bytes_key,
}
use chatripper.State.{Account, Channel, World, or_null, is_null, add_to_set}

unfoldable pub account_username_exists : Bytes → World → Bool
account_username_exists name w = has_key name w.accounts_lookup_name

unfoldable pub account_remove_cache : ℕ → World → World
account_remove_cache p w =
    let acc = w.account_at p in
    if is_null p then w else record w {
      accounts = remove_all w.accounts p;
      accounts_lookup_uuid = remove acc.uid w.accounts_lookup_uuid;
      accounts_lookup_name =
          if is_empty acc.name
          then w.accounts_lookup_name
          else remove acc.name w.accounts_lookup_name;
    }

unfoldable pub account_insert_cache : ℕ → World → World
unfolding add_to_set
account_insert_cache p w =
    let acc = w.account_at p in
    record w {
      accounts = add_to_set p w.accounts;
      accounts_lookup_uuid = insert acc.uid p w.accounts_lookup_uuid;
      accounts_lookup_name =
          if is_empty acc.name
          then w.accounts_lookup_name
          else insert acc.name p w.accounts_lookup_name;
    }

unfoldable pub irc_nicks_remove_cache : Bytes → World → World
irc_nicks_remove_cache nick w = record w { irc_nicks = remove nick w.irc_nicks }

unfoldable pub irc_nicks_insert_cache : Bytes → ℕ → World → World
irc_nicks_insert_cache nick p w = record w { irc_nicks = insert nick p w.irc_nicks }

unfoldable pub irc_nick_get : Bytes → World → ℕ
irc_nick_get nick w = or_null (find nick w.irc_nicks)

-- `Account::get_by_uid`, `Account::get_by_name` and `Channel::get`
unfoldable pub get_by_uid : ℕ → World → ℕ
get_by_uid uid w = or_null (find uid w.accounts_lookup_uuid)

unfoldable pub get_by_name : Bytes → World → ℕ
get_by_name name w = or_null (find name w.accounts_lookup_name)

unfoldable pub get_channel : Bytes → World → ℕ
get_channel name w = or_null (find name w.channels)
