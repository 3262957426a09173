-- ===== src/Examples/Accounts.antt =====
-- Accounts: core/account.cpp and ctx.cpp at work.
use chatripper.Common.{
  ◌≡◌, not, [], true, contains, bytes_eqb, codes, find, nat_key, bytes_key, arith,
}
use chatripper.State.{World, add_to_set}
use chatripper.Core.Caches.{account_insert_cache, account_remove_cache, irc_nick_get}
use chatripper.Core.Caches.Index.{
  IsIndexed, IsUnique, account_insert_cache-IsIndexed, account_cache-IsIndexed,
}
use chatripper.Core.Accounts.{verify_password, set_nick, consult_nick}
use chatripper.Core.Accounts.Access.{verify_password_lem, may_log_in}
use chatripper.Core.Accounts.Nicks.{set_nick-registry, holder_after}
use chatripper.Examples.Data.{sample_env, sample_world, bob, bob_logs_in, alice_renames}

verify_password_lem_example :
    (verify_password sample_env bob bob_logs_in).cancelled
    ≡ not (may_log_in sample_env bob bob_logs_in)
verify_password_lem_example = verify_password_lem sample_env bob bob_logs_in

set_nick-registry_example :
    irc_nick_get (codes "ann") (set_nick sample_env 1 alice_renames sample_world).1
    ≡ holder_after sample_env 1 (consult_nick sample_env alice_renames) (codes "ann") sample_world
set_nick-registry_example = set_nick-registry sample_env 1 alice_renames (codes "ann") sample_world

-- The same server before any account is in the caches.
abbrev empty_caches : World
empty_caches = record sample_world {
  accounts = [];
  accounts_lookup_uuid = [];
  accounts_lookup_name = [];
}

empty_caches-IsIndexed : IsIndexed empty_caches
unfolding find contains
empty_caches-IsIndexed = (
  (λ u p. ((λ e. ground (arith, e)), (λ e. ground (arith, e.1)))),
  (λ n p. ((λ e. ground (arith, e)), (λ e. ground (arith, e.2)))),
)

alone-IsUnique : IsUnique 1 empty_caches
unfolding contains
alone-IsUnique q e = absurd (ground (arith, e))

abbrev one_cached : World
one_cached = account_insert_cache 1 empty_caches

one_cached-IsIndexed : IsIndexed one_cached
one_cached-IsIndexed =
    account_insert_cache-IsIndexed 1 empty_caches empty_caches-IsIndexed alone-IsUnique

-- Another id and another name.
second-IsUnique : IsUnique 2 one_cached
unfolding contains account_insert_cache add_to_set bytes_eqb
second-IsUnique q e = ground (arith, e)

first_there : contains one_cached.accounts 1 ≡ true
unfolding contains account_insert_cache add_to_set
first_there = ground arith

account_cache-IsIndexed_example :
    IsIndexed (account_insert_cache 2 one_cached) × IsIndexed (account_remove_cache 1 one_cached)
account_cache-IsIndexed_example =
    account_cache-IsIndexed 2 1 one_cached one_cached-IsIndexed second-IsUnique first_there
