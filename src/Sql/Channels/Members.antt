-- ===== src/Sql/Channels/Members.antt =====
-- lib/sql.cpp: the members of channels, and the loading of whole tables.
use chatripper.Common.{ℕ, ◌≡◌, Bool, true, not, ◌&&◌, ◌||◌, nat_eqb, List, [], ◌∷◌, ◌++◌, arith}
use chatripper.Env.{Env}
use chatripper.Core.Directory.{Directory}
use chatripper.Sql.Database.{Database}
use chatripper.Sql.Channels.{is_member, channel_add_member, delete_member, channel_remove_member}

abbrev pub same_pair : ℕ → ℕ → ℕ → ℕ → Bool
same_pair a c b d = nat_eqb a b && nat_eqb c d

pub is_member-append :
    (a c b d : ℕ) (pairs : List (ℕ × ℕ))
    → is_member b d (pairs ++ (a, c) ∷ []) ≡ (same_pair a c b d || is_member b d pairs)
unfolding is_member
is_member-append a c b d [] = ground arith
is_member-append a c b d ((e, f) ∷ pairs) = ground (arith, is_member-append a c b d pairs)

is_member-delete :
    (a c b d : ℕ) (pairs : List (ℕ × ℕ))
    → is_member b d (delete_member a c pairs) ≡ (not (same_pair a c b d) && is_member b d pairs)
unfolding is_member delete_member
is_member-delete a c b d [] = ground arith
is_member-delete a c b d ((e, f) ∷ pairs) = ground (arith, is_member-delete a c b d pairs)

-- With a working connection: who is a member of what after an account was added to a channel, and
-- after it was removed, the account itself and every other pair; adding always succeeds, and
-- removing does exactly if the account was a member.
member_lem :
    (a c b d : ℕ) (db : Database)
    → db.up ≡ true
    → let before = is_member b d db.account_channels in
      ((channel_add_member a c db).0 ≡ true)
      × (is_member b d (channel_add_member a c db).1.account_channels
          ≡ (same_pair a c b d || before))
      × ((channel_remove_member a c db).0 ≡ is_member a c db.account_channels)
      × (is_member b d (channel_remove_member a c db).1.account_channels
          ≡ (not (same_pair a c b d) && before))
unfolding channel_add_member channel_remove_member
member_lem a c b d db up = ground (
  arith,
  is_member-append a c b d db.account_channels,
  is_member-delete a c b d db.account_channels,
)
