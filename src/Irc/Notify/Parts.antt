-- ===== src/Irc/Notify/Parts.antt =====
-- What a connection hears when the members of a channel leave it.
use chatripper.Common.{
  ℕ, ◌≡◌, refl, ap, ◌∙◌, Bool, true, false, not, List, [], ◌∷◌, contains, if◌then◌else◌, arith,
  nat_key, bytes_key, Map, has_key, find-remove, beq_self,
}
use chatripper.State.{World, PartEvent}
use chatripper.Irc.Notify.{channel_part, members_of, is_own_part, note_part}

abbrev pub known : ℕ → World → Map ℕ (List ℕ)
known c w = (w.connection_at c).channel_members

abbrev chain : Bool → Bool → Bool → World → World → World → World
chain own here member w left told =
    if own then left else if not here then w else if not member then w else told

chain_told :
    (own here member : Bool) (w left told : World)
    → own ≡ false
    → here ≡ true
    → member ≡ true
    → chain own here member w left told ≡ told
chain_told own here member w left told ho hh hm = rw ho (rw hh (rw hm refl))

chain_same :
    (own here member : Bool) (w left told : World)
    → own ≡ false
    → here ≡ false
    → chain own here member w left told ≡ w
chain_same own here member w left told ho hh = rw ho (rw hh refl)

has_key-members_of :
    (ch a : ℕ) (m : Map ℕ (List ℕ)) → contains (members_of ch m) a ≡ true → has_key ch m ≡ true
unfolding members_of contains
has_key-members_of ch a m h = ground arith

-- A part of another account that the connection knows as a member is told.
channel_part-told :
    (c : ℕ) (ev : PartEvent) (w : World)
    → is_own_part c ev w ≡ false
    → contains (members_of ev.channel (known c w)) ev.account ≡ true
    → channel_part c ev w ≡ note_part c ev w
unfolding channel_part
channel_part-told c ev w other member =
    chain_told (is_own_part c ev w) (has_key ev.channel (known c w))
      (contains (members_of ev.channel (known c w)) ev.account) w _ _ other
      (has_key-members_of ev.channel ev.account (known c w) member) member

-- A part in a channel whose members the connection does not know is not.
channel_part-same :
    (c : ℕ) (ev : PartEvent) (w : World)
    → is_own_part c ev w ≡ false
    → has_key ev.channel (known c w) ≡ false
    → channel_part c ev w ≡ w
unfolding channel_part
channel_part-same c ev w other unknown =
    chain_same (is_own_part c ev w) (has_key ev.channel (known c w))
      (contains (members_of ev.channel (known c w)) ev.account) w _ _ other unknown

has_key-note_part :
    (c : ℕ) (ev : PartEvent) (w : World) → has_key ev.channel (known c (note_part c ev w)) ≡ false
unfolding note_part
has_key-note_part c ev w =
    ground (arith, beq_self c, beq_self ev.channel, find-remove ev.channel ev.channel (known c w))

is_own_part-note_part :
    (c : ℕ) (ev second : PartEvent) (w : World)
    → is_own_part c second (note_part c ev w) ≡ is_own_part c second w
unfolding is_own_part note_part
is_own_part-note_part c ev second w = ground (arith, beq_self c)

-- Parts in a channel, none of them the connection's own.
abbrev OthersIn : ℕ → ℕ → World → List PartEvent → Type 0
OthersIn c ch w [] = Unit
OthersIn c ch w (ev ∷ rest) =
    (ev.channel ≡ ch) × (is_own_part c ev w ≡ false) × OthersIn c ch w rest

unfoldable pub channel_parts : ℕ → List PartEvent → World → World
channel_parts c [] w = w
channel_parts c (ev ∷ rest) w = channel_parts c rest (channel_part c ev w)

channel_parts-same :
    (c ch : ℕ) (parts : List PartEvent) (w : World)
    → has_key ch (known c w) ≡ false
    → OthersIn c ch w parts
    → channel_parts c parts w ≡ w
unfolding channel_parts
channel_parts-same c ch [] w unknown h = refl
channel_parts-same c ch (ev ∷ rest) w unknown h =
    rw (channel_part-same c ev w h.1 (ap (λ n. has_key n (known c w)) h.0 ∙ unknown))
      (channel_parts-same c ch rest w unknown h.2)

OthersIn-note_part :
    (c ch : ℕ) (ev : PartEvent) (w : World) (parts : List PartEvent)
    → OthersIn c ch w parts
    → OthersIn c ch (note_part c ev w) parts
OthersIn-note_part c ch ev w [] h = tt
OthersIn-note_part c ch ev w (second ∷ rest) h =
    (h.0, is_own_part-note_part c ev second w ∙ h.1, OthersIn-note_part c ch ev w rest h.2)

-- When a member of a channel has left and a connection of another account was told, that
-- connection hears of none of the parts of other members in the channel that come next, however many
-- they are, as long as nothing else happens to the connection in between, such as a JOIN.
pub channel_part_silences :
    (c : ℕ) (first : PartEvent) (parts : List PartEvent) (w : World)
    → is_own_part c first w ≡ false
    → contains (members_of first.channel (known c w)) first.account ≡ true
    → OthersIn c first.channel w parts
    → channel_parts c parts (channel_part c first w) ≡ channel_part c first w
channel_part_silences c first parts w other member others =
    rw (channel_part-told c first w other member) (
      channel_parts-same c first.channel parts (note_part c first w) (has_key-note_part c first w)
        (OthersIn-note_part c first.channel first w parts others))
