-- ===== src/Irc/Modes/Letters.antt =====
-- What the letters of a MODE request do to the modes of a user.
use chatripper.Common.{
  ℕ, ◌≡◌, refl, Bool, true, false, ◌||◌, Option, none, some, [], ◌∷◌, Bytes, if◌then◌else◌, nat_key,
  arith, find,
}
use chatripper.Bitflags
use chatripper.Bitflags.Laws.{has-set, has-clear, same}
use chatripper.Modes.User.{UserMode, user_mode_flags, user_mode_key, user_modes_lookup_letter}
use chatripper.Irc.Modes.{
  UserChange, change_user_modes, change_user_mode, apply_user_letter, apply_user_mode,
}

abbrev is_mode : UserMode → Option UserMode → Bool
is_mode d none = false
is_mode d (some mode) = same mode d

-- Whether a letter stands for the mode.
abbrev stands_for : UserMode → ℕ → Bool
stands_for d letter = is_mode d (find letter user_modes_lookup_letter)

abbrev names_mode : UserMode → Bytes → Bool
names_mode d [] = false
names_mode d (letter ∷ rest) = stands_for d letter || names_mode d rest

apply_user_mode-has :
    (mode d : UserMode) (adding : Bool) (s : UserChange)
    → Bitflags.has d (apply_user_mode mode adding s.modes)
      ≡ (if same mode d then adding else Bitflags.has d s.modes)
unfolding apply_user_mode
apply_user_mode-has mode d true s = ground (arith, has-set mode d s.modes)
apply_user_mode-has mode d false s = ground (arith, has-clear mode d s.modes)

apply_user_letter-has :
    (adding : Bool) (letter : ℕ) (s : UserChange) (d : UserMode) (o : Option UserMode)
    → Bitflags.has d (apply_user_letter adding letter s o).modes
      ≡ (if is_mode d o then adding else Bitflags.has d s.modes)
unfolding apply_user_letter
apply_user_letter-has adding letter s d none = refl
apply_user_letter-has adding letter s d (some mode) = apply_user_mode-has mode d adding s

change_user_mode-has :
    (adding : Bool) (letter : ℕ) (s : UserChange) (d : UserMode)
    → Bitflags.has d (change_user_mode adding letter s).modes
      ≡ (if stands_for d letter then adding else Bitflags.has d s.modes)
unfolding change_user_mode
change_user_mode-has adding letter s d =
    apply_user_letter-has adding letter s d (find letter user_modes_lookup_letter)

-- The loop over the letters sets, or clears, exactly the modes that some letter stands for: any
-- user may set any mode of its own, that of an operator included.
change_user_modes-has :
    (adding : Bool) (letters : Bytes) (s : UserChange) (d : UserMode)
    → Bitflags.has d (change_user_modes adding letters s).modes
      ≡ (if names_mode d letters then adding else Bitflags.has d s.modes)
unfolding change_user_modes
change_user_modes-has adding [] s d = refl
change_user_modes-has adding (letter ∷ rest) s d = ground (
  arith,
  change_user_modes-has adding rest (change_user_mode adding letter s) d,
  change_user_mode-has adding letter s d,
)
