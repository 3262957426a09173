-- ===== src/Examples/Text.antt =====
-- Text: lines, tags, nicknames and flags.
use chatripper.Common.{◌≤◌, ◌≡◌, ◌++◌, refl, false, none, some, [], ◌∷◌, codes, arith, length}
use chatripper.Bitflags
use chatripper.Bitflags.{Flags, no_flags}
use chatripper.Caps.{ProtocolCapability, capability_flags, message_tags}
use chatripper.Lines.Framing.{frame}
use chatripper.Lines.Framing.Stream.{read_all, read_all-frame, concat, Fits}
use chatripper.Lines.Words.{split_irc, write_command, last_param, split-write}
use chatripper.Tags.{build_message_tags, TagMap}
use chatripper.Tags.Bounds.{length-build}

small-Fits : Fits [] (codes "NI" ∷ codes "CK a\n" ∷ [])
unfolding frame
small-Fits = (omega arith, (omega arith, tt))

read_all-frame_example :
    read_all [] (codes "NI" ∷ codes "CK a\n" ∷ [])
    ≡ some (frame [] (concat (codes "NI" ∷ codes "CK a\n" ∷ [])))
read_all-frame_example = read_all-frame [] (codes "NI" ∷ codes "CK a\n" ∷ []) tt small-Fits

split-write_example :
    split_irc (write_command (codes "USER") (codes "a" ∷ codes "0" ∷ []) (some (codes "A B")))
    ≡ codes "USER" ∷ (codes "a" ∷ codes "0" ∷ []) ++ last_param (some (codes "A B"))
split-write_example =
    split-write (codes "USER") (codes "a") (codes "0" ∷ []) (some (codes "A B")) (omega arith)
      (((λ h. cc), omega arith, refl), (((λ h. cc), omega arith, refl), tt))

abbrev tagged : Flags ProtocolCapability
tagged = record { bits = 2 }

abbrev two_tags : TagMap
two_tags = (codes "a", some (codes "x y")) ∷ (codes "b", none) ∷ []

length-build_example :
    (length (build_message_tags tagged none two_tags) ≤ 4096)
    × (Bitflags.has message_tags tagged ≡ false → build_message_tags tagged none two_tags ≡ [])
length-build_example = length-build tagged none two_tags
