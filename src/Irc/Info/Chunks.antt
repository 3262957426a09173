-- ===== src/Irc/Info/Chunks.antt =====
-- The loop of `handleMOTD` that cuts a line into chunks.
use chatripper.Common.{
  ℕ, zero, suc, ◌≤◌, ◌<◌, ◌≡◌, ◌≢◌, refl, ap, ◌∙◌, some, List, [], ◌∷◌, ◌++◌, Bytes, length, take,
  drop, All, arith, take-append-drop, length-take, length-drop,
}
use chatripper.Lines.Framing.Stream.{concat}
use chatripper.Irc.Info.{chunks}

-- A chunk that fits a line of the protocol.
abbrev pub IsChunk : Bytes → Type 0
IsChunk s = (s ≢ []) × (length s ≤ 400)

-- With more fuel than the line has bytes, the loop ends; its chunks are the line again, in order,
-- and each has from 1 to 400 bytes.
pub chunks_lem :
    (fuel : ℕ) (line : Bytes)
    → length line < fuel
    → (cs : List Bytes) × (chunks fuel line ≡ some cs) × (concat cs ≡ line) × All IsChunk cs
unfolding chunks concat
chunks_lem zero line h = absurd (omega arith)
chunks_lem (suc fuel) [] h = ([], refl, refl, tt)
chunks_lem (suc fuel) (b ∷ rest) h =
    let (cs, e, whole, fit) =
      chunks_lem fuel (drop 400 (b ∷ rest)) (omega (arith, length-drop 400 (b ∷ rest))) in
    (
      take 400 (b ∷ rest) ∷ cs,
      rw e refl,
      ap (λ s. take 400 (b ∷ rest) ++ s) whole ∙ take-append-drop 400 (b ∷ rest),
      (((λ z. ground arith), omega (arith, length-take 399 rest)), fit),
    )
