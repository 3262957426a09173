-- ===== src/Tags/Bounds.antt =====
-- What every tag block keeps to, cut off or not.
use chatripper.Common.{
  ℕ, ◌≤◌, ◌≡◌, ◌≢◌, false, Option, List, [], ◌∷◌, ◌++◌, map, arith, Bytes, length, is_empty, join,
  All, All-append, All-imp, Bool-cases, inl, inr, length-truncate, truncate-All,
}
use chatripper.Bitflags
use chatripper.Bitflags.{Flags}
use chatripper.Caps.{ProtocolCapability, message_tags, capability_flags}
use chatripper.Tags.{TagMap, account_tags, tag_text, build_message_tags}
use chatripper.Tags.Escape.{IsSafe}
use chatripper.Tags.RoundTrip.{account_tags-IsSafe, map-IsSafe}
use chatripper.Tags.Single.{IsTag}

-- Neither a carriage return nor a line feed.
abbrev IsInline : ℕ → Type 0
IsInline c = (c ≢ 13) × (c ≢ 10)

join-IsInline : (ps : List Bytes) → All (All IsInline) ps → All IsInline (join (b';' ∷ []) ps)
unfolding join
join-IsInline [] h = tt
join-IsInline (p ∷ []) h = h.0
join-IsInline (p ∷ q ∷ ps) h = All-append IsInline p _ h.0 (omega arith, join-IsInline (q ∷ ps) h.1)

-- A tag prefix has at most 4096 bytes, and none without the capability `message-tags`.
pub length-build :
    (caps : Flags ProtocolCapability) (src : Option Bytes) (tags : TagMap)
    → (length (build_message_tags caps src tags) ≤ 4096)
      × (Bitflags.has message_tags caps ≡ false → build_message_tags caps src tags ≡ [])
unfolding build_message_tags
length-build caps src tags = (
  ground (
    arith,
    length-truncate 4096
        (b'@' ∷ (join (b';' ∷ []) (account_tags caps src ++ map tag_text tags) ++ 32 ∷ [])),
  ),
  λ e. rw e,
)

parts_IsInline :
    (caps : Flags ProtocolCapability) (src : Option Bytes) (tags : TagMap)
    → All IsTag tags
    → All (All IsInline) (account_tags caps src ++ map tag_text tags)
parts_IsInline caps src tags h =
    All-imp (λ p. All-imp (λ c q. (q.2, q.3)) p) _
      (All-append (All IsSafe) _ _ (account_tags-IsSafe caps src) (map-IsSafe tags h))

-- If the keys are well formed, no tag value and no account name puts a line break into the prefix.
build-IsInline :
    (caps : Flags ProtocolCapability) (src : Option Bytes) (tags : TagMap)
    → All IsTag tags
    → All IsInline (build_message_tags caps src tags)
unfolding build_message_tags
build-IsInline caps src tags h =
    let parts = account_tags caps src ++ map tag_text tags in
    let block : All IsInline (b'@' ∷ (join (b';' ∷ []) parts ++ 32 ∷ [])) = (
      omega arith,
      All-append IsInline _ _ (join-IsInline parts (parts_IsInline caps src tags h)) (omega arith),
    ) in
    elim (Bool-cases (Bitflags.has message_tags caps)) [
      | inr e ↦ rw e tt
      | inl e ↦ elim (Bool-cases (is_empty parts)) [
        | inl f ↦ rw (e, f) tt
        | inr f ↦ rw (e, f) (truncate-All IsInline 4096 _ block)
      ]
    ]
