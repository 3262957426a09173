-- ===== src/Lines/Framing/Stream.antt =====
-- What `onReadyRead` makes of a stream that comes in pieces.
use chatripper.Common.{
  ◌+◌, ◌≤◌, ◌≡◌, refl, sym, ◌∙◌, ap, Option, none, some, List, [], ◌∷◌, ◌++◌, append_assoc,
  append-nil, arith, Bytes, length, nat_eqb, ltb, if◌then◌else◌, Lacks, All-append, length-append,
  nat_eqb_iff, Bool-cases, inl, inr,
}
use chatripper.Lines.Framing.{chop_return, frame, on_ready_read, receive_lem, cut_lines-frame}

frame-append :
    (current a b : Bytes)
    → frame current (a ++ b)
      ≡ ((frame current a).0 ++ (frame (frame current a).1 b).0, (frame (frame current a).1 b).1)
unfolding frame
frame-append current [] b = refl
frame-append current (c ∷ a) b = elim (Bool-cases (nat_eqb c 10)) [
  | inl e ↦ rw e (ap (λ r. (chop_return current ∷ r.0, r.1)) (frame-append [] a b))
  | inr e ↦ rw e (frame-append (current ++ c ∷ []) a b)
]

frame_left_Lacks : (current s : Bytes) → Lacks 10 current → Lacks 10 (frame current s).1
unfolding frame
frame_left_Lacks current [] l = l
frame_left_Lacks current (c ∷ s) l = elim (Bool-cases (nat_eqb c 10)) [
  | inl e ↦ rw e (frame_left_Lacks [] s tt)
  | inr e ↦ rw e (
      frame_left_Lacks (current ++ c ∷ []) s
        (All-append _ current (c ∷ []) l ((λ q. cc (e, (nat_eqb_iff c 10).1 q)), tt)))
]

-- One event: it always ends, it disconnects exactly if more than 1024 bytes would be waiting, and
-- else hands over the lines of the buffered and the new bytes.
on_ready_read_lem :
    (buffer available : Bytes)
    → length buffer ≤ 1024
    → on_ready_read buffer available
      ≡ some (
          if ltb 1024 (length buffer + length available)
          then none
          else some (frame [] (buffer ++ available)))
unfolding on_ready_read
on_ready_read_lem buffer [] h = ground (
  arith,
  receive_lem 1 buffer [] (omega arith),
  cut_lines-frame (length buffer + 1) buffer (omega arith),
  append-nil buffer,
)
on_ready_read_lem buffer (c ∷ s) h = ground (
  arith,
  receive_lem (length (c ∷ s) + 1) buffer (c ∷ s) (omega arith),
  cut_lines-frame (length (buffer ++ c ∷ s) + 1) (buffer ++ c ∷ s) (omega arith),
)

-- The events of one connection: what arrived at each. The lines of all events, and what is left.
unfoldable pub read_all : Bytes → List Bytes → Option (List Bytes × Bytes)
read_all buffer [] = some ([], buffer)
read_all buffer (arrived ∷ rest) = elim (on_ready_read buffer arrived) [
  | none ↦ none
  | some none ↦ none
  | some (some (lines, left)) ↦ elim (read_all left rest) [
    | none ↦ none
    | some (more, end) ↦ some (lines ++ more, end)
  ]
]

unfoldable pub concat : List Bytes → Bytes
concat [] = []
concat (s ∷ rest) = s ++ concat rest

frame_prefix : (current p s : Bytes) → Lacks 10 p → frame current (p ++ s) ≡ frame (current ++ p) s
unfolding frame
frame_prefix current [] s l = rw append-nil
frame_prefix current (c ∷ p) s l = elim (Bool-cases (nat_eqb c 10)) [
  | inl e ↦ absurd (l.0 ((nat_eqb_iff c 10).0 e))
  | inr e ↦ rw e (
      frame_prefix (current ++ c ∷ []) p s l.1
      ∙ ap (λ t. frame t s) (append_assoc current (c ∷ []) p))
]

length-frame_left : (current s : Bytes) → length (frame current s).1 ≤ length current + length s
unfolding frame
length-frame_left current [] = omega arith
length-frame_left current (c ∷ s) = ground (
  arith,
  length-frame_left [] s,
  length-frame_left (current ++ c ∷ []) s,
  length-append {0} current (c ∷ []),
)

frame_alone : (p : Bytes) → Lacks 10 p → frame [] p ≡ ([], p)
frame_alone p l =
    ap (frame []) (sym (append-nil p)) ∙ (frame_prefix [] p [] l ∙ unfold frame in refl)

-- At no event do the bytes that wait and the bytes that arrive pass the limit together.
abbrev pub Fits : Bytes → List Bytes → Type 0
Fits buffer [] = Unit
Fits buffer (arrived ∷ rest) =
    (length buffer + length arrived ≤ 1024) × Fits (frame [] (buffer ++ arrived)).1 rest

-- However the stream is cut into events, as long as at no event the bytes that wait and the bytes
-- that arrive are more than 1024 together, the lines handed over are those of the whole stream, and
-- the buffer keeps what stands behind the last line feed. With more, the code drops the bytes and
-- disconnects, and this says nothing.
pub read_all-frame :
    (buffer : Bytes) (arrivals : List Bytes)
    → Lacks 10 buffer
    → Fits buffer arrivals
    → read_all buffer arrivals ≡ some (frame [] (buffer ++ concat arrivals))
unfolding read_all concat
read_all-frame buffer [] l f = rw (append-nil, frame_alone buffer l)
read_all-frame buffer (arrived ∷ rest) l f =
    let later =
      read_all-frame (frame [] (buffer ++ arrived)).1 rest
        (frame_left_Lacks [] (buffer ++ arrived) tt) f.1 in
    ground (
      arith,
      on_ready_read_lem buffer arrived (omega arith),
      later,
      frame-append [] (buffer ++ arrived) (concat rest),
      append_assoc buffer arrived (concat rest),
      frame_prefix [] (frame [] (buffer ++ arrived)).1 (concat rest)
          (frame_left_Lacks [] (buffer ++ arrived) tt),
    )
