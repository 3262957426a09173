-- ===== src/Lines/Framing.antt =====
-- `client_connection::onReadyRead`: the receive buffer and the lines cut from it.
pub mod Stream
use chatripper.Common.{
  ℕ, zero, suc, ◌+◌, ◌≤◌, ◌<◌, ◌≡◌, refl, sym, ◌∙◌, ap, Option, none, some, List, [], ◌∷◌, ◌++◌,
  append_assoc, append-nil, arith, Bytes, length, take, drop, is_empty, index_of, nat_eqb, ltb,
  if◌then◌else◌, Lacks, All-append, index_of-append, index_of-Lacks, take-length, drop_past,
  length-append, truncate, remove_front, truncate-append-remove_front, truncate-min,
  length-remove_front, length-zero, is_empty-length, nat_eqb_iff, Bool-cases, inl, inr,
}

abbrev chunk_size : ℕ
chunk_size = 1024

abbrev max_buffer_size : ℕ
max_buffer_size = 1024

-- The buffer after the read loop, or the early return: the buffer was discarded and the connection
-- dropped.
pub data Received : Type 0 where
  buffered : Bytes → Received
  overflowed : Received

-- `while (m_socket->bytesAvailable() > 0)`, with fuel; `none` means that the fuel ran out.
-- `available` is what the socket holds.
unfoldable pub receive : ℕ → Bytes → Bytes → Option Received
receive zero buffer available = none
receive (suc fuel) buffer available =
    let grown = buffer ++ truncate chunk_size available in
    let rest = receive fuel grown (remove_front chunk_size available) in
    if is_empty available
    then some (buffered buffer)
    else if ltb max_buffer_size (length grown)
    then some overflowed
    else rest

-- `if (raw.endsWith('\r')) raw.chop(1)`
unfoldable pub chop_return : Bytes → Bytes
chop_return [] = []
chop_return (c ∷ []) = if nat_eqb c 13 then [] else c ∷ []
chop_return (c ∷ d ∷ s) = c ∷ chop_return (d ∷ s)

-- `while (true)`: the lines handed to `parseIncoming`, in order, and the buffer that is left.
unfoldable pub cut_lines : ℕ → Bytes → Option (List Bytes × Bytes)
unfolding chop_return
cut_lines zero buffer = none
cut_lines (suc fuel) buffer = elim (index_of 10 buffer) [
  | none ↦ some ([], buffer)
  | some n ↦ elim (cut_lines fuel (drop (n + 1) buffer)) [
    | none ↦ none
    | some (lines, left) ↦ some (chop_return (take n buffer) ∷ lines, left)
  ]
]

-- The reading loop takes everything in, unless that passes the limit of the buffer; it makes at
-- most one round for each byte, and one more.
pub receive_lem :
    (fuel : ℕ) (buffer available : Bytes)
    → length available < fuel
    → receive fuel buffer available
      ≡ some (
          if is_empty available
          then buffered buffer
          else if ltb 1024 (length buffer + length available)
          then overflowed
          else buffered (buffer ++ available))
unfolding receive
receive_lem zero buffer available h = absurd (omega arith)
receive_lem (suc fuel) buffer [] h = refl
receive_lem (suc fuel) buffer (c ∷ s) h =
    let rest = remove_front 1024 (c ∷ s) in
    let grown = buffer ++ truncate 1024 (c ∷ s) in
    let whole : grown ++ rest ≡ buffer ++ c ∷ s =
      append_assoc buffer (truncate 1024 (c ∷ s)) rest
      ∙ ap (λ t. buffer ++ t) (truncate-append-remove_front 1024 (c ∷ s)) in
    ground (
      arith,
      receive_lem fuel grown rest,
      whole,
      append-nil grown,
      length-zero rest,
      is_empty-length rest,
      length-append {0} buffer (truncate 1024 (c ∷ s)),
      truncate-min {0} 1024 (c ∷ s),
      length-remove_front {0} 1024 (c ∷ s),
    )

-- The lines of a text, byte by byte: `current` is the line that has not ended yet.
unfoldable pub frame : Bytes → Bytes → List Bytes × Bytes
frame current [] = ([], current)
frame current (c ∷ s) =
    let ended = frame [] s in
    let longer = frame (current ++ c ∷ []) s in
    if nat_eqb c 10 then (chop_return current ∷ ended.0, ended.1) else longer

cut-frame :
    (fuel : ℕ) (current s : Bytes)
    → Lacks 10 current
    → length s < fuel
    → cut_lines fuel (current ++ s) ≡ some (frame current s)
unfolding cut_lines frame
cut-frame zero current s l h = absurd (omega arith)
cut-frame (suc fuel) current [] l h = rw append-nil (ground (arith, index_of-Lacks 10 current l))
cut-frame (suc fuel) current (c ∷ s) l h = elim (Bool-cases (nat_eqb c 10)) [
  | inl e ↦
      let is_end : c ≡ 10 = (nat_eqb_iff c 10).0 e in
      let found : index_of 10 (current ++ c ∷ s) ≡ some (length current) =
        rw is_end (index_of-append 10 current s l) in
      rw e (
        ground (
          arith,
          found,
          take-length current (c ∷ s),
          drop_past current s c,
          cut-frame fuel [] s tt (omega arith),
        ))
  | inr e ↦
      rw (e, ← append_assoc current (c ∷ []) s)
        (cut-frame (suc fuel) (current ++ c ∷ []) s
          (All-append _ current (c ∷ []) l ((λ q. cc (e, (nat_eqb_iff c 10).1 q)), tt))
          (omega arith))
]

-- Both loops end: one round for each byte, and one more, is enough.
pub cut_lines-frame :
    (fuel : ℕ) (buffer : Bytes)
    → length buffer < fuel
    → cut_lines fuel buffer ≡ some (frame [] buffer)
cut_lines-frame fuel buffer h = cut-frame fuel [] buffer tt h

-- What `onReadyRead` leaves in the buffer: `none` after a disconnect. `available` is what arrived.
unfoldable pub on_ready_read : Bytes → Bytes → Option (Option (List Bytes × Bytes))
on_ready_read buffer available = elim (receive (length available + 1) buffer available) [
  | none ↦ none
  | some overflowed ↦ some none
  | some (buffered all) ↦ elim (cut_lines (length all + 1) all) [
    | none ↦ none
    | some result ↦ some (some result)
  ]
]
