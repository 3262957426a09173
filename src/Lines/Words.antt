-- ===== src/Lines/Words.antt =====
-- `client_connection::split_irc` and `irc_lower`.
use chatripper.Common.{
  ℕ, suc, ◌+◌, ◌≡◌, ◌≢◌, refl, sym, ◌∙◌, ap, false, ◌&&◌, Option, none, some, List, [], ◌∷◌, ◌++◌,
  append_assoc, append-nil, arith, Bytes, length, take, drop, is_empty, index_of, split, join,
  skip_empty, starts_with, to_lower, nat_eqb, if◌then◌else◌, All, All-imp, Lacks, index_of-append,
  take-length, drop_past, split-join, split_whole, length-append,
}

-- `rest.indexOf(" :")`
unfoldable index_of_colon : Bytes → Option ℕ
index_of_colon [] = none
index_of_colon (c ∷ s) =
    if nat_eqb c 32 && starts_with b':' s
    then some 0
    else elim (index_of_colon s) [ none ↦ none | some i ↦ some (suc i) ]

-- The parameters behind the command, and the trailing one.
unfoldable split_params : Bytes → List Bytes
unfolding index_of_colon
split_params rest = elim (index_of_colon rest) [
  | none ↦ skip_empty (split 32 rest)
  | some colon ↦
      skip_empty (split 32 (take colon rest))
      ++ (if is_empty (drop (colon + 2) rest) then [] else drop (colon + 2) rest ∷ [])
]

unfoldable pub split_irc : Bytes → List Bytes
unfolding split_params
split_irc line = elim (index_of 32 line) [
  | none ↦ line ∷ []
  | some sp ↦ take sp line ∷ split_params (drop (sp + 1) line)
]

-- `replace(a, b)` of one byte by another.
unfoldable replace : ℕ → ℕ → Bytes → Bytes
replace a b [] = []
replace a b (c ∷ s) = (if nat_eqb c a then b else c) ∷ replace a b s

unfoldable irc_lower : Bytes → Bytes
unfolding replace
irc_lower s = replace b'\\' b'|' (replace b']' b'}' (replace b'[' b'{' (to_lower s)))

-- A parameter that is not the last: not empty, without a space, and not begun by a colon.
abbrev IsParam : Bytes → Type 0
IsParam p = (p ≢ []) × Lacks 32 p × (starts_with b':' p ≡ false)

-- How a client writes a command: words set off by one space, and the last parameter behind ` :`.
abbrev pub trailing : Bytes → Bytes
trailing t = 32 ∷ b':' ∷ t

unfoldable pub write_command : Bytes → List Bytes → Option Bytes → Bytes
write_command cmd params none = cmd ++ 32 ∷ join (32 ∷ []) params
write_command cmd params (some t) = cmd ++ 32 ∷ (join (32 ∷ []) params ++ trailing t)

skip_empty-id : (ps : List Bytes) → All IsParam ps → skip_empty ps ≡ ps
unfolding skip_empty
skip_empty-id [] h = refl
skip_empty-id ([] ∷ ps) h = absurd (h.0.0 refl)
skip_empty-id ((c ∷ p) ∷ ps) h = ap (λ r. (c ∷ p) ∷ r) (skip_empty-id ps h.1)

-- Adding to a position.
abbrev shift : ℕ → Option ℕ → Option ℕ
shift n none = none
shift n (some i) = some (n + i)

index_of_colon-skip :
    (p s : Bytes) → Lacks 32 p → index_of_colon (p ++ s) ≡ shift (length p) (index_of_colon s)
unfolding index_of_colon
index_of_colon-skip [] s l = ground arith
index_of_colon-skip (c ∷ p) s l = ground (arith, index_of_colon-skip p s l.1)

starts_with-append : (p s : Bytes) → p ≢ [] → starts_with b':' (p ++ s) ≡ starts_with b':' p
starts_with-append [] s h = absurd (h refl)
starts_with-append (c ∷ p) s h = refl

index_of_colon-space :
    (s : Bytes) → starts_with b':' s ≡ false → index_of_colon (32 ∷ s) ≡ shift 1 (index_of_colon s)
unfolding index_of_colon
index_of_colon-space s h = ground arith

join-head :
    (q : Bytes) (ps : List Bytes) (s : Bytes)
    → IsParam q
    → starts_with b':' (join (32 ∷ []) (q ∷ ps) ++ s) ≡ false
unfolding join
join-head q [] s h = starts_with-append q s h.0 ∙ h.2
join-head q (r ∷ ps) s h =
    ap (starts_with b':') (append_assoc q (32 ∷ join (32 ∷ []) (r ∷ ps)) s)
    ∙ (starts_with-append q (32 ∷ (join (32 ∷ []) (r ∷ ps) ++ s)) h.0 ∙ h.2)

shift-shift : (a b c : ℕ) (o : Option ℕ) → a + b ≡ c → shift a (shift b o) ≡ shift c o
shift-shift a b c o h = ground arith

index_of_colon-join :
    (p : Bytes) (ps : List Bytes) (s : Bytes)
    → All IsParam (p ∷ ps)
    → index_of_colon (join (32 ∷ []) (p ∷ ps) ++ s)
      ≡ shift (length (join (32 ∷ []) (p ∷ ps))) (index_of_colon s)
unfolding join
index_of_colon-join p [] s h = index_of_colon-skip p s h.0.1
index_of_colon-join p (q ∷ ps) s h =
    let rest = join (32 ∷ []) (q ∷ ps) in
    ap index_of_colon (append_assoc p (32 ∷ rest) s)
    ∙ (index_of_colon-skip p (32 ∷ (rest ++ s)) h.0.1
        ∙ (ap (shift (length p)) (
              index_of_colon-space (rest ++ s) (join-head q ps s h.1.0)
              ∙ (ap (shift 1) (index_of_colon-join q ps s h.1)
                  ∙ shift-shift 1 (length rest) (1 + length rest) (index_of_colon s) refl))
            ∙ shift-shift (length p) (1 + length rest) (length (p ++ 32 ∷ rest)) (index_of_colon s)
                (omega (arith, length-append {0} p (32 ∷ rest)))))

split-params-id :
    (p : Bytes) (ps : List Bytes)
    → All IsParam (p ∷ ps)
    → skip_empty (split 32 (join (32 ∷ []) (p ∷ ps))) ≡ p ∷ ps
split-params-id p ps h =
    ap skip_empty (split-join 32 p ps (All-imp (λ q r. r.1) (p ∷ ps) h)) ∙ skip_empty-id (p ∷ ps) h

split_irc-step :
    (cmd rest : Bytes) → Lacks 32 cmd → split_irc (cmd ++ 32 ∷ rest) ≡ cmd ∷ split_params rest
unfolding split_irc
split_irc-step cmd rest l =
    ground
      (arith, index_of-append 32 cmd rest l, take-length cmd (32 ∷ rest), drop_past cmd rest 32)

module _ (p : Bytes) (ps : List Bytes) (h : All IsParam (p ∷ ps)) where
  split_params-none : split_params (join (32 ∷ []) (p ∷ ps)) ≡ p ∷ ps
  unfolding split_params
  split_params-none =
      let joined = join (32 ∷ []) (p ∷ ps) in
      ground (arith, append-nil joined, index_of_colon-join p ps [] h, split-params-id p ps h)

  drop-trailing :
      (t : Bytes)
      → drop (length (join (32 ∷ []) (p ∷ ps)) + 0 + 2) (join (32 ∷ []) (p ∷ ps) ++ trailing t) ≡ t
  drop-trailing t =
      let joined = join (32 ∷ []) (p ∷ ps) in
      let e : length joined + 0 + 2 ≡ length (joined ++ 32 ∷ []) + 1 =
        omega (arith, length-append {0} joined (32 ∷ [])) in
      rw (e, ← append_assoc joined (32 ∷ []) (b':' ∷ t)) (drop_past (joined ++ 32 ∷ []) t b':')

  split_params-some :
      (t : Bytes)
      → split_params (join (32 ∷ []) (p ∷ ps) ++ trailing t)
        ≡ (p ∷ ps) ++ (if is_empty t then [] else t ∷ [])
  unfolding split_params
  split_params-some t =
      let joined = join (32 ∷ []) (p ∷ ps) in
      let at_end : length joined + 0 ≡ length joined = omega arith in
      let found : index_of_colon (joined ++ trailing t) ≡ some (length joined + 0) =
        index_of_colon-join p ps (trailing t) h in
      let before : take (length joined + 0) (joined ++ trailing t) ≡ joined =
        rw at_end (take-length joined (trailing t)) in
      ground (arith, found, before, drop-trailing t, split-params-id p ps h)

-- The last parameter, if there is one that is not empty.
abbrev pub last_param : Option Bytes → List Bytes
last_param none = []
last_param (some t) = if is_empty t then [] else t ∷ []

-- Of a line that a client wrote with at least one parameter before the trailing one, `split_irc`
-- gives back the command and the parameters, and the trailing one unless it is empty.
pub split-write :
    (cmd p : Bytes) (ps : List Bytes) (t : Option Bytes)
    → Lacks 32 cmd
    → All IsParam (p ∷ ps)
    → split_irc (write_command cmd (p ∷ ps) t) ≡ cmd ∷ (p ∷ ps) ++ last_param t
unfolding write_command
split-write cmd p ps none l h =
    split_irc-step cmd (join (32 ∷ []) (p ∷ ps)) l
    ∙ ap (λ r. cmd ∷ r) (split_params-none p ps h ∙ sym (append-nil (p ∷ ps)))
split-write cmd p ps (some t) l h =
    split_irc-step cmd (join (32 ∷ []) (p ∷ ps) ++ trailing t) l
    ∙ ap (λ r. cmd ∷ r) (split_params-some p ps h t)

lone_colon : (t : Bytes) → Lacks 32 t → split_params (b':' ∷ t) ≡ (b':' ∷ t) ∷ []
unfolding split_params index_of_colon skip_empty
lone_colon t m = ground (
  arith,
  index_of_colon-skip (b':' ∷ t) [] (omega arith, m),
  append-nil t,
  split_whole 32 (b':' ∷ t) (omega arith, m),
)

-- With no parameter before the trailing one, the colon stays: `PING :x y` has the parameters `:x`
-- and `y`.
split_lone_trailing :
    (cmd t : Bytes)
    → Lacks 32 cmd
    → Lacks 32 t
    → split_irc (cmd ++ trailing t) ≡ cmd ∷ (b':' ∷ t) ∷ []
split_lone_trailing cmd t l m = split_irc-step cmd (b':' ∷ t) l ∙ ap (λ r. cmd ∷ r) (lone_colon t m)

-- Folding to lower case twice is folding once: folded names can be compared as they stand.
irc_lower_idem : (s : Bytes) → irc_lower (irc_lower s) ≡ irc_lower s
unfolding irc_lower to_lower
irc_lower_idem [] = refl
irc_lower_idem (c ∷ s) = ground (arith, irc_lower_idem s)
