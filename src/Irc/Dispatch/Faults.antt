-- ===== src/Irc/Dispatch/Faults.antt =====
-- Lines from a client on which `parseIncoming` reads behind the end of its parameters.
use chatripper.Common.{
  none, some, Bool, if◌then◌else◌, ℕ, ◌≡◌, refl, ap, ◌∙◌, true, false, List, [], ◌∷◌, Bytes, codes,
  trimmed, starts_with, bytes_key, bytes_eqb, arith, index_of,
}
use chatripper.Common.Outcome.{Outcome, done, fault}
use chatripper.Bitflags
use chatripper.Modes.Setup as SetupTasks
use chatripper.Modes.Setup.{setup_task_flags}
use chatripper.Tags.{TagMap}
use chatripper.State.{Connection, World}
use chatripper.Env.{Env}
use chatripper.Lines.Words.{split_irc}
use chatripper.Irc.Cap.Requests.{handle_cap_fault}
use chatripper.Irc.Dispatch.{
  may_have_tags, read_raw, is_stopped_by_tags, parse_line, parse_incoming, run_words, dispatch,
  dispatch_setup, dispatch_ready, guarded_join, strip_tags,
}

no_tags :
    (conn : Connection) (line : Bytes)
    → starts_with b'@' line ≡ false
    → may_have_tags conn line ≡ false
unfolding may_have_tags
no_tags conn line h = ground arith

strip_tags-plain :
    (conn : Connection) (line : Bytes)
    → starts_with b'@' line ≡ false
    → strip_tags conn line ≡ ([], trimmed line)
unfolding strip_tags
strip_tags-plain conn line h = ground (arith, no_tags conn line h)

is_stopped_by_tags-plain :
    (env : Env) (conn : Connection) (line : Bytes) (tags : TagMap) (text : Bytes)
    → starts_with b'@' line ≡ false
    → is_stopped_by_tags env conn line tags text ≡ false
unfolding is_stopped_by_tags
is_stopped_by_tags-plain env conn line tags text h = ground (arith, no_tags conn line h)

if_false {ℓ} : {A : Type ℓ} (b : Bool) (x y : A) → b ≡ false → (if b then x else y) ≡ y
if_false b x y h = rw h refl

-- A line without tags, which the modules let pass as it is, is dispatched by its words.
parse_incoming-word :
    (env : Env) (c : ℕ) (line cmd : Bytes) (params : List Bytes) (w : World)
    → read_raw env line ≡ some line
    → starts_with b'@' line ≡ false
    → split_irc (trimmed line) ≡ cmd ∷ params
    → parse_incoming env c line w ≡ dispatch env c [] cmd params w
unfolding parse_incoming parse_line run_words
parse_incoming-word env c line cmd params w kept plain words =
    let conn = w.connection_at c in
    ap (λ o. elim o as (λ _. Outcome World) [ none ↦ done w | some l ↦ parse_line env c l w ]) kept
    ∙ (if_false (is_stopped_by_tags env conn line (strip_tags conn line).0 (strip_tags conn line).1)
          _ _ (is_stopped_by_tags-plain env conn line _ _ plain)
        ∙ (ap (λ p. run_words env c p.0 (split_irc p.1) w) (strip_tags-plain conn line plain)
            ∙ ap (λ ws. run_words env c [] ws w) words))

join_words : split_irc (trimmed (codes "JOIN")) ≡ codes "JOIN" ∷ []
unfolding split_irc trimmed index_of
join_words = refl

cap_words : split_irc (trimmed (codes "CAP")) ≡ codes "CAP" ∷ []
unfolding split_irc trimmed index_of
cap_words = refl

-- The line `CAP`, without a parameter, reads behind the end of the list of parameters on every
-- connection that has not ended the exchange of capabilities; it may be the first line of a client,
-- and is taken here to pass the modules as it is.
bare_cap_faults :
    (env : Env) (c : ℕ) (w : World)
    → read_raw env (codes "CAP") ≡ some (codes "CAP")
    → Bitflags.has SetupTasks.cap_exchange (w.connection_at c).setup_tasks ≡ true
    → parse_incoming env c (codes "CAP") w ≡ fault
unfolding dispatch dispatch_setup bytes_eqb
bare_cap_faults env c w kept pending =
    parse_incoming-word env c (codes "CAP") (codes "CAP") [] w kept refl cap_words
    ∙ (handle_cap_fault env c w ∙ rw pending refl)

-- The line `JOIN`, without a parameter, reads behind the end of the list of parameters on every
-- connection that is ready, if the modules let it pass as it is.
bare_join_faults :
    (env : Env) (c : ℕ) (w : World)
    → read_raw env (codes "JOIN") ≡ some (codes "JOIN")
    → (w.connection_at c).is_ready ≡ true
    → parse_incoming env c (codes "JOIN") w ≡ fault
unfolding dispatch dispatch_setup bytes_eqb dispatch_ready guarded_join
bare_join_faults env c w kept ready =
    parse_incoming-word env c (codes "JOIN") (codes "JOIN") [] w kept refl join_words
    ∙ rw ready refl
