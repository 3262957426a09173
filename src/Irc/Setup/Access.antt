-- ===== src/Irc/Setup/Access.antt =====
-- Which connections become ready.
use chatripper.Common.{
  ℕ, ◌≡◌, ◌≢◌, ◌⊎◌, inl, inr, refl, sym, ◌∙◌, ap, Bool, true, false, not, [], ◌∷◌, ◌++◌, Bytes,
  is_empty, to_lower, bytes_eqb_iff, ◌↔◌, codes, if◌then◌else◌, bytes_key, bytes_eqb, beq_self,
  arith,
}
use chatripper.Common.Outcome.{Outcome, done, ◌>>=◌}
use chatripper.Bitflags
use chatripper.State.{World}
use chatripper.Core.Caches.{irc_nick_get}
use chatripper.Env.{Env}
use chatripper.Irc.Reply.{nick, reply_num, send_raw, force_disconnect}
use chatripper.Irc.Modes.{handle_mode, change_user}
use chatripper.Irc.Setup.Rejoin.{
  Keeps, Keeps-refl, Ready, Ready-Keeps, greet-Ready, rejoin_returns, change_user-Keeps,
}
use chatripper.Irc.Setup.{
  try_finalize_setup, finalize, is_setup_done, is_password_wrong, is_nick_taken, set_ready, refuse,
  greet, mark_registered, complete,
}

is_empty_nil : (s : Bytes) → (is_empty s ≡ true) ↔ (s ≡ [])
is_empty_nil [] = ((λ _. refl), (λ _. refl))
is_empty_nil (c ∷ s) = ground arith

true≢false : true ≢ false
true≢false h = ground arith

done_injective : (v w : World) → done v ≡ done w → w ≡ v
done_injective v w h = ground arith

either_returns :
    (P : World → Type 0) (b : Bool) {x y : Outcome World}
    → (v : World) × (x ≡ done v) × P v
    → (v : World) × (y ≡ done v) × P v
    → (v : World) × ((if b then x else y) ≡ done v) × P v
either_returns P true hx hy = hx
either_returns P false hx hy = hy

-- The shape of `try_finalize_setup`, read in both directions.
abbrev chain : Bool → Bool → Bool → Bool → World → World → World → Outcome World → Outcome World
chain r s p n w a b out =
    if r then done w else if not s then done w else if p then done a else if n then done b else out

tests_passed :
    (r s p n : Bool) (w a b : World) (out : Outcome World)
    → r ≡ false
    → s ≡ true
    → p ≡ false
    → n ≡ false
    → chain r s p n w a b out ≡ out
tests_passed r s p n w a b out hr hs hp hn = rw hr (rw hs (rw hp (rw hn refl)))

tests_cases :
    (r s p n : Bool) (w a b : World) (out : Outcome World) (v : World)
    → r ≡ false
    → chain r s p n w a b out ≡ done v
    → (s ≡ true) × (p ≡ false) × (n ≡ false) ⊎ ((v ≡ w) ⊎ ((v ≡ a) ⊎ (v ≡ b)))
tests_cases true s p n w a b out v h e = absurd (true≢false h)
tests_cases false false p n w a b out v h e = inr (inl (done_injective w v e))
tests_cases false true true n w a b out v h e = inr (inr (inl (done_injective a v e)))
tests_cases false true false true w a b out v h e = inr (inr (inr (done_injective b v e)))
tests_cases false true false false w a b out v h e = inl (refl, refl, refl)

module _ (env : Env) (c : ℕ) where
  abbrev pub is_ready : World → Bool
  is_ready w = (w.connection_at c).is_ready

  -- What it takes to become ready: no task is left; the server has no password or it was given; the
  -- connection is logged in to an account, or nobody holds its nickname in lower case.
  abbrev pub Admitted : World → Type 0
  Admitted w =
      let conn = w.connection_at c in
      (conn.setup_tasks.bits ≡ 0)
      × ((env.server_password ≡ []) ⊎ (conn.pass_given ≡ env.server_password))
      × ((conn.account ≢ 0) ⊎ (irc_nick_get (to_lower conn.nick) w ≡ 0))

  -- The tests, as the code makes them.
  abbrev Passes : World → Type 0
  Passes w =
      (is_setup_done (w.connection_at c) ≡ true)
      × (is_password_wrong env (w.connection_at c) ≡ false)
      × (is_nick_taken env (w.connection_at c) w ≡ false)

  Passes-Admitted : (w : World) → Passes w ↔ Admitted w
  unfolding is_setup_done Bitflags.empty is_password_wrong is_nick_taken
  Passes-Admitted w = ground (
    arith,
    bytes_eqb_iff (w.connection_at c).pass_given env.server_password,
    is_empty_nil env.server_password,
    is_empty_nil (w.connection_at c).pass_given,
  )

  own_mode_returns :
      (w : World)
      → handle_mode env c (nick c w ∷ codes "+r" ∷ []) w
        ≡ done (change_user env c true (codes "r") w)
  unfolding handle_mode bytes_eqb
  own_mode_returns w = ground (arith, beq_self (nick c w))

  mark_registered_returns :
      (w : World) → (v : World) × (mark_registered env c w ≡ done v) × Keeps c w v
  unfolding mark_registered
  mark_registered_returns w =
      either_returns (Keeps c w) (w.connection_at c).logged_in
        (
          change_user env c true (codes "r") w,
          own_mode_returns w,
          change_user-Keeps env c (codes "r") w,
        )
        (w, refl, Keeps-refl)

  set_ready_lem : (w : World) → is_ready (set_ready env c w) ≡ true
  unfolding set_ready
  set_ready_lem w = ground arith

  finalize_returns :
      (w : World) → Ready env c w → (v : World) × (finalize env c w ≡ done v) × (is_ready v ≡ true)
  unfolding finalize complete
  finalize_returns w seated =
      let (v, marked, kept) = mark_registered_returns (greet env c w) in
      let a = (v.connection_at c).account in
      let (u, e) =
        rejoin_returns env a (v.account_at a).channels v
          (Ready-Keeps env c kept (greet-Ready env c w seated)) in
      (
        set_ready env c u,
        ap (λ out. out >>= λ t. complete env c t) marked
            ∙ ap (λ out. out >>= λ t. done (set_ready env c t)) e,
        set_ready_lem u,
      )

  -- A connection that is not ready becomes ready if its setup is done, the password that the server
  -- asks for was given, and nobody holds its nickname in lower case, unless it is logged in to an
  -- account: the setup returns, provided that the account's table of channels holds no null pointer
  -- and that the account is a member of each channel in it.
  pub try_finalize_succeeds :
      (w : World)
      → is_ready w ≡ false
      → Admitted w
      → Ready env c w
      → (v : World) × (try_finalize_setup env c w ≡ done v) × (is_ready v ≡ true)
  unfolding try_finalize_setup
  try_finalize_succeeds w fresh h seated =
      let (v, e, r) = finalize_returns w seated in
      let p = (Passes-Admitted w).1 h in
      (
        v,
        tests_passed (is_ready w) (is_setup_done (w.connection_at c))
              (is_password_wrong env (w.connection_at c)) (is_nick_taken env (w.connection_at c) w)
              w _ _ (finalize env c w) fresh p.0 p.1 p.2
            ∙ e,
        r,
      )

  refuse_is_ready :
      (code : ℕ) (text : Bytes) (w : World) → is_ready (refuse env c code text w) ≡ is_ready w
  unfolding refuse force_disconnect reply_num send_raw
  refuse_is_ready code text w = ground arith

  -- A connection becomes ready in no other way: the setup was done, the password that the server
  -- asks for was given, and nobody held the nickname in lower case unless the connection was logged
  -- in to an account.
  pub try_finalize_guards :
      (w v : World)
      → is_ready w ≡ false
      → try_finalize_setup env c w ≡ done v
      → is_ready v ≡ true
      → Admitted w
  unfolding try_finalize_setup
  try_finalize_guards w v fresh e ready =
      elim (tests_cases (is_ready w) (is_setup_done (w.connection_at c))
        (is_password_wrong env (w.connection_at c)) (is_nick_taken env (w.connection_at c) w) w _ _
        (finalize env c w) v fresh e) [
          | inl passed ↦ (Passes-Admitted w).0 passed
          | inr (inl same) ↦ absurd (true≢false (sym ready ∙ (ap is_ready same ∙ fresh)))
          | inr (inr (inl same)) ↦ absurd (
              true≢false (
                sym ready
                ∙ (ap is_ready same
                    ∙ (refuse_is_ready 464 (codes "Password incorrect") w ∙ fresh))))
          | inr (inr (inr same)) ↦ absurd (
              true≢false (
                sym ready
                ∙ (ap is_ready same
                    ∙ (refuse_is_ready 433
                          ((w.connection_at c).nick ++ codes " :Nickname is already in use") w
                        ∙ fresh))))
        ]
