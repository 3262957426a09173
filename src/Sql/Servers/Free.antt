-- ===== src/Sql/Servers/Free.antt =====
-- core/server.cpp and lib/sql.cpp: calls that return and leave no lock of a server behind.
use chatripper.Common.{
  ℕ, ◌≡◌, ◌≢◌, refl, sym, subst, Bool, true, false, Option, none, some, Bytes, bytes_key, insert,
  nat_key, if◌then◌else◌, arith, Bool-cases, inl, inr,
}
use chatripper.Common.Outcome.{Outcome, done, deadlock, fault, ◌>>=◌}
use chatripper.Bitflags.{Flags}
use chatripper.State.{World, is_null, update}
use chatripper.Core.Directory.Objects.{Server, Right, new_server}
use chatripper.Core.Directory.Tables.{create_once, insert_cache, set_object}
use chatripper.Core.Directory.{
  Directory, server_named, change_server, server_from_db, permission_from_db, add_role, add_account,
  add_channel,
}
use chatripper.Sql.Database.{Store, via}
use chatripper.Sql.Roles.{permission_get_or_create}

-- No server is locked by this thread, and the next one gets a pointer that is not null.
abbrev AllFree : Directory → Type 0
AllFree d = (d.servers.next ≢ 0) × ((p : ℕ) → (d.servers.object_at p).write_locked ≡ false)

-- Neither is a writer waiting for `mtx_cache`.
abbrev pub Calm : Store → Type 0
Calm s = AllFree s.directory × (s.writer_waits ≡ false)

abbrev Returned : {A : Type 0} → (A → Type 0) → Outcome A → Type 0
Returned P (done a) = P a
Returned P deadlock = ⊥
Returned P fault = ⊥

-- Nothing is known of the result.
abbrev pub Any : {A : Type 0} → A → Type 0
Any a = Unit

-- The call returns, what it gives has the property, and no lock is left behind.
pub record Fine {A : Type 0} (P : A → Type 0) (m : Outcome (A × Store)) : Type 0 where
  pub returned : Returned (λ r. P r.0 × Calm r.1) m

pub record FineDirectory (m : Outcome Directory) : Type 0 where
  returned_directory : Returned AllFree m

pub ok : {A : Type 0} {P : A → Type 0} (a : A) (s : Store) → P a → Calm s → Fine P (done (a, s))
ok a s p h = record { returned = (p, h) }

pub ok_directory : (d : Directory) → AllFree d → FineDirectory (done d)
ok_directory d h = record { returned_directory = h }

pub bind-Fine :
    {A B : Type 0} {P : A → Type 0} {Q : B → Type 0} (m : Outcome (A × Store))
    (f : A × Store → Outcome (B × Store))
    → Fine P m
    → ((a : A) (s : Store) → P a → Calm s → Fine Q (f (a, s)))
    → Fine Q (m >>= f)
bind-Fine (done (a, s)) f h k = k a s h.returned.0 h.returned.1
bind-Fine deadlock f h k = absurd h.returned
bind-Fine fault f h k = absurd h.returned

pub enter-Fine :
    {B : Type 0} {Q : B → Type 0} (m : Outcome Directory) (f : Directory → Outcome (B × Store))
    → FineDirectory m
    → ((d : Directory) → AllFree d → Fine Q (f d))
    → Fine Q (m >>= f)
enter-Fine (done d) f h k = k d h.returned_directory
enter-Fine deadlock f h k = absurd h.returned_directory
enter-Fine fault f h k = absurd h.returned_directory

pub given_lem : (p : ℕ) → is_null p ≡ false → p ≢ 0
given_lem p h = ground (arith, h)

null_lem : (p : ℕ) → p ≢ 0 → is_null p ≡ false
null_lem p h = ground (arith, h)

-- A call through a pointer that is not null.
pub via-Fine :
    {A : Type 0} {P : A → Type 0} (p : ℕ) (m : Outcome (A × Store))
    → p ≢ 0
    → Fine P m
    → Fine P (via p m)
via-Fine p m given h = rw (null_lem p given) h

pub via-FineDirectory :
    (p : ℕ) (m : Outcome Directory) → p ≢ 0 → FineDirectory m → FineDirectory (via p m)
via-FineDirectory p m given h = rw (null_lem p given) h

change_server-Fine :
    (p : ℕ) (f : Server → Server) (d : Directory)
    → AllFree d
    → ((s : Server) → (f s).write_locked ≡ s.write_locked)
    → FineDirectory (change_server p f d)
change_server-Fine p f d h keeps =
    subst
      (λ b. FineDirectory (
        if b
        then deadlock
        else done (record d { servers = set_object p (f (d.servers.object_at p)) d.servers })))
      (sym (h.1 p)) (ok_directory _ (h.0, λ q. kept q))
  where
    kept :
        (q : ℕ) → (update d.servers.object_at p (f (d.servers.object_at p)) q).write_locked ≡ false
    kept q = ground (arith, h.1 p, h.1 q, keeps (d.servers.object_at p))

pub add_role-Fine : (p role : ℕ) (d : Directory) → AllFree d → FineDirectory (add_role p role d)
unfolding add_role
add_role-Fine p role d h =
    change_server-Fine p
      (λ s. record s { roles = insert (d.roles.object_at role).uid role s.roles }) d h (λ s. refl)

pub add_channel-Fine :
    (w : World) (p ch : ℕ) (d : Directory) → AllFree d → FineDirectory (add_channel w p ch d)
unfolding add_channel
add_channel-Fine w p ch d h =
    change_server-Fine p (λ s. record s { channels = insert (w.channel_at ch).uid ch s.channels }) d
      h (λ s. refl)

pub add_account-Fine :
    (w : World) (p a : ℕ) (d : Directory) → AllFree d → FineDirectory (add_account w p a d)
unfolding add_account
add_account-Fine w p a d h = elim (Bool-cases (is_null a)) [
  | inl null ↦ rw null (ok_directory d h)
  | inr given ↦ rw given (
      change_server-Fine p (λ s. record s { accounts = insert (w.account_at a).uid a s.accounts }) d
        h (λ s. refl))
]

pub server_from_db-Free :
    (id : ℕ) (name : Bytes) (owner creation : ℕ) (d : Directory)
    → AllFree d
    → AllFree (server_from_db id name owner creation d).1
unfolding server_from_db create_once insert_cache new_server
server_from_db-Free id name owner creation d h = (ground (arith, h.0), λ q. ground (arith, h.1 q))

-- The pointer is not null.
pub server_from_db-given :
    (id : ℕ) (name : Bytes) (owner creation : ℕ) (d : Directory)
    → AllFree d
    → (server_from_db id name owner creation d).0 ≢ 0
unfolding server_from_db create_once
server_from_db-given id name owner creation d h = ground (arith, h.0)

pub permission_get_or_create-Calm :
    (id role : ℕ) (flags : Flags Right) (now : ℕ) (s : Store)
    → Calm s
    → Calm (permission_get_or_create id role flags now s).1
unfolding permission_get_or_create permission_from_db
permission_get_or_create-Calm id role flags now s h =
    ((ground (arith, h.0.0), λ q. ground (arith, h.0.1 q)), ground (arith, h.1))

pub branch-Fine :
    {A : Type 0} {P : A → Type 0} (b : Bool) (m n : Outcome (A × Store))
    → Fine P m
    → (b ≡ false → Fine P n)
    → Fine P (if b then m else n)
branch-Fine true m n h k = h
branch-Fine false m n h k = k refl

pub branch-FineDirectory :
    (b : Bool) (m n : Outcome Directory)
    → FineDirectory m
    → (b ≡ false → FineDirectory n)
    → FineDirectory (if b then m else n)
branch-FineDirectory true m n h k = h
branch-FineDirectory false m n h k = k refl

pub found-Fine :
    {A R : Type 0} {P : A → Type 0} (o : Option R) (n : Outcome (A × Store))
    (f : R → Outcome (A × Store))
    → Fine P n
    → ((r : R) → o ≡ some r → Fine P (f r))
    → Fine P (elim o as (λ x. Outcome (A × Store)) [ none ↦ n | some r ↦ f r ])
found-Fine none n f h k = h
found-Fine (some r) n f h k = k r refl

pub loosen : {A : Type 0} {P : A → Type 0} {m : Outcome (A × Store)} → Fine P m → Fine Any m
loosen {m = done (a, s)} h = ok a s tt h.returned.1
loosen {m = deadlock} h = absurd h.returned
loosen {m = fault} h = absurd h.returned

-- A second lock for reading, with no writer waiting.
pub unblocked-FineDirectory :
    (b : Bool) (m : Outcome Directory)
    → b ≡ false
    → FineDirectory m
    → FineDirectory (if b then deadlock else m)
unblocked-FineDirectory b m free h = rw free h
