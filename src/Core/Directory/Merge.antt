-- ===== src/Core/Directory/Merge.antt =====
-- core/server.cpp: what the merge of two servers comes to.
use chatripper.Common.{
  ℕ, ◌≡◌, ◌≢◌, refl, Bool, true, false, not, ◌&&◌, [], ◌∷◌, Map, is_empty, nat_key, nat_eqb,
  if◌then◌else◌, arith, contains, contains-remove_all,
}
use chatripper.Common.Outcome.{done, deadlock}
use chatripper.State.{World}
use chatripper.Core.Directory.Objects.{Server}
use chatripper.Core.Directory.Tables.{Shelf, remove_cache}
use chatripper.Core.Directory.{
  Directory, server_named, server_remove_cache, add_channel, add_role, add_channels, add_roles,
  set_server, merge,
}

remove_cache-object_at :
    (p q : ℕ) (s : Shelf Server) → (remove_cache p s).object_at q ≡ s.object_at q
unfolding remove_cache
remove_cache-object_at p q s = ground arith

remove_cache-objects :
    (p q : ℕ) (s : Shelf Server)
    → p ≢ 0
    → contains (remove_cache p s).objects q ≡ (if nat_eqb p q then false else contains s.objects q)
unfolding remove_cache
remove_cache-objects p q s h = ground (arith, contains-remove_all s.objects p q)

is_empty_nil : (m : Map ℕ ℕ) → is_empty m ≡ true → m ≡ []
is_empty_nil [] h = refl
is_empty_nil (e ∷ m) h = cc

module _ (w : World) (self : ℕ) where
  add_channels_locked :
      (chs : Map ℕ ℕ) (d : Directory)
      → (d.servers.object_at self).write_locked ≡ true
      → add_channels w self chs d ≡ (if is_empty chs then done d else deadlock)
  unfolding add_channels add_channel
  add_channels_locked [] d h = refl
  add_channels_locked ((id, ch) ∷ rest) d h = ground arith

  add_roles_locked :
      (rs : Map ℕ ℕ) (d : Directory)
      → (d.servers.object_at self).write_locked ≡ true
      → add_roles w self rs d ≡ (if is_empty rs then done d else deadlock)
  unfolding add_roles add_role
  add_roles_locked [] d h = refl
  add_roles_locked ((id, role) ∷ rest) d h = ground arith

  -- The merge has nothing to do, and two servers to do it with.
  abbrev pub is_idle : ℕ → Directory → Bool
  is_idle from d =
      is_empty (d.servers.object_at from).channels
      && is_empty (d.servers.object_at from).roles
      && not (nat_eqb self from)
      && not (d.servers.object_at from).write_locked

  -- A merge moves nothing. If the other server has a channel or a role, is the server itself, or is
  -- locked by this thread, then the thread waits for ever for a lock that it holds; else there is nothing
  -- to move, and only the other server is taken out of the caches. The server must not be locked
  -- already, and the other one not be null.
  pub merge_lem :
      (from : ℕ) (d : Directory)
      → (d.servers.object_at self).write_locked ≡ false
      → from ≢ 0
      → (is_idle from d ≡ false → merge w self from d ≡ deadlock)
        × (is_idle from d ≡ true
            → (e : Directory) × (merge w self from d ≡ done e)
              × ((p : ℕ)
                  → ((e.servers.object_at p).channels ≡ (d.servers.object_at p).channels)
                    × ((e.servers.object_at p).roles ≡ (d.servers.object_at p).roles)
                    × ((e.servers.object_at p).write_locked ≡ (d.servers.object_at p).write_locked)
                    × (contains e.servers.objects p
                        ≡ (if nat_eqb from p then false else contains d.servers.objects p))))
  unfolding merge server_remove_cache
  merge_lem from d free live =
      let held = set_server w self (record (d.servers.object_at self) { write_locked = true }) d in
      let from_held = held.servers.object_at from in
      let cleared = set_server w from (record from_held { channels = []; roles = [] }) held in
      let removed = record cleared { servers = remove_cache from cleared.servers } in
      let locked : (held.servers.object_at self).write_locked ≡ true = ground arith in
      let chs = add_channels_locked (d.servers.object_at from).channels held locked in
      let rs = add_roles_locked from_held.roles held locked in
      let freed = record (removed.servers.object_at self) { write_locked = false } in
      (
        λ h. ground (arith, chs, rs),
        λ h. (
          set_server w self freed removed,
          ground (arith, chs, rs),
          λ p. ground (
            arith,
            remove_cache-object_at from p cleared.servers,
            remove_cache-object_at from self cleared.servers,
            remove_cache-objects from p cleared.servers,
            is_empty_nil (d.servers.object_at from).channels,
            is_empty_nil (d.servers.object_at from).roles,
          ),
        ),
      )
