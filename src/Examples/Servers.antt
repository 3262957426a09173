-- ===== src/Examples/Servers.antt =====
-- core/server.cpp and its neighbours at work: two servers, one of which has a channel.
use chatripper.Common.{
  ℕ, ◌≡◌, refl, true, false, [], ◌∷◌, codes, contains, nat_key, nat_eqb, if◌then◌else◌,
}
use chatripper.Common.Outcome.{done, deadlock}
use chatripper.Core.Directory.Objects.{Server, new_server}
use chatripper.Core.Directory.Tables.Filed.{Found}
use chatripper.Core.Directory.{
  Directory, server_named, role_named, permission_named, upload_named, server_from_db, merge,
}
use chatripper.Core.Directory.Filing.{here, next, server_created, empty_directory, reach-Found}
use chatripper.Core.Directory.Merge.{is_idle, merge_lem}
use chatripper.Examples.Data.{sample_world}

abbrev one_server : Directory
one_server = (server_from_db 7 (codes "main") 1 0 empty_directory).1

abbrev two_servers : Directory
two_servers = (server_from_db 8 (codes "spare") 1 0 one_server).1

reach-Found_example :
    Found two_servers.servers 8 2
    × Found two_servers.roles 8 2
    × Found two_servers.permissions 8 2
    × Found two_servers.uploads 8 2
reach-Found_example =
    reach-Found two_servers 8 2 (
      next (next here (server_created 7 (codes "main") 1 0)) (server_created 8 (codes "spare") 1 0))

abbrev main_server : Server
main_server = record (new_server (codes "main")) { uid = 7 }

-- The second server has a channel.
abbrev with_channel : Directory
with_channel = record empty_directory {
  servers = record empty_directory.servers {
    object_at =
        λ p. if nat_eqb p 2 then record main_server { channels = (5, 1) ∷ [] } else main_server;
  };
}

main_unlocked : (with_channel.servers.object_at 1).write_locked ≡ false
unfolding new_server
main_unlocked = refl

merge_lem_example :
    (is_idle sample_world 1 2 with_channel ≡ false → merge sample_world 1 2 with_channel ≡ deadlock)
    × (is_idle sample_world 1 2 with_channel ≡ true
        → (e : Directory) × (merge sample_world 1 2 with_channel ≡ done e)
          × ((p : ℕ)
              → ((e.servers.object_at p).channels ≡ (with_channel.servers.object_at p).channels)
                × ((e.servers.object_at p).roles ≡ (with_channel.servers.object_at p).roles)
                × ((e.servers.object_at p).write_locked
                    ≡ (with_channel.servers.object_at p).write_locked)
                × (contains e.servers.objects p
                    ≡ (if nat_eqb 2 p then false else contains with_channel.servers.objects p))))
merge_lem_example = merge_lem sample_world 1 2 with_channel main_unlocked (λ e. cc)
