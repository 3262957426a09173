-- ===== src/Examples/Commands.antt =====
-- METADATA: irc/client_connection.cpp and core/metadata.cpp at work.
use chatripper.Common.{◌≡◌, [], ◌∷◌, Bytes, List, codes, arith, find, nat_key, bytes_key}
use chatripper.Bitflags
use chatripper.Bitflags.{no_flags}
use chatripper.Caps
use chatripper.Caps.{capability_flags}
use chatripper.State.{World, set_connection}
use chatripper.Core.Metadata.Objects.{account_metadata, load, read_rows}
use chatripper.Irc.Metadata.{metadata, handle_metadata}
use chatripper.Irc.Metadata.Values.{value, value_then, handle_metadata-value}
use chatripper.Irc.Metadata.Answers.{metadata_lem, saying, answer}
use chatripper.Irc.Metadata.Owners.{HasOwners, handle_metadata_protects}
use chatripper.Examples.Data.{sample_env, sample_world, open_connection, alice_sets_url}

-- Alice's connection has asked for the capability.
abbrev asking : World
asking =
    set_connection 1
      (record (open_connection 1) { capabilities = Bitflags.set Caps.metadata no_flags })
      sample_world

abbrev set_url : List Bytes
set_url = codes "SET" ∷ codes "url" ∷ codes "c.org" ∷ []

metadata_lem_example :
    metadata sample_env 1 alice_sets_url asking
    ≡ saying 1 (answer sample_env 1 alice_sets_url asking) asking
metadata_lem_example = metadata_lem sample_env 1 alice_sets_url asking

handle_metadata-value_example :
    value sample_env 1 (codes "url") (handle_metadata sample_env 1 (codes "*" ∷ set_url) asking)
    ≡ value_then sample_env 1
        (codes "*")
        (codes "SET")
        (codes "url" ∷ codes "c.org" ∷ [])
        1
        (codes "url")
        asking
handle_metadata-value_example =
    handle_metadata-value sample_env 1 (codes "*") (codes "SET") (codes "url" ∷ codes "c.org" ∷ [])
      1 (codes "url") asking

asking-HasOwners : HasOwners sample_env asking
unfolding account_metadata find load read_rows
asking-HasOwners p = ground arith

handle_metadata_protects_example :
    value sample_env 2 (codes "url") (handle_metadata sample_env 1 (codes "bob" ∷ set_url) asking)
    ≡ value sample_env 2 (codes "url") asking
handle_metadata_protects_example =
    handle_metadata_protects sample_env 1 (codes "bob" ∷ set_url) 2 (codes "url") asking
      asking-HasOwners (ground arith) (ground arith)
