-- ===== src/Sql/Preload/Returns.antt =====
-- lib/sql.cpp, `preload_from_file`: every step returns.
use chatripper.Common.{ℕ, ◌≢◌, some, ◌≡◌, Bytes, bytes_key, Map, find, nat_key}
use chatripper.Common.Outcome.{Outcome}
use chatripper.Env.{Env}
use chatripper.Core.Directory.{server_named}
use chatripper.Sql.Preload.{Preload}

-- No pointer of the table is null.
abbrev AllGiven : Map Bytes ℕ → Type 0
AllGiven m = (name : Bytes) (p : ℕ) → find name m ≡ some p → p ≢ 0
