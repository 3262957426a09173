-- ===== src/Core/Metadata/Objects.antt =====
-- `metadata()` of core/account.h and core/channel.h, which makes the object when it is first asked
-- for, and `sql::metadata_get`, which fills it.
use chatripper.Common.{
  ℕ, none, some, List, [], ◌∷◌, Bytes, Map, find, insert, nat_key, bytes_key, if◌then◌else◌,
}
use chatripper.State.{
  World, Metadata, Variant, Target, to_account, to_channel, is_null, or_null, add_to_set,
}
use chatripper.Env.{Env}
use chatripper.Core.Metadata.{MetadataEvent, handle, set_at}

-- A row with no subscription has the null account, and an account that is not in the cache is
-- passed over.
unfoldable subscribed : Map ℕ ℕ → Bytes → ℕ → Map Bytes (List ℕ) → Map Bytes (List ℕ)
unfolding add_to_set
subscribed accounts key id subs =
    let p = or_null (find id accounts) in
    if is_null id
    then subs
    else if is_null p
    then subs
    else insert key (add_to_set p (set_at key subs)) subs

unfoldable pub read_rows : Map ℕ ℕ → List (Bytes × Variant × ℕ) → Metadata → Metadata
unfolding subscribed
read_rows accounts [] m = m
read_rows accounts ((key, value, id) ∷ rows) m = read_rows accounts rows (record m {
  kv = insert key value m.kv;
  subscribers = subscribed accounts key id m.subscribers;
})

module _ (env : Env) where
  -- The constructor of `Metadata`.
  unfoldable pub load : Target → ℕ → World → Metadata
  unfolding read_rows
  load owner ref w =
      read_rows w.accounts_lookup_uuid (env.metadata_rows ref)
        (record { owner = owner; kv = []; subscribers = []; statements = [] })

  unfoldable pub account_metadata : ℕ → World → Metadata
  unfolding load
  account_metadata p w = elim (find p w.account_metadata) [
    | some m ↦ m
    | none ↦ load (to_account p) (w.account_at p).uid w
  ]

  unfoldable pub channel_metadata : ℕ → World → Metadata
  unfolding load
  channel_metadata p w = elim (find p w.channel_metadata) [
    | some m ↦ m
    | none ↦ load (to_channel p) (w.channel_at p).uid w
  ]

  -- `p->metadata()->handle(event)`
  unfoldable pub handle_account : ℕ → MetadataEvent → World → MetadataEvent × World
  unfolding account_metadata handle
  handle_account p ev w =
      let (after, m) = handle env.text env.upper w ev (account_metadata p w) in
      (after, record w { account_metadata = insert p m w.account_metadata })

  unfoldable pub handle_channel : ℕ → MetadataEvent → World → MetadataEvent × World
  unfolding channel_metadata handle
  handle_channel p ev w =
      let (after, m) = handle env.text env.upper w ev (channel_metadata p w) in
      (after, record w { channel_metadata = insert p m w.channel_metadata })
