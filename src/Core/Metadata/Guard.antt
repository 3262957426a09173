-- ===== src/Core/Metadata/Guard.antt =====
-- core/metadata.cpp: which requests change a value, and to what.
use chatripper.Common.{
  ◌≡◌, Bool, Option, none, some, List, [], ◌∷◌, Bytes, codes, arith, find-insert, find-remove,
  bytes_key, ◌==◌, if◌then◌else◌,
}
use chatripper.State.{Variant, Metadata, World}
use chatripper.Core.Metadata.{
  MetadataEvent, get, set, remove_key, sub, unsub, is_foreign, handle, handle_set, handle_clear,
  handle_other,
}

-- The key that a request changes, and its new value: SET takes a key and a value, CLEAR a key.
abbrev set_change : List Bytes → Option (Bytes × Variant)
set_change (key ∷ value ∷ more) = some (key, some value)
set_change _ = none

abbrev clear_change : List Bytes → Option (Bytes × Variant)
clear_change (key ∷ more) = some (key, none)
clear_change [] = none

-- Two chains of tests with the same results.
chain {ℓ κ} :
    {A : Type ℓ} {B : Type κ} (view : A → B) (guard set clear : Bool) (x y z : A) (s c old : B)
    → view x ≡ (if guard then old else s)
    → view y ≡ (if guard then old else c)
    → view z ≡ old
    → view (if set then x else if clear then y else z)
      ≡ (if guard then old else if set then s else if clear then c else old)
chain view guard set clear x y z s c old hx hy hz = ground arith

module _ (text : Bytes → Bytes) where
  abbrev with_change : Bytes → Option (Bytes × Variant) → Variant → Variant
  with_change j none old = old
  with_change j (some (key, new)) old = if text key == text j then new else old

  set-get :
      (key value j : Bytes) (w : World) (m : Metadata)
      → get text j (set text key value w m)
        ≡ (if text key == text j then some value else get text j m)
  unfolding get set
  set-get key value j w m = ground (arith, find-insert (text key) (text j) (some value) m.kv)

  remove_key-get :
      (key j : Bytes) (w : World) (m : Metadata)
      → get text j (remove_key text key w m) ≡ (if text key == text j then none else get text j m)
  unfolding get remove_key
  remove_key-get key j w m = ground (arith, find-remove (text key) (text j) m.kv)

  -- A request with these parameters.
  set_with :
      (args : List Bytes) (j : Bytes) (w : World) (e : MetadataEvent) (m : Metadata)
      → (let ev = record e { args = args } in
          get text j (handle_set text w ev m).1 ≡ (
            if is_foreign m.owner ev
            then get text j m
            else with_change j (set_change args) (get text j m)))
  unfolding handle_set
  set_with [] j w e m = ground arith
  set_with (key ∷ []) j w e m = ground arith
  set_with (key ∷ value ∷ more) j w e m = ground (arith, set-get key value j w m)

  clear_with :
      (args : List Bytes) (j : Bytes) (w : World) (e : MetadataEvent) (m : Metadata)
      → (let ev = record e { args = args } in
          get text j (handle_clear text w ev m).1 ≡ (
            if is_foreign m.owner ev
            then get text j m
            else with_change j (clear_change args) (get text j m)))
  unfolding handle_clear
  clear_with [] j w e m = ground arith
  clear_with (key ∷ more) j w e m = ground (arith, remove_key-get key j w m)

  handle_other-get :
      (cmd j : Bytes) (w : World) (ev : MetadataEvent) (m : Metadata)
      → get text j (handle_other text cmd w ev m).1 ≡ get text j m
  unfolding handle_other get sub unsub
  handle_other-get cmd j w ev m = ground arith

module _ (text upper : Bytes → Bytes) where
  -- The value of a key after a request.
  unfoldable pub value_after : Bytes → MetadataEvent → Metadata → Variant
  unfolding is_foreign get
  value_after j ev m =
      let cmd = upper (text ev.subcmd) in
      let old = get text j m in
      if is_foreign m.owner ev
      then old
      else if cmd == codes "SET"
      then with_change text j (set_change ev.args) old
      else if cmd == codes "CLEAR"
      then with_change text j (clear_change ev.args) old
      else old

  -- What a request does to the value of any key. A request of another account on an account's
  -- metadata changes nothing; else SET with a key and a value gives the key that value, CLEAR with a
  -- key takes it away, and every other value and every other request leaves the values as they are.
  pub handle-get :
      (j : Bytes) (w : World) (ev : MetadataEvent) (m : Metadata)
      → get text j (handle text upper w ev m).1 ≡ value_after j ev m
  unfolding handle value_after
  handle-get j w ev m =
      let cmd = upper (text ev.subcmd) in
      let old = get text j m in
      chain (λ (r : MetadataEvent × Metadata). get text j r.1) (is_foreign m.owner ev)
        (cmd == codes "SET") (cmd == codes "CLEAR") (handle_set text w ev m)
        (handle_clear text w ev m) (handle_other text cmd w ev m)
        (with_change text j (set_change ev.args) old)
        (with_change text j (clear_change ev.args) old) old (set_with text ev.args j w ev m)
        (clear_with text ev.args j w ev m) (handle_other-get text cmd j w ev m)
