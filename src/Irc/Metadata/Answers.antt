-- ===== src/Irc/Metadata/Answers.antt =====
-- irc/client_connection.cpp: which lines answer a METADATA command.
use chatripper.Common.{
  ℕ, ◌≡◌, ◌&&◌, nat_eqb, none, some, find, join, arith, refl, ap, ◌∙◌, sym, Bool, true, false, not,
  ◌||◌, List, [], ◌∷◌, ◌++◌, append_assoc, append-nil, map, Bytes, codes, is_empty, if◌then◌else◌,
  Map, bytes_key, ◌==◌,
}
use chatripper.State.{World, Variant, is_null, send_data}
use chatripper.Env.{Env}
use chatripper.Core.Metadata.{MetadataEvent}
use chatripper.Irc.Reply.{account_nick, nick, crlf}
use chatripper.Irc.Metadata.{
  is_internal, keys, words, server_prefix, target_name, key_line, send_keys, send_batch,
  send_failure, nicks, send_subscriptions, send_values, metadata,
}

-- A line for this connection.
abbrev to : ℕ → Bytes → ℕ × Bytes
to c line = (c, line)

-- The lines, sent to one connection in order, and nothing else.
abbrev pub saying : ℕ → List Bytes → World → World
saying c lines w = record w { sent = w.sent ++ map (to c) lines }

map-append {ℓ κ} :
    {A : Type ℓ} {B : Type κ} (f : A → B) (xs ys : List A) → map f (xs ++ ys) ≡ map f xs ++ map f ys
map-append f [] ys = refl
map-append f (x ∷ xs) ys = ap (λ l. f x ∷ l) (map-append f xs ys)

map-if {ℓ κ} :
    {A : Type ℓ} {B : Type κ} (f : A → B) (b : Bool) (xs ys : List A)
    → (if b then map f xs else map f ys) ≡ map f (if b then xs else ys)
map-if f true xs ys = refl
map-if f false xs ys = refl

saying-nil : (c : ℕ) (w : World) → w ≡ saying c [] w
saying-nil c w = ap (λ l. record w { sent = l }) (sym (append-nil w.sent))

saying-saying :
    (c : ℕ) (xs ys : List Bytes) (w : World) → saying c ys (saying c xs w) ≡ saying c (xs ++ ys) w
saying-saying c xs ys w =
    ap (λ l. record w { sent = l })
      (append_assoc w.sent (map (to c) xs) (map (to c) ys)
        ∙ ap (λ l. w.sent ++ l) (sym (map-append (to c) xs ys)))

-- A line that is sent unless a test says no, and what follows it.
said_next :
    (skip : Bool) (c : ℕ) (line : Bytes) (lines : List Bytes) (next : World → World) (w : World)
    → next w ≡ saying c lines w
    → next (send_data c line w) ≡ saying c lines (send_data c line w)
    → next (if skip then w else send_data c line w)
      ≡ saying c (if skip then lines else line ∷ lines) w
said_next true c line lines next w h k = h
said_next false c line lines next w h k = k ∙ saying-saying c (line ∷ []) lines w

said_if :
    (b : Bool) (c : ℕ) (w : World) (lines lines' : List Bytes) {v v' : World}
    → v ≡ saying c lines w
    → v' ≡ saying c lines' w
    → (if b then v else v') ≡ saying c (if b then lines else lines') w
said_if true c w lines lines' h k = h
said_if false c w lines lines' h k = k

-- The key begins with two underscores.
abbrev is_hidden : Bytes → Bool
is_hidden [] = false
is_hidden (a ∷ []) = false
is_hidden (a ∷ b ∷ key) = nat_eqb a 95 && nat_eqb b 95

is_internal-hidden : (key : Bytes) → is_internal key ≡ is_hidden key
unfolding is_internal
is_internal-hidden [] = refl
is_internal-hidden (a ∷ []) = ground arith
is_internal-hidden (a ∷ b ∷ key) = ground arith

-- The keys that a client may see.
unfoldable visible : List Bytes → List Bytes
visible [] = []
visible (k ∷ ks) = let rest = visible ks in if is_hidden k then rest else k ∷ rest

module _ (env : Env) where
  abbrev pub batch : Bytes → List Bytes → List Bytes
  batch ref lines =
      words (server_prefix env ∷ (codes "BATCH +" ++ (ref ++ (codes " metadata" ++ crlf))) ∷ [])
      ∷ (lines ++ words (server_prefix env ∷ (codes "BATCH -" ++ (ref ++ crlf)) ∷ []) ∷ [])

  -- The line for one key: 766 if it is not set, and else 761 with its value.
  abbrev value_line : Bytes → Bytes → Bytes → Map Bytes Variant → Bytes → Bytes
  value_line lead own target values key = elim (find (env.text key) values) [
    | none ↦
        lead
        ++ (codes " 766 " ++ (own ++ (32 ∷ (target ++ (32 ∷ (key ++ codes " :key not set\r\n"))))))
    | some v ↦
        lead
        ++ (codes " 761 "
            ++ (own
                ++ (32
                    ∷ (target
                        ++ (32
                            ∷ (key
                                ++ (codes " * :"
                                    ++ ((elim v [ none ↦ [] | some text ↦ env.text text ])
                                        ++ codes "\r\n"))))))))
  ]

  key_line-value_line :
      (lead own target : Bytes) (values : Map Bytes Variant) (key : Bytes)
      → key_line env lead own target values key ≡ value_line lead own target values key
  unfolding key_line join
  key_line-value_line lead own target values key =
      elim (find (env.text key) values)
        as (λ o.
          (elim o [
            | none ↦
                words
                  (lead ∷ codes "766" ∷ own ∷ target ∷ key ∷ (codes ":key not set" ++ crlf) ∷ [])
            | some v ↦ words (
                lead
                ∷ codes "761"
                ∷ own
                ∷ target
                ∷ key
                ∷ codes "*"
                ∷ (codes ":" ++ ((elim v [ none ↦ [] | some text ↦ env.text text ]) ++ crlf))
                ∷ [])
          ])
          ≡ (elim o [
            | none ↦
                lead
                ++ (codes " 766 "
                    ++ (own ++ (32 ∷ (target ++ (32 ∷ (key ++ codes " :key not set\r\n"))))))
            | some v ↦
                lead
                ++ (codes " 761 "
                    ++ (own
                        ++ (32
                            ∷ (target
                                ++ (32
                                    ∷ (key
                                        ++ (codes " * :"
                                            ++ ((elim v [ none ↦ [] | some text ↦ env.text text ])
                                                ++ codes "\r\n"))))))))
          ])) [ none ↦ refl | some v ↦ refl ]

  -- Whom the answer names: the nickname of another account, the name of a channel, or `*`.
  abbrev named : ℕ → MetadataEvent → World → Bytes
  named c ev w =
      let nickname = (w.account_at ev.dest).nick in
      if is_null ev.dest && not (is_null ev.channel)
      then codes "#" ++ (w.channel_at ev.channel).name
      else if is_null ev.dest || nat_eqb ev.account (w.connection_at c).account || is_empty nickname
      then codes "*"
      else nickname

  target_name-named :
      (c : ℕ) (ev : MetadataEvent) (w : World) → target_name env c ev w ≡ named c ev w
  unfolding target_name account_nick
  target_name-named c ev w = ground arith

  -- One line for each key with a follower; `own` is the name of the connection, and `name` names an
  -- account.
  unfoldable subscription_lines : Bytes → (ℕ → Bytes) → Map Bytes (List ℕ) → List Bytes
  subscription_lines own name [] = []
  subscription_lines own name ((key, who) ∷ rest) =
      let others = subscription_lines own name rest in
      if is_empty (map name who)
      then others
      else words (server_prefix env ∷ codes "770" ∷ own ∷ key ∷ words (map name who) ∷ crlf ∷ [])
        ∷ others

  -- One line for each key that is asked for and may be seen: in a batch for GET, LIST and SYNC, and
  -- alone for SET and CLEAR.
  unfoldable value_lines : ℕ → Bytes → MetadataEvent → World → List Bytes
  unfolding visible nick
  value_lines c target ev w =
      let cmd = env.upper (env.text ev.subcmd) in
      let ref = env.batch_ref w in
      let tagged = value_line (codes "@batch=" ++ ref) (nick c w) target ev.metadata in
      if cmd == codes "GET"
      then batch ref (map tagged (visible ev.args))
      else if cmd == codes "LIST" || cmd == codes "SYNC"
      then batch ref (map tagged (visible (keys ev.metadata)))
      else if cmd == codes "SET" || cmd == codes "CLEAR"
      then map (value_line (server_prefix env) (nick c w) target ev.metadata)
          (visible (keys ev.metadata))
      else []

  unfoldable pub answer : ℕ → MetadataEvent → World → List Bytes
  unfolding value_lines subscription_lines nick account_nick
  answer c ev w =
      let target = named c ev w in
      if not (is_empty ev.error_code)
      then words (
          server_prefix env
          ∷ (codes "FAIL METADATA " ++ ev.error_code)
          ∷ target
          ∷ ev.error_key
          ∷ (codes ":You do not have permission to modify metadata" ++ crlf)
          ∷ [])
        ∷ []
      else value_lines c target ev w
        ++ subscription_lines (nick c w) (λ a. account_nick a w) ev.subscriptions

  send_keys_lem :
      (c : ℕ) (lead target : Bytes) (ev : MetadataEvent) (ks : List Bytes) (w : World)
      → send_keys env c lead target ev ks w
        ≡ saying c (map (value_line lead (nick c w) target ev.metadata) (visible ks)) w
  unfolding send_keys visible nick
  send_keys_lem c lead target ev [] w = saying-nil c w
  send_keys_lem c lead target ev (k ∷ ks) w =
      let line = value_line lead (nick c w) target ev.metadata in
      ap (send_keys env c lead target ev ks) (
        ap (λ b. if b then w else send_data c (key_line env lead (nick c w) target ev.metadata k) w)
          (is_internal-hidden k)
        ∙ ap (λ l. if is_hidden k then w else send_data c l w)
            (key_line-value_line lead (nick c w) target ev.metadata k))
      ∙ (said_next (is_hidden k) c (line k) (map line (visible ks))
            (send_keys env c lead target ev ks) w (send_keys_lem c lead target ev ks w)
            (send_keys_lem c lead target ev ks (send_data c (line k) w))
          ∙ ap (λ l. saying c l w) (map-if line (is_hidden k) (visible ks) (k ∷ visible ks)))

  send_batch_lem :
      (c : ℕ) (target : Bytes) (ev : MetadataEvent) (ks : List Bytes) (w : World)
      → send_batch env c target ev ks w
        ≡ saying c
            (batch (env.batch_ref w) (
              map
                (value_line (codes "@batch=" ++ env.batch_ref w) (nick c w) target ev.metadata)
                (visible ks)))
            w
  unfolding send_batch nick
  send_batch_lem c target ev ks w =
      let ref = env.batch_ref w in
      let lead = codes "@batch=" ++ ref in
      let first =
        words
          (server_prefix env ∷ (codes "BATCH +" ++ (ref ++ (codes " metadata" ++ crlf))) ∷ []) in
      let last = words (server_prefix env ∷ (codes "BATCH -" ++ (ref ++ crlf)) ∷ []) in
      let lines = map (value_line lead (nick c w) target ev.metadata) (visible ks) in
      ap (send_data c last) (send_keys_lem c lead target ev ks (send_data c first w))
      ∙ (saying-saying c lines (last ∷ []) (send_data c first w)
          ∙ saying-saying c (first ∷ []) (lines ++ last ∷ []) w)

  send_subscriptions_lem :
      (c : ℕ) (subs : Map Bytes (List ℕ)) (w : World)
      → send_subscriptions env c subs w
        ≡ saying c (subscription_lines (nick c w) (λ a. account_nick a w) subs) w
  unfolding send_subscriptions subscription_lines nick account_nick
  send_subscriptions_lem c [] w = saying-nil c w
  send_subscriptions_lem c ((key, who) ∷ rest) w =
      said_next (is_empty (nicks env who w)) c
        (words
          (server_prefix env ∷ codes "770" ∷ nick c w ∷ key ∷ words (nicks env who w) ∷ crlf ∷ []))
        (subscription_lines (nick c w) (λ a. account_nick a w) rest) (send_subscriptions env c rest)
        w (send_subscriptions_lem c rest w) (send_subscriptions_lem c rest _)

  send_values_lem :
      (c : ℕ) (target : Bytes) (ev : MetadataEvent) (w : World)
      → send_values env c target ev w ≡ saying c (value_lines c target ev w) w
  unfolding send_values value_lines
  send_values_lem c target ev w =
      let cmd = env.upper (env.text ev.subcmd) in
      let all = keys ev.metadata in
      said_if (cmd == codes "GET") c w _ _ (send_batch_lem c target ev ev.args w) (
        said_if (cmd == codes "LIST" || cmd == codes "SYNC") c w _ _
          (send_batch_lem c target ev all w)
          (said_if (cmd == codes "SET" || cmd == codes "CLEAR") c w _ _
            (send_keys_lem c (server_prefix env) target ev all w) (saying-nil c w)))

  -- `metadata` sends its connection the lines that `answer` describes and does nothing else: the
  -- refusal alone if there is one; else for GET a batch with a line for each key asked for, for LIST
  -- and SYNC a batch with a line for each key of the event, for SET and CLEAR such lines without a
  -- batch, always without the keys that begin with two underscores, each with the nickname of the connection,
  -- whom it is about, the key and its value; and then a line for each
  -- subscription of the event.
  pub metadata_lem :
      (c : ℕ) (ev : MetadataEvent) (w : World) → metadata env c ev w ≡ saying c (answer c ev w) w
  unfolding metadata answer send_failure
  metadata_lem c ev w =
      let target = named c ev w in
      let values = value_lines c target ev w in
      ap
        (λ name.
          if not (is_empty ev.error_code)
          then send_failure env c name ev w
          else send_subscriptions env c ev.subscriptions (send_values env c name ev w))
        (target_name-named c ev w)
      ∙ said_if (not (is_empty ev.error_code)) c w _ _ refl (
          ap (send_subscriptions env c ev.subscriptions) (send_values_lem c target ev w)
          ∙ (send_subscriptions_lem c ev.subscriptions (saying c values w)
              ∙ saying-saying c values
                  (subscription_lines (nick c w) (λ a. account_nick a w) ev.subscriptions) w))
