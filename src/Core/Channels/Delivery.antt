-- ===== src/Core/Channels/Delivery.antt =====
-- Whom a message to a channel reaches, and with which line.
use chatripper.Common.{
  arith, Bool, true, false, Bool-cases, inl, inr, not, codes, is_empty, join, if◌then◌else◌, ◌&&◌,
  nat_eqb, ℕ, ◌≡◌, refl, ap, ◌∙◌, sym, Option, none, some, List, [], ◌∷◌, ◌++◌, append_assoc,
  append-nil, Bytes,
}
use chatripper.Bitflags
use chatripper.Caps.{echo_message, znc_self_message, capability_flags}
use chatripper.State.{World, Message, to_channel, to_account, is_null, for_each, send_data}
use chatripper.Tags.{build_message_tags}
use chatripper.Irc.Reply.{nick, prefix, account_prefix, account_nick}
use chatripper.Env.{Env}
use chatripper.Core.Channels
use chatripper.Core.Channels.{consult_message, message_members}
use chatripper.Core.Channels.Members.{all_connections}
use chatripper.Irc.Messages
use chatripper.Irc.Messages.{message_prefix, message_line, target_text, account_name}

-- The client's own message, on a connection that asked for no echo: neither of all its messages nor
-- of those that another connection of the account sent.
abbrev is_silent : ℕ → Message → World → Bool
is_silent c m w =
    let conn = w.connection_at c in
    nat_eqb m.account conn.account
    && not (Bitflags.has echo_message conn.capabilities)
    && not (Bitflags.has znc_self_message conn.capabilities && not (nat_eqb conn.uid m.conn_id))

-- `nick!user@host`
abbrev full_name : Bytes → Bytes → Bytes → Bytes
full_name nick user host =
    nick ++ (codes "!" ++ ((if is_empty user then codes "user" else user) ++ (codes "@" ++ host)))

-- Who a message is from: the reader itself, as its connection has it, or another account.
abbrev sender : ℕ → Message → World → Bytes
sender c m w =
    let conn = w.connection_at c in
    let acc = w.account_at m.account in
    if nat_eqb m.account conn.account
    then full_name (nick c w) conn.user conn.host
    else full_name acc.nick acc.name acc.host

-- Where a message goes.
abbrev place : Message → World → Bytes
place m w = elim m.target [
  | to_channel ch ↦ codes "#" ++ (w.channel_at ch).name
  | to_account dest ↦
      (let nickname = (w.account_at dest).nick in if is_empty nickname then codes "*" else nickname)
]

-- `@tags :nick!user@host PRIVMSG target :text`, and without a text for a TAGMSG.
abbrev line_of : ℕ → Message → World → Bytes
line_of c m w =
    let tags =
      build_message_tags (w.connection_at c).capabilities
        (if is_null m.account then none else some (w.account_at m.account).name) m.tags in
    let from = tags ++ (codes ":" ++ sender c m w) in
    (if m.tag_msg
      then from ++ (codes " " ++ (codes "TAGMSG" ++ (codes " " ++ place m w)))
      else from
        ++ (codes " "
            ++ (codes "PRIVMSG"
                ++ (codes " " ++ (place m w ++ (codes " " ++ (codes ":" ++ m.text)))))))
    ++ codes "\r\n"

-- What one connection is sent: nothing if the message is its own and it asked for no echo, and else
-- one line.
unfoldable delivery : ℕ → Message → World → List (ℕ × Bytes)
delivery c m w = if is_silent c m w then [] else (c, line_of c m w) ∷ []

message_prefix-sender :
    (c : ℕ) (m : Message) (w : World)
    → message_prefix c m w ≡ (if is_silent c m w then none else some (sender c m w))
unfolding message_prefix prefix account_prefix
message_prefix-sender c m w = ground arith

message_line-line_of :
    (c : ℕ) (m : Message) (w : World) → message_line (sender c m w) c m w ≡ line_of c m w
unfolding message_line target_text account_nick join
message_line-line_of c m w = elim (Bool-cases m.tag_msg) [
  | inl tag ↦ rw tag refl
  | inr text ↦ rw text refl
]

unfoldable pub deliveries : List ℕ → Message → World → List (ℕ × Bytes)
unfolding delivery
deliveries [] m w = []
deliveries (c ∷ rest) m w = delivery c m w ++ deliveries rest m w

abbrev sending : List (ℕ × Bytes) → World → World
sending lines w = record w { sent = w.sent ++ lines }

sending-sending :
    (xs ys : List (ℕ × Bytes)) (w : World) → sending ys (sending xs w) ≡ sending (xs ++ ys) w
sending-sending xs ys w = ap (λ l. record w { sent = l }) (append_assoc w.sent xs ys)

sending-nil : (w : World) → sending [] w ≡ w
sending-nil w = ap (λ l. record w { sent = l }) (append-nil w.sent)

message-delivery :
    (c : ℕ) (m : Message) (w : World) → Messages.message c m w ≡ sending (delivery c m w) w
unfolding Messages.message delivery
message-delivery c m w =
    ap
      (λ o. elim o as (λ _. World) [
        | none ↦ w
        | some from ↦ send_data c (message_line from c m w) w
      ])
      (message_prefix-sender c m w)
    ∙ told (is_silent c m w) (sender c m w) (line_of c m w) (message_line-line_of c m w)
  where
    told :
        (b : Bool) (from line : Bytes)
        → message_line from c m w ≡ line
        → (elim (if b then none else some from) as (λ _. World) [
          | none ↦ w
          | some f ↦ send_data c (message_line f c m w) w
        ])
          ≡ sending (if b then [] else (c, line) ∷ []) w
    told true from line h = sym (sending-nil w)
    told false from line h = ap (λ l. send_data c l w) h

-- What a line says depends on the objects, not on what was sent before.
delivery-sending :
    (lines : List (ℕ × Bytes)) (c : ℕ) (m : Message) (w : World)
    → delivery c m (sending lines w) ≡ delivery c m w
unfolding delivery nick
delivery-sending lines c m w = refl

deliveries-sending :
    (lines : List (ℕ × Bytes)) (cs : List ℕ) (m : Message) (w : World)
    → deliveries cs m (sending lines w) ≡ deliveries cs m w
unfolding deliveries nick
deliveries-sending lines [] m w = refl
deliveries-sending lines (c ∷ rest) m w =
    ap (λ l. delivery c m w ++ l) (deliveries-sending lines rest m w)

deliveries-append :
    (xs ys : List ℕ) (m : Message) (w : World)
    → deliveries (xs ++ ys) m w ≡ deliveries xs m w ++ deliveries ys m w
unfolding deliveries
deliveries-append [] ys m w = refl
deliveries-append (x ∷ xs) ys m w =
    ap (λ l. delivery x m w ++ l) (deliveries-append xs ys m w)
    ∙ sym (append_assoc (delivery x m w) (deliveries xs m w) (deliveries ys m w))

delivery-stored :
    (kept : List Message) (c : ℕ) (m : Message) (w : World)
    → delivery c m (record w { stored = kept }) ≡ delivery c m w
unfolding delivery nick
delivery-stored kept c m w = refl

deliveries-stored :
    (kept : List Message) (cs : List ℕ) (m : Message) (w : World)
    → deliveries cs m (record w { stored = kept }) ≡ deliveries cs m w
unfolding deliveries nick
deliveries-stored kept [] m w = refl
deliveries-stored kept (c ∷ rest) m w =
    ap (λ l. delivery c m w ++ l) (deliveries-stored kept rest m w)

deliver_each :
    (cs : List ℕ) (m : Message) (w : World)
    → for_each cs (λ c u. Messages.message c m u) w ≡ sending (deliveries cs m w) w
unfolding for_each deliveries
deliver_each [] m w = sym (sending-nil w)
deliver_each (c ∷ rest) m w =
    ap (for_each rest (λ c u. Messages.message c m u)) (message-delivery c m w)
    ∙ (deliver_each rest m (sending (delivery c m w) w)
        ∙ (sending-sending (delivery c m w) (deliveries rest m (sending (delivery c m w) w)) w
            ∙ ap (λ l. sending (delivery c m w ++ l) w)
                (deliveries-sending (delivery c m w) rest m w)))

deliver_members :
    (members : List ℕ) (m : Message) (w : World)
    → for_each members
        (λ a v. for_each (v.account_at a).connections (λ c u. Messages.message c m u) v)
        w
      ≡ sending (deliveries (all_connections w.account_at members) m w) w
unfolding for_each deliveries all_connections
deliver_members [] m w = sym (sending-nil w)
deliver_members (a ∷ rest) m w =
    let own = (w.account_at a).connections in
    let others = all_connections w.account_at rest in
    let tail : World → World =
      for_each rest
        (λ b v. for_each (v.account_at b).connections (λ c u. Messages.message c m u) v) in
    ap tail (deliver_each own m w)
    ∙ (deliver_members rest m (sending (deliveries own m w) w)
        ∙ (sending-sending (deliveries own m w)
              (deliveries others m (sending (deliveries own m w) w)) w
            ∙ ap (λ l. sending l w)
                (ap (λ l. deliveries own m w ++ l)
                    (deliveries-sending (deliveries own m w) others m w)
                  ∙ sym (deliveries-append own others m w))))

-- The message is stored, and each connection of each member gets its line, in the order of the
-- members.
abbrev pub message_result : ℕ → Option Message → World → World
message_result ch none w = w
message_result ch (some kept) w = record w {
  stored = w.stored ++ kept ∷ [];
  sent = w.sent ++ deliveries (all_connections w.account_at (w.channel_at ch).members) kept w;
}

-- A message to a channel that the modules let pass (`kept` is what they made of it) is stored once,
-- and every connection of every member is sent one line, in order, with the sender, the target and
-- the text, but for the connections of the sender: they are sent it only with `echo-message`, or
-- with `znc.in/self-message` if another connection sent it. Nothing else changes. A message that the
-- modules stop changes nothing at all.
pub message_lem :
    (env : Env) (ch : ℕ) (m : Message) (w : World)
    → Channels.message env ch m w ≡ message_result ch (consult_message env m) w
unfolding Channels.message message_members deliveries
message_lem env ch m w =
    elim (consult_message env m)
      as (λ o.
        (elim o [ none ↦ w | some kept ↦ message_members ch kept w ]) ≡ message_result ch o w) [
          | none ↦ refl
          | some kept ↦
              deliver_members (w.channel_at ch).members kept
                (record w { stored = w.stored ++ kept ∷ [] })
              ∙ ap (λ l. record w { stored = w.stored ++ kept ∷ []; sent = w.sent ++ l })
                  (deliveries-stored (w.stored ++ kept ∷ [])
                    (all_connections w.account_at (w.channel_at ch).members) kept w)
        ]
