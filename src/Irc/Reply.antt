-- ===== src/Irc/Reply.antt =====
-- irc/client_connection.cpp, the lines that a connection writes: `nick`, `prefix`, `send_raw`,
-- `reply_num`, `reply_self`; and `nick`, `prefix` and `host` of core/account.
use chatripper.Common.{
  ℕ, zero, suc, ◌+◌, ◌-◌, ◌/◌, ◌%◌, true, [], ◌∷◌, ◌++◌, Bytes, codes, is_empty, length, ltb,
  if◌then◌else◌,
}
use chatripper.State.{World, is_null, send_data, set_connection}
use chatripper.Env.{Env}

-- `QByteArray::number(n)`: an `int` has at most ten digits.
unfoldable pub digits : ℕ → ℕ → Bytes → Bytes
digits zero n acc = acc
digits (suc fuel) n acc =
    let rest = digits fuel (n / 10) ((48 + n % 10) ∷ acc) in
    if ltb n 10 then (48 + n) ∷ acc else rest

unfoldable pub number : ℕ → Bytes
unfolding digits
number n = digits 10 n []

-- `rightJustified(width, c)`
unfoldable pad : ℕ → ℕ → Bytes → Bytes
pad zero c s = s
pad (suc n) c s = c ∷ pad n c s

unfoldable right_justified : ℕ → ℕ → Bytes → Bytes
unfolding pad
right_justified width c s = pad (width - length s) c s

abbrev pub crlf : Bytes
crlf = 13 ∷ 10 ∷ []

unfoldable pub account_nick : ℕ → World → Bytes
account_nick a w = let acc = w.account_at a in if is_empty acc.nick then codes "*" else acc.nick

-- `prefix(nick_override)`; the override is empty if the caller gives none.
unfoldable pub account_prefix : Bytes → ℕ → World → Bytes
account_prefix override a w =
    let acc = w.account_at a in
    (if is_empty override then acc.nick else override)
    ++ (codes "!"
        ++ ((if is_empty acc.name then codes "user" else acc.name) ++ (codes "@" ++ acc.host)))

unfoldable pub nick : ℕ → World → Bytes
unfolding account_nick
nick c w =
    let conn = w.connection_at c in
    if is_null conn.account
    then (if is_empty conn.nick then codes "*" else conn.nick)
    else account_nick conn.account w

unfoldable pub prefix : ℕ → World → Bytes
unfolding nick
prefix c w =
    let conn = w.connection_at c in
    nick c w
    ++ (codes "!"
        ++ ((if is_empty conn.user then codes "user" else conn.user) ++ (codes "@" ++ conn.host)))

unfoldable pub reply_self : ℕ → Bytes → Bytes → World → World
unfolding prefix
reply_self c command args w =
    let line = codes ":" ++ (prefix c w ++ (codes " " ++ command)) in
    send_data c ((if is_empty args then line else line ++ (codes " " ++ args)) ++ crlf) w

-- `disconnectFromHost()` or `close()`
unfoldable pub force_disconnect : ℕ → World → World
force_disconnect c w = set_connection c (record (w.connection_at c) { closing = true }) w

module _ (env : Env) where
  unfoldable pub send_raw : ℕ → Bytes → World → World
  send_raw c line w =
      send_data c (codes ":" ++ (env.server_name ++ (codes " " ++ (line ++ crlf)))) w

  unfoldable pub reply_num : ℕ → ℕ → Bytes → World → World
  unfolding send_raw nick number right_justified
  reply_num c code text w =
      let target = nick c w in
      send_raw c
        (right_justified 3 b'0' (number code)
          ++ (codes " "
              ++ ((if is_empty target then codes "*" else target) ++ (codes " :" ++ text))))
        w
