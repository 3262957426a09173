-- ===== src/Irc/Info.antt =====
-- irc/client_connection.cpp, the handlers that only answer: LUSERS, MOTD, WHO, PING, CHATHISTORY.
pub mod Chunks
use chatripper.Common.{
  ℕ, zero, suc, ◌+◌, Bool, true, false, Option, none, some, List, [], ◌∷◌, ◌++◌, Bytes, codes,
  is_empty, length, drop, take, split, join, trimmed, starts_with, leb, ltb, if◌then◌else◌,
  bytes_key, ◌==◌,
}
use chatripper.State.{Account, Channel, World, is_null, send_data, for_each}
use chatripper.Env.{Env}
use chatripper.Core.Caches.{get_channel}
use chatripper.Irc.Reply.{account_nick, nick, send_raw, reply_num, number, crlf}

abbrev max_content_len : ℕ
max_content_len = 400

-- `while (pos < line.size())`, with fuel; `none` means that the fuel ran out. `rest` is the line
-- from `pos` on.
unfoldable pub chunks : ℕ → Bytes → Option (List Bytes)
chunks zero rest = none
chunks (suc fuel) [] = some []
chunks (suc fuel) (b ∷ rest) = elim (chunks fuel (drop max_content_len (b ∷ rest))) [
  | none ↦ none
  | some more ↦ some (take max_content_len (b ∷ rest) ∷ more)
]

-- The chunks of all lines of the text.
unfoldable pub motd_chunks : List Bytes → List Bytes
unfolding chunks
motd_chunks [] = []
motd_chunks (raw ∷ rest) =
    let line = trimmed raw in
    elim (chunks (length line + 1) line) [
      | none ↦ motd_chunks rest
      | some cs ↦ cs ++ motd_chunks rest
    ]

abbrev pub remove_hash : Bytes → Bytes
remove_hash s = if starts_with b'#' s then drop 1 s else s

module _ (env : Env) where
  unfoldable pub handle_lusers : ℕ → World → World
  unfolding nick send_raw number
  handle_lusers c w =
      let users = number (length w.accounts) in
      let peers = number env.concurrent_peers in
      send_raw env c
        (join (codes " ") (
          codes "252"
          ∷ nick c w
          ∷ codes "I have"
          ∷ users
          ∷ codes "users,"
          ∷ peers
          ∷ codes "connected peers"
          ∷ []))
        (send_raw env c
          (join (codes " ") (
            codes "251"
            ∷ nick c w
            ∷ codes "There are"
            ∷ users
            ∷ codes "users,"
            ∷ peers
            ∷ codes "connected peers,"
            ∷ (codes "and 0 services on 1 server(s)" ++ crlf)
            ∷ []))
          w)

  unfoldable pub handle_motd : ℕ → World → World
  unfolding nick send_raw motd_chunks for_each
  handle_motd c w =
      let own = nick c w in
      let text = if is_empty env.motd then codes "Welcome!" else env.motd in
      let opened =
        send_raw env c
          (codes "375 "
            ++ (own ++ (codes " :- " ++ (env.server_name ++ codes " Message of the day -"))))
          w in
      send_raw env c (codes "376 " ++ (own ++ codes " :End of MOTD command.")) (
        for_each (motd_chunks (split 10 text))
          (λ chunk v. send_raw env c (codes "372 " ++ (own ++ (codes " :" ++ chunk))) v) opened)

  -- The line about one member.
  unfoldable who_line : ℕ → Bytes → ℕ → World → Bytes
  unfolding account_nick nick
  who_line c target a w =
      let acc = w.account_at a in
      let status = if is_empty acc.connections then codes "G" else codes "H" in
      join (codes " ") (
        codes "354"
        ∷ nick c w
        ∷ target
        ∷ codes "~u"
        ∷ (if is_empty acc.host then env.default_host else acc.host)
        ∷ account_nick a w
        ∷ (if acc.name == codes "admin" then status ++ codes "@" else status)
        ∷ codes "0"
        ∷ codes "*"
        ∷ account_nick a w
        ∷ [])

  unfoldable pub handle_who : ℕ → List Bytes → World → World
  unfolding get_channel reply_num send_raw nick who_line for_each
  handle_who c [] w = reply_num env c 461 (codes "WHO :Not enough parameters") w
  handle_who c (target ∷ _) w =
      let ch = get_channel (remove_hash target) w in
      if is_null ch
      then send_raw env c
          (codes "401 " ++ (nick c w ++ (codes " " ++ (target ++ codes " :No such nick/channel"))))
          w
      else send_raw env c
          (join (codes " ") (codes "315" ∷ nick c w ∷ target ∷ codes ":End of WHO list" ∷ []))
          (for_each (w.channel_at ch).members (λ a v. send_raw env c (who_line c target a v) v) w)

  abbrev last_of : Bytes → List Bytes → Bytes
  last_of a [] = a
  last_of a (b ∷ rest) = last_of b rest

  unfoldable pub handle_ping : ℕ → List Bytes → World → World
  unfolding reply_num
  handle_ping c [] w = reply_num env c 409 (codes "No origin specified") w
  handle_ping c (arg ∷ rest) w =
      send_data c (codes "PONG " ++ (env.server_name ++ (codes " :" ++ (last_of arg rest ++ crlf))))
        w

  unfoldable pub handle_chathistory : ℕ → List Bytes → World → World
  unfolding get_channel send_raw
  handle_chathistory c (_ ∷ target ∷ _ ∷ _ ∷ _) w =
      let ch = get_channel (drop 1 target) w in
      if is_null ch
      then w
      else send_raw env c (codes "BATCH -123")
          (send_raw env c (codes "BATCH +123 chathistory #" ++ (w.channel_at ch).name) w)
  handle_chathistory c _ w = w
