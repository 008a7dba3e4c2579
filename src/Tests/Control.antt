-- ===== src/Tests/Control.antt =====
-- A command over the control socket, with a number for its data.
use nextdns.Prelude.{List, [], codes, false, find, refl, some, true, ℕ, ◌+◌, ◌∷◌, ◌≡◌}
use nextdns.Ctl.{
  Client, Event, Server, Turn, add_client, broadcast, reads, remove_client, replied, response,
  returned, send, takes, told, write_failed,
}
use nextdns.Ctl.Replies.{Ends, IsResponse, fair_turns, send-Ends}

abbrev server : Server ℕ 0 some
server = record { cmds = (codes "cache-stats", λ d. d + 2) ∷ []; clients = 7 ∷ []; listens = true }

abbrev ask : Event ℕ 0 some
ask = record { name = codes "cache-stats"; data_of = 40; reply = false }

abbrev news : Event ℕ 0 some
news = record { name = codes "cache-stats"; data_of = 1; reply = false }

abbrev client : Client ℕ 0 some
client = record { incoming = news ∷ []; replies = []; is_open = true }

abbrev turns : List (Turn ℕ 0 some)
turns = reads ∷ takes ∷ replied ∷ told news ∷ reads ∷ takes ∷ []

send-Ends_example :
    (send ℕ 0 some server ask false turns client ≡ (client, write_failed))
    × Ends ℕ 0 some (response ℕ 0 some server ask) (send ℕ 0 some server ask true turns client)
    × ((r : Event ℕ 0 some)
        → response ℕ 0 some server ask ≡ some r
        → IsResponse ℕ 0 some server ask r
          × (true ≡ true
              → (send ℕ 0 some server ask true (fair_turns ℕ 0 some client) client).1
                ≡ returned r.data_of))
send-Ends_example =
    send-Ends ℕ 0 some server ask turns client (record { no_replies = refl; none_coming = refl })
      (tt, (tt, (tt, (refl, (tt, (tt, tt))))))

-- The command adds two.
abbrev reply : Event ℕ 0 some
reply = record { name = codes "cache-stats"; data_of = 42; reply = true }

responds : response ℕ 0 some server ask ≡ some reply
unfolding response nextdns.Ctl.handle nextdns.Ctl.carried find nextdns.Prelude.bytes_eq
responds = refl

-- Whoever has disconnected is told nothing.
tells :
    broadcast ℕ 0 some (remove_client ℕ 0 some (add_client ℕ 0 some server 8) 7).clients news 7 ≡ []
unfolding broadcast remove_client nextdns.Ctl.without add_client nextdns.Ctl.carried
    nextdns.Ctl.written_to
tells = refl
