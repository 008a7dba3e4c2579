-- ===== src/Ctl.antt =====
-- ctl/server.go and ctl/client.go: the commands that run over the control socket. What JSON
-- makes of data that is written and read back is a function, undefined where it does not take the data;
-- a connection is a number, and what was written to it and not yet read is a list.
pub mod Replies
use nextdns.Prelude.{
  Bool, Bytes, List, Option, [], bytes_eq, false, find, if◌then◌else◌, length, ltb, none, put, some,
  true, ℕ, ◌++◌, ◌>>=◌, ◌==◌, ◌∷◌,
}

module _ (Data : Type 0) (nil : Data) (json : Data → Option Data) where
  pub record Event : Type 0 where
    pub name : Bytes
    pub data_of : Data
    pub reply : Bool

  -- `Server`: the commands, the clients, and whether it listens.
  pub record Server : Type 0 where
    pub cmds : List (Bytes × (Data → Data))
    pub clients : List ℕ
    pub listens : Bool

  -- `Command`
  unfoldable pub command : Server → Bytes → (Data → Data) → Server
  command s cmd h = record s { cmds = put s.cmds cmd h }

  -- `addClient` and `removeClient`
  unfoldable pub add_client : Server → ℕ → Server
  add_client s c = record s { clients = s.clients ++ c ∷ [] }

  unfoldable pub without : List ℕ → ℕ → List ℕ
  without [] c = []
  without (x ∷ clients) c = if c == x then without clients c else x ∷ without clients c

  unfoldable pub remove_client : Server → ℕ → Server
  remove_client s c = record s { clients = without s.clients c }

  -- `Stop`
  unfoldable pub stop : Server → Server
  stop s = record s { clients = []; listens = false }

  -- `Event.Bytes` at the one end, and the decoding at the other; an event that JSON does not take is
  -- not written.
  unfoldable pub carried : Event → Option Event
  carried e = do d ← json e.data_of; some (record e { data_of = d })

  -- `Broadcast`: what is written to the connection `c`, once for each time that it is a client.
  unfoldable pub written_to : List ℕ → Event → ℕ → List Event
  written_to [] e c = []
  written_to (x ∷ clients) e c =
      if x == c then e ∷ written_to clients e c else written_to clients e c

  unfoldable pub broadcast : List ℕ → Event → ℕ → List Event
  broadcast clients e c = elim (carried e) [ none ↦ [] | some e' ↦ written_to clients e' c ]

  -- `handle`: the reply to an event, if JSON takes it. Its write may fail, which is a turn below.
  abbrev pub answer : Option (Data → Data) → Data → Data
  answer none d = nil
  answer (some cmd) d = cmd d

  unfoldable pub handle : Server → Event → Option Event
  handle s e =
      carried
        (record { name = e.name; reply = true; data_of = answer (find s.cmds e.name) e.data_of })

  -- `Client`: what was sent to it, the channel of the replies, and whether that is open.
  pub record Client : Type 0 where
    pub incoming : List Event
    pub replies : List Event
    pub is_open : Bool

  abbrev pub replies_capacity : ℕ
  replies_capacity = 10

  -- One round of `readLoop`: an event that is no reply, or that finds the channel full, is dropped.
  abbrev pub receive : Client → Event → Client
  receive c e =
      if e.reply
      then (if ltb (length c.replies) replies_capacity
          then record c { replies = c.replies ++ e ∷ [] }
          else c)
      else c

  abbrev pub read_event : Client → List Event → Client
  read_event c [] = c
  read_event c (e ∷ rest) = receive (record c { incoming = rest }) e

  -- What `Send` returns, or that it still waits.
  pub data Sent : Type 0 where
    waiting write_failed closed : Sent
    returned : Data → Sent

  -- One read of the channel by `Send`: it waits on, the channel is closed, or a reply with the name is
  -- the result.
  abbrev pub take_reply : Client → Bytes → List Event → Client × Sent
  take_reply c name [] = (c, if c.is_open then waiting else closed)
  take_reply c name (re ∷ rest) =
      (record c { replies = rest }, if bytes_eq re.name name then returned re.data_of else waiting)

  -- While `Send` waits, the two goroutines take turns in any order: the server writes its reply, or
  -- fails to; events are broadcast to the client; the client reads, takes a reply, or finds the
  -- connection broken, so that `readLoop` ends and closes the channel.
  pub data Turn : Type 0 where
    replied reply_lost reads takes closes : Turn
    told : Event → Turn

  -- `Send` behind its write, with the turns that are taken until it returns. It still waits where
  -- they run out.
  abbrev pub go_on : Client × Sent → (Client → Client × Sent) → Client × Sent
  go_on (c, waiting) rest = rest c
  go_on (c, write_failed) rest = (c, write_failed)
  go_on (c, closed) rest = (c, closed)
  go_on (c, returned d) rest = (c, returned d)

  abbrev pub write_reply : Option Event → Client → Client
  write_reply none c = c
  write_reply (some r) c = record c { incoming = c.incoming ++ r ∷ [] }

  unfoldable pub wait : Bytes → List Turn → Option Event → Client → Client × Sent
  wait name [] r c = (c, waiting)
  wait name (replied ∷ turns) r c = wait name turns none (write_reply r c)
  wait name (reply_lost ∷ turns) r c = wait name turns none c
  wait name (reads ∷ turns) r c =
      wait name turns r (if c.is_open then read_event c c.incoming else c)
  wait name (takes ∷ turns) r c = go_on (take_reply c name c.replies) (wait name turns r)
  wait name (closes ∷ turns) r c = wait name turns r (record c { is_open = false })
  wait name (told e ∷ turns) r c = wait name turns r (record c { incoming = c.incoming ++ e ∷ [] })

  -- What the server makes of an event that is written to it.
  unfoldable pub response : Server → Event → Option Event
  response s e = do e' ← carried e; handle s e'

  -- `Send`, with whether its write goes through
  unfoldable pub send : Server → Event → Bool → List Turn → Client → Client × Sent
  send s e writes turns c = if writes then wait e.name turns (response s e) c else (c, write_failed)
