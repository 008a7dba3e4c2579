-- ===== src/Ctl/Replies.antt =====
-- What `Send` of ctl/client.go returns.
use nextdns.Prelude.{
  All, Bool-cases, Bytes, List, Option, [], ap, append_assoc, arith, bytes_eq, bytes_eq_refl, false,
  find, if◌then◌else◌, inl, inr, length, length-append, ltb, none, refl, replicate, some, some_inj,
  Bool, Option-cases, ◌≤◌, >>=-eq-some, suc, sym, true, ◌++◌, ◌∙◌, ◌∷◌, ◌≡◌, ◌⊎◌,
}
use nextdns.Ctl.{
  Client, Event, Server, Turn, answer, handle, read_event, reads, receive, replied, send,
  take_reply, takes, told, wait, Sent, waiting, write_failed, closed, returned, reply_lost, closes,
  carried, response,
}

module _ (Data : Type 0) (nil : Data) (json : Data → Option Data) where
  abbrev pub only_replies : List (Event Data nil json) → List (Event Data nil json)
  only_replies [] = []
  only_replies (e ∷ es) = if e.reply then e ∷ only_replies es else only_replies es

  -- Nothing that a `Send` left behind is taken for a reply.
  pub record IsIdle (c : Client Data nil json) : Type 0 where
    pub no_replies : c.replies ≡ []
    pub none_coming : only_replies c.incoming ≡ []

  abbrev to_come : Option (Event Data nil json) → List (Event Data nil json)
  to_come none = []
  to_come (some r) = r ∷ []

  -- The replies on their way.
  abbrev outstanding :
      Option (Event Data nil json) → Client Data nil json → List (Event Data nil json)
  outstanding r c = c.replies ++ (only_replies c.incoming ++ to_come r)

  abbrev pub IsNews : Turn Data nil json → Type 0
  IsNews (told e) = e.reply ≡ false
  IsNews _ = Unit

  only_replies-append :
      (es fs : List (Event Data nil json))
      → only_replies (es ++ fs) ≡ only_replies es ++ only_replies fs
  only_replies-append [] fs = refl
  only_replies-append (e ∷ es) fs = elim (Bool-cases e.reply) [
    | inl back ↦ rw (back, only_replies-append es fs)
    | inr news ↦ rw (news, only_replies-append es fs)
  ]

  -- A read moves a reply into the channel, which has room for it.
  outstanding-read :
      (o : Option (Event Data nil json)) (z : List (Event Data nil json)) (c : Client Data nil json)
      (es : List (Event Data nil json))
      → length z ≤ 1
      → c.incoming ≡ es
      → outstanding o c ≡ z
      → outstanding o (read_event Data nil json c es) ≡ z
  outstanding-read o z c [] short at h = h
  outstanding-read o z c (e ∷ es) short at h =
      let h1 = ap (λ t. c.replies ++ (only_replies t ++ to_come o)) (sym at) ∙ h in
      elim (Bool-cases e.reply) [
        | inr news ↦ simp news (simp news at h1)
        | inl back ↦
            let h2 : c.replies ++ (e ∷ (only_replies es ++ to_come o)) ≡ z = simp back at h1 in
            let room : ltb (length c.replies) 10 ≡ true =
              ground (
                arith,
                ap length h2,
                length-append c.replies (e ∷ (only_replies es ++ to_come o)),
              ) in
            simp (back, room) (append_assoc c.replies (e ∷ []) (only_replies es ++ to_come o) ∙ h2)
      ]

  outstanding-if :
      (o : Option (Event Data nil json)) (z : List (Event Data nil json)) (c : Client Data nil json)
      → length z ≤ 1
      → outstanding o c ≡ z
      → outstanding o (if c.is_open then read_event Data nil json c c.incoming else c) ≡ z
  outstanding-if o z c short h = elim (Bool-cases c.is_open) [
    | inl on ↦ simp on (outstanding-read o z c c.incoming short refl h)
    | inr shut ↦ simp shut h
  ]

  append-eq-nil : (xs ys : List (Event Data nil json)) → xs ++ ys ≡ [] → (xs ≡ []) × (ys ≡ [])
  append-eq-nil [] ys h = (refl, h)
  append-eq-nil (x ∷ xs) ys h = absurd (cc)

  -- An empty channel: `Send` waits, or finds it closed.
  abbrev Idles : Client Data nil json → Client Data nil json × Sent Data nil json → Type 0
  Idles c x = (x ≡ (c, waiting)) ⊎ (x ≡ (c, closed))

  take_none :
      (name : Bytes) (c : Client Data nil json) (rs : List (Event Data nil json))
      → rs ≡ []
      → Idles c (take_reply Data nil json c name rs)
  take_none name c [] e = elim (Bool-cases c.is_open) [
    | inl on ↦ inl (simp on)
    | inr shut ↦ inr (simp shut)
  ]
  take_none name c (x ∷ rs) e = absurd (cc e)

  -- The reply is the one that `Send` waits for.
  take_reply-cases :
      (name : Bytes) (o : Option (Event Data nil json)) (r : Event Data nil json)
      (c : Client Data nil json) (rs : List (Event Data nil json))
      → r.name ≡ name
      → c.replies ≡ rs
      → outstanding o c ≡ r ∷ []
      → Idles c (take_reply Data nil json c name rs)
        ⊎ ((c' : Client Data nil json) × (take_reply Data nil json c name rs
              ≡ (c', returned r.data_of))
            × IsIdle c')
  take_reply-cases name o r c [] n at h = inl (take_none name c [] refl)
  take_reply-cases name o r c (re ∷ rest) n at h =
      let h1 = ap (λ t. t ++ (only_replies c.incoming ++ to_come o)) (sym at) ∙ h in
      let (e, t) : (re ≡ r) × (rest ++ (only_replies c.incoming ++ to_come o) ≡ []) = (cc, cc) in
      let (none_kept, other) = append-eq-nil rest _ t in
      let (none_coming, _) = append-eq-nil (only_replies c.incoming) _ other in
      let named : bytes_eq re.name name ≡ true =
        ap (λ x. bytes_eq x name) (ap (λ (x : Event Data nil json). x.name) e ∙ n)
        ∙ bytes_eq_refl name in
      inr (
        record c { replies = rest },
        simp named
            (ap (λ (x : Event Data nil json). (record c { replies = rest }, returned x.data_of)) e),
        record { no_replies = none_kept; none_coming = none_coming },
      )

  add_incoming :
      (es : List (Event Data nil json)) (e : Event Data nil json)
      (tail : List (Event Data nil json))
      → only_replies (es ++ e ∷ []) ++ tail ≡ only_replies es ++ (only_replies (e ∷ []) ++ tail)
  add_incoming es e tail =
      ap (λ t. t ++ tail) (only_replies-append es (e ∷ []))
      ∙ append_assoc (only_replies es) (only_replies (e ∷ [])) tail

  -- The state after the turns: still waiting, the channel closed, or the reply and an idle client.
  abbrev pub Ends :
      Option (Event Data nil json) → Client Data nil json × Sent Data nil json → Type 0
  Ends o (c, x) =
      (x ≡ waiting)
      ⊎ (x ≡ closed)
      ⊎ ((r : Event Data nil json) × (o ≡ some r) × (x ≡ returned r.data_of) × IsIdle c)

  -- With nothing on its way the call does not return a reply.
  wait_quiet :
      (name : Bytes) (turns : List (Turn Data nil json)) (o p : Option (Event Data nil json))
      (c : Client Data nil json)
      → All IsNews turns
      → outstanding o c ≡ []
      → Ends p (wait Data nil json name turns o c)
  unfolding wait
  wait_quiet name [] o p c news h = inl refl
  wait_quiet name (replied ∷ turns) none p c news h = wait_quiet name turns none p c news.1 h
  wait_quiet name (replied ∷ turns) (some x) p c news h =
      let (_, t) = append-eq-nil c.replies _ h in
      let (_, u) = append-eq-nil (only_replies c.incoming) (x ∷ []) t in absurd (cc u)
  wait_quiet name (reply_lost ∷ turns) o p c news h =
      let (none_kept, t) = append-eq-nil c.replies _ h in
      let (none_coming, _) = append-eq-nil (only_replies c.incoming) _ t in
      wait_quiet name turns none p c news.1
        (ap (λ t. t ++ (only_replies c.incoming ++ [])) none_kept ∙ ap (λ t. t ++ []) none_coming)
  wait_quiet name (reads ∷ turns) o p c news h =
      wait_quiet name turns o p _ news.1 (outstanding-if o [] c (omega arith) h)
  wait_quiet name (takes ∷ turns) o p c news h =
      let (none_kept, _) = append-eq-nil c.replies _ h in
      elim (take_none name c c.replies none_kept) [
        | inl more ↦ simp more (wait_quiet name turns o p c news.1 h)
        | inr shut ↦ simp shut (inr (inl refl))
      ]
  wait_quiet name (closes ∷ turns) o p c news h = wait_quiet name turns o p _ news.1 h
  wait_quiet name (told e ∷ turns) o p c news h =
      let no_reply : only_replies (e ∷ []) ≡ [] = simp news.0 in
      wait_quiet name turns o p _ news.1 (
        ap (λ t. c.replies ++ t)
          (add_incoming c.incoming e (to_come o)
            ∙ ap (λ t. only_replies c.incoming ++ (t ++ to_come o)) no_reply)
        ∙ h)

  -- The server had the reply, and it is lost.
  lose :
      (r : Event Data nil json) (c : Client Data nil json)
      → outstanding (some r) c ≡ r ∷ []
      → outstanding none c ≡ []
  lose r c h = by_replies c.replies (only_replies c.incoming) h
    where
      by_replies :
          (xs ys : List (Event Data nil json))
          → xs ++ (ys ++ r ∷ []) ≡ r ∷ []
          → xs ++ (ys ++ []) ≡ []
      by_replies [] [] h = refl
      by_replies [] (y ∷ ys) h =
          let t : ys ++ r ∷ [] ≡ [] = cc in
          let (_, u) = append-eq-nil ys (r ∷ []) t in absurd (cc u)
      by_replies (x ∷ xs) ys h =
          let t : xs ++ (ys ++ r ∷ []) ≡ [] = cc in
          let (_, u) = append-eq-nil xs _ t in
          let (_, v) = append-eq-nil ys (r ∷ []) u in absurd (cc v)

  wait-Ends :
      (name : Bytes) (turns : List (Turn Data nil json)) (o : Option (Event Data nil json))
      (r : Event Data nil json) (c : Client Data nil json)
      → r.name ≡ name
      → r.reply ≡ true
      → All IsNews turns
      → (o ≡ none) ⊎ (o ≡ some r)
      → outstanding o c ≡ r ∷ []
      → Ends (some r) (wait Data nil json name turns o c)
  unfolding wait
  wait-Ends name [] o r c n re news from h = inl refl
  wait-Ends name (replied ∷ turns) none r c n re news from h =
      wait-Ends name turns none r c n re news.1 from h
  wait-Ends name (replied ∷ turns) (some x) r c n re news (inl e) h = absurd (cc)
  wait-Ends name (replied ∷ turns) (some x) r c n re news (inr e) h =
      let is_reply : x.reply ≡ true = ap (λ (y : Event Data nil json). y.reply) (some_inj e) ∙ re in
      let one : only_replies (x ∷ []) ≡ x ∷ [] = simp is_reply in
      wait-Ends name turns none r _ n re news.1 (inl refl) (
        ap (λ t. c.replies ++ t)
          (add_incoming c.incoming x [] ∙ ap (λ t. only_replies c.incoming ++ (t ++ [])) one)
        ∙ h)
  wait-Ends name (reply_lost ∷ turns) none r c n re news from h =
      wait-Ends name turns none r c n re news.1 from h
  wait-Ends name (reply_lost ∷ turns) (some x) r c n re news (inl e) h = absurd (cc)
  wait-Ends name (reply_lost ∷ turns) (some x) r c n re news (inr e) h =
      wait_quiet name turns none (some r) c news.1
        (lose r c (ap (λ y. outstanding y c) (sym e) ∙ h))
  wait-Ends name (reads ∷ turns) o r c n re news from h =
      wait-Ends name turns o r _ n re news.1 from (outstanding-if o (r ∷ []) c (omega arith) h)
  wait-Ends name (takes ∷ turns) o r c n re news from h =
      elim (take_reply-cases name o r c c.replies n refl h) [
        | inl (inl more) ↦ simp more (wait-Ends name turns o r c n re news.1 from h)
        | inl (inr shut) ↦ simp shut (inr (inl refl))
        | inr (c', e, idle) ↦ simp e (inr (inr (r, refl, refl, idle)))
      ]
  wait-Ends name (closes ∷ turns) o r c n re news from h =
      wait-Ends name turns o r _ n re news.1 from h
  wait-Ends name (told e ∷ turns) o r c n re news from h =
      let no_reply : only_replies (e ∷ []) ≡ [] = simp news.0 in
      wait-Ends name turns o r _ n re news.1 from (
        ap (λ t. c.replies ++ t)
          (add_incoming c.incoming e (to_come o)
            ∙ ap (λ t. only_replies c.incoming ++ (t ++ to_come o)) no_reply)
        ∙ h)

  named_reply :
      (r : Event Data nil json) (name : Bytes) → r.name ≡ name → bytes_eq r.name name ≡ true
  named_reply r name n = ap (λ x. bytes_eq x name) n ∙ bytes_eq_refl name

  receive_news :
      (c : Client Data nil json) (e : Event Data nil json)
      → e.reply ≡ false
      → receive Data nil json c e ≡ c
  receive_news c e news = simp news

  -- Reads of all that came, and one of the channel, are enough.
  wait_fair :
      (name : Bytes) (r : Event Data nil json) (es : List (Event Data nil json))
      → r.name ≡ name
      → r.reply ≡ true
      → only_replies es ≡ []
      → (wait Data nil json name
          (replicate (suc (length es)) reads ++ takes ∷ [])
          none
          (record { incoming = es ++ r ∷ []; replies = []; is_open = true })).1
        ≡ returned r.data_of
  unfolding wait
  wait_fair name r [] n re h = simp (re, named_reply r name n)
  wait_fair name r (e ∷ es) n re h = elim (Bool-cases e.reply) [
    | inl back ↦ absurd (cc (simp back at h))
    | inr news ↦
        ap
          (λ x.
            (wait Data nil json name (replicate (suc (length es)) reads ++ takes ∷ []) none x).1)
          (receive_news (record { incoming = es ++ r ∷ []; replies = []; is_open = true }) e news)
        ∙ wait_fair name r es n re (simp news at h)
  ]

  -- The turns that let a call return: the server answers, and the client reads what came.
  abbrev pub fair_turns : Client Data nil json → List (Turn Data nil json)
  fair_turns c = replied ∷ (replicate (suc (length c.incoming)) reads ++ takes ∷ [])

  -- The event that the server answers with: JSON takes the data of the event, and what the command of
  -- its name makes of them, nil for an unknown name, and brings them back.
  abbrev pub IsResponse : Server Data nil json → Event Data nil json → Event Data nil json → Type 0
  IsResponse s e r =
      (d : Data) × (json e.data_of ≡ some d)
      × (json (answer Data nil json (find s.cmds e.name) d) ≡ some r.data_of)
      × (r.name ≡ e.name)
      × (r.reply ≡ true)

  response-IsResponse :
      (s : Server Data nil json) (e r : Event Data nil json)
      → response Data nil json s e ≡ some r
      → IsResponse s e r
  unfolding response carried handle
  response-IsResponse s e r h =
      let (e', p, h1) = >>=-eq-some (carried Data nil json e) _ h in
      let (d, q, h2) = >>=-eq-some (json e.data_of) _ p in
      let same : record e { data_of = d } ≡ e' = some_inj h2 in
      let h3 = ap (handle Data nil json s) same ∙ h1 in
      let (x, u, h4) = >>=-eq-some (json (answer Data nil json (find s.cmds e.name) d)) _ h3 in
      let back = some_inj h4 in
      (
        d,
        q,
        u ∙ ap (λ (y : Event Data nil json). some y.data_of) back,
        sym (ap (λ (y : Event Data nil json). y.name) back),
        sym (ap (λ (y : Event Data nil json). y.reply) back),
      )

  -- A client that is idle sends an event, and events that are no replies are broadcast meanwhile. A
  -- failed write is returned. Otherwise, in whatever order the goroutines take their turns, and
  -- whether the reply is lost or the connection breaks, the call waits, finds its channel closed, or
  -- returns what the command of that name makes of the data, as JSON brings it, and leaves the client
  -- idle: no reply is taken for that of another call. On an open connection it returns once the server
  -- has written its reply and the client has read what came.
  pub send-Ends :
      (s : Server Data nil json) (e : Event Data nil json) (turns : List (Turn Data nil json))
      (c : Client Data nil json)
      → IsIdle c
      → All IsNews turns
      → (send Data nil json s e false turns c ≡ (c, write_failed))
        × Ends (response Data nil json s e) (send Data nil json s e true turns c)
        × ((r : Event Data nil json)
            → response Data nil json s e ≡ some r
            → IsResponse s e r
              × (c.is_open ≡ true
                  → (send Data nil json s e true (fair_turns c) c).1 ≡ returned r.data_of))
  unfolding send wait
  send-Ends s e turns c idle news = (
    refl,
    ends (Option-cases (response Data nil json s e)),
    λ r h. let is = response-IsResponse s e r h in (is, λ on. fair r h (is.3) (is.4) on),
  )
    where
      ends :
          (response Data nil json s e ≡ none)
            ⊎ ((r : Event Data nil json) × (response Data nil json s e ≡ some r))
          → Ends
              (response Data nil json s e)
              (wait Data nil json e.name turns (response Data nil json s e) c)
      ends (inl h) =
          wait_quiet e.name turns (response Data nil json s e) (response Data nil json s e) c news (
            ap (λ o. outstanding o c) h
            ∙ ap (λ t. t ++ (only_replies c.incoming ++ [])) idle.no_replies
            ∙ ap (λ t. t ++ []) idle.none_coming)
      ends (inr (r, h)) =
          let is = response-IsResponse s e r h in
          rw h (
            wait-Ends e.name turns (some r) r c (is.3) (is.4) news (inr refl) (
              ap (λ t. t ++ (only_replies c.incoming ++ r ∷ [])) idle.no_replies
              ∙ ap (λ t. t ++ r ∷ []) idle.none_coming))

      fair :
          (r : Event Data nil json)
          → response Data nil json s e ≡ some r
          → r.name ≡ e.name
          → r.reply ≡ true
          → c.is_open ≡ true
          → (wait Data nil json e.name (fair_turns c) (response Data nil json s e) c).1
            ≡ returned r.data_of
      fair r h n re on = rw h (
          ap (λ t. (answered t c.is_open).1) idle.no_replies
          ∙ ap (λ b. (answered [] b).1) on
          ∙ wait_fair e.name r c.incoming n re idle.none_coming)
        where
          answered : List (Event Data nil json) → Bool → Client Data nil json × Sent Data nil json
          answered t b =
              wait Data nil json e.name (replicate (suc (length c.incoming)) reads ++ takes ∷ [])
                none (record { incoming = c.incoming ++ r ∷ []; replies = t; is_open = b })
