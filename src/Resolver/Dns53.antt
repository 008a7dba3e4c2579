-- ===== src/Resolver/Dns53.antt =====
-- resolver/dns53.go: one query over UDP, with the response cache in front of it.
pub mod Answers
use nextdns.Prelude.{
  Bool, Bytes, Option, [], codes, false, if◌then◌else◌, leb, length, ltb, none, not, some, suc,
  take, true, zero, ℕ, ◌+◌, ◌==◌, ◌>>=◌,
}
use nextdns.Resolver.Wire.{unpack_uint16}
use nextdns.Resolver.Cache.{Adjusted, adjusted_response, copy_into, type_ptr}
use nextdns.Query.{Query}
use nextdns.Resolver.Cacher.{Cacher, Limits, ResolveInfo, cap_response, key_of}

pub data Error : Type 0 where
  dial write read no_valid_response id_mismatch : Error

-- What `c.Read(buf)` brings: a datagram, cut to the buffer, and whether it failed.
pub record Datagram : Type 0 where
  pub bytes : Bytes
  pub failed : Bool

-- The network as one call of `resolve` meets it.
pub record Network : Type 0 where
  pub dials : Bool
  pub writes : Bool
  pub reads : ℕ → Datagram

pub record Reply : Type 0 where
  pub buf : Bytes
  pub n : ℕ
  pub error : Option Error

abbrev pub max_retries : ℕ
max_retries = 5

-- `buf` after `c.Read(buf)`
abbrev pub received : Bytes → Datagram → Bytes
received buf d = copy_into buf (take (length buf) d.bytes)

-- The loop over the datagrams; `k` counts the reads. The fuel bounds the rounds: a round that does
-- not leave the loop has added to `retries`, so `max_retries` rounds are enough.
unfoldable pub read_loop : ℕ → (ℕ → Datagram) → ℕ → ℕ → Bytes → ℕ → Option Reply
read_loop zero reads id k buf retries = none
read_loop (suc fuel) reads id k buf retries =
    let d = reads k in
    let n : ℕ = length (take (length buf) d.bytes) in
    let buf' : Bytes = received buf d in
    let again : Error → Option Reply = λ e.
      let rest = read_loop fuel reads id (k + 1) buf' (retries + 1) in
      if leb max_retries (retries + 1)
      then some (record { buf = buf'; n = n; error = some e })
      else rest in
    if d.failed
    then some (record { buf = buf'; n = n; error = some read })
    else if ltb n 2
    then again no_valid_response
    else do
      got ← unpack_uint16 buf' 0
      if id == got then some (record { buf = buf'; n = n; error = none }) else again id_mismatch

module _ (c : Cacher) where
  open c use {Store, get, add}

  pub record Outcome : Type 0 where
    pub buf : Bytes
    pub n : ℕ
    pub info : ResolveInfo
    pub error : Option Error
    pub cache : Option Store

  -- The look into the cache: what `AdjustedResponse` did, if an entry was found.
  unfoldable pub look_up : Limits → Option Store → Query → ℕ → Bytes → Option (Option Adjusted)
  look_up l none q now buf = some none
  look_up l (some s) q now buf =
      if q.qtype == type_ptr then some none else elim (get s (key_of [] q)) [
        | none ↦ some none
        | some v ↦ do r ← adjusted_response v buf q.id l.max_age l.max_ttl now; some (some r)
      ]

  -- `time: now`, where `now` stays the zero time if the cache was not looked at
  abbrev pub stamp : Query → ℕ → ℕ
  stamp q now = if q.qtype == type_ptr then 0 else now

  unfoldable pub remember : Option Store → Query → ℕ → Bytes → Option Store
  remember none q now msg = none
  remember (some s) q now msg =
      some (add s (key_of [] q) (record { time = stamp q now; msg = msg; trans = [] }))

  -- Behind the loop: an error is returned, and an answer is stored and capped.
  abbrev pub settle :
      Limits → Option Store → Query → ℕ → ResolveInfo → Reply → Option Error → Option Outcome
  settle l s q now info r (some e) =
      some (record { buf = r.buf; n = r.n; info = info; error = some e; cache = s })
  settle l s q now info r none = do
    buf ← cap_response l.max_ttl r.buf r.n
    some (record {
      buf = buf;
      n = r.n;
      info = record info { from_cache = false };
      error = none;
      cache = remember s q now (take r.n r.buf);
    })

  -- From the dial on. `buf`, `n` and `info` are what the cache has left.
  unfoldable pub ask :
      Limits → Option Store → Query → ℕ → Network → Bytes → ℕ → ResolveInfo → Option Outcome
  ask l s q now net buf n info =
      if not net.dials
      then some (record { buf = buf; n = n; info = info; error = some dial; cache = s })
      else if not net.writes
      then some (record { buf = buf; n = n; info = info; error = some write; cache = s })
      else do r ← read_loop max_retries net.reads q.id 0 buf 0; settle l s q now info r r.error

  abbrev pub udp : ResolveInfo
  udp = record { transport = codes "UDP"; profile = []; from_cache = false }

  -- A fresh entry is the answer; a stale one stays in the buffer while the server is asked.
  abbrev pub after_look_up :
      Limits → Option Store → Query → ℕ → Network → Bytes → Option Adjusted → Option Outcome
  after_look_up l s q now net buf none = ask l s q now net buf 0 udp
  after_look_up l s q now net buf (some r) =
      let info : ResolveInfo = record udp { from_cache = true } in
      if ltb 0 r.min_ttl
      then some (record { buf = r.buf; n = r.n; info = info; error = none; cache = s })
      else ask l s q now net r.buf r.n info

  unfoldable pub resolve : Limits → Option Store → Query → ℕ → Network → Bytes → Option Outcome
  resolve l s q now net buf = do hit ← look_up l s q now buf; after_look_up l s q now net buf hit
