-- ===== src/Proxy/Serve/Frames.antt =====
-- The frames of proxy/tcp.go.
use mathlib.Core.Path.{ap}
use nextdns.Prelude.{
  All, Bytes, List, [], ap, arith, drop, false, leb, length, length-append, refl, suc, take, true,
  zero, ℕ, ◌%◌, ◌*◌, ◌++◌, ◌+◌, ◌/◌, ◌<◌, ◌∷◌, ◌≡◌, ◌≤◌,
}
use nextdns.Proxy.Serve.{message, read_tcp, serve_stream, write_tcp}

take_left {ℓ} : {A : Type ℓ} (xs ys : List A) → take (length xs) (xs ++ ys) ≡ xs
take_left [] ys = refl
take_left (x ∷ xs) ys = ap (◌∷◌ x) (take_left xs ys)

drop_left {ℓ} : {A : Type ℓ} (xs ys : List A) → drop (length xs) (xs ++ ys) ≡ ys
drop_left [] ys = refl
drop_left (x ∷ xs) ys = drop_left xs ys

-- A message of at most 65535 bytes that is written is read, and the stream behind it is left.
pub read_tcp-write_tcp :
    (msg stream : Bytes)
    → length msg ≤ 65535
    → read_tcp (write_tcp msg ++ stream) ≡ message msg stream
unfolding read_tcp write_tcp
read_tcp-write_tcp msg stream h =
    let n : length msg % 65536 / 256 * 256 + length msg % 256 ≡ length msg = omega arith in
    let le : leb (length msg) (length (msg ++ stream)) ≡ true =
      ground (arith, length-append msg stream) in
    rw (n, le, take_left msg stream, drop_left msg stream)

-- A size that a query can have on the stream.
abbrev pub IsFramed : Bytes → Type 0
IsFramed q = (15 ≤ length q) × (length q ≤ 65535)

abbrev pub write_all : List Bytes → Bytes
write_all [] = []
write_all (q ∷ qs) = write_tcp q ++ write_all qs

-- Queries that a client pipelines are all dispatched in order, and the end of its stream is no
-- error, where each has more than 14 bytes and fits in the length field.
pub serve_stream-write_all :
    (qs : List Bytes) (fuel : ℕ)
    → All IsFramed qs
    → length qs < fuel
    → serve_stream fuel (write_all qs) ≡ (qs, false)
unfolding serve_stream read_tcp
serve_stream-write_all qs zero h lt = absurd (omega arith)
serve_stream-write_all [] (suc fuel) h lt = refl
serve_stream-write_all (q ∷ qs) (suc fuel) ((big, small), h) lt =
    let rest = serve_stream-write_all qs fuel h (omega arith) in
    let no : leb (length q) 14 ≡ false = ground arith in
    rw (read_tcp-write_tcp q (write_all qs) small, no, rest)
