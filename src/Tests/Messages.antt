-- ===== src/Tests/Messages.antt =====
-- The messages of the tests: a response with one A record of 300 seconds, and an empty query.
use nextdns.Prelude.{Bytes, [], codes, none, replicate, true, ◌++◌, ◌∷◌}
use nextdns.Net.{Ip}
use nextdns.Query.{Query}

abbrev pub a_response : Bytes
a_response =
    0 ∷ 7 ∷ 129 ∷ 128 ∷ 0 ∷ 0 ∷ 0 ∷ 1 ∷ 0 ∷ 0 ∷ 0 ∷ 0 ∷ 0 ∷ 0 ∷ 1 ∷ 0 ∷ 1 ∷ 0 ∷ 0 ∷ 1 ∷ 44 ∷ 0 ∷ 4
    ∷ 192 ∷ 0 ∷ 2 ∷ 1 ∷ []

-- The response ten seconds later.
abbrev pub aged_response : Bytes
aged_response =
    0 ∷ 7 ∷ 129 ∷ 128 ∷ 0 ∷ 0 ∷ 0 ∷ 1 ∷ 0 ∷ 0 ∷ 0 ∷ 0 ∷ 0 ∷ 0 ∷ 1 ∷ 0 ∷ 1 ∷ 0 ∷ 0 ∷ 1 ∷ 34 ∷ 0 ∷ 4
    ∷ 192 ∷ 0 ∷ 2 ∷ 1 ∷ []

abbrev pub buffer : Bytes
buffer = replicate 40 0

-- 10.155.16.8 in the form of `net.ParseIP`
abbrev pub private_ip : Ip
private_ip = replicate 10 0 ++ 255 ∷ 255 ∷ 10 ∷ 155 ∷ 16 ∷ 8 ∷ []

abbrev pub private_name : Bytes
private_name = codes "8.16.155.10.in-addr.arpa."

abbrev pub a_query : Query
a_query = record {
  id = 7;
  qclass = 1;
  qtype = 1;
  recursion_desired = true;
  msg_size = 512;
  name = codes "example.com.";
  local_ip = [];
  peer_ip = [];
  mac = none;
  payload = [];
}

abbrev pub ptr_query : Query
ptr_query = record a_query { qtype = 12; name = private_name }
