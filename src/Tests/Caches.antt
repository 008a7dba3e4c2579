-- ===== src/Tests/Caches.antt =====
-- resolver/cache.go at concrete messages.
use nextdns.Prelude.{All, arith, codes, length, refl, some, ◌+◌, ◌<◌, ◌^◌, ◌≡◌, ◌≤◌, ◌⊎◌}
use nextdns.Resolver.Cache.Response.{IsServed, adjusted_response-IsServed, ageing}
use nextdns.Resolver.Cache.{Adjusted, Ageing, CacheValue, adjusted_response, update_ttl}
use nextdns.Resolver.Cache.Safety.{Returns, update_ttl_total}
use nextdns.Resolver.Cache.Freshness.{IsFresh, update_ttl-IsFresh}
use nextdns.Resolver.Cache.Walk.{deciding_records}
use nextdns.Tests.Messages.{a_response, aged_response, buffer}

abbrev ten_seconds : Ageing
ten_seconds = record { age = 10; max_age = 0; max_ttl = 0 }

abbrev too_old : Ageing
too_old = record { age = 10; max_age = 5; max_ttl = 0 }

ages : update_ttl a_response ten_seconds ≡ some (aged_response, 290)
unfolding update_ttl nextdns.Resolver.Wire.unpack_uint16 nextdns.Resolver.Cache.skip_questions
    nextdns.Resolver.Cache.update_records nextdns.Resolver.Cache.record_round
    nextdns.Resolver.Wire.slice_from nextdns.Resolver.Wire.skip_name
    nextdns.Resolver.Cache.update_record nextdns.Resolver.Wire.unpack_uint32
    nextdns.Resolver.Wire.pack_uint32 nextdns.Resolver.Cache.capped nextdns.Resolver.Cache.finish
    nextdns.Resolver.Cache.remaining nextdns.Resolver.Cache.lower_ttl
ages = refl

expires : update_ttl a_response too_old ≡ some (aged_response, 0)
unfolding update_ttl nextdns.Resolver.Wire.unpack_uint16 nextdns.Resolver.Cache.skip_questions
    nextdns.Resolver.Cache.update_records nextdns.Resolver.Cache.record_round
    nextdns.Resolver.Wire.slice_from nextdns.Resolver.Wire.skip_name
    nextdns.Resolver.Cache.update_record nextdns.Resolver.Wire.unpack_uint32
    nextdns.Resolver.Wire.pack_uint32 nextdns.Resolver.Cache.capped nextdns.Resolver.Cache.finish
    nextdns.Resolver.Cache.remaining nextdns.Resolver.Cache.lower_ttl
expires = refl

update_ttl_total_example : Returns a_response (λ r. r.0) (update_ttl a_response ten_seconds)
update_ttl_total_example = update_ttl_total a_response ten_seconds

update_ttl-IsFresh_example : All (IsFresh ten_seconds 290) (deciding_records a_response)
update_ttl-IsFresh_example =
    update_ttl-IsFresh a_response aged_response ten_seconds 290 ages (omega arith)

abbrev entry : CacheValue
entry = record { time = 5; msg = a_response; trans = codes "DoH" }

adjusted_response-IsServed_example :
    ((adjusted_response entry buffer 9 0 0 (10 ^ 10 + 5)
        ≡ some (record { buf = buffer; n = 0; min_ttl = 0 }))
      × ((length entry.msg < 12) ⊎ (length buffer < length entry.msg)))
    ⊎ ((r : Adjusted) × (adjusted_response entry buffer 9 0 0 (10 ^ 10 + 5) ≡ some r)
        × (r.n ≡ length entry.msg)
        × (r.n ≤ length buffer)
        × (length r.buf ≡ length buffer)
        × (0 < r.min_ttl → IsServed entry buffer 9 (ageing entry 0 0 (10 ^ 10 + 5)) r))
adjusted_response-IsServed_example = adjusted_response-IsServed entry buffer 9 0 0 (10 ^ 10 + 5)
