-- ===== src/Proxy/Pool.antt =====
-- proxy/bufferpool.go: buffers kept by their size. A `sync.Pool` hands out one of the objects that
-- were put, or a new one, and may drop any of them: which one it does is an input.
pub mod Sizes
use nextdns.Prelude.{List, Option, [], if◌then◌else◌, leb, none, some, suc, zero, ℕ, ◌==◌, ◌∷◌}

pub record Buffer : Type 0 where
  pub len : ℕ
  pub capacity : ℕ

pub record TieredBufferPool : Type 0 where
  pub small : List Buffer
  pub medium : List Buffer
  pub large : List Buffer

abbrev pub new_buffer : ℕ → Buffer
new_buffer n = record { len = n; capacity = n }

abbrev pub new_tiered_buffer_pool : TieredBufferPool
new_tiered_buffer_pool = record { small = []; medium = []; large = [] }

abbrev pub remove_at : List Buffer → ℕ → List Buffer
remove_at [] i = []
remove_at (b ∷ bs) zero = bs
remove_at (b ∷ bs) (suc i) = b ∷ remove_at bs i

-- `sync.Pool.Get`: the object at the index, or a new one where there is none.
abbrev pub pick : ℕ → List Buffer → ℕ → Buffer
pick size [] i = new_buffer size
pick size (b ∷ bs) zero = b
pick size (b ∷ bs) (suc i) = pick size bs i

unfoldable pub get : TieredBufferPool → ℕ → ℕ → Buffer × TieredBufferPool
get p size i =
    if leb size 512
    then (pick 512 p.small i, record p { small = remove_at p.small i })
    else (if leb size 4096
        then (pick 4096 p.medium i, record p { medium = remove_at p.medium i })
        else (pick 65536 p.large i, record p { large = remove_at p.large i }))

unfoldable pub get_large : TieredBufferPool → ℕ → Buffer × TieredBufferPool
get_large p i = (pick 65536 p.large i, record p { large = remove_at p.large i })

-- A nil buffer, and one of another capacity, are dropped.
unfoldable pub put : TieredBufferPool → Option Buffer → TieredBufferPool
put p none = p
put p (some b) =
    if b.capacity == 512
    then record p { small = b ∷ p.small }
    else (if b.capacity == 4096
        then record p { medium = b ∷ p.medium }
        else (if b.capacity == 65536 then record p { large = b ∷ p.large } else p))
