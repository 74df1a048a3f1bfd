-- ===== src/Service/Price.antt =====
-- `CachedPriceClient` of shared/clients/coingecko/price_client.go. A price is a float and stands as
-- what the API answered; a text is its code points.
pub mod Fresh
pub mod Keys
use platform_relayer.Common.{
  ℕ, ◌+◌, String, Bool, List, [], ◌∷◌, ◌++◌, Option, none, some, ltb, ◌==◌, if◌then◌else◌,
}
use platform_relayer.Db.{Time, Numeric, ℤ}
use platform_relayer.Errors.{Error, Result, ok, err, wrap}
use platform_relayer.Batch.Hex.{codes}
use platform_relayer.Clients.Answers.{bytes_equal, ◌>>=◌}

-- The bytes of a float.
abbrev pub Price : Type 0
Price = List ℕ

pub record PriceResponse : Type 0 where
  pub price : Price
  pub last_updated : Time

-- `strings.ReplaceAll(s, "/", "//")`
unfoldable pub double_slashes : List ℕ → List ℕ
double_slashes [] = []
double_slashes (c ∷ s) =
    let rest = double_slashes s in if c == b'/' then b'/' ∷ b'/' ∷ rest else c ∷ rest

-- `cacheKey`
unfoldable pub cache_key : String → String → List ℕ
unfolding double_slashes
cache_key coin currency = double_slashes (codes coin) ++ b'/' ∷ double_slashes (codes currency)

pub record CachedPriceClient : Type 0 where
  pub cache : List (List ℕ × PriceResponse)
  pub cache_refresh_interval : Time

-- `NewCachedPriceClient`
abbrev pub new_cached_price_client : Time → CachedPriceClient
new_cached_price_client interval = record { cache = []; cache_refresh_interval = interval }

unfoldable pub lookup : List ℕ → List (List ℕ × PriceResponse) → Option PriceResponse
lookup k [] = none
lookup k ((j, r) ∷ cache) = if bytes_equal k j then some r else lookup k cache

unfoldable pub insert :
    List ℕ → PriceResponse → List (List ℕ × PriceResponse) → List (List ℕ × PriceResponse)
insert k r [] = (k, r) ∷ []
insert k r ((j, q) ∷ cache) = if bytes_equal k j then (k, r) ∷ cache else (j, q) ∷ insert k r cache

-- What is answered from the cache: nothing for a key that is missing or was updated too long ago.
unfoldable pub cached : Time → Time → Option PriceResponse → Option PriceResponse
cached now interval none = none
cached now interval (some r) = if ltb (r.last_updated + interval) now then none else some r

-- The answer of the client inside, `fetched` the time at which it is there.
unfoldable pub after_fetch :
    CachedPriceClient → List ℕ → Time → Result Price → CachedPriceClient × Result Price
unfolding insert
after_fetch client k fetched (err e) = (client, err e)
after_fetch client k fetched (ok p) = (
  record client { cache = insert k (record { price = p; last_updated = fetched }) client.cache },
  ok p,
)

unfoldable pub price_or_fetch :
    CachedPriceClient
    → List ℕ
    → Time
    → Result Price
    → Option PriceResponse
    → CachedPriceClient × Result Price
unfolding after_fetch
price_or_fetch client k fetched answer (some r) = (client, ok r.price)
price_or_fetch client k fetched answer none = after_fetch client k fetched answer

-- `GetSimplePrice` at a time, for what the client inside answers if it is asked.
unfoldable pub get_simple_price :
    CachedPriceClient
    → Time
    → Time
    → Result Price
    → String
    → String
    → CachedPriceClient × Result Price
unfolding price_or_fetch cached lookup cache_key
get_simple_price client now fetched answer coin currency =
    let k = cache_key coin currency in
    price_or_fetch client k fetched answer
      (cached now client.cache_refresh_interval (lookup k client.cache))

-- `GetCoinUsdValue`: `convert` is the computation on floats with the scan of its print.
unfoldable pub get_coin_usd_value :
    (ℤ → ℕ → Price → Result Numeric)
    → CachedPriceClient
    → Time
    → Time
    → Result Price
    → String
    → ℕ
    → ℤ
    → Result Numeric
unfolding get_simple_price
get_coin_usd_value convert client now fetched answer coin decimals amount = do
  price ← wrap "getting coingecko price" (get_simple_price client now fetched answer coin "usd").1
  convert amount decimals price
