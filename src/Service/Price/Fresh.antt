-- ===== src/Service/Price/Fresh.antt =====
-- Where a price of `CachedPriceClient` comes from (shared/clients/coingecko/price_client.go).
use platform_relayer.Common.{
  ℕ, ◌≡◌, refl, ◌+◌, ◌≤◌, ◌⊎◌, String, List, [], ◌∷◌, Option, none, some, arith, inl, inr,
  Bool-cases, ◌∙◌, sym, ap, subst,
}
use platform_relayer.Db.{Time}
use platform_relayer.Errors.{Result, ok, err}
use platform_relayer.Clients.Answers.{bytes_equal}
use platform_relayer.Clients.Cosmos.Packets.Laws.{bytes_equal_sound}
use platform_relayer.Service.Price.{
  Price, PriceResponse, CachedPriceClient, new_cached_price_client, cache_key, lookup, insert,
  cached, after_fetch, price_or_fetch, get_simple_price,
}

-- One call: its time, when the client inside would answer and what.
pub record Call : Type 0 where
  pub now : Time
  pub fetched : Time
  pub answer : Result Price
  pub coin : String
  pub currency : String

abbrev pub step : CachedPriceClient → Call → CachedPriceClient × Result Price
step client c = get_simple_price client c.now c.fetched c.answer c.coin c.currency

-- After calls, the latest of which stands first.
unfoldable pub serve : List Call → CachedPriceClient → CachedPriceClient
serve [] client = client
serve (c ∷ calls) client = (step (serve calls client) c).0

-- One of these calls is for this key, and the client inside would answer it with this price then.
unfoldable pub Offered : List ℕ → Price → Time → List Call → Type 0
Offered k p t [] = ⊥
Offered k p t (c ∷ calls) =
    ((cache_key c.coin c.currency ≡ k) × (c.answer ≡ ok p) × (c.fetched ≡ t)) ⊎ Offered k p t calls

-- A key that is found after an insertion is the one inserted, or was there before.
lookup-insert :
    (k j : List ℕ) (r q : PriceResponse) (cache : List (List ℕ × PriceResponse))
    → lookup k (insert j r cache) ≡ some q
    → ((j ≡ k) × (r ≡ q)) ⊎ (lookup k cache ≡ some q)
unfolding lookup insert
lookup-insert k j r q [] h = elim (Bool-cases (bytes_equal k j)) [
  | inl same ↦ inl (sym (bytes_equal_sound k j same), ground (arith, h, same))
  | inr differ ↦ inr (ground (arith, h, differ))
]
lookup-insert k j r q ((i, s) ∷ cache) h = elim (Bool-cases (bytes_equal j i)) [
  | inl there ↦ elim (Bool-cases (bytes_equal k j)) [
    | inl same ↦ inl (sym (bytes_equal_sound k j same), ground (arith, h, there, same))
    | inr differ ↦ inr (ground (arith, h, there, differ, bytes_equal_sound j i there))
  ]
  | inr other ↦ elim (Bool-cases (bytes_equal k i)) [
    | inl first ↦ inr (ground (arith, h, other, first))
    | inr later ↦ elim (lookup-insert k j r q cache (ground (arith, h, other, later))) [
      | inl found ↦ inl found
      | inr before ↦ inr (ground (arith, later, before))
    ]
  ]
]

-- Every price in the cache was offered by a call of its key, at the time of its update.
abbrev Sourced : List Call → CachedPriceClient → Type 0
Sourced calls client =
    (k : List ℕ) (r : PriceResponse)
    → lookup k client.cache ≡ some r
    → Offered k r.price r.last_updated calls

after_fetch-Sourced :
    (calls : List Call) (client : CachedPriceClient) (c : Call) (answer : Result Price)
    → c.answer ≡ answer
    → Sourced calls client
    → Sourced (c ∷ calls) (after_fetch client (cache_key c.coin c.currency) c.fetched answer).0
unfolding after_fetch Offered
after_fetch-Sourced calls client c (err e) same h k r found = inr (h k r found)
after_fetch-Sourced calls client c (ok p) same h k r found =
    elim (lookup-insert k (cache_key c.coin c.currency)
      (record { price = p; last_updated = c.fetched }) r client.cache found) [
        | inl (key, value) ↦ inl (
          key,
          same ∙ ap (λ (q : PriceResponse). ok q.price) value,
          ap PriceResponse.last_updated value,
        )
        | inr before ↦ inr (h k r before)
      ]

price_or_fetch-Sourced :
    (calls : List Call) (client : CachedPriceClient) (c : Call) (o : Option PriceResponse)
    → Sourced calls client
    → Sourced
        (c ∷ calls)
        (price_or_fetch client (cache_key c.coin c.currency) c.fetched c.answer o).0
unfolding price_or_fetch Offered
price_or_fetch-Sourced calls client c none h = after_fetch-Sourced calls client c c.answer refl h
price_or_fetch-Sourced calls client c (some r) h = λ k q found. inr (h k q found)

step-Sourced :
    (calls : List Call) (client : CachedPriceClient) (c : Call)
    → Sourced calls client
    → Sourced (c ∷ calls) (step client c).0
unfolding get_simple_price
step-Sourced calls client c h =
    price_or_fetch-Sourced calls client c
      (cached c.now client.cache_refresh_interval
        (lookup (cache_key c.coin c.currency) client.cache))
      h

step-interval :
    (client : CachedPriceClient) (c : Call)
    → (step client c).0.cache_refresh_interval ≡ client.cache_refresh_interval
unfolding get_simple_price price_or_fetch after_fetch
step-interval client c =
    kept c.answer (
      cached c.now client.cache_refresh_interval
        (lookup (cache_key c.coin c.currency) client.cache))
  where
    fetch_kept :
        (answer : Result Price)
        → (after_fetch client
            (cache_key c.coin c.currency)
            c.fetched
            answer).0.cache_refresh_interval
          ≡ client.cache_refresh_interval
    fetch_kept (ok p) = refl
    fetch_kept (err e) = refl

    kept :
        (answer : Result Price) (o : Option PriceResponse)
        → (price_or_fetch client
            (cache_key c.coin c.currency)
            c.fetched
            answer
            o).0.cache_refresh_interval
          ≡ client.cache_refresh_interval
    kept answer none = fetch_kept answer
    kept answer (some r) = refl

serve-Sourced :
    (calls : List Call) (interval : Time)
    → Sourced calls (serve calls (new_cached_price_client interval))
      × ((serve calls (new_cached_price_client interval)).cache_refresh_interval ≡ interval)
unfolding serve lookup
serve-Sourced [] interval = (λ k r found. absurd (cc (found)), refl)
serve-Sourced (c ∷ calls) interval =
    let (sourced, same) = serve-Sourced calls interval in
    (
      step-Sourced calls (serve calls (new_cached_price_client interval)) c sourced,
      step-interval (serve calls (new_cached_price_client interval)) c ∙ same,
    )

-- A price from the cache is no older than the interval.
cached-fresh :
    (now interval : Time) (o : Option PriceResponse) (r : PriceResponse)
    → cached now interval o ≡ some r
    → (o ≡ some r) × (now ≤ r.last_updated + interval)
unfolding cached
cached-fresh now interval none r h = absurd (cc)
cached-fresh now interval (some q) r h = ground (arith, h)

answer_from :
    (client : CachedPriceClient) (k : List ℕ) (fetched : Time) (answer : Result Price)
    (o : Option PriceResponse) (p : Price)
    → (price_or_fetch client k fetched answer o).1 ≡ ok p
    → ((r : PriceResponse) × (o ≡ some r) × (r.price ≡ p)) ⊎ ((o ≡ none) × (answer ≡ ok p))
unfolding price_or_fetch after_fetch
answer_from client k fetched answer (some r) p h = inl (r, refl, cc (h))
answer_from client k fetched (ok q) none p h = inr (refl, h)
answer_from client k fetched (err e) none p h = inr (refl, h)

-- After any calls, a price is what the client inside answers now, or what it answered to a call of the
-- same key no longer than the refresh interval ago.
pub get_simple_price-fresh :
    (calls : List Call) (interval : Time) (c : Call) (p : Price)
    → (step (serve calls (new_cached_price_client interval)) c).1 ≡ ok p
    → (c.answer ≡ ok p)
      ⊎ ((t : Time) × Offered (cache_key c.coin c.currency) p t calls × (c.now ≤ t + interval))
unfolding get_simple_price
get_simple_price-fresh calls interval c p h =
    let client = serve calls (new_cached_price_client interval) in
    let (sourced, same) = serve-Sourced calls interval in
    let k = cache_key c.coin c.currency in
    elim (answer_from client k c.fetched c.answer
      (cached c.now client.cache_refresh_interval (lookup k client.cache)) p h) [
        | inr (_, asked) ↦ inl asked
        | inl (r, hit, price) ↦
            let (found, fresh) =
              cached-fresh c.now client.cache_refresh_interval (lookup k client.cache) r hit in
            inr (
              r.last_updated,
              subst (λ q. Offered k q r.last_updated calls) price (sourced k r found),
              omega (arith, fresh, same),
            )
      ]
