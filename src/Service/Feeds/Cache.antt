-- ===== src/Service/Feeds/Cache.antt =====
-- The trending feed and its cache: internal/service/feed.go.
use echo_backend.Base.{
  ℕ, suc, if◌then◌else◌, ◌<◌, ◌≤◌, ◌≡◌, ◌∙◌, refl, Bool, true, false, not, Option, some, List,
  arith, IsPage,
}
use echo_backend.Base.Int.{ℤ, pos}
use echo_backend.Text.{Text, codes}
use echo_backend.Errors.{Error, wrapped, Result, ok, err}
use echo_backend.Effect.{Ensures, ◌>>=◌, attempt, fail}
use echo_backend.Effect.Rules.{bind, returned, Ensures-mono, attempted, told, left_with}
use echo_backend.Domain.{Post}
use echo_backend.Database.{Database, Tables, IsDatabase}
use echo_backend.Redis.{Redis, IsRedis, Gets}
use echo_backend.Repository.Feeds
use echo_backend.Repository.Feeds.{more_popular}
use echo_backend.Repository.Feeds.Order.{more_popular-IsOrdering}
use echo_backend.Service.Limits.{clamp_limit}
use echo_backend.Service.Feeds.{
  is_nil, cache_key, cache_ttl, store_payload, read_cached, load_page, after_lookup, trending,
}
use echo_backend.Service.Feeds.Pages.{clamp_limit_lem}

module _ {W : Type 0} (db : Database W) (view : W → Tables) (d : IsDatabase view db)
    (redis : Redis W) (keys : W → Text → Option Text) (r : IsRedis keys view redis)
    (marshal : List Post → Result Text) (unmarshal : Text → Result (List Post)) where
  -- The visible posts with the highest scores.
  abbrev pub IsTop : ℕ → W → List Post → Type 0
  IsTop n w posts = IsPage more_popular (λ p. not p.is_hidden) n 0 (view w).posts posts

  -- The page of the database, or the error of its query in the world `w₁`. No row changes.
  abbrev pub IsFresh : ℕ → W → W → Result (List Post) × W → Type 0
  IsFresh n w w₁ =
      Ensures (λ posts w'. IsTop n w posts × (view w' ≡ view w))
        (λ e w'. ((Feeds.trending db (pos n) w₁).0 ≡ err e) × (view w' ≡ view w))

  -- What follows from reading a payload.
  abbrev pub IsServed : ℕ → W → W → Result (List Post) → Result (List Post) × W → Type 0
  IsServed n w w₁ (ok posts) x = (x.0 ≡ ok posts) × (view x.1 ≡ view w)
  IsServed n w w₁ (err _) x = IsFresh n w w₁ x

  -- What follows from an error of Redis, which is `redis.Nil` or another one.
  abbrev pub IsMissed : ℕ → W → W → Error → Bool → Result (List Post) × W → Type 0
  IsMissed n w w₁ e true x = IsFresh n w w₁ x
  IsMissed n w w₁ e false x =
      (x.0 ≡ err (wrapped (codes "get trending cache") e)) × (view x.1 ≡ view w)

  -- What follows from the lookup of the page in Redis.
  abbrev pub IsTrending : ℕ → W → Result Text × W → Result (List Post) × W → Type 0
  IsTrending n w (ok payload, w₁) x =
      (keys w (cache_key (pos n)) ≡ some payload) × IsServed n w w₁ (unmarshal payload) x
  IsTrending n w (err e, w₁) x = IsMissed n w w₁ e (is_nil e) x

  store_payload_lem :
      (key : Text) (posts : List Post) (payload : Result Text) (w : W)
      → Ensures
          (λ ps w'. (ps ≡ posts) × (view w' ≡ view w))
          (λ _ _. ⊥)
          (store_payload db redis marshal unmarshal key posts payload w)
  unfolding store_payload
  store_payload_lem key posts (ok payload) w =
      bind _ _ (λ _ w'. view w' ≡ view w) _ _ w
        (attempted _ _ _ w (
          Ensures-mono _ _ _ _ _ (r.set_lem key payload cache_ttl w) (λ _ w' q. q.1) (λ e w' q. q)))
        λ _ w₁ same. returned _ _ _ _ (refl, same)
  store_payload_lem key posts (err _) w = returned _ _ _ _ (refl, refl)

  top_lem :
      (n : ℕ) (w : W)
      → 0 < n
      → Ensures
          (λ posts w'. IsTop n w posts × (view w' ≡ view w))
          (λ _ w'. view w' ≡ view w)
          (Feeds.trending db (pos n) w)
  unfolding Feeds.trending
  top_lem n w more =
      d.posts_table.find_lem (λ p. not p.is_hidden) more_popular n 0 w more_popular-IsOrdering more

  load_page_lem :
      (n : ℕ) (w w₁ : W)
      → 0 < n
      → view w₁ ≡ view w
      → IsFresh n w w₁ (load_page db redis marshal unmarshal (pos n) w₁)
  unfolding load_page
  load_page_lem n w w₁ more same =
      bind _ _ _ _ _ w₁
        (Ensures-mono _ _ _ _ _ (told _ _ (Feeds.trending db (pos n) w₁) (top_lem n w₁ more))
          (λ posts w₂ q. q.0) (λ e w₂ q. (q.1, q.0 ∙ same)))
        λ posts w₂ h₂.
          Ensures-mono _ _ _ _ _ (store_payload_lem (cache_key (pos n)) posts (marshal posts) w₂)
            (λ ps w₃ q. (rw (← q.0, same) at h₂.0, q.1 ∙ h₂.1 ∙ same)) (λ e w₃ q. absurd q)

  after_lookup_lem :
      (n : ℕ) (w : W) (x : Result Text × W)
      → 0 < n
      → Gets keys view (cache_key (pos n)) w x
      → IsTrending n w x (after_lookup db redis marshal unmarshal (pos n) x.0 x.1)
  unfolding after_lookup read_cached Ensures
  after_lookup_lem n w (ok payload, w₁) more (live, same) = (live, served (unmarshal payload))
    where
      served :
          (found : Result (List Post))
          → IsServed n w w₁ found (read_cached db redis marshal unmarshal (pos n) found w₁)
      served (ok posts) = (refl, same)
      served (err _) = load_page_lem n w w₁ more same
  after_lookup_lem n w (err e, w₁) more (gone, same) = missed (is_nil e)
    where
      missed :
          (b : Bool)
          → IsMissed n w w₁ e b (
              (if b
                  then load_page db redis marshal unmarshal (pos n)
                  else fail (wrapped (codes "get trending cache") e))
                w₁)
      missed true = load_page_lem n w w₁ more same
      missed false = (refl, same)

  -- The limit is bounded to 1 to 100, and the trending feed looks up the page of that limit in
  -- Redis. A page that is live there and can be read is the answer. If it cannot be read, or Redis
  -- says that there is none, the answer is the visible posts of the highest scores, newer ones first
  -- among equals, up to the limit, or the error of their query. Any other error of Redis is
  -- returned, wrapped. No row changes.
  pub trending-IsTrending :
      (limit : ℤ) (w : W)
      → (n : ℕ) × (1 ≤ n)
        × (n ≤ 100)
        × (clamp_limit limit ≡ pos n)
        × IsTrending n w
            (redis.get (cache_key (pos n)) w)
            (trending db redis marshal unmarshal limit w)
  unfolding trending ◌>>=◌ attempt
  trending-IsTrending limit w =
      let (m, clamped, small) = clamp_limit_lem limit in
      (
        suc m,
        omega arith,
        omega arith,
        clamped,
        rw clamped (
            after_lookup_lem (suc m) w (redis.get (cache_key (pos (suc m))) w) (omega arith)
              (r.get_lem (cache_key (pos (suc m))) w)),
      )

  IsFresh-reads :
      (n : ℕ) (w w₁ : W) (x : Result (List Post) × W) → IsFresh n w w₁ x → view x.1 ≡ view w
  IsFresh-reads n w w₁ x q =
      left_with (λ w'. view w' ≡ view w) x (Ensures-mono _ _ _ _ x q (λ _ _ q. q.1) (λ _ _ q. q.1))

  IsServed-reads :
      (n : ℕ) (w w₁ : W) (found : Result (List Post)) (x : Result (List Post) × W)
      → IsServed n w w₁ found x
      → view x.1 ≡ view w
  IsServed-reads n w w₁ (ok _) x q = q.1
  IsServed-reads n w w₁ (err _) x q = IsFresh-reads n w w₁ x q

  IsMissed-reads :
      (n : ℕ) (w w₁ : W) (e : Error) (b : Bool) (x : Result (List Post) × W)
      → IsMissed n w w₁ e b x
      → view x.1 ≡ view w
  IsMissed-reads n w w₁ e true x q = IsFresh-reads n w w₁ x q
  IsMissed-reads n w w₁ e false x q = q.1

  IsTrending-reads :
      (n : ℕ) (w : W) (found : Result Text × W) (x : Result (List Post) × W)
      → IsTrending n w found x
      → view x.1 ≡ view w
  IsTrending-reads n w (ok payload, w₁) x q = IsServed-reads n w w₁ (unmarshal payload) x q.1
  IsTrending-reads n w (err e, w₁) x q = IsMissed-reads n w w₁ e (is_nil e) x q

  pub trending_reads :
      (limit : ℤ) (w : W) → view (trending db redis marshal unmarshal limit w).1 ≡ view w
  trending_reads limit w =
      let (n, _, _, _, q) = trending-IsTrending limit w in
      IsTrending-reads n w _ (trending db redis marshal unmarshal limit w) q
