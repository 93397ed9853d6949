-- ===== src/Guard/Providers/LastGood.antt =====
-- What `RedisEndpointGuardRuleProvider` answers after any requests before.
use agent_backend.Prelude.{
  ℕ, ◌≡◌, refl, sym, ◌∙◌, ◌⊎◌, inl, inr, String, Bool, true, false, Option, none, some, List, [],
  ◌∷◌, if_elim, arith, All, Error, Result, ok, err,
}
use agent_backend.Guard.{Rule, Web}
use agent_backend.Guard.Providers.{RedisProvider, load_rules, is_fresh, after_load, redis_get_rules}

-- A request: its time, and what the cache answers if it is asked.
abbrev pub Asked : Type 0
Asked = ℕ × Result (Option String)

-- The provider after requests, the latest first.
abbrev pub after : Web → List Asked → RedisProvider → RedisProvider
after web [] p = p
after web ((now, read) ∷ earlier) p = (redis_get_rules web now read (after web earlier p)).1

-- The rules of this answer cannot be read.
abbrev Fails : Web → Asked → Type 0
Fails web asked = (e : Error) × (load_rules web asked.1 ≡ err e)

-- One of the answers holds these rules.
abbrev Holds : Web → List Rule → List Asked → Type 0
Holds web rules [] = ⊥
Holds web rules (asked ∷ earlier) = (load_rules web asked.1 ≡ ok rules) ⊎ Holds web rules earlier

-- What the state says of the requests so far.
abbrev Backed : Web → Bool → List Asked → RedisProvider → Type 0
Backed web fail_open history p =
    (p.fail_open ≡ fail_open)
    × (((p.has_last_good ≡ false) × All (Fails web) history)
        ⊎ ((p.has_last_good ≡ true) × Holds web p.cached_rules history))

-- The answer to a request: none, or rules.
abbrev pub Answers : Web → Bool → List Asked → Option (List Rule) → Type 0
Answers web fail_open history none = (fail_open ≡ false) × All (Fails web) history
Answers web fail_open history (some rules) =
    Holds web rules history ⊎ ((rules ≡ []) × (fail_open ≡ true) × All (Fails web) history)

abbrev Sound : Web → Bool → List Asked → Option (List Rule) × RedisProvider → Type 0
Sound web fail_open history answer =
    Answers web fail_open history answer.0 × Backed web fail_open history answer.1

module _ (web : Web) (fail_open : Bool) where
  after_load-Sound :
      (now : ℕ) (read : Result (Option String)) (loaded : Result (List Rule)) (earlier : List Asked)
      (p : RedisProvider)
      → load_rules web read ≡ loaded
      → Backed web fail_open earlier p
      → Sound web fail_open ((now, read) ∷ earlier) (after_load now loaded p)
  after_load-Sound now read (ok rules) earlier p e (same, h) =
      (inl (inl e), (same, inr (refl, inl e)))
  after_load-Sound now read (err x) earlier p e (same, inr (good, held)) =
      if_elim (Sound web fail_open ((now, read) ∷ earlier)) p.has_last_good
        (λ _. (inl (inr held), (same, inr (good, inr held)))) (λ bad. cc (good, bad))
  after_load-Sound now read (err x) earlier p e (same, inl (bad, failed)) =
      let all : All (Fails web) ((now, read) ∷ earlier) = ((x, e), failed) in
      if_elim (Sound web fail_open ((now, read) ∷ earlier)) p.has_last_good (λ good. cc (good, bad))
        (λ _.
          if_elim (Sound web fail_open ((now, read) ∷ earlier)) p.fail_open
            (λ opens. (inr (refl, sym same ∙ opens, all), (same, inl (bad, all))))
            (λ closed. ((sym same ∙ closed, all), (same, inl (bad, all)))))

  redis_get_rules-Sound :
      (now : ℕ) (read : Result (Option String)) (earlier : List Asked) (p : RedisProvider)
      → Backed web fail_open earlier p
      → Sound web fail_open ((now, read) ∷ earlier) (redis_get_rules web now read p)
  unfolding redis_get_rules
  redis_get_rules-Sound now read earlier p (same, inl (bad, failed)) =
      if_elim (Sound web fail_open ((now, read) ∷ earlier)) (is_fresh now p)
        (λ fresh. absurd ground arith)
        (λ stale.
          after_load-Sound now read (load_rules web read) earlier p refl (same, inl (bad, failed)))
  redis_get_rules-Sound now read earlier p (same, inr (good, held)) =
      if_elim (Sound web fail_open ((now, read) ∷ earlier)) (is_fresh now p)
        (λ fresh. (inl (inr held), (same, inr (good, inr held))))
        (λ stale.
          after_load-Sound now read (load_rules web read) earlier p refl (same, inr (good, held)))

  after-Backed :
      (history : List Asked) (p : RedisProvider)
      → p.has_last_good ≡ false
      → p.fail_open ≡ fail_open
      → Backed web fail_open history (after web history p)
  after-Backed [] p new same = (same, inl (new, tt))
  after-Backed ((now, read) ∷ earlier) p new same =
      (redis_get_rules-Sound now read earlier (after web earlier p)
        (after-Backed earlier p new same)).1

-- What a new provider answers after any requests: it raises only where it does not fail open and no
-- request so far, this one included, was given rules that could be read; and rules that it returns
-- are those of an answer of the cache to one of these requests, or none at all where it fails open
-- and no answer could be read.
pub redis_get_rules-Answers :
    (web : Web) (p : RedisProvider) (earlier : List Asked) (now : ℕ) (read : Result (Option String))
    → p.has_last_good ≡ false
    → Answers web p.fail_open
        ((now, read) ∷ earlier)
        (redis_get_rules web now read (after web earlier p)).0
redis_get_rules-Answers web p earlier now read new =
    (redis_get_rules-Sound web p.fail_open now read earlier (after web earlier p)
      (after-Backed web p.fail_open earlier p new refl)).0
