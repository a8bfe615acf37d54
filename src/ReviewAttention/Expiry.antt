-- ===== src/ReviewAttention/Expiry.antt =====
-- ui/src/state/review-attention.ts: a timer set to the next expiry is neither early nor late.
use vivi.Base.{
  ℕ, ◌+◌, ◌-◌, ◌≤◌, ◌<◌, ◌≡◌, ◌⊎◌, inl, inr, refl, Bool-cases, Bool, true, not, ◌&&◌, ◌||◌, Option,
  none, some, List, [], ◌∷◌, arith, count, eqb, leb, ltb, if◌then◌else◌,
}
use vivi.Base.Lists.{All}
use vivi.Base.Dict.{values}
use vivi.ReviewAttention.{
  ReviewAttentionClock, is_recent, next_earliest, earliest_expiry, delay_to, max_timer_delay_ms,
  next_review_attention_expiry_delay, recent_review_attention_paths,
}

module _ (now window : ℕ) where
  abbrev pub counts : ℕ → Bool
  counts t = is_recent now window t

  -- What the accumulator says of a bound below its result.
  abbrev Below : ℕ → Option ℕ → Type 0
  Below e none = Unit
  Below e (some s) = e ≤ s

  next_earliest-Below :
      (e t : ℕ) (start : Option ℕ)
      → Below e (next_earliest now window start t)
      → Below e start × (counts t ≡ true → e ≤ t + window)
  next_earliest-Below e t none h = (tt, λ k. ground (arith, h))
  next_earliest-Below e t (some s) h = (ground (arith, h), λ k. ground (arith, h))

  earliest_expiry-Below :
      (start : Option ℕ) (ts : List ℕ) (e : ℕ)
      → earliest_expiry now window start ts ≡ some e
      → Below e start × All (λ t. counts t ≡ true → e ≤ t + window) ts
  earliest_expiry-Below none [] e h = (tt, tt)
  earliest_expiry-Below (some s) [] e h = (ground (arith, h), tt)
  earliest_expiry-Below start (t ∷ ts) e h =
      let later = earliest_expiry-Below (next_earliest now window start t) ts e h in
      let first = next_earliest-Below e t start later.0 in (first.0, (first.1, later.1))

  -- How many times count now and end at a given time.
  abbrev pub ending : ℕ → List ℕ → ℕ
  ending e ts = count (λ t. counts t && eqb (t + window) e) ts

  abbrev Attained : ℕ → Option ℕ → ℕ → Type 0
  Attained e start n = (start ≡ some e) ⊎ (1 ≤ n)

  next_earliest-Attained :
      (e t : ℕ) (start : Option ℕ) (n : ℕ)
      → Attained e (next_earliest now window start t) n
      → Attained e start ((if counts t && eqb (t + window) e then 1 else 0) + n)
  next_earliest-Attained e t none n (inl h) = inr (ground (arith, h))
  next_earliest-Attained e t (some s) n (inl h) =
      elim (Bool-cases (ltb now t || leb (t + window) now || leb s (t + window))) [
        | inl k ↦ inl (ground (arith, h))
        | inr k ↦ inr (ground (arith, h))
      ]
  next_earliest-Attained e t start n (inr h) = inr (omega (arith, h))

  earliest_expiry-Attained :
      (start : Option ℕ) (ts : List ℕ) (e : ℕ)
      → earliest_expiry now window start ts ≡ some e
      → Attained e start (ending e ts)
  earliest_expiry-Attained start [] e h = inl h
  earliest_expiry-Attained start (t ∷ ts) e h =
      next_earliest-Attained e t start (ending e ts)
        (earliest_expiry-Attained (next_earliest now window start t) ts e h)

  earliest_expiry-none :
      (start : Option ℕ) (ts : List ℕ)
      → earliest_expiry now window start ts ≡ none
      → (start ≡ none) × (count counts ts ≡ 0)
  earliest_expiry-none start [] h = (h, refl)
  earliest_expiry-none none (t ∷ ts) h =
      let later = earliest_expiry-none (next_earliest now window none t) ts h in
      (refl, ground (arith, later.0, later.1))
  earliest_expiry-none (some s) (t ∷ ts) h =
      let later = earliest_expiry-none (next_earliest now window (some s) t) ts h in
      ground (arith, later.0)

  -- When there is a delay, no path that counts stops counting before it is over; when it is over, one that counts has
  -- stopped counting, unless the delay is the longest that a timer takes.
  pub next_review_attention_expiry_delay-IsExact :
      (clock : ReviewAttentionClock) (d : ℕ)
      → next_review_attention_expiry_delay clock now window ≡ some d
      → ((t : ℕ)
          → now ≤ t
          → t < now + d
          → All (λ o. counts o ≡ true → is_recent t window o ≡ true) (values clock))
        × ((d ≡ max_timer_delay_ms)
            ⊎ (1 ≤ count (λ o. counts o && not (is_recent (now + d) window o)) (values clock)))
  unfolding next_review_attention_expiry_delay
  next_review_attention_expiry_delay-IsExact clock d h =
      by_earliest (earliest_expiry now window none (values clock)) refl h
    where
      lasting :
          (e t : ℕ) (ts : List ℕ)
          → now ≤ t
          → t < e
          → All (λ o. counts o ≡ true → e ≤ o + window) ts
          → All (λ o. counts o ≡ true → is_recent t window o ≡ true) ts
      lasting e t [] l m k = tt
      lasting e t (o ∷ ts) l m k = ((λ c. ground (arith, k.0 c)), lasting e t ts l m k.1)

      over :
          (e : ℕ) (ts : List ℕ)
          → ending e ts ≤ count (λ o. counts o && not (is_recent e window o)) ts
      over e [] = omega arith
      over e (o ∷ ts) = ground (arith, over e ts)

      counted_end :
          (x : ℕ)
          → earliest_expiry now window none (values clock) ≡ some x
          → 1 ≤ ending x (values clock)
      counted_end x e = attained (earliest_expiry-Attained none (values clock) x e)
        where
          attained : Attained x none (ending x (values clock)) → 1 ≤ ending x (values clock)
          attained (inl m) = cc
          attained (inr m) = m

      ahead : (x : ℕ) (ts : List ℕ) → 1 ≤ ending x ts → now < x
      ahead x [] h = elim h [ ]
      ahead x (o ∷ ts) h = ground (arith, ahead x ts)

      before : (t x d : ℕ) → delay_to now (some x) ≡ some d → now < x → t < now + d → t < x
      before t x d k later l = ground arith

      ended :
          (x : ℕ)
          → 1 ≤ ending x (values clock)
          → now < x
          → delay_to now (some x) ≡ some d
          → (d ≡ max_timer_delay_ms)
            ⊎ (1 ≤ count (λ o. counts o && not (is_recent (now + d) window o)) (values clock))
      ended x here later k = elim (Bool-cases (leb (x - now) max_timer_delay_ms)) [
        | inl l ↦ inr (rw (at_end l) (omega (arith, over x (values clock), here)))
        | inr l ↦ inl (ground (arith, l))
      ]
        where
          at_end : leb (x - now) max_timer_delay_ms ≡ true → now + d ≡ x
          at_end l = ground arith

      by_earliest :
          (o : Option ℕ)
          → earliest_expiry now window none (values clock) ≡ o
          → delay_to now o ≡ some d
          → ((t : ℕ)
              → now ≤ t
              → t < now + d
              → All (λ o. counts o ≡ true → is_recent t window o ≡ true) (values clock))
            × ((d ≡ max_timer_delay_ms)
                ⊎ (1 ≤ count (λ o. counts o && not (is_recent (now + d) window o)) (values clock)))
      by_earliest none e k = cc
      by_earliest (some x) e k =
          let later = ahead x (values clock) (counted_end x e) in
          (
            (λ t m l.
                lasting x t (values clock) m (before t x d k later l)
                  (earliest_expiry-Below none (values clock) x e).1),
            ended x (counted_end x e) later k,
          )

  -- When there is no delay, no path counts.
  pub next_review_attention_expiry_delay-none :
      (clock : ReviewAttentionClock)
      → next_review_attention_expiry_delay clock now window ≡ none
      → recent_review_attention_paths clock now window ≡ []
  unfolding next_review_attention_expiry_delay recent_review_attention_paths
  next_review_attention_expiry_delay-none clock h =
      nothing clock
        (earliest_expiry-none none (values clock)
          (missing (earliest_expiry now window none (values clock)) h)).1
    where
      missing : (o : Option ℕ) → delay_to now o ≡ none → o ≡ none
      missing none k = refl
      missing (some t) k = cc

      nothing :
          (clock : ReviewAttentionClock)
          → count counts (values clock) ≡ 0
          → recent_review_attention_paths clock now window ≡ []
      nothing [] k = refl
      nothing ((path, o) ∷ clock) k = ground (arith, nothing clock)
