-- ===== src/ReviewAttention/Tests.antt =====
-- A clock with two paths, and the theorems there.
use vivi.Base.{ℕ, ◌≤◌, ◌<◌, ◌≡◌, refl, ◌⊎◌, true, some, [], ◌∷◌, codes, ◌==◌, count, not, ◌&&◌}
use vivi.Base.Lists.{All}
use vivi.Base.Dict.{lookup, put, values}
use vivi.ReviewAttention.{
  ReviewAttentionClock, is_recent, max_timer_delay_ms, touch_review_attention,
  next_review_attention_expiry_delay, recent_review_attention_paths, compact_review_attention,
}
use vivi.ReviewAttention.Expiry.{next_review_attention_expiry_delay-IsExact}

runs : Unit {0}
unfolding touch_review_attention next_review_attention_expiry_delay recent_review_attention_paths
    compact_review_attention lookup put ◌==◌
runs = tt

abbrev clock : ReviewAttentionClock
clock = (codes "a.md", 70) ∷ (codes "b.md", 90) ∷ (codes "c.md", 200) ∷ []

touched : touch_review_attention clock (codes "a.md") 95 92 ≡ put (codes "a.md") 92 clock
unfolding runs
touched = refl

compacted : compact_review_attention clock 100 25 ≡ (codes "b.md", 90) ∷ []
unfolding runs
compacted = refl

delay : next_review_attention_expiry_delay clock 100 50 ≡ some 20
unfolding runs
delay = refl

next_review_attention_expiry_delay-IsExact_example :
    ((t : ℕ)
      → 100 ≤ t
      → t < 120
      → All (λ o. is_recent 100 50 o ≡ true → is_recent t 50 o ≡ true) (values clock))
    × ((◌≡◌ {A = ℕ} 20 max_timer_delay_ms)
        ⊎ (1 ≤ count (λ o. is_recent 100 50 o && not (is_recent 120 50 o)) (values clock)))
next_review_attention_expiry_delay-IsExact_example =
    next_review_attention_expiry_delay-IsExact 100 50 clock 20 delay
