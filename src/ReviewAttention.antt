-- ===== src/ReviewAttention.antt =====
-- ui/src/state/review-attention.ts: when a path was last looked at, and for how long that counts. Times are whole
-- milliseconds; a clock is an object with the paths for keys.
pub mod Expiry
mod Tests
use vivi.Base.{
  ℕ, ◌+◌, ◌-◌, ◌*◌, min, max, Bool, false, not, ◌&&◌, ◌||◌, Option, none, some, List, [], ◌∷◌,
  is_empty, leb, ltb, if◌then◌else◌,
}
use vivi.Base.Strings.{Text}
use vivi.Base.Dict.{Dict, lookup, put, values}

abbrev pub ReviewAttentionClock : Type 0
ReviewAttentionClock = Dict ℕ

abbrev pub review_activity_window_ms : ℕ
review_activity_window_ms = 30 * 60 * 1000

abbrev pub max_timer_delay_ms : ℕ
max_timer_delay_ms = 2147483647

-- `current !== undefined && current <= receivedAt && current >= safeObservedAt`
abbrev pub is_kept : Option ℕ → ℕ → ℕ → Bool
is_kept none observed received = false
is_kept (some current) observed received = leb current received && leb observed current

unfoldable pub touch_review_attention : ReviewAttentionClock → Text → ℕ → ℕ → ReviewAttentionClock
unfolding lookup put
touch_review_attention clock path observed_at received_at =
    if is_empty path || is_kept (lookup path clock) (min observed_at received_at) received_at
    then clock
    else put path (min observed_at received_at) clock

-- Whether a time still counts at another one.
abbrev pub is_recent : ℕ → ℕ → ℕ → Bool
is_recent now window observed = leb observed now && ltb (now - observed) window

unfoldable pub recent_review_attention_paths : ReviewAttentionClock → ℕ → ℕ → List Text
recent_review_attention_paths [] now window = []
recent_review_attention_paths ((path, observed) ∷ clock) now window =
    let rest = recent_review_attention_paths clock now window in
    if is_recent now window observed then path ∷ rest else rest

abbrev pub earlier : Option ℕ → ℕ → Option ℕ
earlier none t = some t
earlier (some u) t = some (min u t)

-- The callback of `reduce`.
abbrev pub next_earliest : ℕ → ℕ → Option ℕ → ℕ → Option ℕ
next_earliest now window earliest observed =
    if ltb now observed || leb (observed + window) now
    then earliest
    else earlier earliest (observed + window)

abbrev pub earliest_expiry : ℕ → ℕ → Option ℕ → List ℕ → Option ℕ
earliest_expiry now window earliest [] = earliest
earliest_expiry now window earliest (t ∷ ts) =
    earliest_expiry now window (next_earliest now window earliest t) ts

abbrev pub delay_to : ℕ → Option ℕ → Option ℕ
delay_to now none = none
delay_to now (some t) = some (min max_timer_delay_ms (max 1 (t - now)))

unfoldable pub next_review_attention_expiry_delay : ReviewAttentionClock → ℕ → ℕ → Option ℕ
next_review_attention_expiry_delay clock now window =
    delay_to now (earliest_expiry now window none (values clock))

unfoldable pub compact_review_attention : ReviewAttentionClock → ℕ → ℕ → ReviewAttentionClock
compact_review_attention [] now window = []
compact_review_attention ((path, observed) ∷ clock) now window =
    let rest = compact_review_attention clock now window in
    if not (is_empty path) && is_recent now window observed then (path, observed) ∷ rest else rest
