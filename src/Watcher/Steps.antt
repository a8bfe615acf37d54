-- ===== src/Watcher/Steps.antt =====
-- server/typescript/infrastructure/node-watcher.ts: the steps that the worker, the timers, `stat` and the owner of a
-- watcher make, in any order, and the bound on pending timers that all of them keep.
use vivi.Base.{
  ℕ, ◌+◌, ◌≤◌, ◌≡◌, not, ◌&&◌, Option, none, some, List, [], ◌∷◌, ◌++◌, arith, inl, inr, Bool-cases,
  length,
}
use vivi.Base.Strings.{Text}
use vivi.Base.Dict.{Dict, lookup, put, erase, length-put, length-erase-le}
use vivi.Tree.{NodeKind}
use vivi.Watcher.{
  NodeWatcherOptions, NodeWatcher, new_watcher, Emission, FsEvent, add, change, unlink, is_file,
  is_included, emit_kind, event_from_known_path, queue_event, start, launch, lose_worker, stop,
  emit_current_state, get_metrics,
}

-- A watcher with the calls of `emitCurrentState` that wait, and the events passed on since the last start, the latest
-- first.
pub record World : Type 0 where
  pub watcher : NodeWatcher
  pub waiting : List Emission
  pub events : List FsEvent

abbrev pub reported : Option FsEvent → List FsEvent → List FsEvent
reported none events = events
reported (some e) events = e ∷ events

-- The callback of a timer: it leaves `pending`, and `emitCurrentState` reads the known kind and waits.
unfoldable pub fire : Text → World → World
fire path w = record w {
  watcher = record w.watcher { pending = erase path w.watcher.pending };
  waiting = w.waiting ++ emission ∷ [];
}
  where
    emission : Emission
    emission = record { path = path; previous = lookup path w.watcher.known_paths }

-- `stat` answers one of the calls that wait, in whatever order.
unfoldable pub settle :
    NodeWatcherOptions → Emission → Option NodeKind → List Emission → World → World
settle o e kind others w = record {
  watcher = (emit_current_state o e kind w.watcher).0;
  waiting = others;
  events = reported (emit_current_state o e kind w.watcher).1 w.events;
}

pub data Step (o : NodeWatcherOptions) : World → World → Type 0 where
  started : (w : World) → Step o w (record w { watcher = start w.watcher; events = [] })
  launched :
      (w : World) (entries : Option (List Text))
      → Step o w (record w { watcher = launch o entries w.watcher })
  lost : (w : World) → Step o w (record w { watcher = lose_worker w.watcher })
  queued :
      (w : World) (now : ℕ) (path : Text)
      → Step o w (record w { watcher = queue_event o now path w.watcher })
  fired :
      (w : World) (path : Text) {due : ℕ}
      → lookup path w.watcher.pending ≡ some due
      → Step o w (fire path w)
  settled :
      (w : World) (before after : List Emission) (e : Emission) (kind : Option NodeKind)
      → w.waiting ≡ before ++ e ∷ after
      → Step o w (settle o e kind (before ++ after) w)
  stopped : (w : World) → Step o w (record w { watcher = stop w.watcher })

abbrev pub initial : World
initial = record { watcher = new_watcher; waiting = []; events = [] }

-- The states that a watcher can come to.
pub data Reachable (o : NodeWatcherOptions) : World → Type 0 where
  here : Reachable o initial
  next : {w v : World} → Reachable o w → Step o w v → Reachable o v

-- The watcher after an emission that passes an event on.
abbrev pub emitted : Dict NodeKind → NodeWatcher → NodeWatcher
emitted known w = record w {
  known_paths = known;
  version = w.version + 1;
  emitted_events = w.emitted_events + 1;
}

-- What holds of each outcome of `emitCurrentState` holds of the outcome: nothing happens, or a known path is gone, or a
-- path is there, which is added or changed.
pub emit_current_state-cases {ℓ} :
    (P : NodeWatcher → Option FsEvent → Type ℓ) (o : NodeWatcherOptions) (e : Emission)
    (kind : Option NodeKind) (w : NodeWatcher)
    → P w none
    → ((k : NodeKind)
        → P (emitted (erase e.path w.known_paths) w) (some (unlink e.path k (w.version + 1))))
    → ((k : NodeKind)
        → P (emitted (put e.path k w.known_paths) w) (some (add e.path k (w.version + 1))))
    → ((k : NodeKind)
        → P (emitted (put e.path k w.known_paths) w) (some (change e.path (w.version + 1))))
    → P (emit_current_state o e kind w).0 (emit_current_state o e kind w).1
unfolding emit_current_state event_from_known_path
emit_current_state-cases P o e kind w same gone added changed =
    elim (Bool-cases (is_file kind && not (is_included o e.path))) [
      | inl t ↦ rw t same
      | inr t ↦ rw t (by_kind kind e.previous)
    ]
  where
    by_kind :
        (kind previous : Option NodeKind)
        → P (emit_kind e.path kind previous w).0 (emit_kind e.path kind previous w).1
    by_kind none none = same
    by_kind none (some k) = gone k
    by_kind (some k) none = added k
    by_kind (some k) (some j) = changed k

module _ (o : NodeWatcherOptions) where
  pub queue_event-pending-le :
      (now : ℕ) (path : Text) (w : NodeWatcher)
      → length w.pending ≤ o.max_pending_events
      → length (queue_event o now path w).pending ≤ o.max_pending_events
  unfolding queue_event
  queue_event-pending-le now path w h =
      ground (arith, length-put path (now + o.debounce_ms) w.pending)

  -- The step has at most as many timers as are allowed, if the state before it has.
  Step-pending-le :
      {w v : World}
      → Step o w v
      → length w.watcher.pending ≤ o.max_pending_events
      → length v.watcher.pending ≤ o.max_pending_events
  unfolding start launch lose_worker stop fire settle
  Step-pending-le (started w) h = h
  Step-pending-le (launched w entries) h = h
  Step-pending-le (lost w) h = h
  Step-pending-le (queued w now path) h = queue_event-pending-le now path w.watcher h
  Step-pending-le (fired w path d) h = omega (arith, length-erase-le path w.watcher.pending, h)
  Step-pending-le (settled w before after e kind d) h =
      emit_current_state-cases (λ v event. length v.pending ≤ o.max_pending_events) o e kind
        w.watcher h (λ k. h) (λ k. h) (λ k. h)
  Step-pending-le (stopped w) h = omega arith

  -- In every state that a watcher can come to, the metrics show at most as many pending events as are allowed.
  pub get_metrics-pending-le :
      {w : World} → Reachable o w → (get_metrics w.watcher).pending_events ≤ o.max_pending_events
  unfolding get_metrics
  get_metrics-pending-le here = omega arith
  get_metrics-pending-le (next r step) = Step-pending-le step (get_metrics-pending-le r)
