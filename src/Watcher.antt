-- ===== src/Watcher.antt =====
-- server/typescript/infrastructure/node-watcher.ts: the watcher's state and what its methods and timers do to it.
-- Node's `stat` and `readdir` answer what the environment chooses; `path.extname` with `toLowerCase` is a parameter.
pub mod Steps
pub mod Replay
mod Tests
use vivi.Base.{
  ℕ, ◌+◌, Bool, true, false, not, ◌&&◌, ◌||◌, Option, none, some, List, [], ◌∷◌, is_some, contains,
  filter, length, leb, eqb, if◌then◌else◌,
}
use vivi.Base.Strings.{Text}
use vivi.Base.Dict.{Dict, lookup, put, erase}
use vivi.PathPolicy.{PatternSegment, is_ignored_path, is_excluded}
use vivi.Tree.{NodeKind, file}

pub data FsEvent : Type 0 where
  add : Text → NodeKind → ℕ → FsEvent
  change : Text → ℕ → FsEvent
  unlink : Text → NodeKind → ℕ → FsEvent

-- `undefined` or an empty set of extensions includes every file; `extension` stands for Node's
-- `path.extname(p).toLowerCase()`.
pub record NodeWatcherOptions : Type 0 where
  pub ignored_names : List Text
  pub include_extensions : Option (List Text)
  pub exclude_patterns : List (List PatternSegment)
  pub debounce_ms : ℕ
  pub max_pending_events : ℕ
  pub recursive_watch_entry_limit : ℕ
  pub extension : Text → Text

-- A pending timer is the time at which it fires.
pub record NodeWatcher : Type 0 where
  pub version : ℕ
  pub known_paths : Dict NodeKind
  pub pending : Dict ℕ
  pub emitted_events : ℕ
  pub dropped_events : ℕ
  pub worker_running : Bool
  pub recursive_watch : Option Bool

unfoldable pub event_from_known_path : Text → Option NodeKind → Option NodeKind → ℕ → Option FsEvent
event_from_known_path path none none version = none
event_from_known_path path (some k) none version = some (unlink path k version)
event_from_known_path path none (some k) version = some (add path k version)
event_from_known_path path (some j) (some k) version = some (change path version)

-- The fields as the class initialises them.
abbrev pub new_watcher : NodeWatcher
new_watcher = record {
  version = 1;
  known_paths = [];
  pending = [];
  emitted_events = 0;
  dropped_events = 0;
  worker_running = false;
  recursive_watch = none;
}

-- `.replace(/^\./, "")`
abbrev pub without_dot : Text → Text
without_dot [] = []
without_dot (c ∷ s) = if eqb c 46 then s else c ∷ s

unfoldable pub is_included : NodeWatcherOptions → Text → Bool
is_included o path = elim o.include_extensions [
  | none ↦ true
  | some [] ↦ true
  | some (e ∷ es) ↦ contains (e ∷ es) (without_dot (o.extension path))
]

abbrev pub is_outside : NodeWatcherOptions → Text → Bool
is_outside o path = is_ignored_path o.ignored_names path || is_excluded o.exclude_patterns path

-- The worker reports a path at time `now`.
unfoldable pub queue_event : NodeWatcherOptions → ℕ → Text → NodeWatcher → NodeWatcher
queue_event o now path w =
    if is_outside o path
    then w
    else if not (is_some (lookup path w.pending)) && leb o.max_pending_events (length w.pending)
    then record w { dropped_events = w.dropped_events + 1 }
    else record w { pending = put path (now + o.debounce_ms) w.pending }

-- Whether the names of the root, or the failure to read them, let one watch be recursive.
unfoldable pub should_use_recursive_watch : NodeWatcherOptions → Option (List Text) → Bool
should_use_recursive_watch o none = false
should_use_recursive_watch o (some names) =
    leb (length (filter visible names)) o.recursive_watch_entry_limit
  where
    visible : Text → Bool
    visible name = not (contains o.ignored_names name) && not (is_excluded o.exclude_patterns name)

-- `start` up to where it waits for the names of the root, and after that.
unfoldable pub start : NodeWatcher → NodeWatcher
start w = record w { known_paths = [] }

unfoldable pub launch : NodeWatcherOptions → Option (List Text) → NodeWatcher → NodeWatcher
launch o entries w = record w {
  recursive_watch = some (should_use_recursive_watch o entries);
  worker_running = true;
}

-- The worker fails or exits.
unfoldable pub lose_worker : NodeWatcher → NodeWatcher
lose_worker w = record w { worker_running = false }

unfoldable pub stop : NodeWatcher → NodeWatcher
stop w = record w { pending = []; worker_running = false; recursive_watch = none }

-- A call of `emitCurrentState` that waits for `stat`: its path and the kind it has read from `knownPaths`.
pub record Emission : Type 0 where
  pub path : Text
  pub previous : Option NodeKind

abbrev pub is_file : Option NodeKind → Bool
is_file (some file) = true
is_file _ = false

-- The known paths and the version of the event are stored, and the event is counted.
abbrev pub counted : Dict NodeKind → NodeWatcher → Option FsEvent → NodeWatcher × Option FsEvent
counted known w none = (record w { known_paths = known; version = w.version + 1 }, none)
counted known w (some event) = (
  record w { known_paths = known; version = w.version + 1; emitted_events = w.emitted_events + 1 },
  some event,
)

-- `emitCurrentState` after its guard, for the kind that `stat` saw and the kind read before.
abbrev pub emit_kind :
    Text → Option NodeKind → Option NodeKind → NodeWatcher → NodeWatcher × Option FsEvent
unfolding event_from_known_path
emit_kind path none none w = (w, none)
emit_kind path none (some k) w =
    counted (erase path w.known_paths) w (event_from_known_path path (some k) none (w.version + 1))
emit_kind path (some k) previous w =
    counted (put path k w.known_paths) w
      (event_from_known_path path previous (some k) (w.version + 1))

-- What `emitCurrentState` does once `stat` has answered: the new state, and the event for `onEvent`.
unfoldable pub emit_current_state :
    NodeWatcherOptions → Emission → Option NodeKind → NodeWatcher → NodeWatcher × Option FsEvent
emit_current_state o e kind w =
    if is_file kind && not (is_included o e.path)
    then (w, none)
    else emit_kind e.path kind e.previous w

pub record NodeWatcherMetrics : Type 0 where
  pub known_paths : ℕ
  pub pending_events : ℕ
  pub emitted_events : ℕ
  pub dropped_events : ℕ
  pub worker_running : Bool
  pub recursive_watch : Option Bool

unfoldable pub get_metrics : NodeWatcher → NodeWatcherMetrics
get_metrics w = record {
  known_paths = length w.known_paths;
  pending_events = length w.pending;
  emitted_events = w.emitted_events;
  dropped_events = w.dropped_events;
  worker_running = w.worker_running;
  recursive_watch = w.recursive_watch;
}
