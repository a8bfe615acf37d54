-- ===== src/Watcher/Tests.antt =====
-- A watcher at work, and the theorems there.
use vivi.Base.{ℕ, ◌≤◌, ◌≡◌, refl, true, none, some, [], ◌∷◌, codes, ◌==◌, trim, is_space}
use vivi.Base.Strings.{Text}
use vivi.Base.Dict.{lookup, put, erase, has_key}
use vivi.PathPolicy.{is_ignored_path, is_excluded, split_path, join_path}
use vivi.Tree.{file}
use vivi.Watcher.{
  NodeWatcherOptions, queue_event, is_included, emit_current_state, event_from_known_path, start,
  launch, stop, get_metrics, Emission, add,
}
use vivi.Watcher.Steps.{
  World, initial, Reachable, here, next, started, launched, queued, fired, settled, fire, settle,
  get_metrics-pending-le,
}
use vivi.Watcher.Replay.{is_present, IsNumbered, Reachable-IsTold, Reachable-IsNumbered}

runs : Unit {0}
unfolding queue_event is_included emit_current_state event_from_known_path start launch stop
    get_metrics fire settle is_present lookup put erase ◌==◌ is_ignored_path is_excluded split_path
    join_path trim is_space
runs = tt

abbrev options : NodeWatcherOptions
options = record {
  ignored_names = codes ".git" ∷ [];
  include_extensions = some (codes "md" ∷ []);
  exclude_patterns = [];
  debounce_ms = 50;
  max_pending_events = 1;
  recursive_watch_entry_limit = 64;
  extension = λ p. codes ".md";
}

abbrev note : Text
note = codes "a.md"

abbrev cleared_world : World
cleared_world = record initial { watcher = start initial.watcher }

abbrev started_world : World
started_world = record initial { watcher = launch options (some []) cleared_world.watcher }

abbrev after_queue : World → ℕ → World
after_queue w now = record w { watcher = queue_event options now note w.watcher }

abbrev unread : Emission
unread = record { path = note; previous = none }

-- The file is made and removed; the first call waits for `stat` when the second one starts.
abbrev overlapped : World
overlapped = fire note (after_queue (fire note (after_queue started_world 0)) 60)

abbrev settled_world : World
settled_world =
    settle options unread none [] (settle options unread (some file) (unread ∷ []) overlapped)

pending_first : lookup note (after_queue started_world 0).watcher.pending ≡ some 50
unfolding runs
pending_first = refl

pending_second :
    lookup note (after_queue (fire note (after_queue started_world 0)) 60).watcher.pending
    ≡ some 110
unfolding runs
pending_second = refl

waiting_both : overlapped.waiting ≡ unread ∷ unread ∷ []
unfolding runs
waiting_both = refl

waiting_one : (settle options unread (some file) (unread ∷ []) overlapped).waiting ≡ unread ∷ []
unfolding runs
waiting_one = refl

abbrev queued_Reachable : Reachable options (after_queue started_world 0)
queued_Reachable =
    next (next (next here (started initial)) (launched cleared_world (some [])))
      (queued started_world 0 note)

abbrev settled_Reachable : Reachable options settled_world
settled_Reachable =
    next
      (next
        (next
          (next (next queued_Reachable (fired (after_queue started_world 0) note pending_first))
            (queued (fire note (after_queue started_world 0)) 60 note))
          (fired (after_queue (fire note (after_queue started_world 0)) 60) note pending_second))
        (settled overlapped [] (unread ∷ []) unread (some file) waiting_both))
      (settled (settle options unread (some file) (unread ∷ []) overlapped) [] [] unread none
        waiting_one)

-- The call that saw the file gone had read that it was unknown: the path stays known, and no event tells of its end.
stays_known : has_key note settled_world.watcher.known_paths ≡ true
unfolding runs
stays_known = refl

told_once : settled_world.events ≡ add note file 2 ∷ []
unfolding runs
told_once = refl

get_metrics-pending-le_example : (get_metrics settled_world.watcher).pending_events ≤ 1
get_metrics-pending-le_example = get_metrics-pending-le options settled_Reachable

Reachable-IsTold_example :
    has_key note settled_world.watcher.known_paths ≡ is_present note settled_world.events
Reachable-IsTold_example = Reachable-IsTold options settled_Reachable note

Reachable-IsNumbered_example : IsNumbered settled_world.watcher.version settled_world.events
Reachable-IsNumbered_example = Reachable-IsNumbered options settled_Reachable
