-- ===== src/Watcher/Replay.antt =====
-- server/typescript/infrastructure/node-watcher.ts: what a client that follows the events knows, whatever the order in
-- which the calls of `stat` answer.
use vivi.Base.{
  ℕ, zero, suc, ◌+◌, ◌≡◌, refl, Bool, true, false, List, [], ◌∷◌, ◌==◌, arith, if◌then◌else◌,
}
use vivi.Base.Strings.{Text}
use vivi.Base.Dict.{Dict, lookup, put, erase, has_key, lookup-put, lookup-erase}
use vivi.Tree.{NodeKind}
use vivi.Watcher.{
  NodeWatcherOptions, NodeWatcher, FsEvent, add, change, unlink, start, launch, lose_worker, stop,
  queue_event,
}
use vivi.Watcher.Steps.{
  World, Step, started, launched, lost, queued, fired, settled, stopped, Reachable, here, next,
  fire, settle, emit_current_state-cases, reported,
}

-- Whether a path is there for a client that has seen the events, the latest first.
unfoldable pub is_present : Text → List FsEvent → Bool
is_present p [] = false
is_present p (add q k v ∷ es) = if q == p then true else is_present p es
is_present p (change q v ∷ es) = if q == p then true else is_present p es
is_present p (unlink q k v ∷ es) = if q == p then false else is_present p es

abbrev pub version_of : FsEvent → ℕ
version_of (add q k v) = v
version_of (change q v) = v
version_of (unlink q k v) = v

-- The versions of the events go up by one, to the given one.
abbrev pub IsNumbered : ℕ → List FsEvent → Type 0
IsNumbered v [] = Unit
IsNumbered zero (e ∷ es) = ⊥
IsNumbered (suc v) (e ∷ es) = (version_of e ≡ suc v) × IsNumbered v es

-- The known paths are those that the events tell of.
abbrev pub IsTold : Dict NodeKind → List FsEvent → Type 0
IsTold known events = (p : Text) → has_key p known ≡ is_present p events

IsTold-put :
    (path : Text) (k : NodeKind) (known : Dict NodeKind) (events : List FsEvent) (p : Text)
    → has_key p known ≡ is_present p events
    → has_key p (put path k known) ≡ (if path == p then true else is_present p events)
IsTold-put path k known events p h = ground (arith, lookup-put p path k known)

IsTold-erase :
    (path : Text) (known : Dict NodeKind) (events : List FsEvent) (p : Text)
    → has_key p known ≡ is_present p events
    → has_key p (erase path known) ≡ (if path == p then false else is_present p events)
IsTold-erase path known events p h = ground (arith, lookup-erase p path known)

module _ (o : NodeWatcherOptions) where
  Step-IsTold :
      {w v : World}
      → Step o w v
      → IsTold w.watcher.known_paths w.events
      → IsTold v.watcher.known_paths v.events
  unfolding start launch lose_worker stop fire settle queue_event lookup is_present
  Step-IsTold (started w) h p = refl
  Step-IsTold (launched w entries) h p = h p
  Step-IsTold (lost w) h p = h p
  Step-IsTold (queued w now path) h p = ground (arith, h p)
  Step-IsTold (fired w path d) h p = h p
  Step-IsTold (settled w before after e kind d) h p =
      emit_current_state-cases
        (λ v event. has_key p v.known_paths ≡ is_present p (reported event w.events)) o e kind
        w.watcher (h p) (λ k. IsTold-erase e.path w.watcher.known_paths w.events p (h p))
        (λ k. IsTold-put e.path k w.watcher.known_paths w.events p (h p))
        (λ k. IsTold-put e.path k w.watcher.known_paths w.events p (h p))
  Step-IsTold (stopped w) h p = h p

  -- In every state that a watcher can come to, however the waiting calls overlap, a path is among the known ones exactly
  -- if it is there for a client that has followed the events since the last start.
  pub Reachable-IsTold :
      {w : World}
      → Reachable o w
      → (p : Text) → has_key p w.watcher.known_paths ≡ is_present p w.events
  unfolding lookup is_present
  Reachable-IsTold here p = refl
  Reachable-IsTold (next r step) p = Step-IsTold step (Reachable-IsTold r) p

  IsNumbered-next :
      (v : ℕ) (e : FsEvent) (es : List FsEvent)
      → version_of e ≡ v + 1
      → IsNumbered v es
      → IsNumbered (v + 1) (e ∷ es)
  IsNumbered-next v e es h k = rw next_number (rw next_number at h, k)
    where
      next_number : v + 1 ≡ suc v
      next_number = omega arith

  version-queue_event :
      (now : ℕ) (path : Text) (w : NodeWatcher) → (queue_event o now path w).version ≡ w.version
  unfolding queue_event
  version-queue_event now path w = ground arith

  Step-IsNumbered :
      {w v : World}
      → Step o w v
      → IsNumbered w.watcher.version w.events
      → IsNumbered v.watcher.version v.events
  unfolding start launch lose_worker stop fire settle queue_event
  Step-IsNumbered (started w) h = tt
  Step-IsNumbered (launched w entries) h = h
  Step-IsNumbered (lost w) h = h
  Step-IsNumbered (queued w now path) h = rw (version-queue_event now path w.watcher) h
  Step-IsNumbered (fired w path d) h = h
  Step-IsNumbered (settled w before after e kind d) h =
      emit_current_state-cases (λ v event. IsNumbered v.version (reported event w.events)) o e kind
        w.watcher h
        (λ k. IsNumbered-next _ (unlink e.path k (w.watcher.version + 1)) w.events refl h)
        (λ k. IsNumbered-next _ (add e.path k (w.watcher.version + 1)) w.events refl h)
        (λ k. IsNumbered-next _ (change e.path (w.watcher.version + 1)) w.events refl h)
  Step-IsNumbered (stopped w) h = h

  -- In every state that a watcher can come to, the events passed on since the last start have versions that go up by one,
  -- without a gap, to the watcher's version.
  pub Reachable-IsNumbered : {w : World} → Reachable o w → IsNumbered w.watcher.version w.events
  Reachable-IsNumbered here = tt
  Reachable-IsNumbered (next r step) = Step-IsNumbered step (Reachable-IsNumbered r)
