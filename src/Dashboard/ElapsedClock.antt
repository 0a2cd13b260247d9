-- ===== src/Dashboard/ElapsedClock.antt =====
-- apps/web/src/lib/elapsedClock.ts: the one clock that every elapsed label reads. The browser is part of the
-- state: whether the tab is hidden, and the intervals that run.
use webhook_broadcast.Base.{
  ℕ, ◌+◌, ◌≡◌, refl, arith, Bool, true, false, not, ◌&&◌, Option, none, some, List, [], ◌∷◌, ◌++◌,
  ◌==◌, ==_refl, any, filter, if◌then◌else◌,
}

pub record Clock : Type 0 where
  listeners : List ℕ
  now : ℕ
  -- `intervalId`
  interval_id : Option ℕ
  -- `document.visibilityState === "hidden"`
  hidden : Bool
  -- the intervals that are set and not cleared, and the id of the next
  pub running : List ℕ
  next_id : ℕ
  -- whom `tick` has called, the latest last
  notified : List ℕ

-- As the module loads.
abbrev pub loaded : ℕ → Bool → Clock
loaded time hidden = record {
  listeners = [];
  now = time;
  interval_id = none;
  hidden = hidden;
  running = [];
  next_id = 1;
  notified = [];
}

tick : ℕ → Clock → Clock
tick time c = record c { now = time; notified = c.notified ++ c.listeners }

abbrev set_interval : Clock → Clock
set_interval c = record c {
  interval_id = some c.next_id;
  running = c.running ++ c.next_id ∷ [];
  next_id = c.next_id + 1;
}

start_from : Option ℕ → Clock → Clock
start_from (some id) c = c
start_from none c = if c.hidden then c else set_interval c

start_ticking : Clock → Clock
unfolding start_from
start_ticking c = start_from c.interval_id c

stop_from : Option ℕ → Clock → Clock
stop_from none c = c
stop_from (some id) c = record c {
  running = filter (λ r. not (r == id)) c.running;
  interval_id = none;
}

stop_ticking : Clock → Clock
unfolding stop_from
stop_ticking c = stop_from c.interval_id c

-- `Set.add`
abbrev add : ℕ → List ℕ → List ℕ
add listener ls = if any (◌==◌ listener) ls then ls else ls ++ listener ∷ []

abbrev resync : List ℕ → ℕ → Clock → Clock
resync [] time c = record c { now = time }
resync (l ∷ ls) time c = c

subscribe : ℕ → ℕ → Clock → Clock
unfolding start_ticking
subscribe listener time c =
    let c = resync c.listeners time c in
    start_ticking record c { listeners = add listener c.listeners }

abbrev stop_if_none : List ℕ → Clock → Clock
stop_if_none [] c = stop_ticking c
stop_if_none (l ∷ ls) c = c

unsubscribe : ℕ → Clock → Clock
unsubscribe listener c =
    let left = filter (λ l. not (l == listener)) c.listeners in
    stop_if_none left record c { listeners = left }

visibility_change : Bool → ℕ → Clock → Clock
unfolding start_ticking stop_ticking tick
visibility_change true time c = stop_ticking record c { hidden = true }
visibility_change false time c = start_ticking (tick time record c { hidden = false })

pub data Event : Type 0 where
  subscribes : (listener time : ℕ) → Event
  unsubscribes : (listener : ℕ) → Event
  visibility_changes : (hidden : Bool) (time : ℕ) → Event
  -- an interval fires
  fires : (time : ℕ) → Event

handle : Event → Clock → Clock
unfolding subscribe unsubscribe visibility_change tick
handle (subscribes listener time) c = subscribe listener time c
handle (unsubscribes listener) c = unsubscribe listener c
handle (visibility_changes hidden time) c = visibility_change hidden time c
handle (fires time) c = tick time c

unfoldable pub handle_all : List Event → Clock → Clock
unfolding handle
handle_all [] c = c
handle_all (e ∷ es) c = handle_all es (handle e c)

-- The interval that runs is the one whose id is kept.
abbrev runs_one : Option ℕ → List ℕ → Bool
runs_one none [] = true
runs_one (some id) (r ∷ []) = r == id
runs_one _ _ = false

-- A clock that shows labels in a visible tab ticks, one in a hidden tab does not.
abbrev ticks_in_view : Option ℕ → Bool → List ℕ → Bool
ticks_in_view none hidden [] = true
ticks_in_view none hidden (l ∷ ls) = hidden
ticks_in_view (some id) hidden ls = not hidden

unfoldable pub is_well_timed : Clock → Bool
is_well_timed c =
    runs_one c.interval_id c.running && ticks_in_view c.interval_id c.hidden c.listeners

handle-is_well_timed :
    (e : Event) (c : Clock) → is_well_timed c ≡ true → is_well_timed (handle e c) ≡ true
unfolding handle is_well_timed start_ticking stop_ticking
handle-is_well_timed (subscribes listener time) c h = ground (arith, ==_refl c.next_id)
handle-is_well_timed (unsubscribes listener) c h = ground (arith)
handle-is_well_timed (visibility_changes true time) c h = ground (arith)
handle-is_well_timed (visibility_changes false time) c h = ground (arith, ==_refl c.next_id)
handle-is_well_timed (fires time) c h = ground (arith)

handle_all-is_well_timed :
    (es : List Event) (c : Clock) → is_well_timed c ≡ true → is_well_timed (handle_all es c) ≡ true
unfolding handle_all
handle_all-is_well_timed [] c h = h
handle_all-is_well_timed (e ∷ es) c h =
    handle_all-is_well_timed es (handle e c) (handle-is_well_timed e c h)

-- However labels come and go, the tab is hidden and shown, and the intervals fire, the interval that runs is
-- the one whose id is kept and there is no other; none runs in a hidden tab, and one runs in a visible tab
-- that shows a label.
pub elapsed_clock-is_well_timed :
    (time : ℕ) (hidden : Bool) (es : List Event)
    → is_well_timed (handle_all es (loaded time hidden)) ≡ true
unfolding is_well_timed
elapsed_clock-is_well_timed time hidden es = handle_all-is_well_timed es (loaded time hidden) refl
