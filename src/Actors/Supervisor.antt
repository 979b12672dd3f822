-- ===== src/Actors/Supervisor.antt =====
-- crates/sutegi-actors/src/supervisor.rs: the supervisor's loop. A child's thread, mailbox sender and stop
-- function are set and cleared together and stand as `running`; an instant is a number of the clock.
pub mod Laws
pub mod Generations
pub mod Restarts
use sutegi.Base.{
  ℕ, zero, suc, ◌+◌, ◌-◌, Bool, true, false, not, ◌&&◌, Option, none, some, List, [], ◌∷◌, ◌++◌,
  map, ltb, ◌==◌, if◌then◌else◌, length, take, drop,
}

pub data Restart : Type 0 where
  permanent transient temporary : Restart

pub data Strategy : Type 0 where
  one_for_one rest_for_one one_for_all : Strategy

pub data ExitReason : Type 0 where
  stopped panicked : ExitReason

pub record Exit : Type 0 where
  pub id : ℕ
  pub gen : ℕ
  pub reason : ExitReason

pub record Child : Type 0 where
  pub id : ℕ
  pub restart : Restart
  pub gen : ℕ
  pub running : Bool

-- `ExitReason::crashed`.
unfoldable pub crashed : ExitReason → Bool
crashed stopped = false
crashed panicked = true

unfoldable pub should_restart : Restart → ExitReason → Bool
should_restart permanent reason = true
should_restart transient reason = crashed reason
should_restart temporary reason = false

-- `Child::start`; the 64-bit generation does not come round.
unfoldable pub start : Child → Child
start c = record c { gen = c.gen + 1; running = true }

unfoldable pub stop_and_join : Child → Child
stop_and_join c = record c { running = false }

unfoldable pub stop_all : List Child → List Child
stop_all children = map stop_and_join children

-- `position`: the child that the exit is about, in this generation.
unfoldable pub position : Exit → List Child → Option ℕ
position exit [] = none
position exit (c ∷ children) =
    let later = position exit children in
    if c.id == exit.id && (c.gen == exit.gen)
    then some 0
    else elim later [ none ↦ none | some i ↦ some (suc i) ]

unfoldable pub update : (Child → Child) → ℕ → List Child → List Child
update f i [] = []
update f zero (c ∷ children) = f c ∷ children
update f (suc i) (c ∷ children) = c ∷ update f i children

unfoldable pub policy : ℕ → List Child → Restart
policy i [] = temporary
policy zero (c ∷ children) = c.restart
policy (suc i) (c ∷ children) = policy i children

-- The restarts of the window: the older ones are taken off the front.
unfoldable pub prune : ℕ → ℕ → List ℕ → List ℕ
prune now window [] = []
prune now window (t ∷ ts) =
    let later = prune now window ts in if ltb window (now - t) then later else t ∷ ts

-- The start of the range of the strategy; its end is not looked at.
unfoldable pub range_start : Strategy → ℕ → ℕ
range_start one_for_one idx = idx
range_start rest_for_one idx = idx
range_start one_for_all idx = 0

-- What is stopped and started again: `skip(start)` of the children, those without a thread only started.
unfoldable pub restart_from : ℕ → List Child → List Child
restart_from n children = take n children ++ map (λ c. start (stop_and_join c)) (drop n children)

pub data State : Type 0 where
  running failed : State
  shut_down : State

pub record Config : Type 0 where
  pub strategy : Strategy
  pub max_restarts : ℕ
  pub window : ℕ

pub record Supervisor : Type 0 where
  pub children : List Child
  pub restarts : List ℕ
  pub state : State

-- The intensity test, and the restart.
unfoldable pub restart_event : Config → ℕ → ℕ → Supervisor → Supervisor
restart_event cfg now idx s =
    let recent = prune now cfg.window (s.restarts ++ now ∷ []) in
    if ltb cfg.max_restarts (length recent)
    then record { children = stop_all s.children; restarts = recent; state = failed }
    else record {
      children = restart_from (range_start cfg.strategy idx) s.children;
      restarts = recent;
      state = s.state;
    }

-- `SupMsg::Exit` and `SupMsg::Shutdown`.
unfoldable pub handle_exit : Config → ℕ → Exit → Supervisor → Supervisor
handle_exit cfg now exit s = elim (position exit s.children) [
  | none ↦ s
  | some idx ↦
      let reaped = record s { children = update stop_and_join idx s.children } in
      if not (should_restart (policy idx s.children) exit.reason)
      then reaped
      else restart_event cfg now idx reaped
]

pub data SupMsg : Type 0 where
  shutdown : SupMsg
  exited : ℕ → Exit → SupMsg

unfoldable pub handle : Config → SupMsg → Supervisor → Supervisor
handle cfg shutdown s = record s { children = stop_all s.children; state = shut_down }
handle cfg (exited now exit) s = handle_exit cfg now exit s

-- The loop reads messages as long as the supervisor runs.
unfoldable pub run_supervisor : Config → List SupMsg → Supervisor → Supervisor
run_supervisor cfg [] s = s
run_supervisor cfg (m ∷ ms) s =
    let next = run_supervisor cfg ms (handle cfg m s) in
    elim s.state [ running ↦ next | failed ↦ s | shut_down ↦ s ]
