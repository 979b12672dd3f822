-- ===== src/Actors/Examples.antt =====
-- crates/sutegi-actors: the supervisor at concrete inputs.
use sutegi.Base.{◌≡◌, ◌≤◌, refl, true, some, [], ◌∷◌, length, arith}
use sutegi.Actors.Supervisor.{
  Restart, Strategy, ExitReason, Exit, State, Config, Supervisor, SupMsg, handle, handle_exit,
  run_supervisor, position, should_restart, policy, prune, crashed,
}
use sutegi.Actors.Supervisor.Laws.{IsValid, run_supervisor-IsValid}
use sutegi.Actors.Supervisor.Generations.{handle_exit_once}

abbrev config : Config
config = record { strategy = Strategy.one_for_one; max_restarts = 1; window = 5 }

abbrev three : Supervisor
three = record {
  children =
      record { id = 10; restart = Restart.permanent; gen = 1; running = true }
      ∷ record { id = 11; restart = Restart.transient; gen = 1; running = true }
      ∷ record { id = 12; restart = Restart.temporary; gen = 1; running = true }
      ∷ [];
  restarts = [];
  state = State.running;
}

abbrev crash : Exit
crash = record { id = 11; gen = 1; reason = ExitReason.panicked }

run_supervisor-IsValid_example :
    IsValid config (run_supervisor config (SupMsg.exited 3 crash ∷ SupMsg.shutdown ∷ []) three)
run_supervisor-IsValid_example =
    run_supervisor-IsValid config (SupMsg.exited 3 crash ∷ SupMsg.shutdown ∷ []) three
      (record { bounded = λ _. omega arith; quiet = λ down. absurd (down refl) })

crash_found : position crash three.children ≡ some 1
unfolding position
crash_found = refl

crash_restarts : should_restart (policy 1 three.children) crash.reason ≡ true
unfolding should_restart policy crashed
crash_restarts = refl

crash_allowed : length (prune 3 config.window (3 ∷ [])) ≤ config.max_restarts
unfolding prune
crash_allowed = omega arith

handle_exit_once_example :
    handle config
      (SupMsg.exited 9 crash)
      (run_supervisor config [] (handle_exit config 3 crash three))
    ≡ run_supervisor config [] (handle_exit config 3 crash three)
handle_exit_once_example =
    handle_exit_once config [] 3 9 1 crash three
      ((λ e. omega arith), ((λ e. refl), ((λ e. omega arith), tt))) crash_found crash_restarts
      crash_allowed
