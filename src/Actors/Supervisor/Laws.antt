-- ===== src/Actors/Supervisor/Laws.antt =====
-- crates/sutegi-actors/src/supervisor.rs: the restart budget.
use sutegi.Base.{
  ℕ, ◌≡◌, ◌≢◌, ◌≤◌, refl, false, not, List, [], ◌∷◌, ◌++◌, ltb, length, All, if_rule, option_rule,
  arith,
}
use sutegi.Actors.Supervisor.{
  Child, should_restart, stop_and_join, stop_all, position, policy, prune, State, Config,
  Supervisor, restart_event, handle_exit, SupMsg, handle, run_supervisor,
}

-- No more restarts in the window than are allowed while it runs, and no thread left once it has ended.
pub record IsValid (cfg : Config) (s : Supervisor) : Type 0 where
  pub bounded : s.state ≡ State.running → length s.restarts ≤ cfg.max_restarts
  pub quiet : s.state ≢ State.running → All (λ c. c.running ≡ false) s.children

stop_all-quiet : (children : List Child) → All (λ c. c.running ≡ false) (stop_all children)
unfolding stop_all stop_and_join
stop_all-quiet [] = tt
stop_all-quiet (c ∷ children) = (refl, stop_all-quiet children)

restart_event-IsValid :
    (cfg : Config) (now idx : ℕ) (s : Supervisor)
    → s.state ≡ State.running
    → IsValid cfg (restart_event cfg now idx s)
unfolding restart_event
restart_event-IsValid cfg now idx s up =
    if_rule (IsValid cfg)
      (ltb cfg.max_restarts (length (prune now cfg.window (s.restarts ++ now ∷ [])))) _ _
      (λ _. record { bounded = λ e. cc; quiet = λ _. stop_all-quiet s.children })
      (λ few. record { bounded = λ _. ground arith; quiet = λ down. absurd (down up) })

handle-IsValid :
    (cfg : Config) (m : SupMsg) (s : Supervisor)
    → s.state ≡ State.running
    → IsValid cfg s
    → IsValid cfg (handle cfg m s)
unfolding handle handle_exit
handle-IsValid cfg SupMsg.shutdown s up v = record {
  bounded = λ e. cc;
  quiet = λ _. stop_all-quiet s.children;
}
handle-IsValid cfg (SupMsg.exited now exit) s up v =
    option_rule (IsValid cfg) (position exit s.children) _ _ (λ _. v)
      (λ idx _.
        if_rule (IsValid cfg) (not (should_restart (policy idx s.children) exit.reason)) _ _
          (λ _. record { bounded = v.bounded; quiet = λ down. absurd (down up) })
          (λ _. restart_event-IsValid cfg now idx _ up))

pub state_rule :
    (P : Supervisor → Type 0) (st : State) (x y : Supervisor)
    → (st ≡ State.running → P x)
    → P y
    → P (elim st [ State.running ↦ x | State.failed ↦ y | State.shut_down ↦ y ])
state_rule P State.running x y p q = p refl
state_rule P State.failed x y p q = q
state_rule P State.shut_down x y p q = q

-- Whatever exits and shutdowns arrive, in whatever order: while the supervisor runs, at most `max_restarts`
-- restarts are in its window, and once it has failed or shut down, none of its children runs,
-- if both hold at first.
pub run_supervisor-IsValid :
    (cfg : Config) (messages : List SupMsg) (s : Supervisor)
    → IsValid cfg s
    → IsValid cfg (run_supervisor cfg messages s)
unfolding run_supervisor
run_supervisor-IsValid cfg [] s v = v
run_supervisor-IsValid cfg (m ∷ messages) s v =
    state_rule (IsValid cfg) s.state _ _
      (λ up. run_supervisor-IsValid cfg messages (handle cfg m s) (handle-IsValid cfg m s up v)) v
