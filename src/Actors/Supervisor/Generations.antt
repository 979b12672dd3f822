-- ===== src/Actors/Supervisor/Generations.antt =====
-- crates/sutegi-actors/src/supervisor.rs: exits of earlier generations.
use sutegi.Base.{
  ℕ, zero, suc, ◌≡◌, ◌≤◌, ◌<◌, refl, true, not, none, some, List, [], ◌∷◌, ◌++◌, map, ltb, length,
  All, if_rule, option_rule, arith,
}
use sutegi.Actors.Supervisor.Laws.{state_rule}
use sutegi.Actors.Supervisor.{
  Strategy, Exit, Child, should_restart, start, stop_and_join, stop_all, position, update, policy,
  prune, range_start, restart_from, Config, Supervisor, restart_event, handle_exit, SupMsg, handle,
  run_supervisor,
}

-- An exit is stale where the children of its id are of later generations.
abbrev pub IsStale : Exit → List Child → Type 0
IsStale exit children = All (λ c. c.id ≡ exit.id → exit.gen < c.gen) children

position_stale :
    (exit : Exit) (children : List Child) → IsStale exit children → position exit children ≡ none
unfolding position
position_stale exit [] h = refl
position_stale exit (c ∷ children) (p, h) = rw (position_stale exit children h) (ground arith)

handle_stale :
    (cfg : Config) (now : ℕ) (exit : Exit) (s : Supervisor)
    → IsStale exit s.children
    → handle cfg (SupMsg.exited now exit) s ≡ s
unfolding handle handle_exit
handle_stale cfg now exit s h =
    let gone = position_stale exit s.children h in
    option_rule (λ (r : Supervisor). r ≡ s) (position exit s.children) _ _ (λ _. refl) (λ idx e. cc)

-- A change of the children that keeps ids and never takes a generation back.
abbrev Later : (Child → Child) → Type 0
Later f = (c : Child) → ((f c).id ≡ c.id) × (c.gen ≤ (f c).gen)

stop-Later : Later stop_and_join
unfolding stop_and_join
stop-Later c = (refl, omega arith)

restart-Later : Later (λ c. start (stop_and_join c))
unfolding stop_and_join start
restart-Later c = (refl, omega arith)

Later-IsStale :
    (f : Child → Child) (exit : Exit) (c : Child)
    → Later f
    → (c.id ≡ exit.id → exit.gen < c.gen)
    → (f c).id ≡ exit.id
    → exit.gen < (f c).gen
Later-IsStale f exit c l h e =
    let (same, grown) = l c in let old = h (ground (arith, e)) in omega arith

map-IsStale :
    (f : Child → Child) (exit : Exit) (children : List Child)
    → Later f
    → IsStale exit children
    → IsStale exit (map f children)
map-IsStale f exit [] l h = tt
map-IsStale f exit (c ∷ children) l (p, h) =
    (Later-IsStale f exit c l p, map-IsStale f exit children l h)

update-IsStale :
    (f : Child → Child) (exit : Exit) (i : ℕ) (children : List Child)
    → Later f
    → IsStale exit children
    → IsStale exit (update f i children)
unfolding update
update-IsStale f exit i [] l h = tt
update-IsStale f exit zero (c ∷ children) l (p, h) = (Later-IsStale f exit c l p, h)
update-IsStale f exit (suc i) (c ∷ children) l (p, h) = (p, update-IsStale f exit i children l h)

restart_from-IsStale :
    (n : ℕ) (exit : Exit) (children : List Child)
    → IsStale exit children
    → IsStale exit (restart_from n children)
unfolding restart_from
restart_from-IsStale zero exit children h = map-IsStale _ exit children restart-Later h
restart_from-IsStale (suc n) exit [] h = tt
restart_from-IsStale (suc n) exit (c ∷ children) (p, h) =
    (p, restart_from-IsStale n exit children h)

handle-IsStale :
    (cfg : Config) (m : SupMsg) (exit : Exit) (s : Supervisor)
    → IsStale exit s.children
    → IsStale exit (handle cfg m s).children
unfolding handle handle_exit restart_event stop_all
handle-IsStale cfg SupMsg.shutdown exit s h = map-IsStale stop_and_join exit s.children stop-Later h
handle-IsStale cfg (SupMsg.exited now e) exit s h =
    option_rule (λ (r : Supervisor). IsStale exit r.children) (position e s.children) _ _ (λ _. h)
      (λ idx _.
        let reaped = update-IsStale stop_and_join exit idx s.children stop-Later h in
        if_rule (λ (r : Supervisor). IsStale exit r.children)
          (not (should_restart (policy idx s.children) e.reason)) _ _ (λ _. reaped)
          (λ _.
            if_rule (λ (r : Supervisor). IsStale exit r.children) (ltb cfg.max_restarts _) _ _
              (λ _. map-IsStale stop_and_join exit _ stop-Later reaped)
              (λ _. restart_from-IsStale _ exit _ reaped)))

run_supervisor-IsStale :
    (cfg : Config) (messages : List SupMsg) (exit : Exit) (s : Supervisor)
    → IsStale exit s.children
    → IsStale exit (run_supervisor cfg messages s).children
unfolding run_supervisor
run_supervisor-IsStale cfg [] exit s h = h
run_supervisor-IsStale cfg (m ∷ messages) exit s h =
    state_rule (λ r. IsStale exit r.children) s.state _ _
      (λ _.
        run_supervisor-IsStale cfg messages exit (handle cfg m s) (handle-IsStale cfg m exit s h))
      h

-- Every child with the exit's id is in the exit's generation.
abbrev pub IsCurrent : Exit → List Child → Type 0
IsCurrent exit children = All (λ c. c.id ≡ exit.id → c.gen ≡ exit.gen) children

update_stop-IsCurrent :
    (exit : Exit) (i : ℕ) (children : List Child)
    → IsCurrent exit children
    → IsCurrent exit (update stop_and_join i children)
unfolding update stop_and_join
update_stop-IsCurrent exit i [] h = tt
update_stop-IsCurrent exit zero (c ∷ children) h = h
update_stop-IsCurrent exit (suc i) (c ∷ children) (p, h) =
    (p, update_stop-IsCurrent exit i children h)

restart-IsStale :
    (exit : Exit) (children : List Child)
    → IsCurrent exit children
    → IsStale exit (map (λ c. start (stop_and_join c)) children)
unfolding start stop_and_join
restart-IsStale exit [] h = tt
restart-IsStale exit (c ∷ children) (p, h) =
    ((λ e. let g = p e in omega arith), restart-IsStale exit children h)

position_later :
    (exit : Exit) (c : Child) (children : List Child) (i : ℕ)
    → position exit (c ∷ children) ≡ some (suc i)
    → (¬ ((c.id ≡ exit.id) × (c.gen ≡ exit.gen))) × (position exit children ≡ some i)
unfolding position
position_later exit c children i e = ((λ (a, b). ground (arith, a, b)), ground arith)

-- A restart from the exited child, or from before it, makes the exit stale.
restart_from-fresh :
    (exit : Exit) (n idx : ℕ) (children : List Child)
    → n ≤ idx
    → position exit children ≡ some idx
    → IsCurrent exit children
    → IsStale exit (restart_from n (update stop_and_join idx children))
unfolding restart_from update
restart_from-fresh exit zero idx children le e h =
    restart-IsStale exit _ (update_stop-IsCurrent exit idx children h)
restart_from-fresh exit (suc n) zero children le e h =
    absurd (let none_below : ⊥ = omega arith in none_below)
restart_from-fresh exit (suc n) (suc idx) [] le e h = unfold position in cc
restart_from-fresh exit (suc n) (suc idx) (c ∷ children) le e (p, h) =
    let (other, found) = position_later exit c children idx e in
    (
      (λ same. absurd (other (same, p same))),
      restart_from-fresh exit n idx children (omega arith) found h,
    )

pub range_start_le : (strategy : Strategy) (idx : ℕ) → range_start strategy idx ≤ idx
unfolding range_start
range_start_le Strategy.one_for_one idx = omega arith
range_start_le Strategy.rest_for_one idx = omega arith
range_start_le Strategy.one_for_all idx = omega arith

-- The exit of a child, where every child with its id is in the exit's generation, after which the child is
-- restarted by its policy and within the budget: the
-- same exit delivered again, after any other messages, changes nothing.
pub handle_exit_once :
    (cfg : Config) (messages : List SupMsg) (now again idx : ℕ) (exit : Exit) (s : Supervisor)
    → IsCurrent exit s.children
    → position exit s.children ≡ some idx
    → should_restart (policy idx s.children) exit.reason ≡ true
    → length (prune now cfg.window (s.restarts ++ now ∷ [])) ≤ cfg.max_restarts
    → handle cfg
        (SupMsg.exited again exit)
        (run_supervisor cfg messages (handle_exit cfg now exit s))
      ≡ run_supervisor cfg messages (handle_exit cfg now exit s)
unfolding handle_exit restart_event
handle_exit_once cfg messages now again idx exit s current found wanted few =
    let P : Supervisor → Type 0 = λ r. IsStale exit r.children in
    let stale : P (handle_exit cfg now exit s) =
      option_rule P (position exit s.children) _ _ (λ lost. cc)
        (λ i e.
          let same : i ≡ idx = cc in
          if_rule P (not (should_restart (policy i s.children) exit.reason)) _ _
            (λ unwanted.
              let kept : should_restart (policy i s.children) exit.reason ≡ true = rw same wanted in
              let wrong : ⊥ = ground (arith, kept) in absurd wrong)
            (λ _.
              if_rule P
                (ltb cfg.max_restarts (length (prune now cfg.window (s.restarts ++ now ∷ [])))) _ _
                (λ over. let wrong : ⊥ = ground arith in absurd wrong)
                (λ _.
                  restart_from-fresh exit (range_start cfg.strategy i) i s.children
                    (range_start_le cfg.strategy i) e current))) in
    handle_stale cfg again exit _
      (run_supervisor-IsStale cfg messages exit (handle_exit cfg now exit s) stale)
