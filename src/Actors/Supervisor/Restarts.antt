-- ===== src/Actors/Supervisor/Restarts.antt =====
-- crates/sutegi-actors/src/supervisor.rs: what a restart touches under each strategy.
use sutegi.Base.{ℕ, ◌+◌, ◌≡◌, ◌≤◌, ◌<◌, true, List, map, get_elem?}
use mathlib.Core.Option
use sutegi.Actors.Supervisor.{Strategy, Child, Config, Supervisor}

abbrev pub by : Strategy → ℕ → ℕ → Config
by strategy max_restarts window = record {
  strategy = strategy;
  max_restarts = max_restarts;
  window = window;
}

abbrev pub next_generation : Child → Child
next_generation c = record c { gen = c.gen + 1; running = true }

-- From the `n`-th on, each child is in its next generation and running; the others are as they were.
pub record IsRestarted (n : ℕ) (before after : List Child) : Type 0 where
  pub kept : (i : ℕ) → i < n → get_elem? after i ≡ get_elem? before i
  pub renewed :
      (i : ℕ) → n ≤ i → get_elem? after i ≡ Option.map next_generation (get_elem? before i)
