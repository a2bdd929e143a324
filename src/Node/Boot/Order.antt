-- ===== src/Node/Boot/Order.antt =====
-- The order in which `main` starts the node's modules, and what it returns when one fails.
use cellframe_node.Prelude.{
  ◌≡◌, refl, ◌≢◌, ◌⊎◌, inl, inr, Bool, true, false, ◌&&◌, ◌||◌, not, ◌==◌, Option, none, some, List,
  [], ◌∷◌, ◌++◌, map, arith, All, subst, ap, sym, ◌∙◌, ℤ, is_zero, String,
}
use cellframe_node.Process.{Outcome, ret, exit_status}
use cellframe_node.Node.Boot.{run_steps, boot, loop_and_stop, times_ten}
use cellframe_node.Node.Boot.Checks.{checks, endings, endings-append, endings-plan}
use cellframe_node.Node.Boot.Steps.{Passes, event_of, FirstFailure, RunOutcome, run_steps-outcome}
use cellframe_node.Node.Boot.Plan.{
  Node, Module, Step, Event, fatal, warn, effect, looped, stopped, plugins_stopped, plan, stops,
  when, base_plan, stream_plan, chain_plan, service_plan, plugin_plan, load_plan, server_plan,
  last_plan, listen_plan, plugins_on, module_init,
}

-- What a step of the start may be: its failure shows in the exit status, and it stops nothing.
abbrev starts : Event → Bool
starts (stopped _) = false
starts (looped _) = false
starts plugins_stopped = false
starts _ = true

abbrev good : Step → Bool
good (fatal m c) = not (exit_status c == 0)
good (warn m) = true
good (effect e) = starts e

abbrev all_good : List Step → Bool
all_good [] = true
all_good (s ∷ steps) = good s && all_good steps

all_good-append :
    (xs ys : List Step) → all_good xs ≡ true → all_good ys ≡ true → all_good (xs ++ ys) ≡ true
all_good-append [] ys hx hy = hy
all_good-append (x ∷ xs) ys hx hy = ground (arith, all_good-append xs ys)

all_good_eq-append : (xs ys : List Step) → all_good (xs ++ ys) ≡ (all_good xs && all_good ys)
all_good_eq-append [] ys = refl
all_good_eq-append (x ∷ xs) ys = ground (arith, all_good_eq-append xs ys)

all_good_eq-when : (b : Bool) (xs : List Step) → all_good (when b xs) ≡ (not b || all_good xs)
all_good_eq-when true xs = refl
all_good_eq-when false xs = refl

or_true : (b : Bool) → (b || true) ≡ true
or_true true = refl
or_true false = refl

all_good-when : (b : Bool) (xs : List Step) → all_good xs ≡ true → all_good (when b xs) ≡ true
all_good-when true xs h = h
all_good-when false xs h = refl

module _ (env : Node) where
  base_good : all_good (base_plan env) ≡ true
  unfolding base_plan exit_status
  base_good =
      all_good-append (when env.rotate_enabled _) _ (all_good-when env.rotate_enabled _ refl)
        (all_good-when env.server_enabled _ refl)

  stream_good : all_good (stream_plan env) ≡ true
  unfolding stream_plan exit_status
  stream_good = refl

  chain_good : all_good (chain_plan env) ≡ true
  unfolding chain_plan exit_status
  chain_good = refl

  service_good : all_good (service_plan env) ≡ true
  unfolding service_plan exit_status
  service_good = refl

  load_good : all_good (load_plan env) ≡ true
  unfolding load_plan exit_status
  load_good = refl

  plugin_good :
      (dir : String) (override : Option String) → all_good (plugin_plan env dir override) ≡ true
  unfolding plugin_plan
  plugin_good dir override =
      all_good-append (when env.plugins_enabled _) _ (all_good-when env.plugins_enabled _ refl)
        (all_good-when (plugins_on env) _ refl)

  listen_good : all_good (listen_plan env) ≡ true
  unfolding listen_plan exit_status
  listen_good = simp (all_good_eq-append, all_good_eq-when, or_true)

  server_good : all_good (server_plan env) ≡ true
  unfolding server_plan
  server_good =
      all_good-append (when env.server_enabled _) _ (all_good-when env.server_enabled _ refl)
        (all_good-when (env.server_enabled && env.server_new) _ listen_good)

  last_good : all_good (last_plan env) ≡ true
  unfolding last_plan exit_status
  last_good = simp (all_good_eq-append, all_good_eq-when, or_true)

  plan_good : (dir : String) (override : Option String) → all_good (plan env dir override) ≡ true
  unfolding plan
  plan_good dir override = simp (
    all_good_eq-append, base_good, stream_good, chain_good, service_good, plugin_good, load_good,
    server_good, last_good,
  )

good_at :
    (before : List Step) (s : Step) (after : List Step)
    → all_good (before ++ s ∷ after) ≡ true
    → (good s ≡ true) × (all_good before ≡ true)
good_at [] s after h = ground arith
good_at (x ∷ before) s after h = ground (arith, good_at before s after)

-- Nothing is stopped yet, and the event loop is not entered.
abbrev pub only_starts : List Event → Bool
only_starts [] = true
only_starts (e ∷ es) = starts e && only_starts es

only_starts-good :
    (init : Module → ℤ) (steps : List Step)
    → all_good steps ≡ true
    → only_starts (map (event_of init) steps) ≡ true
only_starts-good init [] h = refl
only_starts-good init (fatal m c ∷ steps) h = ground (arith, only_starts-good init steps)
only_starts-good init (warn m ∷ steps) h = only_starts-good init steps h
only_starts-good init (effect e ∷ steps) h = ground (arith, only_starts-good init steps)

only_starts-append :
    (es fs : List Event)
    → only_starts es ≡ true
    → only_starts fs ≡ true
    → only_starts (es ++ fs) ≡ true
only_starts-append [] fs he hf = hf
only_starts-append (e ∷ es) fs he hf = ground (arith, only_starts-append es fs)

module _ (env : Node) where
  -- The module of a check has started.
  abbrev pub IsUp : Module × ℤ → Type 0
  IsUp (m, c) = is_zero (module_init env m) ≡ true

  IsUp-endings :
      (steps : List Step) → All (Passes (module_init env)) steps → All IsUp (endings steps)
  IsUp-endings [] h = tt
  IsUp-endings (fatal m c ∷ steps) h = (h.0, IsUp-endings steps h.1)
  IsUp-endings (warn m ∷ steps) h = IsUp-endings steps h.1
  IsUp-endings (effect e ∷ steps) h = IsUp-endings steps h.1

  -- The module is the first of the checks that has not started, and this is its code.
  pub record FirstDown (failing : Module) (code : ℤ) : Type 0 where
    pub before : List (Module × ℤ)
    pub after : List (Module × ℤ)
    pub split : checks env ≡ before ++ (failing, code) ∷ after
    pub up : All IsUp before
    pub down : is_zero (module_init env failing) ≡ false

module _ (env : Node) (dir : String) (override : Option String) where
  abbrev pub BootOutcome : Outcome ℤ × List Event → Type 0
  BootOutcome out =
      ((code : ℤ) × (events : List Event) × (out ≡ (ret code, events))
        × (f : FirstFailure (module_init env) (plan env dir override) code events) × FirstDown env
            f.failing code
        × (exit_status code ≢ 0)
        × (only_starts events ≡ true))
      ⊎ (All (IsUp env) (checks env)
          × (out ≡ (
            ret (times_ten env.events_wait),
            map (event_of (module_init env)) (plan env dir override)
                ++ looped env.events_wait ∷ stops env,
          )))

  FirstDown-of :
      {code : ℤ} {events : List Event}
      → (f : FirstFailure (module_init env) (plan env dir override) code events)
      → FirstDown env f.failing code
  FirstDown-of {code} f = record {
    before = endings f.before;
    after = endings f.after;
    split =
        sym (endings-plan env dir override)
        ∙ (ap endings f.split ∙ endings-append f.before (fatal f.failing code ∷ f.after));
    up = IsUp-endings env f.before f.passed;
    down = f.failed;
  }

  FirstFailure-good :
      {code : ℤ} {events : List Event}
      → FirstFailure (module_init env) (plan env dir override) code events
      → (exit_status code ≢ 0) × (only_starts events ≡ true)
  FirstFailure-good {code} {events} f =
      let (at, before) =
        good_at f.before (fatal f.failing code) f.after
          (subst (λ s. all_good s ≡ true) f.split (plan_good env dir override)) in
      (
        ground arith,
        rw f.events_eq (
            only_starts-append (map (event_of (module_init env)) f.before) _
              (only_starts-good (module_init env) f.before before) refl),
      )

  boot_of :
      (r : Option ℤ × List Event)
      → run_steps (module_init env) (plan env dir override) ≡ r
      → RunOutcome (module_init env) (plan env dir override) r
      → BootOutcome (boot env dir override)
  unfolding boot
  boot_of (some code, events) e f =
      let (status, quiet) = FirstFailure-good f in
      inl (code, events, ap (loop_and_stop env) e, f, FirstDown-of f, status, quiet)
  boot_of (none, events) e (passed, events_eq) = inr (
    subst (λ cs. All (IsUp env) cs) (endings-plan env dir override)
        (IsUp-endings env (plan env dir override) passed),
    ap (loop_and_stop env) e
        ∙ ap (λ es. (ret (times_ten env.events_wait), es ++ looped env.events_wait ∷ stops env))
            events_eq,
  )

  -- The start either returns with the code of the first of the checks whose module does not start,
  -- where `checks` are the modules that must start under the configuration, with their codes, in
  -- the order of the source. Then the calls of the plan up to that one have been made, and no more:
  -- the exit status is not 0, the event loop is not entered and no module is stopped. Or the
  -- modules of all checks start; then all calls of the plan are made in order, the event loop
  -- runs, then come the calls that stop the modules, and the result is ten times that of the loop.
  pub boot-BootOutcome : BootOutcome (boot env dir override)
  boot-BootOutcome =
      boot_of (run_steps (module_init env) (plan env dir override)) refl
        (run_steps-outcome (module_init env) (plan env dir override))
