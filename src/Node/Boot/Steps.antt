-- ===== src/Node/Boot/Steps.antt =====
-- `main`'s calls in their order: which of them are made, and with which code the start ends.
use cellframe_node.Prelude.{
  ◌≡◌, refl, inl, inr, true, false, Option, none, some, List, [], ◌∷◌, ◌++◌, map, All, Bool-cases,
  ap, ℤ, is_zero,
}
use cellframe_node.Node.Boot.{run_steps}
use cellframe_node.Node.Boot.Plan.{Module, Step, Event, fatal, warn, effect, tried}

module _ (init : Module → ℤ) where
  -- The step does not end the start.
  abbrev pub Passes : Step → Type 0
  Passes (fatal m c) = is_zero (init m) ≡ true
  Passes (warn m) = Unit
  Passes (effect e) = Unit

  abbrev pub event_of : Step → Event
  event_of (fatal m c) = tried m (init m)
  event_of (warn m) = tried m (init m)
  event_of (effect e) = e

  -- The steps up to a fatal one that fails, with its code; all before it passed, and none behind
  -- it was tried.
  pub record FirstFailure (steps : List Step) (code : ℤ) (events : List Event) : Type 0 where
    pub before : List Step
    pub failing : Module
    pub after : List Step
    pub split : steps ≡ before ++ fatal failing code ∷ after
    pub passed : All Passes before
    pub failed : is_zero (init failing) ≡ false
    pub events_eq : events ≡ map event_of before ++ tried failing (init failing) ∷ []

  -- What a list of steps comes to.
  abbrev pub RunOutcome : List Step → Option ℤ × List Event → Type 0
  RunOutcome steps (some code, events) = FirstFailure steps code events
  RunOutcome steps (none, events) = All Passes steps × (events ≡ map event_of steps)

  put_step :
      (s : Step) (steps : List Step) (r : Option ℤ) (es : List Event)
      → Passes s
      → RunOutcome steps (r, es)
      → RunOutcome (s ∷ steps) (r, event_of s ∷ es)
  put_step s steps none es p (ps, e) = ((p, ps), ap (λ x. event_of s ∷ x) e)
  put_step s steps (some c) es p f = record {
    before = s ∷ f.before;
    failing = f.failing;
    after = f.after;
    split = ap (λ x. s ∷ x) (f.split);
    passed = (p, f.passed);
    failed = f.failed;
    events_eq = ap (λ x. event_of s ∷ x) (f.events_eq);
  }

  pub run_steps-outcome : (steps : List Step) → RunOutcome steps (run_steps init steps)
  unfolding run_steps
  run_steps-outcome [] = (tt, refl)
  run_steps-outcome (effect e ∷ steps) =
      put_step (effect e) steps (run_steps init steps).0 (run_steps init steps).1 tt
        (run_steps-outcome steps)
  run_steps-outcome (warn m ∷ steps) =
      put_step (warn m) steps (run_steps init steps).0 (run_steps init steps).1 tt
        (run_steps-outcome steps)
  run_steps-outcome (fatal m c ∷ steps) = elim (Bool-cases (is_zero (init m))) [
    | inl e ↦ rw e (
        put_step (fatal m c) steps (run_steps init steps).0 (run_steps init steps).1 e
          (run_steps-outcome steps))
    | inr e ↦ rw e (record {
      before = [];
      failing = m;
      after = steps;
      split = refl;
      passed = tt;
      failed = e;
      events_eq = refl;
    })
  ]
