-- ===== src/Node/Boot/Signalled.antt =====
-- What a signal does at each call of `main`, with the handlers of sources/sig_unix_handler.c.
use cellframe_node.Prelude.{
  ◌≡◌, refl, subst, Bool, true, false, ◌&&◌, ◌||◌, not, Option, List, [], ◌∷◌, ◌++◌, map, inl, inr,
  Bool-cases, arith, if◌then◌else◌, ℤ, pos, String,
}
use cellframe_node.Process.{Outcome, ret, exit}
use cellframe_node.Signals.{
  Signals, Signal, PidPath, handler, at_start, sig_unix_handler_init, deliver,
}
use cellframe_node.Node.Boot.{boot}
use cellframe_node.Node.Boot.Steps.{event_of}
use cellframe_node.Node.Boot.Order.{boot-BootOutcome}
use cellframe_node.Node.Boot.Serve.{
  has, has-append, has-when, or_true, or_false, and_true, and_false,
}
use cellframe_node.Node.Boot.Plan.{
  Node, Module, Event, Step, fatal, tried, started, events_started, log_cleaner, log_level_set,
  looped, stops, plan, when, base_plan, stream_plan, chain_plan, service_plan, plugin_plan,
  load_plan, server_plan, last_plan, listen_plan, module_init, handle_signals,
}

-- The state of the handlers behind a call.
abbrev pub handlers_of : Outcome (ℤ × Signals) → Signals → Signals
handlers_of (ret (_, s)) _ = s
handlers_of _ s = s

-- The call is that of `sig_unix_handler_init`.
abbrev pub sets_handlers : Event → Bool
sets_handlers (tried Module.sig_unix_handler _) = true
sets_handlers _ = false

-- The state of the handlers behind the calls of `main`.
unfoldable pub handlers_behind : Node → List Event → Signals → Signals
handlers_behind env [] s = s
handlers_behind env (e ∷ es) s =
    handlers_behind env es (if sets_handlers e then handlers_of (handle_signals env s) s else s)

-- The modules that are started before the services, the services and the handlers.
abbrev pub is_early : Module → Bool
is_early m = elim m [
  | Module.node_cli ↦ false
  | Module.wallet_cache ↦ false
  | Module.plugin ↦ false
  | Module.wallet_shared ↦ false
  | Module.srv_order ↦ false
  | Module.node_list_clean ↦ false
  | Module.global_db_clean ↦ false
  | Module.mempool_autoproc ↦ false
  | Module.json_rpc ↦ false
  | Module.srv_vpn ↦ false
  | Module.vpn_client ↦ false
  | Module.geoip ↦ false
  | Module.dns_server ↦ false
  | _ ↦ true
]

-- The call comes behind the one that sets the handlers.
abbrev pub is_late : Event → Bool
is_late (tried m _) = not (is_early m)
is_late (started m) = not (is_early m)
is_late (events_started _) = false
is_late (log_cleaner _ _) = false
is_late (log_level_set _) = false
is_late _ = true

module _ {ℓ} {A : Type ℓ} (late sets : A → Bool) where
  -- The entries are early up to the one that sets, and late behind it.
  abbrev fits : Bool → List A → Bool
  fits set [] = true
  fits set (e ∷ es) = (if late e then set else not set) && fits (set || sets e) es

  fits-append :
      (set : Bool) (xs ys : List A)
      → fits set (xs ++ ys) ≡ (fits set xs && fits (set || has sets xs) ys)
  fits-append true [] ys = refl
  fits-append false [] ys = refl
  fits-append true (x ∷ xs) ys = ground (arith, fits-append true xs ys)
  fits-append false (x ∷ xs) ys = ground (arith, fits-append (sets x) xs ys)

  -- Behind the entries before it, one of such a list finds it set exactly if it is late.
  late-fits :
      (set : Bool) (before : List A) (e : A) (after : List A)
      → fits set (before ++ e ∷ after) ≡ true
      → late e ≡ (set || has sets before)
  late-fits true [] e after h = ground arith
  late-fits false [] e after h = ground arith
  late-fits true (x ∷ before) e after h = ground (arith, late-fits true before e after)
  late-fits false (x ∷ before) e after h = ground (arith, late-fits (sets x) before e after)

fits-map {ℓ κ} :
    {A : Type ℓ} {B : Type κ} (f : A → B) (late sets : B → Bool) (set : Bool) (xs : List A)
    → fits late sets set (map f xs) ≡ fits (λ x. late (f x)) (λ x. sets (f x)) set xs
fits-map f late sets set [] = refl
fits-map f late sets true (x ∷ xs) = ground (arith, fits-map f late sets true xs)
fits-map f late sets false (x ∷ xs) = ground (arith, fits-map f late sets (sets (f x)) xs)

has-map {ℓ κ} :
    {A : Type ℓ} {B : Type κ} (f : A → B) (p : B → Bool) (xs : List A)
    → has p (map f xs) ≡ has (λ x. p (f x)) xs
has-map f p [] = refl
has-map f p (x ∷ xs) = ground (arith, has-map f p xs)

fits-when :
    (late sets : Step → Bool) (set : Bool) (b : Bool) (xs : List Step)
    → fits late sets set (when b xs) ≡ (not b || fits late sets set xs)
fits-when late sets set true xs = refl
fits-when late sets set false xs = refl

ruleset in_steps =
    (fits-append, has-append, fits-when, has-when, or_true, or_false, and_true, and_false)

module _ (env : Node) where
  abbrev late_step : Step → Bool
  late_step s = is_late (event_of (module_init env) s)

  abbrev sets_step : Step → Bool
  sets_step s = sets_handlers (event_of (module_init env) s)

  abbrev Early : List Step → Type 0
  Early steps = (fits late_step sets_step false steps ≡ true) × (has sets_step steps ≡ false)

  base_Early : Early (base_plan env)
  unfolding base_plan
  base_Early = (simp in_steps, simp in_steps)

  stream_Early : Early (stream_plan env)
  unfolding stream_plan
  stream_Early = (refl, refl)

  chain_Early : Early (chain_plan env)
  unfolding chain_plan
  chain_Early = (refl, refl)

  service_fits : fits late_step sets_step false (service_plan env) ≡ true
  unfolding service_plan
  service_fits = refl

  service_sets : has sets_step (service_plan env) ≡ true
  unfolding service_plan
  service_sets = refl

  plugin_fits :
      (dir : String) (override : Option String)
      → fits late_step sets_step true (plugin_plan env dir override) ≡ true
  unfolding plugin_plan
  plugin_fits dir override = simp in_steps

  load_fits : fits late_step sets_step true (load_plan env) ≡ true
  unfolding load_plan
  load_fits = refl

  server_fits : fits late_step sets_step true (server_plan env) ≡ true
  unfolding server_plan listen_plan
  server_fits = simp in_steps

  last_fits : fits late_step sets_step true (last_plan env) ≡ true
  unfolding last_plan
  last_fits = simp in_steps

  fits-plan :
      (dir : String) (override : Option String)
      → fits late_step sets_step false (plan env dir override) ≡ true
  unfolding plan
  fits-plan dir override = simp (
    fits-append, has-append, base_Early.0, base_Early.1, stream_Early.0, stream_Early.1,
    chain_Early.0, chain_Early.1, service_fits, service_sets, plugin_fits, load_fits, server_fits,
    last_fits,
  )

  plan_sets :
      (dir : String) (override : Option String) → has sets_step (plan env dir override) ≡ true
  unfolding plan
  plan_sets dir override =
      simp (has-append, base_Early.1, stream_Early.1, chain_Early.1, service_sets)

  -- The calls up to a fatal one that fails.
  fits_prefix :
      (before : List Step) (m : Module) (c : ℤ) (after : List Step)
      → fits late_step sets_step false (before ++ fatal m c ∷ after) ≡ true
      → fits is_late sets_handlers false
          (map (event_of (module_init env)) before ++ tried m (module_init env m) ∷ [])
        ≡ true
  fits_prefix before m c after h =
      rw (fits-append, fits-map, has-map)
        (ground (arith, h, fits-append late_step sets_step false before (fatal m c ∷ after)))

  stops_fit : fits is_late sets_handlers true (looped env.events_wait ∷ stops env) ≡ true
  unfolding stops
  stops_fit = ground arith

  fits-boot :
      (dir : String) (override : Option String)
      → fits is_late sets_handlers false (boot env dir override).1 ≡ true
  fits-boot dir override = elim (boot-BootOutcome env dir override) [
    | inl (code, es, e, f, _, _, _) ↦
        rw (e, f.events_eq)
          (fits_prefix f.before f.failing code f.after
            (subst (λ x. fits late_step sets_step false x ≡ true) f.split (fits-plan dir override)))
    | inr (_, e) ↦
        rw (e, fits-append, fits-map, has-map, fits-plan dir override, plan_sets dir override)
          stops_fit
  ]

module _ (env : Node) where
  deliver_set :
      (es : List Event) (path : PidPath) (sig : Signal)
      → deliver
          (handlers_behind env es (record { pid_path = path; disposition = λ _. handler }))
          sig
        ≡ exit (pos 0)
  unfolding handlers_behind deliver sig_unix_handler_init
  deliver_set [] path sig = refl
  deliver_set (e ∷ es) path sig = elim (Bool-cases (sets_handlers e)) [
    | inl c ↦ rw c (deliver_set es _ sig)
    | inr c ↦ rw c (deliver_set es path sig)
  ]

  deliver-handlers_behind :
      (es : List Event) (sig : Signal)
      → deliver (handlers_behind env es at_start) sig
        ≡ (if has sets_handlers es then exit (pos 0) else ret false)
  unfolding handlers_behind deliver sig_unix_handler_init
  deliver-handlers_behind [] sig = refl
  deliver-handlers_behind (e ∷ es) sig = elim (Bool-cases (sets_handlers e)) [
    | inl c ↦ rw c (deliver_set es _ sig)
    | inr c ↦ rw c (deliver-handlers_behind es sig)
  ]

  -- At every call that `main` makes behind the check for another node, in every run of the start,
  -- the event loop and the stop, a signal of the five does this: up to and including the call that
  -- sets the handlers the system's default action is taken; from then on, whatever fails and until
  -- the last module is stopped, the process exits with 0.
  pub deliver-boot :
      (dir : String) (override : Option String) (before : List Event) (e : Event)
      (after : List Event) (sig : Signal)
      → (boot env dir override).1 ≡ before ++ e ∷ after
      → deliver (handlers_behind env before at_start) sig
        ≡ (if is_late e then exit (pos 0) else ret false)
  deliver-boot dir override before e after sig h =
      rw
        (
          deliver-handlers_behind before sig,
          late-fits is_late sets_handlers false before e after (
              subst (λ es. fits is_late sets_handlers false es ≡ true) h
                (fits-boot env dir override)),
        )
        refl
