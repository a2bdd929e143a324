-- ===== src/Node/Boot/Serve.antt =====
-- In which order the plan of `main` has what depends on each other.
use cellframe_node.Prelude.{
  ◌≡◌, refl, Bool, true, false, ◌&&◌, ◌||◌, not, Option, List, [], ◌∷◌, ◌++◌, map, subst, inl, inr,
  arith, if◌then◌else◌, ℤ, String,
}
use cellframe_node.Node.Boot.{boot}
use cellframe_node.Node.Boot.Steps.{event_of}
use cellframe_node.Node.Boot.Order.{boot-BootOutcome}
use cellframe_node.Node.Boot.Plan.{
  Node, Module, tried, looped, stops, Step, Event, fatal, proc_added, plugins_loaded,
  plugins_started, nets_loaded, nets_online, server, http, stream_ctl, net, plan, when, base_plan,
  stream_plan, chain_plan, service_plan, plugin_plan, load_plan, server_plan, last_plan,
  listen_plan, folder_added, module_init,
}

-- An entry that `later` accepts has one that `first` accepts before it.
abbrev pub precedes {ℓ} : {A : Type ℓ} → (A → Bool) → (A → Bool) → List A → Bool
precedes first later [] = true
precedes first later (x ∷ xs) =
    let rest = precedes first later xs in if first x then true else not (later x) && rest

abbrev pub has {ℓ} : {A : Type ℓ} → (A → Bool) → List A → Bool
has p [] = false
has p (x ∷ xs) = p x || has p xs

precedes-append {ℓ} :
    {A : Type ℓ} (first later : A → Bool) (xs ys : List A)
    → precedes first later (xs ++ ys)
      ≡ (precedes first later xs && (has first xs || precedes first later ys))
precedes-append first later [] ys = refl
precedes-append first later (x ∷ xs) ys = ground (arith, precedes-append first later xs ys)

pub has-append {ℓ} :
    {A : Type ℓ} (p : A → Bool) (xs ys : List A) → has p (xs ++ ys) ≡ (has p xs || has p ys)
has-append p [] ys = refl
has-append p (x ∷ xs) ys = ground (arith, has-append p xs ys)

precedes-map {ℓ κ} :
    {A : Type ℓ} {B : Type κ} (f : A → B) (first later : B → Bool) (xs : List A)
    → precedes first later (map f xs) ≡ precedes (λ x. first (f x)) (λ x. later (f x)) xs
precedes-map f first later [] = refl
precedes-map f first later (x ∷ xs) = ground (arith, precedes-map f first later xs)

precedes-when :
    (first later : Step → Bool) (b : Bool) (xs : List Step)
    → precedes first later (when b xs) ≡ (not b || precedes first later xs)
precedes-when first later true xs = refl
precedes-when first later false xs = refl

pub has-when : (p : Step → Bool) (b : Bool) (xs : List Step) → has p (when b xs) ≡ (b && has p xs)
has-when p true xs = refl
has-when p false xs = refl

pub or_true : (b : Bool) → (b || true) ≡ true
or_true true = refl
or_true false = refl

pub or_false : (b : Bool) → (b || false) ≡ b
or_false true = refl
or_false false = refl

pub and_true : (b : Bool) → (b && true) ≡ b
and_true true = refl
and_true false = refl

pub and_false : (b : Bool) → (b && false) ≡ false
and_false true = refl
and_false false = refl

ruleset in_plan =
    (precedes-append, has-append, precedes-when, has-when, or_true, or_false, and_true, and_false)

-- Which module an `…_init` is of.
abbrev pub tries_server : Event → Bool
tries_server (tried server _) = true
tries_server _ = false

abbrev pub tries_http : Event → Bool
tries_http (tried http _) = true
tries_http _ = false

abbrev pub tries_stream_ctl : Event → Bool
tries_stream_ctl (tried stream_ctl _) = true
tries_stream_ctl _ = false

abbrev pub tries_net : Event → Bool
tries_net (tried net _) = true
tries_net _ = false

abbrev pub serves : Event → Bool
serves (proc_added _) = true
serves (folder_added _ _) = true
serves _ = false

abbrev pub loads_nets : Event → Bool
loads_nets nets_loaded = true
loads_nets _ = false

abbrev pub goes_online : Event → Bool
goes_online nets_online = true
goes_online _ = false

abbrev pub loads_plugins : Event → Bool
loads_plugins plugins_loaded = true
loads_plugins _ = false

abbrev pub starts_plugins : Event → Bool
starts_plugins plugins_started = true
starts_plugins _ = false

-- A handler comes behind the tries of the server, of http and of the streams; the nets are loaded
-- behind the try of their module and go online behind that; plugins start behind their loading.
abbrev pub InOrder : List Event → Type 0
InOrder es =
    (precedes tries_server serves es ≡ true)
    × (precedes tries_http serves es ≡ true)
    × (precedes tries_stream_ctl serves es ≡ true)
    × (precedes tries_net loads_nets es ≡ true)
    × (precedes loads_nets goes_online es ≡ true)
    × (precedes loads_plugins starts_plugins es ≡ true)

abbrev steps_precede : (Event → Bool) → (Event → Bool) → (Module → ℤ) → List Step → Bool
steps_precede first later init =
    precedes (λ s. first (event_of init s)) (λ s. later (event_of init s))

-- What follows the steps of the plan is of none of these kinds.
abbrev Ordered : (Event → Bool) → (Event → Bool) → Node → String → Option String → Type 0
Ordered first later env dir override =
    (steps_precede first later (module_init env) (plan env dir override) ≡ true)
    × (precedes first later (looped env.events_wait ∷ stops env) ≡ true)

precedes_prefix :
    (first later : Event → Bool) (init : Module → ℤ) (before : List Step) (m : Module) (c : ℤ)
    (after : List Step)
    → steps_precede first later init (before ++ fatal m c ∷ after) ≡ true
    → precedes first later (map (event_of init) before ++ tried m (init m) ∷ []) ≡ true
precedes_prefix first later init [] m c after h = ground arith
precedes_prefix first later init (x ∷ before) m c after h =
    ground (arith, precedes_prefix first later init before m c after)

Ordered-boot :
    (first later : Event → Bool) (env : Node) (dir : String) (override : Option String)
    → Ordered first later env dir override
    → precedes first later (boot env dir override).1 ≡ true
Ordered-boot first later env dir override (steps, behind) =
    elim (boot-BootOutcome env dir override) [
      | inl (code, es, e, f, _, _, _) ↦
          rw (e, f.events_eq)
            (precedes_prefix first later (module_init env) f.before f.failing code f.after
              (subst (λ x. steps_precede first later (module_init env) x ≡ true) f.split steps))
      | inr (_, e) ↦ rw e (rw (precedes-append, precedes-map) (ground (arith, steps, behind)))
    ]

module _ (env : Node) (dir : String) (override : Option String) where
  server-Ordered : Ordered tries_server serves env dir override
  unfolding plan base_plan stream_plan chain_plan service_plan plugin_plan load_plan server_plan
      last_plan listen_plan stops
  server-Ordered = (simp in_plan (ground arith), ground arith)

  http-Ordered : Ordered tries_http serves env dir override
  unfolding plan base_plan stream_plan chain_plan service_plan plugin_plan load_plan server_plan
      last_plan listen_plan stops
  http-Ordered = (simp in_plan, ground arith)

  stream_ctl-Ordered : Ordered tries_stream_ctl serves env dir override
  unfolding plan base_plan stream_plan chain_plan service_plan plugin_plan load_plan server_plan
      last_plan listen_plan stops
  stream_ctl-Ordered = (simp in_plan, ground arith)

  net-Ordered : Ordered tries_net loads_nets env dir override
  unfolding plan base_plan stream_plan chain_plan service_plan plugin_plan load_plan server_plan
      last_plan listen_plan stops
  net-Ordered = (simp in_plan, ground arith)

  online-Ordered : Ordered loads_nets goes_online env dir override
  unfolding plan base_plan stream_plan chain_plan service_plan plugin_plan load_plan server_plan
      last_plan listen_plan stops
  online-Ordered = (simp in_plan, ground arith)

  plugins-Ordered : Ordered loads_plugins starts_plugins env dir override
  unfolding plan base_plan stream_plan chain_plan service_plan plugin_plan load_plan server_plan
      last_plan listen_plan stops
  plugins-Ordered = (simp in_plan (ground arith), ground arith)

  -- In every run of the start, whatever fails and whatever the configuration: a handler is added
  -- only behind the starts of the server, of http and of the streams, the nets are loaded only
  -- behind the start of their module and go online only behind that, and plugins are started only
  -- behind their loading.
  pub boot-InOrder : InOrder (boot env dir override).1
  boot-InOrder = (
    Ordered-boot tries_server serves env dir override server-Ordered,
    Ordered-boot tries_http serves env dir override http-Ordered,
    Ordered-boot tries_stream_ctl serves env dir override stream_ctl-Ordered,
    Ordered-boot tries_net loads_nets env dir override net-Ordered,
    Ordered-boot loads_nets goes_online env dir override online-Ordered,
    Ordered-boot loads_plugins starts_plugins env dir override plugins-Ordered,
  )
