-- ===== src/Conftool/Network/Outcome.antt =====
-- What `network` leaves of a network's two files.
use cellframe_node.Prelude.{
  ◌≡◌, refl, ◌≢◌, ◌⊎◌, inl, inr, Bool-cases, Option-cases, subst, sym, Bool, ◌∷◌, true, false, ◌&&◌,
  ◌||◌, none, some, arith, is_some, if◌then◌else◌,
}
use cellframe_node.Prelude.Bytes.{Bytes, same, same_iff}
use cellframe_node.Conftool.World.{
  Host, World, Note, noted, in_both, is_already, user_configured, set_up, is_settled, moves, copies,
  Result, done, raised, undefined, put_file, copy_new, rename,
}
use cellframe_node.Conftool.Network.{default_net, ensure_net}

module _ (host : Host) (name requested opposite from : Bytes) (differ : requested ≢ opposite)
    (w : World) where
  abbrev pub configured : Bool
  configured = is_some (w.files requested) || is_some (w.files opposite)

  -- The world with a note.
  abbrev pub note : Note → World
  note n = record w { output = noted n ∷ w.output }

  -- No file and no variable is changed.
  abbrev pub Kept : World → Type 0
  Kept w' = (w'.files ≡ w.files) × (w'.vars ≡ w.vars)

  -- The file of the requested state has the template's content, and no other file and no variable is
  -- changed.
  abbrev pub Made : World → Type 0
  Made w' =
      (is_some (w.files from) ≡ true)
      × ((path : Bytes)
          → w'.files path ≡ (if same path requested then w.files from else w.files path))
      × (w'.vars ≡ w.vars)

  abbrev pub DefaultOutcome : Bool → Result Bool × World → Type 0
  DefaultOutcome dry (done b, w') =
      (((configured || dry) ≡ true) × Kept w') ⊎ (((configured || dry) ≡ false) × Made w')
  DefaultOutcome dry (raised, w') = ((configured || dry) ≡ false) × Kept w'
  DefaultOutcome dry (undefined, w') = ⊥

  made :
      (text path : Bytes)
      → w.files from ≡ some text
      → put_file requested (some text) w.files path
        ≡ (if same path requested then w.files from else w.files path)
  unfolding put_file
  made text path g = rw g refl

  -- `network NAME default` of a network that has a file in either state, and a dry run, change no
  -- file and no variable and raise no exception. Otherwise the file of the requested state, and no
  -- other, is made with the template's content, or an exception is raised and no file and no
  -- variable is changed.
  pub default_net-DefaultOutcome :
      (dry enable : Bool)
      → DefaultOutcome dry (default_net host dry enable name requested opposite from w)
  unfolding default_net copy_new
  default_net-DefaultOutcome dry enable = elim (Option-cases (w.files requested)) [
    | inr (t, e) ↦ elim (Option-cases (w.files opposite)) [
      | inr (u, f) ↦
          via (done false, note (in_both name)) (ground arith) (inl (ground arith, (refl, refl)))
      | inl f ↦
          via (done true, note (is_already name enable)) (ground arith)
            (inl (ground arith, (refl, refl)))
    ]
    | inl e ↦ elim (Option-cases (w.files opposite)) [
      | inr (u, f) ↦
          via (done false, note (user_configured name)) (ground arith)
            (inl (ground arith, (refl, refl)))
      | inl f ↦ elim (Bool-cases dry) [
        | inl d ↦
            via (done true, note (set_up name enable from)) (ground arith)
              (inl (ground arith, (refl, refl)))
        | inr d ↦ elim (Option-cases (w.files from)) [
          | inl g ↦
              via (raised, note (set_up name enable from)) (rw d (ground arith))
                (ground arith, (refl, refl))
          | inr (text, g) ↦ elim (Bool-cases (host.may_write requested)) [
            | inl ok ↦
                via
                  (
                    done true,
                    record (note (set_up name enable from)) {
                      files = put_file requested (some text) w.files;
                    },
                  )
                  (rw d (ground arith))
                  (inr (ground arith, (ground arith, λ path. made text path g, refl)))
            | inr denied ↦
                via (raised, note (set_up name enable from)) (rw d (ground arith))
                  (ground arith, (refl, refl))
          ]
        ]
      ]
    ]
  ]
    where
      via :
          (out : Result Bool × World)
          → default_net host dry enable name requested opposite from w ≡ out
          → DefaultOutcome dry out
          → DefaultOutcome dry (default_net host dry enable name requested opposite from w)
      via out p x = subst (DefaultOutcome dry) (sym p) x

  -- The file of the requested state is there, and that of the other is not.
  abbrev pub Switched : World → Type 0
  Switched w' =
      (is_some (w'.files requested) ≡ true)
      × ((path : Bytes)
          → w'.files path ≡ (
              if same path requested
              then w'.files requested
              else if same path opposite
              then none
              else w.files path))
      × (w'.vars ≡ w.vars)

  abbrev pub BothKept : Bool → World → Type 0
  BothKept enable w' =
      ((enable && (is_some (w.files requested) && is_some (w.files opposite))) ≡ true) × Kept w'

  abbrev pub EnsureOutcome : Bool → Result Bool × World → Type 0
  EnsureOutcome enable (done b, w') = Switched w' ⊎ BothKept enable w'
  EnsureOutcome enable (raised, w') = Kept w'
  EnsureOutcome enable (undefined, w') = ⊥

  ensure_via :
      (enable : Bool) (out : Result Bool × World)
      → ensure_net host false enable name requested opposite from w ≡ out
      → EnsureOutcome enable out
      → EnsureOutcome enable (ensure_net host false enable name requested opposite from w)
  ensure_via enable out p x = subst (EnsureOutcome enable) (sym p) x

  unmoved :
      (n : Note)
      → is_some (w.files requested) ≡ true
      → is_some (w.files opposite) ≡ false
      → Switched (note n)
  unmoved n e f = (e, λ path. ground (arith, same_iff path requested, same_iff path opposite), refl)

  moved : Bool → Bytes → World
  moved enable text = record (note (moves enable opposite requested)) {
    files = put_file opposite none (put_file requested (some text) w.files);
  }

  moved-Switched : (enable : Bool) (text : Bytes) → Switched (moved enable text)
  unfolding moved put_file
  moved-Switched enable text = (
    ground (arith, same_iff requested opposite, same_iff requested requested),
    λ path. ground (
      arith,
      same_iff path requested,
      same_iff path opposite,
      same_iff requested opposite,
      same_iff requested requested,
    ),
    refl,
  )

  ensure-rename :
      (enable : Bool) (text : Bytes)
      → (enable && is_some (w.files requested)) ≡ false
      → w.files opposite ≡ some text
      → EnsureOutcome enable (ensure_net host false enable name requested opposite from w)
  unfolding ensure_net rename moved
  ensure-rename enable text e f = elim (Bool-cases (host.may_write requested)) [
    | inl ok ↦
        ensure_via enable (done true, moved enable text)
          (ground (arith, same_iff opposite requested)) (inl (moved-Switched enable text))
    | inr denied ↦
        ensure_via enable (raised, note (moves enable opposite requested)) (ground arith)
          (refl, refl)
  ]

  ensure-copy :
      (enable : Bool)
      → w.files requested ≡ none
      → w.files opposite ≡ none
      → EnsureOutcome enable (ensure_net host false enable name requested opposite from w)
  unfolding ensure_net copy_new put_file
  ensure-copy enable e f = elim (Option-cases (w.files from)) [
    | inl g ↦
        ensure_via enable (raised, note (copies enable from requested)) (ground arith) (refl, refl)
    | inr (text, g) ↦ elim (Bool-cases (host.may_write requested)) [
      | inl ok ↦
          ensure_via enable
            (
              done true,
              record (note (copies enable from requested)) {
                files = put_file requested (some text) w.files;
              },
            )
            (ground arith)
            (inl (
              ground (arith, same_iff requested requested),
              λ path. ground (
                arith,
                same_iff path requested,
                same_iff path opposite,
                same_iff requested requested,
              ),
              refl,
            ))
      | inr denied ↦
          ensure_via enable (raised, note (copies enable from requested)) (ground arith)
            (refl, refl)
    ]
  ]

  -- `network NAME ensure`, other than in a dry run, ends in one of these ways. The file of the
  -- requested state is there, that of the other is not, and no other file and no variable is
  -- changed. Or the network was to be switched on and had both files: then no file and no variable
  -- is changed, and both are there. Or an exception is raised and no file and no variable is
  -- changed.
  pub ensure_net-EnsureOutcome :
      (enable : Bool)
      → EnsureOutcome enable (ensure_net host false enable name requested opposite from w)
  unfolding ensure_net
  ensure_net-EnsureOutcome enable = elim (Option-cases (w.files requested)) [
    | inl e ↦ elim (Option-cases (w.files opposite)) [
      | inl f ↦ ensure-copy enable e f
      | inr (text, f) ↦ ensure-rename enable text (ground arith) f
    ]
    | inr (u, e) ↦ elim (Option-cases (w.files opposite)) [
      | inl f ↦
          ensure_via enable (done false, note (is_settled name enable)) (ground arith)
            (inl (unmoved (is_settled name enable) (ground arith) (ground arith)))
      | inr (text, f) ↦ elim (Bool-cases enable) [
        | inl on ↦
            ensure_via enable (done false, note (is_settled name enable)) (ground arith)
              (inr (ground arith, (refl, refl)))
        | inr off ↦ ensure-rename enable text (ground arith) f
      ]
    ]
  ]
