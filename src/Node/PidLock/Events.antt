-- ===== src/Node/PidLock/Events.antt =====
-- `s_proc_running_check` built for Windows: an event of the system whose name is the path, which is
-- there as long as a process that has opened it runs.
use cellframe_node.Prelude.{
  ℕ, ◌≤◌, ◌≡◌, refl, Bool, true, false, ◌||◌, List, [], ◌∷◌, ◌==◌, length, arith, if◌then◌else◌, ℤ,
  pos,
}

-- The processes with a handle of the event; those that run and have got 0.
pub record Events : Type 0 where
  pub handles : List ℕ
  pub winners : List ℕ

abbrev pub no_events : Events
no_events = record { handles = []; winners = [] }

pub data Act : Type 0 where
  -- a process calls the function, or ends
  checks : ℕ → Act
  ends : ℕ → Act

unfoldable pub is_in : ℕ → List ℕ → Bool
is_in p [] = false
is_in p (q ∷ ps) = q == p || is_in p ps

unfoldable pub without : ℕ → List ℕ → List ℕ
without p [] = []
without p (q ∷ ps) = let more = without p ps in if q == p then more else q ∷ more

abbrev pub is_open : List ℕ → Bool
is_open [] = false
is_open (_ ∷ _) = true

-- Whether the path can be the name of an event.
module _ (is_name : Bool) where
  -- `CreateEvent` opens the event that is there, and then `GetLastError` is ERROR_ALREADY_EXISTS; it
  -- makes none of a name that cannot be.
  unfoldable pub check_event : ℕ → Events → ℤ × Events
  check_event p s =
      if is_name
      then (if is_open s.handles
          then (pos 1, record s { handles = p ∷ s.handles })
          else (pos 0, record { handles = p ∷ s.handles; winners = p ∷ s.winners }))
      else (pos 0, record s { winners = p ∷ s.winners })

  unfoldable pub act : Act → Events → Events
  unfolding check_event without
  act (checks p) s = (check_event p s).1
  act (ends p) s = record { handles = without p s.handles; winners = without p s.winners }

  unfoldable pub play_acts : List Act → Events → Events
  unfolding act
  play_acts [] s = s
  play_acts (a ∷ acts) s = play_acts acts (act a s)

length-without : (p : ℕ) (ps : List ℕ) → length (without p ps) ≤ length ps
unfolding without
length-without p [] = omega arith
length-without p (q ∷ ps) = ground (arith, length-without p ps)

is_in-without :
    (p q : ℕ) (ps : List ℕ)
    → is_in q (without p ps) ≡ true
    → (is_in q ps ≡ true) × ((p == q) ≡ false)
unfolding is_in without
is_in-without p q [] h = cc h
is_in-without p q (x ∷ ps) h = ground (arith, is_in-without p q ps)

is_in_kept :
    (p q : ℕ) (ps : List ℕ) → is_in q ps ≡ true → (p == q) ≡ false → is_in q (without p ps) ≡ true
unfolding is_in without
is_in_kept p q [] h e = cc h
is_in_kept p q (x ∷ ps) h e = ground (arith, is_in_kept p q ps)

-- At most one has got 0, and it has the event open.
abbrev pub IsExclusive : Events → Type 0
IsExclusive s =
    (length s.winners ≤ 1) × ((q : ℕ) → is_in q s.winners ≡ true → is_in q s.handles ≡ true)

is_in_self : (p : ℕ) (ps : List ℕ) → is_in p (p ∷ ps) ≡ true
unfolding is_in
is_in_self p ps = ground arith

is_in_more : (p q : ℕ) (ps : List ℕ) → is_in q ps ≡ true → is_in q (p ∷ ps) ≡ true
unfolding is_in
is_in_more p q ps h = ground arith

check-IsExclusive :
    (p : ℕ) (hs ws : List ℕ)
    → IsExclusive (record { handles = hs; winners = ws })
    → IsExclusive (check_event true p (record { handles = hs; winners = ws })).1
unfolding check_event is_in
check-IsExclusive p [] [] h = (omega arith, λ q won. won)
check-IsExclusive p [] (w ∷ ws) h = absurd (cc (h.1 w (is_in_self w ws)))
check-IsExclusive p (x ∷ hs) ws h = (h.0, λ q won. is_in_more p q (x ∷ hs) (h.1 q won))

act-IsExclusive : (a : Act) (s : Events) → IsExclusive s → IsExclusive (act true a s)
unfolding act
act-IsExclusive (checks p) s h = check-IsExclusive p s.handles s.winners h
act-IsExclusive (ends p) s h = (
  omega (arith, h.0, length-without p s.winners),
  λ q won.
      let kept = is_in-without p q s.winners won in is_in_kept p q s.handles (h.1 q kept.0) kept.1,
)

IsExclusive-play :
    (acts : List Act) (s : Events) → IsExclusive s → IsExclusive (play_acts true acts s)
unfolding play_acts
IsExclusive-play [] s h = h
IsExclusive-play (a ∷ acts) s h = IsExclusive-play acts (act true a s) (act-IsExclusive a s h)

-- On Windows, where the path can be the name of an event, at most one running process has got 0
-- from the check on it, whatever processes call the function and end, in whatever order; and such a
-- process has the event open.
pub play_acts-IsExclusive : (acts : List Act) → IsExclusive (play_acts true acts no_events)
unfolding is_in
play_acts-IsExclusive acts = IsExclusive-play acts no_events (omega arith, λ q won. won)

-- Where no event of that name can be made, every call returns 0. (The name that `main` passes can be
-- made.)
pub check_event_unnamed : (p : ℕ) (s : Events) → (check_event false p s).0 ≡ pos 0
unfolding check_event
check_event_unnamed p s = refl
