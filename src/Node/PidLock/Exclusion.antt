-- ===== src/Node/PidLock/Exclusion.antt =====
-- What the interleavings of `s_proc_running_check` allow: how many processes it returns 0 to.
use cellframe_node.Prelude.{
  ℕ, ◌+◌, ◌≤◌, ◌<◌, ◌≡◌, refl, ◌≢◌, ◌⊎◌, inl, inr, true, none, List, [], ◌∷◌, arith, length, pos,
  All, ◌==◌, Bool-cases,
}
use cellframe_node.Node.Decimal.{decimal}
use cellframe_node.Node.PidLock.{Lock, PidFile, returned, pid_size, locked_within, step}
use cellframe_node.Node.PidLock.System.{
  System, advance, move, init, Reach, here, later, Apart, Disjoint, holds, Reach-Inv,
}

abbrev Separate : ℕ → ℕ → Type 0
Separate m n = (m + pid_size ≤ n) ⊎ (n + pid_size ≤ m)

Separate-of_Apart :
    (l : Lock) (q n : ℕ) (ls : List Lock)
    → All (Apart l) ls
    → holds q n ls ≡ true
    → l.owner ≢ q
    → Separate l.first n
unfolding holds
Separate-of_Apart l q n [] a h ne = ground arith
Separate-of_Apart l q n (m ∷ ls) a h ne = grind (arith, Separate-of_Apart l q n ls a.1)

Separate-of_Disjoint :
    (p q m n : ℕ) (ls : List Lock)
    → Disjoint ls
    → holds p m ls ≡ true
    → holds q n ls ≡ true
    → p ≢ q
    → Separate m n
unfolding holds
Separate-of_Disjoint p q m n [] d hp hq ne = ground arith
Separate-of_Disjoint p q m n (l ∷ ls) d hp hq ne = ground (
  arith,
  Separate-of_Disjoint p q m n ls d.1,
  Separate-of_Apart l q n ls d.0,
  Separate-of_Apart l p m ls d.0,
)

-- However the calls interleave, no two processes whose pids are less than `pid_size` decimal
-- digits apart in length are both given the result 0.
pub proc_running_check_exclusive :
    (f : PidFile) {s : System} (p q : ℕ)
    → Reach f s
    → s.pc p ≡ returned (pos 0)
    → s.pc q ≡ returned (pos 0)
    → length (decimal p) < length (decimal q) + pid_size
    → length (decimal q) < length (decimal p) + pid_size
    → p ≡ q
proc_running_check_exclusive f {s} p q r wp wq near near' = elim (Bool-cases (p == q)) [
  | inl same ↦ ground arith
  | inr differ ↦ ground (
    arith,
    Separate-of_Disjoint p q _ _ s.file.locks (Reach-Inv f r).disjoint ((Reach-Inv f r).held p wp)
        ((Reach-Inv f r).held q wq),
  )
]

-- The processes named make one system call each, in this order.
abbrev pub schedule : List ℕ → System → System
schedule [] s = s
schedule (p ∷ ps) s = schedule ps (advance p s)

pub Reach-schedule : (f : PidFile) (ps : List ℕ) {s : System} → Reach f s → Reach f (schedule ps s)
Reach-schedule f [] r = r
Reach-schedule f (p ∷ ps) r = Reach-schedule f ps (later r (move p refl))

-- A writable pid file that does not exist yet.
abbrev pub fresh_file : PidFile
fresh_file = record { content = none; readable = true; writable = true; locks = [] }

-- `q` finds no file; `p` makes the whole call; `q` goes on.
abbrev overlapping : ℕ → ℕ → List ℕ
overlapping p q = q ∷ p ∷ p ∷ p ∷ p ∷ q ∷ q ∷ q ∷ []

module _ (p q : ℕ) where
  -- Two processes one of whose pids has at least `pid_size` decimal digits more than the other's
  -- can both be given the result 0: there is an interleaving on a pid file that did not exist.
  pub proc_running_check_overlap :
      length (decimal p) + pid_size ≤ length (decimal q)
      → (s : System) × Reach fresh_file s
        × (s.pc p ≡ returned (pos 0))
        × (s.pc q ≡ returned (pos 0))
  unfolding advance step locked_within
  proc_running_check_overlap far =
      let s = schedule (overlapping p q) (init fresh_file) in
      (s, Reach-schedule fresh_file (overlapping p q) here, ground arith, ground arith)
