-- ===== src/Node/PidLock/System.antt =====
-- Several processes call `s_proc_running_check` on one pid file: their system calls interleave in
-- any order, and a process may end at any time, which gives its locks back.
use cellframe_node.Prelude.{
  ℕ, ◌+◌, ◌≤◌, ◌≡◌, refl, ◌≢◌, ◌⊎◌, inl, inr, Bool, true, false, ◌&&◌, ◌||◌, List, [], ◌∷◌, arith,
  ◌==◌, length, if◌then◌else◌, pos, All, Bool-cases, subst, sym,
}
use cellframe_node.Node.Decimal.{decimal}
use cellframe_node.Node.PidLock.{
  Lock, PidFile, Pc, start, written, returned, dead, pid_size, locked_within, step,
}

pub record System : Type 0 where
  pub file : PidFile
  pub pc : ℕ → Pc

abbrev pub update {ℓ} : {A : Type ℓ} → (ℕ → A) → ℕ → A → ℕ → A
update f i a j = if i == j then a else f j

-- The next system call of `p`.
unfoldable pub advance : ℕ → System → System
advance p s =
    let (pc', file') = step p (s.pc p) s.file in record { file = file'; pc = update s.pc p pc' }

-- The locks that are left when `p` has ended.
pub release : ℕ → List Lock → List Lock
release p [] = []
release p (l ∷ ls) = let rest = release p ls in if l.owner == p then rest else l ∷ rest

unfoldable pub kill : ℕ → System → System
kill p s = record {
  file = record (s.file) { locks = release p s.file.locks };
  pc = update s.pc p dead;
}

pub data Step (s t : System) : Type 0 where
  move : (p : ℕ) → t ≡ advance p s → Step s t
  die : (p : ℕ) → t ≡ kill p s → Step s t

-- Every process is about to make the call, and none has a lock.
abbrev pub init : PidFile → System
init f = record { file = record f { locks = [] }; pc = λ _. start }

pub data Reach (f : PidFile) : System → Type 0 where
  here : Reach f (init f)
  later : {s t : System} → Reach f s → Step s t → Reach f t

-- Two locks of one process, or of two processes on bytes that do not meet.
abbrev pub Apart : Lock → Lock → Type 0
Apart l m = (l.owner ≡ m.owner) ⊎ ((l.first + pid_size ≤ m.first) ⊎ (m.first + pid_size ≤ l.first))

abbrev pub Disjoint : List Lock → Type 0
Disjoint [] = Unit
Disjoint (l ∷ ls) = All (Apart l) ls × Disjoint ls

unfoldable pub holds : ℕ → ℕ → List Lock → Bool
holds p offset [] = false
holds p offset (l ∷ ls) = (l.owner == p && l.first == offset) || holds p offset ls

-- The locks are disjoint; a process that has written stands behind its digits; one that has
-- returned 0 has its lock there.
pub record Inv (s : System) : Type 0 where
  pub disjoint : Disjoint s.file.locks
  pub offset : (p n : ℕ) → s.pc p ≡ written n → n ≡ length (decimal p)
  pub held : (p : ℕ) → s.pc p ≡ returned (pos 0) → holds p (length (decimal p)) s.file.locks ≡ true

Apart-of_free :
    (me offset : ℕ) (ls : List Lock)
    → locked_within me offset ls ≡ false
    → All (Apart (record { owner = me; first = offset })) ls
unfolding locked_within
Apart-of_free me offset [] h = tt
Apart-of_free me offset (l ∷ ls) h = grind (arith, Apart-of_free me offset ls)

All-release : (P : Lock → Type 0) (p : ℕ) (ls : List Lock) → All P ls → All P (release p ls)
unfolding release
All-release P p [] h = tt
All-release P p (l ∷ ls) h = elim (Bool-cases (l.owner == p)) [
  | inl gone ↦ rw gone (All-release P p ls h.1)
  | inr stays ↦ rw stays (h.0, All-release P p ls h.1)
]

release-Disjoint : (p : ℕ) (ls : List Lock) → Disjoint ls → Disjoint (release p ls)
unfolding release
release-Disjoint p [] h = tt
release-Disjoint p (l ∷ ls) h = elim (Bool-cases (l.owner == p)) [
  | inl gone ↦ rw gone (release-Disjoint p ls h.1)
  | inr stays ↦ rw stays (All-release (Apart l) p ls h.0, release-Disjoint p ls h.1)
]

holds-release :
    (p q n : ℕ) (ls : List Lock) → p ≢ q → holds q n ls ≡ true → holds q n (release p ls) ≡ true
unfolding holds release
holds-release p q n [] ne h = h
holds-release p q n (l ∷ ls) ne h = ground (arith, holds-release p q n ls ne)

module _ (p : ℕ) (f : PidFile) where
  step-Disjoint : (pc : Pc) → Disjoint f.locks → Disjoint (step p pc f).1.locks
  unfolding step
  step-Disjoint (written n) h = ground (arith, Apart-of_free p n f.locks)
  step-Disjoint _ h = ground arith

  step_offset :
      (pc : Pc) (n : ℕ)
      → ((m : ℕ) → pc ≡ written m → m ≡ length (decimal p))
      → (step p pc f).0 ≡ written n
      → n ≡ length (decimal p)
  unfolding step
  step_offset (written m) n old e = ground arith
  step_offset _ n old e = ground arith

  holds-step_other :
      (pc : Pc) (q n : ℕ) → holds q n f.locks ≡ true → holds q n (step p pc f).1.locks ≡ true
  unfolding step holds
  holds-step_other (written m) q n h = ground arith
  holds-step_other _ q n h = ground arith

  holds-step_self :
      (pc : Pc)
      → ((m : ℕ) → pc ≡ written m → m ≡ length (decimal p))
      → (pc ≡ returned (pos 0) → holds p (length (decimal p)) f.locks ≡ true)
      → (step p pc f).0 ≡ returned (pos 0)
      → holds p (length (decimal p)) (step p pc f).1.locks ≡ true
  unfolding step holds
  holds-step_self (written m) old kept e = ground (arith, old m refl)
  holds-step_self _ old kept e = ground arith

advance-Inv : (p : ℕ) (s : System) → Inv s → Inv (advance p s)
unfolding advance
advance-Inv p s inv = record {
  disjoint = step-Disjoint p s.file (s.pc p) inv.disjoint;
  offset = λ q n e. ground (arith, step_offset p s.file (s.pc p) n (inv.offset p), inv.offset q n);
  held = λ q e. ground (
    arith,
    holds-step_self p s.file (s.pc p) (inv.offset p) (inv.held p),
    holds-step_other p s.file (s.pc p) q (length (decimal q)),
    inv.held q,
  );
}

kill-Inv : (p : ℕ) (s : System) → Inv s → Inv (kill p s)
unfolding kill
kill-Inv p s inv = record {
  disjoint = release-Disjoint p s.file.locks inv.disjoint;
  offset = λ q n e. ground (arith, inv.offset q n);
  held = λ q e. ground (arith, holds-release p q (length (decimal q)) s.file.locks, inv.held q);
}

init-Inv : (f : PidFile) → Inv (init f)
init-Inv f = record { disjoint = tt; offset = λ p n e. cc; held = λ p e. cc }

-- In every state that an interleaving reaches, the locks of different processes cover different
-- bytes, a process that has written stands behind the digits of its pid, and a process that the
-- call has returned 0 to has a lock that begins there.
pub Reach-Inv : (f : PidFile) {s : System} → Reach f s → Inv s
Reach-Inv f here = init-Inv f
Reach-Inv f (later r (move p e)) = subst Inv (sym e) (advance-Inv p _ (Reach-Inv f r))
Reach-Inv f (later r (die p e)) = subst Inv (sym e) (kill-Inv p _ (Reach-Inv f r))
