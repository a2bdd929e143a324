-- ===== src/Conftool/ConfigFile/Twice.antt =====
-- `set` twice for one parameter.
use cellframe_node.Prelude.{
  ◌≡◌, refl, ◌∙◌, ap, inl, inr, Bool, true, false, List, [], ◌∷◌, Bool-cases,
}
use cellframe_node.Prelude.Bytes.{Bytes, same, same_refl}
use cellframe_node.Conftool.ConfigFile.{
  Line, blank, broken, malformed, header, entry, classify, found, later, scan, exists, param_line,
  group_line, newline, edit, set,
}
use cellframe_node.Conftool.ConfigFile.Plain.{
  IsName, IsValue, IsReadable, read_back, classify-param, classify-group,
}
use cellframe_node.Conftool.ConfigFile.Steps.{
  scan-blank, scan-broken, scan-malformed, scan-header, scan-entry, edit-later,
}

module _ (g p v w u : Bytes) (read : classify (param_line p v) ≡ entry p w)
    (named : classify (group_line g) ≡ header g) where
  abbrev changed : Bytes → Bool → List Bytes → List Bytes
  changed new inside lines = edit g p new (scan g p inside lines) lines

  abbrev Again : Bool → List Bytes → Type 0
  Again inside lines = changed u inside (changed v inside lines) ≡ changed u inside lines

  -- The parameter's line is found in its group.
  found_first : (rest : List Bytes) → scan g p true (param_line p v ∷ rest) ≡ found w 0
  found_first rest = rw (scan-entry g p (param_line p v) rest true p w read, same_refl p) refl

  again_first : (rest : List Bytes) → changed u true (param_line p v ∷ rest) ≡ param_line p u ∷ rest
  unfolding edit
  again_first rest = rw (found_first rest) refl

  Again-nil : (inside : Bool) → Again inside []
  unfolding scan edit
  Again-nil true = again_first (newline ∷ [])
  Again-nil false =
      rw (scan-header g p (group_line g) (param_line p v ∷ newline ∷ []) false g named, same_refl g)
        (edit-later g p u (group_line g) (param_line p v ∷ newline ∷ []) _
          ∙ ap (λ ls. group_line g ∷ ls) (again_first (newline ∷ [])))

  -- A line that the search passes.
  Again-pass :
      (l : Bytes) (ls : List Bytes) (inside j : Bool)
      → ((xs : List Bytes) → scan g p inside (l ∷ xs) ≡ later (scan g p j xs))
      → Again j ls
      → Again inside (l ∷ ls)
  Again-pass l ls inside j pass ih =
      rw (pass ls, edit-later g p v l ls (scan g p j ls), edit-later g p u l ls (scan g p j ls))
        (rw
          (pass (changed v j ls), edit-later g p u l (changed v j ls) (scan g p j (changed v j ls)))
          (ap (λ xs. l ∷ xs) ih))

  Again-line :
      (l : Bytes) (ls : List Bytes)
      → ((i : Bool) → Again i ls)
      → (inside : Bool) (k : Line) → classify l ≡ k
      → Again inside (l ∷ ls)
  unfolding edit
  Again-line l ls ih i blank e = Again-pass l ls i i (λ xs. scan-blank g p l xs i e) (ih i)
  Again-line l ls ih i broken e = rw (scan-broken g p l ls i e) (rw (scan-broken g p l ls i e) refl)
  Again-line l ls ih true malformed e =
      rw (scan-malformed g p l ls true e) (rw (scan-malformed g p l ls true e) refl)
  Again-line l ls ih false malformed e =
      Again-pass l ls false false (λ xs. scan-malformed g p l xs false e) (ih false)
  Again-line l ls ih true (header n) e =
      rw (scan-header g p l ls true n e) (again_first (newline ∷ l ∷ ls))
  Again-line l ls ih false (header n) e =
      Again-pass l ls false (same n g) (λ xs. scan-header g p l xs false n e) (ih (same n g))
  Again-line l ls ih true (entry a b) e = elim (Bool-cases (same a p)) [
    | inl hit ↦ rw (scan-entry g p l ls true a b e, hit) (again_first ls)
    | inr miss ↦
        Again-pass l ls true true (λ xs. scan-entry g p l xs true a b e ∙ rw miss refl) (ih true)
  ]
  Again-line l ls ih false (entry a b) e =
      Again-pass l ls false false (λ xs. scan-entry g p l xs false a b e) (ih false)

  both_changes : (lines : List Bytes) (inside : Bool) → Again inside lines
  both_changes [] inside = Again-nil inside
  both_changes (l ∷ ls) inside = Again-line l ls (both_changes ls) inside (classify l) refl

-- `set` for a parameter that was set before, to whatever value, leaves the lines that it leaves
-- alone: the first change of the value cannot be seen, and no line is added twice. The group and
-- the parameter are names and the first value is one that can be read back; the second is any.
pub set-set :
    (lines : List Bytes) (g p v u : Bytes)
    → IsName g
    → IsName p
    → IsValue v
    → IsReadable v
    → set (set lines g p v) g p u ≡ set lines g p u
unfolding exists
set-set lines g p v u ng np iv r =
    both_changes g p v (read_back v) u (classify-param p v np iv r) (classify-group g ng) lines
      false
