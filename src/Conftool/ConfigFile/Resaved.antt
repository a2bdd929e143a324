-- ===== src/Conftool/ConfigFile/Resaved.antt =====
-- A change of a file that was saved and loaded leaves the text that it leaves of the lines
-- themselves.
use cellframe_node.Prelude.{
  ◌≡◌, refl, ◌∙◌, ap, sym, inl, inr, Bool, true, false, List, [], ◌∷◌, ◌++◌, All, Bool-cases,
}
use cellframe_node.Prelude.Bytes.{Bytes, same, has}
use cellframe_node.Conftool.ConfigFile.{
  Line, blank, broken, malformed, header, entry, classify, later, scan, exists, newline, edit, set,
  param_line, group_line, written, read_lines,
}
use cellframe_node.Conftool.ConfigFile.Plain.{IsName, IsValue, IsReadable, classify-newline}
use cellframe_node.Conftool.ConfigFile.Steps.{
  scan-blank, scan-broken, scan-malformed, scan-header, scan-entry, edit-later,
}
use cellframe_node.Conftool.ConfigFile.Save.{IsLine, IsLine-set, read_lines-line, classify-nil}
use cellframe_node.Conftool.ConfigFile.Twice.{set-set}

abbrev in_front : Bytes → Bytes → Bytes
in_front l text = l ++ b'\n' ∷ text

written-reload : (ls : List Bytes) → All IsLine ls → written (read_lines (written ls)) ≡ written ls
unfolding written read_lines
written-reload [] h = refl
written-reload (l ∷ ls) (inl plain, h) =
    ap written (read_lines-line l (written ls) plain) ∙ ap (in_front l) (written-reload ls h)
written-reload (l ∷ ls) (inr e, h) = rw e (ap (λ t. b'\n' ∷ b'\n' ∷ t) (written-reload ls h))

module _ (g p u : Bytes) where
  abbrev changed : Bool → List Bytes → List Bytes
  changed inside lines = edit g p u (scan g p inside lines) lines

  -- Both texts are the same after the change.
  abbrev Alike : Bool → List Bytes → List Bytes → Type 0
  Alike inside xs ys = written (changed inside xs) ≡ written (changed inside ys)

  -- A line that the search passes stays in front.
  changed-pass :
      (l : Bytes) (ls : List Bytes) (inside j : Bool)
      → scan g p inside (l ∷ ls) ≡ later (scan g p j ls)
      → changed inside (l ∷ ls) ≡ l ∷ changed j ls
  changed-pass l ls inside j e = rw e (edit-later g p u l ls (scan g p j ls))

  Alike-pass :
      (l : Bytes) (xs ys : List Bytes) (inside j : Bool)
      → ((ls : List Bytes) → scan g p inside (l ∷ ls) ≡ later (scan g p j ls))
      → Alike j xs ys
      → Alike inside (l ∷ xs) (l ∷ ys)
  unfolding written
  Alike-pass l xs ys inside j pass ih =
      ap written (changed-pass l xs inside j (pass xs))
      ∙ ap (in_front l) ih
      ∙ sym (ap written (changed-pass l ys inside j (pass ys)))

  Alike-cons :
      (l : Bytes) (xs ys : List Bytes)
      → written xs ≡ written ys
      → ((i : Bool) → Alike i xs ys)
      → (inside : Bool) (k : Line) → classify l ≡ k
      → Alike inside (l ∷ xs) (l ∷ ys)
  unfolding written edit
  Alike-cons l xs ys t ih i blank e = Alike-pass l xs ys i i (λ ls. scan-blank g p l ls i e) (ih i)
  Alike-cons l xs ys t ih i broken e =
      rw (scan-broken g p l xs i e, scan-broken g p l ys i e) (ap (in_front l) t)
  Alike-cons l xs ys t ih true malformed e =
      rw (scan-malformed g p l xs true e, scan-malformed g p l ys true e) (ap (in_front l) t)
  Alike-cons l xs ys t ih false malformed e =
      Alike-pass l xs ys false false (λ ls. scan-malformed g p l ls false e) (ih false)
  Alike-cons l xs ys t ih true (header n) e =
      rw (scan-header g p l xs true n e, scan-header g p l ys true n e)
        (ap (λ s. in_front (param_line p u) (in_front newline (in_front l s))) t)
  Alike-cons l xs ys t ih false (header n) e =
      Alike-pass l xs ys false (same n g) (λ ls. scan-header g p l ls false n e) (ih (same n g))
  Alike-cons l xs ys t ih true (entry a b) e = elim (Bool-cases (same a p)) [
    | inl hit ↦
        rw (scan-entry g p l xs true a b e, scan-entry g p l ys true a b e, hit)
          (ap (in_front (param_line p u)) t)
    | inr miss ↦
        Alike-pass l xs ys true true (λ ls. scan-entry g p l ls true a b e ∙ rw miss refl) (ih true)
  ]
  Alike-cons l xs ys t ih false (entry a b) e =
      Alike-pass l xs ys false false (λ ls. scan-entry g p l ls false a b e) (ih false)

  Alike-reload :
      (ls : List Bytes)
      → All IsLine ls
      → (inside : Bool) → Alike inside (read_lines (written ls)) ls
  unfolding written read_lines
  Alike-reload [] h i = refl
  Alike-reload (l ∷ ls) (inl plain, h) i =
      ap (λ xs. written (changed i xs)) (read_lines-line l (written ls) plain)
      ∙ Alike-cons l (read_lines (written ls)) ls (written-reload ls h) (Alike-reload ls h) i
          (classify l) refl
  Alike-reload (l ∷ ls) (inr e, h) i = rw e (
      ap written (
        changed-pass [] ([] ∷ read_lines (written ls)) i i
          (scan-blank g p [] ([] ∷ read_lines (written ls)) i classify-nil))
      ∙ ap (λ xs. written ([] ∷ xs))
          (changed-pass [] (read_lines (written ls)) i i
            (scan-blank g p [] (read_lines (written ls)) i classify-nil))
      ∙ ap (λ t. b'\n' ∷ b'\n' ∷ t) (Alike-reload ls h i)
      ∙ sym
          (ap written (changed-pass newline ls i i (scan-blank g p newline ls i classify-newline))))

-- A file that is loaded, changed and saved twice for one parameter has the text that the second
-- change alone leaves.
pub set_saved-set_saved :
    (text g p v u : Bytes)
    → IsName g
    → IsName p
    → IsValue v
    → IsReadable v
    → has b'\n' (param_line p v) ≡ false
    → has b'\n' (group_line g) ≡ false
    → written (set (read_lines (written (set (read_lines text) g p v))) g p u)
      ≡ written (set (read_lines text) g p u)
unfolding exists
set_saved-set_saved text g p v u ng np iv r hp hg =
    Alike-reload g p u (set (read_lines text) g p v) (IsLine-set text g p v hp hg) false
    ∙ ap written (set-set (read_lines text) g p v u ng np iv r)
