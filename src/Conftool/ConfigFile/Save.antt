-- ===== src/Conftool/ConfigFile/Save.antt =====
-- A configuration file that is saved and loaded again.
use cellframe_node.Prelude.{
  ◌≡◌, refl, ◌∙◌, ap, ◌⊎◌, inl, inr, Bool, true, false, ◌&&◌, List, [], ◌∷◌, ◌++◌, ◌==◌, arith,
  if◌then◌else◌, ℕ, All, sym, Bool-cases, ◌≢◌, All-append,
}
use cellframe_node.Prelude.Bytes.{Bytes, same, has}
use cellframe_node.Conftool.ConfigFile.{
  set, Line, blank, broken, malformed, header, entry, classify, Found, found, absent, thrown,
  crashed, scan, exists, newline, set_line, insert_lines, edit, param_line, group_line, written,
  onto_first, read_lines,
}
use cellframe_node.Conftool.ConfigFile.Plain.{
  classify-newline, IsName, IsValue, IsReadable, read_back,
}
use cellframe_node.Conftool.ConfigFile.Map.{lookup-set}
use cellframe_node.Conftool.ConfigFile.Steps.{
  value, unreadable, answer, lookup, answer-later, scan-blank, scan-broken, scan-malformed,
  scan-header, scan-entry,
}

-- A line as the constructor reads it or as `set` makes it: with no newline, or nothing else.
abbrev pub IsLine : Bytes → Type 0
IsLine l = (has b'\n' l ≡ false) ⊎ (l ≡ newline)

pub read_lines-line :
    (l rest : Bytes) → has b'\n' l ≡ false → read_lines (l ++ b'\n' ∷ rest) ≡ l ∷ read_lines rest
unfolding read_lines has
read_lines-line [] rest h = ground arith
read_lines-line (c ∷ l) rest h = ground (arith, read_lines-line l rest)

pub classify-nil : classify [] ≡ blank
unfolding classify
classify-nil = refl

module _ (g p : Bytes) where
  -- Searches that agree on the rest agree with a line in front.
  answer-cons :
      (l : Bytes) (xs ys : List Bytes) (inside : Bool) (k : Line)
      → classify l ≡ k
      → ((i : Bool) → answer (scan g p i xs) ≡ answer (scan g p i ys))
      → answer (scan g p inside (l ∷ xs)) ≡ answer (scan g p inside (l ∷ ys))
  answer-cons l xs ys i blank e ih =
      rw (scan-blank g p l xs i e, scan-blank g p l ys i e)
        (answer-later (scan g p i xs) ∙ ih i ∙ sym (answer-later (scan g p i ys)))
  answer-cons l xs ys i broken e ih = rw (scan-broken g p l xs i e, scan-broken g p l ys i e)
  answer-cons l xs ys i malformed e ih =
      rw (scan-malformed g p l xs i e, scan-malformed g p l ys i e)
        (ground
          (arith, answer-later (scan g p false xs), answer-later (scan g p false ys), ih false))
  answer-cons l xs ys i (header n) e ih =
      rw (scan-header g p l xs i n e, scan-header g p l ys i n e)
        (ground (
          arith,
          answer-later (scan g p (same n g) xs),
          answer-later (scan g p (same n g) ys),
          ih (same n g),
        ))
  answer-cons l xs ys i (entry q v) e ih =
      rw (scan-entry g p l xs i q v e, scan-entry g p l ys i q v e)
        (ground (arith, answer-later (scan g p i xs), answer-later (scan g p i ys), ih i))

  answer-blank :
      (l : Bytes) (ls : List Bytes) (inside : Bool)
      → classify l ≡ blank
      → answer (scan g p inside (l ∷ ls)) ≡ answer (scan g p inside ls)
  answer-blank l ls inside e =
      ap answer (scan-blank g p l ls inside e) ∙ answer-later (scan g p inside ls)

  answer-reload :
      (ls : List Bytes) (inside : Bool)
      → All IsLine ls
      → answer (scan g p inside (read_lines (written ls))) ≡ answer (scan g p inside ls)
  unfolding written read_lines
  answer-reload [] inside h = refl
  answer-reload (l ∷ ls) inside (inl plain, h) = rw (read_lines-line l (written ls) plain) (
      answer-cons l (read_lines (written ls)) ls inside (classify l) refl
        (λ i. answer-reload ls i h))
  answer-reload (l ∷ ls) inside (inr e, h) = rw e (
      answer-blank [] ([] ∷ read_lines (written ls)) inside classify-nil
      ∙ answer-blank [] (read_lines (written ls)) inside classify-nil
      ∙ answer-reload ls inside h
      ∙ sym (answer-blank newline ls inside classify-newline))

-- Of a file that is saved and loaded, every search gets the answer that it got before.
pub lookup-reload :
    (lines : List Bytes) (g p : Bytes)
    → All IsLine lines
    → lookup (read_lines (written lines)) g p ≡ lookup lines g p
unfolding exists
lookup-reload lines g p h = answer-reload g p lines false h

-- What `std::getline` reads has no newline.
IsLine-onto_first :
    (c : ℕ) (ls : List Bytes)
    → (c == b'\n') ≡ false
    → All (λ l. has b'\n' l ≡ false) ls
    → All (λ l. has b'\n' l ≡ false) (onto_first c ls)
unfolding has
IsLine-onto_first c [] h k = ground arith
IsLine-onto_first c (l ∷ ls) h (k, ks) = (ground arith, ks)

pub read_lines-plain : (text : Bytes) → All (λ l. has b'\n' l ≡ false) (read_lines text)
unfolding read_lines has
read_lines-plain [] = tt
read_lines-plain (c ∷ cs) = elim (Bool-cases (c == b'\n')) [
  | inl e ↦ rw e (refl, read_lines-plain cs)
  | inr e ↦ rw e (IsLine-onto_first c (read_lines cs) e (read_lines-plain cs))
]

All-map : (ls : List Bytes) → All (λ l. has b'\n' l ≡ false) ls → All IsLine ls
All-map [] h = tt
All-map (l ∷ ls) (k, ks) = (inl k, All-map ls ks)

set_line-IsLine :
    (i : ℕ) (l : Bytes) (ls : List Bytes) → IsLine l → All IsLine ls → All IsLine (set_line i l ls)
set_line-IsLine i l [] h k = tt
set_line-IsLine ℕ.zero l (x ∷ xs) h (k, ks) = (h, ks)
set_line-IsLine (ℕ.suc i) l (x ∷ xs) h (k, ks) = (k, set_line-IsLine i l xs h ks)

insert_lines-IsLine :
    (i : ℕ) (new ls : List Bytes)
    → All IsLine new
    → All IsLine ls
    → All IsLine (insert_lines i new ls)
insert_lines-IsLine ℕ.zero new ls h k = All-append IsLine new ls h k
insert_lines-IsLine (ℕ.suc i) new [] h k = h
insert_lines-IsLine (ℕ.suc i) new (x ∷ xs) h (k, ks) = (k, insert_lines-IsLine i new xs h ks)

edit-IsLine :
    (g p v : Bytes) (r : Found) (ls : List Bytes)
    → IsLine (param_line p v)
    → IsLine (group_line g)
    → All IsLine ls
    → All IsLine (edit g p v r ls)
unfolding edit
edit-IsLine g p v (found u i) ls hp hg h = set_line-IsLine i (param_line p v) ls hp h
edit-IsLine g p v (absent true i) ls hp hg h =
    insert_lines-IsLine i (param_line p v ∷ newline ∷ []) ls (hp, (inr refl, tt)) h
edit-IsLine g p v (absent false i) ls hp hg h =
    insert_lines-IsLine i (group_line g ∷ param_line p v ∷ newline ∷ []) ls
      (hg, (hp, (inr refl, tt))) h
edit-IsLine g p v thrown ls hp hg h = h
edit-IsLine g p v crashed ls hp hg h = h

pub IsLine-set :
    (text g p v : Bytes)
    → has b'\n' (param_line p v) ≡ false
    → has b'\n' (group_line g) ≡ false
    → All IsLine (set (read_lines text) g p v)
IsLine-set text g p v hp hg =
    edit-IsLine g p v (exists (read_lines text) g p) (read_lines text) (inl hp) (inl hg)
      (All-map (read_lines text) (read_lines-plain text))

-- Of a file that is loaded, changed by one `set` and saved, and then loaded again, a search for
-- this parameter in this group finds what is read back of the value, and every other search gets
-- the answer that the file gave before. The names and the value hold no newline, and the first
-- file could be searched for the parameter.
pub lookup-set_saved :
    (text g p v h q : Bytes)
    → IsName g
    → IsName p
    → IsValue v
    → IsReadable v
    → has b'\n' (param_line p v) ≡ false
    → has b'\n' (group_line g) ≡ false
    → lookup (read_lines text) g p ≢ unreadable
    → lookup (read_lines (written (set (read_lines text) g p v))) h q
      ≡ (if same g h && same p q then value (read_back v) else lookup (read_lines text) h q)
lookup-set_saved text g p v h q ng np iv r hp hg ok =
    lookup-reload (set (read_lines text) g p v) h q (IsLine-set text g p v hp hg)
    ∙ lookup-set (read_lines text) g p v h q ng np iv r ok
