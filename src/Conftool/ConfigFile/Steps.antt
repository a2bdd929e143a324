-- ===== src/Conftool/ConfigFile/Steps.antt =====
-- One step of the search through a configuration file, by what the line is; and what a search
-- tells.
use cellframe_node.Prelude.{◌≡◌, refl, Bool, true, false, ◌&&◌, List, ◌∷◌, if◌then◌else◌, arith}
use cellframe_node.Prelude.Bytes.{same, same_iff, Bytes}
use cellframe_node.Conftool.ConfigFile.{
  blank, broken, malformed, header, entry, classify, Found, found, absent, thrown, crashed, later,
  scan, exists, edit,
}

-- What a search tells of the map: the value, that there is none, or a line that cannot be read.
pub data Answer : Type 0 where
  value : Bytes → Answer
  nothing unreadable : Answer

abbrev pub answer : Found → Answer
answer (found v i) = value v
answer (absent g i) = nothing
answer thrown = unreadable
answer crashed = unreadable

abbrev pub lookup : List Bytes → Bytes → Bytes → Answer
lookup lines g p = answer (exists lines g p)

pub answer-later : (r : Found) → answer (later r) ≡ answer r
answer-later (found v i) = refl
answer-later (absent g i) = refl
answer-later thrown = refl
answer-later crashed = refl

-- One step of a search, by what the line is.
module _ (g p l : Bytes) (ls : List Bytes) where
  pub scan-blank :
      (inside : Bool) → classify l ≡ blank → scan g p inside (l ∷ ls) ≡ later (scan g p inside ls)
  unfolding scan
  scan-blank true e = rw (e, scan)
  scan-blank false e = rw (e, scan)

  pub scan-broken : (inside : Bool) → classify l ≡ broken → scan g p inside (l ∷ ls) ≡ crashed
  unfolding scan
  scan-broken true e = rw (e, scan)
  scan-broken false e = rw (e, scan)

  pub scan-malformed :
      (inside : Bool)
      → classify l ≡ malformed
      → scan g p inside (l ∷ ls) ≡ (if inside then thrown else later (scan g p false ls))
  unfolding scan
  scan-malformed true e = rw (e, scan)
  scan-malformed false e = rw (e, scan)

  pub scan-header :
      (inside : Bool) (n : Bytes)
      → classify l ≡ header n
      → scan g p inside (l ∷ ls)
        ≡ (if inside then absent true 0 else later (scan g p (same n g) ls))
  unfolding scan
  scan-header true n e = rw (e, scan)
  scan-header false n e = rw (e, scan)

  pub scan-entry :
      (inside : Bool) (q v : Bytes)
      → classify l ≡ entry q v
      → scan g p inside (l ∷ ls)
        ≡ (if inside && same q p then found v 0 else later (scan g p inside ls))
  unfolding scan
  scan-entry true q v e = rw (e, scan)
  scan-entry false q v e = rw (e, scan)

-- A change behind a line.
pub edit-later :
    (g p v l : Bytes) (ls : List Bytes) (r : Found)
    → edit g p v (later r) (l ∷ ls) ≡ l ∷ edit g p v r ls
unfolding edit
edit-later g p v l ls (found u i) = refl
edit-later g p v l ls (absent true i) = refl
edit-later g p v l ls (absent false i) = refl
edit-later g p v l ls thrown = refl
edit-later g p v l ls crashed = refl

pub same_cong : (a b c : Bytes) → same a b ≡ true → same c a ≡ same c b
same_cong a b c h = ground (arith, same_iff a b, same_iff c a, same_iff c b)
