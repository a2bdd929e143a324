-- ===== src/Conftool/ConfigFile/Map.antt =====
-- A configuration file as a map from groups and parameters to values: what `set` does to it.
use cellframe_node.Prelude.{
  ◌≡◌, refl, ◌≢◌, ◌∙◌, ap, inl, inr, Bool, true, false, ◌&&◌, List, [], ◌∷◌, arith, if◌then◌else◌,
  Bool-cases,
}
use cellframe_node.Prelude.Bytes.{Bytes, same, same_iff}
use cellframe_node.Conftool.ConfigFile.{
  Line, blank, broken, malformed, header, entry, classify, later, scan, exists, param_line,
  group_line, newline, edit, set,
}
use cellframe_node.Conftool.ConfigFile.Plain.{
  IsName, IsValue, IsReadable, read_back, classify-param, classify-group, classify-newline,
}
use cellframe_node.Conftool.ConfigFile.Steps.{
  value, unreadable, answer, lookup, answer-later, scan-blank, scan-broken, scan-malformed,
  scan-header, scan-entry, edit-later, same_cong,
}

module _ (g p v w h q : Bytes) (read : classify (param_line p v) ≡ entry p w)
    (named : classify (group_line g) ≡ header g) where
  abbrev after : Bool → List Bytes → List Bytes
  after inside lines = edit g p v (scan g p inside lines) lines

  -- The two searches are both in the group, or not both in a group.
  abbrev Agree : Bool → Bool → Type 0
  Agree inside inside' =
      (same g h ≡ true → inside ≡ inside') × (inside && inside' ≡ true → same g h ≡ true)

  abbrev Goal : Bool → Bool → List Bytes → Type 0
  Goal inside inside' lines =
      answer (scan h q inside' (after inside lines))
      ≡ (if same g h && same p q then value w else answer (scan h q inside' lines))

  -- The new line of the parameter in front of `rest`, for a search that agrees.
  new_line :
      (inside' : Bool) (rest : List Bytes)
      → answer (scan h q inside' (param_line p v ∷ rest))
        ≡ (if inside' && same p q then value w else answer (scan h q inside' rest))
  new_line inside' rest = ground (
    arith,
    scan-entry h q (param_line p v) rest inside' p w read,
    answer-later (scan h q inside' rest),
  )

  new_lines :
      (inside' : Bool) (rest : List Bytes)
      → answer (scan h q inside' (param_line p v ∷ newline ∷ rest))
        ≡ (if inside' && same p q then value w else answer (scan h q inside' rest))
  new_lines inside' rest = ground (
    arith,
    new_line inside' (newline ∷ rest),
    scan-blank h q newline rest inside' classify-newline,
    answer-later (scan h q inside' rest),
  )

  search-nil : (inside inside' : Bool) → Agree inside inside' → Goal inside inside' []
  unfolding edit scan
  search-nil true inside' agree = ground (arith, new_lines inside' [])
  search-nil false true agree =
      ground (arith, scan-header h q (group_line g) (param_line p v ∷ newline ∷ []) true g named)
  search-nil false false agree = ground (
    arith,
    new_lines (same g h) [],
    scan-header h q (group_line g) (param_line p v ∷ newline ∷ []) false g named,
    answer-later (scan h q (same g h) (param_line p v ∷ newline ∷ [])),
  )

  -- A line that both searches pass.
  search-pass :
      (l : Bytes) (ls : List Bytes) (inside inside' j j' : Bool)
      → scan g p inside (l ∷ ls) ≡ later (scan g p j ls)
      → ((xs : List Bytes) → answer (scan h q inside' (l ∷ xs)) ≡ answer (scan h q j' xs))
      → Goal j j' ls
      → Goal inside inside' (l ∷ ls)
  search-pass l ls inside inside' j j' step pass ih =
      rw (step, edit-later g p v l ls (scan g p j ls)) (rw (pass (after j ls), pass ls) ih)

  module _ (l : Bytes) (ls : List Bytes) where
    search-blank :
        (inside inside' : Bool)
        → classify l ≡ blank
        → Goal inside inside' ls
        → Goal inside inside' (l ∷ ls)
    search-blank inside inside' e =
        search-pass l ls inside inside' inside inside' (scan-blank g p l ls inside e)
          λ xs. ap answer (scan-blank h q l xs inside' e) ∙ answer-later (scan h q inside' xs)

    -- An entry, for the search for `q`.
    answer-entry :
        (inside' : Bool) (a b : Bytes) (xs : List Bytes)
        → classify l ≡ entry a b
        → answer (scan h q inside' (l ∷ xs))
          ≡ (if inside' && same a q then value b else answer (scan h q inside' xs))
    answer-entry inside' a b xs e =
        ground (arith, scan-entry h q l xs inside' a b e, answer-later (scan h q inside' xs))

    search-entry :
        (inside inside' : Bool)
        → Agree inside inside'
        → (a b : Bytes) → classify l ≡ entry a b
        → ((inside && same a p) ≡ false → Goal inside inside' ls)
        → Goal inside inside' (l ∷ ls)
    unfolding edit
    search-entry inside inside' agree a b e ih = elim (Bool-cases (inside && same a p)) [
      | inl hit ↦
          rw (scan-entry g p l ls inside a b e, hit)
            (ground (
              arith,
              new_line inside' ls,
              answer-entry inside' a b ls e,
              same_iff a p,
              same_iff p q,
              same_iff a q,
            ))
      | inr miss ↦
          rw (scan-entry g p l ls inside a b e, miss, edit-later g p v l ls (scan g p inside ls))
            (ground (
              arith,
              ih miss,
              answer-entry inside' a b (after inside ls) e,
              answer-entry inside' a b ls e,
              same_iff a p,
              same_iff p q,
              same_iff a q,
            ))
    ]

    answer-header :
        (n : Bytes) (xs : List Bytes)
        → classify l ≡ header n
        → answer (scan h q false (l ∷ xs)) ≡ answer (scan h q (same n h) xs)
    answer-header n xs e =
        ap answer (scan-header h q l xs false n e) ∙ answer-later (scan h q (same n h) xs)

    search-header :
        (inside inside' : Bool)
        → Agree inside inside'
        → (n : Bytes) → classify l ≡ header n
        → (inside ≡ false → Goal (same n g) (same n h) ls)
        → Goal inside inside' (l ∷ ls)
    unfolding edit
    search-header true inside' agree n e ih =
        rw (scan-header g p l ls true n e) (ground (arith, new_lines inside' (l ∷ ls)))
    search-header false true agree n e ih =
        rw (scan-header g p l ls false n e, edit-later g p v l ls (scan g p (same n g) ls))
          (rw (scan-header h q l ls true n e, scan-header h q l (after (same n g) ls) true n e)
            (ground arith))
    search-header false false agree n e ih =
        search-pass l ls false false (same n g) (same n h) (scan-header g p l ls false n e)
          (λ xs. answer-header n xs e) (ih refl)

    search-malformed :
        (inside inside' : Bool)
        → Agree inside inside'
        → classify l ≡ malformed
        → answer (scan g p inside (l ∷ ls)) ≢ unreadable
        → Goal false false ls
        → Goal inside inside' (l ∷ ls)
    unfolding edit
    search-malformed true inside' agree e ok ih =
        absurd (ok (ap answer (scan-malformed g p l ls true e)))
    search-malformed false true agree e ok ih =
        rw (scan-malformed g p l ls false e, edit-later g p v l ls (scan g p false ls))
          (rw (scan-malformed h q l ls true e, scan-malformed h q l (after false ls) true e)
            (ground arith))
    search-malformed false false agree e ok ih =
        search-pass l ls false false false false (scan-malformed g p l ls false e)
          (λ xs. ap answer (scan-malformed h q l xs false e) ∙ answer-later (scan h q false xs)) ih

  -- A search that passes a line can be read behind it too.
  Agree-header : (n : Bytes) → Agree (same n g) (same n h)
  Agree-header n = (same_cong g h n, ground (arith, same_iff n g, same_iff n h, same_iff g h))

  -- What the search for the place of the change can read.
  abbrev Readable : Bool → List Bytes → Type 0
  Readable inside lines = answer (scan g p inside lines) ≢ unreadable

  search-line :
      (l : Bytes) (ls : List Bytes)
      → ((i i' : Bool) → Agree i i' → Readable i ls → Goal i i' ls)
      → (inside inside' : Bool) → Agree inside inside'
      → Readable inside (l ∷ ls)
      → (k : Line) → classify l ≡ k
      → Goal inside inside' (l ∷ ls)
  search-line l ls ih i i' agree ok blank e =
      search-blank l ls i i' e
        (ih i i' agree (λ r. ok (ap answer (scan-blank g p l ls i e) ∙ answer-later _ ∙ r)))
  search-line l ls ih i i' agree ok broken e = absurd (ok (ap answer (scan-broken g p l ls i e)))
  search-line l ls ih true i' agree ok malformed e =
      absurd (ok (ap answer (scan-malformed g p l ls true e)))
  search-line l ls ih false i' agree ok malformed e = search-malformed l ls false i' agree e ok (
      ih false false (λ _. refl, λ r. cc)
        (λ r. ok (ap answer (scan-malformed g p l ls false e) ∙ answer-later _ ∙ r)))
  search-line l ls ih i i' agree ok (header n) e = search-header l ls i i' agree n e λ out.
      ih (same n g) (same n h) (Agree-header n)
        λ r. ok (ap answer (scan-header g p l ls i n e) ∙ rw out (answer-later _ ∙ r))
  search-line l ls ih i i' agree ok (entry a b) e = search-entry l ls i i' agree a b e λ miss.
      ih i i' agree λ r. ok (ap answer (scan-entry g p l ls i a b e) ∙ rw miss (answer-later _ ∙ r))

  search-set :
      (lines : List Bytes) (inside inside' : Bool)
      → Agree inside inside'
      → Readable inside lines
      → Goal inside inside' lines
  search-set [] inside inside' agree ok = search-nil inside inside' agree
  search-set (l ∷ ls) inside inside' agree ok =
      search-line l ls (λ i i'. search-set ls i i') inside inside' agree ok (classify l) refl

pub lookup-set :
    (lines : List Bytes) (g p v h q : Bytes)
    → IsName g
    → IsName p
    → IsValue v
    → IsReadable v
    → lookup lines g p ≢ unreadable
    → lookup (set lines g p v) h q
      ≡ (if same g h && same p q then value (read_back v) else lookup lines h q)
unfolding exists
lookup-set lines g p v h q ng np iv r ok =
    search-set g p v (read_back v) h q (classify-param p v np iv r) (classify-group g ng) lines
      false false (λ _. refl, λ e. cc) ok
