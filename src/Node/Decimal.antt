-- ===== src/Node/Decimal.antt =====
-- What `fprintf(f, "%d", n)` writes for a number that is not negative, and what `fscanf(f, "%d", …)`
-- answers on the bytes of a file: the two C library calls of `s_proc_running_check` that handle text.
use cellframe_node.Prelude.{
  ℕ, zero, suc, ◌+◌, ◌/◌, ◌%◌, ◌≤◌, ◌<◌, ◌≡◌, refl, Bool, true, false, ◌||◌, ◌&&◌, List, [], ◌∷◌,
  arith, ltb, leb, ◌==◌, if◌then◌else◌,
}

-- The digits of `n` in front of `acc`; a number below 10 is its own last step.
digits_onto : ℕ → ℕ → List ℕ → List ℕ
digits_onto zero n acc = acc
digits_onto (suc fuel) n acc =
    let rest = digits_onto fuel (n / 10) ((n % 10 + 48) ∷ acc) in
    if ltb n 10 then (n + 48) ∷ acc else rest

unfoldable pub decimal : ℕ → List ℕ
unfolding digits_onto
decimal n = digits_onto (suc n) n []

abbrev pub is_digit : ℕ → Bool
is_digit c = leb 48 c && leb c 57

-- White space, as `isspace` has it in the C locale.
abbrev pub is_space : ℕ → Bool
is_space c = c == 32 || (leb 9 c && leb c 13)

-- The count that `fscanf` returns for one `%d`.
pub data Scan : Type 0 where
  end_of_file mismatch converted : Scan

-- What is read behind a sign.
abbrev scan_digit : List ℕ → Scan
scan_digit [] = mismatch
scan_digit (c ∷ _) = if is_digit c then converted else mismatch

unfoldable pub scan_int : List ℕ → Scan
scan_int [] = end_of_file
scan_int (c ∷ cs) =
    let rest = scan_int cs in
    if is_space c then rest else if c == 43 || c == 45 then scan_digit cs else scan_digit (c ∷ cs)

-- `end_of_file` is the constant EOF, -1, which a condition takes for true.
abbrev pub is_nonzero : Scan → Bool
is_nonzero mismatch = false
is_nonzero _ = true

-- A list that begins with a digit.
abbrev BeginsWithDigit : List ℕ → Type 0
BeginsWithDigit [] = ⊥
BeginsWithDigit (c ∷ _) = (48 ≤ c) × (c ≤ 57)

digits_onto-BeginsWithDigit :
    (fuel n : ℕ) (acc : List ℕ) → n < fuel → BeginsWithDigit (digits_onto fuel n acc)
unfolding digits_onto
digits_onto-BeginsWithDigit zero n acc h = absurd (omega arith)
digits_onto-BeginsWithDigit (suc fuel) n acc h =
    ground (arith, digits_onto-BeginsWithDigit fuel (n / 10) ((n % 10 + 48) ∷ acc))

scan_int_of_digit : (cs : List ℕ) → BeginsWithDigit cs → scan_int cs ≡ converted
unfolding scan_int
scan_int_of_digit [] h = absurd h
scan_int_of_digit (c ∷ cs) h = ground arith

-- What `%d` writes, `%d` reads.
pub scan_int-decimal : (n : ℕ) → scan_int (decimal n) ≡ converted
unfolding decimal
scan_int-decimal n =
    scan_int_of_digit (decimal n) (digits_onto-BeginsWithDigit (suc n) n [] (omega arith))

decimal_runs : decimal 4507 ≡ b'4' ∷ b'5' ∷ b'0' ∷ b'7' ∷ []
unfolding decimal
decimal_runs = refl
