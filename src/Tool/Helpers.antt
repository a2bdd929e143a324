-- ===== src/Tool/Helpers.antt =====
-- The two functions of sources/main_node_tool.c that nothing calls: s_is_file_available and
-- s_fill_hash_key_for_data.
use cellframe_node.Prelude.{
  ℕ, zero, suc, ◌%◌, ◌^◌, ◌≤◌, ◌<◌, ◌≡◌, refl, ◌∙◌, ap, Bool, not, ◌&&◌, Option, none, some, List,
  [], ◌∷◌, ◌++◌, ◌==◌, length, drop, arith, if◌then◌else◌, is_some, Option-cases, inl, inr, ℤ, pos,
  neg, String,
}
use cellframe_node.Prelude.Text.{◌<>◌, snprintf}
use cellframe_node.Process.{Outcome, ret, fault}

-- `s_is_file_available`, with whether `access` returns 0: without an extension a null pointer is
-- printed.
unfoldable pub is_file_available : ℕ → (String → Bool) → String → String → Option String → Outcome ℤ
is_file_available max_path access path name none = fault
is_file_available max_path access path name (some ext) =
    ret (if access (snprintf max_path (path <> "/" <> name <> ext)) then pos 0 else neg 1)

-- What the SDK answers about the key, the sizes of its data being their lengths; whether there is
-- memory.
pub record Key : Type 0 where
  pub output_size : ℕ
  pub pub_key : Option (List ℕ)
  pub sign : Option (List ℕ)
  pub has_memory : Bool
  -- `dap_hash_fast`
  pub hash_fast : List ℕ → List ℕ

abbrev pub first : ℕ → List ℕ → List ℕ
first zero xs = []
first (suc n) [] = []
first (suc n) (x ∷ xs) = x ∷ first n xs

-- `s[i] = fast_hash.raw[i]` in turn; a write behind the data is undefined.
unfoldable pub copy_hash : List ℕ → List ℕ → Outcome (List ℕ)
copy_hash [] bytes = ret bytes
copy_hash (h ∷ hs) [] = fault
copy_hash (h ∷ hs) (d ∷ ds) = elim (copy_hash hs ds) [
  | ret rest ↦ ret (h ∷ rest)
  | Outcome.exit c ↦ Outcome.exit c
  | fault ↦ fault
]

-- The part of `pkey_n_sign` that is hashed: `sign_pkey_size` has 32 bits.
abbrev pub hashed : List ℕ → List ℕ → List ℕ
hashed pub_key sign = first (length pub_key % 2 ^ 32) (pub_key ++ sign)

abbrev pub fill_signed : Key → List ℕ → Option (List ℕ) → List ℕ → Outcome (List ℕ)
fill_signed k pub_key none bytes = ret bytes
fill_signed k pub_key (some sign) bytes =
    if k.has_memory then copy_hash (k.hash_fast (hashed pub_key sign)) bytes else ret bytes

abbrev pub fill_with : Key → Option (List ℕ) → List ℕ → Outcome (List ℕ)
fill_with k none bytes = ret bytes
fill_with k (some pub_key) bytes = fill_signed k pub_key k.sign bytes

-- `s_fill_hash_key_for_data`, on the bytes behind `l_data`.
unfoldable pub fill_hash_key_for_data : Key → List ℕ → Outcome (List ℕ)
unfolding copy_hash
fill_hash_key_for_data k bytes =
    if k.output_size == 0 then ret bytes else fill_with k k.pub_key bytes

copy_hash-enough :
    (hs bytes : List ℕ)
    → length hs ≤ length bytes
    → copy_hash hs bytes ≡ ret (hs ++ drop (length hs) bytes)
unfolding copy_hash
copy_hash-enough [] bytes h = refl
copy_hash-enough (x ∷ hs) [] h = absurd (omega (arith, h))
copy_hash-enough (x ∷ hs) (d ∷ ds) h = rw (copy_hash-enough hs ds (omega (arith, h))) refl

first-append : (xs ys : List ℕ) → first (length xs) (xs ++ ys) ≡ xs
first-append [] ys = refl
first-append (x ∷ xs) ys = ap (λ r. x ∷ r) (first-append xs ys)

mod_small : (n : ℕ) → n < 2 ^ 32 → n % 2 ^ 32 ≡ n
mod_small n h = omega (arith, h)

hashed-pub_key : (pub_key sign : List ℕ) → length pub_key < 2 ^ 32 → hashed pub_key sign ≡ pub_key
hashed-pub_key pub_key sign h =
    ap (λ n. first n (pub_key ++ sign)) (mod_small (length pub_key) h) ∙ first-append pub_key sign

-- The key can be signed with and serialized, and there is memory.
abbrev pub can_hash : Key → Bool
can_hash k = not (k.output_size == 0) && (is_some k.sign && k.has_memory)

-- Data that is long enough for the hash begins with the hash of the public key alone, and goes on as
-- before, if the SDK answers everything; it is as before if it does not.
pub fill_hash_key_for_data-hash :
    (k : Key) (pub_key bytes : List ℕ)
    → k.pub_key ≡ some pub_key
    → length pub_key < 2 ^ 32
    → length (k.hash_fast pub_key) ≤ length bytes
    → fill_hash_key_for_data k bytes
      ≡ ret (
          if can_hash k
          then k.hash_fast pub_key ++ drop (length (k.hash_fast pub_key)) bytes
          else bytes)
unfolding fill_hash_key_for_data
fill_hash_key_for_data-hash k pub_key bytes e small enough = rw e (elim (Option-cases k.sign) [
  | inl n ↦ rw n (ground arith)
  | inr (sign, f) ↦
      rw (f, hashed-pub_key pub_key sign small, copy_hash-enough (k.hash_fast pub_key) bytes enough)
        (ground arith)
])
