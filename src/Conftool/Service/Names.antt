-- ===== src/Conftool/Service/Names.antt =====
-- The names that `net_list` reads out of the files' names.
use cellframe_node.Prelude.{
  ℕ, zero, suc, ◌<◌, ◌≡◌, refl, ◌∙◌, ap, sym, subst, ◌⊎◌, inl, inr, Bool, true, false, not, ◌&&◌,
  Option, none, some, List, [], ◌∷◌, ◌++◌, append_assoc, append-nil, arith, length, length-append,
  drop, if◌then◌else◌, Bool-cases, map,
}
use cellframe_node.Prelude.Bytes.{Bytes, codes, has, starts_with, contains, replace_all}
use cellframe_node.Prelude.Bytes.Replacing.{
  replace_all-pass, contains-pass, replace_all-skip, starts_with-rest,
}
use cellframe_node.Conftool.Service.{
  next, find, erase, remove_loop, NetFilter, wants_on, wants_off, net_info, net_infos,
}

abbrev shift : ℕ → Option ℕ → Option ℕ
shift zero o = o
shift (suc n) o = next (shift n o)

find-behind :
    (needle a t : Bytes) → find needle (length a) (a ++ t) ≡ shift (length a) (find needle zero t)
unfolding find
find-behind needle [] t = refl
find-behind needle (c ∷ a) t = ap next (find-behind needle a t)

shift-length : (a u : Bytes) → shift (length a) (some (length u)) ≡ some (length (a ++ u))
shift-length [] u = refl
shift-length (c ∷ a) u = ap next (shift-length a u)

shift-none : (a : Bytes) → shift (length a) none ≡ none
shift-none [] = refl
shift-none (c ∷ a) = ap next (shift-none a)

drop-length : (n t : Bytes) → drop (length n) (n ++ t) ≡ t
drop-length [] t = refl
drop-length (c ∷ n) t = drop-length n t

erase-behind : (b n t : Bytes) → erase (length b) (length n) (b ++ (n ++ t)) ≡ b ++ t
unfolding erase
erase-behind [] n t = drop-length n t
erase-behind (c ∷ b) n t = ap (λ r. c ∷ r) (erase-behind b n t)

starts_with_self : (n t : Bytes) → starts_with n (n ++ t) ≡ true
unfolding starts_with
starts_with_self [] t = refl
starts_with_self (c ∷ n) t = ground (arith, starts_with_self n t)

module _ (x : ℕ) (xs : Bytes) where
  abbrev pub needle : Bytes
  needle = x ∷ xs

  abbrev pub removed : Bytes → Bytes
  removed t = replace_all needle [] zero t

  -- Where the needle is found first, and what is left; or it is not there.
  abbrev FoundAt : Bytes → Type 0
  FoundAt t =
      (u : Bytes) × (rest : Bytes) × (t ≡ u ++ (needle ++ rest))
      × (find needle zero t ≡ some (length u))
      × (removed t ≡ u ++ removed rest)

  abbrev Missing : Bytes → Type 0
  Missing t = (find needle zero t ≡ none) × (removed t ≡ t)

  find-here : (rest : Bytes) → FoundAt (needle ++ rest)
  unfolding find replace_all starts_with
  find-here rest = (
    [],
    rest,
    refl,
    ground (arith, starts_with_self xs rest),
    ground (arith, starts_with_self xs rest, replace_all-skip needle [] xs rest),
  )

  search : (t : Bytes) → Missing t ⊎ FoundAt t
  unfolding find replace_all starts_with
  search [] = inl (refl, refl)
  search (c ∷ cs) = elim (Bool-cases (starts_with needle (c ∷ cs))) [
    | inl hit ↦
        let more = starts_with-rest needle (c ∷ cs) hit in
        inr (subst FoundAt (sym more.1) (find-here more.0))
    | inr miss ↦ elim (search cs) [
      | inl (f, r) ↦ inl (ground arith, ground arith)
      | inr (u, rest, e, f, r) ↦ inr (c ∷ u, rest, ap (λ s. c ∷ s) e, ground arith, ground arith)
    ]
  ]

  -- The loop with its position behind `a`, which it has searched.
  loop-removed :
      (turns : ℕ) (a t : Bytes)
      → length t < turns
      → remove_loop turns needle (length a) (a ++ t) ≡ some (a ++ removed t)
  unfolding remove_loop
  loop-removed zero a t h = absurd (omega arith)
  loop-removed (suc turns) a t h = elim (search t) [
    | inl (f, r) ↦
        rw (find-behind needle a t ∙ ap (shift (length a)) f ∙ shift-none a, remove_loop)
          (ap (λ s. some (a ++ s)) (sym r))
    | inr (u, rest, e, f, r) ↦
        rw (find-behind needle a t ∙ ap (shift (length a)) f ∙ shift-length a u, remove_loop)
          (ap
              (λ s.
                remove_loop turns needle (length (a ++ u))
                  (erase (length (a ++ u)) (length needle) s))
              (ap (λ s. a ++ s) e ∙ sym (append_assoc a u (needle ++ rest)))
            ∙ ap (remove_loop turns needle (length (a ++ u))) (erase-behind (a ++ u) needle rest)
            ∙ loop-removed turns (a ++ u) rest (shorter u rest e)
            ∙ ap some (append_assoc a u (removed rest) ∙ ap (λ s. a ++ s) (sym r)))
  ]
    where
      shorter : (u rest : Bytes) → t ≡ u ++ (needle ++ rest) → length rest < turns
      shorter u rest e =
          omega (arith, ap length e, length-append u (needle ++ rest), length-append needle rest)

  -- The loop of `removeSubstring` ends, for a text that is not empty to be removed, within one turn
  -- more than the name has characters, and leaves the name without the occurrences of that text that
  -- a search from the left finds one behind the other.
  pub remove_loop-removed :
      (turns : ℕ) (name : Bytes)
      → length name < turns
      → remove_loop turns needle zero name ≡ some (removed name)
  remove_loop-removed turns name h = loop-removed turns [] name h

-- A network's name, and whether its file is that of an enabled one.
abbrev pub Network : Type 0
Network = Bytes × Bool

abbrev pub file_of : Network → Bytes × Bool
file_of (name, true) = (name ++ codes ".cfg", true)
file_of (name, false) = (name ++ codes ".cfg.dis", true)

abbrev pub wanted : NetFilter → Bool → Bool
wanted filter true = wants_on filter
wanted filter false = wants_off filter

abbrev pub state_name : Bool → Bytes
state_name true = codes "on"
state_name false = codes "off"

-- The networks of this state, each under its name.
unfoldable pub infos_of : NetFilter → List Network → List (Bytes × Bytes)
infos_of filter [] = []
infos_of filter ((name, enabled) ∷ nets) =
    (if wanted filter enabled then (name, state_name enabled) ∷ [] else []) ++ infos_of filter nets

unfoldable pub no_dots : List Network → Bool
unfolding has
no_dots [] = true
no_dots ((name, enabled) ∷ nets) = not (has b'.' name) && no_dots nets

net_info-file :
    (filter : NetFilter) (name : Bytes) (enabled : Bool)
    → has b'.' name ≡ false
    → net_info filter (file_of (name, enabled)).0
      ≡ (if wanted filter enabled then (name, state_name enabled) ∷ [] else [])
unfolding net_info contains starts_with replace_all
net_info-file filter name true h = ground (
  arith,
  contains-pass b'.' (codes "dis") name (codes ".cfg") h,
  contains-pass b'.' (codes "cfg") name (codes ".cfg") h,
  replace_all-pass b'.' (codes "cfg") [] name (codes ".cfg") h,
  append-nil name,
)
net_info-file filter name false h = ground (
  arith,
  contains-pass b'.' (codes "dis") name (codes ".cfg.dis") h,
  contains-pass b'.' (codes "cfg") name (codes ".cfg.dis") h,
  replace_all-pass b'.' (codes "cfg.dis") [] name (codes ".cfg.dis") h,
  append-nil name,
)

-- Over the files of networks whose names have no dot, `net_list` has exactly the networks of the
-- state that is asked for, in the order of the files, each under its name and with its state.
pub net_infos-files :
    (filter : NetFilter) (nets : List Network)
    → no_dots nets ≡ true
    → net_infos filter (map file_of nets) ≡ infos_of filter nets
unfolding net_infos infos_of no_dots
net_infos-files filter [] h = refl
net_infos-files filter ((name, true) ∷ nets) h =
    rw (net_info-file filter name true (ground arith), net_infos-files filter nets (ground arith))
      refl
net_infos-files filter ((name, false) ∷ nets) h =
    rw (net_info-file filter name false (ground arith), net_infos-files filter nets (ground arith))
      refl
