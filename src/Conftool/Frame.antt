-- ===== src/Conftool/Frame.antt =====
-- Relations between the world in front of a computation of conftool and the world behind it, and
-- how they pass through the composition of computations.
use cellframe_node.Prelude.{◌≡◌, subst, sym, Bool, true, false, ◌∷◌, if◌then◌else◌}
use cellframe_node.Conftool.World.{
  World, Run, Output, Result, done, raised, undefined, and_then, ◌>>=◌,
}

-- Reflexive and transitive, and left alone by what is printed.
pub record Frame : Type 1 where
  pub Holds : World → World → Type 0
  pub here : (w : World) → Holds w w
  pub after : (a b c : World) → Holds a b → Holds b c → Holds a c
  pub printed : (o : Output) (w : World) → Holds w (record w { output = o ∷ w.output })

abbrev pub Respects {ℓ} : Frame → {A : Type ℓ} → Run A → Type 0
Respects frame m = (w : World) → frame.Holds w (m w).1

-- A computation that changes nothing at all.
abbrev pub Reads {ℓ} : {A : Type ℓ} → Run A → Type 0
Reads m = (w : World) → (m w).1 ≡ w

module _ (frame : Frame) where
  and_then-Holds {ℓ κ} :
      {A : Type ℓ} {B : Type κ} (f : A → Run B)
      → ((a : A) → Respects frame (f a))
      → (w : World) (p : Result A × World) → frame.Holds w p.1
      → frame.Holds w (and_then f p).1
  and_then-Holds f hf w (done a, w') h = frame.after w w' (f a w').1 h (hf a w')
  and_then-Holds f hf w (raised, w') h = h
  and_then-Holds f hf w (undefined, w') h = h

  pub Respects-bind {ℓ κ} :
      {A : Type ℓ} {B : Type κ} (m : Run A) (f : A → Run B)
      → Respects frame m
      → ((a : A) → Respects frame (f a))
      → Respects frame (m >>= f)
  Respects-bind m f hm hf w = and_then-Holds f hf w (m w) (hm w)

  pub Respects-Reads {ℓ} : {A : Type ℓ} (m : Run A) → Reads m → Respects frame m
  Respects-Reads m h w = subst (λ w'. frame.Holds w w') (sym (h w)) (frame.here w)

  pub Respects-if {ℓ} :
      {A : Type ℓ} (b : Bool) (m k : Run A)
      → Respects frame m
      → Respects frame k
      → Respects frame (if b then m else k)
  Respects-if true m k hm hk = hm
  Respects-if false m k hm hk = hk
