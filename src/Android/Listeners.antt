-- ===== src/Android/Listeners.antt =====
-- Which listeners a notification reaches, and that each weak reference is deleted once.
use cellframe_node.Prelude.{
  ℕ, zero, suc, ◌≡◌, refl, sym, ◌∙◌, ap, Bool, true, false, ◌||◌, ◌&&◌, not, Option, none, some,
  List, [], ◌∷◌, ◌++◌, append_assoc, append-nil, arith, if◌then◌else◌, All, All-append,
}
use cellframe_node.Prelude.Bytes.{Bytes}
use cellframe_node.Process.{ret, fault}
use cellframe_node.Android.{
  env_ok, detached, bad_version, Jni, Java, Listener, Bridge, Notification, at_load, refs_of,
  call_on_notify, notified, set_listener, clear_listeners, notify_callback,
}

-- What Java does to the listeners.
pub data Op : Type 0 where
  subscribe : ℕ → Op
  clear : Op

abbrev pub has_clear : List Op → Bool
has_clear [] = false
has_clear (subscribe o ∷ ops) = has_clear ops
has_clear (clear ∷ ops) = true

abbrev pub has_subscribe : List Op → Bool
has_subscribe [] = false
has_subscribe (subscribe o ∷ ops) = true
has_subscribe (clear ∷ ops) = has_subscribe ops

-- The subscriptions that are not cleared afterwards, each as its weak reference (numbered in the
-- order of all subscriptions, from this number on) and its object.
abbrev pub subscribed : ℕ → List Op → List (ℕ × ℕ)
subscribed n [] = []
subscribed n (subscribe o ∷ ops) =
    if has_clear ops then subscribed (suc n) ops else (n, o) ∷ subscribed (suc n) ops
subscribed n (clear ∷ ops) = subscribed n ops

abbrev pub pairs_of : List Listener → List (ℕ × ℕ)
pairs_of [] = []
pairs_of (l ∷ ls) = (l.weak_ref, l.object) ∷ pairs_of ls

abbrev pub none_throws : Java → List (ℕ × ℕ) → Bool
none_throws java [] = true
none_throws java ((r, o) ∷ ps) = not (java.throws r) && none_throws java ps

abbrev pub but_last : List (ℕ × ℕ) → List (ℕ × ℕ)
but_last [] = []
but_last (p ∷ []) = []
but_last (p ∷ q ∷ ps) = p ∷ but_last (q ∷ ps)

abbrev pub is_some : Option ℕ → Bool
is_some none = false
is_some (some m) = true

-- The first so many numbers.
abbrev pub upto : ℕ → List ℕ
upto zero = []
upto (suc n) = upto n ++ (n ∷ [])

pairs_of-append : (ks ls : List Listener) → pairs_of (ks ++ ls) ≡ pairs_of ks ++ pairs_of ls
pairs_of-append [] ls = refl
pairs_of-append (k ∷ ks) ls = ap (λ ps. (k.weak_ref, k.object) ∷ ps) (pairs_of-append ks ls)

refs_of-append : (ks ls : List Listener) → refs_of (ks ++ ls) ≡ refs_of ks ++ refs_of ls
refs_of-append [] ls = refl
refs_of-append (k ∷ ks) ls = ap (λ rs. k.weak_ref ∷ rs) (refs_of-append ks ls)

module _ (jni : Jni) where
  unfoldable pub play : List Op → Bridge → Bridge
  unfolding set_listener clear_listeners
  play [] b = b
  play (subscribe o ∷ ops) b = play ops (set_listener jni o b)
  play (clear ∷ ops) b = play ops (clear_listeners jni b)

  pairs_of-play :
      (ops : List Op) (b : Bridge)
      → pairs_of (play ops b).listeners
        ≡ (if has_clear ops then [] else pairs_of b.listeners) ++ subscribed b.made ops
  unfolding play set_listener clear_listeners
  pairs_of-play [] b = sym (append-nil (pairs_of b.listeners))
  pairs_of-play (subscribe o ∷ ops) b =
      pairs_of-play ops (set_listener jni o b)
      ∙ ground (
        arith,
        pairs_of-append b.listeners
            (record { weak_ref = b.made; object = o; method = jni.method_of o } ∷ []),
        append_assoc (pairs_of b.listeners) ((b.made, o) ∷ []) (subscribed (suc b.made) ops),
      )
  pairs_of-play (clear ∷ ops) b = pairs_of-play ops (clear_listeners jni b) ∙ ground arith

  -- A listener with its own object's method.
  abbrev IsBound : Listener → Type 0
  IsBound l = l.method ≡ jni.method_of l.object

  IsBound-play :
      (ops : List Op) (b : Bridge) → All IsBound b.listeners → All IsBound (play ops b).listeners
  unfolding play set_listener clear_listeners
  IsBound-play [] b h = h
  IsBound-play (subscribe o ∷ ops) b h =
      IsBound-play ops (set_listener jni o b) (All-append IsBound b.listeners _ h (refl, tt))
  IsBound-play (clear ∷ ops) b h = IsBound-play ops (clear_listeners jni b) tt

  has_jvm-play :
      (ops : List Op) (b : Bridge) → (play ops b).has_jvm ≡ (has_subscribe ops || b.has_jvm)
  unfolding play set_listener clear_listeners
  has_jvm-play [] b = refl
  has_jvm-play (subscribe o ∷ ops) b = has_jvm-play ops (set_listener jni o b) ∙ ground arith
  has_jvm-play (clear ∷ ops) b = has_jvm-play ops (clear_listeners jni b)

  -- The object of the reference is still there, and has the method.
  abbrev pub can_call : Java → ℕ × ℕ → Bool
  can_call java (r, o) = java.is_alive r && is_some (jni.method_of o)

  abbrev pub all_can_call : Java → List (ℕ × ℕ) → Bool
  all_can_call java [] = true
  all_can_call java (p ∷ ps) = can_call java p && all_can_call java ps

  -- No exception is pending when a listener is called: the text of the message was made, and none
  -- of the listeners but the last throws.
  abbrev pub calm : Java → Bool → List (ℕ × ℕ) → Bool
  calm java pending [] = true
  calm java pending (p ∷ ps) = not pending && none_throws java (but_last (p ∷ ps))

  -- One call of its method for each object that has it.
  abbrev pub calls_to : Bytes → List (ℕ × ℕ) → List Notification
  calls_to message [] = []
  calls_to message ((r, o) ∷ ps) =
      let rest = calls_to message ps in
      elim (jni.method_of o) [
        | none ↦ rest
        | some m ↦ record { object = o; method = m; message = message } ∷ rest
      ]

  calm-cons :
      (java : Java) (pending : Bool) (p : ℕ × ℕ) (ps : List (ℕ × ℕ))
      → calm java pending (p ∷ ps) ≡ (not pending && calm java (java.throws p.0) ps)
  calm-cons java pending p [] = refl
  calm-cons java pending p (q ∷ ps) = refl

  call_on_notify-calls_to :
      (java : Java) (message : Bytes) (pending : Bool) (ls : List Listener)
      → All IsBound ls
      → call_on_notify java message pending ls ≡ (
          if all_can_call java (pairs_of ls) && calm java pending (pairs_of ls)
          then some (calls_to message (pairs_of ls))
          else none)
  unfolding call_on_notify
  call_on_notify-calls_to java message pending [] h = refl
  call_on_notify-calls_to java message pending (l ∷ ls) h =
      rw
        (
          h.0,
          calm-cons java pending (l.weak_ref, l.object) (pairs_of ls),
          call_on_notify-calls_to java message (java.throws l.weak_ref) ls h.1,
        )
        (ground arith)

  -- Java can be called from the thread of the notification.
  abbrev pub reaches_java : Bool
  reaches_java = elim (jni.env_stat) [
    | env_ok ↦ true
    | detached ↦ jni.attaches
    | bad_version ↦ false
  ]

  notify_callback-jvm :
      (java : Java) (message : Bytes) (b : Bridge)
      → notify_callback jni java message b ≡ (
          if b.has_jvm
          then if reaches_java
            then notified (call_on_notify java message java.string_fails b.listeners)
            else fault
          else ret (false, []))
  unfolding notify_callback
  notify_callback-jvm java message b = ground arith

  -- Behind any subscriptions and clearings, a notification returns false and calls nothing if there
  -- was no subscription at all. Else, where Java can be called from the thread, the object of each
  -- subscription not cleared since is still there and has the method, and no exception is pending
  -- when one of them is called (of the text of the message, or of a listener other than the last),
  -- it returns true and calls the method of each of these objects, once for each subscription and
  -- in their order. In all other cases its behaviour is undefined.
  pub notify_callback-play :
      (ops : List Op) (java : Java) (message : Bytes)
      → let subs = subscribed zero ops in
        notify_callback jni java message (play ops at_load) ≡ (
          if has_subscribe ops
          then if reaches_java && (all_can_call java subs && calm java java.string_fails subs)
            then ret (true, calls_to message subs)
            else fault
          else ret (false, []))
  notify_callback-play ops java message =
      notify_callback-jvm java message (play ops at_load)
      ∙ ground (
        arith,
        has_jvm-play ops at_load,
        call_on_notify-calls_to java message java.string_fails (play ops at_load).listeners
            (IsBound-play ops at_load tt),
        pairs_of-play ops at_load,
      )

  -- Each weak reference that was made is either deleted, once, or that of one listener.
  refs-play :
      (ops : List Op) (b : Bridge)
      → b.deleted ++ refs_of b.listeners ≡ upto b.made
      → (play ops b).deleted ++ refs_of (play ops b).listeners ≡ upto (play ops b).made
  unfolding play set_listener clear_listeners
  refs-play [] b h = h
  refs-play (subscribe o ∷ ops) b h = refs-play ops (set_listener jni o b) (
      ap (λ rs. b.deleted ++ rs)
        (refs_of-append b.listeners
          (record { weak_ref = b.made; object = o; method = jni.method_of o } ∷ []))
      ∙ sym (append_assoc b.deleted (refs_of b.listeners) (b.made ∷ []))
      ∙ ap (λ rs. rs ++ (b.made ∷ [])) h)
  refs-play (clear ∷ ops) b h =
      refs-play ops (clear_listeners jni b) (append-nil (b.deleted ++ refs_of b.listeners) ∙ h)

  -- Behind any subscriptions and clearings, the references deleted, with those of the listeners,
  -- are all that were made: each is deleted once, or is that of one listener.
  pub refs-at_load :
      (ops : List Op)
      → (play ops at_load).deleted ++ refs_of (play ops at_load).listeners
        ≡ upto (play ops at_load).made
  refs-at_load ops = refs-play ops at_load refl
