-- ===== src/Android/Examples.antt =====
-- Runs of the bridge to Java.
use cellframe_node.Prelude.{◌≡◌, true, false, not, ◌==◌, some, List, [], ◌∷◌, ◌++◌}
use cellframe_node.Prelude.Bytes.{codes}
use cellframe_node.Process.{ret}
use cellframe_node.Android.{Jni, Java, env_ok, at_load, notify_callback, refs_of}
use cellframe_node.Android.Listeners.{
  subscribe, clear, Op, play, upto, notify_callback-play, refs-at_load,
}

abbrev jni : Jni
jni = record { method_of = λ object. some 5; env_stat = env_ok; attaches = true }

abbrev ops : List Op
ops = subscribe 7 ∷ clear ∷ subscribe 8 ∷ subscribe 9 ∷ []

-- The last listener throws; the object of the subscription that was cleared is gone.
abbrev java : Java
java = record { string_fails = false; is_alive = λ r. not (r == 0); throws = λ r. r == 2 }

notify_callback-play_example :
    notify_callback jni java (codes "hi") (play jni ops at_load)
    ≡ ret (
      true,
      record { object = 8; method = 5; message = codes "hi" }
          ∷ record { object = 9; method = 5; message = codes "hi" }
          ∷ [],
    )
notify_callback-play_example = notify_callback-play jni ops java (codes "hi")

refs-at_load_example :
    (play jni ops at_load).deleted ++ refs_of (play jni ops at_load).listeners
    ≡ upto (play jni ops at_load).made
refs-at_load_example = refs-at_load jni ops
