-- ===== src/Conftool/World.antt =====
-- What the commands of conftool change: the files, the variables and the output; and how a C++
-- function ends. What the system answers is a parameter.
use cellframe_node.Prelude.{
  ℕ, Bool, true, false, not, Option, none, some, List, ◌∷◌, ◌++◌, if◌then◌else◌, is_some,
}
use cellframe_node.Prelude.Bytes.{Bytes, same}

-- A value, an exception that nobody catches, or undefined behaviour.
pub data Result {ℓ} (A : Type ℓ) : Type ℓ where
  done : A → Result A
  raised undefined : Result A

-- What `network`, `fromtemplate` and `config` say of their progress, with the name of the network,
-- whether it is to be on, and paths.
pub data Note : Type 0 where
  -- default: there are both files; that of the state is there; that of the other is; a new one is
  -- made of a template
  in_both : Bytes → Note
  is_already : Bytes → Bool → Note
  user_configured : Bytes → Note
  set_up : Bytes → Bool → Bytes → Note
  -- ensure: nothing is to do; a file gets another name; the template is copied
  is_settled : Bytes → Bool → Note
  moves : Bool → Bytes → Bytes → Note
  copies : Bool → Bytes → Bytes → Note
  -- fromtemplate: the configuration is there; it is copied
  is_there : Bytes → Note
  fills : Bytes → Bytes → Note
  -- config: both files are there; a parameter of a group keeps its value; it is set
  takes_enabled : Bytes → Note
  keeps_value : Bytes → Bytes → Bytes → Bytes → Note
  sets : Bytes → Bytes → Bytes → Bytes → Note

-- What leaves a trace.
pub data Output : Type 0 where
  -- `std::system`, and whether it returned 0
  ran : Bytes → Bool → Output
  -- a shell script with the rights of an administrator (macOS)
  scripted : Bytes → Output
  -- `ShellExecuteEx` of a program with its parameters as an administrator (Windows)
  elevated : Bytes → Bytes → Output
  -- its error
  exec_failed : ℕ → Output
  said : Bytes → Output
  noted : Note → Output
  -- `network … check`: the name, and whether it is on
  net_state : Bytes → Bool → Output
  -- a line of `net_list`: the name and the state
  listed : Bytes → Bytes → Output
  -- `config … get`: the configuration, group, parameter and value
  got : Bytes → Bytes → Bytes → Bytes → Output
  -- a variable and its value
  shown : Bytes → Bytes → Output
  -- the lines of a file that a dry run would save
  dumped : List Bytes → Output
  -- the lines of the help
  helped : List Bytes → Output

abbrev pub Files : Type 0
Files = Bytes → Option Bytes

abbrev pub Vars : Type 0
Vars = List (Bytes × Bytes)

-- The files by their paths, `variable_storage` in the order of its patterns, and the output,
-- latest first.
pub record World : Type 0 where
  pub files : Files
  pub vars : Vars
  pub output : List Output

pub data Listing : Type 0 where
  missing not_directory : Listing
  -- the names, and whether they are of regular files
  entries : List (Bytes × Bool) → Listing

-- The systems of POSIX that conftool is built for; Android's is a Linux too.
pub data Platform : Type 0 where
  linux android macos : Platform

pub record Host : Type 0 where
  pub platform : Platform
  -- whether a file at this path can be made or written
  pub may_write : Bytes → Bool
  -- whether `std::system` returns 0
  pub system : List Output → Bytes → Bool
  pub listing : Files → Bytes → Listing
  -- `gethostname`, if it succeeds
  pub host_name : Option Bytes

abbrev pub Run {ℓ} : Type ℓ → Type ℓ
Run A = World → Result A × World

abbrev pub and_then {ℓ κ} :
    {A : Type ℓ} {B : Type κ} → (A → Run B) → Result A × World → Result B × World
and_then f (done a, w) = f a w
and_then f (raised, w) = (raised, w)
and_then f (undefined, w) = (undefined, w)

infixl 5 ◌>>=◌ ◌>>◌
abbrev pub ◌>>=◌ {ℓ κ} : {A : Type ℓ} {B : Type κ} → Run A → (A → Run B) → Run B
◌>>=◌ m f w = and_then f (m w)

abbrev pub ◌>>◌ {ℓ κ} : {A : Type ℓ} {B : Type κ} → Run A → Run B → Run B
m >> k = m >>= λ _. k

abbrev pub pure {ℓ} : {A : Type ℓ} → A → Run A
pure a w = (done a, w)

-- `throw`
abbrev pub throw {ℓ} : {A : Type ℓ} → Run A
throw w = (raised, w)

abbrev pub undefined_behaviour {ℓ} : {A : Type ℓ} → Run A
undefined_behaviour w = (undefined, w)

abbrev pub throw_if : Bool → Run (Unit {0})
throw_if true = throw
throw_if false = pure tt

abbrev pub some_or_throw {ℓ} : {A : Type ℓ} → Option A → Run A
some_or_throw none = throw
some_or_throw (some a) = pure a

abbrev pub print : Output → Run (Unit {0})
print o w = (done tt, record w { output = o ∷ w.output })

-- Outputs, latest first.
abbrev pub print_all : List Output → Run (Unit {0})
print_all os w = (done tt, record w { output = os ++ w.output })

abbrev pub variables : Run Vars
variables w = (done w.vars, w)

-- `fs::exists`
abbrev pub file_exists : Bytes → Run Bool
file_exists path w = (done (is_some (w.files path)), w)

abbrev pub contents : Bytes → Run Bytes
contents path w = some_or_throw (w.files path) w

unfoldable pub put_file : Bytes → Option Bytes → Files → Files
put_file path text files q = if same q path then text else files q

abbrev pub store : Bytes → Bytes → Run (Unit {0})
store path text w = (done tt, record w { files = put_file path (some text) w.files })

module _ (host : Host) where
  -- `std::system`
  abbrev pub run_system : Bytes → Run Bool
  run_system cmd w =
      let ok = host.system w.output cmd in (done ok, record w { output = ran cmd ok ∷ w.output })

  -- `fs::copy` and `fs::copy_file` without options: a file in the way is an error.
  unfoldable pub copy_new : Bytes → Bytes → Run (Unit {0})
  copy_new from to = do
    text ← contents from
    there ← file_exists to
    throw_if there
    throw_if (not (host.may_write to))
    store to text

  -- `fs::copy_file` with `overwrite_existing`
  unfoldable pub copy_over : Bytes → Bytes → Run (Unit {0})
  copy_over from to = do text ← contents from; throw_if (not (host.may_write to)); store to text

  -- `fs::rename`, which replaces a file in the way.
  unfoldable pub rename : Bytes → Bytes → Run (Unit {0})
  rename from to w =
      (do
        text ← contents from
        throw_if (not (host.may_write to))
        (λ w'. (
          done tt,
          if same from to
              then w'
              else record w' { files = put_file from none (put_file to (some text) w'.files) },
        )))
        w

  -- `std::ofstream file(path)` with the lines behind it: a file that does not open is passed over.
  unfoldable pub write_file : Bytes → Bytes → Run (Unit {0})
  write_file path text = if host.may_write path then store path text else pure tt
