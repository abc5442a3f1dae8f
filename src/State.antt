-- ===== src/State.antt =====
-- The state of a run: the `options` dict and the global `all_opt` of lib/fencing.py.py, what was
-- printed and logged, and the world outside the process.
pub mod Entries
use fence_agents.Base.{
  ℕ, String, List, [], ◌∷◌, ◌++◌, Option, none, some, Bool, ◌<>◌, contains, string_eq,
}
use fence_agents.Base.Int.{ℤ, pos, negsuc}
use fence_agents.Dict
use fence_agents.Dict.{Dict}
use fence_agents.Exec.{
  Exec, ok, raise, leave, pure, gets, modify, ◌>>=◌, ◌>>◌, value_error, key_error,
}
use fence_agents.Text.Number.{int_of_text}
use fence_agents.Options.Spec.{Spec}

-- What an entry of `options` holds. The lists under "device_opt" and "--plugs" are fields of the
-- state, since no code stores another kind of value there.
pub data Value : Type 0 where
  text : String → Value
  number : ℤ → Value

pub record State (W : Type 0) : Type 0 where
  pub options : Dict Value
  pub device_opt : List String
  pub plugs : Option (List String)
  pub all_opt : Dict Spec
  pub printed : List String
  pub logged : List String
  pub world : W

-- int(value); `none` is a ValueError
unfoldable pub int_value : Value → Option ℤ
int_value (number n) = some n
int_value (text t) = int_of_text 10 t

-- What the library takes from the operating system, the passing of time first.
pub record System (W : Type 0) : Type 0 where
  pub pass : ℕ → W → W
  -- os.path.isfile
  pub is_file : String → W → Bool
  -- os.popen(command).read()
  pub popen : String → W → String × W
  -- os.environ.get(name)
  pub environ : String → W → Option String
  -- whether a log file of this name can be opened, which creates it
  pub open_log : String → W → Bool × W

module _ {W : Type 0} where
  -- options[key] = value
  unfoldable pub put_option : String → Value → Exec (State W) (Unit {0})
  put_option key value = modify (λ s. record s { options = Dict.put s.options key value })

  -- options[key]
  unfoldable pub option : String → Exec (State W) Value
  option key s = elim (Dict.get s.options key) [
    | none ↦ raise (key_error key) s
    | some value ↦ pure value s
  ]

  -- key in options
  unfoldable pub has_option : String → Exec (State W) Bool
  unfolding Dict.has
  has_option key = gets (λ s. Dict.has s.options key)

  -- name in options["device_opt"]
  unfoldable pub has_device_opt : String → Exec (State W) Bool
  has_device_opt name = gets (λ s. contains s.device_opt name)

  unfoldable pub int_of_value : Value → Exec (State W) ℤ
  unfolding int_value
  int_of_value value = elim (int_value value) [ none ↦ raise value_error | some n ↦ pure n ]

  -- int(options[key])
  unfoldable pub int_option : String → Exec (State W) ℤ
  unfolding option int_of_value ◌>>=◌
  int_option key = do value ← option key; int_of_value value

  unfoldable pub print : String → Exec (State W) (Unit {0})
  print line = modify (λ s. record s { printed = s.printed ++ line ∷ [] })

  -- logging.error, logging.warning
  unfoldable pub log : String → Exec (State W) (Unit {0})
  log line = modify (λ s. record s { logged = s.logged ++ line ∷ [] })

  -- time.sleep(n), which refuses a negative number
  unfoldable pub sleep : System W → ℤ → Exec (State W) (Unit {0})
  sleep system (pos n) = modify (λ s. record s { world = system.pass n s.world })
  sleep system (negsuc n) = raise value_error
