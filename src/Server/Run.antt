-- ===== src/Server/Run.antt =====
-- main.go and server.go: the start of the process and its end. What the file system, the identity
-- provider, the listener and the signals do are parameters.
use xensus.Base.{
  ℕ, ◌⊎◌, inl, inr, Bool, true, false, ◌||◌, Option, none, some, List, [], ◌∷◌, Text, codes,
  text_eq, if◌then◌else◌,
}
use xensus.Store.Session.{Session}
use xensus.Store.Opening.{OpenError}
use xensus.Config.{Config, ConfigError}
use xensus.Auth.World.{World, Authenticator}
use xensus.Auth.Startup.{Keys}
use xensus.Auth.Setup.{Provider, SetupError, Started, new}
use xensus.Server.Routes.{Site, Arrival, dispatch_all}

-- Why `Run` fails.
pub data RunError : Type 0 where
  open_store : OpenError → RunError
  init_web_handlers listen_failed shutdown_failed : RunError

-- How listening ends: ListenAndServe fails, or it returns http.ErrServerClosed, or a signal arrives and
-- the shutdown ends in time or not.
pub data Ending : Type 0 where
  fails closes : Ending
  signalled : Bool → Ending

abbrev pub result_of : Ending → Option RunError
result_of fails = some listen_failed
result_of closes = none
result_of (signalled true) = none
result_of (signalled false) = some shutdown_failed

-- What the process is while it listens: the routes that it has, and what it remembers.
pub record Process : Type 0 where
  pub site : Option Site
  pub world : World

-- What the routes need besides the Authenticator.
abbrev pub Wiring : Type 0
Wiring = Authenticator → Site

-- `authr` after `auth.New`: nil where it fails, and then nothing is remembered.
abbrev pub process_of : Wiring → (SetupError ⊎ Started) × Session → Process
process_of wire (inl e, s) = record { site = none; world = record { tenant = []; session = s } }
process_of wire (inr st, s) = record { site = some (wire st.authenticator); world = st.world }

-- `registerRoutes`: the templates are parsed where there is an Authenticator.
abbrev pub registered : Bool → Process → RunError ⊎ Process
registered parsed p = elim p.site [
  | none ↦ inr p
  | some site ↦ if parsed then inr p else inl init_web_handlers
]

-- The part of `Run` before it listens, for what `store.Open` gives and whether the templates parse.
abbrev pub brought_up :
    Keys → ℕ → Option Provider → Config → Wiring → Bool → OpenError ⊎ Session → RunError ⊎ Process
brought_up keys n discovered cfg wire parsed (inl e) = inl (open_store e)
brought_up keys n discovered cfg wire parsed (inr s) =
    registered parsed (process_of wire (new keys n discovered cfg s))

-- What `Run` returns, with the process as it was when it stopped, if it listened.
abbrev pub ended : Ending → List Arrival → RunError ⊎ Process → Option RunError × Option World
ended ending rs (inl e) = (some e, none)
ended ending rs (inr p) = (result_of ending, some (dispatch_all p.site rs p.world))

-- `Run`, for the requests that it serves before it ends
unfoldable pub run :
    Keys
    → ℕ
    → Option Provider
    → Config
    → Wiring
    → Bool
    → OpenError ⊎ Session
    → List Arrival
    → Ending
    → Option RunError × Option World
run keys n discovered cfg wire parsed opened rs ending =
    ended ending rs (brought_up keys n discovered cfg wire parsed opened)

-- What the command line asks for.
pub data Command : Type 0 where
  print_version print_help serve : Command

abbrev pub is_one_of : Text → List Text → Bool
is_one_of s [] = false
is_one_of s (t ∷ ts) = let rest = is_one_of s ts in text_eq s t || rest

abbrev pub command_for : Text → Command
command_for arg =
    if is_one_of arg (codes "--version" ∷ codes "-V" ∷ codes "version" ∷ [])
    then print_version
    else if is_one_of arg (codes "--help" ∷ codes "-h" ∷ codes "help" ∷ [])
    then print_help
    else serve

-- The switch on `os.Args`
unfoldable pub command_of : List Text → Command
command_of [] = serve
command_of (name ∷ []) = serve
command_of (name ∷ arg ∷ args) = command_for arg

abbrev pub exit_of_run : Option RunError → ℕ
exit_of_run none = 0
exit_of_run (some e) = 1

abbrev pub exit_of_serving : (Config → Option RunError) → ConfigError ⊎ Config → ℕ
exit_of_serving run_with (inl e) = 2
exit_of_serving run_with (inr cfg) = exit_of_run (run_with cfg)

abbrev pub exit_for : (Config → Option RunError) → ConfigError ⊎ Config → Command → ℕ
exit_for run_with configured print_version = 0
exit_for run_with configured print_help = 0
exit_for run_with configured serve = exit_of_serving run_with configured

-- The exit code of `main`, for what `FromEnv` gives and what `Run` returns
unfoldable pub main : List Text → ConfigError ⊎ Config → (Config → Option RunError) → ℕ
main args configured run_with = exit_for run_with configured (command_of args)
