-- ===== src/Startup/Version.antt =====
-- The version command (cmd/version.go) and the function main (main.go): what they print and the code
-- with which they end the process.
use nsg_parser.Outcome.{Outcome, ◌>>=◌, returned}
use nsg_parser.Startup.{System, Program}
use nsg_parser.Startup.Commands.{
  CommandName, PreRun, Inherits, version_cmd, prepare, prepare-start_of,
}
use nsg_parser.Prelude.{
  ℕ, ◌≡◌, refl, Bool, Option, none, some, [], ◌∷◌, ◌++◌, Text, codes, if◌then◌else◌,
}

-- The version library and `fmt.Printf` of a format without arguments, which are outside.
pub record VersionLibrary : Type 0 where
  pub version : Text
  pub print : Text → Text
  pub printf : Text → Text

-- `runVersion`. The version itself is the format.
unfoldable pub run_version : VersionLibrary → Bool → Text
run_version library short =
    if short
    then library.printf library.version
    else library.print (codes "nsg-parser") ++ b'\n' ∷ []

-- What is printed and the code of `os.Exit`.
pub record Ended : Type 0 where
  pub printed : Text
  pub code : ℕ

abbrev version_run : VersionLibrary → Bool → Ended
version_run library short = record { printed = run_version library short; code = 0 }

-- `main`, by the error of `RootCmd.Execute` if there is one.
abbrev main : Option Text → Ended
main none = record { printed = []; code = 0 }
main (some err) = record { printed = err ++ b'\n' ∷ []; code = 1 }

-- The version command with what runs in front of it.
unfoldable execute_version :
    {V Folders : Type 0}
    → System V Folders
    → (CommandName → Option PreRun)
    → VersionLibrary
    → Bool
    → Program V Folders
    → Outcome Ended
execute_version system find library short p = do
  q ← prepare system find version_cmd p
  returned (version_run library short)

-- The version is printed with the code 0 whatever is configured: a configuration file that cannot
-- be read and log files that cannot be opened do not end it.
execute_version_lem :
    {V Folders : Type 0} (system : System V Folders) (find : CommandName → Option PreRun)
    (h : Inherits find) (library : VersionLibrary) (short : Bool) (p : Program V Folders)
    → execute_version system find library short p ≡ returned (version_run library short)
unfolding execute_version
execute_version_lem system find h library short p =
    rw (prepare-start_of system p find h version_cmd) refl
