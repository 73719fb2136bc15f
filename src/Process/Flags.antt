-- ===== src/Process/Flags.antt =====
-- Which flags of the process command are bound to viper (cmd/process_commands.go), and what an option
-- is that is not bound.
use nsg_parser.Prelude.Int.{pos}
use nsg_parser.Process.Setup.{Settings, bound_flags, declared_flags}
use nsg_parser.Prelude.{◌≡◌, refl, Bool, true, false, [], ◌∷◌, Text, codes, ◌||◌, List, text_eq}

unfoldable pub is_bound : Text → List Text → Bool
is_bound key [] = false
is_bound key (flag ∷ flags) = text_eq key flag || is_bound key flags

-- No configuration file and no variable of the environment: a key that is not bound to a flag is
-- unknown to viper, and `GetInt` of it is 0.
abbrev pub OnlyFlags : Settings → Type 0
OnlyFlags settings = (key : Text) → is_bound key bound_flags ≡ false → settings.get_int key ≡ pos 0

-- The interval is declared as a flag and never bound.
poll_interval_declared :
    (is_bound (codes "poll_interval") declared_flags ≡ true)
    × (is_bound (codes "poll_interval") bound_flags ≡ false)
unfolding is_bound
poll_interval_declared = (refl, refl)

pub poll_interval_zero :
    (settings : Settings) → OnlyFlags settings → settings.get_int (codes "poll_interval") ≡ pos 0
unfolding is_bound
poll_interval_zero settings h = h (codes "poll_interval") poll_interval_declared.1
