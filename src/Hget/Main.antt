-- ===== src/Hget/Main.antt =====
-- `main` of board/hget/hget.c: the options, and the fetch of the first argument behind them.
pub mod Parses
pub mod Returns
use esp32_p4_linux.Common.{
  ℕ, zero, suc, ◌≡◌, Bool, true, false, not, ◌&&◌, ◌||◌, Option, none, some, List, [], ◌∷◌, ◌++◌,
  ◌==◌, if◌then◌else◌, Bytes, codes, ℤ, pos, negsuc, leb_ℤ,
}
use esp32_p4_linux.Hget.Exit.{Exit, ok, usage}
use esp32_p4_linux.Hget.CString.{atoi}
use esp32_p4_linux.Hget.Fetch.{World, Options, Event, Fetched, give_up, fetch}

-- The static options and `outpath`.
pub record Settings : Type 0 where
  pub out_path : Option Bytes
  pub timeout : ℤ
  pub ca_file : Bytes
  pub quiet : Bool
  pub insecure : Bool
  pub follow : Bool

abbrev pub defaults : Settings
defaults = record {
  out_path = none;
  timeout = pos 30;
  ca_file = codes "/etc/ssl/certs/ca-certificates.crt";
  quiet = false;
  insecure = false;
  follow = true;
}

-- `!strcmp(s, t)`
unfoldable pub equal : Bytes → Bytes → Bool
equal [] [] = true
equal [] (y ∷ t) = false
equal (x ∷ s) [] = false
equal (x ∷ s) (y ∷ t) = x == y && equal s t

-- `a[0] != '-' || !a[1]`
unfoldable pub is_operand : Bytes → Bool
is_operand [] = true
is_operand (c ∷ []) = true
is_operand (c ∷ d ∷ a) = not (c == b'-')

-- The settings at the first operand, or a return with this exit code.
pub data Parsed : Type 0 where
  operand : Settings → Bytes → Parsed
  returns : Exit → Parsed

-- The options that stand alone.
unfoldable pub flag : Bytes → Settings → Option Settings
unfolding equal
flag a s =
    if equal a (codes "-q")
    then some (record s { quiet = true })
    else if equal a (codes "-k")
    then some (record s { insecure = true })
    else if equal a (codes "-L")
    then some (record s { follow = true })
    else if equal a (codes "-N")
    then some (record s { follow = false })
    else none

-- The options with an argument, which are none of them if it is missing.
unfoldable pub valued : Bytes → Bytes → Settings → Option Settings
unfolding equal atoi
valued a v s =
    if equal a (codes "-o")
    then some (record s { out_path = some v })
    else if equal a (codes "-T")
    then some (record s { timeout = atoi v })
    else if equal a (codes "-c")
    then some (record s { ca_file = v })
    else none

-- The options that end the program.
unfoldable pub ending : Bytes → Exit
unfolding equal
ending a =
    if equal a (codes "-V") || equal a (codes "-h") || equal a (codes "--help") then ok else usage

unfoldable pub parse_args : List Bytes → Settings → Parsed
unfolding is_operand flag valued ending
parse_args [] s = returns usage
parse_args (a ∷ []) s = elim (is_operand a) [
  | true ↦ operand s a
  | false ↦ elim (flag a s) [ some s' ↦ returns usage | none ↦ returns (ending a) ]
]
parse_args (a ∷ v ∷ args) s = elim (is_operand a) [
  | true ↦ operand s a
  | false ↦ elim (valued a v s) [
    | some s' ↦ parse_args args s'
    | none ↦ elim (flag a s) [ some s' ↦ parse_args (v ∷ args) s' | none ↦ returns (ending a) ]
  ]
]

-- `opt_timeout` in use
unfoldable pub timeout_of : Settings → ℤ
timeout_of s = if leb_ℤ s.timeout (pos 0) then pos 30 else s.timeout

-- What `fetch` uses of the settings.
abbrev pub options_of : Settings → Options
options_of s = record { follow = s.follow; out_path = s.out_path }

-- `argv` less the program's name; the world may depend on the settings that `conn_open` reads.
unfoldable pub main : ℕ → ℕ → (Settings → World) → List Bytes → Option Fetched
unfolding parse_args timeout_of fetch
main rounds fuel world args = elim (parse_args args defaults) [
  | returns e ↦ some (give_up e [])
  | operand s url ↦
      fetch rounds fuel (world (record s { timeout = timeout_of s })) (options_of s) url 0
]
