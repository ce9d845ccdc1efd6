-- ===== src/Hget/Main/Parses.antt =====
-- The options of board/hget/hget.c, read back.
use esp32_p4_linux.Common.{
  ◌≡◌, ◌≢◌, ◌∙◌, refl, true, false, none, some, List, [], ◌∷◌, ◌++◌, Bytes, codes,
}
use esp32_p4_linux.Hget.CString.{atoi}
use esp32_p4_linux.Hget.Main.{Settings, equal, is_operand, operand, flag, valued, parse_args}

-- One option of the usage text that changes a setting.
pub data Setting : Type 0 where
  output ca_bundle seconds : Bytes → Setting
  silent insecure_peer follow_on follow_off : Setting

-- As it is written on the command line.
abbrev pub write : Setting → List Bytes
write (output path) = codes "-o" ∷ path ∷ []
write (ca_bundle path) = codes "-c" ∷ path ∷ []
write (seconds n) = codes "-T" ∷ n ∷ []
write silent = codes "-q" ∷ []
write insecure_peer = codes "-k" ∷ []
write follow_on = codes "-L" ∷ []
write follow_off = codes "-N" ∷ []

abbrev pub written : List Setting → List Bytes
written [] = []
written (x ∷ xs) = write x ++ written xs

abbrev pub apply : Setting → Settings → Settings
apply (output path) s = record s { out_path = some path }
apply (ca_bundle path) s = record s { ca_file = path }
apply (seconds n) s = record s { timeout = atoi n }
apply silent s = record s { quiet = true }
apply insecure_peer s = record s { insecure = true }
apply follow_on s = record s { follow = true }
apply follow_off s = record s { follow = false }

abbrev pub apply_all : List Setting → Settings → Settings
apply_all [] s = s
apply_all (x ∷ xs) s = apply_all xs (apply x s)

never_nil : (xs : List Setting) (a : Bytes) (more : List Bytes) → written xs ++ (a ∷ more) ≢ []
never_nil [] a more = λ e. cc
never_nil (output p ∷ xs) a more = λ e. cc
never_nil (ca_bundle p ∷ xs) a more = λ e. cc
never_nil (seconds n ∷ xs) a more = λ e. cc
never_nil (silent ∷ xs) a more = λ e. cc
never_nil (insecure_peer ∷ xs) a more = λ e. cc
never_nil (follow_on ∷ xs) a more = λ e. cc
never_nil (follow_off ∷ xs) a more = λ e. cc

-- A flag before something else.
flag_step :
    (a : Bytes) (s s' : Settings) (rest : List Bytes)
    → rest ≢ []
    → is_operand a ≡ false
    → ((v : Bytes) → valued a v s ≡ none)
    → flag a s ≡ some s'
    → parse_args (a ∷ rest) s ≡ parse_args rest s'
unfolding parse_args
flag_step a s s' [] behind option no_value is_flag = absurd (behind refl)
flag_step a s s' (v ∷ args) behind option no_value is_flag =
    rw (option, parse_args, no_value v, parse_args, is_flag, parse_args) refl

-- Options written in any order and number are read back, the later over the earlier, up to the
-- first operand, which is the URL whatever follows it; an argument of an option is never taken for
-- an option or for the URL.
pub parse_args-written :
    (xs : List Setting) (s : Settings) (address : Bytes) (more : List Bytes)
    → is_operand address ≡ true
    → parse_args (written xs ++ (address ∷ more)) s ≡ operand (apply_all xs s) address
unfolding parse_args is_operand flag valued equal
parse_args-written [] s address [] h = rw (h, parse_args) refl
parse_args-written [] s address (m ∷ more) h = rw (h, parse_args) refl
parse_args-written (output p ∷ xs) s address more h =
    parse_args-written xs (apply (output p) s) address more h
parse_args-written (ca_bundle p ∷ xs) s address more h =
    parse_args-written xs (apply (ca_bundle p) s) address more h
parse_args-written (seconds n ∷ xs) s address more h =
    parse_args-written xs (apply (seconds n) s) address more h
parse_args-written (silent ∷ xs) s address more h =
    flag_step (codes "-q") s (apply silent s) (written xs ++ (address ∷ more))
      (never_nil xs address more) refl (λ v. refl) refl
    ∙ parse_args-written xs (apply silent s) address more h
parse_args-written (insecure_peer ∷ xs) s address more h =
    flag_step (codes "-k") s (apply insecure_peer s) (written xs ++ (address ∷ more))
      (never_nil xs address more) refl (λ v. refl) refl
    ∙ parse_args-written xs (apply insecure_peer s) address more h
parse_args-written (follow_on ∷ xs) s address more h =
    flag_step (codes "-L") s (apply follow_on s) (written xs ++ (address ∷ more))
      (never_nil xs address more) refl (λ v. refl) refl
    ∙ parse_args-written xs (apply follow_on s) address more h
parse_args-written (follow_off ∷ xs) s address more h =
    flag_step (codes "-N") s (apply follow_off s) (written xs ++ (address ∷ more))
      (never_nil xs address more) refl (λ v. refl) refl
    ∙ parse_args-written xs (apply follow_off s) address more h
