-- ===== src/Command/Flags.antt =====
-- `runDryRun`'s flags, as package flag parses them.
use grafana_mcp_setup.Prelude.{
  ℕ, ◌+◌, Bool, true, false, not, ◌&&◌, ◌||◌, Option, none, some, List, [], ◌∷◌, ◌++◌, Text, codes,
  text_eq, ◌==◌, if◌then◌else◌,
}
use grafana_mcp_setup.Exec.{Error, failure, Result, ok, err}
use grafana_mcp_setup.Go.Strconv.{parse_bool}
use grafana_mcp_setup.Snippet.Highlight.{cut_at}

-- The variables that the flags set.
pub record Flags : Type 0 where
  pub emails : List Text
  pub apply : Bool
  pub delete_expired : Bool
  pub keep_token : Text

abbrev pub no_flags : Flags
no_flags = record { emails = []; apply = false; delete_expired = false; keep_token = [] }

-- An argument: not a flag, "--", a malformed flag, or a flag with a name and perhaps a value.
pub data Argument : Type 0 where
  positional terminator malformed : Argument
  named : Text → Option Text → Argument

-- A value stands behind a "=", which is not the first byte of the name.
abbrev pub split_value : Text → Option (Text × Text) → Argument
split_value name none = named name none
split_value name (some (before, value)) = named before (some value)

abbrev pub named_by : Text → Argument
named_by [] = malformed
named_by (c ∷ name) =
    if c == b'-' || c == b'=' then malformed else split_value (c ∷ name) (cut_at b'=' (c ∷ name))

abbrev pub behind_dashes : Text → Argument
behind_dashes [] = terminator
behind_dashes (c ∷ name) = named_by (c ∷ name)

unfoldable pub argument : Text → Argument
unfolding cut_at
argument (d ∷ c ∷ s) =
    if not (d == b'-') then positional else if c == b'-' then behind_dashes s else named_by (c ∷ s)
argument _ = positional

-- The flags by name: `emailFlags` appends, "apply" and "delete-expired" are Boolean.
pub data Flag : Type 0 where
  email_flag apply_flag delete_expired_flag keep_token_flag : Flag

unfoldable pub flag_named : Bool → Text → Option Flag
unfolding text_eq
flag_named is_reconcile name =
    if text_eq name (codes "email")
    then some email_flag
    else if text_eq name (codes "apply")
    then some apply_flag
    else if is_reconcile && text_eq name (codes "delete-expired")
    then some delete_expired_flag
    else if is_reconcile && text_eq name (codes "keep-token")
    then some keep_token_flag
    else none

abbrev pub set_switch : Flag → Bool → Flags → Flags
set_switch apply_flag v f = record f { apply = v }
set_switch delete_expired_flag v f = record f { delete_expired = v }
set_switch _ v f = f

abbrev pub set_text : Flag → Text → Flags → Flags
set_text email_flag v f = record f { emails = f.emails ++ v ∷ [] }
set_text keep_token_flag v f = record f { keep_token = v }
set_text _ v f = f

abbrev pub is_switch : Flag → Bool
is_switch apply_flag = true
is_switch delete_expired_flag = true
is_switch _ = false

-- How far `Parse` has come: between flags, in front of a flag's value, behind the flags with the
-- number of arguments that are left, or at an error.
pub data Parsing : Type 0 where
  reading : Flags → Parsing
  waiting : Flag → Flags → Parsing
  stopped : Flags → ℕ → Parsing
  failed : Error → Parsing

abbrev pub switched : Flag → Flags → Option Bool → Parsing
switched flag f none = failed (failure (codes "invalid boolean value"))
switched flag f (some v) = reading (set_switch flag v f)

abbrev pub set_flag : Flag → Option Text → Flags → Parsing
set_flag flag none f = if is_switch flag then reading (set_switch flag true f) else waiting flag f
set_flag flag (some value) f =
    if is_switch flag then switched flag f (parse_bool value) else reading (set_text flag value f)

abbrev pub looked_up : Option Flag → Option Text → Flags → Parsing
looked_up none value f = failed (failure (codes "flag provided but not defined"))
looked_up (some flag) value f = set_flag flag value f

abbrev pub read_argument : Bool → Argument → Flags → Parsing
read_argument is_reconcile positional f = stopped f 1
read_argument is_reconcile terminator f = stopped f 0
read_argument is_reconcile malformed f = failed (failure (codes "bad flag syntax"))
read_argument is_reconcile (named name value) f = looked_up (flag_named is_reconcile name) value f

abbrev pub parse_next : Bool → Text → Parsing → Parsing
parse_next is_reconcile arg (reading f) = read_argument is_reconcile (argument arg) f
parse_next is_reconcile arg (waiting flag f) = reading (set_text flag arg f)
parse_next is_reconcile arg (stopped f left) = stopped f (left + 1)
parse_next is_reconcile arg (failed e) = failed e

unfoldable pub parse_all : Bool → List Text → Parsing → Parsing
unfolding argument flag_named parse_bool
parse_all is_reconcile [] p = p
parse_all is_reconcile (arg ∷ args) p = parse_all is_reconcile args (parse_next is_reconcile arg p)

-- `flags.Parse(args)` and the test of `flags.NArg()`.
abbrev pub flags_of : Parsing → Result Flags
flags_of (reading f) = ok f
flags_of (waiting flag f) = err (failure (codes "flag needs an argument"))
flags_of (stopped f left) =
    if left == 0 then ok f else err (failure (codes "targets must use repeated --email flags"))
flags_of (failed e) = err e

unfoldable pub parse_flags : Bool → List Text → Result Flags
unfolding parse_all
parse_flags is_reconcile args = flags_of (parse_all is_reconcile args (reading no_flags))
