-- ===== src/Command/Dry.antt =====
-- Arguments without the flag "apply".
use grafana_mcp_setup.Prelude.{
  ◌≡◌, ◌≢◌, refl, ap, ◌∙◌, Bool, true, false, not, ◌&&◌, Option, none, some, List, [], ◌∷◌, Text,
  codes, text_eq, arith,
}
use grafana_mcp_setup.Exec.{ok}
use grafana_mcp_setup.Go.Strconv.{parse_bool}
use grafana_mcp_setup.Command.Flags.{
  Flags, no_flags, Argument, positional, terminator, malformed, named, argument, Flag, email_flag,
  apply_flag, delete_expired_flag, keep_token_flag, flag_named, set_text, Parsing, reading, waiting,
  stopped, failed, switched, set_flag, looked_up, read_argument, parse_next, parse_all, flags_of,
  parse_flags,
}

-- An argument that does not ask to apply the changes.
abbrev pub not_apply : Argument → Bool
not_apply (named name value) = not (text_eq name (codes "apply"))
not_apply _ = true

unfoldable pub asks_nothing : List Text → Bool
unfolding argument text_eq
asks_nothing [] = true
asks_nothing (arg ∷ args) = not_apply (argument arg) && asks_nothing args

-- The flags say not to apply.
abbrev IsDry : Parsing → Type 0
IsDry (reading f) = f.apply ≡ false
IsDry (waiting flag f) = f.apply ≡ false
IsDry (stopped f left) = f.apply ≡ false
IsDry (failed e) = Unit

set_text-apply : (flag : Flag) (v : Text) (f : Flags) → (set_text flag v f).apply ≡ f.apply
set_text-apply email_flag v f = refl
set_text-apply apply_flag v f = refl
set_text-apply delete_expired_flag v f = refl
set_text-apply keep_token_flag v f = refl

switched-IsDry :
    (flag : Flag) (v : Option Bool) (f : Flags)
    → flag ≢ apply_flag
    → f.apply ≡ false
    → IsDry (switched flag f v)
switched-IsDry flag none f d h = tt
switched-IsDry email_flag (some v) f d h = h
switched-IsDry apply_flag (some v) f d h = absurd (d refl)
switched-IsDry delete_expired_flag (some v) f d h = h
switched-IsDry keep_token_flag (some v) f d h = h

set_flag-IsDry :
    (flag : Flag) (value : Option Text) (f : Flags)
    → flag ≢ apply_flag
    → f.apply ≡ false
    → IsDry (set_flag flag value f)
set_flag-IsDry email_flag none f d h = h
set_flag-IsDry apply_flag none f d h = absurd (d refl)
set_flag-IsDry delete_expired_flag none f d h = h
set_flag-IsDry keep_token_flag none f d h = h
set_flag-IsDry email_flag (some value) f d h = h
set_flag-IsDry apply_flag (some value) f d h = absurd (d refl)
set_flag-IsDry delete_expired_flag (some value) f d h =
    switched-IsDry delete_expired_flag (parse_bool value) f d h
set_flag-IsDry keep_token_flag (some value) f d h = h

looked_up-IsDry :
    (o : Option Flag) (value : Option Text) (f : Flags)
    → o ≢ some apply_flag
    → f.apply ≡ false
    → IsDry (looked_up o value f)
looked_up-IsDry none value f d h = tt
looked_up-IsDry (some flag) value f d h =
    set_flag-IsDry flag value f (λ e. d (ap (λ (x : Flag). some x) e)) h

flag_named-other :
    (is_reconcile : Bool) (name : Text)
    → text_eq name (codes "apply") ≡ false
    → flag_named is_reconcile name ≢ some apply_flag
unfolding flag_named
flag_named-other is_reconcile name other = λ e. grind arith

read_argument-IsDry :
    (is_reconcile : Bool) (arg : Argument) (f : Flags)
    → not_apply arg ≡ true
    → f.apply ≡ false
    → IsDry (read_argument is_reconcile arg f)
read_argument-IsDry is_reconcile positional f n h = h
read_argument-IsDry is_reconcile terminator f n h = h
read_argument-IsDry is_reconcile malformed f n h = tt
read_argument-IsDry is_reconcile (named name value) f n h =
    looked_up-IsDry (flag_named is_reconcile name) value f
      (flag_named-other is_reconcile name (grind arith)) h

parse_next-IsDry :
    (is_reconcile : Bool) (arg : Text) (p : Parsing)
    → not_apply (argument arg) ≡ true
    → IsDry p
    → IsDry (parse_next is_reconcile arg p)
parse_next-IsDry is_reconcile arg (reading f) n h =
    read_argument-IsDry is_reconcile (argument arg) f n h
parse_next-IsDry is_reconcile arg (waiting flag f) n h = set_text-apply flag arg f ∙ h
parse_next-IsDry is_reconcile arg (stopped f left) n h = h
parse_next-IsDry is_reconcile arg (failed e) n h = tt

parse_all-IsDry :
    (is_reconcile : Bool) (args : List Text) (p : Parsing)
    → asks_nothing args ≡ true
    → IsDry p
    → IsDry (parse_all is_reconcile args p)
unfolding parse_all asks_nothing
parse_all-IsDry is_reconcile [] p n h = h
parse_all-IsDry is_reconcile (arg ∷ args) p n h =
    parse_all-IsDry is_reconcile args (parse_next is_reconcile arg p) (grind arith)
      (parse_next-IsDry is_reconcile arg p (grind arith) h)

flags_of-apply : (p : Parsing) (f : Flags) → IsDry p → flags_of p ≡ ok f → f.apply ≡ false
flags_of-apply (reading g) f h e = grind arith
flags_of-apply (waiting flag g) f h e = absurd (grind arith)
flags_of-apply (stopped g left) f h e = grind arith
flags_of-apply (failed x) f h e = absurd (grind arith)

-- Arguments none of which names "apply" do not set it.
pub parse_flags-apply :
    (is_reconcile : Bool) (args : List Text) (f : Flags)
    → asks_nothing args ≡ true
    → parse_flags is_reconcile args ≡ ok f
    → f.apply ≡ false
unfolding parse_flags
parse_flags-apply is_reconcile args f n e =
    flags_of-apply (parse_all is_reconcile args (reading no_flags)) f
      (parse_all-IsDry is_reconcile args (reading no_flags) n refl) e
