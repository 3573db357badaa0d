-- ===== src/Reconcile/Targets.antt =====
-- `normalizeTargets`: the e-mail addresses that a command is run for.
use grafana_mcp_setup.Prelude.{
  Bool, true, false, ◌||◌, not, ◌≡◌, ◌≢◌, refl, inl, inr, List, [], ◌∷◌, ◌++◌, Text, codes, text_eq,
  text_eq_iff, text_eq_refl, if◌then◌else◌, contains, All, All-append, arith, Bool-cases, map,
}
use grafana_mcp_setup.Exec.{Error, failure, Result, ok, err}
use grafana_mcp_setup.Go.Strings.{to_lower, trim_space, has_byte}

abbrev pub target_of : Text → Text
target_of raw = to_lower (trim_space raw)

abbrev pub is_target : Text → Bool
is_target email = not (text_eq email [] || not (has_byte b'@' email))

abbrev pub invalid_target : Text → Error
invalid_target raw = failure (codes "invalid email target " ++ raw)

-- The loop; the map `seen` holds the elements of `out`.
unfoldable pub collect : List Text → List Text → Result (List Text)
collect out [] = ok out
collect out (raw ∷ raws) =
    let email = target_of raw in
    let rest = collect (if contains out email then out else out ++ email ∷ []) raws in
    if is_target email then rest else err (invalid_target raw)

unfoldable pub normalize_targets : List Text → Result (List Text)
normalize_targets [] = err (failure (codes "at least one --email target is required"))
normalize_targets (raw ∷ raws) = collect [] (raw ∷ raws)

abbrev pub Absent : Text → List Text → Type 0
Absent email emails = contains emails email ≡ false

-- No element occurs twice.
abbrev pub IsDistinct : List Text → Type 0
IsDistinct [] = Unit
IsDistinct (email ∷ emails) = Absent email emails × IsDistinct emails

-- What `normalizeTargets` returns for its arguments.
pub record AreTargets (raws emails : List Text) : Type 0 where
  pub nonempty : emails ≢ []
  pub valid : All (λ email. is_target email ≡ true) emails
  pub distinct : IsDistinct emails
  pub requested : All (λ raw. contains emails (target_of raw) ≡ true) raws
  pub nothing_else : All (λ email. contains (map target_of raws) email ≡ true) emails

contains-snoc :
    (xs : List Text) (x t : Text) → contains (xs ++ x ∷ []) t ≡ (contains xs t || text_eq x t)
contains-snoc [] x t = ground arith
contains-snoc (y ∷ ys) x t = ground (arith, contains-snoc ys x t)

IsDistinct-snoc :
    (xs : List Text) (x : Text) → IsDistinct xs → Absent x xs → IsDistinct (xs ++ x ∷ [])
IsDistinct-snoc [] x d a = (refl, tt)
IsDistinct-snoc (y ∷ ys) x d a = (
  grind (arith, contains-snoc ys x y, d.0, text_eq_iff x y, text_eq_iff y x),
  IsDistinct-snoc ys x d.1 (ground arith),
)

abbrev extended : List Text → Text → List Text
extended out email = if contains out email then out else out ++ email ∷ []

extended-IsDistinct :
    (out : List Text) (email : Text) → IsDistinct out → IsDistinct (extended out email)
extended-IsDistinct out email d = elim (Bool-cases (contains out email)) [
  | inl old ↦ rw old d
  | inr fresh ↦ rw fresh (IsDistinct-snoc out email d fresh)
]

extended-mentions : (out : List Text) (email : Text) → contains (extended out email) email ≡ true
extended-mentions out email = elim (Bool-cases (contains out email)) [
  | inl old ↦ rw old old
  | inr fresh ↦ rw fresh (grind (arith, contains-snoc out email email, text_eq_iff email email))
]

extended-keeps :
    (out : List Text) (email t : Text)
    → contains out t ≡ true
    → contains (extended out email) t ≡ true
extended-keeps out email t h = elim (Bool-cases (contains out email)) [
  | inl old ↦ rw old h
  | inr fresh ↦ rw fresh (grind (arith, contains-snoc out email t))
]

-- The loop, with what it has collected.
record Collected (out raws emails : List Text) : Type 0 where
  valid : All (λ email. is_target email ≡ true) emails
  distinct : IsDistinct emails
  requested : All (λ raw. contains emails (target_of raw) ≡ true) raws
  kept : (t : Text) → contains out t ≡ true → contains emails t ≡ true
  nothing_else :
      (t : Text)
      → contains emails t ≡ true
      → (contains out t || contains (map target_of raws) t) ≡ true

extended-valid :
    (out : List Text) (email : Text)
    → All (λ e. is_target e ≡ true) out
    → is_target email ≡ true
    → All (λ e. is_target e ≡ true) (extended out email)
extended-valid out email h v = elim (Bool-cases (contains out email)) [
  | inl old ↦ rw old h
  | inr fresh ↦ rw fresh (All-append (λ e. is_target e ≡ true) out (email ∷ []) h (v, tt))
]

extended-nothing_else :
    (out : List Text) (email t : Text)
    → contains (extended out email) t ≡ true
    → (contains out t || text_eq email t) ≡ true
extended-nothing_else out email t h = elim (Bool-cases (contains out email)) [
  | inl old ↦ grind arith
  | inr fresh ↦ grind (arith, contains-snoc out email t)
]

collect-Collected :
    (out raws emails : List Text)
    → All (λ e. is_target e ≡ true) out
    → IsDistinct out
    → collect out raws ≡ ok emails
    → Collected out raws emails
unfolding collect
collect-Collected out [] emails v d e =
    let same : out ≡ emails = grind arith in
    record {
      valid = rw same at v;
      distinct = rw same at d;
      requested = tt;
      kept = λ t h. rw same at h;
      nothing_else = λ t h. grind arith;
    }
collect-Collected out (raw ∷ raws) emails v d e = elim (Bool-cases (is_target (target_of raw))) [
  | inl good ↦
      let email = target_of raw in
      let c =
        collect-Collected (extended out email) raws emails (extended-valid out email v good)
          (extended-IsDistinct out email d) (grind arith) in
      record {
        valid = c.valid;
        distinct = c.distinct;
        requested = (c.kept email (extended-mentions out email), c.requested);
        kept = λ t h. c.kept t (extended-keeps out email t h);
        nothing_else = λ t h. grind (arith, c.nothing_else t h, extended-nothing_else out email t);
      }
  | inr bad ↦ absurd (grind arith)
]

All-contains :
    (xs ys : List Text)
    → ((t : Text) → contains xs t ≡ true → contains ys t ≡ true)
    → All (λ t. contains ys t ≡ true) xs
All-contains [] ys h = tt
All-contains (x ∷ xs) ys h =
    (h x (grind (arith, text_eq_refl x)), All-contains xs ys (λ t k. h t (grind arith)))

-- If `normalizeTargets` succeeds, then it returns at least one address; each has an `@`, none occurs
-- twice, each argument is there once it is trimmed and lower-cased, and nothing else is there.
pub normalize_targets-AreTargets :
    (raws emails : List Text) → normalize_targets raws ≡ ok emails → AreTargets raws emails
unfolding normalize_targets
normalize_targets-AreTargets [] emails e = cc
normalize_targets-AreTargets (raw ∷ raws) emails e =
    let c = collect-Collected [] (raw ∷ raws) emails tt tt e in
    record {
      nonempty = λ none. grind (arith, c.requested.0);
      valid = c.valid;
      distinct = c.distinct;
      requested = c.requested;
      nothing_else = All-contains emails (map target_of (raw ∷ raws)) (λ t h. c.nothing_else t h);
    }
