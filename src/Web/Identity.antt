-- ===== src/Web/Identity.antt =====
-- `authorise` and `validEmail`: the identity that an ID token's claims give.
use grafana_mcp_setup.Prelude.{
  ℕ, ◌≤◌, ◌≡◌, ◌≢◌, refl, ap, ◌⊎◌, inl, inr, Bool, true, false, not, ◌&&◌, ◌||◌, List, [], ◌∷◌,
  ◌++◌, Text, codes, text_eq, text_eq_iff, length, any, contains, ltb, ◌==◌, ==_iff, if◌then◌else◌,
  arith, Bool-cases,
}
use grafana_mcp_setup.Go.Strings.{to_lower, count_byte}

-- type authError
pub record AuthError : Type 0 where
  pub forbidden : Bool
  pub message : Text

pub data Identity : Type 0 where
  known : Text → Identity
  refused : AuthError → Identity

-- strings.SplitN(s, sep, 2): what stands before and behind the first separator.
unfoldable pub cut : ℕ → Text → Text × Text
cut sep [] = ([], [])
cut sep (c ∷ s) =
    let (before, behind) = cut sep s in if c == sep then ([], s) else (c ∷ before, behind)

-- A byte of " \t\r\n\x00".
abbrev pub is_blank : ℕ → Bool
is_blank c = c == 32 || (c == 9 || (c == 13 || (c == 10 || c == 0)))

unfoldable pub valid_email : Text → Bool
valid_email email =
    if length email == 0 || (ltb 254 (length email) || not (count_byte b'@' email == 1))
    then false
    else if text_eq (cut b'@' email).0 [] || text_eq (cut b'@' email).1 []
    then false
    else not (any is_blank email)

abbrev pub in_required_group : List Text → List Text → Bool
in_required_group required groups = any (contains groups) required

module _ {S : Type 0} (record_auth : Text → S → S) (required_groups : List Text) where
  unfoldable pub authorise : Text → List Text → S → Identity × S
  authorise email groups s =
      if not (valid_email email)
      then (
        refused
            (record { forbidden = false; message = codes "the ID token carries no usable email" }),
        s,
      )
      else if ltb 0 (length required_groups) && not (in_required_group required_groups groups)
      then (
        refused
            (record { forbidden = true; message = codes "the identity lacks a required group" }),
        record_auth (codes "authorization_denial") s,
      )
      else (known (to_lower email), s)

-- An e-mail address with its two parts.
pub record IsEmail (email : Text) : Type 0 where
  pub local_part : Text
  pub domain : Text
  pub parts : email ≡ local_part ++ b'@' ∷ domain
  pub local_nonempty : local_part ≢ []
  pub domain_nonempty : domain ≢ []
  pub single : (count_byte b'@' local_part ≡ 0) × (count_byte b'@' domain ≡ 0)
  pub short : length email ≤ 254
  pub unblank : any is_blank email ≡ false

cut-parts :
    (sep : ℕ) (s : Text)
    → count_byte sep s ≡ 1
    → (s ≡ (cut sep s).0 ++ sep ∷ (cut sep s).1)
      × (count_byte sep (cut sep s).0 ≡ 0)
      × (count_byte sep (cut sep s).1 ≡ 0)
unfolding cut count_byte
cut-parts sep [] h = cc
cut-parts sep (c ∷ s) h = elim (Bool-cases (c == sep)) [
  | inl here ↦ rw here (ap (λ (x : ℕ). x ∷ s) ((==_iff c sep).0 here), refl, grind arith)
  | inr later ↦
      let rest = cut-parts sep s (grind arith) in
      rw later (ap (λ (t : Text). c ∷ t) rest.0, grind arith, rest.2)
]

valid_email-IsEmail : (email : Text) → valid_email email ≡ true → IsEmail email
unfolding valid_email
valid_email-IsEmail email h =
    let parts = cut-parts b'@' email (grind arith) in
    record {
      local_part = (cut b'@' email).0;
      domain = (cut b'@' email).1;
      parts = parts.0;
      local_nonempty = λ e. grind (arith, text_eq_iff (cut b'@' email).0 []);
      domain_nonempty = λ e. grind (arith, text_eq_iff (cut b'@' email).1 []);
      single = (parts.1, parts.2);
      short = grind arith;
      unblank = grind arith;
    }

group_needed :
    (required groups : List Text)
    → (ltb 0 (length required) && not (in_required_group required groups)) ≡ false
    → (required ≡ []) ⊎ (in_required_group required groups ≡ true)
group_needed [] groups h = inl refl
group_needed (group ∷ required) groups h = inr (grind arith)

module _ {S : Type 0} (record_auth : Text → S → S) (required_groups : List Text) where
  -- An identity is given only for an e-mail address of at most 254 bytes with exactly one `@`, something
  -- on both sides of it and no blank, and, where groups are required, to a member of one of them; it
  -- is the lower-cased address, and nothing is recorded.
  pub authorise-IsEmail :
      (email : Text) (groups : List Text) (s : S) (name : Text) (t : S)
      → authorise record_auth required_groups email groups s ≡ (known name, t)
      → IsEmail email
        × (name ≡ to_lower email)
        × (t ≡ s)
        × ((required_groups ≡ []) ⊎ (in_required_group required_groups groups ≡ true))
  unfolding authorise
  authorise-IsEmail email groups s name t h = elim (Bool-cases (valid_email email)) [
    | inl good ↦ (
      valid_email-IsEmail email good,
      grind arith,
      grind arith,
      group_needed required_groups groups (grind arith),
    )
    | inr bad ↦ absurd (grind arith)
  ]
