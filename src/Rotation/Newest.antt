-- ===== src/Rotation/Newest.antt =====
-- The choice of `liveToken` among an account's tokens.
use grafana_mcp_setup.Prelude.{
  suc, ◌≤◌, true, ◌≡◌, refl, ◌⊎◌, inl, inr, Option, none, some, List, [], ◌∷◌, Text, arith, All,
  Bool-cases,
}
use grafana_mcp_setup.Exec.{Result, ok, err, Result-cases, and_then}
use grafana_mcp_setup.Go.Time.{Time}
use grafana_mcp_setup.Grafana.Types.{ServiceAccount, SaToken}
use grafana_mcp_setup.Rotation.Backend.{Backend}
use grafana_mcp_setup.Rotation.Choice.{Within, NoYounger, IsChosen, newest-IsChosen}
use grafana_mcp_setup.Rotation.Account.{
  past, validate, title_of, is_dead, newest, live_of, live_token,
}

-- The token is revoked, Grafana calls it expired, or its expiry has passed.
abbrev pub Past : Time → Option Time → Type 0
Past now none = ⊥
Past now (some expires) = suc expires ≤ now

abbrev pub IsDead : Time → SaToken → Type 0
IsDead now t = (t.revoked ≡ true) ⊎ (t.has_expired ≡ true) ⊎ Past now t.expiration

-- What `liveToken` chooses among the tokens of an account: none if all are dead, and else one that is
-- not, than which none that is not dead is younger.
abbrev pub IsNewest : Time → List SaToken → Option SaToken → Type 0
IsNewest now ts none = All (λ u. IsDead now u) ts
IsNewest now ts (some t) =
    Within t ts × ¬ IsDead now t × All (λ u. IsDead now u ⊎ (u.created ≤ t.created)) ts

past-Past : (now : Time) (o : Option Time) → past now o ≡ true → Past now o
past-Past now none h = cc
past-Past now (some expires) h = grind arith

Past-past : (now : Time) (o : Option Time) → Past now o → past now o ≡ true
Past-past now none h = absurd h
Past-past now (some expires) h = grind arith

is_dead-IsDead : (now : Time) (t : SaToken) → is_dead now t ≡ true → IsDead now t
is_dead-IsDead now t h = elim (Bool-cases t.revoked) [
  | inl revoked ↦ inl revoked
  | inr kept ↦ elim (Bool-cases t.has_expired) [
    | inl expired ↦ inr (inl expired)
    | inr lasting ↦ inr (inr (past-Past now t.expiration (grind arith)))
  ]
]

IsDead-is_dead : (now : Time) (t : SaToken) → IsDead now t → is_dead now t ≡ true
IsDead-is_dead now t (inl revoked) = grind arith
IsDead-is_dead now t (inr (inl expired)) = grind arith
IsDead-is_dead now t (inr (inr passed)) = grind (arith, Past-past now t.expiration passed)

All-IsDead :
    (now : Time) (ts : List SaToken)
    → All (λ u. is_dead now u ≡ true) ts
    → All (λ u. IsDead now u) ts
All-IsDead now [] h = tt
All-IsDead now (t ∷ ts) h = (is_dead-IsDead now t h.0, All-IsDead now ts h.1)

none_younger :
    (now : Time) (ts : List SaToken) (t : SaToken)
    → NoYounger now ts t
    → All (λ u. IsDead now u ⊎ (u.created ≤ t.created)) ts
none_younger now [] t h = tt
none_younger now (u ∷ ts) t h = elim (Bool-cases (is_dead now u)) [
  | inl dead ↦ (inl (is_dead-IsDead now u dead), none_younger now ts t h.1)
  | inr live ↦ (inr (h.0 live), none_younger now ts t h.1)
]

IsChosen-IsNewest :
    (now : Time) (ts : List SaToken) (o : Option SaToken) → IsChosen now ts o → IsNewest now ts o
IsChosen-IsNewest now ts none h = All-IsDead now ts h
IsChosen-IsNewest now ts (some t) h =
    (h.0, λ d. grind (arith, IsDead-is_dead now t d, h.1), none_younger now ts t h.2)

-- What a successful `liveToken` has read.
pub record LiveAnswer {S : Type 0} (b : Backend S) (o : Option SaToken)
    (found : Result (Option ServiceAccount) × S) : Type 0 where
  pub account : ServiceAccount
  pub found_one : found.0 ≡ ok (some account)
  pub enabled_viewer : validate account ≡ ok tt
  pub listing : List SaToken
  pub listed : (b.tokens account.name found.1).0 ≡ ok listing
  pub newest_one : IsNewest (b.now (b.tokens account.name found.1).1).0 listing o

module _ {S : Type 0} (b : Backend S) where
  abbrev pub NoAccount : Result (Option ServiceAccount) → Option SaToken → Type 0
  NoAccount r o = (r ≡ ok none) × (o ≡ none)

  account_answer :
      (sa : ServiceAccount) (s : S) (o : Option SaToken)
      → (live_of b (some sa) s).0 ≡ ok o
      → LiveAnswer b o (ok (some sa), s)
  account_answer sa s o h = elim (Result-cases (validate sa)) [
    | inl (u, valid) ↦ elim (Result-cases (b.tokens sa.name s).0) [
      | inl (listing, read) ↦
          let now = (b.now (b.tokens sa.name s).1).0 in
          let same : o ≡ newest now none listing = grind arith in
          record {
            account = sa;
            found_one = refl;
            enabled_viewer = valid;
            listing = listing;
            listed = read;
            newest_one = rw same (IsChosen-IsNewest now listing _ (newest-IsChosen now listing));
          }
      | inr (e, unread) ↦ absurd (grind arith)
    ]
    | inr (e, bad) ↦ absurd (grind arith)
  ]

  answer :
      (o : Option SaToken) (r : Result (Option ServiceAccount) × S)
      → (and_then r (live_of b)).0 ≡ ok o
      → NoAccount r.0 o ⊎ LiveAnswer b o r
  answer o (err e, s) h = cc
  answer o (ok none, s) h = inl (refl, cc)
  answer o (ok (some sa), s) h = inr (account_answer sa s o h)

  -- A successful `liveToken` either found no service account and returns nil, or it read the tokens
  -- of the account that it found, which is an enabled Viewer; it then returns nil if each of them is
  -- revoked or expired by the clock as it is read after that, and else one of them that is neither and
  -- that no other such token is younger than.
  pub live_token-IsNewest :
      (email : Text) (s : S) (o : Option SaToken)
      → (live_token b email s).0 ≡ ok o
      → let found = b.find (title_of email) s in NoAccount found.0 o ⊎ LiveAnswer b o found
  unfolding live_token
  live_token-IsNewest email s o h = answer o (b.find (title_of email) s) h
