-- ===== src/Rotation/Account.antt =====
-- `validateServiceAccount`, `liveToken` and `tokenName`.
use grafana_mcp_setup.Prelude.{
  ℕ, zero, suc, ◌+◌, ◌/◌, ◌%◌, Bool, false, ◌||◌, not, Option, none, some, List, [], ◌∷◌, ◌++◌,
  Text, codes, text_eq, ltb, if◌then◌else◌,
}
use grafana_mcp_setup.Prelude.Int.{ℤ, pos, negsuc}
use grafana_mcp_setup.Exec.{account_state, Result, ok, err, Exec, pure, lift, ◌>>=◌, ◌>>◌}
use grafana_mcp_setup.Go.Time.{Time, after}
use grafana_mcp_setup.Grafana.Types.{ServiceAccount, SaToken, viewer}
use grafana_mcp_setup.Rotation.Backend.{Backend}

unfoldable pub validate : ServiceAccount → Result (Unit {0})
validate sa =
    if sa.disabled
    then err (account_state (codes "disabled"))
    else if not (text_eq sa.role viewer)
    then err (account_state sa.role)
    else ok tt

abbrev pub title_of : Text → Text
title_of email = codes "mcp-" ++ email

-- The tokens that `liveToken` passes over.
abbrev pub past : Time → Option Time → Bool
past now none = false
past now (some expires) = after now expires

abbrev pub is_dead : Time → SaToken → Bool
is_dead now t = t.revoked || (t.has_expired || past now t.expiration)

abbrev pub newer : Option SaToken → SaToken → Option SaToken
newer none t = some t
newer (some best) t = if after t.created best.created then some t else some best

-- The loop of `liveToken`.
unfoldable pub newest : Time → Option SaToken → List SaToken → Option SaToken
newest now best [] = best
newest now best (t ∷ ts) = newest now (if is_dead now t then best else newer best t) ts

module _ {S : Type 0} (b : Backend S) where
  abbrev pub clock : Exec S Time
  clock s = let (t, s') = b.now s in (ok t, s')

  abbrev pub live_of : Option ServiceAccount → Exec S (Option SaToken)
  live_of none = pure none
  live_of (some sa) = do
    lift (validate sa)
    tokens ← b.tokens sa.name
    now ← clock
    pure (newest now none tokens)

  unfoldable pub live_token : Text → Exec S (Option SaToken)
  live_token email = do sa ← b.find (title_of email); live_of sa

-- strconv.FormatInt(v, 36) of a time after 1970, and hex.EncodeToString: `name_of` is given both.
abbrev pub hex_digit : ℕ → ℕ
hex_digit d = if ltb d 10 then 48 + d else 87 + d

unfoldable pub hex : Text → Text
hex [] = []
hex (c ∷ s) = hex_digit (c / 16 % 16) ∷ hex_digit (c % 16) ∷ hex s

-- The base-36 digits of `n` in front of `rest`; more fuel than `n` is enough.
unfoldable pub base36_before : ℕ → ℕ → Text → Text
base36_before zero n rest = rest
base36_before (suc f) n rest =
    let more = base36_before f (n / 36) (hex_digit (n % 36) ∷ rest) in
    if ltb n 36 then hex_digit n ∷ rest else more

abbrev pub base36 : ℤ → Text
base36 (pos n) = base36_before (suc n) n []
base36 (negsuc n) = codes "-" ++ base36_before (suc (suc n)) (suc n) []
