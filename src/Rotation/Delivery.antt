-- ===== src/Rotation/Delivery.antt =====
-- What the user receives of a successful `issue`: a cookie with the new token's secret.
use grafana_mcp_setup.Prelude.{
  ℕ, ◌≤◌, Bool, true, false, ◌≡◌, refl, Option, none, List, Text, length, if◌then◌else◌, arith, inl,
  inr, Bool-cases,
}
use grafana_mcp_setup.Exec.{Result, ok, err}
use grafana_mcp_setup.Go.Time.{Time}
use grafana_mcp_setup.Grafana.Types.{ServiceAccount, SaToken, IssuedToken}
use grafana_mcp_setup.Cookies.Flash.{
  FlashCodec, FlashPreparation, DeliveryPreparation, seal_prepared,
}
use grafana_mcp_setup.Rotation.Backend.{Backend}
use grafana_mcp_setup.Rotation.Issue.{
  IssueResult, cleaned_up, max_flash_cookie, delete_old, minted, rotate, issue, is_oversize,
}

-- The preparation that a delivery uses.
abbrev pub preparation_for : DeliveryPreparation → Bool → FlashPreparation
preparation_for prepared partial = if partial then prepared.partial else prepared.success

-- The cookie is the sealed secret, with the flag of the partial cleanup, and it fits.
pub record IsDelivered (codec : FlashCodec) (email : Text) (prepared : DeliveryPreparation)
    (r : IssueResult) : Type 0 where
  pub created : Time
  pub expires : Option Time
  pub cookie :
      r.flash_cookie
      ≡ seal_prepared codec
          (preparation_for prepared r.partial_cleanup)
          email
          r.token
          r.partial_cleanup
          created
          expires
  pub fits : length r.flash_cookie ≤ max_flash_cookie

module _ {S : Type 0} (b : Backend S) (codec : FlashCodec) (ttl : ℕ) (email : Text)
    (prepared : DeliveryPreparation) where
  cleaned_up-IsDelivered :
      (action account name : Text) (token : IssuedToken)
      → is_oversize b codec ttl email prepared token ≡ false
      → (x : Bool × S)
      → IsDelivered codec email prepared
          (cleaned_up b codec ttl email prepared action account name token x).0.issued
  cleaned_up-IsDelivered action account name token fits (true, s) = record {
    created = token.created;
    expires = token.expires;
    cookie = refl;
    fits = ground arith;
  }
  cleaned_up-IsDelivered action account name token fits (false, s) = record {
    created = token.created;
    expires = token.expires;
    cookie = refl;
    fits = ground arith;
  }

  minted-IsDelivered :
      (action : Text) (guard : ℕ) (account name : Text) (old : List SaToken)
      (r : Result IssuedToken × S)
      → let x = minted b codec ttl email prepared action guard account name old r in
        x.0.error ≡ none → IsDelivered codec email prepared x.0.issued
  minted-IsDelivered action guard account name old (err e, s) h = cc
  minted-IsDelivered action guard account name old (ok token, s) h =
      elim (Bool-cases (is_oversize b codec ttl email prepared token)) [
        | inl long ↦ absurd (grind arith)
        | inr fits ↦ rw fits (
            cleaned_up-IsDelivered action account name token fits
              (delete_old b guard account old s))
      ]

  rotate-IsDelivered :
      (action : Text) (guard : ℕ) (sa : ServiceAccount) (s : S)
      → let x = rotate b codec ttl email prepared action guard sa s in
        x.0.error ≡ none → IsDelivered codec email prepared x.0.issued
  unfolding rotate
  rotate-IsDelivered action guard sa s h = grind (arith, minted-IsDelivered)

  -- A successful `issue` hands over a cookie of at most 3800 bytes in which the new token's secret is
  -- sealed for the user, with the flag that says whether the cleanup of old tokens was partial.
  pub issue-IsDelivered :
      (s : S)
      → let x = issue b codec ttl email prepared s in
        x.0.error ≡ none → IsDelivered codec email prepared x.0.issued
  unfolding issue
  issue-IsDelivered s h = grind (arith, rotate-IsDelivered)
