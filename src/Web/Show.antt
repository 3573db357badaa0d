-- ===== src/Web/Show.antt =====
-- When the page shows a token.
use grafana_mcp_setup.Prelude.{
  ℕ, ◌≡◌, ◌≢◌, ◌⊎◌, refl, ap, inl, inr, Bool, true, false, Option, none, some, [], ◌∷◌, Text,
  Option-cases,
}
use grafana_mcp_setup.Exec.{Error, Result, ok, err, Result-cases}
use grafana_mcp_setup.Go.Time.{Time}
use grafana_mcp_setup.Cookies.Flash.{FlashCodec, OpenedFlash, csrf, open_flash}
use grafana_mcp_setup.Cookies.Sealed.{IsGenuine, open_flash-IsGenuine}
use grafana_mcp_setup.Grafana.Types.{SaToken}
use grafana_mcp_setup.Rotation.Backend.{Backend}
use grafana_mcp_setup.Rotation.Account.{live_token}
use grafana_mcp_setup.Web.Identity.{Identity, known, refused}
use grafana_mcp_setup.Web.Response.{clear_flash_cookie, flash_cookie_name}
use grafana_mcp_setup.Web.Oidc.{Auth, Request}
use grafana_mcp_setup.Web.Page.{
  PageData, fill_from, Outcome, shows, answers, page_data, status_with, status_of, show_cookie,
  show_for, page_for, handle_page, handle_show,
}

-- The token of a page, if there is a page.
abbrev pub token_of : Outcome → Text
token_of (shows d) = d.token
token_of (answers r) = []

module _ {S : Type 0} (b : Backend S) (codec : FlashCodec) (a : Auth S) (token_ttl : ℕ)
    (audit_status : Text → Error → S → S) where
  -- A token is on the page because the delivery cookie of the signed-in user opened to it, by the clock
  -- as it is read behind the making of the form token, and the answer clears that cookie.
  pub record IsRevealed (identity : S → Identity × S) (r : Request) (s : S) (token : Text)
      : Type 0 where
    pub email : Text
    pub authenticated : (identity s).0 ≡ known email
    pub csrf_made : Text
    pub formed : (csrf b.host codec email (identity s).1).0 ≡ ok csrf_made
    pub value : Text
    pub presented : r.cookie flash_cookie_name ≡ some value
    pub opened : OpenedFlash
    pub accepted :
        open_flash codec value email (b.now (csrf b.host codec email (identity s).1).1).0
        ≡ ok opened
    pub genuine :
        IsGenuine codec value email (b.now (csrf b.host codec email (identity s).1).1).0 opened
    pub token_opened : token ≡ opened.token
    pub cleared :
        (handle_show b codec a token_ttl audit_status identity r s).0
        ≡ clear_flash_cookie a.base_path ∷ []

  status_with-token :
      (email : Text) (spent : Bool) (d : PageData) (x : Result (Option SaToken) × S)
      → d.token ≡ []
      → token_of (status_with b codec a token_ttl audit_status email spent d x).0 ≡ []
  unfolding fill_from
  status_with-token email spent d (err e, s) h = refl
  status_with-token email spent d (ok none, s) h = h
  status_with-token email spent d (ok (some t), s) h = elim (Option-cases t.expiration) [
    | inl never ↦ rw never h
    | inr (expires, e) ↦ rw e h
  ]

  status_of-token :
      (email csrf_token : Text) (spent : Bool) (s : S)
      → token_of
          (status_of b codec a token_ttl audit_status email spent
            (page_data b codec a token_ttl audit_status email csrf_token)
            s).0
        ≡ []
  status_of-token email csrf_token spent s =
      status_with-token email spent (page_data b codec a token_ttl audit_status email csrf_token)
        (live_token b email s) refl

  page_for-token :
      (r : Request) (x : Identity × S)
      → token_of (page_for b codec a token_ttl audit_status r x).0 ≡ []
  page_for-token r (refused e, s) = refl
  page_for-token r (known email, s) = elim (Result-cases (csrf b.host codec email s).0) [
    | inl (csrf_token, made) ↦
        rw made (status_of-token email csrf_token false (csrf b.host codec email s).1)
    | inr (e, failed) ↦ rw failed refl
  ]

  -- What `handleShow` does once the user and the form token are there.
  record IsOpened (email : Text) (cookie : Option Text) (now : Time) (token : Text) : Type 0 where
    pub value : Text
    pub presented : cookie ≡ some value
    pub opened : OpenedFlash
    pub accepted : open_flash codec value email now ≡ ok opened
    pub token_opened : token ≡ opened.token

  show_cookie-IsOpened :
      (email csrf_token : Text) (cookie : Option Text) (s : S)
      → let x =
          show_cookie b codec a token_ttl audit_status email
            (page_data b codec a token_ttl audit_status email csrf_token)
            cookie
            s in
        token_of x.1 ≢ []
        → IsOpened email cookie (b.now s).0 (token_of x.1)
          × (x.0 ≡ clear_flash_cookie a.base_path ∷ [])
  unfolding fill_from
  show_cookie-IsOpened email csrf_token none s h =
      absurd (h (status_of-token email csrf_token true s))
  show_cookie-IsOpened email csrf_token (some value) s h =
      let (now, u) = b.now s in
      elim (Result-cases (open_flash codec value email now)) [
        | inr (e, closed) ↦ absurd (h (rw closed (status_of-token email csrf_token true u)))
        | inl (opened, accepted) ↦ (
          record {
            value = value;
            presented = refl;
            opened = opened;
            accepted = accepted;
            token_opened = rw accepted (elim (Option-cases opened.token_expires) [
              | inl never ↦ rw never refl
              | inr (expires, e) ↦ rw e refl
            ]);
          },
          refl,
        )
      ]

  show_for-IsRevealed :
      (identity : S → Identity × S) (r : Request) (s : S) (x : Identity × S)
      → identity s ≡ x
      → token_of (show_for b codec a token_ttl audit_status r x).1 ≢ []
      → IsRevealed identity r s (token_of (show_for b codec a token_ttl audit_status r x).1)
  unfolding handle_show
  show_for-IsRevealed identity r s (refused e, t) same h = absurd (h refl)
  show_for-IsRevealed identity r s (known email, t) same h =
      elim (Result-cases (csrf b.host codec email t).0) [
        | inr (e, failed) ↦ absurd (h (rw failed refl))
        | inl (csrf_token, made) ↦
            let u = (csrf b.host codec email t).1 in
            let (o, cleared) =
              show_cookie-IsOpened email csrf_token (r.cookie flash_cookie_name) u
                (λ e. h (rw made e)) in
            record {
              email = email;
              authenticated = ap (λ (y : Identity × S). y.0) same;
              csrf_made = csrf_token;
              formed = rw same made;
              value = o.value;
              presented = o.presented;
              opened = o.opened;
              accepted = rw same o.accepted;
              genuine =
                  rw same
                    (open_flash-IsGenuine codec o.value email (b.now u).0 o.opened o.accepted);
              token_opened = rw made o.token_opened;
              cleared = rw (same, made) cleared;
            }
      ]

  shown_or_not : (token : Text) → (token ≡ []) ⊎ (token ≢ [])
  shown_or_not [] = inl refl
  shown_or_not (c ∷ token) = inr (λ e. cc)

  -- A page that `handleShow` renders holds no token, or the token to which the signed-in user's own
  -- delivery cookie opens, by the clock as it is read behind the making of the form token, and then the
  -- answer clears that cookie; the page that `handlePage` renders never holds a token.
  pub handle_show-IsRevealed :
      (identity : S → Identity × S) (r : Request) (s : S)
      → ((token_of (handle_show b codec a token_ttl audit_status identity r s).1 ≡ [])
          ⊎ IsRevealed identity r s
              (token_of (handle_show b codec a token_ttl audit_status identity r s).1))
        × (token_of (handle_page b codec a token_ttl audit_status identity r s).0 ≡ [])
  unfolding handle_show handle_page
  handle_show-IsRevealed identity r s = (
    elim (shown_or_not (token_of (show_for b codec a token_ttl audit_status r (identity s)).1)) [
      | inl hidden ↦ inl hidden
      | inr shown ↦ inr (show_for-IsRevealed identity r s (identity s) refl shown)
    ],
    page_for-token r (identity s),
  )
