-- ===== src/Snippet/Shown.antt =====
-- What a reader sees of a painted snippet: the escaped source, with a mask for the string literals that
-- hold the token's place.
use grafana_mcp_setup.Prelude.{
  append-nil, ◌≡◌, refl, ap, inl, inr, true, false, [], ◌++◌, append_assoc, Text, codes, arith,
  Bool-cases,
}
use grafana_mcp_setup.Go.Substrings.{contains_text, contains_text-left, contains_text-right}
use grafana_mcp_setup.Go.Html.{html_escape}
use grafana_mcp_setup.Snippet.Highlight.{token_sentinel, span, str}
use grafana_mcp_setup.Snippet.Highlight.{quote}
use grafana_mcp_setup.Snippet.Visible.{
  visible_from, visible, visible-escaped, html_escape-append, IsClass, visible-span,
}

str-masked :
    (mask class literal : Text)
    → contains_text literal token_sentinel ≡ true
    → str mask class literal ≡ span class quote ++ (span (codes "tok") mask ++ span class quote)
unfolding str span
str-masked mask class literal there =
    rw (there, append_assoc (html_escape mask) (codes "</span>") (span class quote)) refl

visible-masked :
    (mask class x : Text)
    → IsClass class
    → visible_from false ((span class quote ++ (span (codes "tok") mask ++ span class quote)) ++ x)
      ≡ (html_escape quote ++ (html_escape mask ++ html_escape quote)) ++ visible_from false x
visible-masked mask class x c =
    rw
      (
        append_assoc (span class quote) (span (codes "tok") mask ++ span class quote) x,
        visible-span class quote ((span (codes "tok") mask ++ span class quote) ++ x) c,
        append_assoc (span (codes "tok") mask) (span class quote) x,
        visible-span (codes "tok") mask (span class quote ++ x) (ground arith),
        visible-span class quote x c,
        append_assoc (html_escape quote) (html_escape mask ++ html_escape quote)
            (visible_from false x),
        append_assoc (html_escape mask) (html_escape quote) (visible_from false x),
      )
      refl

-- A piece of the source in front of the rest, and what is seen of it: itself, if it is a string literal that
-- does not hold the token's place, or bare; and the mask in quotes, if it is a literal that holds the
-- token's place.
pub data IsPiece (Bare : Text → Type 0) (Literal : Text → Text → Type 0) (mask rest : Text)
    : Text → Text → Type 0 where
  clean :
      (t : Text)
      → Literal t rest
      → contains_text t token_sentinel ≡ false
      → IsPiece Bare Literal mask rest t (html_escape t)
  bare : (t : Text) → Bare t → IsPiece Bare Literal mask rest t (html_escape t)
  masked :
      (t : Text)
      → Literal t rest
      → contains_text t token_sentinel ≡ true
      → IsPiece Bare Literal mask rest t
          (html_escape quote ++ (html_escape mask ++ html_escape quote))

-- A source in pieces, and what is seen of it.
pub data IsSeen (Bare : Text → Type 0) (Literal : Text → Text → Type 0) (mask : Text)
    : Text → Text → Type 0 where
  nothing : IsSeen Bare Literal mask [] []
  piece :
      {t seen rest more : Text}
      → IsPiece Bare Literal mask rest t seen
      → IsSeen Bare Literal mask rest more
      → IsSeen Bare Literal mask (t ++ rest) (seen ++ more)

module _ (Bare : Text → Type 0) (Literal : Text → Text → Type 0) (mask : Text) where
  -- A source that does not hold the token's place is seen as it is.
  pub IsSeen-unmasked :
      {s seen : Text}
      → IsSeen Bare Literal mask s seen
      → contains_text s token_sentinel ≡ false
      → seen ≡ html_escape s
  unfolding html_escape
  IsSeen-unmasked nothing e = refl
  IsSeen-unmasked (piece {t} {seen} {rest} {more} (clean _ l h) k) e =
      rw (html_escape-append t rest) (
        ap (λ (x : Text). html_escape t ++ x)
          (IsSeen-unmasked k (contains_text-right t rest token_sentinel e)))
  IsSeen-unmasked (piece {t} {seen} {rest} {more} (bare _ h) k) e = rw (html_escape-append t rest) (
      ap (λ (x : Text). html_escape t ++ x)
        (IsSeen-unmasked k (contains_text-right t rest token_sentinel e)))
  IsSeen-unmasked (piece {t} {seen} {rest} {more} (masked _ l h) k) e =
      absurd (grind (arith, contains_text-left t rest token_sentinel e))

  -- What is written for a piece, and what is seen of it in front of anything.
  pub record ShowsPiece (rest t out : Text) : Type 0 where
    pub seen : Text
    pub is_piece : IsPiece Bare Literal mask rest t seen
    pub shown : (x : Text) → visible_from false (out ++ x) ≡ seen ++ visible_from false x

  -- The same of a source.
  pub record Shows (src out : Text) : Type 0 where
    pub seen : Text
    pub is_seen : IsSeen Bare Literal mask src seen
    pub shown : (x : Text) → visible_from false (out ++ x) ≡ seen ++ visible_from false x

  pub Shows-nothing : Shows [] []
  Shows-nothing = record { seen = []; is_seen = nothing; shown = λ x. refl }

  pub shown_together :
      (out more seen after x : Text)
      → ((y : Text) → visible_from false (out ++ y) ≡ seen ++ visible_from false y)
      → visible_from false (more ++ x) ≡ after ++ visible_from false x
      → visible_from false ((out ++ more) ++ x) ≡ (seen ++ after) ++ visible_from false x
  shown_together out more seen after x h k =
      rw (append_assoc out more x, h (more ++ x), k, append_assoc seen after (visible_from false x))
        refl

  pub Shows-cons :
      (t out rest more : Text)
      → ShowsPiece rest t out
      → Shows rest more
      → Shows (t ++ rest) (out ++ more)
  Shows-cons t out rest more h k = record {
    seen = h.seen ++ k.seen;
    is_seen = piece h.is_piece k.is_seen;
    shown = λ x. shown_together out more h.seen k.seen x h.shown (k.shown x);
  }

  pub Shows-same : (s t out : Text) → s ≡ t → Shows t out → Shows s out
  Shows-same s t out e h = rw e h

  pub Shows-one : (t out : Text) → ShowsPiece [] t out → Shows t out
  Shows-one t out h = record {
    seen = h.seen;
    is_seen = rw (← append-nil t, ← append-nil h.seen) (piece h.is_piece nothing);
    shown = h.shown;
  }

  pub escaped-ShowsPiece : (rest t : Text) → Bare t → ShowsPiece rest t (html_escape t)
  escaped-ShowsPiece rest t h = record {
    seen = html_escape t;
    is_piece = bare t h;
    shown = visible-escaped t;
  }

  pub span-ShowsPiece :
      (rest class t : Text) → IsClass class → Bare t → ShowsPiece rest t (span class t)
  span-ShowsPiece rest class t c h = record {
    seen = html_escape t;
    is_piece = bare t h;
    shown = λ x. visible-span class t x c;
  }

  str-clean :
      (class literal : Text)
      → contains_text literal token_sentinel ≡ false
      → str mask class literal ≡ span class literal
  unfolding str
  str-clean class literal absent = rw absent refl

  pub str-ShowsPiece :
      (rest class literal : Text)
      → IsClass class
      → Literal literal rest
      → ShowsPiece rest literal (str mask class literal)
  str-ShowsPiece rest class literal c l = elim (Bool-cases (contains_text literal token_sentinel)) [
    | inr absent ↦ rw (str-clean class literal absent) (record {
      seen = html_escape literal;
      is_piece = clean literal l absent;
      shown = λ x. visible-span class literal x c;
    })
    | inl there ↦ rw (str-masked mask class literal there) (record {
      seen = html_escape quote ++ (html_escape mask ++ html_escape quote);
      is_piece = masked literal l there;
      shown = λ x. visible-masked mask class x c;
    })
  ]

  module _ (anywhere : (t rest other : Text) → Literal t rest → Literal t other) where
    IsPiece-anywhere :
        {t seen : Text} (rest other : Text)
        → IsPiece Bare Literal mask rest t seen
        → IsPiece Bare Literal mask other t seen
    IsPiece-anywhere rest other (clean t l h) = clean t (anywhere t rest other l) h
    IsPiece-anywhere rest other (bare t h) = bare t h
    IsPiece-anywhere rest other (masked t l h) = masked t (anywhere t rest other l) h

    IsSeen-append :
        {s seen t more : Text}
        → IsSeen Bare Literal mask s seen
        → IsSeen Bare Literal mask t more
        → IsSeen Bare Literal mask (s ++ t) (seen ++ more)
    IsSeen-append nothing k = k
    IsSeen-append {t = u} (piece {t} {seen} {rest} {more} p h) k =
        rw (append_assoc t rest u, append_assoc seen more _)
          (piece (IsPiece-anywhere rest (rest ++ u) p) (IsSeen-append h k))

    pub Shows-append :
        (s out t more : Text) → Shows s out → Shows t more → Shows (s ++ t) (out ++ more)
    Shows-append s out t more h k = record {
      seen = h.seen ++ k.seen;
      is_seen = IsSeen-append h.is_seen k.is_seen;
      shown = λ x. shown_together out more h.seen k.seen x h.shown (k.shown x);
    }

  -- What is written alone is seen as what is seen of it.
  pub Shows-IsSeen : (src out : Text) → Shows src out → IsSeen Bare Literal mask src (visible out)
  unfolding visible visible_from
  Shows-IsSeen src out h =
      let alone : visible_from false out ≡ h.seen =
        rw (← append-nil out, ← append-nil h.seen) (h.shown []) in
      rw alone h.is_seen
