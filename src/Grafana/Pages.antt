-- ===== src/Grafana/Pages.antt =====
-- The paged search of the IAM API, in terms of all accounts that were served, and its end.
use grafana_mcp_setup.Prelude.{
  ℕ, zero, suc, ◌≤◌, ◌<◌, ◌≡◌, ◌≢◌, refl, ap, Bool, true, false, Option, none, some, List, [], ◌∷◌,
  ◌++◌, Text, text_eq, text_eq_iff, contains, length, keep_if, inl, inr, Bool-cases, if◌then◌else◌,
  arith,
}
use grafana_mcp_setup.Exec.{Error, out_of_fuel, Result, ok, err, Result-cases}
use grafana_mcp_setup.Grafana.Types.{ServiceAccount, AccountPage}
use grafana_mcp_setup.Grafana.Errors.{bind_result}
use grafana_mcp_setup.Grafana.Net.{Net, Client}
use grafana_mcp_setup.Grafana.Iam.{
  multiple_accounts, scan_items, account_page, find_pages, find_service_account,
}

abbrev pub is_titled : Text → ServiceAccount → Bool
is_titled title a = text_eq a.title title

-- The one account of a list, none, or the error for several.
abbrev pub sole : List ServiceAccount → Result (Option ServiceAccount)
sole [] = ok none
sole (a ∷ []) = ok (some a)
sole (a ∷ b ∷ _) = err multiple_accounts

abbrev sole_after : ServiceAccount → List ServiceAccount → Result (Option ServiceAccount)
sole_after a [] = ok (some a)
sole_after a (b ∷ _) = err multiple_accounts

scan_after :
    (title : Text) (a : ServiceAccount) (items : List ServiceAccount)
    → scan_items title (some a) items ≡ sole_after a (keep_if (is_titled title) items)
unfolding scan_items
scan_after title a [] = refl
scan_after title a (b ∷ items) = ground (arith, scan_after title a items)

scan_items-eq-sole :
    (title : Text) (items : List ServiceAccount)
    → scan_items title none items ≡ sole (keep_if (is_titled title) items)
unfolding scan_items
scan_items-eq-sole title [] = refl
scan_items-eq-sole title (b ∷ items) = elim (Bool-cases (text_eq b.title title)) [
  | inl same ↦ rw same (ground (arith, scan_after title b items))
  | inr other ↦ rw other (scan_items-eq-sole title items)
]

bind_assoc :
    {A : Type 0} (r : Result A) (f g : A → Result (Option ServiceAccount))
    (h : Option ServiceAccount → Result (Option ServiceAccount))
    → ((a : A) → f a ≡ bind_result (g a) h)
    → bind_result r f ≡ bind_result (bind_result r g) h
bind_assoc (ok a) f g h e = e a
bind_assoc (err x) f g h e = refl

scan_items-append :
    (title : Text) (found : Option ServiceAccount) (xs ys : List ServiceAccount)
    → scan_items title found (xs ++ ys)
      ≡ bind_result (scan_items title found xs) (λ f. scan_items title f ys)
unfolding scan_items
scan_items-append title found [] ys = refl
scan_items-append title found (x ∷ xs) ys =
    bind_assoc _ _ _ _ (λ f. scan_items-append title f xs ys)

module _ {S : Type 0} (net : Net S) (g : Client) where
  -- From the continuation `c` in state `s` Grafana serves `items`, page by page, up to the page
  -- without a continuation, and is then in state `t`.
  pub data Fetched : Text → S → List ServiceAccount → S → Type 0 where
    last :
        {c : Text} {s : S} {items : List ServiceAccount} {t : S} (page : AccountPage)
        → account_page net g c s ≡ (ok page, t)
        → page.continuation ≡ []
        → items ≡ page.items
        → Fetched c s items t
    next :
        {c : Text} {s : S} {items : List ServiceAccount} {t : S} (page : AccountPage) (s1 : S)
        (rest : List ServiceAccount)
        → account_page net g c s ≡ (ok page, s1)
        → Fetched page.continuation s1 rest t
        → items ≡ page.items ++ rest
        → Fetched c s items t

  -- A search whose answer is `r`, and the accounts that it has seen.
  pub record Searched (title c : Text) (found : Option ServiceAccount) (s : S)
      (r : Option ServiceAccount) (t : S) : Type 0 where
    pub items : List ServiceAccount
    pub fetched : Fetched c s items t
    pub scanned : scan_items title found items ≡ ok r

  find_pages-Searched :
      (fuel : ℕ) (title c : Text) (seen : List Text) (found : Option ServiceAccount) (s : S)
      (r : Option ServiceAccount) (t : S)
      → find_pages net g fuel title c seen found s ≡ (ok r, t)
      → Searched title c found s r t
  unfolding find_pages
  find_pages-Searched zero title c seen found s r t h = absurd (ground arith)
  find_pages-Searched (suc fuel) title c seen found s r t h =
      elim (Result-cases (account_page net g c s).0) [
        | inl (page, got) ↦ elim (Result-cases (scan_items title found page.items)) [
          | inl (found', scanned) ↦ elim (Bool-cases (text_eq page.continuation [])) [
            | inl end ↦ record {
              items = page.items;
              fetched = last page (grind arith) ((text_eq_iff page.continuation []).0 end) refl;
              scanned = grind arith;
            }
            | inr more ↦
                let rest =
                  find_pages-Searched fuel title page.continuation (page.continuation ∷ seen) found'
                    (account_page net g c s).1 r t (grind arith) in
                record {
                  items = page.items ++ rest.items;
                  fetched =
                      next page (account_page net g c s).1 rest.items (grind arith) rest.fetched
                        refl;
                  scanned =
                      rw (scan_items-append title found page.items rest.items, scanned)
                        rest.scanned;
                }
          ]
          | inr (e, several) ↦ absurd (grind arith)
        ]
        | inr (e, failed) ↦ absurd (grind arith)
      ]

  -- A search of the IAM API that succeeds has read all pages up to the one without a continuation,
  -- and its answer is the one account among all that were served that has the title, or nil if none
  -- has it; two accounts with the title are an error instead, on whatever pages they stand.
  pub find_service_account-sole :
      (fuel : ℕ) (title : Text) (s : S) (r : Option ServiceAccount) (t : S)
      → find_service_account net g fuel title s ≡ (ok r, t)
      → (items : List ServiceAccount) × Fetched [] s items t
        × (sole (keep_if (is_titled title) items) ≡ ok r)
  unfolding find_service_account
  find_service_account-sole fuel title s r t h =
      let x = find_pages-Searched fuel title [] [] none s r t h in
      (x.items, x.fetched, rw (← scan_items-eq-sole title x.items) x.scanned)

-- The continuations of `tokens` that were not seen yet.
abbrev pub unseen : List Text → List Text → ℕ
unseen [] seen = 0
unseen (c ∷ cs) seen = if contains seen c then unseen cs seen else suc (unseen cs seen)

unseen-le : (cs seen : List Text) (x : Text) → unseen cs (x ∷ seen) ≤ unseen cs seen
unseen-le [] seen x = omega arith
unseen-le (c ∷ cs) seen x = ground (arith, unseen-le cs seen x)

unseen-lt :
    (cs seen : List Text) (x : Text)
    → contains cs x ≡ true
    → contains seen x ≡ false
    → unseen cs (x ∷ seen) < unseen cs seen
unseen-lt [] seen x h k = cc
unseen-lt (c ∷ cs) seen x h k =
    ground (arith, unseen-lt cs seen x, unseen-le cs seen x, text_eq_iff c x, text_eq_iff x c)

unseen-nil : (cs : List Text) → unseen cs [] ≡ length cs
unseen-nil [] = refl
unseen-nil (c ∷ cs) = ap suc (unseen-nil cs)

scan_items-error :
    (title : Text) (found : Option ServiceAccount) (items : List ServiceAccount) (e : Error)
    → scan_items title found items ≡ err e
    → e ≡ multiple_accounts
unfolding scan_items
scan_items-error title found [] e h = cc
scan_items-error title none (a ∷ items) e h =
    grind (arith, scan_items-error title none items e, scan_items-error title (some a) items e)
scan_items-error title (some b) (a ∷ items) e h =
    grind (arith, scan_items-error title (some b) items e)

module _ {S : Type 0} (net : Net S) (g : Client) (cs : List Text)
    (known : (c : Text) (s : S) (page : AccountPage)
      → (account_page net g c s).0 ≡ ok page
      → page.continuation ≢ []
      → contains cs page.continuation ≡ true)
    (answers : (c : Text) (s : S) → (account_page net g c s).0 ≢ err out_of_fuel) where
  find_pages_total :
      (fuel : ℕ) (title c : Text) (seen : List Text) (found : Option ServiceAccount) (s : S)
      → unseen cs seen < fuel
      → (find_pages net g fuel title c seen found s).0 ≢ err out_of_fuel
  unfolding find_pages
  find_pages_total zero title c seen found s small h = absurd (omega arith)
  find_pages_total (suc fuel) title c seen found s small h =
      elim (Result-cases (account_page net g c s).0) [
        | inl (page, got) ↦ elim (Result-cases (scan_items title found page.items)) [
          | inl (found', scanned) ↦ grind (
            arith,
            known c s page got,
            text_eq_iff page.continuation [],
            unseen-lt cs seen page.continuation,
            find_pages_total fuel title page.continuation (page.continuation ∷ seen) found'
                (account_page net g c s).1,
          )
          | inr (e, several) ↦ grind (arith, scan_items-error title found page.items e several)
        ]
        | inr (e, failed) ↦ answers c s (grind arith)
      ]

  -- If the continuation tokens that Grafana serves come from a finite list, then the search ends:
  -- fuel beyond the length of that list is enough, since a token that comes back ends the search.
  pub find_service_account_total :
      (fuel : ℕ) (title : Text) (s : S)
      → length cs < fuel
      → (find_service_account net g fuel title s).0 ≢ err out_of_fuel
  unfolding find_service_account
  find_service_account_total fuel title s small =
      find_pages_total fuel title [] [] none s (rw unseen-nil small)
