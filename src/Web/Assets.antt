-- ===== src/Web/Assets.antt =====
-- assets.go: the stylesheet and the script, which the build embeds.
use grafana_mcp_setup.Prelude.{
  ℕ, ◌&&◌, Option, none, some, List, [], ◌∷◌, ◌++◌, Text, codes, text_eq, take, any, not, ◌==◌,
  if◌then◌else◌,
}
use grafana_mcp_setup.Go.Substrings.{has_prefix}
use grafana_mcp_setup.Rotation.Account.{hex}
use grafana_mcp_setup.Web.Response.{Response, http_error}

-- type asset
pub record Asset : Type 0 where
  pub name : Text
  pub content_type : Text
  pub body : Text

-- path.Ext: from the last "." behind the last "/"; and the name in front of it.
dot_in_front : ℕ → Text → Text
dot_in_front c s = if c == b'.' && not (any (λ d. d == b'/') s) then b'.' ∷ s else []

last_dot : ℕ → Text → Text → Text
unfolding dot_in_front
last_dot c s [] = dot_in_front c s
last_dot c s (d ∷ later) = d ∷ later

unfoldable pub ext : Text → Text
unfolding last_dot
ext [] = []
ext (c ∷ s) = last_dot c s (ext s)

unfoldable pub without_suffix : Text → Text → Text
unfolding text_eq
without_suffix [] suffix = []
without_suffix (c ∷ s) suffix =
    let rest = without_suffix s suffix in if text_eq (c ∷ s) suffix then [] else c ∷ rest

-- strings.TrimSuffix(source, path.Ext(source))
abbrev pub stem : Text → Text
stem source = if text_eq (ext source) [] then source else without_suffix source (ext source)

module _ (sha256 : Text → Text) where
  -- One round of `loadAssets`: the name of a file below assets/, its kind and its content.
  unfoldable pub load_asset : Text → Text → Text → Asset
  unfolding hex ext without_suffix
  load_asset file kind body = record {
    name = stem file ++ (codes "." ++ (take 12 (hex (sha256 body)) ++ ext file));
    content_type = kind;
    body = body;
  }

  unfoldable pub load_assets : Text → Text → List Asset
  unfolding load_asset
  load_assets css js =
      load_asset (codes "app.css") (codes "text/css; charset=utf-8") css
      ∷ load_asset (codes "app.js") (codes "text/javascript; charset=utf-8") js
      ∷ []

-- `assetName`, over the assets in the order in which Go ranges over them.
unfoldable pub asset_name : List Asset → Text → Text
unfolding ext without_suffix has_prefix text_eq
asset_name [] source = source
asset_name (a ∷ assets) source =
    let rest = asset_name assets source in
    if has_prefix a.name (stem source ++ codes ".") && text_eq (ext a.name) (ext source)
    then a.name
    else rest

unfoldable pub asset_url : List Asset → Text → Text → Text
unfolding asset_name
asset_url assets base_path source = base_path ++ (codes "/assets/" ++ asset_name assets source)

unfoldable pub find_asset : List Asset → Text → Option Asset
unfolding text_eq
find_asset [] name = none
find_asset (a ∷ assets) name =
    let rest = find_asset assets name in if text_eq a.name name then some a else rest

abbrev pub asset_response : Option Asset → Response
asset_response none = http_error 404 (codes "404 page not found")
asset_response (some a) = record {
  status = 200;
  location = [];
  cookies = [];
  headers =
      (codes "Content-Type", a.content_type)
      ∷ (codes "Cache-Control", codes "public, max-age=31536000, immutable")
      ∷ (codes "X-Content-Type-Options", codes "nosniff")
      ∷ [];
  body = a.body;
}

-- `handleAsset`, of the name in the path.
unfoldable pub handle_asset : List Asset → Text → Response
unfolding find_asset
handle_asset assets name = asset_response (find_asset assets name)
