-- ===== src/Snippet/Formats.antt =====
-- formats.go: the configuration of each client, with the token's place in it.
use grafana_mcp_setup.Prelude.{
  Bool, true, false, List, [], ◌∷◌, ◌++◌, Text, codes, text_eq, map, if◌then◌else◌,
}
use grafana_mcp_setup.Go.Json.{Value, json_string, string_value, array_value, object_value}
use grafana_mcp_setup.Snippet.Highlight.{token_sentinel, highlight_json, highlight_toml}

abbrev pub mcp_version : Text
mcp_version = codes "1.4.1"

-- type mcpVariant, its icon apart.
pub record McpVariant : Type 0 where
  pub id : Text
  pub title : Text
  pub note : Text
  pub body : Text
  pub env_body : Text

-- type mcpFormat, its accent and its icon apart.
pub record McpFormat : Type 0 where
  pub id : Text
  pub title : Text
  pub file : Text
  pub note : Text
  pub body : Text
  pub variants : List McpVariant

abbrev pub binary : Text
binary = codes "binary"

abbrev pub env_mode : Text
env_mode = codes "env"

-- The modes of the variadic parameter: the first one, and whether the second is "env".
abbrev pub first_mode : List Text → Text
first_mode [] = binary
first_mode (mode ∷ modes) = mode

abbrev pub is_env : List Text → Bool
is_env (mode ∷ second ∷ modes) = text_eq second env_mode
is_env _ = false

abbrev pub plain_args : List Text
plain_args = codes "-t" ∷ codes "stdio" ∷ codes "--disable-write" ∷ []

abbrev pub launch_mode : Text → Text × List Text
launch_mode mode =
    if text_eq mode (codes "uvx")
    then (codes "uvx", (codes "mcp-grafana==" ++ mcp_version) ∷ plain_args)
    else if text_eq mode (codes "docker")
    then (
      codes "docker",
      codes "run"
          ∷ codes "--rm"
          ∷ codes "-i"
          ∷ codes "-e"
          ∷ codes "GRAFANA_URL"
          ∷ codes "-e"
          ∷ codes "GRAFANA_SERVICE_ACCOUNT_TOKEN"
          ∷ (codes "grafana/mcp-grafana:" ++ mcp_version)
          ∷ plain_args,
    )
    else (codes "mcp-grafana", plain_args)

abbrev pub in_direnv : Text × List Text → Text × List Text
in_direnv (command, args) =
    (codes "direnv", codes "exec" ∷ codes "/Users/example/work/project" ∷ command ∷ args)

-- `launchCommand`
unfoldable pub launch_command : List Text → Text × List Text
unfolding text_eq
launch_command modes =
    if is_env modes
    then in_direnv (launch_mode (first_mode modes))
    else launch_mode (first_mode modes)

-- `configToken`
unfoldable pub config_token : List Text → Text
unfolding text_eq
config_token modes = if is_env modes then [] else token_sentinel

-- A field that is left out where it is empty.
abbrev pub unless_empty : Text → Text → List (Text × Value)
unless_empty key v = if text_eq v [] then [] else (key, string_value v) ∷ []

-- type grafanaEnvJSON, type stdioServerJSON and type zedCommandJSON, as they are marshalled
abbrev pub grafana_env_json : Text → Text → Value
grafana_env_json url token = object_value (
    (codes "GRAFANA_URL", string_value url)
    ∷ unless_empty (codes "GRAFANA_SERVICE_ACCOUNT_TOKEN") token)

abbrev pub stdio_server_json : Text → Text × List Text → Value → Value
stdio_server_json kind (command, args) env = object_value (
    unless_empty (codes "type") kind
    ++ (codes "command", string_value command)
      ∷ (codes "args", array_value args)
      ∷ (codes "env", env)
      ∷ [])

abbrev pub zed_command_json : Text × List Text → Value → Value
zed_command_json (path, args) env =
    object_value (
      (codes "path", string_value path)
      ∷ (codes "args", array_value args)
      ∷ (codes "env", env)
      ∷ [])

unfoldable pub mcp_servers_json : Text → Text → Bool → List Text → Text
unfolding json_string array_value object_value launch_command config_token
mcp_servers_json key public_url with_type modes =
    let server =
      stdio_server_json (if with_type then codes "stdio" else []) (launch_command modes)
        (grafana_env_json public_url (config_token modes)) in
    let servers = object_value ((codes "grafana", server) ∷ []) in
    object_value
      (((if text_eq key (codes "servers") then codes "servers" else codes "mcpServers"), servers)
        ∷ [])
      0

unfoldable pub zed_json : Text → List Text → Text
unfolding json_string array_value object_value launch_command config_token
zed_json public_url modes =
    let command =
      zed_command_json (launch_command modes) (grafana_env_json public_url (config_token modes)) in
    let grafana =
      object_value
        ((codes "source", string_value (codes "custom")) ∷ (codes "command", command) ∷ []) in
    object_value ((codes "context_servers", object_value ((codes "grafana", grafana) ∷ [])) ∷ []) 0

-- `tomlStringArray`, with strings.Join.
unfoldable pub comma_separated : List Text → Text
comma_separated [] = []
comma_separated (x ∷ []) = x
comma_separated (x ∷ y ∷ ys) = x ++ (codes ", " ++ comma_separated (y ∷ ys))

abbrev pub toml_string_array : List Text → Text
toml_string_array values = codes "[" ++ (comma_separated (map json_string values) ++ codes "]")

abbrev pub token_line : Text → Text
token_line token =
    if text_eq token [] then [] else codes "\nGRAFANA_SERVICE_ACCOUNT_TOKEN = " ++ json_string token

unfoldable pub codex_toml : Text → List Text → Text
unfolding json_string comma_separated launch_command config_token
codex_toml public_url modes =
    let (command, args) = launch_command modes in
    codes "[mcp_servers.grafana]\ncommand = "
    ++ (json_string command
        ++ (codes "\nargs = "
            ++ (toml_string_array args
                ++ (codes "\n\n[mcp_servers.grafana.env]\nGRAFANA_URL = "
                    ++ (json_string public_url ++ token_line (config_token modes))))))

-- How a client's configuration is painted, from the modes: by its identifier.
unfoldable pub painted_for : Text → Text → Text → List Text → Text
unfolding codex_toml zed_json mcp_servers_json highlight_json highlight_toml text_eq
painted_for id public_url mask modes =
    if text_eq id (codes "codex")
    then highlight_toml (codex_toml public_url modes) mask
    else if text_eq id (codes "zed")
    then highlight_json (zed_json public_url modes) mask
    else if text_eq id (codes "vscode")
    then highlight_json (mcp_servers_json (codes "servers") public_url true modes) mask
    else highlight_json (mcp_servers_json (codes "mcpServers") public_url false modes) mask

abbrev pub variant : Text → Text → Text → Text → Text → Text → McpVariant
variant id public_url mask mode title note = record {
  id = mode;
  title = title;
  note = note;
  body = painted_for id public_url mask (mode ∷ []);
  env_body = painted_for id public_url mask (mode ∷ env_mode ∷ []);
}

abbrev pub variants_of : Text → Text → Text → List McpVariant
variants_of id public_url mask =
    variant id public_url mask binary (codes "Installed binary")
      (codes "Install mcp-grafana " ++ (mcp_version ++ codes " and make it available in PATH."))
    ∷ variant id public_url mask (codes "uvx") (codes "uvx")
        (codes "Requires uv. Downloads mcp-grafana " ++ (mcp_version ++ codes "."))
    ∷ variant id public_url mask (codes "docker") (codes "Docker")
        (codes "Requires Docker. The container must be able to reach the Grafana URL.")
    ∷ []

-- One format; the body has no mode.
abbrev pub format : Text → Text → Text → Text → Text → Text → McpFormat
format public_url mask id title file note = record {
  id = id;
  title = title;
  file = file;
  note = note;
  body = painted_for id public_url mask [];
  variants = variants_of id public_url mask;
}

-- The bytes of "→" in UTF-8.
abbrev arrow : Text
arrow = 226 ∷ 134 ∷ 146 ∷ []

unfoldable pub formats : Text → Text → List McpFormat
unfolding painted_for
formats public_url mask =
    format public_url mask (codes "claude-code") (codes "Claude Code") (codes ".mcp.json")
      (codes "Project scope. <code>~/.claude.json</code> does the same for every project.")
    ∷ format public_url mask (codes "claude-desktop") (codes "Claude Desktop")
        (codes "claude_desktop_config.json")
        (codes "Settings " ++ (arrow ++ (codes " Developer " ++ (arrow ++ codes " Edit Config."))))
    ∷ format public_url mask (codes "codex") (codes "Codex") (codes "~/.codex/config.toml") []
    ∷ format public_url mask (codes "cursor") (codes "Cursor") (codes ".cursor/mcp.json")
        (codes "<code>~/.cursor/mcp.json</code> for every project instead.")
    ∷ format public_url mask (codes "vscode") (codes "VS Code") (codes ".vscode/mcp.json")
        (codes "Copilot reads <code>servers</code>, not <code>mcpServers</code>.")
    ∷ format public_url mask (codes "zed") (codes "Zed") (codes "settings.json")
        (codes "Zed nests the command in an object of its own.")
    ∷ []
