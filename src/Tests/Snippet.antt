-- ===== src/Tests/Snippet.antt =====
-- A line of a configuration with the place of the token, as JSON and as TOML.
use grafana_mcp_setup.Prelude.{Text, codes}
use grafana_mcp_setup.Snippet.Highlight.{highlight_json, highlight_toml}
use grafana_mcp_setup.Snippet.Visible.{visible}
use grafana_mcp_setup.Snippet.Shown.{IsSeen}
use grafana_mcp_setup.Snippet.JsonShown.{HasNoQuote, IsJsonString}
use grafana_mcp_setup.Snippet.Lines.{IsAny, IsAnywhere, visible-IsSeen}

abbrev source : Text
source = codes "a = [\"<b>\", \"__GRAFANA_MCP_TOKEN__\", 12]"

abbrev mask : Text
mask = codes "***"

visible-IsSeen_example :
    IsSeen HasNoQuote IsJsonString mask source (visible (highlight_json source mask))
    × IsSeen IsAny IsAnywhere mask source (visible (highlight_toml source mask))
visible-IsSeen_example = visible-IsSeen source mask
