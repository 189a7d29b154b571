-- ===== src/Tests/Tools.antt =====
-- Tools of tool_policy.py, one for research and one that acts.
use human_cos_fft1_trial.Prelude.{
  nat_eq, string_eq, bool_eq, option_eq, list_eq, pair_eq, [], false, refl, returned, ◌↔◌, ◌∷◌, ◌≡◌,
}
use human_cos_fft1_trial.Prelude.Texts.{is_blank}
use human_cos_fft1_trial.Models.Profile.{task_eq}
use human_cos_fft1_trial.Runtime.ToolPolicy.{
  class_eq, Capabilities, ToolCapability, authorize_context, decision, read_only_research,
  reality_execution, tool_policy,
}
use human_cos_fft1_trial.Runtime.ToolPolicy.Authority.{Granted, authorize_context_iff}

abbrev pub search_tool : ToolCapability
search_tool = record { name = "search"; capability_class = read_only_research; scopes = "web" ∷ [] }

abbrev trade_tool : ToolCapability
trade_tool = record { name = "trade"; capability_class = reality_execution; scopes = "market" ∷ [] }

abbrev pub catalog : Capabilities
catalog = ("search", search_tool) ∷ ("trade", trade_tool) ∷ []

catalog_built : tool_policy (search_tool ∷ trade_tool ∷ []) ≡ returned catalog
unfolding tool_policy is_blank
catalog_built = refl

trade_denied : (decision catalog "trade" ("search" ∷ "trade" ∷ []) ("market" ∷ [])).allowed ≡ false
unfolding decision
trade_denied = refl

authorize_context_iff_example :
    (authorize_context catalog ("search" ∷ []) ("market" ∷ []) ≡ returned (search_tool ∷ []))
    ↔ Granted catalog ("search" ∷ []) ("market" ∷ []) ("search" ∷ []) (search_tool ∷ [])
authorize_context_iff_example =
    authorize_context_iff catalog ("search" ∷ []) ("market" ∷ []) (search_tool ∷ [])
