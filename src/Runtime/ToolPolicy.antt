-- ===== src/Runtime/ToolPolicy.antt =====
-- runtime/src/human_cos/runtime/tool_policy.py: the catalog of tool capabilities and the decision on a
-- requested tool, which fails closed.
pub mod Authority
pub mod Catalog
use human_cos_fft1_trial.Prelude.{
  nat_eq, string_eq, bool_eq, option_eq, list_eq, pair_eq, Bool, Eq, List, Outcome, String, [],
  contains, false, if◌then◌else◌, insert, is_empty, is_some, keep, lookup, none, not, raise_if,
  raised, refl, returned, some, suc, through, true, zero, ℕ, ◌!=◌, ◌>>=◌, ◌>>◌, ◌∷◌, ◌≡◌,
}
use human_cos_fft1_trial.Prelude.Texts.{format, is_blank, join, sorted_set}

pub data ToolCapabilityClass : Type 0 where
  read_only_research reality_execution : ToolCapabilityClass

abbrev pub class_place : ToolCapabilityClass → ℕ
class_place read_only_research = 0
class_place reality_execution = 1

abbrev pub class_member : ℕ → ToolCapabilityClass
class_member zero = read_only_research
class_member (suc n) = reality_execution

pub class_member_place : (c : ToolCapabilityClass) → class_member (class_place c) ≡ c
class_member_place read_only_research = refl
class_member_place reality_execution = refl

instance abbrev pub class_eq : Eq ToolCapabilityClass
class_eq = through class_place class_member class_member_place

pub record ToolCapability : Type 0 where
  pub name : String
  pub capability_class : ToolCapabilityClass
  pub scopes : List String

pub record ToolDecision : Type 0 where
  pub allowed : Bool
  pub reason : String

pub data ToolPolicyError : Type 0 where
  value_error : String → ToolPolicyError
  tool_policy_error : String → ToolPolicyError

abbrev pub Capabilities : Type 0
Capabilities = List (String × ToolCapability)

-- The loop of `ToolPolicy.__init__`, over the dictionary that it fills.
unfoldable pub register : Capabilities → List ToolCapability → Outcome ToolPolicyError Capabilities
register by_name [] = returned by_name
register by_name (capability ∷ rest) = do
  raise_if (is_blank capability.name) (value_error "tool capability name must be non-empty")
  raise_if (is_some (lookup capability.name by_name))
      (value_error (format ("duplicate tool capability: " ∷ capability.name ∷ [])))
  register (insert capability.name capability by_name) rest

unfoldable pub tool_policy : List ToolCapability → Outcome ToolPolicyError Capabilities
unfolding register
tool_policy capabilities = register [] capabilities

-- `sorted(set(scopes).intersection(forbidden_scopes))`
unfoldable pub blocked_scopes : List String → List String → List String
unfolding sorted_set
blocked_scopes scopes forbidden_scopes =
    sorted_set (keep (λ scope. contains scope forbidden_scopes) scopes)

unfoldable pub decision : Capabilities → String → List String → List String → ToolDecision
unfolding blocked_scopes
decision policy tool_name allowed_tools forbidden_scopes = elim (lookup tool_name policy) [
  | none ↦ record { allowed = false; reason = "unknown capability class/tool; fail closed" }
  | some capability ↦
      if not (contains tool_name allowed_tools)
      then record {
        allowed = false;
        reason = "tool is not listed in immutable Context permissions";
      }
      else if capability.capability_class != read_only_research
      then record {
        allowed = false;
        reason = "reality-execution capability is globally denied in V0.1";
      }
      else let blocked = blocked_scopes capability.scopes forbidden_scopes in
        if not (is_empty blocked)
        then record {
          allowed = false;
          reason = format ("tool intersects forbidden scopes: " ∷ join ", " blocked ∷ []);
        }
        else record { allowed = true; reason = "explicitly listed read-only research capability" }
]

-- `self._capabilities[tool_name]` after the decision; a missing key cannot be allowed.
unfoldable pub assert_allowed :
    Capabilities → String → List String → List String → Outcome ToolPolicyError ToolCapability
unfolding decision
assert_allowed policy tool_name allowed_tools forbidden_scopes = do
  let verdict = decision policy tool_name allowed_tools forbidden_scopes
  raise_if (not verdict.allowed)
      (tool_policy_error (format (tool_name ∷ ": " ∷ verdict.reason ∷ [])))
  elim (lookup tool_name policy) [
    | some capability ↦ returned capability
    | none ↦ raised (value_error tool_name)
  ]

-- The comprehension of `authorize_context`: the tools in turn, up to the first refusal.
unfoldable pub authorize_each :
    Capabilities
    → List String
    → List String
    → List String
    → Outcome ToolPolicyError (List ToolCapability)
unfolding assert_allowed
authorize_each policy allowed_tools forbidden_scopes [] = returned []
authorize_each policy allowed_tools forbidden_scopes (tool_name ∷ rest) = do
  capability ← assert_allowed policy tool_name allowed_tools forbidden_scopes
  others ← authorize_each policy allowed_tools forbidden_scopes rest
  returned (capability ∷ others)

unfoldable pub authorize_context :
    Capabilities → List String → List String → Outcome ToolPolicyError (List ToolCapability)
unfolding authorize_each
authorize_context policy allowed_tools forbidden_scopes =
    authorize_each policy allowed_tools forbidden_scopes allowed_tools
