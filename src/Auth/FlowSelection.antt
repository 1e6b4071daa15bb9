-- ===== src/Auth/FlowSelection.antt =====
-- sdk_client_25/flow_selection.py: the choice of an interactive flow from the server's capabilities.
use keyhole_sdk.Base.{
  String, ◌≡◌, refl, Bool, true, false, not, ◌&&◌, Option, none, some, List, [], ◌∷◌, arith, str_eq,
  eq_iff, elem, filter, is_empty, if◌then◌else◌,
}
use keyhole_sdk.Base.Text.{strip}

pub data AuthFlowName : Type 0 where
  device_authorization authorization_code_pkce : AuthFlowName

abbrev pub flow_value : AuthFlowName → String
flow_value device_authorization = "device_authorization"
flow_value authorization_code_pkce = "authorization_code_pkce"

abbrev pub forbidden_flows : List String
forbidden_flows =
    "custom_magic_link_queue" ∷ "magic_link_queue" ∷ "mcp_magic_link" ∷ "password" ∷ "ropc" ∷ []

-- What the choice reads of the capabilities: `auth.supported_flows` and
-- `auth.preferred_interactive_flow`, with none for a missing value.
pub record AuthPosture : Type 0 where
  pub supported_flows : Option (List String)
  pub preferred_interactive_flow : Option String

pub record AuthFlowDecision : Type 0 where
  pub flow : AuthFlowName
  pub reason : String
  pub considered : List String
  pub preferred : String

-- none is the UnsupportedAuthFlowError.
pub data Selection : Type 0 where
  selected : AuthFlowDecision → Selection
  unsupported : List String → Selection

abbrev pub listed : Option (List String) → List String
listed none = []
listed (some flows) = flows

abbrev wish : Option String → String
wish none = ""
wish (some s) = s

unfoldable pub safe_flows : List String → List String
safe_flows advertised = filter (λ f. not (elem f forbidden_flows)) advertised

unfoldable pub select_auth_flow : AuthPosture → Bool → Selection
select_auth_flow auth allow_pkce_when_unadvertised =
    let advertised = listed auth.supported_flows in
    let preferred = strip (wish auth.preferred_interactive_flow) in
    let safe = safe_flows advertised in
    let decide = λ (f : AuthFlowName) (why : String).
      selected
        (record { flow = f; reason = why; considered = advertised; preferred = preferred }) in
    if str_eq preferred "device_authorization" && elem "device_authorization" safe
    then decide device_authorization "server_preferred_device_authorization"
    else if elem "device_authorization" safe
    then decide device_authorization "device_authorization_advertised"
    else if elem "authorization_code_pkce" safe
    then decide authorization_code_pkce "pkce_fallback_advertised"
    else if is_empty advertised && allow_pkce_when_unadvertised
    then decide authorization_code_pkce "pkce_fallback_capabilities_unavailable"
    else unsupported advertised

-- Which flow the choice makes, if any.
abbrev pub chosen : Selection → Option AuthFlowName
chosen (selected d) = some d.flow
chosen (unsupported fs) = none

elem-filter :
    (p : String → Bool) (f : String) (fs : List String)
    → p f ≡ true
    → elem f (filter p fs) ≡ elem f fs
elem-filter p f [] h = refl
elem-filter p f (g ∷ fs) h = ground (arith, elem-filter p f fs h, eq_iff f g)

elem-safe_flows :
    (f : String) (fs : List String)
    → elem f forbidden_flows ≡ false
    → elem f (safe_flows fs) ≡ elem f fs
unfolding safe_flows
elem-safe_flows f fs h = elem-filter (λ g. not (elem g forbidden_flows)) f fs (rw h refl)

-- The choice by the advertised flows alone: device authorization wherever the server lists it,
-- else the code flow with PKCE where it is listed, or where nothing is listed and the caller allows
-- that; else none. The server's preference changes no choice.
chosen-select_auth_flow :
    (auth : AuthPosture) (allow : Bool)
    → chosen (select_auth_flow auth allow) ≡ (
        if elem "device_authorization" (listed auth.supported_flows)
        then some device_authorization
        else if elem "authorization_code_pkce" (listed auth.supported_flows)
        then some authorization_code_pkce
        else if is_empty (listed auth.supported_flows) && allow
        then some authorization_code_pkce
        else none)
unfolding select_auth_flow
chosen-select_auth_flow auth allow = ground (
  arith,
  elem-safe_flows "device_authorization" (listed auth.supported_flows) refl,
  elem-safe_flows "authorization_code_pkce" (listed auth.supported_flows) refl,
)
