-- ===== src/Tools/Registry.antt =====
-- src/opsassist/tools/registry.py: the tools, their arguments and their permissions. The prose of the
-- skill cards, which only goes into the prompt, is left out.
use novax_ai_assignment.Base.{
  ℕ, String, Bool, true, false, Option, none, some, List, [], ◌∷◌, ◌==◌, if◌then◌else◌,
}

-- The keys of `TOOLS`, which are those of `HANDLERS`.
pub data Tool : Type 0 where
  search_internal_docs get_server_status create_support_ticket get_support_ticket
        create_vpn_profile :
      Tool

unfoldable pub tool_name : Tool → String
tool_name Tool.search_internal_docs = "search_internal_docs"
tool_name Tool.get_server_status = "get_server_status"
tool_name Tool.create_support_ticket = "create_support_ticket"
tool_name Tool.get_support_ticket = "get_support_ticket"
tool_name Tool.create_vpn_profile = "create_vpn_profile"

-- `tool in TOOLS`, `TOOLS.get(tool)`
unfoldable pub tool_of : String → Option Tool
tool_of name =
    if name == "search_internal_docs"
    then some Tool.search_internal_docs
    else if name == "get_server_status"
    then some Tool.get_server_status
    else if name == "create_support_ticket"
    then some Tool.create_support_ticket
    else if name == "get_support_ticket"
    then some Tool.get_support_ticket
    else if name == "create_vpn_profile"
    then some Tool.create_vpn_profile
    else none

-- The arguments of each tool, as its model validates them.
pub data ToolArgs : Type 0 where
  search_args : String → Option String → ToolArgs
  server_args : String → ToolArgs
  ticket_args : String → String → String → ToolArgs
  ticket_id_args : String → ToolArgs
  vpn_args : Option String → Option String → ℕ → ToolArgs

-- `trigger` is a pattern and an argument's name; `none` of a permission is Python's None.
pub record ToolSpec : Type 0 where
  pub name : String
  pub requires_permission : Option String
  pub trigger : Option (String × String)
  pub names_record : List String
  pub sensitive : Bool
  pub approve_permission : Option String

-- `ToolSpec.effect`
pub data Effect : Type 0 where
  sensitive_action reads_data creates_record : Effect

-- `self.name.startswith(("get_", "search_"))`, of the names in `TOOLS`
name_reads : Tool → Bool
name_reads Tool.search_internal_docs = true
name_reads Tool.get_server_status = true
name_reads Tool.create_support_ticket = false
name_reads Tool.get_support_ticket = true
name_reads Tool.create_vpn_profile = false

unfoldable pub spec_of : Tool → ToolSpec
spec_of Tool.search_internal_docs = record {
  name = "search_internal_docs";
  requires_permission = none;
  trigger = none;
  names_record = [];
  sensitive = false;
  approve_permission = none;
}
spec_of Tool.get_server_status = record {
  name = "get_server_status";
  requires_permission = some "server:read";
  trigger = none;
  names_record = [];
  sensitive = false;
  approve_permission = none;
}
spec_of Tool.create_support_ticket = record {
  name = "create_support_ticket";
  requires_permission = some "ticket:create";
  trigger = none;
  names_record = "ticket" ∷ [];
  sensitive = false;
  approve_permission = none;
}
spec_of Tool.get_support_ticket = record {
  name = "get_support_ticket";
  requires_permission = some "ticket:create";
  trigger = some ("INC-[0-9]{1,10}", "ticket_id");
  names_record = [];
  sensitive = false;
  approve_permission = none;
}
spec_of Tool.create_vpn_profile = record {
  name = "create_vpn_profile";
  requires_permission = some "vpn:create";
  trigger = none;
  names_record = "vpn" ∷ "openvpn" ∷ [];
  sensitive = true;
  approve_permission = some "vpn:approve";
}

unfoldable pub effect : Tool → Effect
unfolding spec_of name_reads
effect t =
    if (spec_of t).sensitive
    then Effect.sensitive_action
    else if name_reads t
    then Effect.reads_data
    else Effect.creates_record

abbrev pub reads : Effect → Bool
reads Effect.reads_data = true
reads _ = false
