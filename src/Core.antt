-- ===== src/Core.antt =====
-- The data model of the crate ats-core: crates/ats-core/src/{state,event,activity,session}.rs.
-- An enum is a data type with the source's variants, a struct is a record.
pub mod Label
pub mod Basename
pub mod Equality
use agent_term_status.Prelude.{ℕ, String, Option}
use agent_term_status.Prelude.Time.{DateTime}

pub data AgentState : Type 0 where
  idle working attention risk result error unknown : AgentState

pub data EventType : Type 0 where
  session_started session_stopped session_failed session_heartbeat : EventType
  agent_started agent_working agent_waiting agent_completed agent_failed : EventType
  tool_started tool_completed tool_failed : EventType
  user_input_required user_approval_required user_input_received : EventType
  provider_disconnected provider_schema_error renderer_failed session_timeout : EventType

pub data ActivityCategory : Type 0 where
  thinking reading searching editing shell testing : ActivityCategory
  network version_control deployment unknown : ActivityCategory

pub data RiskLevel : Type 0 where
  low medium high critical unknown : RiskLevel

-- The text of a label is private in the source: only the constructors of `Label` build one.
pub record ActivityLabel : Type 0 where
  pub text : String

pub record Activity : Type 0 where
  pub category : ActivityCategory
  pub label : Option ActivityLabel
  pub tool_name : Option String
  pub risk : Option RiskLevel

pub record TerminalContext : Type 0 where
  pub tty : Option String
  pub term_program : Option String
  pub tmux_pane : Option String

pub record SessionIdentity : Type 0 where
  pub id : String
  pub parent_id : Option String
  pub workspace : Option String
  pub terminal : Option TerminalContext

-- A UUID is a 128-bit number.
abbrev pub Uuid : Type 0
Uuid = ℕ

-- `M` is the JSON library's type of objects.
pub record NormalizedEvent (M : Type 0) : Type 0 where
  pub schema_version : String
  pub event_id : Uuid
  pub timestamp : DateTime
  pub provider : String
  pub provider_version : Option String
  pub event_type : EventType
  pub session : SessionIdentity
  pub activity : Option Activity
  pub metadata : M

abbrev pub schema_version_1 : String
schema_version_1 = "1.0"
