-- ===== src/Renderer.antt =====
-- crates/ats-renderer/src/lib.rs: the trait of renderers and its types. `W` is the state of the
-- world that a renderer draws on, so an `async fn` is a function that returns the world after it.
use agent_term_status.Prelude.{String, Bool, false, Option, Result}
use agent_term_status.Core.{AgentState, ActivityLabel, TerminalContext}

pub record RendererCapabilities : Type 0 where
  pub background : Bool
  pub tab_title : Bool
  pub tab_color : Bool
  pub badge : Bool
  pub cursor_color : Bool
  pub pane_border : Bool
  pub notification : Bool
  pub flash : Bool
  pub reset_reliable : Bool

-- `RendererCapabilities::default()`
abbrev pub no_capabilities : RendererCapabilities
no_capabilities = record {
  background = false;
  tab_title = false;
  tab_color = false;
  badge = false;
  cursor_color = false;
  pane_border = false;
  notification = false;
  flash = false;
  reset_reliable = false;
}

pub record RenderTarget : Type 0 where
  pub session_id : String
  pub terminal : TerminalContext

pub record StateView : Type 0 where
  pub state : AgentState
  pub label : Option ActivityLabel
  pub target : RenderTarget

pub data RendererError : Type 0 where
  unsupported failed : String → RendererError

pub data HealthStatus : Type 0 where
  healthy : HealthStatus
  degraded unavailable : String → HealthStatus

pub record Renderer (W : Type 0) : Type 0 where
  pub detect : TerminalContext → W → W × Result RendererCapabilities RendererError
  pub render : StateView → W → W × Result (Unit {0}) RendererError
  pub reset : RenderTarget → W → W × Result (Unit {0}) RendererError
  pub health_check : W → W × HealthStatus
