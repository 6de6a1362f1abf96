-- ===== src/Rendering/Engine.antt =====
-- crates/ats-rendering/src/lib.rs, `RenderingEngine`. A call of `Utc::now()` is an argument.
use agent_term_status.Prelude.{
  ℕ, String, Bool, true, false, ◌&&◌, Option, some, none, List, [], ◌∷◌, ◌++◌, map, Result, ok, err,
  if◌then◌else◌, String_eq, str_eq, eq_iff, PartialEq, arith, ◌↔◌, ◌≡◌, length,
}
use agent_term_status.Prelude.Int.{ℤ, pos, ltb_ℤ}
use agent_term_status.Prelude.Time.{DateTime, signed_duration_since, num_milliseconds}
use agent_term_status.Prelude.HashMap.{HashMap, get, insert}
use agent_term_status.Core.{AgentState, TerminalContext}
use agent_term_status.Core.Equality.{state_eq, state_eq_iff}
use agent_term_status.Config.Theme
use agent_term_status.Config.Theme.{Theme, ThemeEntry}
use agent_term_status.Renderer.{
  Renderer, RendererCapabilities, RendererError, HealthStatus, RenderTarget, StateView,
}

pub record RateLimitKey : Type 0 where
  pub session_id : String
  pub state : AgentState

abbrev pub key_eq : RateLimitKey → RateLimitKey → Bool
key_eq a b = str_eq a.session_id b.session_id && state_eq a.state b.state

pub key_eq_iff : (a b : RateLimitKey) → (key_eq a b ≡ true) ↔ (a ≡ b)
key_eq_iff a b = ground (arith, eq_iff a.session_id b.session_id, state_eq_iff a.state b.state)

instance abbrev pub RateLimitKey_eq : PartialEq RateLimitKey
RateLimitKey_eq = record { test = key_eq; test_iff = key_eq_iff }

pub record EngineConfig : Type 0 where
  pub render_cooldown_ms : ℤ

abbrev pub default_config : EngineConfig
default_config = record { render_cooldown_ms = pos 250 }

pub record ResolvedView : Type 0 where
  pub state : AgentState
  pub color : Option String
  pub label : String
  pub symbol : String
  pub notification : Bool

pub record RenderResult : Type 0 where
  pub renderer_name : String
  pub error : Option RendererError

pub record RenderingEngine (W : Type 0) : Type 0 where
  pub renderers : List (String × Renderer W)
  pub theme : Option Theme
  pub config : EngineConfig
  pub last_render : HashMap RateLimitKey DateTime

module _ {W : Type 0} where
  unfoldable pub new : Option Theme → EngineConfig → RenderingEngine W
  new theme config = record { renderers = []; theme = theme; config = config; last_render = [] }

  unfoldable pub add_renderer : RenderingEngine W → String → Renderer W → RenderingEngine W
  add_renderer eng name renderer = record eng { renderers = eng.renderers ++ (name, renderer) ∷ [] }

abbrev pub resolve_entry : Option Theme → AgentState → Option ThemeEntry
resolve_entry none state = none
resolve_entry (some theme) state = Theme.resolve theme state

abbrev view_of : AgentState → Option ThemeEntry → ResolvedView
view_of s none = record { state = s; color = none; label = ""; symbol = ""; notification = false }
view_of s (some e) = record {
  state = s;
  color = e.color;
  label = e.label;
  symbol = e.symbol;
  notification = e.notification;
}

abbrev pub outcome : String → Result (Unit {0}) RendererError → RenderResult
outcome name (ok _) = record { renderer_name = name; error = none }
outcome name (err e) = record { renderer_name = name; error = some e }

module _ {W : Type 0} where
  unfoldable pub resolve_view : RenderingEngine W → AgentState → ResolvedView
  resolve_view eng state = view_of state (resolve_entry eng.theme state)

  abbrev pub too_soon : RenderingEngine W → DateTime → Option DateTime → Bool
  too_soon eng now none = false
  too_soon eng now (some prev) =
      ltb_ℤ (num_milliseconds (signed_duration_since now prev)) eng.config.render_cooldown_ms

  -- `now` is read for the test, `later` for the entry that is written.
  unfoldable pub is_rate_limited :
      RenderingEngine W → String → AgentState → DateTime → DateTime → RenderingEngine W × Bool
  is_rate_limited eng session_id state now later =
      let key : RateLimitKey = record { session_id = session_id; state = state } in
      if too_soon eng now (get key eng.last_render)
      then (eng, true)
      else (record eng { last_render = insert key later eng.last_render }, false)

  -- The loop over the renderers: each runs in the world that the one before left.
  unfoldable pub each :
      (Renderer W → W → W × Result (Unit {0}) RendererError)
      → List (String × Renderer W)
      → W
      → W × List RenderResult
  each f [] w = (w, [])
  each f ((name, renderer) ∷ l) w =
      let (w1, r) = f renderer w in
      let (w2, results) = each f l w1 in (w2, outcome name r ∷ results)

  unfoldable pub detect_all :
      List (String × Renderer W)
      → TerminalContext
      → W
      → W × List (String × Result RendererCapabilities RendererError)
  detect_all [] ctx w = (w, [])
  detect_all ((name, renderer) ∷ l) ctx w =
      let (w1, cap) = renderer.detect ctx w in
      let (w2, results) = detect_all l ctx w1 in (w2, (name, cap) ∷ results)

  unfoldable pub health_check_all :
      List (String × Renderer W) → W → W × List (String × HealthStatus)
  health_check_all [] w = (w, [])
  health_check_all ((name, renderer) ∷ l) w =
      let (w1, h) = renderer.health_check w in
      let (w2, results) = health_check_all l w1 in (w2, (name, h) ∷ results)

  abbrev dispatch :
      StateView → RenderingEngine W × Bool → W → RenderingEngine W × W × List RenderResult
  dispatch view (eng, true) w = (eng, w, [])
  dispatch view (eng, false) w =
      let (w', results) = each (λ r. r.render view) eng.renderers w in (eng, w', results)

  unfoldable pub render :
      RenderingEngine W
      → StateView
      → DateTime
      → DateTime
      → W
      → RenderingEngine W × W × List RenderResult
  render eng view now later w =
      dispatch view (is_rate_limited eng view.target.session_id view.state now later) w

  unfoldable pub reset : RenderingEngine W → RenderTarget → W → W × List RenderResult
  reset eng target w = each (λ r. r.reset target) eng.renderers w

  unfoldable pub renderer_count : RenderingEngine W → ℕ
  renderer_count eng = length eng.renderers

  unfoldable pub renderer_names : RenderingEngine W → List String
  renderer_names eng = map (λ e. e.0) eng.renderers
