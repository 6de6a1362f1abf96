-- ===== src/Tests/Render.antt =====
-- Rendering on concrete views.
use agent_term_status.Prelude.{
  ℕ, ◌≡◌, ◌<◌, ◌↔◌, refl, some, none, List, [], ◌∷◌, true, arith, ok, err, suc, ◌*◌,
}
use agent_term_status.Prelude.HashMap.{get, insert}
use agent_term_status.Core.{working}
use agent_term_status.Config.Theme.{Theme}
use agent_term_status.Renderer.{Renderer, failed, healthy, StateView, no_capabilities}
use agent_term_status.Rendering.Engine
use agent_term_status.Rendering.Engine.{
  RenderingEngine, RateLimitKey, RateLimitKey_eq, render, is_rate_limited, default_config, each,
}
use agent_term_status.Rendering.Policy.{in_quiet_hours, in_quiet_hours_iff, clock_distance}
use agent_term_status.Rendering.RateLimit.{
  Call, passed, IsSpaced, passed-IsSpaced, Renders, render-Renders,
}
use agent_term_status.Tests.Data.{at}

-- A renderer that counts what it draws, and then fails.
abbrev counter : Renderer ℕ
counter = record {
  detect = λ ctx w. (w, ok no_capabilities);
  render = λ view w. (suc w, err (failed "counted"));
  reset = λ target w. (w, ok tt);
  health_check = λ w. (w, healthy);
}

abbrev engine : RenderingEngine ℕ
engine = Engine.add_renderer (Engine.new none default_config) "counter" counter

abbrev key : RateLimitKey
key = record { session_id = "a"; state = working }

abbrev view : StateView
view = record {
  state = working;
  label = none;
  target = record {
    session_id = "a";
    terminal = record { tty = none; term_program = none; tmux_pane = none };
  };
}

abbrev call : ℕ → Call
call n = record { key = key; now = n; later = n }

abbrev calls : List Call
calls = call 1_000_000_000 ∷ call 1_200_000_000 ∷ call 1_250_000_000 ∷ []

passed-calls : passed key engine calls ≡ call 1_000_000_000 ∷ call 1_250_000_000 ∷ []
unfolding passed is_rate_limited get insert Engine.add_renderer Engine.new
passed-calls = refl

passed-IsSpaced_example : IsSpaced 250 (get key engine.last_render) (passed key engine calls)
passed-IsSpaced_example =
    passed-IsSpaced key 250 engine calls (unfold Engine.add_renderer Engine.new in refl)

render-Renders_example :
    Renders engine view 0
      (is_rate_limited engine "a" working (at 1) (at 2))
      (render engine view (at 1) (at 2) 0)
render-Renders_example = render-Renders engine view (at 1) (at 2) 0

abbrev hour : ℕ
hour = 3_600_000_000_000

in_quiet_hours_iff_example :
    (in_quiet_hours (some (22 * hour)) (some (7 * hour)) (23 * hour) ≡ true)
    ↔ (clock_distance (22 * hour) (23 * hour) < clock_distance (22 * hour) (7 * hour))
in_quiet_hours_iff_example =
    in_quiet_hours_iff (22 * hour) (7 * hour) (23 * hour) (omega arith) (omega arith) (omega arith)

abbrev empty_theme : Theme
empty_theme = record { name = "empty"; states = [] }
