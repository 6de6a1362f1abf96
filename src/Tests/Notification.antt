-- ===== src/Tests/Notification.antt =====
-- The notification renderer in its quiet hours and out of them.
use agent_term_status.Prelude.{◌≡◌, refl, String, some, none, [], ◌∷◌, false}
use agent_term_status.Prelude.HashMap.{get}
use agent_term_status.Core.{error}
use agent_term_status.Renderer.{StateView}
use agent_term_status.Renderers.Process.{Outside, exited, run_command}
use agent_term_status.Renderers.Notification.{
  NotificationRenderer, render, should_notify, quiet_hours_allows, is_quiet_hours, is_debounced,
  deliver, send_notification, build_title, build_body, build_sound,
}
use agent_term_status.Rendering.Policy.{in_quiet_hours}
use agent_term_status.Renderers.Notification.Delivery.{Delivers, render-Delivers}

abbrev same : String → String
same s = s

abbrev view : StateView
view = record {
  state = error;
  label = some (record { text = "cargo test" });
  target = record {
    session_id = "s1";
    terminal = record { tty = none; term_program = none; tmux_pane = none };
  };
}

-- Quiet from 22 to 7 o'clock, in nanoseconds since midnight.
abbrev night : NotificationRenderer
night = record {
  theme = none;
  notifier_path = some "/usr/local/bin/terminal-notifier";
  quiet_hours_start = some 79200000000000;
  quiet_hours_end = some 25200000000000;
  quiet_hours_states = [];
  last_notify = [];
}

-- The notifier fails.
abbrev failing : Outside
failing = record { log = []; exit = λ n. exited false none "no display" }

at_noon_test :
    (render same view 43200000000000 5 6 (night, failing)).0.1.log
    ≡ ("/usr/local/bin/terminal-notifier" ∷ "-title" ∷ "? " ∷ "-message" ∷ ": cargo test" ∷ "-sound"
        ∷ "Basso" ∷ "-sender" ∷ "com.googlecode.iterm2" ∷ [])
      ∷ []
unfolding render should_notify quiet_hours_allows is_quiet_hours in_quiet_hours is_debounced deliver
    send_notification build_title build_body build_sound run_command get
at_noon_test = refl

at_midnight_test : (render same view 0 5 6 (night, failing)).0.1.log ≡ []
unfolding render should_notify quiet_hours_allows is_quiet_hours in_quiet_hours
at_midnight_test = refl

render-Delivers_example :
    Delivers same view 43200000000000 5 6 night failing
      (render same view 43200000000000 5 6 (night, failing))
render-Delivers_example = render-Delivers same view 43200000000000 5 6 night failing
