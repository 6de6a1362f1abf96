-- ===== src/Tests/ITerm2.antt =====
-- The iTerm2 renderer on one device.
use agent_term_status.Prelude.{
  ℕ, ◌≡◌, refl, String_eq, some, none, List, [], ◌∷◌, arith, true, nat_eq, if◌then◌else◌,
}
use agent_term_status.Prelude.HashMap.{get}
use agent_term_status.Core.{attention, TerminalContext}
use agent_term_status.Core.Label.{filter_chars, take_chars}
use agent_term_status.Config.Theme.{Theme, resolve, agent_state_to_theme_key}
use agent_term_status.Renderer.{StateView}
use agent_term_status.Renderers.{title_parts, join}
use agent_term_status.Renderers.ITerm2.{
  ITerm2Renderer, Ttys, write_failed, done, render, build_title, build_badge, base64_encode,
  as_bytes, sanitize_osc_string,
}
use agent_term_status.Renderers.ITerm2.Base64.{decode, decode-base64_encode}
use agent_term_status.Renderers.ITerm2.Drawing.{Writes, render-Writes}

abbrev window : TerminalContext
window = record { tty = some "/dev/ttys4"; term_program = some "iTerm.app"; tmux_pane = none }

-- The label of the theme carries an ESC, which the title must not.
abbrev theme : Theme
theme = record {
  name = "t";
  states =
      ("attention", record { color = none; label = "a\u{1b}b"; symbol = "!"; notification = true })
      ∷ [];
}

abbrev view : StateView
view = record {
  state = attention;
  label = some (record { text = "Bash" });
  target = record { session_id = "s1"; terminal = window };
}

abbrev fresh : ITerm2Renderer
fresh = record { theme = some theme; prior = [] }

-- The second write stops after three bytes.
abbrev ttys : Ttys
ttys = record {
  log = [];
  calls = 0;
  outcome = λ n. if nat_eq n 1 then write_failed 3 "busy" else done;
}

title_test : build_title fresh attention view.label ≡ some "! · ab · Bash"
unfolding build_title title_parts join sanitize_osc_string filter_chars take_chars resolve get
    agent_state_to_theme_key
title_test = refl

badge_test : build_badge fresh attention ≡ some "IQ=="
unfolding build_badge sanitize_osc_string filter_chars take_chars resolve get
    agent_state_to_theme_key as_bytes base64_encode
badge_test = refl

render-Writes_example :
    Writes window ttys (render view (fresh, ttys)).0.1 (render view (fresh, ttys)).1
render-Writes_example = render-Writes view fresh ttys

abbrev wasm : List ℕ
wasm = 0 ∷ 97 ∷ 115 ∷ 109 ∷ []

base64_test : base64_encode wasm ≡ "AGFzbQ=="
unfolding base64_encode
base64_test = refl

decode-base64_encode_example : decode (base64_encode wasm) ≡ wasm
decode-base64_encode_example =
    decode-base64_encode wasm (omega arith, (omega arith, (omega arith, (omega arith, tt))))
