-- ===== src/Renderers/ITerm2.antt =====
-- crates/ats-renderer-iterm2/src/lib.rs. The terminals are the log of what was written to each
-- device, and how each write to one comes out; the renderer's own state goes with them.
pub mod Base64
pub mod Osc
pub mod Drawing
use Prim.Native.Char.{Char, code}
use Prim.Native.String
use agent_term_status.Prelude.{
  ℕ, suc, ◌+◌, ◌*◌, ◌/◌, ◌%◌, String, String_eq, Bool, true, false, ◌&&◌, ◌||◌, Option, some, none,
  List, [], ◌∷◌, ◌++◌, Result, ok, err, if◌then◌else◌, str_eq, not, leb, ltb, nat_eq, is_some,
  is_empty, ◌==◌, ◌⧺◌, take,
}
use agent_term_status.Prelude.HashMap.{HashMap, get, insert, remove, contains_key}
use agent_term_status.Core.{AgentState, idle, ActivityLabel, TerminalContext}
use agent_term_status.Core.Equality.{AgentState_eq}
use agent_term_status.Core.Label.{filter_chars, take_chars}
use agent_term_status.Config.Theme.{Theme, ThemeEntry}
use agent_term_status.Renderer.{
  Renderer, RendererCapabilities, no_capabilities, RendererError, unsupported, failed, HealthStatus,
  healthy, RenderTarget, StateView,
}
use agent_term_status.Renderers.{resolve_entry, title_parts, join}

abbrev pub max_osc_string_len : ℕ
max_osc_string_len = 256

pub record CapturedState : Type 0 where
  pub title : Option String
  pub badge : Option String

pub record ITerm2Renderer : Type 0 where
  pub theme : Option Theme
  pub prior : HashMap String CapturedState

unfoldable pub new : Option Theme → ITerm2Renderer
new theme = record { theme = theme; prior = [] }

-- The test of a character that may stand in a control sequence.
abbrev pub is_plain : ℕ → Bool
is_plain cp = leb 0x20 cp && not (nat_eq cp 0x7f) && not (leb 0x80 cp && leb cp 0x9f)

unfoldable pub sanitize_osc_string : String → String
sanitize_osc_string s = take_chars max_osc_string_len (filter_chars is_plain s)

abbrev pub base64_chars : String
base64_chars = "ABCDEFGHIJKLMNOPQRSTUVWXYZabcdefghijklmnopqrstuvwxyz0123456789+/"

-- `BASE64_CHARS[i] as char`
abbrev pub base64_char : ℕ → Char
base64_char i = String.char_at base64_chars i

abbrev pub padding : Char
padding = String.char_at "=" 0

-- The four characters of a chunk of `data.chunks(3)`. The bytes of `n` do not overlap, so `|` is `+`.
unfoldable pub base64_encode : List ℕ → String
base64_encode [] = String.[]
base64_encode (b0 ∷ []) =
    let n = b0 * 65536 in
    String.◌∷◌ (base64_char (n / 262144 % 64))
      (String.◌∷◌ (base64_char (n / 4096 % 64)) (String.◌∷◌ padding (String.◌∷◌ padding String.[])))
base64_encode (b0 ∷ b1 ∷ []) =
    let n = b0 * 65536 + b1 * 256 in
    String.◌∷◌ (base64_char (n / 262144 % 64)) (
      String.◌∷◌ (base64_char (n / 4096 % 64))
        (String.◌∷◌ (base64_char (n / 64 % 64)) (String.◌∷◌ padding String.[])))
base64_encode (b0 ∷ b1 ∷ b2 ∷ rest) =
    let n = b0 * 65536 + b1 * 256 + b2 in
    String.◌∷◌ (base64_char (n / 262144 % 64)) (
      String.◌∷◌ (base64_char (n / 4096 % 64)) (
        String.◌∷◌ (base64_char (n / 64 % 64))
          (String.◌∷◌ (base64_char (n % 64)) (base64_encode rest))))

-- `str::as_bytes`: the UTF-8 of a text.
abbrev pub utf8 : ℕ → List ℕ
utf8 c =
    if ltb c 0x80
    then c ∷ []
    else if ltb c 0x800
    then (0xc0 + c / 64) ∷ (0x80 + c % 64) ∷ []
    else if ltb c 0x10000
    then (0xe0 + c / 4096) ∷ (0x80 + c / 64 % 64) ∷ (0x80 + c % 64) ∷ []
    else (0xf0 + c / 262144) ∷ (0x80 + c / 4096 % 64) ∷ (0x80 + c / 64 % 64) ∷ (0x80 + c % 64) ∷ []

unfoldable pub as_bytes : String → List ℕ
as_bytes String.[] = []
as_bytes (String.◌∷◌ c s) = utf8 (code c) ++ as_bytes s

abbrev pub titled : List String → Option String
titled [] = none
titled (s ∷ parts) = some (sanitize_osc_string (join (s ∷ parts)))

unfoldable pub build_title : ITerm2Renderer → AgentState → Option ActivityLabel → Option String
build_title r state label =
    if state == idle then some "" else titled (title_parts (resolve_entry r.theme state) label)

abbrev pub badge_of : Option ThemeEntry → Option String
badge_of none = none
badge_of (some entry) =
    if str_eq entry.symbol ""
    then none
    else some (base64_encode (as_bytes (sanitize_osc_string entry.symbol)))

unfoldable pub build_badge : ITerm2Renderer → AgentState → Option String
build_badge r state = if state == idle then some "" else badge_of (resolve_entry r.theme state)

unfoldable pub osc_set_title : String → List ℕ
osc_set_title title = 0x1b ∷ 0x5d ∷ (as_bytes "2;" ++ as_bytes title ++ 0x07 ∷ [])

unfoldable pub osc_set_badge : String → List ℕ
osc_set_badge badge = 0x1b ∷ 0x5d ∷ (as_bytes "1337;SetBadgeFormat=" ++ as_bytes badge ++ 0x07 ∷ [])

-- How a write to a device comes out. The device does not block, so `write_all` may have written so
-- many bytes before it fails; `flush` comes after all of them.
pub data Outcome : Type 0 where
  done : Outcome
  cannot_open : String → Outcome
  write_failed : ℕ → String → Outcome
  flush_failed : String → Outcome

-- The devices: what has been written to them, and the outcome of the n-th write, given beforehand.
pub record Ttys : Type 0 where
  pub log : List (String × List ℕ)
  pub calls : ℕ
  pub outcome : ℕ → Outcome

abbrev pub World : Type 0
World = ITerm2Renderer × Ttys

abbrev wrote : Ttys → String → List ℕ → Ttys
wrote w tty bytes = record w { log = w.log ++ (tty, bytes) ∷ [] }

abbrev pub written : Ttys → String → List ℕ → Outcome → Ttys × Result (Unit {0}) RendererError
written w tty bytes done = (wrote w tty bytes, ok tt)
written w tty bytes (cannot_open e) = (w, err (failed ("cannot open TTY " ⧺ (tty ⧺ (": " ⧺ e)))))
written w tty bytes (write_failed n e) =
    (wrote w tty (take n bytes), err (failed ("write to TTY " ⧺ (tty ⧺ (" failed: " ⧺ e)))))
written w tty bytes (flush_failed e) =
    (wrote w tty bytes, err (failed ("flush TTY " ⧺ (tty ⧺ (" failed: " ⧺ e)))))

unfoldable pub write_to_tty : String → List ℕ → Ttys → Ttys × Result (Unit {0}) RendererError
write_to_tty tty bytes w = written (record w { calls = suc w.calls }) tty bytes (w.outcome w.calls)

unfoldable pub is_iterm2 : TerminalContext → Bool
is_iterm2 ctx = elim ctx.term_program [ none ↦ false | some p ↦ str_eq p "iTerm.app" ]

unfoldable pub is_inside_tmux : TerminalContext → Bool
is_inside_tmux ctx = is_some ctx.tmux_pane

unfoldable pub detect : TerminalContext → Result RendererCapabilities RendererError
detect ctx =
    let can = not (is_inside_tmux ctx) in
    if not (is_iterm2 ctx)
    then err (unsupported "not iTerm2 terminal")
    else if not (is_some ctx.tty)
    then err (unsupported "no TTY in terminal context")
    else ok (record no_capabilities { tab_title = can; badge = can; reset_reliable = can })

-- `?` on a write, and the writes after it.
abbrev and_write :
    Ttys × Result (Unit {0}) RendererError
    → (Ttys → Ttys × Result (Unit {0}) RendererError)
    → Ttys × Result (Unit {0}) RendererError
and_write (w, ok _) next = next w
and_write (w, err e) next = (w, err e)

-- `if let Some(text) = text { write_to_tty(tty, &osc(text))? }`
abbrev write_some :
    String → (String → List ℕ) → Option String → Ttys → Ttys × Result (Unit {0}) RendererError
write_some tty osc none w = (w, ok tt)
write_some tty osc (some s) w = write_to_tty tty (osc s) w

unfoldable pub draw :
    ITerm2Renderer → String → StateView → Ttys → Ttys × Result (Unit {0}) RendererError
draw r tty view w =
    and_write (write_some tty osc_set_title (build_title r view.state view.label) w)
      (λ w1. write_some tty osc_set_badge (build_badge r view.state) w1)

-- `if !prior.contains_key(session_id) { prior.insert(…) }`
abbrev note_prior : ITerm2Renderer → String → ITerm2Renderer
note_prior r session_id =
    if contains_key session_id r.prior
    then r
    else record r { prior = insert session_id (record { title = none; badge = none }) r.prior }

abbrev with_renderer :
    ITerm2Renderer
    → Ttys × Result (Unit {0}) RendererError
    → World × Result (Unit {0}) RendererError
with_renderer r (w, x) = ((r, w), x)

abbrev render_on : StateView → World → Option String → World × Result (Unit {0}) RendererError
render_on view (r, w) none = ((r, w), err (unsupported "no TTY in render target"))
render_on view (r, w) (some tty) =
    if not (is_iterm2 view.target.terminal)
    then ((r, w), err (unsupported "renderer only supports iTerm2"))
    else if is_inside_tmux view.target.terminal
    then ((r, w), ok tt)
    else with_renderer (note_prior r view.target.session_id) (draw r tty view w)

unfoldable pub render : StateView → World → World × Result (Unit {0}) RendererError
render view world = render_on view world view.target.terminal.tty

abbrev captured_title : Option CapturedState → Option String
captured_title none = none
captured_title (some cs) = elim cs.title [
  | none ↦ none
  | some title ↦ if str_eq title "" then none else some title
]

unfoldable pub clear : String → Option CapturedState → Ttys → Ttys × Result (Unit {0}) RendererError
clear tty cap w = and_write (write_some tty osc_set_title (captured_title cap) w) (λ w1.
    and_write (write_to_tty tty (osc_set_title "") w1)
      (λ w2. write_to_tty tty (osc_set_badge "") w2))

abbrev reset_on : RenderTarget → World → Option String → World × Result (Unit {0}) RendererError
reset_on target (r, w) none = ((r, w), err (unsupported "no TTY in reset target"))
reset_on target (r, w) (some tty) =
    if not (is_iterm2 target.terminal)
    then ((r, w), ok tt)
    else if is_inside_tmux target.terminal
    then ((r, w), ok tt)
    else with_renderer (record r { prior = remove target.session_id r.prior })
        (clear tty (get target.session_id r.prior) w)

unfoldable pub reset : RenderTarget → World → World × Result (Unit {0}) RendererError
reset target world = reset_on target world target.terminal.tty

-- The renderer behind the trait.
unfoldable pub renderer : Renderer World
renderer = record {
  detect = λ ctx w. (w, detect ctx);
  render = render;
  reset = reset;
  health_check = λ w. (w, healthy);
}
