-- ===== src/Renderers/ITerm2/Drawing.antt =====
-- `render` and `reset` of crates/ats-renderer-iterm2/src/lib.rs: what is written, and to which
-- device.
use agent_term_status.Prelude.{
  ℕ, String, String_eq, true, false, Option, some, none, List, [], ◌∷◌, ◌++◌, append_assoc, All,
  All-append, ◌≡◌, refl, ap, ◌∙◌, Result, ok, err, Bool-cases, Option-cases, inl, inr, arith, ◌⊎◌,
  take, suc, sym,
}
use agent_term_status.Prelude.HashMap.{get, get-insert}
use agent_term_status.Core.{TerminalContext}
use agent_term_status.Core.Label.{all_chars}
use agent_term_status.Renderer.{RenderTarget, StateView, RendererError, unsupported}
use agent_term_status.Renderers.ITerm2.{
  ITerm2Renderer, CapturedState, Ttys, Outcome, done, cannot_open, write_failed, flush_failed,
  written, is_iterm2, is_inside_tmux, write_to_tty, draw, clear, render, reset, osc_set_title,
  osc_set_badge, build_title, build_badge, and_write, write_some, captured_title, note_prior,
  render_on, reset_on,
}
use agent_term_status.Renderers.ITerm2.Osc.{
  IsOsc, IsPlain, ArePlain, osc_set_title-IsOsc, osc_set_badge-IsOsc, build_title-IsPlain,
  build_badge-IsPlain,
}

abbrev pub Write : Type 0
Write = String × List ℕ

-- A whole control sequence, to the device of an iTerm2 that no tmux is between.
abbrev pub IsSafe : TerminalContext → Write → Type 0
IsSafe ctx write =
    (ctx.tty ≡ some write.0) × (is_iterm2 ctx ≡ true) × (ctx.tmux_pane ≡ none) × IsOsc write.1

-- A beginning of one.
abbrev pub IsCut : TerminalContext → Write → Type 0
IsCut ctx write =
    (bytes : List ℕ) × (n : ℕ) × (write.1 ≡ take n bytes) × IsSafe ctx (write.0, bytes)

-- All are whole, but that the last is a beginning where an error comes back.
abbrev pub AreSafe : TerminalContext → List Write → Result (Unit {0}) RendererError → Type 0
AreSafe ctx new (ok _) = All (IsSafe ctx) new
AreSafe ctx new (err e) =
    All (IsSafe ctx) new
    ⊎ ((whole : List Write) × (last : Write) × (new ≡ whole ++ last ∷ [])
        × All (IsSafe ctx) whole
        × IsCut ctx last)

-- The second log is the first one and then such writes.
abbrev pub Writes : TerminalContext → Ttys → Ttys → Result (Unit {0}) RendererError → Type 0
Writes ctx w w' result = (new : List Write) × (w'.log ≡ w.log ++ new) × AreSafe ctx new result

append_nil : (xs : List Write) → xs ≡ xs ++ []
append_nil [] = refl
append_nil (x ∷ xs) = ap (◌∷◌ x) (append_nil xs)

module _ (ctx : TerminalContext) where
  AreSafe-nil : (x : Result (Unit {0}) RendererError) → AreSafe ctx [] x
  AreSafe-nil (ok _) = tt
  AreSafe-nil (err e) = inl tt

  Writes-refl : (w : Ttys) (x : Result (Unit {0}) RendererError) → Writes ctx w w x
  Writes-refl w x = ([], append_nil w.log, AreSafe-nil x)

  AreSafe-append :
      (xs ys : List Write) (x : Result (Unit {0}) RendererError)
      → All (IsSafe ctx) xs
      → AreSafe ctx ys x
      → AreSafe ctx (xs ++ ys) x
  AreSafe-append xs ys (ok _) hx hy = All-append (IsSafe ctx) xs ys hx hy
  AreSafe-append xs ys (err e) hx (inl hy) = inl (All-append (IsSafe ctx) xs ys hx hy)
  AreSafe-append xs ys (err e) hx (inr (whole, last, p, hw, cut)) = inr (
    xs ++ whole,
    last,
    ap (λ l. xs ++ l) p ∙ sym (append_assoc xs whole (last ∷ [])),
    All-append (IsSafe ctx) xs whole hx hw,
    cut,
  )

  -- What goes on after a part that went through.
  Writes-trans :
      (a b c : Ttys) (x : Result (Unit {0}) RendererError)
      → Writes ctx a b (ok tt)
      → Writes ctx b c x
      → Writes ctx a c x
  Writes-trans a b c x (xs, p, hx) (ys, q, hy) =
      (xs ++ ys, q ∙ ap (λ l. l ++ ys) p ∙ append_assoc a.log xs ys, AreSafe-append xs ys x hx hy)

  written-Writes :
      (w : Ttys) (tty : String) (bytes : List ℕ) (o : Outcome)
      → IsSafe ctx (tty, bytes)
      → Writes ctx w (written w tty bytes o).0 (written w tty bytes o).1
  written-Writes w tty bytes done h = ((tty, bytes) ∷ [], refl, (h, tt))
  written-Writes w tty bytes (cannot_open e) h =
      Writes-refl w (written w tty bytes (cannot_open e)).1
  written-Writes w tty bytes (write_failed n e) h =
      ((tty, take n bytes) ∷ [], refl, inr ([], (tty, take n bytes), refl, tt, (bytes, n, refl, h)))
  written-Writes w tty bytes (flush_failed e) h = ((tty, bytes) ∷ [], refl, inl (h, tt))

  write_to_tty-Writes :
      (tty : String) (bytes : List ℕ) (w : Ttys)
      → IsSafe ctx (tty, bytes)
      → Writes ctx w (write_to_tty tty bytes w).0 (write_to_tty tty bytes w).1
  unfolding write_to_tty
  write_to_tty-Writes tty bytes w h =
      written-Writes (record w { calls = suc w.calls }) tty bytes (w.outcome w.calls) h

  and_write-Writes :
      (w : Ttys) (x : Ttys × Result (Unit {0}) RendererError)
      (next : Ttys → Ttys × Result (Unit {0}) RendererError)
      → Writes ctx w x.0 x.1
      → ((w1 : Ttys) → Writes ctx w1 (next w1).0 (next w1).1)
      → Writes ctx w (and_write x next).0 (and_write x next).1
  and_write-Writes w (w1, ok _) next h g = Writes-trans w w1 (next w1).0 (next w1).1 h (g w1)
  and_write-Writes w (w1, err e) next h g = h

  module _ (tty : String) (here : ctx.tty ≡ some tty) (ours : is_iterm2 ctx ≡ true)
      (plain : ctx.tmux_pane ≡ none) where
    write_some-Writes :
        (osc : String → List ℕ) (text : Option String) (w : Ttys)
        → ((s : String) → IsPlain s → IsOsc (osc s))
        → ArePlain text
        → Writes ctx w (write_some tty osc text w).0 (write_some tty osc text w).1
    write_some-Writes osc none w f h = Writes-refl w (ok tt)
    write_some-Writes osc (some s) w f h =
        write_to_tty-Writes tty (osc s) w (here, ours, plain, f s h)

    draw-Writes :
        (r : ITerm2Renderer) (view : StateView) (w : Ttys)
        → Writes ctx w (draw r tty view w).0 (draw r tty view w).1
    unfolding draw
    draw-Writes r view w =
        and_write-Writes w (write_some tty osc_set_title (build_title r view.state view.label) w)
          (λ w1. write_some tty osc_set_badge (build_badge r view.state) w1)
          (write_some-Writes osc_set_title (build_title r view.state view.label) w
            osc_set_title-IsOsc (build_title-IsPlain r view.state view.label))
          (λ w1.
            write_some-Writes osc_set_badge (build_badge r view.state) w1 osc_set_badge-IsOsc
              (build_badge-IsPlain r view.state))

outside_tmux : (ctx : TerminalContext) → is_inside_tmux ctx ≡ false → ctx.tmux_pane ≡ none
unfolding is_inside_tmux
outside_tmux ctx h = ground arith

render_on-Writes :
    (view : StateView) (r : ITerm2Renderer) (w : Ttys) (tty : Option String)
    → view.target.terminal.tty ≡ tty
    → Writes view.target.terminal w (render_on view (r, w) tty).0.1 (render_on view (r, w) tty).1
render_on-Writes view r w none here =
    Writes-refl view.target.terminal w (render_on view (r, w) none).1
render_on-Writes view r w (some tty) here =
    let ctx = view.target.terminal in
    elim (Bool-cases (is_iterm2 ctx)) [
      | inr other ↦ rw other (Writes-refl ctx w (err (unsupported "renderer only supports iTerm2")))
      | inl ours ↦ rw ours (elim (Bool-cases (is_inside_tmux ctx)) [
        | inl inside ↦ rw inside (Writes-refl ctx w (ok tt))
        | inr outside ↦
            rw outside (draw-Writes ctx tty here ours (outside_tmux ctx outside) r view w)
      ])
    ]

-- Whatever the theme, the label and the outcome of each write, all that a render of the iTerm2
-- renderer writes are whole control sequences whose body has no control byte, to the terminal's own
-- device, and nothing outside iTerm2 or inside tmux; only the last of them may have been cut off at
-- some byte, and then the render returns an error.
pub render-Writes :
    (view : StateView) (r : ITerm2Renderer) (w : Ttys)
    → Writes view.target.terminal w (render view (r, w)).0.1 (render view (r, w)).1
unfolding render
render-Writes view r w = render_on-Writes view r w view.target.terminal.tty refl

-- No title has been captured, so none is restored.
abbrev pub IsClean : ITerm2Renderer → Type 0
IsClean r = (k : String) (cs : CapturedState) → get k r.prior ≡ some cs → cs.title ≡ none

captured_title-IsPlain :
    (r : ITerm2Renderer) (k : String) → IsClean r → ArePlain (captured_title (get k r.prior))
captured_title-IsPlain r k clean = elim (Option-cases (get k r.prior)) [
  | inl absent ↦ rw absent tt
  | inr (cs, there) ↦ rw (there, clean k cs there) tt
]

module _ (ctx : TerminalContext) (tty : String) (here : ctx.tty ≡ some tty)
    (ours : is_iterm2 ctx ≡ true) (outside : ctx.tmux_pane ≡ none) where
  clear-Writes :
      (cap : Option CapturedState) (w : Ttys)
      → ArePlain (captured_title cap)
      → Writes ctx w (clear tty cap w).0 (clear tty cap w).1
  unfolding clear
  clear-Writes cap w plain =
      and_write-Writes ctx w (write_some tty osc_set_title (captured_title cap) w)
        (λ w1.
          and_write (write_to_tty tty (osc_set_title "") w1)
            (λ w2. write_to_tty tty (osc_set_badge "") w2))
        (write_some-Writes ctx tty here ours outside osc_set_title (captured_title cap) w
          osc_set_title-IsOsc plain)
        (λ w1.
          and_write-Writes ctx w1 (write_to_tty tty (osc_set_title "") w1)
            (λ w2. write_to_tty tty (osc_set_badge "") w2)
            (write_to_tty-Writes ctx tty (osc_set_title "") w1
              (here, ours, outside, osc_set_title-IsOsc "" (unfold all_chars in refl)))
            (λ w2.
              write_to_tty-Writes ctx tty (osc_set_badge "") w2
                (here, ours, outside, osc_set_badge-IsOsc "" (unfold all_chars in refl))))

reset_on-Writes :
    (target : RenderTarget) (r : ITerm2Renderer) (w : Ttys) (tty : Option String)
    → IsClean r
    → target.terminal.tty ≡ tty
    → Writes target.terminal w (reset_on target (r, w) tty).0.1 (reset_on target (r, w) tty).1
reset_on-Writes target r w none clean here =
    Writes-refl target.terminal w (reset_on target (r, w) none).1
reset_on-Writes target r w (some tty) clean here =
    let ctx = target.terminal in
    elim (Bool-cases (is_iterm2 ctx)) [
      | inr other ↦ rw other (Writes-refl ctx w (ok tt))
      | inl ours ↦ rw ours (elim (Bool-cases (is_inside_tmux ctx)) [
        | inl inside ↦ rw inside (Writes-refl ctx w (ok tt))
        | inr outside ↦ rw outside (
            clear-Writes ctx tty here ours (outside_tmux ctx outside)
              (get target.session_id r.prior) w (captured_title-IsPlain r target.session_id clean))
      ])
    ]

-- If the renderer has captured no title, all that a reset writes are such control sequences too, to
-- the terminal's own device, and nothing outside iTerm2 or inside tmux.
reset-Writes :
    (target : RenderTarget) (r : ITerm2Renderer) (w : Ttys)
    → IsClean r
    → Writes target.terminal w (reset target (r, w)).0.1 (reset target (r, w)).1
unfolding reset
reset-Writes target r w clean = reset_on-Writes target r w target.terminal.tty clean refl

note_prior-IsClean : (r : ITerm2Renderer) (k : String) → IsClean r → IsClean (note_prior r k)
note_prior-IsClean r k clean j cs h =
    ground (arith, clean j cs, get-insert k j (record { title = none; badge = none }) r.prior)

render_on-IsClean :
    (view : StateView) (r : ITerm2Renderer) (w : Ttys) (tty : Option String)
    → IsClean r
    → IsClean (render_on view (r, w) tty).0.0
render_on-IsClean view r w none clean = clean
render_on-IsClean view r w (some tty) clean = elim (Bool-cases (is_iterm2 view.target.terminal)) [
  | inr other ↦ rw other clean
  | inl ours ↦ rw ours (elim (Bool-cases (is_inside_tmux view.target.terminal)) [
    | inl inside ↦ rw inside clean
    | inr outside ↦ rw outside (note_prior-IsClean r view.target.session_id clean)
  ])
]

pub render-IsClean :
    (view : StateView) (r : ITerm2Renderer) (w : Ttys)
    → IsClean r
    → IsClean (render view (r, w)).0.0
unfolding render
render-IsClean view r w = render_on-IsClean view r w view.target.terminal.tty
