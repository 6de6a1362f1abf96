-- ===== src/Rendering/RateLimit.antt =====
-- The rate limit of crates/ats-rendering/src/lib.rs (`is_rate_limited`, `render`).
use agent_term_status.Prelude.{
  ℕ, ◌≤◌, ◌+◌, ◌*◌, ◌≡◌, ◌⊎◌, refl, Bool, true, false, ◌&&◌, not, Option, some, none, List, [], ◌∷◌,
  String, if◌then◌else◌, arith, Bool-cases, inl, inr, ap, Result, ok, err, ◌∙◌,
}
use agent_term_status.Prelude.Int.{pos, ltb_ℤ}
use agent_term_status.Prelude.Time.{DateTime, signed_duration_since, num_milliseconds}
use agent_term_status.Prelude.HashMap.{get, get-insert}
use agent_term_status.Renderer.{Renderer, RendererError, StateView}
use agent_term_status.Rendering.Engine.{
  RateLimitKey, RateLimitKey_eq, key_eq, key_eq_iff, RenderingEngine, RenderResult, is_rate_limited,
  too_soon, each, outcome, render,
}

-- One call of `is_rate_limited`, with the two readings of the clock that it makes.
pub record Call : Type 0 where
  pub key : RateLimitKey
  pub now : DateTime
  pub later : DateTime

module _ {W : Type 0} where
  abbrev pub try_call : RenderingEngine W → Call → RenderingEngine W × Bool
  try_call eng c = is_rate_limited eng c.key.session_id c.key.state c.now c.later

  -- The calls for one key that pass, in a sequence of calls for any keys.
  unfoldable pub passed : RateLimitKey → RenderingEngine W → List Call → List Call
  passed k eng [] = []
  passed k eng (c ∷ cs) =
      let rest = passed k (try_call eng c).0 cs in
      if key_eq c.key k && not (try_call eng c).1 then c ∷ rest else rest

-- A render at `now` is a cooldown of `c` milliseconds or more after the last one.
abbrev pub IsApart : ℕ → Option DateTime → DateTime → Type 0
IsApart c none now = Unit
IsApart c (some prev) now = (c ≡ 0) ⊎ (prev + c * 1_000_000 ≤ now)

abbrev pub IsSpaced : ℕ → Option DateTime → List Call → Type 0
IsSpaced c last [] = Unit
IsSpaced c last (x ∷ xs) = IsApart c last x.now × IsSpaced c (some x.later) xs

apart :
    (c prev now : ℕ)
    → ltb_ℤ (num_milliseconds (signed_duration_since now prev)) (pos c) ≡ false
    → IsApart c (some prev) now
apart c prev now h = ground arith

IsApart-of_test :
    {W : Type 0} (c : ℕ) (eng : RenderingEngine W) (last : Option DateTime) (now : DateTime)
    → eng.config.render_cooldown_ms ≡ pos c
    → too_soon eng now last ≡ false
    → IsApart c last now
IsApart-of_test c eng none now e h = tt
IsApart-of_test c eng (some prev) now e h = apart c prev now (rw e at h)

module _ {W : Type 0} (k : RateLimitKey) (c : ℕ) where
  try_call_passes :
      (eng : RenderingEngine W) (x : Call)
      → eng.config.render_cooldown_ms ≡ pos c
      → (try_call eng x).1 ≡ false
      → IsApart c (get x.key eng.last_render) x.now
        × (get k (try_call eng x).0.last_render
            ≡ (if key_eq x.key k then some x.later else get k eng.last_render))
  unfolding is_rate_limited
  try_call_passes eng x e h = elim (Bool-cases (too_soon eng x.now (get x.key eng.last_render))) [
    | inl soon ↦ absurd (cc (rw soon at h))
    | inr open_ ↦ (
      IsApart-of_test c eng (get x.key eng.last_render) x.now e open_,
      rw open_ (get-insert x.key k x.later eng.last_render),
    )
  ]

  try_call_limited :
      (eng : RenderingEngine W) (x : Call) → (try_call eng x).1 ≡ true → (try_call eng x).0 ≡ eng
  unfolding is_rate_limited
  try_call_limited eng x h = ground arith

  try_call-config : (eng : RenderingEngine W) (x : Call) → (try_call eng x).0.config ≡ eng.config
  unfolding is_rate_limited
  try_call-config eng x = ground arith

  -- Of the renders of one state on one session that pass the rate limit, each comes at least the
  -- cooldown after the one before it, whatever renders are attempted in between; the cooldown is
  -- not negative.
  pub passed-IsSpaced :
      (eng : RenderingEngine W) (calls : List Call)
      → eng.config.render_cooldown_ms ≡ pos c
      → IsSpaced c (get k eng.last_render) (passed k eng calls)
  unfolding passed
  passed-IsSpaced eng [] e = tt
  passed-IsSpaced eng (x ∷ xs) e =
      let ih =
        passed-IsSpaced (try_call eng x).0 xs
          (ap (λ f. f.render_cooldown_ms) (try_call-config eng x) ∙ e) in
      elim (Bool-cases (try_call eng x).1) [
        | inl limited ↦
            let same = try_call_limited eng x limited in
            elim (Bool-cases (key_eq x.key k)) [
              | inl ours ↦ rw (ours, limited, same) (rw same at ih)
              | inr other ↦ rw (other, same) (rw same at ih)
            ]
        | inr open_ ↦
            let (far, kept) = try_call_passes eng x e open_ in
            elim (Bool-cases (key_eq x.key k)) [
              | inl ours ↦
                  let same : x.key ≡ k = (key_eq_iff x.key k).0 ours in
                  rw (ours, open_) (rw same at far, rw (kept, ours) at ih)
              | inr other ↦ rw other (rw (kept, other) at ih)
            ]
      ]

module _ {W : Type 0} (view : StateView) where
  -- Renderers that run one after the other, each in the world that the one before left, and how each
  -- is reported.
  pub data Ran : List (String × Renderer W) → W → W → List RenderResult → Type 0 where
    none_left : {w : W} → Ran [] w w []
    drawn :
        {name : String} {r : Renderer W} {l : List (String × Renderer W)} {w w1 w2 : W}
        {results : List RenderResult}
        → r.render view w ≡ (w1, ok tt)
        → Ran l w1 w2 results
        → Ran ((name, r) ∷ l) w w2 (record { renderer_name = name; error = none } ∷ results)
    not_drawn :
        {name : String} {r : Renderer W} {l : List (String × Renderer W)} {w w1 w2 : W}
        {e : RendererError} {results : List RenderResult}
        → r.render view w ≡ (w1, err e)
        → Ran l w1 w2 results
        → Ran ((name, r) ∷ l) w w2 (record { renderer_name = name; error = some e } ∷ results)

  run_one :
      (name : String) (r : Renderer W) (l : List (String × Renderer W)) (w w2 : W)
      (x : W × Result (Unit {0}) RendererError) (results : List RenderResult)
      → r.render view w ≡ x
      → Ran l x.0 w2 results
      → Ran ((name, r) ∷ l) w w2 (outcome name x.1 ∷ results)
  run_one name r l w w2 (w1, ok u) results e rest = drawn e rest
  run_one name r l w w2 (w1, err f) results e rest = not_drawn e rest

  each-Ran :
      (l : List (String × Renderer W)) (w : W)
      → let x = each (λ r. r.render view) l w in Ran l w x.0 x.1
  unfolding each
  each-Ran [] w = none_left
  each-Ran ((name, r) ∷ l) w =
      let rest = each (λ r. r.render view) l (r.render view w).0 in
      run_one name r l w rest.0 (r.render view w) rest.1 refl (each-Ran l (r.render view w).0)

module _ {W : Type 0} where
  -- What one call of `render` does, by what the rate limit answers.
  pub data Renders (eng : RenderingEngine W) (view : StateView) (w : W)
      (limit : RenderingEngine W × Bool) : RenderingEngine W × W × List RenderResult → Type 0 where
    suppressed : limit.1 ≡ true → Renders eng view w limit (eng, w, [])
    dispatched :
        {w' : W} {results : List RenderResult}
        → limit.1 ≡ false
        → Ran view eng.renderers w w' results
        → Renders eng view w limit (limit.0, w', results)

  -- A render is suppressed exactly when the limit says so, and then runs no renderer, reports
  -- nothing and leaves the world as it is; otherwise every renderer's own render runs once, in
  -- order, in the world that the one before left, whatever that returned, and each is reported once
  -- under its name, with its own error or with none.
  pub render-Renders :
      (eng : RenderingEngine W) (view : StateView) (now later : DateTime) (w : W)
      → Renders eng view w
          (is_rate_limited eng view.target.session_id view.state now later)
          (render eng view now later w)
  unfolding render is_rate_limited
  render-Renders eng view now later w =
      let k : RateLimitKey = record { session_id = view.target.session_id; state = view.state } in
      elim (Bool-cases (too_soon eng now (get k eng.last_render))) [
        | inl soon ↦ rw soon (suppressed refl)
        | inr open_ ↦ rw open_ (dispatched refl (each-Ran view eng.renderers w))
      ]
