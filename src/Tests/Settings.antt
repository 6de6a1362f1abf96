-- ===== src/Tests/Settings.antt =====
-- The configuration at its defaults.
use agent_term_status.Prelude.{some, [], ◌∷◌, ◌≡◌, ◌↔◌, refl, ok, err}
use agent_term_status.Config.Settings.{Config, validate, check_states}
use agent_term_status.Config.Settings.Default
use agent_term_status.Config.Settings.Validation.{IsAccepted, validate-ok_iff}

abbrev by_day : Config
by_day = record Default.default_config {
  renderers = record Default.renderers {
    notifications = record Default.renderers.notifications {
      quiet_hours = record { start = some "12:00"; end = some "13:30"; allow = [] };
    };
  };
}

by_day_test : validate by_day ≡ ok tt
unfolding validate check_states
by_day_test = refl

-- The default quiet hours, over midnight, do not pass.
default_config_test :
    validate Default.default_config
    ≡ err ("quiet_hours.start (22:00) must be before quiet_hours.end (07:00)" ∷ [])
unfolding validate check_states
default_config_test = refl

validate-ok_iff_example :
    (validate Default.default_config ≡ ok tt) ↔ IsAccepted Default.default_config
validate-ok_iff_example = validate-ok_iff Default.default_config
