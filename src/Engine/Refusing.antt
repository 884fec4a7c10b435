-- ===== src/Engine/Refusing.antt =====
-- internal/engine/engine.go: `Restart` when an address is refused.
use port_forwarder.Base.{◌≡◌, refl, ◌∙◌, true, false, none, ◌∷◌}
use port_forwarder.Base.Text.{Text, text_eq}
use port_forwarder.Base.Map.{Map, lookup}
use port_forwarder.Base.Prog.{hangs}
use port_forwarder.Net
use port_forwarder.Net.{Listener}
use port_forwarder.Engine.{error, Rule, Engine, put_status}
use port_forwarder.Engine.Queries.{is_remote, restart, restart_started, restart_rule, restart_loop}
use port_forwarder.Engine.Steps.{
  held-edit, lock_free, start_refused, stop_absent, report_error_held,
}

restart_rule_refused :
    {B : Type 0} (e : Engine B) (r : Rule)
    → e.held ≡ true
    → is_remote r ≡ false
    → lookup r.id e.lns ≡ none
    → (Net.listen r.listen e.net).0 ≡ none
    → restart_rule r e ≡ hangs
unfolding restart_rule restart_started
restart_rule_refused e r held is_local absent refused = rw is_local (
    rw (stop_absent e r.id absent) (
      rw (start_refused e r refused)
        (report_error_held _ r.id _ (held-edit _ r.id (put_status error) ∙ held))))

restart_loop_refused :
    {B : Type 0} (e : Engine B) (k : Text) (r : Rule) (m rules : Map Rule)
    → rules ≡ (k, r) ∷ m
    → restart_rule r e ≡ hangs
    → restart_loop rules e ≡ hangs
unfolding restart_loop
restart_loop_refused e k r m rules first stuck = rw first (rw stuck)

-- `Restart`, when the first rule that it visits is local, has no listener, and is refused its
-- address, never returns: with the mutex held it calls `reportError`, which locks it once more.
pub restart_refused :
    {B : Type 0} (e : Engine B) (k : Text) (r : Rule) (m : Map Rule)
    → e.held ≡ false
    → e.rules ≡ (k, r) ∷ m
    → is_remote r ≡ false
    → lookup r.id e.lns ≡ none
    → (Net.listen r.listen e.net).0 ≡ none
    → restart e ≡ hangs
unfolding restart
restart_refused e k r m free first is_local absent refused = rw (lock_free e free) (
    rw (
      restart_loop_refused (record e { held = true }) k r m e.rules first
        (restart_rule_refused (record e { held = true }) r refl is_local absent refused)))
