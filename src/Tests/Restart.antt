-- ===== src/Tests/Restart.antt =====
-- `Restart` of internal/engine/engine.go at a concrete input.
use port_forwarder.Base.{◌≡◌, refl, sym, ◌∙◌, some, arith, nat_eq}
use port_forwarder.Base.Text.{Text, codes, text_eq}
use port_forwarder.Base.Map.{lookup}
use port_forwarder.Base.Prog.{Ensures}
use port_forwarder.Engine.{Rule}
use port_forwarder.Engine.Queries.{restart}
use port_forwarder.Engine.Steps.{map_option}
use port_forwarder.Engine.Soundness.{IsSound}
use port_forwarder.Engine.Restarting.{refreshed}
use port_forwarder.Engine.Rebinding.{CanBind}
use port_forwarder.Engine.Rebinding.Returning.{Bindable, restart_returns_lem}
use port_forwarder.Tests.Engine.{everything, web, one_rule, one_rule-IsSound}

only_web : (k : Text) (r : Rule) → lookup k one_rule.rules ≡ some r → (k ≡ codes "1") × (r ≡ web)
unfolding one_rule lookup
only_web k r at = elim (text_eq.dec k (codes "1")) [
  | yes mine ↦ (mine, grind (arith, at))
  | no other ↦ absurd (grind (arith, at))
]

web-CanBind : CanBind web one_rule
unfolding everything
web-CanBind = record { free = refl; binds = λ i. refl }

one_rule-Bindable : Bindable one_rule.rules one_rule
one_rule-Bindable = record {
  can = λ k r at local. rw ((only_web k r at).1) web-CanBind;
  apart =
      λ j k q r at at' other a b. absurd (other ((only_web j q at).0 ∙ sym (only_web k r at').0));
}

restart_returns_lem_example :
    Ensures
      (λ _ e'.
        IsSound 2 e'
        × ((k : Text) → lookup k e'.rules ≡ map_option refreshed (lookup k one_rule.rules)))
      (restart one_rule)
restart_returns_lem_example = restart_returns_lem one_rule-IsSound one_rule-Bindable
