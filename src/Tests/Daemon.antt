-- ===== src/Tests/Daemon.antt =====
-- A start of the local daemon (main.go) at concrete inputs.
use mathlib.Core.List.{Memᴰ}
use port_forwarder.Base.{
  ◌≡◌, refl, sym, true, Option, none, some, [], ◌∷◌, arith, ◌==◌, if◌then◌else◌, nat_eq,
}
use port_forwarder.Base.Int.{max_int}
use port_forwarder.Base.Text.{Text, codes, text_eq}
use port_forwarder.Decimal.{format}
use port_forwarder.Files.Disk.{mkdir_all, write_file}
use port_forwarder.Engine.{Rule}
use port_forwarder.Engine.Table.{Entry}
use port_forwarder.Engine.Store.{Store, save_rules}
use port_forwarder.Engine.Store.Saved.{readable, load-save}
use port_forwarder.Ssh.Credentials.{new_cred_store, empty_store}
use port_forwarder.Api.Contract.{Displays}
use port_forwarder.Api.Contract.Saving.{IsSteady, InFile}
use port_forwarder.Wiring.Local.{run_local}
use port_forwarder.Wiring.Returning.{Serves, Returned, run_local-Keeps}
use port_forwarder.Tests.Engine.{willing, web}
use port_forwarder.Tests.Store.{good_disk, rules_file}
use port_forwarder.Tests.Manager.{agent_only, nets}

-- The file that `saveRules` leaves when the only rule is `web`.
abbrev web_file : Store
web_file = (save_rules (web ∷ []) rules_file).1

abbrev web_entry : Entry
web_entry = record {
  typ = web.typ;
  name = web.name;
  listen = web.listen;
  target = web.target;
  credential = web.credential;
}

abbrev web_table : Text → Option Entry
web_table k = if k == codes "1" then some web_entry else none

web-IsSteady : IsSteady true web_file
unfolding save_rules mkdir_all write_file
web-IsSteady = record { persistent = refl; trusty = (λ i. refl, λ i. refl) }

complete_web :
    (k : Text) (x : Entry) → web_table k ≡ some x → (r : Rule) × Memᴰ r (web ∷ []) × (r.id ≡ k)
unfolding format nat_eq
complete_web k x found = elim (text_eq.dec k (codes "1")) [
  | yes same ↦ (web, Memᴰ.head refl, sym same)
  | no other ↦ absurd (ground (arith, found))
]

web-Displays : Displays web_table (web ∷ [])
unfolding text_eq format nat_eq
web-Displays = record {
  ascending = (1, refl, omega arith, tt);
  sound = (
    record { typ = refl; name = refl; target = refl; credential = refl; listen = λ near. refl },
    tt,
  );
  complete = complete_web;
}

web-InFile : InFile 2 web_table web_file
unfolding save_rules mkdir_all write_file
web-InFile = record {
  out = web ∷ [];
  numbered = ((1, refl, omega arith, omega arith), tt);
  displays = web-Displays;
  file = load-save (web ∷ []) rules_file refl refl;
}

run_local-Keeps_example :
    Serves
      (Returned true 2 web_table)
      (run_local agent_only nets true good_disk (readable web_file) willing)
unfolding max_int new_cred_store
run_local-Keeps_example =
    run_local-Keeps agent_only nets web-IsSteady web-InFile (omega arith) (omega arith) true
      good_disk (empty_store true (record good_disk { calls = 1 })) willing refl
