-- ===== src/Tests/Engine.antt =====
-- internal/engine/engine.go at concrete inputs.
use port_forwarder.Base.{ℕ, suc, ◌≡◌, refl, none, some, [], ◌∷◌, arith, nat_eq}
use port_forwarder.Base.Int.{pos, max_int, inc}
use port_forwarder.Base.Text.{codes, text_eq}
use port_forwarder.Base.Map.{lookup, insert, erase}
use port_forwarder.Base.Prog.{returns, Ensures, Ensures-at}
use port_forwarder.Decimal.{format, format_int, atoi}
use port_forwarder.Net
use port_forwarder.Net.{Net, Listener}
use port_forwarder.Engine.{
  pending, Rule, rule_type_local, rule_type_remote, RemoteBackend, Engine, new, lock, unlock,
  start_locked, stop_locked, edit, put_status, set_status, report_error,
}
use port_forwarder.Engine.Queries.{
  restart, restart_loop, restart_rule, restart_started, list, update_all, update_remote_status,
  put_report,
}
use port_forwarder.Engine.Methods.{
  add, next_rule, record_rule, start_rule, add_remote_rule, add_local_rule, remove, update, restore,
  restore_rule, call_add, call_remove, re_add, put_local, put_remote,
}
use port_forwarder.Engine.Soundness.{IsSound, new-IsSound, Inv-remote}
use port_forwarder.Engine.Reports.{IsQuiet}
use port_forwarder.Engine.Removing.{Removed, remove_lem}
use port_forwarder.Engine.Updating.{UpdatedLocal, update_local}
use port_forwarder.Engine.UpdatingRemote.{UpdatedRemote, update_remote}
use port_forwarder.Engine.AddingRemote.{AddedRemote, add_remote_lem}
use port_forwarder.Engine.Listing.{IsListing, list_lem}
use port_forwarder.Engine.Adding.{AddedLocal, made_rule, add_local}

-- An operating system that binds every address as it is asked, but for port 22.
abbrev pub willing : Net
willing = record {
  resolve = λ i a. elim (text_eq.dec a (codes ":22")) [ yes p ↦ none | no n ↦ some a ];
  calls = 0;
  open_lns = [];
}

-- A backend that counts the calls and reports nothing.
abbrev pub counting : RemoteBackend ℕ
counting = record { add_remote = λ r b. (suc b, []); remove_remote = λ id b. (suc b, []) }

abbrev pub web : Rule
web = made_rule (codes "local") (codes "web") (codes ":80") (codes "h:8080") [] 1

unfoldable pub start : Engine ℕ
unfolding new
start = new willing

unfoldable pub one_rule : Engine ℕ
unfolding start
one_rule = record start {
  rules = (codes "1", web) ∷ [];
  lns = (codes "1", record { handle = 0; addr = codes ":80" }) ∷ [];
  stop = (codes "1", 0) ∷ [];
  next_id = pos 2;
  net = record willing { calls = 1; open_lns = record { handle = 0; addr = codes ":80" } ∷ [] };
  made = 1;
  loops =
      record { rule = codes "1"; ln = record { handle = 0; addr = codes ":80" }; stop_ch = 0 } ∷ [];
}

-- A name for all that a run of the engine computes with.
unfoldable pub everything : Unit {0}
unfolding one_rule add next_rule record_rule start_rule add_remote_rule add_local_rule remove update
    restore restore_rule restart restart_loop restart_rule restart_started list update_all
    update_remote_status call_add call_remove re_add lock unlock start_locked stop_locked Net.listen
    Net.close Net.addr_in_use Net.is_open Net.close_handle text_eq nat_eq insert lookup erase edit
    set_status report_error format format_int atoi inc max_int rule_type_remote rule_type_local
    put_status put_local put_remote put_report
everything = tt

add_web :
    add counting (codes "local") (codes "web") (codes ":80") (codes "h:8080") [] start
    ≡ returns (codes "1", none) one_rule
unfolding everything
add_web = refl

pub start-IsSound : IsSound 1 start
unfolding start
start-IsSound = new-IsSound willing

add_local_example :
    Ensures
      (λ res e'. (res.0 ≡ format 1) × AddedLocal 1 web start res.1 e')
      (add counting (codes "local") (codes "web") (codes ":80") (codes "h:8080") [] start)
unfolding everything
add_local_example =
    add_local counting (codes "local") (codes "web") (codes ":80") (codes "h:8080") [] start-IsSound
      (omega arith) refl

pub one_rule-IsSound : IsSound 2 one_rule
unfolding everything
one_rule-IsSound =
    (Ensures-at (codes "1", none) one_rule
      (add_local counting (codes "local") (codes "web") (codes ":80") (codes "h:8080") []
        start-IsSound (omega arith) refl)
      add_web).1.sound

pub counting-IsQuiet : IsQuiet counting
counting-IsQuiet = record { add_good = λ r b. tt; remove_silent = λ id b. refl }

remove_example :
    Ensures
      (λ err e'. (err ≡ none) × Removed counting 2 (codes "1") web one_rule e')
      (remove counting (codes "1") one_rule)
unfolding everything
remove_example = remove_lem counting one_rule-IsSound (codes "1") refl counting-IsQuiet

update_local_example :
    Ensures
      (λ res e'.
        (res.0 ≡ some (codes "1"))
        × UpdatedLocal 2
            (codes "1")
            (codes "www")
            (codes ":22")
            (codes "h:1")
            web
            one_rule
            res.1
            e')
      (update counting (codes "1") (codes "www") (codes ":22") (codes "h:1") [] one_rule)
unfolding everything
update_local_example =
    update_local counting (codes "www") (codes ":22") (codes "h:1") [] one_rule-IsSound (codes "1")
      refl refl

list_example :
    Ensures
      (λ out e'. IsListing one_rule.rules out × IsSound 2 e' × (e'.rules ≡ one_rule.rules))
      (list one_rule)
unfolding everything
list_example = list_lem one_rule-IsSound (omega arith)

-- The engine with a backend, and with a remote rule.
abbrev backed : Engine ℕ
backed = record start { remote = some 0 }

backed-IsSound : IsSound 1 backed
unfolding start
backed-IsSound = record { free = refl; inv = Inv-remote (some 0) start-IsSound.inv }

abbrev pub vps : Rule
vps = made_rule (codes "remote") (codes "vps") (codes ":7788") (codes "h:22") (codes "credp-1") 1

add_remote_lem_example :
    Ensures
      (λ res e'. (res.0 ≡ format 1) × (res.1 ≡ none) × AddedRemote counting 1 vps 0 backed e')
      (add counting
        (codes "remote")
        (codes "vps")
        (codes ":7788")
        (codes "h:22")
        (codes "credp-1")
        backed)
unfolding everything
add_remote_lem_example =
    add_remote_lem counting (codes "remote") (codes "vps") (codes ":7788") (codes "h:22")
      (codes "credp-1") backed-IsSound (omega arith) refl counting-IsQuiet refl

unfoldable pub far_rule : Engine ℕ
unfolding start
far_rule = record backed {
  rules = (codes "1", put_status pending vps) ∷ [];
  next_id = pos 2;
  remote = some 1;
}

add_vps :
    add counting
      (codes "remote")
      (codes "vps")
      (codes ":7788")
      (codes "h:22")
      (codes "credp-1")
      backed
    ≡ returns (codes "1", none) far_rule
unfolding everything far_rule
add_vps = refl

pub far_rule-IsSound : IsSound 2 far_rule
unfolding everything
far_rule-IsSound =
    (Ensures-at (codes "1", none) far_rule
      (add_remote_lem counting (codes "remote") (codes "vps") (codes ":7788") (codes "h:22")
        (codes "credp-1") backed-IsSound (omega arith) refl counting-IsQuiet refl)
      add_vps).2.sound

update_remote_example :
    Ensures
      (λ res e'.
        (res.0 ≡ some (codes "1"))
        × (res.1 ≡ none)
        × UpdatedRemote counting 2
            (codes "1")
            (put_remote (codes "v2") (codes ":1") (codes "h:2") [] (put_status pending vps))
            1
            far_rule
            e')
      (update counting (codes "1") (codes "v2") (codes ":1") (codes "h:2") [] far_rule)
unfolding everything far_rule
update_remote_example =
    update_remote counting (codes "v2") (codes ":1") (codes "h:2") [] far_rule-IsSound (codes "1")
      refl refl counting-IsQuiet refl
