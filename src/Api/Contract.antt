-- ===== src/Api/Contract.antt =====
-- What the REST API of internal/api/api.go promises of the rules: a table of rules and a file, and how
-- each request changes them. It says nothing of how the daemon is built.
pub mod Saving
pub mod Keeping
pub mod Creating
pub mod Changing
pub mod Sessions
use mathlib.Core.List.{Memᴰ}
use port_forwarder.Base.{
  ℕ, ◌≡◌, ◌≢◌, Bool, true, false, ◌&&◌, Option, none, some, List, [], ◌∷◌, All, ◌==◌, if◌then◌else◌,
}
use port_forwarder.Base.Text.{Text, codes, text_eq}
use port_forwarder.Engine.{Rule}
use port_forwarder.Engine.Queries.{is_empty}
use port_forwarder.Engine.Table.{Entry, Table, Op, add_rule, update_rule, remove_rule, apply}
use port_forwarder.Engine.Listing.{IsAscending}
use port_forwarder.Engine.Refinement.{Shows}
use port_forwarder.Api.{RuleRequest, Body, no_body, one_rule, all_rules, Response, response}
use port_forwarder.Api.Requests.{Request, get_rules, post_rule, put_rule, delete_rules}

-- The rules that a list shows: each once, in the order of the numbers that are the IDs.
pub record Displays (f : Text → Option Entry) (out : List Rule) : Type 0 where
  pub ascending : IsAscending 1 out
  pub sound : All (λ r. Shows (some r) (f r.id)) out
  pub complete : (k : Text) (x : Entry) → f k ≡ some x → (r : Rule) × Memᴰ r out × (r.id ≡ k)

-- The rules in memory, and those in the file, unless a write that failed has spoilt it.
pub record Desk : Type 0 where
  pub table : Table
  pub file : Option (Text → Option Entry)

-- What becomes of the file when rules are saved. On a `good` disk it is written.
pub data Saves (good : Bool) (rules : Text → Option Entry) (old : Option (Text → Option Entry))
    : Option (Text → Option Entry) → Type 0 where
  is_written : Saves good rules old (some rules)
  is_kept : good ≡ false → Saves good rules old old
  is_spoilt : good ≡ false → Saves good rules old none

-- What a request asks for; a remote rule needs a credential.
abbrev pub op_of : Request → Option Op
op_of get_rules = none
op_of (post_rule none) = none
op_of (post_rule (some q)) =
    if q.typ == codes "remote" && is_empty q.credential
    then none
    else some (add_rule q.typ q.name q.listen q.target q.credential)
op_of (put_rule id none) = none
op_of (put_rule id (some q)) = some (update_rule id q.name q.listen q.target q.credential)
op_of (delete_rules id) = some (remove_rule id)

abbrev pub is_list : Request → Bool
is_list get_rules = true
is_list _ = false

-- The code of a success.
abbrev pub done_code : Request → ℕ
done_code (post_rule q) = 201
done_code (delete_rules id) = 204
done_code _ = 200

-- The code of an address that is refused, or of a backend that is missing.
abbrev pub refused_code : Request → ℕ
refused_code (post_rule q) = 409
refused_code _ = 404

abbrev pub can_fail : Request → Bool
can_fail (delete_rules id) = false
can_fail _ = true

-- What a success tells of the rule.
abbrev pub Tells : Request → Option Entry → Body → Type 0
Tells (delete_rules id) x b = b ≡ no_body
Tells q x b = (o : Option Rule) × (b ≡ one_rule o) × Shows o x

-- A request, and what comes of it.
pub data Reacts (good : Bool) : Request → Desk → Response → Desk → Type 0 where
  lists :
      (d : Desk) (out : List Rule)
      → Displays d.table.entries out
      → Reacts good get_rules d (response 200 (all_rules out)) d
  rejects :
      (q : Request) (d : Desk) (b : Body)
      → op_of q ≡ none
      → is_list q ≡ false
      → Reacts good q d (response 400 b) d
  misses :
      (q : Request) (op : Op) (d : Desk) (b : Body)
      → op_of q ≡ some op
      → (apply op d.table).answer ≡ none
      → Reacts good q d (response 404 b) d
  succeeds :
      (q : Request) (op : Op) (d : Desk) (id : Text) (b : Body)
      → op_of q ≡ some op
      → (apply op d.table).answer ≡ some id
      → Tells q ((apply op d.table).table.entries id) b
      → (file : Option (Text → Option Entry))
      → Saves good (apply op d.table).table.entries d.file file
      → Reacts good q d
          (response (done_code q) b)
          (record { table = (apply op d.table).table; file = file })
  -- The rule is made or changed all the same, but not in the file.
  is_refused :
      (q : Request) (op : Op) (d : Desk) (id : Text) (b : Body)
      → op_of q ≡ some op
      → (apply op d.table).answer ≡ some id
      → can_fail q ≡ true
      → Reacts good q d
          (response (refused_code q) b)
          (record d { table = (apply op d.table).table })

pub data Trace (good : Bool) : List Request → Desk → List Response → Desk → Type 0 where
  idle : (d : Desk) → Trace good [] d [] d
  reacts :
      {q : Request} {qs : List Request} {d d1 d2 : Desk} {resp : Response} {resps : List Response}
      → Reacts good q d resp d1
      → Trace good qs d1 resps d2
      → Trace good (q ∷ qs) d (resp ∷ resps) d2
