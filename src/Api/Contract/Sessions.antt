-- ===== src/Api/Contract/Sessions.antt =====
-- internal/api/api.go: any requests on rules, one after the other, against the contract.
use port_forwarder.Base.{Bool, ◌+◌, ◌<◌, ◌≤◌, List, [], ◌∷◌, arith, length}
use port_forwarder.Base.Int.{max_int}
use port_forwarder.Base.Prog.{Ensures, returned, Ensures-bind}
use port_forwarder.Engine.{RemoteBackend}
use port_forwarder.Engine.Reports.{IsQuiet}
use port_forwarder.Engine.Refinement.Sequences.{next-apply}
use port_forwarder.Api.{Response, Server}
use port_forwarder.Api.Requests.{
  Request, get_rules, post_rule, put_rule, delete_rules, handle, serve,
}
use port_forwarder.Api.Contract.{
  Desk, Reacts, lists, rejects, misses, succeeds, is_refused, Trace, idle, reacts,
}
use port_forwarder.Api.Contract.Keeping.{Keeps, list_rules-Reacts}
use port_forwarder.Api.Contract.Creating.{Served, create_rule-Served}
use port_forwarder.Api.Contract.Changing.{update_rule-Served, delete_rule-Served}

next-Reacts :
    {good : Bool} {q : Request} {d d' : Desk} {resp : Response}
    → Reacts good q d resp d'
    → d'.table.next ≤ d.table.next + 1
next-Reacts (lists d out shown) = omega arith
next-Reacts (rejects q d b nothing other) = omega arith
next-Reacts (misses q op d b asks absent) = omega arith
next-Reacts (succeeds q op d id b asks answers tells file saves) = next-apply op d.table
next-Reacts (is_refused q op d id b asks answers can) = next-apply op d.table

-- A request takes one ID at most.
pub next-Trace :
    {good : Bool} {qs : List Request} {d d' : Desk} {resps : List Response}
    → Trace good qs d resps d'
    → d'.table.next ≤ d.table.next + length qs
next-Trace (idle d) = omega arith
next-Trace (reacts first rest) = omega (arith, next-Reacts first, next-Trace rest)

module _ {B : Type 0} (be : RemoteBackend B) (quiet : IsQuiet be) where
  handle-Served :
      (q : Request) {good : Bool} {d : Desk} {srv : Server B}
      → Keeps good d srv
      → d.table.next + 1 < max_int
      → Ensures (Served good q d) (handle be q srv)
  unfolding handle
  handle-Served get_rules keeps room = list_rules-Reacts keeps.implements (omega arith) keeps
  handle-Served (post_rule q) keeps room = create_rule-Served be quiet keeps q room
  handle-Served (put_rule id q) keeps room = update_rule-Served be quiet keeps (omega arith) id q
  handle-Served (delete_rules id) keeps room = delete_rule-Served be quiet keeps (omega arith) id

  -- Take a server whose engine is sound and holds the rules of a table, whose rule store has a path,
  -- and whose file, when it is read, has the rules of the desk's file, if that is known, with IDs
  -- that are numbers below the counter; the remote backend is quiet, or missing, and the counter
  -- stays below the largest int. The disk takes everything if `good` is true, and may refuse or
  -- spoil any write if it is false. Then any requests to list, make, change and delete rules, one
  -- after the other, return, and are answered the way the contract says. A list has each rule of the
  -- table once, in the order of the IDs. A body that cannot be decoded, or a remote rule without a
  -- credential, gets 400 and changes nothing; an ID that the table does not have gets 404 and changes
  -- nothing. Everything else changes the table the way the operation says. It is answered with
  -- success and the rule as it then is (nothing for a deletion), and the file then has the rules of
  -- the table, or, on a disk that is not good, stays as it was or is spoilt; or it is answered, but
  -- for a deletion, with 409 or 404, and the file stays as it was. The server then has the table and
  -- the file that the contract ends with, and all of the above is true of it again.
  pub serve-Trace :
      (qs : List Request) {good : Bool} {d : Desk} {srv : Server B}
      → Keeps good d srv
      → d.table.next + length qs < max_int
      → Ensures
          (λ resps srv'. (d' : Desk) × Trace good qs d resps d' × Keeps good d' srv')
          (serve be qs srv)
  unfolding serve
  serve-Trace [] {d = d} keeps room = returned _ _ (d, idle d, keeps)
  serve-Trace (q ∷ qs) keeps room =
      Ensures-bind _ (handle-Served q keeps (omega arith)) (λ resp srv1 (d1, first, kept).
        Ensures-bind _ (serve-Trace qs kept (omega (arith, next-Reacts first)))
          (λ resps srv2 (d2, rest, still). returned _ _ (d2, reacts first rest, still)))
