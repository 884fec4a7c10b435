-- ===== src/Net/HostPort.antt =====
-- `net.SplitHostPort` and `net.JoinHostPort`, and what the program makes of addresses with them:
-- `dataAddr` of internal/tunnel/server.go and `normalizeHost` of internal/ssh/manager.go.
use port_forwarder.Base.{
  ℕ, Bool, false, ◌||◌, ◌≡◌, refl, ap, ◌∙◌, Option, none, some, [], ◌∷◌, ◌++◌, arith, ◌==◌, nat_eq,
  if◌then◌else◌, contains, Bool-cases, inl, inr,
}
use port_forwarder.Base.Options.{◌>>=◌}
use port_forwarder.Base.Text.{Text, codes}

abbrev pub has : ℕ → Text → Bool
has c s = contains s c

-- The text in front of the last `c`, and the text behind it.
unfoldable pub split_last : ℕ → Text → Option (Text × Text)
split_last c [] = none
split_last c (b ∷ s) = elim (split_last c s) [
  | some (front, back) ↦ some (b ∷ front, back)
  | none ↦ if b == c then some ([], s) else none
]

-- The text in front of a `]` that is the first one and the last byte.
unfoldable pub inside : Text → Option Text
inside [] = none
inside (c ∷ []) = if c == b']' then some [] else none
inside (c ∷ d ∷ s) = do rest ← inside (d ∷ s); if c == b']' then none else some (c ∷ rest)

abbrev bracketed : Text → Text → Option (Text × Text)
bracketed front port = do
  host ← inside front
  if has b'[' host || has b'[' port || has b']' port then none else some (host, port)

abbrev plain : Text → Text → Option (Text × Text)
plain host port =
    if has b':' host || has b'[' host || has b'[' port || has b']' host || has b']' port
    then none
    else some (host, port)

abbrev split_front : Text → Text → Option (Text × Text)
split_front [] port = plain [] port
split_front (c ∷ s) port = if c == b'[' then bracketed s port else plain (c ∷ s) port

-- `net.SplitHostPort`
unfoldable pub split_host_port : Text → Option (Text × Text)
unfolding split_last inside
split_host_port s = do (front, port) ← split_last b':' s; split_front front port

-- `net.JoinHostPort`
unfoldable pub join_host_port : Text → Text → Text
join_host_port host port =
    if has b':' host then b'[' ∷ (host ++ (b']' ∷ b':' ∷ port)) else host ++ (b':' ∷ port)

abbrev data_port : Text → Text → Option (Text × Text) → Text
data_port host data_local none = data_local
data_port host data_local (some (_, port)) = join_host_port host port

abbrev data_host : Text → Option (Text × Text) → Text
data_host data_local none = data_local
data_host data_local (some (host, _)) = data_port host data_local (split_host_port data_local)

-- `dataAddr`: the host of the first address and the port of the second one.
unfoldable pub data_addr : Text → Text → Text
unfolding split_host_port join_host_port
data_addr ctrl_local data_local = data_host data_local (split_host_port ctrl_local)

abbrev or_port_22 : Text → Option (Text × Text) → Text
or_port_22 h none = h ++ codes ":22"
or_port_22 h (some _) = h

-- `normalizeHost`
unfoldable pub normalize_host : Text → Text
unfolding split_host_port
normalize_host h = or_port_22 h (split_host_port h)

runs :
    (split_host_port (codes "[::1]:80") ≡ some (codes "::1", codes "80"))
    × (split_host_port (codes "h:80") ≡ some (codes "h", codes "80"))
    × (split_host_port (codes ":80") ≡ some ([], codes "80"))
    × (split_host_port (codes "::1:80") ≡ none)
    × (split_host_port (codes "[::1]x:80") ≡ none)
    × (normalize_host (codes "h") ≡ codes "h:22")
    × (data_addr (codes "10.0.0.1:7000") (codes "[::]:40001") ≡ codes "10.0.0.1:40001")
unfolding split_host_port split_last inside join_host_port data_addr normalize_host nat_eq
runs = (refl, refl, refl, refl, refl, refl, refl)

-- The last `c` of a text that goes on with `c` and then has no `c`.
split_last-none : (c : ℕ) (s : Text) → has c s ≡ false → split_last c s ≡ none
unfolding split_last
split_last-none c [] h = refl
split_last-none c (b ∷ s) h = rw (split_last-none c s (ground arith)) (ground arith)

split_last_append : (c : ℕ) (s t : Text) → has c t ≡ false → split_last c (s ++ c ∷ t) ≡ some (s, t)
unfolding split_last
split_last_append c [] t h = rw (split_last-none c t h) (ground arith)
split_last_append c (b ∷ s) t h = rw (split_last_append c s t h) refl

inside_append : (s : Text) → has b']' s ≡ false → inside (s ++ b']' ∷ []) ≡ some s
unfolding inside
inside_append [] h = ground arith
inside_append (c ∷ []) h = ground arith
inside_append (c ∷ d ∷ s) h = rw (inside_append (d ∷ s) (ground arith)) (ground arith)

append_mid : (s t : Text) (b : ℕ) → s ++ b ∷ t ≡ (s ++ b ∷ []) ++ t
append_mid [] t b = refl
append_mid (c ∷ s) t b = ap (λ u. c ∷ u) (append_mid s t b)

split_at_colon :
    (front port : Text)
    → has b':' port ≡ false
    → split_host_port (front ++ b':' ∷ port) ≡ split_front front port
unfolding split_host_port
split_at_colon front port h = rw (split_last_append b':' front port h) refl

front_bracketed :
    (host port : Text)
    → has b'[' host ≡ false
    → has b']' host ≡ false
    → has b'[' port ≡ false
    → has b']' port ≡ false
    → split_front (b'[' ∷ (host ++ b']' ∷ [])) port ≡ some (host, port)
unfolding nat_eq
front_bracketed host port h1 h2 p1 p2 = rw (inside_append host h2) (rw (h1, p1, p2) refl)

front_plain :
    (host port : Text)
    → has b'[' host ≡ false
    → has b']' host ≡ false
    → has b':' host ≡ false
    → has b'[' port ≡ false
    → has b']' port ≡ false
    → split_front host port ≡ some (host, port)
front_plain [] port h1 h2 h3 p1 p2 = ground arith
front_plain (c ∷ s) port h1 h2 h3 p1 p2 = ground arith

-- `net.SplitHostPort` gets back the host and the port that `net.JoinHostPort` was given, an IPv6
-- host too, if neither has a bracket and the port has no colon.
split-join :
    (host port : Text)
    → has b'[' host ≡ false
    → has b']' host ≡ false
    → has b'[' port ≡ false
    → has b']' port ≡ false
    → has b':' port ≡ false
    → split_host_port (join_host_port host port) ≡ some (host, port)
unfolding join_host_port
split-join host port h1 h2 p1 p2 p3 = elim (Bool-cases (has b':' host)) [
  | inl colon ↦ rw (colon) (
      ap (λ s. split_host_port (b'[' ∷ s)) (append_mid host (b':' ∷ port) b']')
      ∙ split_at_colon (b'[' ∷ (host ++ b']' ∷ [])) port p3
      ∙ front_bracketed host port h1 h2 p1 p2)
  | inr none_there ↦
      rw none_there (split_at_colon host port p3 ∙ front_plain host port h1 h2 none_there p1 p2)
]

-- A host and a port that `JoinHostPort` keeps apart.
pub record IsPair (host port : Text) : Type 0 where
  pub host_open : has b'[' host ≡ false
  pub host_close : has b']' host ≡ false
  pub port_open : has b'[' port ≡ false
  pub port_close : has b']' port ≡ false
  pub port_colon : has b':' port ≡ false

-- `dataAddr` of two addresses as `net.JoinHostPort` makes them, of hosts and ports without
-- brackets and ports without colons, is the address that `net.JoinHostPort` makes of the first host
-- and the second port, and `net.SplitHostPort` gets that host and that port back from it. A host may
-- be an IPv6 address.
pub data_addr-join :
    (host port any_host data_end : Text)
    → IsPair host port
    → IsPair any_host data_end
    → (data_addr (join_host_port host port) (join_host_port any_host data_end)
        ≡ join_host_port host data_end)
      × (split_host_port (join_host_port host data_end) ≡ some (host, data_end))
unfolding data_addr
data_addr-join host port any_host data_end c d = (
  rw (split-join host port c.host_open c.host_close c.port_open c.port_close c.port_colon) (
      rw
        (split-join any_host data_end d.host_open d.host_close d.port_open d.port_close
          d.port_colon)
        refl),
  split-join host data_end c.host_open c.host_close d.port_open d.port_close d.port_colon,
)
