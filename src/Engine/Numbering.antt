-- ===== src/Engine/Numbering.antt =====
-- internal/engine/engine.go: the IDs that `nextID` has given out, and the keys of `rules`.
use port_forwarder.Base.{ℕ, ◌<◌, ◌≤◌, ◌≡◌, refl, ◌∙◌, none, some, arith, Option-cases, inl, inr}
use port_forwarder.Base.Int.{ℤ, pos}
use port_forwarder.Base.Text.{Text, text_eq}
use port_forwarder.Base.Map.{
  Map, lookup, insert, erase, lookup-insert, lookup-erase, NodupKeys, insert-NodupKeys,
  erase-NodupKeys,
}
use port_forwarder.Decimal.{format}
use port_forwarder.Decimal.RoundTrip.{format_inj}
use port_forwarder.Engine.{Rule}

-- `nextID` is `n`, and each rule stands under its own ID, the decimal of a positive number below `n`.
pub record Numbering (n : ℕ) (next : ℤ) (rules : Map Rule) : Type 0 where
  pub counter : next ≡ pos n
  pub positive : 0 < n
  pub nodup : NodupKeys rules
  pub keyed : (k : Text) (r : Rule) → lookup k rules ≡ some r → r.id ≡ k
  pub numbered :
      (k : Text) (r : Rule) → lookup k rules ≡ some r → (i : ℕ) × (k ≡ format i) × (0 < i) × (i < n)

module _ {n : ℕ} {next : ℤ} {rules : Map Rule} (s : Numbering n next rules) where
  -- No rule has the ID that the counter stands at, or a later one.
  pub Numbering-fresh : (m : ℕ) → n ≤ m → lookup (format m) rules ≡ none
  Numbering-fresh m h = elim (Option-cases (lookup (format m) rules)) [
    | inl e ↦ e
    | inr (r, e) ↦
        let (i, same, _, below) = s.numbered (format m) r e in
        absurd (omega (arith, format_inj m i same))
  ]

  pub Numbering-insert :
      (r : Rule) (i m : ℕ)
      → r.id ≡ format i
      → 0 < i
      → i < m
      → n ≤ m
      → Numbering m (pos m) (insert r.id r rules)
  Numbering-insert r i m named above below grows = record {
    counter = refl;
    positive = omega (arith, s.positive);
    nodup = insert-NodupKeys r.id r rules s.nodup;
    keyed = λ k x p. ground (arith, lookup-insert k r.id r rules, s.keyed k x);
    numbered = λ k x p. elim (text_eq.dec k r.id) [
      | yes same ↦ (i, same ∙ named, above, below)
      | no other ↦
          let (j, is, up, down) = s.numbered k x (ground (arith, lookup-insert k r.id r rules)) in
          (j, is, up, omega arith)
    ];
  }

  -- An assignment to fields of a rule that is there, other than its ID.
  pub Numbering-put :
      (k : Text) (r r' : Rule)
      → lookup k rules ≡ some r
      → r'.id ≡ r.id
      → Numbering n next (insert k r' rules)
  Numbering-put k r r' at same = record {
    counter = s.counter;
    positive = s.positive;
    nodup = insert-NodupKeys k r' rules s.nodup;
    keyed = λ j x p. ground (arith, lookup-insert j k r' rules, s.keyed j x, s.keyed k r at);
    numbered = λ j x p. elim (text_eq.dec j k) [
      | yes e ↦ rw e (s.numbered k r at)
      | no other ↦ s.numbered j x (ground (arith, lookup-insert j k r' rules))
    ];
  }

  pub Numbering-erase : (k : Text) → Numbering n next (erase k rules)
  Numbering-erase k = record {
    counter = s.counter;
    positive = s.positive;
    nodup = erase-NodupKeys k rules s.nodup;
    keyed = λ j x p. s.keyed j x (ground (arith, lookup-erase j k rules));
    numbered = λ j x p. s.numbered j x (ground (arith, lookup-erase j k rules));
  }
