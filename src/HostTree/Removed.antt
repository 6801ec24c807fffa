-- ===== src/HostTree/Removed.antt =====
-- `SelectRandom` of hosttree.go: hosts that are taken out and inserted again leave the tree as it was.
use sia_satellite.Prelude.{
  ℕ, ◌+◌, ◌<◌, ◌≡◌, refl, sym, ap, ◌∙◌, inl, inr, Bool, true, false, Option, none, some, List, [],
  ◌∷◌, arith, ◌==◌, if◌then◌else◌, ==_iff, ==_self, Bool-cases, Succeeds, Succeeds-weaken,
  Succeeds-bind,
}
use sia_satellite.Currency.{currency_limit, Currency, CurrencyLaws}
use sia_satellite.HostTree.Nodes.{HostEntry}
use sia_satellite.HostTree.Agreement.{key}
use sia_satellite.HostTree.Refinement.{IsValid, find, total_score, Stores, Drops, put_in-Stores}
use sia_satellite.HostTree.Methods.{lookup-of-find-none}
use sia_satellite.HostTree.Random.{reinsert}
use sia_satellite.HostTree.{HostTree}

abbrev pub or_else : Option HostEntry → Option HostEntry → Option HostEntry
or_else none b = b
or_else (some a) b = some a

-- The removed entry of a key.
abbrev pub stored : ℕ → List HostEntry → Option HostEntry
stored k [] = none
stored k (e ∷ es) = if key e == k then some e else stored k es

abbrev pub sum_scores : List HostEntry → ℕ
sum_scores [] = 0
sum_scores (e ∷ es) = e.score + sum_scores es

-- Removed entries with keys of their own, which the tree does not have.
abbrev pub Apart : HostTree → List HostEntry → Type 0
Apart ht [] = Unit
Apart ht (e ∷ es) = (find ht (key e) ≡ none) × (stored (key e) es ≡ none) × Apart ht es

-- `origin`, with the removed entries out of it.
pub record Without (origin ht : HostTree) (removed : List HostEntry) : Type 0 where
  pub valid : IsValid ht
  pub found : (k : ℕ) → find origin k ≡ or_else (stored k removed) (find ht k)
  pub apart : Apart ht removed
  pub score : total_score origin ≡ total_score ht + sum_scores removed
  pub same_fn : ht.score_fn ≡ origin.score_fn

abbrev none_entry : Option HostEntry
none_entry = none

none_if : (b : Bool) → (if b then none_entry else none_entry) ≡ none_entry
none_if true = refl
none_if false = refl

Apart-Drops :
    (ht ht' : HostTree) (e : HostEntry) (removed : List HostEntry)
    → Drops ht (key e) e ht'
    → Apart ht removed
    → Apart ht' removed
Apart-Drops ht ht' e [] d a = tt
Apart-Drops ht ht' e (x ∷ xs) d (gone, own, rest) = (
  d.found (key x) ∙ ap (λ o. if key e == key x then none else o) gone ∙ none_if (key e == key x),
  own,
  Apart-Drops ht ht' e xs d rest,
)

stored-find :
    (ht : HostTree) (k : ℕ) (e : HostEntry) (removed : List HostEntry)
    → Apart ht removed
    → find ht k ≡ some e
    → stored k removed ≡ none
stored-find ht k e [] a f = refl
stored-find ht k e (x ∷ xs) (gone, own, rest) f = elim (Bool-cases (key x == k)) [
  | inl b ↦ (let z = sym gone ∙ ap (find ht) ((==_iff (key x) k).0 b) ∙ f in cc)
  | inr b ↦ rw b (stored-find ht k e xs rest f)
]

moved_out :
    (b : Bool) (e : HostEntry) (s o : Option HostEntry)
    → (b ≡ true → (s ≡ none) × (o ≡ some e))
    → or_else s o ≡ or_else (if b then some e else s) (if b then none else o)
moved_out true e s o h = rw ((h refl).0, (h refl).1) refl
moved_out false e s o h = refl

-- Taking one more host out.
pub Without-Drops :
    (origin ht ht' : HostTree) (e : HostEntry) (removed : List HostEntry)
    → Without origin ht removed
    → find ht (key e) ≡ some e
    → Drops ht (key e) e ht'
    → Without origin ht' (e ∷ removed)
Without-Drops origin ht ht' e removed w f d =
    let own = stored-find ht (key e) e removed w.apart f in
    record {
      valid = d.valid;
      found = λ k.
          w.found k
          ∙ moved_out (key e == k) e (stored k removed) (find ht k) (λ b.
            let eq = (==_iff (key e) k).0 b in
            (ap (λ j. stored j removed) (sym eq) ∙ own, ap (find ht) (sym eq) ∙ f))
          ∙ ap (or_else (stored k (e ∷ removed))) (sym (d.found k));
      apart = (
        d.found (key e) ∙ ap (λ b. if b then none else find ht (key e)) (==_self (key e)),
        own,
        Apart-Drops ht ht' e removed d w.apart,
      );
      score = omega (arith, w.score, d.score);
      same_fn = d.same_fn ∙ w.same_fn;
    }

-- `ht'` holds what `ht` holds, and the removed entries.
pub record Restores (ht : HostTree) (removed : List HostEntry) (ht' : HostTree) : Type 0 where
  pub valid : IsValid ht'
  pub found : (k : ℕ) → find ht' k ≡ or_else (stored k removed) (find ht k)
  pub score : total_score ht' ≡ total_score ht + sum_scores removed
  pub same_fn : ht'.score_fn ≡ ht.score_fn

or_else-if :
    (b : Bool) (e : HostEntry) (s o : Option HostEntry)
    → (if b then some e else or_else s o) ≡ or_else (if b then some e else s) o
or_else-if true e s o = refl
or_else-if false e s o = refl

module _ (c : Currency) (laws : CurrencyLaws c) where
  pub reinsert-Restores :
      (removed : List HostEntry) (ht : HostTree)
      → IsValid ht
      → Apart ht removed
      → total_score ht + sum_scores removed < currency_limit
      → Succeeds (Restores ht removed) (reinsert c removed ht)
  unfolding reinsert
  reinsert-Restores [] ht v a room = record {
    valid = v;
    found = λ k. refl;
    score = omega arith;
    same_fn = refl;
  }
  reinsert-Restores (e ∷ removed) ht v (gone, own, rest) room =
      Succeeds-bind (Restores ht removed) (Restores ht (e ∷ removed)) _ _
        (reinsert-Restores removed ht v rest (omega (arith, room)))
        (λ ht₁ r.
          let absent : find ht₁ (key e) ≡ none =
            r.found (key e) ∙ ap (λ o. or_else o (find ht (key e))) own ∙ gone in
          Succeeds-weaken (Stores ht₁ e) (Restores ht (e ∷ removed)) _
            (put_in-Stores c laws ht₁ e r.valid (lookup-of-find-none ht₁ (key e) r.valid absent)
              (omega (arith, r.score, room)))
            (λ ht₂ s. record {
              valid = s.valid;
              found = λ k.
                  s.found k
                  ∙ ap (λ o. if key e == k then some e else o) (r.found k)
                  ∙ or_else-if (key e == k) e (stored k removed) (find ht k);
              score = omega (arith, s.score, r.score);
              same_fn = s.same_fn ∙ r.same_fn;
            }))
