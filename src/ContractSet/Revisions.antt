-- ===== src/ContractSet/Revisions.antt =====
-- modules/manager/contractor/contractset/contract.go: how a contract takes over the host's revision.
use sia_satellite.Prelude.{
  ℕ, ◌+◌, ◌≤◌, ◌<◌, ◌≡◌, refl, sym, ap, ◌∙◌, ◌≢◌, inl, inr, Bool, true, false, ◌&&◌, Option, none,
  some, List, [], ◌∷◌, arith, ltb, ◌==◌, if◌then◌else◌, ltb→lt, ltb→le, Bool-cases, length, ◌>>=◌,
  Succeeds, Ensures-some, Succeeds-known,
}
use sia_satellite.Currency.{currency_limit, Currency, CurrencyLaws, add_fits}
use sia_satellite.ContractSet.{
  Revision, Header, SyncError, no_revisions, wrong_outputs, wrong_keys, contract_not_found,
  not_saved, revision_number_mismatch, first_of, last_revision, set_first, newer_signatures,
  overwritten, add_spending, take_over, sync_revision,
}

-- The host's revision is the first one now, at a number that is not lower than ours was.
pub record Accepts (rev : Revision) (sigs : List ℕ) (revs : List Revision) (old_sigs : List ℕ)
    (h' : Header) : Type 0 where
  pub first : last_revision h' ≡ some rev
  pub not_lower :
      (ours : Revision)
      → old_sigs ≢ []
      → first_of revs ≡ some ours
      → ours.revision_number ≤ rev.revision_number
  pub newer : sigs ≢ [] → h'.signatures ≡ sigs

abbrev pub number_of : Option Revision → Option ℕ
number_of none = none
number_of (some rev) = some rev.revision_number

-- The revision and the signatures stay: ours is signed, and has a higher number than the host's.
abbrev pub Refuses : Revision → List Revision → List ℕ → Header → ℕ → ℕ → Type 0
Refuses rev revs old_sigs h' ours theirs =
    (h'.revisions ≡ revs)
    × (h'.signatures ≡ old_sigs)
    × (old_sigs ≢ [])
    × (number_of (first_of revs) ≡ some ours)
    × (theirs ≡ rev.revision_number)
    × (theirs < ours)

abbrev pub Syncs : Revision → List ℕ → List Revision → List ℕ → Header × Option SyncError → Type 0
Syncs rev sigs revs old_sigs (h', none) = Accepts rev sigs revs old_sigs h'
Syncs rev sigs revs old_sigs (h', some not_saved) = Accepts rev sigs revs old_sigs h'
Syncs rev sigs revs old_sigs (h', some (revision_number_mismatch ours theirs)) =
    Refuses rev revs old_sigs h' ours theirs
Syncs rev sigs revs old_sigs (h', some no_revisions) = ⊥
Syncs rev sigs revs old_sigs (h', some wrong_outputs) = ⊥
Syncs rev sigs revs old_sigs (h', some wrong_keys) = ⊥
Syncs rev sigs revs old_sigs (h', some contract_not_found) = ⊥

set_first-first :
    (rev : Revision) (revs : List Revision) (ours : Revision)
    → first_of revs ≡ some ours
    → first_of (set_first rev revs) ≡ some rev
set_first-first rev [] ours e = cc
set_first-first rev (old ∷ revs) ours e = refl

newer_signatures_given : (sigs old : List ℕ) → sigs ≢ [] → newer_signatures sigs old ≡ sigs
newer_signatures_given [] old n = absurd (n refl)
newer_signatures_given (s ∷ sigs) old n = refl

overwritten-Accepts :
    (rev : Revision) (sigs : List ℕ) (h : Header) (ours : Revision)
    → last_revision h ≡ some ours
    → ours.revision_number ≤ rev.revision_number
    → Accepts rev sigs h.revisions h.signatures (overwritten rev sigs h)
overwritten-Accepts rev sigs h ours e le = record {
  first = set_first-first rev h.revisions ours e;
  not_lower = λ ours' n e'.
      Ensures-some (λ (o : Revision). o.revision_number ≤ rev.revision_number) (some ours) le
        (sym e ∙ e');
  newer = newer_signatures_given sigs h.signatures;
}

save_result-Syncs :
    (b : Bool) (rev : Revision) (sigs : List ℕ) (revs : List Revision) (old_sigs : List ℕ)
    (h' : Header)
    → Accepts rev sigs revs old_sigs h'
    → Syncs rev sigs revs old_sigs (h', if b then some not_saved else none)
save_result-Syncs true rev sigs revs old_sigs h' a = a
save_result-Syncs false rev sigs revs old_sigs h' a = a

take_over-Syncs :
    (b : Bool) (rev : Revision) (sigs : List ℕ) (h : Header) (ours : Revision)
    → last_revision h ≡ some ours
    → h.signatures ≢ []
    → Syncs rev sigs h.revisions h.signatures (take_over b rev sigs h ours)
unfolding take_over
take_over-Syncs b rev sigs h ours e n =
    elim (Bool-cases (
      (rev.revision_number == ours.revision_number)
      && (rev.file_merkle_root == ours.file_merkle_root))) [
        | inl q ↦ rw (q, take_over) (overwritten-Accepts rev sigs h ours e (ground arith))
        | inr q ↦ elim (Bool-cases (ltb rev.revision_number ours.revision_number)) [
          | inl l ↦ rw (q, l, take_over) (refl, refl, n, ap number_of e, refl, ltb→lt _ _ l)
          | inr l ↦
              rw (q, l, take_over)
                (save_result-Syncs b rev sigs h.revisions h.signatures (overwritten rev sigs h)
                  (overwritten-Accepts rev sigs h ours e (ltb→le _ _ l)))
        ]
      ]

-- The header with the spending added.
abbrev pub spent : ℕ → ℕ → ℕ → Header → Header
spent uploads downloads funding h = record h {
  upload_spending = h.upload_spending + uploads;
  download_spending = h.download_spending + downloads;
  fund_account_spending = h.fund_account_spending + funding;
}

-- Room for the spending in 128 bits.
abbrev pub HasRoom : ℕ → ℕ → ℕ → Header → Type 0
HasRoom uploads downloads funding h =
    (h.upload_spending + uploads < currency_limit)
    × (h.download_spending + downloads < currency_limit)
    × (h.fund_account_spending + funding < currency_limit)

signed_not_empty : (s : ℕ) (ss : List ℕ) → (s ∷ ss) ≢ []
signed_not_empty s ss e = absurd (ground (arith, ap length e))

module _ (c : Currency) (laws : CurrencyLaws c) where
  add_spending_exact :
      (u d f : ℕ) (h : Header) → HasRoom u d f h → add_spending c u d f h ≡ some (spent u d f h)
  unfolding add_spending
  add_spending_exact u d f h (ru, rd, rf) =
      rw (add_fits c laws _ _ ru, add_fits c laws _ _ rd, add_fits c laws _ _ rf) refl

  signed-Syncs :
      (b : Bool) (rev : Revision) (sigs : List ℕ) (h : Header) (ours : Revision) (l : List ℕ)
      → h.signatures ≡ l
      → last_revision h ≡ some ours
      → Succeeds (Syncs rev sigs h.revisions h.signatures) (elim l [
        | [] ↦ some (record h { revisions = rev ∷ []; signatures = sigs }, none)
        | s ∷ ss ↦ (do ours ← last_revision h; some (take_over b rev sigs h ours))
      ])
  signed-Syncs b rev sigs h ours [] e o = record {
    first = refl;
    not_lower = λ ours' n e'. absurd (n e);
    newer = λ n. refl;
  }
  signed-Syncs b rev sigs h ours (s ∷ ss) e o =
      Succeeds-known (Syncs rev sigs h.revisions h.signatures) (last_revision h) _ o (
        take_over-Syncs b rev sigs h ours o
          (λ none_left. signed_not_empty s ss (sym e ∙ none_left)))

  -- For a header with a revision, and room for the spending in 128 bits, `managedSyncRevision` does not
  -- panic. It takes over the host's revision, and its signatures if it has any, unless our revision is
  -- signed and has a higher number: then it keeps ours and returns the mismatch of the two numbers. A
  -- signed contract's revision number never decreases.
  pub sync_revision-Syncs :
      (b : Bool) (rev : Revision) (sigs : List ℕ) (u d f : ℕ) (h : Header) (ours : Revision)
      → HasRoom u d f h
      → last_revision h ≡ some ours
      → Succeeds (Syncs rev sigs h.revisions h.signatures) (sync_revision c b rev sigs u d f h)
  unfolding sync_revision
  sync_revision-Syncs b rev sigs u d f h ours room o =
      rw (add_spending_exact u d f h room)
        (signed-Syncs b rev sigs (spent u d f h) ours h.signatures refl o)
