-- ===== src/Moderation/Approval/Applied.antt =====
-- What an approval leaves, in crates/infrastructure/src/moderation/actions.rs.
use bikenest.Base.{
  ◌≡◌, refl, sym, ap, subst, ◌∙◌, ℕ, suc, Bool, true, false, ◌&&◌, List, [], ◌∷◌, ◌++◌, some, ◌==◌,
  arith, any, first, Bool-cases, Option-cases, inl, inr, ==_iff,
}
use mathlib.Core.Option.{some_inj}
use bikenest.Base.Action.{ok, transaction-ok}
use bikenest.Base.Table.{update, first-some, first-update}
use bikenest.Parking.{pending, Location, ProposalRow, moderated, Store, Outside}
use bikenest.Parking.Snapshot.{snapshot_with}
use bikenest.Parking.Revisions.{append_revision, at_version}
use bikenest.Moderation.Merge.{ProposalApplication, applies_move, applies_existence}
use bikenest.Moderation.Actions.{update_location, insert_revision}
use bikenest.Moderation.Approval.{
  is_location, is_proposal, same_status, applied_to, summary_of, location_at, close_proposals,
  lock_location, approve_in_tx, approve_proposal,
}

-- A pending proposal on a location.
abbrev pub pending_on : ℕ → ProposalRow → Bool
pending_on location p = p.location_id == location && same_status p.status pending

pub applied_to-id :
    (now : ℕ) (a : ProposalApplication) (l : Location) → (applied_to now a l).id ≡ l.id
applied_to-id now (applies_move _ _ _) l = refl
applied_to-id now (applies_existence _) l = refl

pub applied_to-version :
    (now : ℕ) (a : ProposalApplication) (l : Location)
    → (applied_to now a l).version ≡ suc l.version
applied_to-version now (applies_move _ _ _) l = refl
applied_to-version now (applies_existence _) l = refl

close_proposals-none :
    (now id location editor : ℕ) (ps : List ProposalRow)
    → any (pending_on location) (close_proposals now id location editor ps) ≡ false
unfolding close_proposals
close_proposals-none now id location editor [] = refl
close_proposals-none now id location editor (p ∷ ps) =
    ground (arith, close_proposals-none now id location editor ps)

module _ (o : Outside) where
  -- What an approval that succeeds found and what it left.
  pub record Approved (now id editor : ℕ) (applied : ProposalApplication) (s t : Store)
      : Type 0 where
    pub prop : ProposalRow
    pub location : Location
    pub found : first (is_proposal id) s.proposals ≡ some prop
    pub located : first (is_location prop.location_id) s.locations ≡ some location
    pub was_pending : same_status prop.status pending ≡ true
    pub current : prop.base_version ≡ location.version
    pub moved : first (is_location location.id) t.locations ≡ some (applied_to now applied location)
    pub logged :
        t.revisions
        ≡ s.revisions
          ++ (record {
            location_id = (applied_to now applied location).id;
            version = (applied_to now applied location).version;
            editor_id = some editor;
            change_kind = moderated;
            summary = summary_of applied;
            snapshot =
                snapshot_with o
                  (record s {
                    locations =
                        update
                          (location_at location.id prop.base_version)
                          (applied_to now applied)
                          s.locations;
                  })
                  (applied_to now applied location);
          })
            ∷ []
    pub none_pending : any (pending_on location.id) t.proposals ≡ false

  head-located :
      (id : ℕ) (x : Location) (xs : List Location) (l : Location)
      → (x.id == id) ≡ true
      → first (is_location id) (x ∷ xs) ≡ some l
      → x ≡ l
  head-located id x xs l e h = some_inj.0 (sym (rw e refl) ∙ h)

  -- The location as the update finds it, at the version that was read.
  first-location_at :
      (id version : ℕ) (ls : List Location) (l : Location)
      → first (is_location id) ls ≡ some l
      → (version == l.version) ≡ true
      → first (location_at l.id version) ls ≡ some l
  first-location_at id version [] l h v = absurd (ground arith)
  first-location_at id version (x ∷ xs) l h v = elim (Bool-cases (x.id == id)) [
    | inl e ↦
        rw (sym (head-located id x xs l e h))
          (ground (arith, v, ap (λ (m : Location). m.version) (head-located id x xs l e h)))
    | inr e ↦
        ground (arith, e, h, v, first-some (is_location id) xs l, first-location_at id version xs l)
  ]

  found-cases :
      (now id editor : ℕ) (applied : ProposalApplication) (s : Store)
      → (approve_in_tx o now id editor applied s).0 ≡ ok tt
      → (p : ProposalRow) × (l : Location) × (first (is_proposal id) s.proposals ≡ some p)
        × (first (is_location p.location_id) s.locations ≡ some l)
  unfolding approve_in_tx lock_location
  found-cases now id editor applied s h = elim (Option-cases (first (is_proposal id) s.proposals)) [
    | inl e ↦ absurd (ground (arith, e, h))
    | inr (p, e) ↦ elim (Option-cases (first (is_location p.location_id) s.locations)) [
      | inl f ↦ absurd (ground (arith, e, f, h))
      | inr (l, f) ↦ (p, l, e, f)
    ]
  ]

  status-cases :
      (now id editor : ℕ) (applied : ProposalApplication) (s : Store) (p : ProposalRow)
      (l : Location)
      → first (is_proposal id) s.proposals ≡ some p
      → first (is_location p.location_id) s.locations ≡ some l
      → (approve_in_tx o now id editor applied s).0 ≡ ok tt
      → (same_status p.status pending ≡ true) × ((p.base_version == l.version) ≡ true)
  unfolding approve_in_tx lock_location
  status-cases now id editor applied s p l e f h =
      elim (Bool-cases (same_status p.status pending)) [
        | inl g ↦ elim (Bool-cases (p.base_version == l.version)) [
          | inl v ↦ (g, v)
          | inr v ↦ absurd (ground (arith, e, f, g, v, h))
        ]
        | inr g ↦ absurd (ground (arith, e, f, g, h))
      ]

  -- The row that the update writes, and the store that it leaves.
  abbrev row : ℕ → ProposalApplication → Location → Location
  row now applied l = applied_to now applied l

  abbrev moved_store : ℕ → ProposalApplication → ProposalRow → Location → Store → Store
  moved_store now applied p l s = record s {
    locations = update (location_at l.id p.base_version) (applied_to now applied) s.locations;
  }

  log-cases :
      (now id editor : ℕ) (applied : ProposalApplication) (s : Store) (p : ProposalRow)
      (l : Location)
      → first (is_proposal id) s.proposals ≡ some p
      → first (is_location p.location_id) s.locations ≡ some l
      → same_status p.status pending ≡ true
      → (p.base_version == l.version) ≡ true
      → first (location_at l.id p.base_version) s.locations ≡ some l
      → (approve_in_tx o now id editor applied s).0 ≡ ok tt
      → any (at_version (row now applied l).id (row now applied l).version) s.revisions ≡ false
  unfolding approve_in_tx lock_location update_location insert_revision append_revision
  log-cases now id editor applied s p l e f g v z h =
      elim (Bool-cases
        (any (at_version (row now applied l).id (row now applied l).version) s.revisions)) [
          | inl w ↦ absurd (ground (arith, e, f, g, v, z, w, h))
          | inr w ↦ w
        ]

  approve_in_tx-run :
      (now id editor : ℕ) (applied : ProposalApplication) (s : Store) (p : ProposalRow)
      (l : Location)
      → first (is_proposal id) s.proposals ≡ some p
      → first (is_location p.location_id) s.locations ≡ some l
      → same_status p.status pending ≡ true
      → (p.base_version == l.version) ≡ true
      → first (location_at l.id p.base_version) s.locations ≡ some l
      → any (at_version (row now applied l).id (row now applied l).version) s.revisions ≡ false
      → approve_in_tx o now id editor applied s ≡ (
        ok tt,
        record s {
          locations = (moved_store now applied p l s).locations;
          revisions =
              s.revisions
              ++ (record {
                location_id = (row now applied l).id;
                version = (row now applied l).version;
                editor_id = some editor;
                change_kind = moderated;
                summary = summary_of applied;
                snapshot = snapshot_with o (moved_store now applied p l s) (row now applied l);
              })
                ∷ [];
          proposals = close_proposals now id l.id editor s.proposals;
        },
      )
  unfolding approve_in_tx lock_location update_location insert_revision append_revision
  approve_in_tx-run now id editor applied s p l e f g v z w =
      rw e (rw f (rw e (rw g (rw v (rw z (rw w refl))))))

  first-moved :
      (now id version : ℕ) (applied : ProposalApplication) (ls : List Location) (l : Location)
      → first (is_location id) ls ≡ some l
      → (version == l.version) ≡ true
      → first (is_location l.id) (update (location_at l.id version) (applied_to now applied) ls)
        ≡ some (applied_to now applied l)
  first-moved now id version applied ls l f v =
      first-update (is_location l.id) (location_at l.id version) (applied_to now applied) ls l
        (λ x h. ground (arith, h)) (λ x h. ground (arith, h, applied_to-id now applied x))
        (subst (λ i. first (is_location i) ls ≡ some l)
          (sym ((==_iff l.id id).0 (first-some (is_location id) ls l f))) f)
        (ground (arith, v))

  approve_in_tx-Approved :
      (now id editor : ℕ) (applied : ProposalApplication) (s : Store)
      → (approve_in_tx o now id editor applied s).0 ≡ ok tt
      → Approved now id editor applied s (approve_in_tx o now id editor applied s).1
  approve_in_tx-Approved now id editor applied s h =
      let (p, l, e, f) = found-cases now id editor applied s h in
      let (g, v) = status-cases now id editor applied s p l e f h in
      let z = first-location_at p.location_id p.base_version s.locations l f v in
      let w = log-cases now id editor applied s p l e f g v z h in
      rw (approve_in_tx-run now id editor applied s p l e f g v z w) (record {
        prop = p;
        location = l;
        found = e;
        located = f;
        was_pending = g;
        current = (==_iff p.base_version l.version).0 v;
        moved = first-moved now p.location_id p.base_version applied s.locations l f v;
        logged = refl;
        none_pending = close_proposals-none now id l.id editor s.proposals;
      })

  -- An approval that succeeds finds the proposal pending and its location at the version that the
  -- proposal was made against. It leaves the location as the application says at the next version, a
  -- revision of it by the moderator, and no proposal on the location pending.
  pub approve_proposal-Approved :
      (now id editor : ℕ) (applied : ProposalApplication) (s : Store)
      → (approve_proposal o now id editor applied s).0 ≡ ok tt
      → Approved now id editor applied s (approve_proposal o now id editor applied s).1
  unfolding approve_proposal
  approve_proposal-Approved now id editor applied s h =
      let (k, e) = transaction-ok (approve_in_tx o now id editor applied) tt s h in
      rw e (approve_in_tx-Approved now id editor applied s k)
