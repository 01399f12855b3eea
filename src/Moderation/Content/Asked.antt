-- ===== src/Moderation/Content/Asked.antt =====
-- What an approval does to the location that a proposal is about, by what the proposal asked for and
-- what the moderator typed: `approve_proposal` of crates/application/src/moderation.rs down to the rows
-- of crates/infrastructure/src/moderation/actions.rs.
use bikenest.Base.{
  ◌≡◌, refl, sym, ap, subst, ◌∙◌, ℕ, suc, true, false, List, [], ◌∷◌, ◌++◌, Option, none, some,
  arith, any, first, Option-cases, inl, inr,
}
use mathlib.Core.Option.{some_inj}
use bikenest.Base.Action.{ok, answer, or_raise, ◌>>=◌, ◌>>◌, >>=-ok, ok_inj}
use bikenest.Base.Text.{codes}
use bikenest.Base.Json.{Json}
use bikenest.Auth.{User}
use bikenest.Parking.{pending, Location, ProposalRow, Revision, Store, Outside}
use bikenest.Parking.Proposals.{payload_from_json}
use bikenest.Moderation.{not_found}
use bikenest.Moderation.Merge.{ProposalOverride, ProposalApplication, merge, application_kind}
use bikenest.Moderation.Approval
use bikenest.Moderation.Approval.{
  Proposal, map_proposal, is_location, is_proposal, same_status, applied_to, joined, get_proposal,
}
use bikenest.Moderation.Approval.Applied.{
  Approved, pending_on, applied_to-id, applied_to-version, approve_proposal-Approved,
}
use bikenest.Moderation.Service.{require_moderator, audit}
use bikenest.Moderation.Content.{approve_found, approve_proposal, kind_of}
use bikenest.Moderation.Content.Changed.{Changed, merge-Changed}

module _ (o : Outside) where
  -- What an approval that succeeds found, and what it left.
  pub record Asked (id : ℕ) (u : User) (over : ProposalOverride) (s t : Store) : Type 0 where
    pub prop : ProposalRow
    pub location : Location
    pub result : Location
    pub revision : Revision
    pub found : first (is_proposal id) s.proposals ≡ some prop
    pub located : first (is_location prop.location_id) s.locations ≡ some location
    pub was_pending : same_status prop.status pending ≡ true
    pub current : prop.base_version ≡ location.version
    pub left : first (is_location location.id) t.locations ≡ some result
    pub changed :
        Changed o prop.kind (payload_from_json prop.kind prop.proposed).change over location result
    pub numbered : result.version ≡ suc location.version
    pub logged : t.revisions ≡ s.revisions ++ revision ∷ []
    pub logged_location : revision.location_id ≡ location.id
    pub logged_version : revision.version ≡ suc location.version
    pub logged_editor : revision.editor_id ≡ some u.account.id
    pub none_pending : any (pending_on location.id) t.proposals ≡ false

  joined-some :
      (ls : List Location) (found : Option ProposalRow) (p : Proposal)
      → joined ls found ≡ some p
      → (row : ProposalRow) × (found ≡ some row)
        × (p.kind ≡ row.kind)
        × (p.change ≡ (payload_from_json row.kind row.proposed).change)
  unfolding joined map_proposal
  joined-some ls none p h = absurd (ground (arith, h))
  joined-some ls (some row) p h = elim (Option-cases (first (is_location row.location_id) ls)) [
    | inl e ↦ absurd (ground (arith, e, h))
    | inr (l, e) ↦
        let q : map_proposal row l ≡ p = some_inj.0 (sym (rw (e, joined) refl) ∙ h) in
        (row, refl, sym (ap (λ (x : Proposal). x.kind) q), sym (ap (λ (x : Proposal). x.change) q))
  ]

  after_found :
      (now : ℕ) (u : User) (id : ℕ) (over : ProposalOverride) (found : Option Proposal) (s : Store)
      → ((or_raise found not_found >>= approve_found o now u id over) s).0 ≡ ok tt
      → (p : Proposal) × (found ≡ some p)
        × ((approve_found o now u id over p s).0 ≡ ok tt)
        × (((or_raise found not_found >>= approve_found o now u id over) s).1
            ≡ (approve_found o now u id over p s).1)
  after_found now u id over none s h = absurd (ground arith)
  after_found now u id over (some p) s h = (p, refl, h, refl)

  applied-Asked :
      (now : ℕ) (u : User) (id : ℕ) (over : ProposalOverride) (a : ProposalApplication)
      (p : Proposal) (j : Json) (s t : Store)
      → joined s.locations (first (is_proposal id) s.proposals) ≡ some p
      → merge o p.kind p.change over ≡ ok a
      → Approved o now id u.account.id a s t
      → Asked id u over s (audit u (codes "proposal.approved") (codes "parking_proposal") id j t).1
  unfolding audit
  applied-Asked now u id over a p j s t e m done =
      let (row, f, k, c) = joined-some s.locations (first (is_proposal id) s.proposals) p e in
      let q : row ≡ done.prop = some_inj.0 (sym f ∙ done.found) in
      let kind = k ∙ ap (λ (r : ProposalRow). r.kind) q in
      let change = c ∙ ap (λ (r : ProposalRow). (payload_from_json r.kind r.proposed).change) q in
      record {
        prop = done.prop;
        location = done.location;
        result = applied_to now a done.location;
        revision = _;
        found = done.found;
        located = done.located;
        was_pending = done.was_pending;
        current = done.current;
        left = done.moved;
        changed =
            merge-Changed o now done.prop.kind
              (payload_from_json done.prop.kind done.prop.proposed).change over a done.location
              (subst (λ d. merge o done.prop.kind d over ≡ ok a) change
                (subst (λ d. merge o d p.change over ≡ ok a) kind m));
        numbered = applied_to-version now a done.location;
        logged = done.logged;
        logged_location = applied_to-id now a done.location;
        logged_version = applied_to-version now a done.location;
        logged_editor = refl;
        none_pending = done.none_pending;
      }

  found-Asked :
      (now : ℕ) (u : User) (id : ℕ) (over : ProposalOverride) (p : Proposal) (s : Store)
      → joined s.locations (first (is_proposal id) s.proposals) ≡ some p
      → (approve_found o now u id over p s).0 ≡ ok tt
      → Asked id u over s (approve_found o now u id over p s).1
  unfolding approve_found
  found-Asked now u id over p s e h =
      let rest = λ (applied : ProposalApplication).
        Approval.approve_proposal o now id u.account.id applied
        >> audit u (codes "proposal.approved") (codes "parking_proposal") id
            (kind_of (application_kind applied)) in
      let (a, m, h', r) = >>=-ok (answer (merge o p.kind p.change over)) rest tt s h in
      let (x, k, _, r') =
        >>=-ok (Approval.approve_proposal o now id u.account.id a)
          (λ _.
            audit u (codes "proposal.approved") (codes "parking_proposal") id
              (kind_of (application_kind a)))
          tt s h' in
      subst (Asked id u over s) (sym (r ∙ r')) (
        applied-Asked now u id over a p (kind_of (application_kind a)) s
          (Approval.approve_proposal o now id u.account.id a s).1 e m
          (approve_proposal-Approved o now id u.account.id a s k))

  -- An approval that succeeds found the proposal pending and its location at the version that it was
  -- made against. It left the location at the next version with the values that the moderator typed and,
  -- where none was typed, those of the proposal: the coordinates and the time zone of a move, the state
  -- of an existence change, and the rest of these as it was. It adds one revision, by the moderator, of
  -- that version, and leaves no proposal on the location pending.
  pub approve_proposal-Asked :
      (now : ℕ) (u : User) (id : ℕ) (over : ProposalOverride) (s : Store)
      → (approve_proposal o now u id over s).0 ≡ ok tt
      → Asked id u over s (approve_proposal o now u id over s).1
  unfolding approve_proposal get_proposal require_moderator
  approve_proposal-Asked now u id over s h =
      let pick =
        λ (found : Option Proposal). or_raise found not_found >>= approve_found o now u id over in
      let (_, _, h1, r1) = >>=-ok (require_moderator u) (λ _. get_proposal id >>= pick) tt s h in
      let (found, e, h2, r2) = >>=-ok (get_proposal id) pick tt s h1 in
      let (p, f, h3, r3) = after_found now u id over found s h2 in
      subst (Asked id u over s) (sym (r1 ∙ r2 ∙ r3))
        (found-Asked now u id over p s (ok_inj e ∙ f) h3)
