-- ===== src/Moderation/Trail.antt =====
-- The requests of a moderator to crates/application/src/moderation.rs, and the audit events that
-- they leave.
use bikenest.Base.{
  ◌≡◌, refl, ap, ℕ, true, false, List, [], ◌∷◌, ◌++◌, Option, some, ◌⊎◌, Bool-cases, inl, inr,
}
use bikenest.Base.Action.{ok, err, go_on, raise_if, or_raise, answer, ◌>>=◌, ◌>>◌}
use bikenest.Base.Text.{Text, codes}
use bikenest.Base.Json.{Json}
use bikenest.Auth.{User}
use bikenest.Parking.{active, invalid, removed, PhotoKind, Audit, Report, Store, Outside}
use bikenest.Moderation.{
  Outcome, Call, ModerationError, ReportOutcome, self_resolve, not_found, not_authorized,
}
use bikenest.Moderation.Reports.{by_user, resolve, get_report_row}
use bikenest.Moderation.Merge.{ProposalOverride, merge, application_kind}
use bikenest.Moderation.Approval
use bikenest.Moderation.Service.{
  is_moderator, require_moderator, audit, claim_report, resolve_report, hide_if, resolve_found,
  action_of, about,
}
use bikenest.Moderation.Content
use bikenest.Moderation.Silent.{
  Silent, approve_proposal-Silent, claim-Silent, hide_if-Silent, hide_photo-Silent,
  hide_review-Silent, or_raise-Silent, raise_if-Silent, reject_proposal-Silent,
  require_moderator-Silent, resolve-Silent, restore_photo-Silent, restore_review-Silent,
  set_parking_state-Silent,
}

pub data Request : Type 0 where
  claim_it : ℕ → Request
  resolve_it : ℕ → ReportOutcome → Text → Request
  hide_it restore_it : ℕ → Request
  hide_picture restore_picture : PhotoKind → ℕ → Request
  invalidate_it reopen_it : ℕ → Request
  approve_it : ℕ → ProposalOverride → Request
  reject_it : ℕ → Text → Request

unfoldable pub perform : Outside → ℕ → User → Request → Call (Unit {0})
unfolding claim_report resolve_report Content.hide_review Content.restore_review Content.hide_photo
    Content.restore_photo Content.invalidate_parking Content.restore_parking
    Content.approve_proposal Content.reject_proposal
perform o now u (claim_it id) = claim_report now u id
perform o now u (resolve_it id outcome note) = resolve_report o now u id outcome note
perform o now u (hide_it id) = Content.hide_review now u id
perform o now u (restore_it id) = Content.restore_review now u id
perform o now u (hide_picture kind id) = Content.hide_photo now u kind id
perform o now u (restore_picture kind id) = Content.restore_photo now u kind id
perform o now u (invalidate_it id) = Content.invalidate_parking o now u id
perform o now u (reopen_it id) = Content.restore_parking o now u id
perform o now u (approve_it id over) = Content.approve_proposal o now u id over
perform o now u (reject_it id reason) = Content.reject_proposal now u id reason

-- A result and the events it leaves: one more, by the moderator, or none.
abbrev pub Recorded : User → List Audit → Outcome (Unit {0}) × Store → Type 0
Recorded u before (ok _, t) =
    (e : Audit) × (t.audits ≡ before ++ e ∷ []) × (e.actor ≡ some u.account.id)
Recorded u before (err _, t) = t.audits ≡ before

abbrev Logged : User → Call (Unit {0}) → Type 0
Logged u m = (s : Store) (before : List Audit) → s.audits ≡ before → Recorded u before (m s)

audit-Logged : (u : User) (a k : Text) (id : ℕ) (j : Json) → Logged u (audit u a k id j)
unfolding audit
audit-Logged u a k id j s before h =
    let e : Audit = record {
      actor = some u.account.id;
      action = a;
      target_type = k;
      target_id = id;
      metadata = j;
    } in
    (e, ap (λ l. l ++ e ∷ []) h, refl)

go_on-Logged :
    {A : Type 0} (u : User) (f : A → Call (Unit {0})) (r : Outcome A) (s : Store)
    (before : List Audit)
    → ((a : A) → Logged u (f a))
    → s.audits ≡ before
    → Recorded u before (go_on f r s)
go_on-Logged u f (ok a) s before k h = k a s before h
go_on-Logged u f (err e) s before k h = h

>>=-Logged :
    {A : Type 0} (u : User) (m : Call A) (f : A → Call (Unit {0}))
    → Silent m
    → ((a : A) → Logged u (f a))
    → Logged u (m >>= f)
>>=-Logged u m f q k s before h = go_on-Logged u f (m s).0 (m s).1 before k (q before s h)

-- A silent action and then an event, for a moderator.
guarded-Logged :
    (u : User) (m : Call (Unit {0})) (a k : Text) (id : ℕ) (j : Json)
    → Silent m
    → Logged u (require_moderator u >> (m >> audit u a k id j))
guarded-Logged u m a k id j q =
    >>=-Logged u (require_moderator u) (λ _. m >> audit u a k id j) (require_moderator-Silent u)
      λ _. >>=-Logged u m (λ _. audit u a k id j) q λ _. audit-Logged u a k id j

-- What is read for a moderator, and what is done with it.
found-Logged :
    {A : Type 0} (u : User) (m : Call (Option A)) (e : ModerationError) (f : A → Call (Unit {0}))
    → Silent m
    → ((a : A) → Logged u (f a))
    → Logged u (require_moderator u >> (m >>= λ found. or_raise found e >>= f))
found-Logged u m e f q k =
    >>=-Logged u (require_moderator u) (λ _. m >>= λ found. or_raise found e >>= f)
      (require_moderator-Silent u)
      λ _.
        >>=-Logged u m (λ found. or_raise found e >>= f) q
          λ found. >>=-Logged u (or_raise found e) f (or_raise-Silent found e) k

module _ (o : Outside) (now : ℕ) (u : User) where
  resolve_found-Logged :
      (id : ℕ) (out : ReportOutcome) (note : Text) (r : Report)
      → Logged u (resolve_found o now u id out note r)
  unfolding resolve_found
  resolve_found-Logged id out note r =
      let end = audit u (action_of o out) (codes "report") id (about r.target_type r.target_id) in
      >>=-Logged u (raise_if (by_user u.account.id r.reporter_id) self_resolve)
        (λ _. resolve now id u.account.id note out >> (hide_if o out now r u.account.id >> end))
        (raise_if-Silent (by_user u.account.id r.reporter_id) self_resolve)
        λ _.
          >>=-Logged u (resolve now id u.account.id note out)
            (λ _. hide_if o out now r u.account.id >> end)
            (resolve-Silent now id u.account.id note out)
            λ _.
              >>=-Logged u (hide_if o out now r u.account.id) (λ _. end)
                (hide_if-Silent o out now r u.account.id) λ _. audit-Logged u _ _ id _

  approve_found-Logged :
      (id : ℕ) (over : ProposalOverride) (p : Approval.Proposal)
      → Logged u (Content.approve_found o now u id over p)
  unfolding Content.approve_found
  approve_found-Logged id over p =
      >>=-Logged u (answer (merge o p.kind p.change over))
        (λ a.
          Approval.approve_proposal o now id u.account.id a
          >> audit u (codes "proposal.approved") (codes "parking_proposal") id
              (Content.kind_of (application_kind a)))
        (λ before s h. h)
        λ a.
          >>=-Logged u (Approval.approve_proposal o now id u.account.id a)
            (λ _.
              audit u (codes "proposal.approved") (codes "parking_proposal") id
                (Content.kind_of (application_kind a)))
            (approve_proposal-Silent o now id u.account.id a) λ _. audit-Logged u _ _ id _

  perform-Logged : (r : Request) → Logged u (perform o now u r)
  unfolding perform claim_report resolve_report Content.hide_review Content.restore_review
      Content.hide_photo Content.restore_photo Content.invalidate_parking Content.restore_parking
      Content.approve_proposal Content.reject_proposal
  perform-Logged (claim_it id) = guarded-Logged u _ _ _ id _ (claim-Silent now id u.account.id)
  perform-Logged (resolve_it id out note) =
      found-Logged u (get_report_row id) not_found (resolve_found o now u id out note)
        (λ before s h. h) (resolve_found-Logged id out note)
  perform-Logged (hide_it id) = guarded-Logged u _ _ _ id _ (hide_review-Silent now id)
  perform-Logged (restore_it id) = guarded-Logged u _ _ _ id _ (restore_review-Silent now id)
  perform-Logged (hide_picture kind id) =
      guarded-Logged u _ _ _ id _ (hide_photo-Silent now kind id u.account.id)
  perform-Logged (restore_picture kind id) =
      guarded-Logged u _ _ _ id _ (restore_photo-Silent now kind id u.account.id)
  perform-Logged (invalidate_it id) =
      guarded-Logged u _ _ _ id _
        (set_parking_state-Silent o now id (active ∷ []) invalid u.account.id)
  perform-Logged (reopen_it id) =
      guarded-Logged u _ _ _ id _
        (set_parking_state-Silent o now id (invalid ∷ removed ∷ []) active u.account.id)
  perform-Logged (approve_it id over) =
      found-Logged u (Approval.get_proposal id) not_found (Content.approve_found o now u id over)
        (λ before s h. h) (approve_found-Logged id over)
  perform-Logged (reject_it id reason) =
      guarded-Logged u _ _ _ id _ (reject_proposal-Silent now id u.account.id)

  -- Without the role, nothing is done.
  refused :
      (m : Call (Unit {0})) (s : Store)
      → is_moderator u ≡ false
      → (require_moderator u >> m) s ≡ (err not_authorized, s)
  unfolding require_moderator
  refused m s e = rw e refl

  perform-refused :
      (r : Request) (s : Store)
      → is_moderator u ≡ false
      → perform o now u r s ≡ (err not_authorized, s)
  unfolding perform claim_report resolve_report Content.hide_review Content.restore_review
      Content.hide_photo Content.restore_photo Content.invalidate_parking Content.restore_parking
      Content.approve_proposal Content.reject_proposal
  perform-refused (claim_it id) s e = refused _ s e
  perform-refused (resolve_it id out note) s e = refused _ s e
  perform-refused (hide_it id) s e = refused _ s e
  perform-refused (restore_it id) s e = refused _ s e
  perform-refused (hide_picture kind id) s e = refused _ s e
  perform-refused (restore_picture kind id) s e = refused _ s e
  perform-refused (invalidate_it id) s e = refused _ s e
  perform-refused (reopen_it id) s e = refused _ s e
  perform-refused (approve_it id over) s e = refused _ s e
  perform-refused (reject_it id reason) s e = refused _ s e

-- Every request leaves one audit event, by the user, if it succeeds, and none if it fails; a user who
-- is no moderator is refused with nothing changed.
pub perform-Recorded :
    (o : Outside) (now : ℕ) (u : User) (r : Request) (s : Store)
    → Recorded u s.audits (perform o now u r s)
      × ((is_moderator u ≡ true) ⊎ (perform o now u r s ≡ (err not_authorized, s)))
perform-Recorded o now u r s = (
  perform-Logged o now u r s s.audits refl,
  elim (Bool-cases (is_moderator u)) [
    | inl e ↦ inl e
    | inr e ↦ inr (perform-refused o now u r s e)
  ],
)
