-- ===== src/Moderation/Resolution.antt =====
-- `resolve_report` of crates/application/src/moderation.rs, through to the content that was reported.
use bikenest.Base.{
  ◌≡◌, refl, sym, ap, ◌∙◌, ℕ, Bool, true, false, List, [], ◌∷◌, some, ◌==◌, arith, any, first,
  Bool-cases, Option-cases, inl, inr,
}
use bikenest.Base.Action.{ok, >>=-ok, ◌>>◌}
use bikenest.Base.Text.{Text, codes}
use bikenest.Base.Json.{Json}
use bikenest.Base.Table.{update, any-update_all, any-first-none}
use bikenest.Auth.{User}
use bikenest.Parking.{
  ModerationState, active, pending_review, flagged, invalid, removed, PhotoModerationState,
  photo_approved, photo_hidden, PhotoKind, of_parking, of_review, ReviewState, review_active,
  review_hidden, ReportTargetType, parking, parking_photo, review, review_photo, under_review,
  Location, Report, Store, Outside,
}
use bikenest.Moderation.{Outcome, Call, ReportOutcome, as_resolved, as_dismissed}
use bikenest.Moderation.Reports.{by_user, report_in, get_report_row, resolve, closed}
use bikenest.Moderation.Actions
use bikenest.Moderation.Service.{
  is_moderator, require_moderator, hide_target, hide_resolved_target, hide_if, tolerated,
  resolve_found, resolve_report, audit, action_of, about,
}

-- Whether the content that a report is about can be seen by everyone.
abbrev pub visible : ReportTargetType → ℕ → Store → Bool
visible parking id s = any (Actions.location_in (active ∷ []) id) s.locations
visible parking_photo id s = any (Actions.photo_in photo_approved id) s.parking_photos
visible review id s = any (Actions.review_in review_active id) s.reviews
visible review_photo id s = any (Actions.photo_in photo_approved id) s.review_photos

hide_review-visible :
    (now id : ℕ) (s : Store) → visible review id (Actions.hide_review now id s).1 ≡ false
unfolding Actions.hide_review Actions.turn_review
hide_review-visible now id s = elim (Bool-cases (visible review id s)) [
  | inl e ↦ rw e (
      any-update_all (Actions.review_in review_active id) (Actions.review_in review_active id)
        (Actions.turned now review_hidden) s.reviews (λ r h. ground arith) (λ r h. h))
  | inr e ↦ rw e e
]

hide_photo-visible :
    (now : ℕ) (kind : PhotoKind) (id m : ℕ) (s : Store)
    → any
        (Actions.photo_in photo_approved id)
        (Actions.photos_of kind (Actions.hide_photo now kind id m s).1)
      ≡ false
unfolding Actions.hide_photo Actions.turn_photo
hide_photo-visible now of_parking id m s = elim (Bool-cases (visible parking_photo id s)) [
  | inl e ↦ rw e (
      any-update_all (Actions.photo_in photo_approved id) (Actions.photo_in photo_approved id)
        (Actions.reviewed now m photo_hidden) s.parking_photos (λ r h. ground arith) (λ r h. h))
  | inr e ↦ rw e e
]
hide_photo-visible now of_review id m s = elim (Bool-cases (visible review_photo id s)) [
  | inl e ↦ rw e (
      any-update_all (Actions.photo_in photo_approved id) (Actions.photo_in photo_approved id)
        (Actions.reviewed now m photo_hidden) s.review_photos (λ r h. ground arith) (λ r h. h))
  | inr e ↦ rw e e
]

module _ (o : Outside) where
  invalidate-visible :
      (now id m : ℕ) (s : Store)
      → tolerated (Actions.set_parking_state o now id (active ∷ []) invalid m s).0 ≡ ok tt
      → visible parking id (Actions.set_parking_state o now id (active ∷ []) invalid m s).1 ≡ false
  unfolding Actions.set_parking_state Actions.update_location Actions.insert_revision
      bikenest.Parking.Revisions.append_revision
  invalidate-visible now id m s h =
      elim (Option-cases (first (Actions.location_in (active ∷ []) id) s.locations)) [
        | inl e ↦
            ground (arith, e, any-first-none (Actions.location_in (active ∷ []) id) s.locations)
        | inr (l, e) ↦ ground (
          arith,
          e,
          h,
          any-update_all (Actions.location_in (active ∷ []) id)
              (Actions.location_in (active ∷ []) id) (Actions.with_state now invalid) s.locations
              (λ r k. ground arith) (λ r k. k),
        )
      ]

  hide_target-visible :
      (now : ℕ) (k : ReportTargetType) (id m : ℕ) (s : Store)
      → tolerated (hide_target o now k id m s).0 ≡ ok tt
      → visible k id (hide_target o now k id m s).1 ≡ false
  unfolding hide_target
  hide_target-visible now parking id m s h = invalidate-visible now id m s h
  hide_target-visible now parking_photo id m s h = hide_photo-visible now of_parking id m s
  hide_target-visible now review id m s h = hide_review-visible now id s
  hide_target-visible now review_photo id m s h = hide_photo-visible now of_review id m s

  hide_target-reports :
      (now : ℕ) (k : ReportTargetType) (id m : ℕ) (s : Store)
      → (hide_target o now k id m s).1.reports ≡ s.reports
  unfolding hide_target Actions.set_parking_state Actions.update_location Actions.insert_revision
      bikenest.Parking.Revisions.append_revision Actions.hide_photo Actions.turn_photo
      Actions.hide_review Actions.turn_review
  hide_target-reports now parking id m s = ground arith
  hide_target-reports now parking_photo id m s = ground arith
  hide_target-reports now review id m s = ground arith
  hide_target-reports now review_photo id m s = ground arith

  -- What a resolution that succeeds found and what it left.
  pub record Ended (u : User) (id : ℕ) (out : ReportOutcome) (s t : Store) : Type 0 where
    pub report : Report
    pub by_moderator : is_moderator u ≡ true
    pub found : first (λ r. r.id == id) s.reports ≡ some report
    pub not_own : by_user u.account.id report.reporter_id ≡ false
    pub was_claimed : any (report_in under_review id) s.reports ≡ true
    pub no_more : any (report_in under_review id) t.reports ≡ false
    pub hidden : out ≡ as_resolved → visible report.target_type report.target_id t ≡ false

  resolve-facts :
      (now : ℕ) (u : User) (id : ℕ) (out : ReportOutcome) (note : Text) (s : Store)
      → (resolve_report o now u id out note s).0 ≡ ok tt
      → (is_moderator u ≡ true)
        × ((r : Report) × (first (λ r. r.id == id) s.reports ≡ some r)
            × (by_user u.account.id r.reporter_id ≡ false)
            × (any (report_in under_review id) s.reports ≡ true))
  unfolding resolve_report require_moderator get_report_row resolve_found resolve
  resolve-facts now u id out note s h = elim (Bool-cases (is_moderator u)) [
    | inr e ↦ absurd (ground (arith, e, h))
    | inl e ↦ elim (Option-cases (first (λ r. r.id == id) s.reports)) [
      | inl f ↦ absurd (ground (arith, e, f, h))
      | inr (r, f) ↦ elim (Bool-cases (by_user u.account.id r.reporter_id)) [
        | inl g ↦ absurd (ground (arith, e, f, g, h))
        | inr g ↦ elim (Bool-cases (any (report_in under_review id) s.reports)) [
          | inl k ↦ (e, (r, f, g, k))
          | inr k ↦ absurd (ground (arith, e, f, g, k, h))
        ]
      ]
    ]
  ]

  -- The store once the report is closed.
  abbrev closed_store : ℕ → User → ℕ → ReportOutcome → Text → Store → Store
  closed_store now u id out note s = record s {
    reports = update (report_in under_review id) (closed now u.account.id note out) s.reports;
  }

  abbrev ending : User → ℕ → ReportOutcome → Report → Call (Unit {0})
  ending u id out r =
      audit u (action_of o out) (codes "report") id (about r.target_type r.target_id)

  resolve-run :
      (now : ℕ) (u : User) (id : ℕ) (out : ReportOutcome) (note : Text) (s : Store) (r : Report)
      → is_moderator u ≡ true
      → first (λ r. r.id == id) s.reports ≡ some r
      → by_user u.account.id r.reporter_id ≡ false
      → any (report_in under_review id) s.reports ≡ true
      → resolve_report o now u id out note s
        ≡ (hide_if o out now r u.account.id >> ending u id out r) (closed_store now u id out note s)
  unfolding resolve_report require_moderator get_report_row resolve_found resolve
  resolve-run now u id out note s r e f g k = rw e (rw f (rw g (rw k refl)))

  closed-none :
      (now m id : ℕ) (note : Text) (out : ReportOutcome) (rs : List Report)
      → any
          (report_in under_review id)
          (update (report_in under_review id) (closed now m note out) rs)
        ≡ false
  closed-none now m id note as_resolved rs =
      any-update_all (report_in under_review id) (report_in under_review id)
        (closed now m note as_resolved) rs (λ r h. ground arith) (λ r h. h)
  closed-none now m id note as_dismissed rs =
      any-update_all (report_in under_review id) (report_in under_review id)
        (closed now m note as_dismissed) rs (λ r h. ground arith) (λ r h. h)

  hide_if-reports :
      (out : ReportOutcome) (now : ℕ) (r : Report) (m : ℕ) (s : Store)
      → (hide_if o out now r m s).1.reports ≡ s.reports
  unfolding hide_resolved_target
  hide_if-reports as_resolved now r m s = hide_target-reports now r.target_type r.target_id m s
  hide_if-reports as_dismissed now r m s = refl

  hide_if-hidden :
      (out : ReportOutcome) (now : ℕ) (r : Report) (m : ℕ) (s : Store)
      → (hide_if o out now r m s).0 ≡ ok tt
      → out ≡ as_resolved
      → visible r.target_type r.target_id (hide_if o out now r m s).1 ≡ false
  unfolding hide_resolved_target
  hide_if-hidden as_resolved now r m s h e = hide_target-visible now r.target_type r.target_id m s h
  hide_if-hidden as_dismissed now r m s h e = absurd (ground (arith, e))

  audit-visible :
      (u : User) (a k : Text) (id : ℕ) (j : Json) (t : ReportTargetType) (i : ℕ) (s : Store)
      → visible t i (audit u a k id j s).1 ≡ visible t i s
  unfolding audit
  audit-visible u a k id j parking i s = refl
  audit-visible u a k id j parking_photo i s = refl
  audit-visible u a k id j review i s = refl
  audit-visible u a k id j review_photo i s = refl

  audit-reports :
      (u : User) (a k : Text) (id : ℕ) (j : Json) (s : Store)
      → (audit u a k id j s).1.reports ≡ s.reports
  unfolding audit
  audit-reports u a k id j s = refl

  -- A resolution succeeds for a moderator who did not write the report, while it is under review,
  -- which it then is no longer. If the report was upheld, what it is about is no longer visible.
  pub resolve_report-Ended :
      (now : ℕ) (u : User) (id : ℕ) (out : ReportOutcome) (note : Text) (s : Store)
      → (resolve_report o now u id out note s).0 ≡ ok tt
      → Ended u id out s (resolve_report o now u id out note s).1
  resolve_report-Ended now u id out note s h =
      let (e, (r, f, g, k)) = resolve-facts now u id out note s h in
      let run = resolve-run now u id out note s r e f g k in
      let c = closed_store now u id out note s in
      let hide = hide_if o out now r u.account.id in
      let (a, q, x, z) =
        >>=-ok hide (λ _. ending u id out r) tt c
          (sym (ap (λ (y : Outcome Unit × Store). y.0) run) ∙ h) in
      let w = ap (λ (y : Outcome Unit × Store). y.1) run ∙ z in
      let t = (hide c).1 in
      record {
        report = r;
        by_moderator = e;
        found = f;
        not_own = g;
        was_claimed = k;
        no_more =
            ap (λ (y : Store). any (report_in under_review id) y.reports) w
            ∙ ap (any (report_in under_review id)) (
                audit-reports u (action_of o out) (codes "report") id
                  (about r.target_type r.target_id) t
                ∙ hide_if-reports out now r u.account.id c)
            ∙ closed-none now u.account.id id note out s.reports;
        hidden = λ d.
            ap (visible r.target_type r.target_id) w
            ∙ audit-visible u (action_of o out) (codes "report") id
                (about r.target_type r.target_id) r.target_type r.target_id t
            ∙ hide_if-hidden out now r u.account.id c q d;
      }
