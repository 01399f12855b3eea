-- ===== src/Community/Edits/Reached.antt =====
-- What keeps the version that a location has reached: the changes of a location in
-- crates/infrastructure/src/community/contribution.rs and moderation/actions.rs.
use bikenest.Base.{
  ◌≡◌, refl, ℕ, ◌≤◌, true, List, [], ◌∷◌, Option, none, some, arith, first, any, Option-cases,
  Bool-cases, inl, inr,
}
use bikenest.Base.Action.{Keeps, pure, ◌>>◌, >>=-Keeps, transaction-Keeps}
use bikenest.Base.Text.{Text, codes}
use bikenest.Base.Json.{Json}
use bikenest.Domain.Hours.{OpeningHours}
use bikenest.Parking.{ChangeKind, created, ModerationState, active, Location, Store, Outside}
use bikenest.Parking.Revisions.{at_version, append_revision}
use bikenest.Parking.Versions.{reaches, reaches-update, reaches-append}
use bikenest.Moderation.Merge.{ProposalApplication, applies_move, applies_existence}
use bikenest.Moderation.Actions
use bikenest.Moderation.Approval
use bikenest.Moderation.Approval.{applied_to}
use bikenest.Community.{ContributionError, ParkingEdit, NewParkingLocation}
use bikenest.Community.Locations.{
  editable, edited_by, update_editable, record_edit, edit_in_tx, apply_edit, create, create_in_tx,
  insert_location, new_location, write_hours, put_hours, hours_error, hour_rows, write_security,
  insert_revision, snapshot_of,
}
use bikenest.Community.Edits.{LocationOp, edits, turns, approves, adds, change}

-- The location has reached a version.
abbrev pub At : ℕ → ℕ → Store → Type 0
At id n s = reaches id n s.locations ≡ true

module _ (o : Outside) where
  apply_edit-At :
      (id n now i v : ℕ) (edit : ParkingEdit) (editor : ℕ) (s : Store)
      → At id n s
      → At id n (apply_edit o now i v edit editor s).1
  unfolding apply_edit edit_in_tx update_editable record_edit
  apply_edit-At id n now i v edit editor s h = ground (
    arith,
    h,
    reaches-update id n (editable i v) (edited_by now edit) s.locations (λ l. refl)
        (λ l. ground arith) h,
  )

  with_state-At :
      (id n now i m : ℕ) (from : List ModerationState) (to : ModerationState) (s : Store)
      → At id n s
      → At id n (Actions.set_parking_state o now i from to m s).1
  unfolding Actions.set_parking_state Actions.update_location Actions.insert_revision
      bikenest.Parking.Revisions.append_revision
  with_state-At id n now i m from to s h = ground (
    arith,
    h,
    reaches-update id n (Actions.location_in from i) (Actions.with_state now to) s.locations
        (λ l. refl) (λ l. ground arith) h,
  )

  applied-id : (now : ℕ) (a : ProposalApplication) (l : Location) → (applied_to now a l).id ≡ l.id
  applied-id now (applies_move _ _ _) l = refl
  applied-id now (applies_existence _) l = refl

  applied-version :
      (now : ℕ) (a : ProposalApplication) (l : Location) → l.version ≤ (applied_to now a l).version
  applied-version now (applies_move _ _ _) l = omega arith
  applied-version now (applies_existence _) l = omega arith

  approve_proposal-At :
      (id n now i m : ℕ) (a : ProposalApplication) (s : Store)
      → At id n s
      → At id n (Approval.approve_proposal o now i m a s).1
  unfolding Approval.approve_proposal Approval.approve_in_tx Approval.lock_location
      Actions.update_location Actions.insert_revision bikenest.Parking.Revisions.append_revision
  approve_proposal-At id n now i m a s h =
      elim (Option-cases (first (Approval.is_proposal i) s.proposals)) [
        | inl e ↦ ground (arith, e, h)
        | inr (p, e) ↦
            elim (Option-cases (first (Approval.is_location p.location_id) s.locations)) [
              | inl f ↦ ground (arith, e, f, h)
              | inr (l, f) ↦ ground (
                arith,
                e,
                f,
                h,
                reaches-update id n (Approval.location_at l.id p.base_version) (applied_to now a)
                    s.locations (applied-id now a) (applied-version now a) h,
              )
            ]
      ]

  write_hours-At : (id n i : ℕ) (hours : OpeningHours) → Keeps (At id n) (write_hours i hours)
  unfolding write_hours
  write_hours-At id n i hours s h = put_hours-At (hours_error [] (hour_rows i hours))
    where
      put_hours-At :
          (e : Option ContributionError) → At id n (put_hours i (hour_rows i hours) e s).1
      put_hours-At none = h
      put_hours-At (some e) = h

  insert_revision-At :
      (id n i version editor : ℕ) (kind : ChangeKind) (summary : Text) (j : Json)
      → Keeps (At id n) (insert_revision i version editor kind summary j)
  unfolding insert_revision append_revision
  insert_revision-At id n i version editor kind summary j s h =
      elim (Bool-cases (any (at_version i version) s.revisions)) [ inl e ↦ rw e h | inr e ↦ rw e h ]

  create_in_tx-At :
      (id n now : ℕ) (new : NewParkingLocation) (creator : ℕ) (tz : Text)
      → Keeps (At id n) (create_in_tx o now new creator tz)
  unfolding create_in_tx insert_location write_security
  create_in_tx-At id n now new creator tz =
      let P = At id n in
      let log = λ (i : ℕ). insert_revision i 1 creator created (codes "added") (
        snapshot_of o new.name new.address new.description new.parking_type new.cost new.point.lat
          new.point.lon tz new.hours new.security active) in
      let end = λ (i : ℕ). pure {S = Store} {E = ContributionError} i in
      >>=-Keeps P (insert_location now creator new tz)
        (λ i. write_hours i new.hours >> (write_security i new.security >> (log i >> end i)))
        (λ s h.
          reaches-append id n s.locations (new_location now s.next_location creator new tz ∷ []) h)
        (λ i.
          >>=-Keeps P (write_hours i new.hours)
            (λ _. write_security i new.security >> (log i >> end i))
            (write_hours-At id n i new.hours)
            (λ _.
              >>=-Keeps P (write_security i new.security) (λ _. log i >> end i) (λ s h. h)
                (λ _.
                  >>=-Keeps P (log i) (λ _. end i)
                    (insert_revision-At id n i 1 creator created (codes "added") _) (λ _ s h. h))))

  create-At :
      (id n now : ℕ) (new : NewParkingLocation) (creator : ℕ) (s : Store)
      → At id n s
      → At id n (create o now new creator s).1
  unfolding create
  create-At id n now new creator s h = elim (Option-cases new.timezone) [
    | inl e ↦ rw e h
    | inr (tz, e) ↦ rw e (
        transaction-Keeps (At id n) (create_in_tx o now new creator tz)
          (create_in_tx-At id n now new creator tz) s h)
  ]

  pub change-At : (id n : ℕ) (op : LocationOp) (s : Store) → At id n s → At id n (change o op s)
  unfolding change
  change-At id n (edits now i v edit editor) s h = apply_edit-At id n now i v edit editor s h
  change-At id n (turns now i from to m) s h = with_state-At id n now i m from to s h
  change-At id n (approves now i m a) s h = approve_proposal-At id n now i m a s h
  change-At id n (adds now new creator) s h = create-At id n now new creator s h
