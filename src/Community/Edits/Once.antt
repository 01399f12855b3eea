-- ===== src/Community/Edits/Once.antt =====
-- One edit at most lands against one version, in crates/infrastructure/src/community/contribution.rs.
use bikenest.Base.{
  ◌≡◌, refl, sym, subst, ℕ, suc, ◌≤◌, true, false, List, [], ◌∷◌, some, ◌==◌, arith, first,
  Bool-cases, Option-cases, inl, inr, ==_iff,
}
use bikenest.Base.Action.{Outcome, ok, err, is_ok, settle}
use bikenest.Base.Table.{update, first-some, first-update, first-finer}
use bikenest.Parking.{Location, Store, Outside}
use bikenest.Parking.Versions.{reaches, reaches-first, first-reaches}
use bikenest.Parking.Revisions.{append_revision}
use bikenest.Community.{ContributionError, ParkingEdit}
use bikenest.Community.Locations.{
  same_location, is_active, editable, edited_by, update_editable, record_edit, edit_in_tx,
  apply_edit, write_hours, write_security, insert_revision,
}
use bikenest.Community.Edits.{LocationOp, edits, turns, approves, adds, change, lands, landings}
use bikenest.Community.Edits.Reached.{At, change-At}

editable-of :
    (id v : ℕ) (ls : List Location) (l : Location)
    → first (same_location id) ls ≡ some l
    → is_active l.moderation_state ≡ true
    → (l.version == v) ≡ true
    → editable id v l ≡ true
editable-of id v ls l e c d = ground (arith, c, d, first-some (same_location id) ls l e)

module _ (o : Outside) where
  -- An edit against a version that the location has passed, fails.
  passed-err :
      (now id v : ℕ) (edit : ParkingEdit) (editor : ℕ) (s : Store)
      → At id (suc v) s
      → is_ok (apply_edit o now id v edit editor s).0 ≡ false
  unfolding apply_edit edit_in_tx
  passed-err now id v edit editor s h = elim (Option-cases (first (same_location id) s.locations)) [
    | inl e ↦ ground (arith, e)
    | inr (l, e) ↦ ground (arith, e, reaches-first id (suc v) s.locations l e h)
  ]

  edited-At :
      (now id v : ℕ) (edit : ParkingEdit) (ls : List Location) (l : Location)
      → first (same_location id) ls ≡ some l
      → editable id v l ≡ true
      → reaches id (suc v) (update (editable id v) (edited_by now edit) ls) ≡ true
  edited-At now id v edit ls l e h =
      subst (λ n. reaches id (suc n) (update (editable id v) (edited_by now edit) ls) ≡ true)
        (ground (arith, h))
        (first-reaches id (update (editable id v) (edited_by now edit) ls) (edited_by now edit l) (
          first-update (same_location id) (editable id v) (edited_by now edit) ls l
            (λ x k. ground (arith, k)) (λ x k. ground (arith, k)) e h))

  edit-facts :
      (now id v : ℕ) (edit : ParkingEdit) (editor : ℕ) (s : Store)
      → is_ok (edit_in_tx o now id v edit editor s).0 ≡ true
      → (l : Location) × (first (same_location id) s.locations ≡ some l)
        × (is_active l.moderation_state ≡ true)
        × ((l.version == v) ≡ true)
  unfolding edit_in_tx
  edit-facts now id v edit editor s h = elim (Option-cases (first (same_location id) s.locations)) [
    | inl e ↦ absurd (ground (arith, e, h))
    | inr (l, e) ↦ elim (Bool-cases (is_active l.moderation_state)) [
      | inr c ↦ absurd (ground (arith, e, c, h))
      | inl c ↦ elim (Bool-cases (l.version == v)) [
        | inr d ↦ absurd (ground (arith, e, c, d, h))
        | inl d ↦ (l, e, c, d)
      ]
    ]
  ]

  first-editable :
      (id v : ℕ) (ls : List Location) (l : Location)
      → first (same_location id) ls ≡ some l
      → editable id v l ≡ true
      → first (editable id v) ls ≡ some l
  first-editable id v ls l e c =
      first-finer (same_location id) (editable id v) ls l (λ x k. ground (arith, k)) e c

  edit-run :
      (now id v : ℕ) (edit : ParkingEdit) (editor : ℕ) (s : Store) (l : Location)
      → first (same_location id) s.locations ≡ some l
      → is_active l.moderation_state ≡ true
      → (l.version == v) ≡ true
      → first (editable id v) s.locations ≡ some l
      → edit_in_tx o now id v edit editor s
        ≡ record_edit o id edit editor
            (edited_by now edit l)
            (record s { locations = update (editable id v) (edited_by now edit) s.locations })
  unfolding edit_in_tx update_editable
  edit-run now id v edit editor s l e c d f = rw e (rw c (rw d (rw f refl)))

  record_edit-locations :
      (id : ℕ) (edit : ParkingEdit) (editor : ℕ) (row : Location) (s : Store)
      → (record_edit o id edit editor row s).1.locations ≡ s.locations
  unfolding record_edit write_hours write_security insert_revision append_revision
  record_edit-locations id edit editor row s = ground arith

  -- An edit that succeeds takes the location past the version.
  edit_in_tx-At :
      (now id v : ℕ) (edit : ParkingEdit) (editor : ℕ) (s : Store)
      → is_ok (edit_in_tx o now id v edit editor s).0 ≡ true
      → At id (suc v) (edit_in_tx o now id v edit editor s).1
  edit_in_tx-At now id v edit editor s h =
      let (l, e, c, d) = edit-facts now id v edit editor s h in
      let k = editable-of id v s.locations l e c d in
      let f = first-editable id v s.locations l e k in
      rw (edit-run now id v edit editor s l e c d f) (
        subst (λ ls. reaches id (suc v) ls ≡ true)
          (sym (
            record_edit-locations id edit editor (edited_by now edit l)
              (record s { locations = update (editable id v) (edited_by now edit) s.locations })))
          (edited-At now id v edit s.locations l e k))

  settled-At :
      (id n : ℕ) (r : Outcome ContributionError ℕ) (s t : Store)
      → is_ok (settle s r t).0 ≡ true
      → (is_ok r ≡ true → At id n t)
      → At id n (settle s r t).1
  settled-At id n (ok a) s t h k = k refl
  settled-At id n (err e) s t h k = absurd (ground arith)

  lands-At :
      (now id v : ℕ) (edit : ParkingEdit) (editor : ℕ) (s : Store)
      → is_ok (apply_edit o now id v edit editor s).0 ≡ true
      → At id (suc v) (apply_edit o now id v edit editor s).1
  unfolding apply_edit
  lands-At now id v edit editor s h =
      settled-At id (suc v) (edit_in_tx o now id v edit editor s).0 s
        (edit_in_tx o now id v edit editor s).1 h (edit_in_tx-At now id v edit editor s)

  -- An operation on a location that has passed the version does not land.
  lands-passed :
      (id v : ℕ) (op : LocationOp) (s : Store) → At id (suc v) s → lands o id v op s ≡ false
  lands-passed id v (edits now i w edit editor) s h = elim (Bool-cases (i == id)) [
    | inr e ↦ ground (arith, e)
    | inl e ↦ elim (Bool-cases (w == v)) [
      | inr f ↦ ground (arith, f)
      | inl f ↦
          rw ((==_iff i id).0 e)
            (rw ((==_iff w v).0 f) (ground (arith, passed-err now id v edit editor s h)))
    ]
  ]
  lands-passed id v (turns _ _ _ _ _) s h = refl
  lands-passed id v (approves _ _ _ _) s h = refl
  lands-passed id v (adds _ _ _) s h = refl

  landings-passed :
      (id v : ℕ) (ops : List LocationOp) (s : Store) → At id (suc v) s → landings o id v ops s ≡ 0
  unfolding landings
  landings-passed id v [] s h = refl
  landings-passed id v (op ∷ ops) s h =
      rw (lands-passed id v op s h)
        (omega (arith, landings-passed id v ops (change o op s) (change-At o id (suc v) op s h)))

  lands-change :
      (id v : ℕ) (op : LocationOp) (s : Store)
      → lands o id v op s ≡ true
      → At id (suc v) (change o op s)
  unfolding change
  lands-change id v (edits now i w edit editor) s h =
      let e = (==_iff i id).0 (ground (arith, h)) in
      let f = (==_iff w v).0 (ground (arith, h)) in
      subst (λ x. At x (suc v) (apply_edit o now i w edit editor s).1) e
        (subst (λ x. At i (suc x) (apply_edit o now i w edit editor s).1) f
          (lands-At now i w edit editor s (ground (arith, h))))
  lands-change id v (turns _ _ _ _ _) s h = absurd (ground arith)
  lands-change id v (approves _ _ _ _) s h = absurd (ground arith)
  lands-change id v (adds _ _ _) s h = absurd (ground arith)

  -- In any sequence of creations, edits, moderation and approvals, from any store, one edit at most
  -- succeeds against one version of a location.
  pub landings-once : (id v : ℕ) (ops : List LocationOp) (s : Store) → landings o id v ops s ≤ 1
  unfolding landings
  landings-once id v [] s = omega arith
  landings-once id v (op ∷ ops) s = elim (Bool-cases (lands o id v op s)) [
    | inl e ↦ ground (arith, e, landings-passed id v ops (change o op s) (lands-change id v op s e))
    | inr e ↦ ground (arith, e, landings-once id v ops (change o op s))
  ]
