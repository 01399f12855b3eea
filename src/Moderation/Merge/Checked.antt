-- ===== src/Moderation/Merge/Checked.antt =====
-- What `ProposalApplication::merge` of crates/application/src/moderation.rs lets through.
use bikenest.Base.{
  ◌≡◌, refl, sym, subst, ◌∙◌, Bool, true, not, ◌||◌, Option, none, some, arith, Bool-cases,
  Option-cases, inl, inr,
}
use bikenest.Base.Action.{ok, ok_inj}
use bikenest.Base.Text.{Text}
use bikenest.Base.F64.{F64, is_finite, within}
use bikenest.Parking.{ProposalKind, move_location, change_existence, Outside}
use bikenest.Parking.Proposals.{
  ProposedChange, moves, changes_existence, unreadable, trimmed, coords_in_range,
}
use bikenest.Moderation.Merge.{
  ProposalOverride, ProposalApplication, applies_move, applies_existence, or_else, zoned,
  merged_move, merged_flag, merge,
}

module _ (o : Outside) where
  -- A change that can be written: of the kind, on the globe and in a time zone that is known.
  abbrev pub Checked : ProposalKind → ProposalApplication → Type 0
  Checked move_location (applies_move x y tz) =
      (coords_in_range x y ≡ true) × ((name : Text) × (o.known_timezone name ≡ some tz))
  Checked move_location (applies_existence _) = ⊥
  Checked change_existence (applies_move _ _ _) = ⊥
  Checked change_existence (applies_existence _) = Unit

  zoned-run :
      (x y : F64) (name z : Text)
      → o.known_timezone name ≡ some z
      → zoned o x y (some name) ≡ ok (applies_move x y z)
  unfolding zoned
  zoned-run x y name z e = rw (e, zoned) refl

  zoned-Checked :
      (x y : F64) (tz : Option Text) (a : ProposalApplication)
      → coords_in_range x y ≡ true
      → zoned o x y tz ≡ ok a
      → Checked move_location a
  unfolding zoned
  zoned-Checked x y none a c h = absurd (ground (arith, h))
  zoned-Checked x y (some name) a c h = elim (Option-cases (o.known_timezone name)) [
    | inl e ↦ absurd (ground (arith, e, h))
    | inr (z, e) ↦
        subst (Checked move_location) (ok_inj (sym (zoned-run x y name z e) ∙ h)) (c, (name, e))
  ]

  merged_move-Checked :
      (x y : Option F64) (tz : Option Text) (a : ProposalApplication)
      → merged_move o x y tz ≡ ok a
      → Checked move_location a
  unfolding merged_move coords_in_range
  merged_move-Checked none y tz a h = absurd (ground (arith, h))
  merged_move-Checked (some x) none tz a h = absurd (ground (arith, h))
  merged_move-Checked (some x) (some y) tz a h =
      elim (Bool-cases (not (is_finite x) || not (within 90 x))) [
        | inl e ↦ absurd (ground (arith, e, h))
        | inr e ↦ elim (Bool-cases (not (is_finite y) || not (within 180 y))) [
          | inl f ↦ absurd (ground (arith, e, f, h))
          | inr f ↦
              zoned-Checked x y (trimmed tz) a (ground (arith, e, f)) (sym (rw e (rw f refl)) ∙ h)
        ]
      ]

  merged_flag-Checked :
      (b : Option Bool) (a : ProposalApplication)
      → merged_flag o b ≡ ok a
      → Checked change_existence a
  unfolding merged_flag
  merged_flag-Checked none a h = absurd (ground (arith, h))
  merged_flag-Checked (some b) a h = subst (Checked change_existence) (ok_inj h) tt

  -- Whatever was proposed and typed over it, an application that the merge makes is of the kind of the
  -- row, and a move has coordinates in range and a time zone that the library knows by some name.
  pub merge-Checked :
      (k : ProposalKind) (c : ProposedChange) (over : ProposalOverride) (a : ProposalApplication)
      → merge o k c over ≡ ok a
      → Checked k a
  unfolding merge
  merge-Checked move_location (moves x y tz) over a h =
      merged_move-Checked (or_else over.new_lat (some x)) (or_else over.new_lon (some y))
        (or_else over.new_timezone tz) a h
  merge-Checked move_location (changes_existence _) over a h =
      merged_move-Checked over.new_lat over.new_lon over.new_timezone a h
  merge-Checked move_location unreadable over a h =
      merged_move-Checked over.new_lat over.new_lon over.new_timezone a h
  merge-Checked change_existence (moves _ _ _) over a h = merged_flag-Checked over.new_exists a h
  merge-Checked change_existence (changes_existence b) over a h =
      merged_flag-Checked (or_else over.new_exists (some b)) a h
  merge-Checked change_existence unreadable over a h = merged_flag-Checked over.new_exists a h
