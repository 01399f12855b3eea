-- ===== src/Moderation/Content/Changed.antt =====
-- What a location becomes by an approval, from what was proposed and what was typed over it: the merge
-- of crates/application/src/moderation.rs with the updates of crates/infrastructure/src/moderation/actions.rs.
use bikenest.Base.{
  ◌≡◌, refl, sym, ap, subst, ◌∙◌, ℕ, Bool, not, ◌||◌, [], ◌∷◌, Option, none, some, arith,
  Bool-cases, Option-cases, inl, inr, if◌then◌else◌,
}
use mathlib.Core.Option.{some_inj}
use bikenest.Base.Action.{ok, ok_inj}
use bikenest.Base.Text.{Text, trim}
use bikenest.Base.F64.{F64, is_finite, within}
use bikenest.Parking.{
  ProposalKind, move_location, change_existence, active, removed, Location, Outside,
}
use bikenest.Parking.Proposals.{
  ProposedChange, moves, changes_existence, unreadable, trimmed, non_empty,
}
use bikenest.Moderation.Merge.{
  ProposalOverride, ProposalApplication, applies_move, or_else, zoned, merged_move, merged_flag,
  merge,
}
use bikenest.Moderation.Approval.{applied_to}

-- A value that the moderator typed, or else the one that was proposed.
abbrev pub Chosen : {A : Type 0} → Option A → Option A → A → Type 0
Chosen (some typed) _ x = x ≡ typed
Chosen none (some proposed) x = x ≡ proposed
Chosen none none x = ⊥

abbrev pub asked_lat : ProposedChange → Option F64
asked_lat (moves x _ _) = some x
asked_lat (changes_existence _) = none
asked_lat unreadable = none

abbrev pub asked_lon : ProposedChange → Option F64
asked_lon (moves _ y _) = some y
asked_lon (changes_existence _) = none
asked_lon unreadable = none

abbrev pub asked_timezone : ProposedChange → Option Text
asked_timezone (moves _ _ tz) = tz
asked_timezone (changes_existence _) = none
asked_timezone unreadable = none

abbrev pub asked_exists : ProposedChange → Option Bool
asked_exists (moves _ _ _) = none
asked_exists (changes_existence b) = some b
asked_exists unreadable = none

Chosen-or_else : {A : Type 0} (a b : Option A) (x : A) → or_else a b ≡ some x → Chosen a b x
Chosen-or_else (some a) b x h = sym (some_inj.0 h)
Chosen-or_else none (some b) x h = sym (some_inj.0 h)
Chosen-or_else none none x h = absurd (ground (arith, h))

or_else-none : {A : Type 0} (a : Option A) → or_else a none ≡ a
or_else-none (some a) = refl
or_else-none none = refl

trimmed-some : (raw : Text) (name : Text) → trimmed (some raw) ≡ some name → trim raw ≡ name
unfolding trimmed
trimmed-some raw name h = of_non_empty (trim raw) h
  where
    of_non_empty : (t : Text) → non_empty t ≡ some name → t ≡ name
    of_non_empty [] h = absurd (ground (arith, h))
    of_non_empty (c ∷ t) h = some_inj.0 h

module _ (o : Outside) where
  -- The location after the approval, by the kind of the row: a move takes coordinates and a time zone,
  -- an existence change the state, and neither touches what the other sets.
  abbrev pub Changed :
      ProposalKind → ProposedChange → ProposalOverride → Location → Location → Type 0
  Changed move_location c over l t =
      Chosen over.new_lat (asked_lat c) t.lat
      × Chosen over.new_lon (asked_lon c) t.lon
      × ((raw : Text) × Chosen over.new_timezone (asked_timezone c) raw
          × (o.known_timezone (trim raw) ≡ some t.timezone))
      × (t.moderation_state ≡ l.moderation_state)
  Changed change_existence c over l t =
      ((b : Bool) × Chosen over.new_exists (asked_exists c) b
        × (t.moderation_state ≡ (if b then active else removed)))
      × (t.lat ≡ l.lat)
      × (t.lon ≡ l.lon)
      × (t.timezone ≡ l.timezone)

  zoned-ok :
      (x y : F64) (name : Option Text) (a : ProposalApplication)
      → zoned o x y name ≡ ok a
      → (n : Text) × (z : Text) × (name ≡ some n)
        × (o.known_timezone n ≡ some z)
        × (applies_move x y z ≡ a)
  unfolding zoned
  zoned-ok x y none a h = absurd (ground (arith, h))
  zoned-ok x y (some n) a h = elim (Option-cases (o.known_timezone n)) [
    | inl e ↦ absurd (ground (arith, e, h))
    | inr (z, e) ↦ (n, z, refl, e, ok_inj (sym (rw (e, zoned) refl) ∙ h))
  ]

  merged_move-ok :
      (mx my : Option F64) (tz : Option Text) (a : ProposalApplication)
      → merged_move o mx my tz ≡ ok a
      → (x : F64) × (y : F64) × (raw : Text) × (z : Text) × (mx ≡ some x)
        × (my ≡ some y)
        × (tz ≡ some raw)
        × (o.known_timezone (trim raw) ≡ some z)
        × (applies_move x y z ≡ a)
  unfolding merged_move
  merged_move-ok none my tz a h = absurd (ground (arith, h))
  merged_move-ok (some x) none tz a h = absurd (ground (arith, h))
  merged_move-ok (some x) (some y) none a h = absurd (ground (arith, zoned, trimmed, h))
  merged_move-ok (some x) (some y) (some raw) a h =
      elim (Bool-cases (not (is_finite x) || not (within 90 x))) [
        | inl e ↦ absurd (ground (arith, e, h))
        | inr e ↦ elim (Bool-cases (not (is_finite y) || not (within 180 y))) [
          | inl f ↦ absurd (ground (arith, e, f, h))
          | inr f ↦
              let (n, z, k, w, q) =
                zoned-ok x y (trimmed (some raw)) a (sym (rw e (rw f refl)) ∙ h) in
              (x, y, raw, z, refl, refl, refl, ap o.known_timezone (trimmed-some raw n k) ∙ w, q)
        ]
      ]

  move-Changed :
      (now : ℕ) (c : ProposedChange) (over : ProposalOverride) (a : ProposalApplication)
      (l : Location)
      → merged_move o
          (or_else over.new_lat (asked_lat c))
          (or_else over.new_lon (asked_lon c))
          (or_else over.new_timezone (asked_timezone c))
        ≡ ok a
      → Changed move_location c over l (applied_to now a l)
  move-Changed now c over a l h =
      let (x, y, raw, z, e, f, g, w, q) =
        merged_move-ok (or_else over.new_lat (asked_lat c)) (or_else over.new_lon (asked_lon c))
          (or_else over.new_timezone (asked_timezone c)) a h in
      subst (λ b. Changed move_location c over l (applied_to now b l)) q
        (
          Chosen-or_else over.new_lat (asked_lat c) x e,
          Chosen-or_else over.new_lon (asked_lon c) y f,
          (raw, Chosen-or_else over.new_timezone (asked_timezone c) raw g, w),
          refl,
        )

  flag-Changed :
      (now : ℕ) (c : ProposedChange) (over : ProposalOverride) (a : ProposalApplication)
      (l : Location) (m : Option Bool)
      → m ≡ or_else over.new_exists (asked_exists c)
      → merged_flag o m ≡ ok a
      → Changed change_existence c over l (applied_to now a l)
  unfolding merged_flag
  flag-Changed now c over a l none e h = absurd (ground (arith, h))
  flag-Changed now c over a l (some b) e h =
      subst (λ d. Changed change_existence c over l (applied_to now d l)) (ok_inj h)
        ((b, Chosen-or_else over.new_exists (asked_exists c) b (sym e), refl), refl, refl, refl)

  pub merge-Changed :
      (now : ℕ) (k : ProposalKind) (c : ProposedChange) (over : ProposalOverride)
      (a : ProposalApplication) (l : Location)
      → merge o k c over ≡ ok a
      → Changed k c over l (applied_to now a l)
  unfolding merge
  merge-Changed now move_location (moves x y tz) over a l h =
      move-Changed now (moves x y tz) over a l h
  merge-Changed now move_location (changes_existence b) over a l h =
      move-Changed now (changes_existence b) over a l (
        rw (or_else-none over.new_lat)
          (rw (or_else-none over.new_lon) (rw (or_else-none over.new_timezone) h)))
  merge-Changed now move_location unreadable over a l h = move-Changed now unreadable over a l (
      rw (or_else-none over.new_lat)
        (rw (or_else-none over.new_lon) (rw (or_else-none over.new_timezone) h)))
  merge-Changed now change_existence (moves x y tz) over a l h =
      flag-Changed now (moves x y tz) over a l over.new_exists (sym (or_else-none over.new_exists))
        h
  merge-Changed now change_existence (changes_existence b) over a l h =
      flag-Changed now (changes_existence b) over a l (or_else over.new_exists (some b)) refl h
  merge-Changed now change_existence unreadable over a l h =
      flag-Changed now unreadable over a l over.new_exists (sym (or_else-none over.new_exists)) h
