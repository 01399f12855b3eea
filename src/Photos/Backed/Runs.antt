-- ===== src/Photos/Backed/Runs.antt =====
-- Sequences of the calls of `PhotoService` in crates/application/src/photo.rs.
use bikenest.Base.{
  ◌≡◌, ℕ, Bool, true, false, not, ◌&&◌, List, [], ◌∷◌, Option, any, arith, leb, length,
}
use bikenest.Base.Action.{
  Outcome, ok, err, pure, answer, go_on, or_raise, raise_if, ◌>>=◌, ◌>>◌, Keeps, >>=-Keeps,
  >>=-Leads, or_raise-Keeps, guard-Keeps,
}
use bikenest.Base.Text.{Text, codes, trim}
use bikenest.Base.Json.{Json, object, field, integer, end}
use bikenest.Base.Int.{pos}
use bikenest.Auth.{User}
use bikenest.Auth.Accounts.{is_empty}
use bikenest.Parking.{
  PhotoKind, PhotoModerationState, photo_pending, photo_approved, photo_rejected, photo_hidden,
}
use bikenest.Moderation.Service.{is_moderator}
use bikenest.Community.Service.{is_verified}
use bikenest.Photos.{
  Photo, Store, Call, PhotoTarget, Faults, Put, Tools, PhotoError, NewPendingPhoto, not_verified,
  too_large, not_found, unauthorized, invalid_field,
}
use bikenest.Photos.Repository.{get_for_moderation}
use bikenest.Photos.Service.{
  day, photo_upload_user_limit, photo_upload_ip_limit, allowed, audit, normalize_alt, check_upload,
  check_image, typed_image, user_key, ip_key, upload_checked, upload_photo, store_upload, full_key,
  thumb_key, pending_of, table_code, approve_photo, approve_by_state, reject_photo, reject_by_state,
  require_moderator, require_verified,
}
use bikenest.Photos.Backed.{uses, Backed, unsaid}
use bikenest.Photos.Backed.Calls.{
  store_upload-Backed, approve_pending-Backed, reject_pending-Backed,
}

-- Whether the random bytes of an upload give keys that no row uses.
abbrev pub fresh : List ℕ → Store → Bool
fresh draw s =
    not (any (uses (full_key draw)) s.photos) && not (any (uses (thumb_key draw)) s.photos)

pub data PhotoOp : Type 0 where
  uploads : ℕ → User → Text → PhotoTarget → List ℕ → Option Text → List ℕ → Faults → PhotoOp
  approves : Put → ℕ → User → PhotoKind → ℕ → PhotoOp
  rejects : Put → ℕ → User → PhotoKind → ℕ → Text → Bool → Bool → PhotoOp

allowed-Keeps :
    (draw : List ℕ) (now : ℕ) (key : Text) (limit window : ℕ)
    → Keeps (λ s. (fresh draw s ≡ true) × Backed s) (allowed now key limit window)
unfolding Backed allowed
allowed-Keeps draw now key limit window s h = h

audit-Keeps : (u : User) (a k : Text) (id : ℕ) (j : Json) → Keeps Backed (audit u a k id j)
unfolding Backed audit
audit-Keeps u a k id j s h = h

upload_checked-Backed :
    (now : ℕ) (u : User) (target : PhotoTarget) (draw : List ℕ) (f : Faults)
    (checked : Option Text × Text) (s : Store)
    → unsaid f.row_put ≡ false
    → (fresh draw s ≡ true) × Backed s
    → Backed (upload_checked now u target draw f checked s).1
unfolding upload_checked
upload_checked-Backed now u target draw f checked s k (h, b) =
    recorded (store_upload new f.full_put f.thumb_put f.row_put f.full_dropped f.thumb_dropped s).0
      (store_upload new f.full_put f.thumb_put f.row_put f.full_dropped f.thumb_dropped s).1
      (store_upload-Backed new f.full_put f.thumb_put f.row_put f.full_dropped f.thumb_dropped s k
        (ground (arith, h)) (ground (arith, h)) b)
  where
    new : NewPendingPhoto
    new = pending_of now u target draw checked.0 checked.1

    recorded :
        (r : Outcome PhotoError ℕ) (t : Store)
        → Backed t
        → Backed
            (go_on
              (λ id.
                audit u
                  (codes "photo.uploaded")
                  (table_code target.kind)
                  id
                  (object (field (codes "parent_id") (integer (pos target.parent_id)) end))
                >> pure id)
              r
              t).1
    recorded (ok id) t c =
        audit-Keeps u (codes "photo.uploaded") (table_code target.kind) id
          (object (field (codes "parent_id") (integer (pos target.parent_id)) end)) t c
    recorded (err e) t c = c

module _ (o : Tools) (max_bytes : ℕ) where
  typed_image-Keeps :
      (P : Store → Type 0) (bytes : List ℕ) (caption : Option Text)
      → Keeps P (typed_image o max_bytes bytes caption)
  unfolding typed_image
  typed_image-Keeps P bytes caption =
      >>=-Keeps P (answer (o.process bytes)) (λ content_type. pure (caption, content_type))
        (λ s p. p) (λ c s p. p)

  check_image-Keeps :
      (P : Store → Type 0) (bytes : List ℕ) (alt : Option Text)
      → Keeps P (check_image o max_bytes bytes alt)
  unfolding check_image
  check_image-Keeps P bytes alt =
      guard-Keeps P (not (leb (length bytes) max_bytes)) too_large
        (answer (normalize_alt alt) >>= typed_image o max_bytes bytes)
        (>>=-Keeps P (answer (normalize_alt alt)) (typed_image o max_bytes bytes) (λ s p. p)
          (typed_image-Keeps P bytes))

  check_upload-Keeps :
      (draw : List ℕ) (now : ℕ) (u : User) (ip : Text) (bytes : List ℕ) (alt : Option Text)
      → Keeps (λ s. (fresh draw s ≡ true) × Backed s) (check_upload o max_bytes now u ip bytes alt)
  unfolding check_upload require_verified
  check_upload-Keeps draw now u ip bytes alt =
      let P = λ (s : Store). (fresh draw s ≡ true) × Backed s in
      let by_user = allowed now (user_key o max_bytes u) photo_upload_user_limit day in
      let by_ip = allowed now (ip_key o max_bytes ip) photo_upload_ip_limit day in
      let image = check_image o max_bytes bytes alt in
      guard-Keeps P (not (is_verified u)) not_verified (by_user >> (by_ip >> image)) (
        >>=-Keeps P by_user (λ _. by_ip >> image)
          (allowed-Keeps draw now (user_key o max_bytes u) photo_upload_user_limit day)
          (λ _.
            >>=-Keeps P by_ip (λ _. image)
              (allowed-Keeps draw now (ip_key o max_bytes ip) photo_upload_ip_limit day)
              (λ _. check_image-Keeps P bytes alt)))

  upload_photo-Backed :
      (now : ℕ) (u : User) (ip : Text) (target : PhotoTarget) (bytes : List ℕ) (alt : Option Text)
      (draw : List ℕ) (f : Faults) (s : Store)
      → unsaid f.row_put ≡ false
      → fresh draw s ≡ true
      → Backed s
      → Backed (upload_photo o max_bytes now u ip target bytes alt draw f s).1
  unfolding upload_photo
  upload_photo-Backed now u ip target bytes alt draw f s k h b =
      >>=-Leads (λ t. (fresh draw t ≡ true) × Backed t) Backed
        (check_upload o max_bytes now u ip bytes alt) (upload_checked now u target draw f)
        (check_upload-Keeps draw now u ip bytes alt) (λ t p. p.1)
        (λ checked t p. upload_checked-Backed now u target draw f checked t k p) s (h, b)

approve_photo-Backed :
    (answer : Put) (now : ℕ) (u : User) (kind : PhotoKind) (id : ℕ)
    → Keeps Backed (approve_photo answer now u kind id)
unfolding approve_photo require_moderator get_for_moderation
approve_photo-Backed answer now u kind id =
    guard-Keeps Backed (not (is_moderator u)) unauthorized (get_for_moderation kind id >>= go) (
      >>=-Keeps Backed (get_for_moderation kind id) go (λ s b. b)
        (λ found.
          >>=-Keeps Backed (or_raise found not_found) at_state
            (or_raise-Keeps Backed found not_found)
            (λ photo. by_state photo.parent_id photo.moderation_state)))
  where
    at_state : Photo → Call (Unit {0})
    at_state photo = approve_by_state answer now u kind id photo.parent_id photo.moderation_state

    go : Option Photo → Call (Unit {0})
    go found = or_raise found not_found >>= at_state

    by_state :
        (parent : ℕ) (st : PhotoModerationState)
        → Keeps Backed (approve_by_state answer now u kind id parent st)
    by_state parent photo_pending = approve_pending-Backed now u kind id answer parent
    by_state parent photo_approved = λ s b. b
    by_state parent photo_rejected = λ s b. b
    by_state parent photo_hidden = λ s b. b

reject_photo-Backed :
    (answer : Put) (now : ℕ) (u : User) (kind : PhotoKind) (id : ℕ) (typed : Text) (d e : Bool)
    → Keeps Backed (reject_photo answer now u kind id typed d e)
unfolding reject_photo require_moderator get_for_moderation
reject_photo-Backed answer now u kind id typed d e =
    guard-Keeps Backed (not (is_moderator u)) unauthorized
      (raise_if (is_empty (trim typed)) invalid_field >> (get_for_moderation kind id >>= go))
      (guard-Keeps Backed (is_empty (trim typed)) invalid_field (get_for_moderation kind id >>= go)
        (>>=-Keeps Backed (get_for_moderation kind id) go (λ s b. b)
          (λ found.
            >>=-Keeps Backed (or_raise found not_found) at_state
              (or_raise-Keeps Backed found not_found) (λ photo. by_state photo.moderation_state))))
  where
    at_state : Photo → Call (Unit {0})
    at_state photo = reject_by_state answer now u kind id (trim typed) d e photo.moderation_state

    go : Option Photo → Call (Unit {0})
    go found = or_raise found not_found >>= at_state

    by_state :
        (st : PhotoModerationState)
        → Keeps Backed (reject_by_state answer now u kind id (trim typed) d e st)
    by_state photo_pending = reject_pending-Backed now u kind id answer (trim typed) d e
    by_state photo_approved = λ s b. b
    by_state photo_rejected = λ s b. b
    by_state photo_hidden = λ s b. b

module _ (o : Tools) (max_bytes : ℕ) where
  unfoldable pub run : PhotoOp → Store → Store
  unfolding upload_photo approve_photo reject_photo
  run (uploads now u ip target bytes alt draw f) s =
      (upload_photo o max_bytes now u ip target bytes alt draw f s).1
  run (approves answer now u kind id) s = (approve_photo answer now u kind id s).1
  run (rejects answer now u kind id reason d e) s =
      (reject_photo answer now u kind id reason d e s).1

  unfoldable pub runs : List PhotoOp → Store → Store
  unfolding run
  runs [] s = s
  runs (op ∷ ops) s = runs ops (run op s)

  -- Whether an upload draws keys that are free, and its row is not written with the reply lost.
  abbrev pub expected : PhotoOp → Store → Bool
  expected (uploads now u ip target bytes alt draw f) s = fresh draw s && not (unsaid f.row_put)
  expected (approves _ _ _ _ _) s = true
  expected (rejects _ _ _ _ _ _ _ _) s = true

  unfoldable pub all_expected : List PhotoOp → Store → Bool
  unfolding run
  all_expected [] s = true
  all_expected (op ∷ ops) s = expected op s && all_expected ops (run op s)

  run-Backed : (op : PhotoOp) (s : Store) → expected op s ≡ true → Backed s → Backed (run op s)
  unfolding run
  run-Backed (uploads now u ip target bytes alt draw f) s h b =
      upload_photo-Backed o max_bytes now u ip target bytes alt draw f s (ground (arith, h))
        (ground (arith, h)) b
  run-Backed (approves answer now u kind id) s h b = approve_photo-Backed answer now u kind id s b
  run-Backed (rejects answer now u kind id reason d e) s h b =
      reject_photo-Backed answer now u kind id reason d e s b

  -- If each upload draws keys that no row uses, and no insert is committed with its reply lost, then
  -- uploads, approvals and rejections in any order leave every photo that is not rejected with its
  -- objects, whichever writes and deletes of the storage and updates of the database fail, before or after
  -- they were done.
  pub runs-Backed :
      (ops : List PhotoOp) (s : Store) → all_expected ops s ≡ true → Backed s → Backed (runs ops s)
  unfolding runs all_expected
  runs-Backed [] s h b = b
  runs-Backed (op ∷ ops) s h b =
      runs-Backed ops (run op s) (ground (arith, h)) (run-Backed op s (ground (arith, h)) b)
