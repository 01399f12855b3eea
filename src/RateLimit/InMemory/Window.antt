-- ===== src/RateLimit/InMemory/Window.antt =====
-- One key's window: `trim` against a filter over all the events ever recorded.
use bikenest.Base.{
  ℕ, ◌+◌, ◌-◌, ◌≤◌, ◌≡◌, refl, ◌∙◌, Bool, true, false, ◌&&◌, List, [], ◌∷◌, ◌++◌, inl, inr, arith,
  ltb, leb, if◌then◌else◌, Bool-cases, length, filter, All,
}
use bikenest.RateLimit.InMemory.{trim, hit}

-- An event is inside the window that ends now.
abbrev pub fresh : ℕ → ℕ → ℕ → Bool
fresh now window e = ltb (now - e) window

-- Instants that do not go back, from a lower bound.
abbrev pub Rising : ℕ → List ℕ → Type 0
Rising lo [] = Unit {0}
Rising lo (e ∷ es) = (lo ≤ e) × Rising e es

pub filter-append {ℓ} :
    {A : Type ℓ} (p : A → Bool) (xs ys : List A) → filter p (xs ++ ys) ≡ filter p xs ++ filter p ys
filter-append p [] ys = refl
filter-append p (x ∷ xs) ys = ground (arith, filter-append p xs ys)

-- After one fresh event all the later ones are fresh.
filter-fresh_all :
    (now window e : ℕ) (es : List ℕ)
    → fresh now window e ≡ true
    → Rising e es
    → filter (fresh now window) es ≡ es
filter-fresh_all now window e [] f r = refl
filter-fresh_all now window e (x ∷ es) f r = ground (arith, filter-fresh_all now window x es)

pub trim-filter :
    (now window lo : ℕ) (es : List ℕ)
    → Rising lo es
    → trim now window es ≡ filter (fresh now window) es
unfolding trim
trim-filter now window lo [] r = refl
trim-filter now window lo (e ∷ es) r =
    ground (arith, trim-filter now window e es, filter-fresh_all now window e es)

-- What a later window keeps, an earlier one has kept.
pub filter-fresh_later :
    (now later window : ℕ) (es : List ℕ)
    → now ≤ later
    → filter (fresh later window) (filter (fresh now window) es) ≡ filter (fresh later window) es
filter-fresh_later now later window [] h = refl
filter-fresh_later now later window (e ∷ es) h =
    ground (arith, filter-fresh_later now later window es h)

pub Rising-weaken : (lo hi : ℕ) (es : List ℕ) → lo ≤ hi → Rising hi es → Rising lo es
Rising-weaken lo hi [] h r = tt
Rising-weaken lo hi (e ∷ es) h r = (omega arith, r.1)

pub Rising-trim : (now window lo : ℕ) (es : List ℕ) → Rising lo es → Rising lo (trim now window es)
unfolding trim
Rising-trim now window lo [] r = tt
Rising-trim now window lo (e ∷ es) r =
    ground (arith, Rising-trim now window lo es (Rising-weaken lo e es r.0 r.1))

pub All-trim :
    (now window : ℕ) (es : List ℕ) → All (λ e. e ≤ now) es → All (λ e. e ≤ now) (trim now window es)
unfolding trim
All-trim now window [] a = tt
All-trim now window (e ∷ es) a = ground (arith, All-trim now window es a.1)

pub All-le : (m n : ℕ) (es : List ℕ) → m ≤ n → All (λ e. e ≤ m) es → All (λ e. e ≤ n) es
All-le m n [] h a = tt
All-le m n (e ∷ es) h a = (omega arith, All-le m n es h a.1)

pub Rising-snoc :
    (now lo : ℕ) (es : List ℕ)
    → lo ≤ now
    → Rising lo es
    → All (λ e. e ≤ now) es
    → Rising lo (es ++ now ∷ [])
Rising-snoc now lo [] h r a = (h, tt)
Rising-snoc now lo (e ∷ es) h r a = (r.0, Rising-snoc now e es a.0 r.1 a.1)

pub All-snoc : (now : ℕ) (es : List ℕ) → All (λ e. e ≤ now) es → All (λ e. e ≤ now) (es ++ now ∷ [])
All-snoc now [] a = (omega arith, tt)
All-snoc now (e ∷ es) a = (a.0, All-snoc now es a.1)

-- The events kept stand for a log of all that was recorded: every later window sees the same.
pub record Matches (last window : ℕ) (es log : List ℕ) : Type 0 where
  pub rising : Rising 0 es
  pub past : All (λ e. e ≤ last) es
  pub same : (t : ℕ) → last ≤ t → filter (fresh t window) es ≡ filter (fresh t window) log

-- The specification: an event is allowed if fewer than `limit` recorded ones are in the window.
unfoldable pub log_allows : ℕ → ℕ → ℕ → List ℕ → Bool
log_allows now limit window log = ltb (length (filter (fresh now window) log)) limit

unfoldable pub log_next : ℕ → ℕ → ℕ → List ℕ → List ℕ
unfolding log_allows
log_next now limit window log = if log_allows now limit window log then log ++ now ∷ [] else log

module _ (last now limit window : ℕ) (es log : List ℕ) (later : last ≤ now)
    (m : Matches last window es log) where
  pub trim-log : trim now window es ≡ filter (fresh now window) log
  trim-log = trim-filter now window 0 es m.rising ∙ m.same now later

  -- The bucket gives the answer of the log.
  pub hit-log_allows : (hit now limit window es).0 ≡ log_allows now limit window log
  unfolding hit log_allows
  hit-log_allows = ground (arith, trim-log)

  kept_same :
      (t : ℕ) → now ≤ t → filter (fresh t window) (trim now window es) ≡ filter (fresh t window) log
  kept_same t h = rw trim-log (filter-fresh_later now t window log h)

  pub kept-Matches : Matches now window (trim now window es) log
  kept-Matches = record {
    rising = Rising-trim now window 0 es m.rising;
    past = All-trim now window es (All-le last now es later m.past);
    same = kept_same;
  }

  pub added-Matches : Matches now window (trim now window es ++ now ∷ []) (log ++ now ∷ [])
  added-Matches = record {
    rising = Rising-snoc now 0 _ (omega arith) kept-Matches.rising kept-Matches.past;
    past = All-snoc now _ kept-Matches.past;
    same = λ t h. rw (
      filter-append (fresh t window) (trim now window es) (now ∷ []),
      filter-append (fresh t window) log (now ∷ []),
      kept_same t h,
    );
  }

  hit_full :
      leb limit (length (trim now window es)) ≡ true
      → ((hit now limit window es).1 ≡ trim now window es) × (log_next now limit window log ≡ log)
  unfolding hit log_next
  hit_full full = (ground arith, ground (arith, trim-log))

  hit_room :
      leb limit (length (trim now window es)) ≡ false
      → ((hit now limit window es).1 ≡ trim now window es ++ now ∷ [])
        × (log_next now limit window log ≡ log ++ now ∷ [])
  unfolding hit log_next
  hit_room room = (ground arith, ground (arith, trim-log))

  -- And stands for the log's next state.
  pub hit-Matches : Matches now window (hit now limit window es).1 (log_next now limit window log)
  hit-Matches = elim (Bool-cases (leb limit (length (trim now window es)))) [
    | inl full ↦ rw ((hit_full full).0, (hit_full full).1) kept-Matches
    | inr room ↦ rw ((hit_room room).0, (hit_room room).1) added-Matches
  ]

-- The events of a log that lie in the window that ends at an instant.
abbrev pub in_window : ℕ → ℕ → ℕ → Bool
in_window t window e = leb e t && ltb (t - e) window

-- No window holds more than `limit` events, and none lies ahead.
pub record Limited (last limit window : ℕ) (log : List ℕ) : Type 0 where
  pub past : All (λ e. e ≤ last) log
  pub few : (t : ℕ) → length (filter (in_window t window) log) ≤ limit

in_window-le-fresh :
    (now t window : ℕ) (log : List ℕ)
    → now ≤ t
    → length (filter (in_window t window) log) ≤ length (filter (fresh now window) log)
in_window-le-fresh now t window [] h = omega arith
in_window-le-fresh now t window (e ∷ log) h = ground (arith, in_window-le-fresh now t window log h)

length-in_window_snoc :
    (t window now : ℕ) (log : List ℕ)
    → length (filter (in_window t window) (log ++ now ∷ []))
      ≡ length (filter (in_window t window) log) + (if in_window t window now then 1 else 0)
length-in_window_snoc t window now [] = ground arith
length-in_window_snoc t window now (e ∷ log) =
    ground (arith, length-in_window_snoc t window now log)

log_next_few :
    (last now limit window : ℕ) (log : List ℕ)
    → Limited last limit window log
    → (t : ℕ) → length (filter (in_window t window) (log_next now limit window log)) ≤ limit
unfolding log_next log_allows
log_next_few last now limit window log l t =
    ground
      (arith, l.few t, length-in_window_snoc t window now log, in_window-le-fresh now t window log)

-- The log keeps to its limit.
pub log_next-Limited :
    (last now limit window : ℕ) (log : List ℕ)
    → last ≤ now
    → Limited last limit window log
    → Limited now limit window (log_next now limit window log)
unfolding log_next
log_next-Limited last now limit window log h l = record {
  past =
      ground (arith, All-le last now log h l.past, All-snoc now log (All-le last now log h l.past));
  few = log_next_few last now limit window log l;
}
