-- ===== src/ClientIp/Chain.antt =====
-- What a client writes into the header, and what the trusted proxies append to it.
use bikenest.Base.{
  ℕ, suc, ◌+◌, ◌-◌, ◌≤◌, ◌≡◌, refl, ap, ◌∙◌, Bool, false, not, List, [], ◌∷◌, ◌++◌, map, Option,
  some, inl, inr, arith, ltb, ◌==◌, if◌then◌else◌, Bool-cases, length, length-append, filter,
}
use bikenest.Base.Text.{Text, trim}
use bikenest.ClientIp.{
  is_blank, cons_first, split_commas, entries, entry_at, peer_ip, accepted, from_chain,
  resolve_client_ip,
}

cons_first-append :
    (c : ℕ) (s : Text) (vs : List Text)
    → cons_first c (split_commas s ++ vs) ≡ cons_first c (split_commas s) ++ vs
unfolding split_commas
cons_first-append c [] vs = refl
cons_first-append c (d ∷ s) vs = elim (Bool-cases (d == 44)) [
  | inl e ↦ rw e refl
  | inr e ↦ rw (e, cons_first_twice (split_commas s)) refl
]
  where
    cons_first_twice :
        (ws : List Text)
        → cons_first c (cons_first d ws ++ vs) ≡ cons_first c (cons_first d ws) ++ vs
    cons_first_twice [] = refl
    cons_first_twice (w ∷ ws) = refl

split_commas-append : (p t : Text) → split_commas (p ++ 44 ∷ t) ≡ split_commas p ++ split_commas t
unfolding split_commas
split_commas-append [] t = refl
split_commas-append (c ∷ p) t = elim (Bool-cases (c == 44)) [
  | inl e ↦ rw e (ap (λ l. [] ∷ l) (split_commas-append p t))
  | inr e ↦
      rw e (ap (cons_first c) (split_commas-append p t) ∙ cons_first-append c p (split_commas t))
]

map-trim-append : (xs ys : List Text) → map trim (xs ++ ys) ≡ map trim xs ++ map trim ys
map-trim-append [] ys = refl
map-trim-append (x ∷ xs) ys = ap (λ l. trim x ∷ l) (map-trim-append xs ys)

filter_written-append :
    (xs ys : List Text)
    → filter (λ e. not (is_blank e)) (xs ++ ys)
      ≡ filter (λ e. not (is_blank e)) xs ++ filter (λ e. not (is_blank e)) ys
filter_written-append [] ys = refl
filter_written-append (x ∷ xs) ys = elim (Bool-cases (not (is_blank x))) [
  | inl e ↦ rw e (ap (λ l. x ∷ l) (filter_written-append xs ys))
  | inr e ↦ rw e (filter_written-append xs ys)
]

entries-append : (p t : Text) → entries (p ++ 44 ∷ t) ≡ entries p ++ entries t
unfolding entries
entries-append p t =
    ap (λ l. filter (λ e. not (is_blank e)) (map trim l)) (split_commas-append p t)
    ∙ (ap (filter (λ e. not (is_blank e))) (map-trim-append (split_commas p) (split_commas t))
        ∙ filter_written-append (map trim (split_commas p)) (map trim (split_commas t)))

suc_add : (a n : ℕ) → suc a + n ≡ suc (a + n)
suc_add a n = omega arith

entry_at-append : (xs ys : List Text) (n : ℕ) → entry_at (length xs + n) (xs ++ ys) ≡ entry_at n ys
unfolding entry_at
entry_at-append [] ys n = ap (λ k. entry_at k ys) (omega arith)
entry_at-append (x ∷ xs) ys n =
    ap (λ k. entry_at k (x ∷ xs ++ ys)) (suc_add (length xs) n) ∙ entry_at-append xs ys n

module _ (is_ip : Text → Bool) (peer : Option Text) (hops : ℕ) where
  enough : (l : List Text) → hops ≤ length l → ltb (length l) hops ≡ false
  enough l h = ground arith

  from_chain-append :
      (xs ys : List Text)
      → hops ≤ length ys
      → from_chain is_ip peer hops (xs ++ ys) ≡ from_chain is_ip peer hops ys
  unfolding from_chain
  from_chain-append xs ys h =
      rw (enough (xs ++ ys) (omega (arith, length-append xs ys, h)), enough ys h)
        (ap (accepted is_ip peer) (
          ap (λ k. entry_at k (xs ++ ys)) (omega (arith, length-append xs ys, h))
          ∙ entry_at-append xs ys (length ys - hops)))

  -- Behind `hops` proxies that are trusted, each of which appends an entry, what the client wrote
  -- before them has no effect on the address, whatever it is.
  pub resolve_client_ip-append :
      (client chain : Text)
      → hops ≤ length (entries chain)
      → resolve_client_ip is_ip peer (some (client ++ 44 ∷ chain)) hops
        ≡ resolve_client_ip is_ip peer (some chain) hops
  unfolding resolve_client_ip
  resolve_client_ip-append client chain h =
      ap (λ a. if hops == 0 then peer_ip peer else a)
        (ap (from_chain is_ip peer hops) (entries-append client chain)
          ∙ from_chain-append (entries client) (entries chain) h)
