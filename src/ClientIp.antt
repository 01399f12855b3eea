-- ===== src/ClientIp.antt =====
-- crates/web/src/client_ip.rs: the client address that rate limits are keyed on. The parser of IP
-- addresses is a parameter.
pub mod Chain
mod Tests
use bikenest.Base.{
  ℕ, zero, suc, ◌-◌, Bool, true, false, not, List, [], ◌∷◌, map, Option, none, some, arith, ltb,
  ◌==◌, if◌then◌else◌, length, filter,
}
use bikenest.Base.Text.{Text, codes, trim}

abbrev pub unknown_peer : Text
unknown_peer = codes "test-peer"

abbrev pub is_blank : Text → Bool
is_blank [] = true
is_blank (_ ∷ _) = false

abbrev pub cons_first : ℕ → List Text → List Text
cons_first c [] = (c ∷ []) ∷ []
cons_first c (w ∷ ws) = (c ∷ w) ∷ ws

-- `split(',')`.
unfoldable pub split_commas : Text → List Text
split_commas [] = [] ∷ []
split_commas (c ∷ s) = let rest = split_commas s in if c == 44 then [] ∷ rest else cons_first c rest

unfoldable pub entries : Text → List Text
unfolding split_commas trim
entries xff = filter (λ e. not (is_blank e)) (map trim (split_commas xff))

-- `get(index)`.
unfoldable pub entry_at : ℕ → List Text → Option Text
entry_at n [] = none
entry_at zero (e ∷ es) = some e
entry_at (suc n) (e ∷ es) = entry_at n es

abbrev pub peer_ip : Option Text → Text
peer_ip none = unknown_peer
peer_ip (some p) = p

module _ (is_ip : Text → Bool) where
  abbrev pub accepted : Option Text → Option Text → Text
  accepted peer none = peer_ip peer
  accepted peer (some e) = if is_ip e then e else peer_ip peer

  -- The entry that the outermost trusted proxy wrote: `checked_sub`, then `get`.
  unfoldable pub from_chain : Option Text → ℕ → List Text → Text
  unfolding entry_at
  from_chain peer hops es =
      if ltb (length es) hops then peer_ip peer else accepted peer (entry_at (length es - hops) es)

  unfoldable pub resolve_client_ip : Option Text → Option Text → ℕ → Text
  unfolding entries from_chain
  resolve_client_ip peer none hops = peer_ip peer
  resolve_client_ip peer (some xff) hops =
      if hops == 0 then peer_ip peer else from_chain peer hops (entries xff)
