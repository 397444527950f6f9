-- ===== src/Acme/Nonces.antt =====
-- acme/state.go: the nonces, a map from the nonce to the time of its issue, in nanoseconds.
pub mod SingleUse
mod Examples
use cactus.Prelude.{
  ℕ, ◌+◌, Bool, true, false, not, Option, none, some, List, [], ◌∷◌, ltb, leb, if◌then◌else◌,
}
use cactus.Tlogx.{hash_eq}

-- nonceLifetime, 5 minutes
abbrev pub nonce_lifetime : ℕ
nonce_lifetime = 300000000000

abbrev pub Nonces : Type 0
Nonces = List (List ℕ × ℕ)

unfoldable pub find : List ℕ → Nonces → Option ℕ
find id [] = none
find id ((k, t) ∷ rest) = let later = find id rest in if hash_eq id k then some t else later

unfoldable pub delete : List ℕ → Nonces → Nonces
delete id [] = []
delete id ((k, t) ∷ rest) =
    let later = delete id rest in if hash_eq id k then later else (k, t) ∷ later

-- gcNoncesLocked; `t.Before(now - lifetime)` is `t + lifetime < now`.
unfoldable pub gc_nonces : ℕ → Nonces → Nonces
gc_nonces now [] = []
gc_nonces now ((k, t) ∷ rest) =
    let later = gc_nonces now rest in if ltb (t + nonce_lifetime) now then later else (k, t) ∷ later

-- NewNonce for the random ID, with the two readings of the clock
unfoldable pub new_nonce : List ℕ → ℕ → ℕ → Nonces → Nonces
unfolding gc_nonces delete
new_nonce id now gc_now nonces = gc_nonces gc_now ((id, now) ∷ delete id nonces)

-- ConsumeNonce; `time.Since(t) <= lifetime` is `now <= t + lifetime`.
unfoldable pub consume_nonce : List ℕ → ℕ → Nonces → Bool × Nonces
unfolding find delete
consume_nonce id now nonces = elim (find id nonces) [
  | none ↦ (false, nonces)
  | some t ↦ (leb now (t + nonce_lifetime), delete id nonces)
]

-- The calls on the nonces
pub data Call : Type 0 where
  new_call : List ℕ → ℕ → ℕ → Call
  consume_call : List ℕ → ℕ → Call

unfoldable pub run : List Call → Nonces → Nonces
unfolding new_nonce consume_nonce
run [] nonces = nonces
run (new_call id now gc_now ∷ calls) nonces = run calls (new_nonce id now gc_now nonces)
run (consume_call id now ∷ calls) nonces = run calls ((consume_nonce id now nonces).1)
