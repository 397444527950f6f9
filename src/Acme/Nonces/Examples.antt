-- ===== src/Acme/Nonces/Examples.antt =====
-- A nonce that is used, and tried again after another was issued.
use cactus.Prelude.{◌≡◌, refl, true, false, [], ◌∷◌, arith}
use cactus.Tlogx.{hash_eq}
use cactus.Acme.Nonces.{consume_nonce, new_call, run, find, delete, Nonces}
use cactus.Acme.Nonces.SingleUse.{consume-once}

abbrev issued : Nonces
issued = (1 ∷ [], 100) ∷ []

accepted : consume_nonce (1 ∷ []) 150 issued ≡ (true, [])
unfolding consume_nonce find delete hash_eq
accepted = refl

consume-once_example :
    consume_nonce
      (1 ∷ [])
      300
      (run (new_call (2 ∷ []) 200 201 ∷ []) ((consume_nonce (1 ∷ []) 150 issued).1))
    ≡ (false, run (new_call (2 ∷ []) 200 201 ∷ []) ((consume_nonce (1 ∷ []) 150 issued).1))
consume-once_example =
    consume-once (1 ∷ []) 150 300 issued (new_call (2 ∷ []) 200 201 ∷ []) ((λ e. ground arith), tt)
