-- ===== src/Cert/Quorum/Examples.antt =====
-- Two mirrors of which one is to sign, and the theorems on what is signed.
use cactus.Prelude.{
  ℕ, zero, suc, ◌≤◌, ◌≡◌, refl, true, false, Option, none, some, List, [], ◌∷◌, All, ok, arith,
}
use cactus.Prelude.Dict.{str_eq}
use cactus.Log.{MtcSubtree, MtcSignature}
use cactus.Cert.Wire.Octets.{octets, octets-CryptobyteLaws}
use cactus.Cert.Signing.{
  mldsa_44, marshal_signature_input, marshal_timestamped_signature, parse_timestamped_signature,
}
use cactus.Cert.Signing.Binding.{marshal_signature_input-injective}
use cactus.Cert.Signing.Timestamps.{parse_timestamped_signature-marshal}
use cactus.Cert.Quorum.{Mirror, Parts, Event, arrived, finished, collected, request_cosignatures}
use cactus.Cert.Quorum.Collected.{VerifiedByAsked, request_cosignatures-verified}

abbrev repeat : ℕ → List ℕ
repeat zero = []
repeat (suc n) = 0 ∷ repeat n

abbrev toy : Parts
toy = record {
  bytes = octets;
  sha256 = λ x. 1 ∷ 2 ∷ 3 ∷ 4 ∷ 5 ∷ [];
  after_prefix = λ name line. some line;
  decode = λ text. some text;
  lines = λ body. body ∷ [];
  verify = λ m sig msg. true;
}

abbrev a_subtree : MtcSubtree
a_subtree = record { log_id = 7 ∷ []; start = 0; end = 2; hash = 9 ∷ [] }

abbrev a_mirror : Mirror
a_mirror = record { id = 8 ∷ []; algorithm = mldsa_44; public_key = repeat 1312 }

abbrev an_answer : Option (ℕ × List ℕ)
an_answer = some (200, 1 ∷ 2 ∷ 3 ∷ 4 ∷ 0 ∷ 0 ∷ 0 ∷ 0 ∷ 0 ∷ 0 ∷ 0 ∷ 0 ∷ 5 ∷ [])

abbrev events : List (Event toy a_subtree)
events = arrived a_mirror none ∷ arrived a_mirror an_answer ∷ finished ∷ []

abbrev its_signature : MtcSignature
its_signature = record { cosigner_id = 8 ∷ []; signature = 5 ∷ [] }

events-collect :
    request_cosignatures toy a_subtree (a_mirror ∷ a_mirror ∷ []) 1 false events
    ≡ some (collected (its_signature ∷ []))
unfolding request_cosignatures str_eq
events-collect = refl

request_cosignatures-verified_example :
    (1 ≤ 1) × All (VerifiedByAsked toy a_subtree (λ m. m ≡ a_mirror) 1 false) (its_signature ∷ [])
request_cosignatures-verified_example =
    request_cosignatures-verified toy a_subtree (λ m. m ≡ a_mirror) 1 false
      (a_mirror ∷ a_mirror ∷ []) events (its_signature ∷ []) (refl, (refl, tt)) events-collect

parse_timestamped_signature-marshal_example :
    parse_timestamped_signature (marshal_timestamped_signature 259 (5 ∷ [])) ≡ ok (259, 5 ∷ [])
parse_timestamped_signature-marshal_example =
    parse_timestamped_signature-marshal 259 (5 ∷ []) (omega arith)

abbrev a_message : List ℕ
a_message =
    b's' ∷ b'u' ∷ b'b' ∷ b't' ∷ b'r' ∷ b'e' ∷ b'e' ∷ b'/' ∷ b'v' ∷ b'1' ∷ 10 ∷ 0 ∷ 17 ∷ b'o' ∷ b'i'
    ∷ b'd' ∷ b'/' ∷ b'1' ∷ b'.' ∷ b'3' ∷ b'.' ∷ b'6' ∷ b'.' ∷ b'1' ∷ b'.' ∷ b'4' ∷ b'.' ∷ b'1'
    ∷ b'.' ∷ 8 ∷ 0 ∷ 0 ∷ 0 ∷ 0 ∷ 0 ∷ 0 ∷ 0 ∷ 0 ∷ 17 ∷ b'o' ∷ b'i' ∷ b'd' ∷ b'/' ∷ b'1' ∷ b'.' ∷ b'3'
    ∷ b'.' ∷ b'6' ∷ b'.' ∷ b'1' ∷ b'.' ∷ b'4' ∷ b'.' ∷ b'1' ∷ b'.' ∷ 7 ∷ 0 ∷ 0 ∷ 0 ∷ 0 ∷ 0 ∷ 0 ∷ 0
    ∷ 0 ∷ 0 ∷ 0 ∷ 0 ∷ 0 ∷ 0 ∷ 0 ∷ 0 ∷ 2 ∷ 9 ∷ []

a_message-marshals : marshal_signature_input octets (8 ∷ []) a_subtree ≡ ok a_message
unfolding marshal_signature_input
a_message-marshals = refl

marshal_signature_input-injective_example :
    (a_mirror.id ≡ a_mirror.id)
    × ((a_subtree.log_id ≡ a_subtree.log_id)
        × ((a_subtree.start ≡ a_subtree.start)
            × ((a_subtree.end ≡ a_subtree.end) × (a_subtree.hash ≡ a_subtree.hash))))
marshal_signature_input-injective_example =
    marshal_signature_input-injective octets octets-CryptobyteLaws (8 ∷ []) (8 ∷ []) a_subtree
      a_subtree a_message (omega arith) (omega arith) (omega arith) (omega arith) a_message-marshals
      a_message-marshals
