-- ===== src/Mirror/Server/Answers.antt =====
-- Requests that the witness answers with a signature, from their octets on (mirror/server.go).
use cactus.Prelude.{
  ℕ, ◌≡◌, ◌⊎◌, Bool, List, length, leb, ok, guard, lift_err, ok_of_bind, ok_of_lift_err, arith,
}
use cactus.Tlogx.{IsHash, Collision}
use cactus.Mirror.Follower.{Follower}
use cactus.Mirror.Requests.{ParsedRequest, parse_request}
use cactus.Mirror.Requests.Bounds.{WellFormed, parse_request-WellFormed}
use cactus.Mirror.Server.{
  ServerConfig, Parts, method_not_allowed, bad_body, parse_error, handle, answer,
}
use cactus.Mirror.Server.Signed.{Signed, handle-Signed, handle-agree}

module _ (parts : Parts) (cfg : ServerConfig) where
  -- What is known of a request that is answered with `line`
  pub record Answered (now later : Follower) (body line : List ℕ) : Type 0 where
    pub request : ParsedRequest
    pub parsed : parse_request parts.decode body ≡ ok request
    pub bounded : WellFormed parts.decode request
    pub signed : Signed parts cfg now later request line
    pub handled : handle parts cfg now later request ≡ ok line

  pub answer-Answered :
      (now later : Follower) (post : Bool) (body line : List ℕ)
      → answer parts cfg now later post body ≡ ok line
      → Answered now later body line
  unfolding answer
  answer-Answered now later post body line h =
      let (t1, e1, h1) = ok_of_bind (guard post method_not_allowed) _ line h in
      let (t2, e2, h2) = ok_of_bind (guard (leb (length body) 16384) bad_body) _ line h1 in
      let (p, e3, h3) =
        ok_of_bind (lift_err parse_error (parse_request parts.decode body)) _ line h2 in
      let parsed = ok_of_lift_err parse_error (parse_request parts.decode body) p e3 in
      record {
        request = p;
        parsed = parsed;
        bounded = parse_request-WellFormed parts.decode body p parsed;
        signed = handle-Signed parts cfg now later p line h3;
        handled = h3;
      }

  handled_as_parsed :
      (now later : Follower) (post : Bool) (body line : List ℕ) (p : ParsedRequest)
      → parse_request parts.decode body ≡ ok p
      → answer parts cfg now later post body ≡ ok line
      → WellFormed parts.decode p × (handle parts cfg now later p ≡ ok line)
  handled_as_parsed now later post body line p parsed h =
      let a = answer-Answered now later post body line h in
      let same : a.request ≡ p = ground (arith, a.parsed, parsed) in
      (parse_request-WellFormed parts.decode body p parsed, rw (← same) a.handled)

  -- Two requests for one range that the witness answers with signatures, at whatever moments at
  -- which the follower has one size and one root, have the same subtree hash and the same proof,
  -- or else two inputs with the same hash are at hand, where the hash function gives 32 octets.
  pub answers-agree :
      (hash_sized : (x : List ℕ) → IsHash (parts.sha256 x)) (now later now' later' : Follower)
      (post post' : Bool) (body body' line line' : List ℕ) (p q : ParsedRequest)
      → parse_request parts.decode body ≡ ok p
      → parse_request parts.decode body' ≡ ok q
      → answer parts cfg now later post body ≡ ok line
      → answer parts cfg now' later' post' body' ≡ ok line'
      → now'.size ≡ now.size
      → now'.root ≡ now.root
      → q.start ≡ p.start
      → q.end ≡ p.end
      → ((p.subtree_hash ≡ q.subtree_hash) × (p.proof ≡ q.proof)) ⊎ Collision parts.sha256
  answers-agree hash_sized now later now' later' post post' body body' line line' p q parsed parsed'
        first second size root start end =
      let (a, handled) = handled_as_parsed now later post body line p parsed first in
      let (b, handled') = handled_as_parsed now' later' post' body' line' q parsed' second in
      handle-agree parts cfg hash_sized now later now' later' p q line line' size root start end
        a.hash_sized b.hash_sized a.proof_sized b.proof_sized handled handled'
