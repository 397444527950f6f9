-- ===== src/Mirror/Examples.antt =====
-- A follower that a poll takes from nothing to one entry, and a witness that signs twice.
use cactus.Prelude.{
  ℕ, zero, suc, ◌≡◌, ◌⊎◌, inl, refl, true, false, none, some, List, [], ◌∷◌, ◌++◌, ok,
}
use cactus.Prelude.Dict.{str_eq}
use cactus.Tlogx.{Hash, hash_eq, Collision, is_valid, bit_ceil, hash_children}
use cactus.Tlogx.Inclusion.{subtree_hash, subtree_hash_fuel, first_hash}
use cactus.Prelude.Words.{len64}
use cactus.Tlogx.Consistency.{verify_consistency_proof}
use cactus.TileWriter.{split_data_tile, split_fuel}
use cactus.Log.Proof.{read_hashes}
use cactus.Cert.Wire.Octets.{octets}
use cactus.Cert.Signing.{mldsa_44, oid_name}
use cactus.Mirror.Follower as Follower
use cactus.Mirror.Follower.{Follower, Upstream, Answers, Disk, found, load_from_disk, polls}
use cactus.Mirror.Follower.Growth.{Rooted, Grown, polls-Grown}
use cactus.Mirror.Follower.Restart.{polls-load_from_disk}
use cactus.Mirror.Follower.Attested.{Attested, polls-Attested}
use cactus.Mirror.Server as Server
use cactus.Mirror.Notes.{NoteSignature}
use cactus.Mirror.Requests.{ParsedRequest, parse_request}
use cactus.Mirror.Server.{ServerConfig, CosignerKey, answer}
use cactus.Mirror.Requests.Bounds.{WellFormed, parse_request-WellFormed}
use cactus.Mirror.Server.Answers.{answers-agree}

abbrev zeros : ℕ → List ℕ
zeros zero = []
zeros (suc n) = 0 ∷ zeros n

abbrev blank : Hash
blank = zeros 32

-- Base64 is left out: a hash stands in a line as it is. The signature is 5.
abbrev checkpoint : ℕ → List ℕ
checkpoint digit =
    oid_name (7 ∷ [])
    ++ (10
        ∷ digit
        ∷ 10
        ∷ (blank
            ++ (10
                ∷ 10
                ∷ 0xe2
                ∷ 0x80
                ∷ 0x94
                ∷ b' '
                ∷ (oid_name (8 ∷ []) ++ (b' ' ∷ (zeros 12 ++ (5 ∷ 10 ∷ [])))))))

abbrev following : Follower.Parts
following = record {
  bytes = octets;
  decode = λ text. some text;
  verify = λ key sig msg. str_eq key sig;
  stored_hashes = λ i e hr. some (blank ∷ []);
  tree_hash = λ n hs. some blank;
}

abbrev upstream : Upstream
upstream = record { log_id = 7 ∷ []; ca_cosigner_id = 8 ∷ []; ca_cosigner_key = 5 ∷ [] }

abbrev nothing : Follower
nothing = record { size = 0; root = []; signed_note = []; hashes = []; halted = false }

abbrev grows : Answers
grows = record { checkpoint = some (checkpoint b'1'); data_tile = λ tile n. some (0 ∷ 1 ∷ 9 ∷ []) }

abbrev shrinks : Answers
shrinks = record { checkpoint = some (checkpoint b'0'); data_tile = λ tile n. none }

polls-halt : polls following upstream (grows ∷ shrinks ∷ []) nothing ≡ record {
  size = 1;
  root = blank;
  signed_note = checkpoint b'1';
  hashes = blank ∷ [];
  halted = true;
}
unfolding polls split_data_tile hash_eq str_eq split_fuel oid_name
polls-halt = refl

polls-Grown_example :
    Grown following upstream nothing (polls following upstream (grows ∷ shrinks ∷ []) nothing)
    × Rooted following upstream (polls following upstream (grows ∷ shrinks ∷ []) nothing)
polls-Grown_example = polls-Grown following upstream (grows ∷ shrinks ∷ []) nothing (inl refl)

polls-Attested_example :
    Attested following upstream (polls following upstream (grows ∷ shrinks ∷ []) nothing)
polls-Attested_example = polls-Attested following upstream (grows ∷ shrinks ∷ []) nothing (inl refl)

abbrev stored : Disk
stored = record {
  halted_file = false;
  size_file = found (0 ∷ 0 ∷ 0 ∷ 0 ∷ 0 ∷ 0 ∷ 0 ∷ 2 ∷ []);
  checkpoint_file = found (checkpoint b'2');
}

abbrev loaded : Follower
loaded = record {
  size = 0;
  root = blank;
  signed_note = checkpoint b'2';
  hashes = [];
  halted = false;
}

stored-loads : load_from_disk following upstream stored ≡ ok loaded
unfolding load_from_disk oid_name
stored-loads = refl

polls-load_from_disk_example :
    (loaded.size ≡ 0)
    × Attested following upstream (polls following upstream (grows ∷ []) loaded)
    × Rooted following upstream (polls following upstream (grows ∷ []) loaded)
    × ((polls following upstream (grows ∷ []) loaded ≡ loaded) ⊎ (stored.halted_file ≡ false))
polls-load_from_disk_example =
    polls-load_from_disk following upstream stored (grows ∷ []) loaded stored-loads

abbrev forget : List ℕ → Hash
forget x = blank

abbrev signing_parts : Server.Parts
signing_parts = record {
  bytes = octets;
  sha256 = forget;
  stored_hash_index = λ level n. level;
  verify = λ key sig msg. str_eq sig (9 ∷ []);
  sign = λ msg. some (6 ∷ []);
  encode = λ octets. octets;
  decode = λ text. some text;
}

abbrev ca_key : CosignerKey
ca_key = record { id = 8 ∷ []; algorithm = mldsa_44; public_key = zeros 1312 }

abbrev config : ServerConfig
config = record {
  log_id = 7 ∷ [];
  cosigner_id = 4 ∷ [];
  algorithm = mldsa_44;
  public_key = zeros 1312;
  upstream_ca_key = some ca_key;
}

abbrev three : Follower
three = record {
  size = 3;
  root = blank;
  signed_note = 1 ∷ [];
  hashes = blank ∷ blank ∷ blank ∷ blank ∷ [];
  halted = false;
}

-- The first octets of a blank key hash, no timestamp and a signature
abbrev by_ca : NoteSignature
by_ca = record { key_name = oid_name (8 ∷ []); sig_bytes = zeros 12 ++ (9 ∷ []) }

abbrev first_two : ParsedRequest
first_two = record {
  start = 0;
  end = 2;
  subtree_hash = blank;
  subtree_cosigs = by_ca ∷ [];
  proof = blank ∷ [];
  checkpoint_origin = oid_name (7 ∷ []);
  checkpoint_size = 3;
  checkpoint_root = blank;
}

abbrev line : List ℕ
line =
    0xe2
    ∷ 0x80
    ∷ 0x94
    ∷ b' '
    ∷ (oid_name (4 ∷ []) ++ (b' ' ∷ 0 ∷ 0 ∷ 0 ∷ 0 ∷ 0 ∷ 0 ∷ 0 ∷ 0 ∷ 0 ∷ 0 ∷ 0 ∷ 0 ∷ 6 ∷ 10 ∷ []))

abbrev body : List ℕ
body =
    b's'
    ∷ b'u'
    ∷ b'b'
    ∷ b't'
    ∷ b'r'
    ∷ b'e'
    ∷ b'e'
    ∷ b' '
    ∷ b'0'
    ∷ b' '
    ∷ b'2'
    ∷ 10
    ∷ (blank
        ++ (10
            ∷ 0xe2
            ∷ 0x80
            ∷ 0x94
            ∷ b' '
            ∷ (oid_name (8 ∷ [])
                ++ (b' '
                    ∷ (zeros 12
                        ++ (9
                            ∷ 10
                            ∷ (blank
                                ++ (10
                                    ∷ 10
                                    ∷ (oid_name (7 ∷ [])
                                        ++ (10 ∷ b'3' ∷ 10 ∷ (blank ++ (10 ∷ 10 ∷ []))))))))))))

parses : parse_request signing_parts.decode body ≡ ok first_two
unfolding parse_request oid_name
parses = refl

signs : answer signing_parts config three three true body ≡ ok line
unfolding answer verify_consistency_proof is_valid bit_ceil hash_eq hash_children subtree_hash
    read_hashes oid_name subtree_hash_fuel len64 first_hash str_eq
signs = refl

answers-agree_example : ((blank ≡ blank) × ((blank ∷ []) ≡ (blank ∷ []))) ⊎ Collision forget
answers-agree_example =
    answers-agree signing_parts config (λ x. refl) three three three three true true body body line
      line first_two first_two parses parses signs signs refl refl refl refl

parse_request-WellFormed_example : WellFormed signing_parts.decode first_two
parse_request-WellFormed_example =
    parse_request-WellFormed signing_parts.decode body first_two parses
