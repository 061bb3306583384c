-- ===== src/Scan/Hashing.antt =====
-- `sha256_hash` of core/src/scan.rs reads a file piece by piece.
use puppypeer.Prelude.{◌≡◌, sym, ap, ◌∙◌, List, [], ◌∷◌, ◌++◌, All, Result, ok, err}
use puppypeer.Os.{Bytes}
use puppypeer.Scan.{Digest, hash_from, sha256_hash}
use puppypeer.Scan.Files.{IsOk}

-- What is documented of a digest: it takes its input in pieces of any sizes.
pub record TakesPieces (digest : Digest) : Type 0 where
  pub update-update :
      (c : digest.Context) (a b : Bytes)
      → digest.update (digest.update c a) b ≡ digest.update c (a ++ b)
  pub update_nil : (c : digest.Context) → digest.update c [] ≡ c

-- The bytes of the reads up to the first that yields none.
abbrev pub content : List (Result Bytes) → Bytes
content [] = []
content (err e ∷ rs) = []
content (ok [] ∷ rs) = []
content (ok (b ∷ bs) ∷ rs) = (b ∷ bs) ++ content rs

module _ (digest : Digest) (laws : TakesPieces digest) where
  hash_from_lem :
      (c : digest.Context) (rs : List (Result Bytes))
      → All IsOk rs
      → hash_from digest c rs ≡ ok (digest.finish (digest.update c (content rs)))
  unfolding hash_from
  hash_from_lem c [] h = ap (λ x. ok (digest.finish x)) (sym (laws.update_nil c))
  hash_from_lem c (err e ∷ rs) h = absurd h.0
  hash_from_lem c (ok [] ∷ rs) h = ap (λ x. ok (digest.finish x)) (sym (laws.update_nil c))
  hash_from_lem c (ok (b ∷ bs) ∷ rs) h =
      hash_from_lem (digest.update c (b ∷ bs)) rs h.1
      ∙ ap (λ x. ok (digest.finish x)) (laws.update-update c (b ∷ bs) (content rs))

-- If no read fails, and a digest takes its input in pieces: the hash of a file is the digest of its whole
-- content, however the reads cut it.
pub sha256_hash_lem :
    (digest : Digest)
    → TakesPieces digest
    → (reads : List (Result Bytes)) → All IsOk reads
    → sha256_hash digest reads ≡ ok (digest.finish (digest.update digest.start (content reads)))
unfolding sha256_hash
sha256_hash_lem digest laws reads h = hash_from_lem digest laws digest.start reads h
