-- ===== src/Files/Writing.antt =====
-- What `write_file` of core/src/app.rs and `write_file_range` of core/src/p2p.rs leave on the disk.
use puppypeer.Prelude.{
  ℕ, zero, suc, ◌+◌, ◌-◌, ◌≤◌, ◌<◌, ◌≡◌, ◌≢◌, ◌⊎◌, refl, sym, ap, ◌∙◌, Option, none, some, [], ◌∷◌,
  ◌++◌, length, take, drop, length-append, Result, ok, err, Result-cases, inl, inr, arith,
}
use native.Mathlib.Nat.{sub-zero, suc-sub-suc}
use puppypeer.FilePath.{FilePath}
use puppypeer.Os.{Os, Laws, IsQuiet, Bytes, Metadata, zeros, resize, overwrite}
use puppypeer.Files.{FileWriteAck, write_file, u64_mod}

-- The content with `bs` at `offset`: the gap up to the offset, if there is one, reads as zeros.
abbrev pub splice : ℕ → Bytes → Bytes → Bytes
splice offset bs c =
    take offset (c ++ zeros (offset - length c)) ++ bs ++ drop (offset + length bs) c

take-replicate : (o n : ℕ) → o ≤ n → take o (zeros n) ≡ zeros o
take-replicate zero n h = refl
take-replicate (suc o) zero h = absurd (omega arith)
take-replicate (suc o) (suc n) h = ap (◌∷◌ 0) (take-replicate o n (omega arith))

take-resize :
    (o : ℕ) (c : Bytes) (n : ℕ) → o ≤ n → take o (resize n c) ≡ take o (c ++ zeros (o - length c))
take-resize zero c n h = refl
take-resize (suc o) [] zero h = absurd (omega arith)
take-resize (suc o) [] (suc n) h =
    rw (sub-zero (suc n), sub-zero (suc o))
      (ap (◌∷◌ 0) (take-replicate o n (omega arith) ∙ sym (take-replicate o o (omega arith))))
take-resize (suc o) (x ∷ c) zero h = absurd (omega arith)
take-resize (suc o) (x ∷ c) (suc n) h =
    rw (suc-sub-suc n (length c), suc-sub-suc o (length c))
      (ap (◌∷◌ x) (take-resize o c n (omega arith)))

take-pad_within : (o : ℕ) (c : Bytes) → o ≤ length c → take o c ≡ take o (c ++ zeros (o - length c))
take-pad_within zero c h = refl
take-pad_within (suc o) [] h = absurd (omega arith)
take-pad_within (suc o) (x ∷ c) h = rw suc-sub-suc (ap (◌∷◌ x) (take-pad_within o c (omega arith)))

drop_past : (n : ℕ) (c : Bytes) → length c ≤ n → drop n c ≡ []
drop_past zero [] h = refl
drop_past zero (x ∷ c) h = absurd (omega arith)
drop_past (suc n) [] h = refl
drop_past (suc n) (x ∷ c) h = drop_past n c (omega arith)

length-take : (n : ℕ) (c : Bytes) → n ≤ length c → length (take n c) ≡ n
length-take zero c h = refl
length-take (suc n) [] h = absurd (omega arith)
length-take (suc n) (x ∷ c) h = ap suc (length-take n c (omega arith))

length-replicate : (n : ℕ) → length (zeros n) ≡ n
length-replicate zero = refl
length-replicate (suc n) = ap suc (length-replicate n)

take_all : (n : ℕ) (c : Bytes) → length c ≤ n → take n c ≡ c
take_all zero [] h = refl
take_all zero (x ∷ c) h = absurd (omega arith)
take_all (suc n) [] h = refl
take_all (suc n) (x ∷ c) h = ap (◌∷◌ x) (take_all n c (omega arith))

length-resize : (n : ℕ) (c : Bytes) → length c ≤ n → length (resize n c) ≡ n
length-resize n c h = rw (length-append, take_all n c h, length-replicate) (omega arith)

overwrite_grown :
    (offset : ℕ) (bs c : Bytes)
    → length c < offset + length bs
    → overwrite offset bs (resize (offset + length bs) c) ≡ splice offset bs c
overwrite_grown offset bs c h =
    rw
      (
        take-resize offset c (offset + length bs) (omega arith),
        drop_past (offset + length bs) (resize (offset + length bs) c)
            (omega (arith, length-resize (offset + length bs) c)),
        drop_past (offset + length bs) c (omega arith),
      )
      refl

overwrite_within :
    (offset : ℕ) (bs c : Bytes)
    → offset + length bs ≤ length c
    → overwrite offset bs c ≡ splice offset bs c
overwrite_within offset bs c h = rw (take-pad_within offset c (omega arith)) refl

abbrev pub forget {ℓ} : {A : Type ℓ} → Result A → Option A
forget (ok a) = some a
forget (err e) = none

module _ (os : Os) (path : FilePath) (offset : ℕ) (bs : Bytes) where
  open os use {Disk, file_at, settle, content, metadata, open_write, set_len, write_all}

  abbrev opened : Disk → Disk
  opened d = (open_write path d).1

  abbrev grown : Disk → Disk
  grown d = (set_len path (offset + length bs) (opened d)).1

  -- Whether a write succeeds or fails, and where it fails, a file that the path does not lead to
  -- once it is opened does not change, neither by the calls nor when what they left settles.
  pub write_file-other :
      Laws os
      → (d : Disk) (q : FilePath) → IsQuiet os d
      → file_at q (opened d) ≢ file_at path (opened d)
      → (content q (write_file os path offset bs d).1 ≡ content q d)
        × (content q (settle (write_file os path offset bs d).1).1 ≡ content q d)
  unfolding write_file
  write_file-other laws d q quiet other =
      let quiet' = laws.open_write-quiet path d quiet in
      let quiet'' = laws.set_len-quiet path (offset + length bs) (opened d) quiet' in
      let other' : file_at q (grown d) ≢ file_at path (grown d) =
        rw
          (
            laws.set_len-file path q (offset + length bs) (opened d),
            laws.set_len-file path path (offset + length bs) (opened d),
          )
          other in
      let same = laws.open_write-content path q d in
      let same' = laws.set_len-other path q (offset + length bs) (opened d) other in
      let short = laws.write_all-other path q offset bs (opened d) quiet' other in
      let long = laws.write_all-other path q offset bs (grown d) quiet'' other' in
      ground (arith, quiet', quiet'', same, same', short, long)

  -- The disk that a successful write leaves.
  write_file_cases :
      (d : Disk) (ack : FileWriteAck)
      → (write_file os path offset bs d).0 ≡ ok ack
      → (m : Metadata) × (metadata path (opened d) ≡ ok m)
        × (offset + length bs < u64_mod)
        × (ack.bytes_written ≡ length bs)
        × (((m.len < offset + length bs)
              × ((set_len path (offset + length bs) (opened d)).0 ≡ ok tt)
              × ((write_all path offset bs (grown d)).0 ≡ ok tt)
              × ((write_file os path offset bs d).1 ≡ (write_all path offset bs (grown d)).1))
            ⊎ ((offset + length bs ≤ m.len)
                × ((write_all path offset bs (opened d)).0 ≡ ok tt)
                × ((write_file os path offset bs d).1 ≡ (write_all path offset bs (opened d)).1)))
  unfolding write_file
  write_file_cases d ack h = elim (Result-cases (metadata path (opened d))) [
    | inl (m, e) ↦ (m, e, ground arith, ground arith, ground arith)
    | inr (x, e) ↦ ground arith
  ]

  -- If nothing is under way and the bytes that the call has taken over are written without an error:
  -- after a successful write the file holds the written bytes at the offset, what it held
  -- elsewhere, and zeros in a gap before them; the acknowledgement counts the bytes, and the end of
  -- the range fits a `u64`.
  pub write_file_lem :
      Laws os
      → (d : Disk) (ack : FileWriteAck) → IsQuiet os d
      → (write_file os path offset bs d).0 ≡ ok ack
      → (settle (write_file os path offset bs d).1).0 ≡ ok tt
      → (content path (settle (write_file os path offset bs d).1).1
          ≡ splice offset bs (content path d))
        × (ack.bytes_written ≡ length bs)
        × (offset + length bs < u64_mod)
  write_file_lem laws d ack quiet h settled =
      let (m, e, fits, count, outcome) = write_file_cases d ack h in
      let same : content path (opened d) ≡ content path d = laws.open_write-content path path d in
      let size : m.len ≡ length (content path d) =
        laws.len-content path (opened d) m e ∙ ap length same in
      let quiet' = laws.open_write-quiet path d quiet in
      (
        elim outcome [
          | inl (short, set, all, left) ↦
              let held : content path (grown d) ≡ resize (offset + length bs) (content path d) =
                laws.set_len-content path (offset + length bs) (opened d) set
                ∙ ap (resize (offset + length bs)) same in
              rw left (
                laws.write_all-content path offset bs (grown d)
                  (laws.set_len-quiet path (offset + length bs) (opened d) quiet')
                  (rw held (omega (arith, length-resize (offset + length bs) (content path d)))) all
                  (rw (← left) settled)
                ∙ ap (overwrite offset bs) held
                ∙ overwrite_grown offset bs (content path d) (omega arith))
          | inr (long, all, left) ↦ rw left (
              laws.write_all-content path offset bs (opened d) quiet' (rw same (omega arith)) all
                (rw (← left) settled)
              ∙ ap (overwrite offset bs) same
              ∙ overwrite_within offset bs (content path d) (omega arith))
        ],
        count,
        fits,
      )
