-- ===== src/Tests/MemoryOs.antt =====
-- A file system in memory that meets the laws of Os.antt: every path is canonical, every file
-- exists, and every call does in full what it is asked for.
use puppypeer.Prelude.{
  ℕ, zero, suc, ◌≤◌, ◌<◌, ◌≡◌, ◌≢◌, refl, ap, false, Option, none, some, [], ◌∷◌, length, take,
  drop, text_eq, text_eq_refl, text_eq→eq, ok, arith, if◌then◌else◌,
}
use puppypeer.FilePath.{FilePath}
use puppypeer.Os.{Os, Laws, Bytes, Metadata, resize, overwrite}

abbrev pub MemoryDisk : Type 0
MemoryDisk = FilePath → Bytes

abbrev pub store : FilePath → Bytes → MemoryDisk → MemoryDisk
store p v d q = if text_eq p q then v else d q

abbrev pub file_metadata : ℕ → Metadata
file_metadata n = record {
  is_dir = false;
  len = n;
  created = none;
  modified = none;
  accessed = none;
}

abbrev pub memory_os : Os
memory_os = record {
  Disk = MemoryDisk;
  File = FilePath;
  file_at = λ p d. some p;
  settle = λ d. (ok tt, d);
  content = λ p d. d p;
  canonicalize = λ p d. ok p;
  metadata = λ p d. ok (file_metadata (length (d p)));
  read_dir = λ p d. ok [];
  open_read = λ p d. ok tt;
  open_write = λ p d. (ok tt, d);
  set_len = λ p n d. (ok tt, store p (resize n (d p)) d);
  seek = λ p n d. ok tt;
  read = λ p offset n d. ok (take n (drop offset (d p)));
  write_all = λ p offset bs d. (ok tt, store p (overwrite offset bs (d p)) d);
}

store_self : (p : FilePath) (v : Bytes) (d : MemoryDisk) → store p v d p ≡ v
store_self p v d = rw (text_eq_refl p) refl

store_other : (p q : FilePath) (v : Bytes) (d : MemoryDisk) → q ≢ p → store p v d q ≡ d q
store_other p q v d other = ground (arith, text_eq→eq p q)

take-length : (n : ℕ) (c : Bytes) → take n c ≡ take (length (take n c)) c
take-length zero c = refl
take-length (suc n) [] = refl
take-length (suc n) (x ∷ c) = ap (◌∷◌ x) (take-length n c)

length-take-le : (n : ℕ) (c : Bytes) → length (take n c) ≤ n
length-take-le zero c = omega arith
length-take-le (suc n) [] = omega arith
length-take-le (suc n) (x ∷ c) = omega (arith, length-take-le n c)

length-take-pos : (n : ℕ) (c : Bytes) → 0 < n → 0 < length c → 0 < length (take n c)
length-take-pos zero c h k = h
length-take-pos (suc n) [] h k = k
length-take-pos (suc n) (x ∷ c) h k = omega arith

length-drop-pos : (o : ℕ) (c : Bytes) → o < length c → 0 < length (drop o c)
length-drop-pos zero c h = h
length-drop-pos (suc o) [] h = absurd (omega arith)
length-drop-pos (suc o) (x ∷ c) h = length-drop-pos o c (omega arith)

take_of_ok : (bs cs c : Bytes) → ok cs ≡ ok bs → cs ≡ take (length cs) c → bs ≡ take (length bs) c
take_of_ok bs cs c e h = let same : cs ≡ bs = ground arith in rw same at h

other_path : (p q : FilePath) → ◌≢◌ {A = Option FilePath} (some q) (some p) → q ≢ p
other_path p q ne e = ne (ap (λ (x : FilePath). some x) e)

pub memory_laws : Laws memory_os
memory_laws = record {
  canonicalize-canonical = λ p q d e. refl;
  len-content = λ p d m e. ground arith;
  open_write-content = λ p q d. refl;
  open_write-file = λ p q d i e. e;
  open_write-creates = λ p q d i e f. f;
  open_write-quiet = λ p d h. refl;
  set_len-content = λ p n d e. store_self p _ d;
  set_len-other = λ p q n d other. store_other p q _ d (other_path p q other);
  set_len-file = λ p q n d. refl;
  set_len-quiet = λ p n d h. refl;
  write_all-content = λ p offset bs d h fits e s. store_self p _ d;
  write_all-other = λ p q offset bs d h other.
      (store_other p q _ d (other_path p q other), store_other p q _ d (other_path p q other));
  read-take = λ p offset n d bs e. take_of_ok bs _ _ e (take-length n (drop offset (d p)));
  read-le = λ p offset n d bs e. ground (arith, length-take-le n (drop offset (d p)));
  read-pos = λ p offset n d bs e asks inside.
      ground (arith, length-take-pos n (drop offset (d p)), length-drop-pos offset (d p));
}
