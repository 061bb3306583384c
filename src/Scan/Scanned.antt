-- ===== src/Scan/Scanned.antt =====
-- The map `scanned` of core/src/scan.rs, and the entries that are made of it.
use puppypeer.Prelude.{
  ◌≡◌, refl, sym, ◌∙◌, false, Option, none, some, List, [], ◌∷◌, All, Text, text_eq,
}
use puppypeer.Scan.{FileLocation, FileEntry, Host, find_location, scan_file}
use puppypeer.Scan.Store.{upsert_entry, entry_of, upsert_entries, scan_files}
use puppypeer.Scan.Stored.{Yields, bind-Yields}
use puppypeer.Scan.StoredAll.{IsMap}
use puppypeer.Scan.Files.{HasHash, OldHasHash, IsReadable, IsCurrent, scan_file_lem}

-- No two paths of a list are the same.
abbrev pub DistinctPaths : List Text → Type 0
DistinctPaths [] = Unit
DistinctPaths (p ∷ ps) = All (λ q. text_eq p q ≡ false) ps × DistinctPaths ps

pub upsert_entries-Yields :
    (xs : List (Text × FileLocation)) (es : List FileEntry)
    → All (λ x. HasHash x.1) xs
    → Yields (λ es'. Unit {0}) (upsert_entries xs es)
unfolding upsert_entries
upsert_entries-Yields [] es h = tt
upsert_entries-Yields ((p, l) ∷ xs) es h =
    bind-Yields (λ e. Unit {0}) (λ es'. Unit {0}) (entry_of l l.hash) _
      (entry_of-Yields l l.hash h.0) (λ e u. upsert_entries-Yields xs (upsert_entry e es) h.1)
  where
    entry_of-Yields :
        (l : FileLocation) (o : Option Text)
        → Yields (λ h. Unit {0}) o
        → Yields (λ e. Unit {0}) (entry_of l o)
    entry_of-Yields l none k = absurd k
    entry_of-Yields l (some x) k = tt

module _ (host : Host) (existing : List FileLocation) where
  -- The scanned files are those of the paths, in their order, as they are now.
  abbrev pub Scanned : List Text → List (Text × FileLocation) → Type 0
  Scanned [] [] = Unit
  Scanned [] (x ∷ xs) = ⊥
  Scanned (p ∷ ps) [] = ⊥
  Scanned (p ∷ ps) (x ∷ xs) =
      (x.0 ≡ p)
      × (x.1.path ≡ p)
      × HasHash x.1
      × IsCurrent host p (find_location p existing) x.1
      × Scanned ps xs

  pub scan_files-Yields :
      (ps : List Text)
      → All (λ p. IsReadable host p × OldHasHash host (find_location p existing)) ps
      → Yields (Scanned ps) (scan_files host existing ps)
  unfolding scan_files
  scan_files-Yields [] h = tt
  scan_files-Yields (p ∷ ps) h =
      bind-Yields _ (Scanned (p ∷ ps)) (scan_file host existing p) _
        (scan_file_lem host existing p h.0.0 h.0.1)
        (λ l k.
          bind-Yields (Scanned ps) (Scanned (p ∷ ps)) (scan_files host existing ps) _
            (scan_files-Yields ps h.1) (λ ls ks. (refl, k.0, k.1, k.2, ks)))

  Scanned-apart :
      (q : Text) (ps : List Text) (xs : List (Text × FileLocation))
      → Scanned ps xs
      → All (λ p. text_eq q p ≡ false) ps
      → All (λ x. text_eq q x.0 ≡ false) xs
  Scanned-apart q [] [] s d = tt
  Scanned-apart q [] (x ∷ xs) s d = absurd s
  Scanned-apart q (p ∷ ps) [] s d = absurd s
  Scanned-apart q (p ∷ ps) (x ∷ xs) s d = (rw s.0 d.0, Scanned-apart q ps xs s.4 d.1)

  pub Scanned-IsMap :
      (ps : List Text) (xs : List (Text × FileLocation))
      → Scanned ps xs
      → DistinctPaths ps
      → IsMap xs
  Scanned-IsMap [] [] s d = tt
  Scanned-IsMap [] (x ∷ xs) s d = absurd s
  Scanned-IsMap (p ∷ ps) [] s d = absurd s
  Scanned-IsMap (p ∷ ps) (x ∷ xs) s d =
      (s.1 ∙ sym s.0, Scanned-apart x.0 ps xs s.4 (rw s.0 d.0), Scanned-IsMap ps xs s.4 d.1)

  pub Scanned-HasHash :
      (ps : List Text) (xs : List (Text × FileLocation)) → Scanned ps xs → All (λ x. HasHash x.1) xs
  Scanned-HasHash [] [] s = tt
  Scanned-HasHash [] (x ∷ xs) s = absurd s
  Scanned-HasHash (p ∷ ps) [] s = absurd s
  Scanned-HasHash (p ∷ ps) (x ∷ xs) s = (s.2, Scanned-HasHash ps xs s.4)
