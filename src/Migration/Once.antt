-- ===== src/Migration/Once.antt =====
-- Each migration of core/src/db.rs is applied once.
use puppypeer.Prelude.{false, ℕ, ◌≡◌, true, List, map, All}
use puppypeer.Migration.{Migration, Database, Outage, has_applied}

abbrev ids_of : List Migration → List ℕ
ids_of ms = map (λ m. m.id) ms

IsNoted : Database → List Migration → Type 0
IsNoted db ms = All (λ m. has_applied db m ≡ true) ms

-- The listing succeeds, and every row of it can be read.
pub record IsListed (out : Outage) : Type 0 where
  pub created : out.create_fails ≡ false
  pub prepared : out.prepare_fails ≡ false
  pub queried : out.query_fails ≡ false
  pub readable : (i : ℕ) → out.unreadable i ≡ false
