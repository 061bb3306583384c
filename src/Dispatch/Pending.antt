-- ===== src/Dispatch/Pending.antt =====
-- The requests that wait for a response: `Pending`, `ResponseDecoder` and the map
-- `pending_requests` of core/src/app.rs. A sender is the number of its one-shot channel, an answer
-- what is sent on it.
use Prim.Native.String.{◌++◌ as str_append}
use puppypeer.Prelude.{
  ℕ, String, not, ◌==◌, Option, none, some, List, [], ◌∷◌, retain, Result, ok, err, if◌then◌else◌,
}
use puppypeer.Rule.{Permission}
use puppypeer.Files.{FileChunk}
use puppypeer.Wire.{DirEntry, CpuInfo, PeerRes, dir_entries, cpus, permissions, file_chunk, error}

abbrev pub Sender : Type 0
Sender = ℕ

abbrev pub RequestId : Type 0
RequestId = ℕ

-- `Pending<T>` at the four types that responses are decoded to.
pub data PendingRequest : Type 0 where
  await_entries await_cpus await_permissions await_chunk : Sender → PendingRequest

pub data Answer : Type 0 where
  entries_result : Result (List DirEntry) → Answer
  cpus_result : Result (List CpuInfo) → Answer
  permissions_result : Result (List Permission) → Answer
  chunk_result : Result FileChunk → Answer

abbrev pub sender : PendingRequest → Sender
sender (await_entries tx) = tx
sender (await_cpus tx) = tx
sender (await_permissions tx) = tx
sender (await_chunk tx) = tx

-- `pending_requests`: at most one request under an id.
abbrev pub Pendings : Type 0
Pendings = List (RequestId × PendingRequest)

unfoldable pub lookup : RequestId → Pendings → Option PendingRequest
lookup id [] = none
lookup id ((k, p) ∷ ps) = if k == id then some p else lookup id ps

unfoldable pub remove : RequestId → Pendings → Pendings
remove id ps = retain (λ e. not (e.0 == id)) ps

unfoldable pub put : RequestId → PendingRequest → Pendings → Pendings
unfolding remove
put id p ps = (id, p) ∷ remove id ps

module _ (debug : PeerRes → String) where
  abbrev pub unexpected {ℓ} : {A : Type ℓ} → PeerRes → Result A
  unexpected res = err (str_append "unexpected response: " (debug res))

  -- `ResponseDecoder::decode`
  unfoldable pub decode_entries : PeerRes → Result (List DirEntry)
  decode_entries (dir_entries entries) = ok entries
  decode_entries other = unexpected other

  unfoldable pub decode_cpus : PeerRes → Result (List CpuInfo)
  decode_cpus (cpus infos) = ok infos
  decode_cpus other = unexpected other

  unfoldable pub decode_permissions : PeerRes → Result (List Permission)
  decode_permissions (permissions perms) = ok perms
  decode_permissions other = unexpected other

  unfoldable pub decode_chunk : PeerRes → Result FileChunk
  decode_chunk (file_chunk chunk) = ok chunk
  decode_chunk other = unexpected other

  abbrev pub decoded {ℓ} : {A : Type ℓ} → (PeerRes → Result A) → PeerRes → Result A
  decoded decode (error e) = err e
  decoded decode other = decode other

  unfoldable pub complete : PendingRequest → PeerRes → Sender × Answer
  unfolding decode_entries decode_cpus decode_permissions decode_chunk
  complete (await_entries tx) res = (tx, entries_result (decoded decode_entries res))
  complete (await_cpus tx) res = (tx, cpus_result (decoded decode_cpus res))
  complete (await_permissions tx) res = (tx, permissions_result (decoded decode_permissions res))
  complete (await_chunk tx) res = (tx, chunk_result (decoded decode_chunk res))

unfoldable pub fail : PendingRequest → String → Sender × Answer
fail (await_entries tx) e = (tx, entries_result (err e))
fail (await_cpus tx) e = (tx, cpus_result (err e))
fail (await_permissions tx) e = (tx, permissions_result (err e))
fail (await_chunk tx) e = (tx, chunk_result (err e))
