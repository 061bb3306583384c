-- ===== src/Dispatch/Calls.antt =====
-- A command about another peer from its request to its answer, through the event loops of both nodes
-- (core/src/app.rs).
use mathlib.Core.Path.{subst}
use Prim.Native.String.{◌++◌ as str_append}
use puppypeer.Prelude.{
  refl, err, ℕ, ◌≡◌, ◌≢◌, String, true, false, ==_iff, Option, none, some, [], ◌∷◌, Text, ok,
  Result-cases, inl, inr, arith,
}
use puppypeer.State.{PeerId}
use puppypeer.FilePath.{FilePath}
use puppypeer.State.Access.{MayAccess}
use puppypeer.Os.{Laws}
use puppypeer.Files.{FileChunk}
use puppypeer.Files
use puppypeer.Files.Reading.{IsChunkOf, read_file_lem}
use puppypeer.Wire.{
  PeerReq, PeerRes, list_dir, list_cpus, list_permissions, read_file, file_chunk, error,
  dir_entries, cpus, permissions,
}
use puppypeer.Node.{
  Node, Outcome, done, failed, panicked, read_access, can_access, handle_puppy_peer_req,
  read_file_res, answer,
}
use puppypeer.Node.Confined.{may_access}
use puppypeer.Node.Entries.{Host}
use puppypeer.Dispatch.Pending.{
  Sender, RequestId, PendingRequest, Pendings, lookup, remove, put, complete, await_entries,
  await_cpus, await_permissions, await_chunk, chunk_result, decode_chunk, decode_entries,
  decode_cpus, decode_permissions, Answer, entries_result, cpus_result, permissions_result,
}
use puppypeer.Dispatch.{
  Command, connect, list_dir_cmd, list_cpus_cmd, list_permissions_cmd, read_file_cmd, response,
  requested, responded, resolved, Net, App, ran, command, event, handle_request, handle_event,
  handle_cmd, step, run_all, send_response, list_dir_here, list_cpus_here, list_permissions_here,
  read_file_here,
}
use puppypeer.Dispatch.Senders.{IsUnused, remove_unused, lookup_unused}

-- A command that asks something of a peer: of whom, what, and what waits for the response.
abbrev pub asks : Command → Option (PeerId × PeerReq × PendingRequest)
asks (connect peer addr) = none
asks (list_dir_cmd peer path tx) = some (peer, list_dir path, await_entries tx)
asks (list_cpus_cmd tx peer) = some (peer, list_cpus, await_cpus tx)
asks (list_permissions_cmd peer tx) = some (peer, list_permissions, await_permissions tx)
asks (read_file_cmd peer path offset length tx) =
    some (peer, read_file path offset length, await_chunk tx)

-- The sender that a command brings.
abbrev pub sender_of : Command → Option Sender
sender_of (connect peer addr) = none
sender_of (list_dir_cmd peer path tx) = some tx
sender_of (list_cpus_cmd tx peer) = some tx
sender_of (list_permissions_cmd peer tx) = some tx
sender_of (read_file_cmd peer path offset length tx) = some tx

-- An error is passed on, and what is no answer to the command is an error too.
abbrev pub error_of : (PeerRes → String) → PeerRes → String
error_of debug (error e) = e
error_of debug res = str_append "unexpected response: " (debug res)

-- What a sender that waits is told: the entries, processors, permissions or the chunk of a response of
-- the kind that its command asks for, and an error for any other response.
abbrev pub Tells : (PeerRes → String) → Command → PeerRes → Answer → Type 0
Tells debug (list_dir_cmd peer path tx) (dir_entries es) a = a ≡ entries_result (ok es)
Tells debug (list_dir_cmd peer path tx) res a = a ≡ entries_result (err (error_of debug res))
Tells debug (list_cpus_cmd tx peer) (cpus infos) a = a ≡ cpus_result (ok infos)
Tells debug (list_cpus_cmd tx peer) res a = a ≡ cpus_result (err (error_of debug res))
Tells debug (list_permissions_cmd peer tx) (permissions ps) a = a ≡ permissions_result (ok ps)
Tells debug (list_permissions_cmd peer tx) res a = a ≡ permissions_result (err (error_of debug res))
Tells debug (read_file_cmd peer path offset length tx) (file_chunk chunk) a =
    a ≡ chunk_result (ok chunk)
Tells debug (read_file_cmd peer path offset length tx) res a =
    a ≡ chunk_result (err (error_of debug res))
Tells debug (connect peer addr) res a = ⊥

-- A request that waits tells the command's sender what it should.
abbrev Completes : (PeerRes → String) → Command → PeerRes → Sender × Answer → Type 0
Completes debug cmd res (tx, a) = (sender_of cmd ≡ some tx) × Tells debug cmd res a

entries_told :
    (debug : PeerRes → String) (peer : PeerId) (path : Text) (tx : Sender) (res : PeerRes)
    → Completes debug (list_dir_cmd peer path tx) res (complete debug (await_entries tx) res)
unfolding complete decode_entries
entries_told debug peer path tx (dir_entries es) = (refl, refl)
entries_told debug peer path tx (error e) = (refl, refl)
entries_told debug peer path tx res = (refl, refl)

cpus_told :
    (debug : PeerRes → String) (peer : PeerId) (tx : Sender) (res : PeerRes)
    → Completes debug (list_cpus_cmd tx peer) res (complete debug (await_cpus tx) res)
unfolding complete decode_cpus
cpus_told debug peer tx (cpus infos) = (refl, refl)
cpus_told debug peer tx (error e) = (refl, refl)
cpus_told debug peer tx res = (refl, refl)

permissions_told :
    (debug : PeerRes → String) (peer : PeerId) (tx : Sender) (res : PeerRes)
    → Completes debug (list_permissions_cmd peer tx) res (complete debug (await_permissions tx) res)
unfolding complete decode_permissions
permissions_told debug peer tx (permissions ps) = (refl, refl)
permissions_told debug peer tx (error e) = (refl, refl)
permissions_told debug peer tx res = (refl, refl)

chunk_told :
    (debug : PeerRes → String) (peer : PeerId) (path : Text) (offset : ℕ) (len : Option ℕ)
    (tx : Sender) (res : PeerRes)
    → Completes debug
        (read_file_cmd peer path offset len tx)
        res
        (complete debug (await_chunk tx) res)
unfolding complete decode_chunk
chunk_told debug peer path offset len tx (file_chunk chunk) = (refl, refl)
chunk_told debug peer path offset len tx (error e) = (refl, refl)
chunk_told debug peer path offset len tx res = (refl, refl)

told :
    (debug : PeerRes → String) (cmd : Command) (peer : PeerId) (req : PeerReq) (p : PendingRequest)
    (res : PeerRes)
    → asks cmd ≡ some (peer, req, p)
    → Completes debug cmd res (complete debug p res)
told debug (connect q addr) peer req p res h = absurd (ground arith)
told debug (list_dir_cmd q path tx) peer req p res h =
    subst (λ x. Completes debug (list_dir_cmd q path tx) res (complete debug x res))
      (ground (arith, h)) (entries_told debug q path tx res)
told debug (list_cpus_cmd tx q) peer req p res h =
    subst (λ x. Completes debug (list_cpus_cmd tx q) res (complete debug x res)) (ground (arith, h))
      (cpus_told debug q tx res)
told debug (list_permissions_cmd q tx) peer req p res h =
    subst (λ x. Completes debug (list_permissions_cmd q tx) res (complete debug x res))
      (ground (arith, h)) (permissions_told debug q tx res)
told debug (read_file_cmd q path offset len tx) peer req p res h =
    subst (λ x. Completes debug (read_file_cmd q path offset len tx) res (complete debug x res))
      (ground (arith, h)) (chunk_told debug q path offset len tx res)

lookup-put :
    (id : RequestId) (p : PendingRequest) (ps : Pendings) → lookup id (put id p ps) ≡ some p
unfolding lookup put
lookup-put id p ps = ground (arith, ==_iff id id)

remove-put :
    (id : RequestId) (p : PendingRequest) (ps : Pendings)
    → IsUnused id ps
    → remove id (put id p ps) ≡ ps
unfolding remove put
remove-put id p ps u = unfold remove in ground (arith, ==_iff id id, remove_unused id ps u)

module _ (host : Host) (debug : PeerRes → String) where
  open host use {os}
  open os use {Disk, content}

  -- The command alone: the request is sent, and waits.
  command_sends :
      (app : App Disk) (net : Net) (cmd : Command) (peer : PeerId) (req : PeerReq)
      (p : PendingRequest)
      → IsUnused net.request_id app.pending_requests
      → app.node.poisoned ≡ false
      → app.node.state.me ≢ peer
      → asks cmd ≡ some (peer, req, p)
      → handle_cmd host app net cmd
        ≡ ran
            (record app { pending_requests = put net.request_id p app.pending_requests })
            (requested net.request_id peer req ∷ [])
  unfolding handle_cmd list_dir_here list_cpus_here list_permissions_here read_file_here
  command_sends app net (connect q addr) peer req p u sound other h = ground arith
  command_sends app net (list_dir_cmd q path tx) peer req p u sound other h =
      ground
        (arith, ==_iff app.node.state.me q, lookup_unused net.request_id app.pending_requests u)
  command_sends app net (list_cpus_cmd tx q) peer req p u sound other h =
      ground (arith, ==_iff app.node.state.me q)
  command_sends app net (list_permissions_cmd q tx) peer req p u sound other h =
      ground
        (arith, ==_iff app.node.state.me q, lookup_unused net.request_id app.pending_requests u)
  command_sends app net (read_file_cmd q path offset length tx) peer req p u sound other h =
      ground (arith, ==_iff app.node.state.me q)

  run_all_told :
      (app : App Disk) (net later : Net) (cmd : Command) (peer : PeerId) (req : PeerReq)
      (p : PendingRequest) (res : PeerRes)
      → IsUnused net.request_id app.pending_requests
      → app.node.poisoned ≡ false
      → app.node.state.me ≢ peer
      → asks cmd ≡ some (peer, req, p)
      → run_all host debug app
          ((net, command cmd) ∷ (later, event (response net.request_id res)) ∷ [])
        ≡ ran app (
            requested net.request_id peer req
            ∷ resolved (complete debug p res).0 (complete debug p res).1
            ∷ [])
  unfolding run_all step handle_event
  run_all_told app net later cmd peer req p res u sound other h = ground (
    arith,
    command_sends app net cmd peer req p u sound other h,
    lookup-put net.request_id p app.pending_requests,
    remove-put net.request_id p app.pending_requests u,
  )

  -- A command about another peer, on a lock that is sound and with a fresh id, sends the request that
  -- the command stands for to that peer. The response under the id answers the sender that the
  -- command brought: with the entries, processors, permissions or the chunk of a response of the
  -- kind that was asked for, with the peer's error, and with an error that shows the response
  -- where it is of another kind. The node is then as it was, and nothing more waits.
  pub run_all-round_trip :
      (app : App Disk) (net later : Net) (cmd : Command) (peer : PeerId) (req : PeerReq)
      (p : PendingRequest) (res : PeerRes)
      → IsUnused net.request_id app.pending_requests
      → app.node.poisoned ≡ false
      → app.node.state.me ≢ peer
      → asks cmd ≡ some (peer, req, p)
      → (tx : Sender) × (a : Answer) × (sender_of cmd ≡ some tx)
        × Tells debug cmd res a
        × (run_all host debug app
              ((net, command cmd) ∷ (later, event (response net.request_id res)) ∷ [])
            ≡ ran app (requested net.request_id peer req ∷ resolved tx a ∷ []))
  run_all-round_trip app net later cmd peer req p res u sound other h =
      let (is_brought, tells) = told debug cmd peer req p res h in
      (
        (complete debug p res).0,
        (complete debug p res).1,
        is_brought,
        tells,
        run_all_told app net later cmd peer req p res u sound other h,
      )

-- Only a chunk is decoded to a chunk.
chunk_response :
    (debug : PeerRes → String) (tx : Sender) (res : PeerRes) (chunk : FileChunk)
    → complete debug (await_chunk tx) res ≡ (tx, chunk_result (ok chunk))
    → res ≡ file_chunk chunk
unfolding complete decode_chunk
chunk_response debug tx (file_chunk c) chunk h = ground arith
chunk_response debug tx (error e) chunk h = absurd (ground arith)
chunk_response debug tx res chunk h = absurd (ground arith)

module _ (host : Host) where
  open host use {os}
  open os use {Disk, content, canonicalize}

  -- A chunk is sent back only where the handler responds with it.
  chunk_outcome :
      (o : Outcome) (server server' : App Disk) (n : Node Disk) (channel : ℕ) (chunk : FileChunk)
      → send_response server channel n (answer host o)
        ≡ ran server' (responded channel (file_chunk chunk) ∷ [])
      → o ≡ done (file_chunk chunk)
  chunk_outcome (done res) server server' n channel chunk h = ground arith
  chunk_outcome (failed e) server server' n channel chunk h = absurd (ground arith)
  chunk_outcome panicked server server' n channel chunk h = absurd (ground arith)

  read_file_res-IsChunkOf :
      Laws os
      → (n : Node Disk) (peer : PeerId) (path : Text) (offset : ℕ) (len : Option ℕ)
        (chunk : FileChunk)
      → read_file_res host n peer path offset len ≡ done (file_chunk chunk)
      → (canonical : FilePath) × (canonicalize path n.disk ≡ ok canonical)
        × MayAccess n.state peer canonical read_access
        × IsChunkOf (content canonical n.disk) offset chunk
  unfolding read_file_res
  read_file_res-IsChunkOf laws n peer path offset len chunk h =
      elim (Result-cases (canonicalize path n.disk)) [
        | inl (canonical, e) ↦
            let may : can_access host n peer canonical read_access ≡ true = ground arith in
            let got : Files.read_file os canonical offset len n.disk ≡ ok chunk = ground arith in
            (
              canonical,
              e,
              may_access host n peer canonical read_access may,
              (read_file_lem os laws canonical offset len n.disk chunk got).0,
            )
        | inr (x, e) ↦ absurd (ground arith)
      ]

  -- A node that asks a peer for a part of a file, gets the peer's response to this request and decodes
  -- a chunk from it, has a chunk of a file of the peer: the one that the path led to on the peer's
  -- disk, which the peer's rules let the node read and search.
  pub remote_read_lem :
      Laws os
      → (debug : PeerRes → String) (server server' : App Disk) (channel : ℕ) (me : PeerId)
        (path : Text) (offset : ℕ) (len : Option ℕ) (tx : Sender) (res : PeerRes)
        (chunk : FileChunk)
      → handle_request host server channel me (read_file path offset len)
        ≡ ran server' (responded channel res ∷ [])
      → complete debug (await_chunk tx) res ≡ (tx, chunk_result (ok chunk))
      → (canonical : FilePath) × (canonicalize path server.node.disk ≡ ok canonical)
        × MayAccess server.node.state me canonical read_access
        × IsChunkOf (content canonical server.node.disk) offset chunk
  unfolding handle_request handle_puppy_peer_req
  remote_read_lem laws debug server server' channel me path offset len tx res chunk h c =
      let is_chunk = chunk_response debug tx res chunk c in
      read_file_res-IsChunkOf laws server.node me path offset len chunk
        (chunk_outcome _ server server' server.node channel chunk (ground arith))
